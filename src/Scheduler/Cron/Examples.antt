-- ===== src/Scheduler/Cron/Examples.antt =====
-- `validateCron` (packages/scheduler/src/index.ts) on concrete texts.
use chain_sieve.Base.{◌≡◌, refl, none, some, codes, same, trim, after_prefix, starts_with}
use chain_sieve.Scheduler.Cron.{
  validate_cron, cron_required, cron_invalid, split_blanks, push_char, matches_part, is_digits,
  is_digit, split_at, is_segment, parts_in_range, part_in_range, number_from,
}

every_quarter : validate_cron (codes "*/15 9-17 * * 1-5") ≡ none
unfolding validate_cron same trim codes split_blanks push_char matches_part after_prefix is_digits
    is_digit split_at is_segment parts_in_range part_in_range starts_with number_from
every_quarter = refl

too_many_hours : validate_cron (codes "0 24 * * *") ≡ some cron_invalid
unfolding validate_cron same trim codes split_blanks push_char matches_part after_prefix is_digits
    is_digit split_at is_segment parts_in_range part_in_range starts_with number_from
too_many_hours = refl

blank_cron : validate_cron (codes "   ") ≡ some cron_required
unfolding validate_cron same trim codes split_blanks push_char matches_part after_prefix is_digits
    is_digit split_at is_segment parts_in_range part_in_range starts_with number_from
blank_cron = refl

-- a step of zero and a range that ends before it begins are accepted
step_of_zero : validate_cron (codes "*/0 5-2 * * *") ≡ none
unfolding validate_cron same trim codes split_blanks push_char matches_part after_prefix is_digits
    is_digit split_at is_segment parts_in_range part_in_range starts_with number_from
step_of_zero = refl
