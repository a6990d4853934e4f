-- ===== src/Scheduler/Cron.antt =====
-- `validateCron` (packages/scheduler/src/index.ts). CRON_PART_RE is read by splitting at the commas and
-- the dashes, as the range check of the source does.
mod Examples
use chain_sieve.Base.{
  ℕ, ◌+◌, ◌-◌, ◌*◌, Bool, true, false, not, ◌&&◌, ◌||◌, Option, none, some, List, [], ◌∷◌, Text,
  same, codes, ltb, leb, ◌==◌, if◌then◌else◌, is_blank, trim, after_prefix, starts_with, every, any,
  length,
}

pub data CronIssue : Type 0 where
  cron_required cron_invalid : CronIssue

-- one more character of the first piece
unfoldable pub push_char : ℕ → List Text → List Text
push_char c [] = (c ∷ []) ∷ []
push_char c (w ∷ ws) = (c ∷ w) ∷ ws

-- `split` at a character
unfoldable pub split_at : ℕ → Text → List Text
split_at sep [] = [] ∷ []
split_at sep (c ∷ s) = let rest = split_at sep s in if c == sep then [] ∷ rest else push_char c rest

abbrev starts_blank : Text → Bool
starts_blank [] = false
starts_blank (c ∷ s) = is_blank c

-- `split(/\s+/)`: a run of blanks is one separator
unfoldable pub split_blanks : Text → List Text
split_blanks [] = [] ∷ []
split_blanks (c ∷ s) =
    let rest = split_blanks s in
    if is_blank c then (if starts_blank s then rest else [] ∷ rest) else push_char c rest

unfoldable pub is_digit : ℕ → Bool
is_digit c = leb 48 c && leb c 57

-- `\d+`
unfoldable pub is_digits : Text → Bool
is_digits [] = false
is_digits (c ∷ s) = every is_digit (c ∷ s)

-- `\d+(-\d+)?`, by its pieces between the dashes
unfoldable pub is_segment : List Text → Bool
is_segment (a ∷ []) = is_digits a
is_segment (a ∷ b ∷ []) = is_digits a && is_digits b
is_segment _ = false

abbrev comma : ℕ
comma = 44

abbrev dash : ℕ
dash = 45

abbrev star : ℕ
star = 42

-- `*/\d+`
abbrev is_step : Text → Bool
is_step p = elim (after_prefix (codes "*/") p) [ none ↦ false | some s ↦ is_digits s ]

-- CRON_PART_RE
unfoldable pub matches_part : Text → Bool
matches_part p =
    same p (star ∷ [])
    || is_step p
    || every (λ seg. is_segment (split_at dash seg)) (split_at comma p)

-- `Number` of a text of digits
unfoldable pub number_from : ℕ → Text → ℕ
number_from n [] = n
number_from n (c ∷ s) = number_from (n * 10 + (c - 48)) s

abbrev in_range : ℕ → ℕ → Text → Bool
in_range low high t = leb low (number_from 0 t) && leb (number_from 0 t) high

-- the range check of one part that CRON_PART_RE accepts
unfoldable pub part_in_range : ℕ → ℕ → Text → Bool
part_in_range low high p =
    same p (star ∷ [])
    || starts_with p (codes "*/")
    || every (λ seg. every (in_range low high) (split_at dash seg)) (split_at comma p)

unfoldable pub parts_in_range : List Text → Bool
parts_in_range (minute ∷ hour ∷ day ∷ month ∷ weekday ∷ []) =
    part_in_range 0 59 minute
    && part_in_range 0 23 hour
    && part_in_range 1 31 day
    && part_in_range 1 12 month
    && part_in_range 0 7 weekday
parts_in_range _ = false

unfoldable pub validate_cron : Text → Option CronIssue
validate_cron cron =
    let trimmed = trim cron in
    let parts = split_blanks trimmed in
    if same trimmed []
    then some cron_required
    else if not (length parts == 5)
    then some cron_invalid
    else if not (every matches_part parts)
    then some cron_invalid
    else if not (parts_in_range parts)
    then some cron_invalid
    else none
