-- ===== src/Collector/Checkpoints.antt =====
-- Checkpoints and gaps (packages/collector-core/src/index.ts).
use chain_sieve.Base.{
  ℕ, ◌+◌, ◌≤◌, ◌<◌, ◌≡◌, ◌↔◌, ◌⊎◌, ◌∙◌, refl, true, none, some, List, [], ◌∷◌, Text, same_iff,
  Bool-cases, inl, inr, arith,
}
use chain_sieve.Collector.{
  PartitionCheckpoint, IngestionStore, is_monotonic, detect_gap, commit_checkpoint,
}

-- the same partition, and not an earlier place
pub record IsAtLeast (prev next : PartitionCheckpoint) : Type 0 where
  pub partition : prev.partition ≡ next.partition
  pub place : (prev.slot < next.slot) ⊎ ((prev.slot ≡ next.slot) × (prev.sequence ≤ next.sequence))

-- the store has a checkpoint that is at least this one
abbrev pub IsPast : PartitionCheckpoint → IngestionStore → Type 0
IsPast c s = (d : PartitionCheckpoint) × (s.checkpoint ≡ some d) × IsAtLeast c d

unfoldable pub commit_all : List PartitionCheckpoint → IngestionStore → IngestionStore
commit_all [] s = s
commit_all (c ∷ cs) s = commit_all cs (commit_checkpoint c s).1

IsAtLeast-trans : (a b c : PartitionCheckpoint) → IsAtLeast a b → IsAtLeast b c → IsAtLeast a c
IsAtLeast-trans a b c h k = record {
  partition = h.partition ∙ k.partition;
  place = ground (arith, h.place, k.place);
}

monotonic-IsAtLeast :
    (prev next : PartitionCheckpoint) → is_monotonic (some prev) next ≡ true → IsAtLeast prev next
unfolding is_monotonic
monotonic-IsAtLeast prev next e = record {
  partition = ground (arith, same_iff prev.partition next.partition);
  place = ground arith;
}

IsPast-commit :
    (c next : PartitionCheckpoint) (s : IngestionStore)
    → IsPast c s
    → IsPast c (commit_checkpoint next s).1
unfolding commit_checkpoint
IsPast-commit c next s (d, e, h) = elim (Bool-cases (is_monotonic (some d) next)) [
  | inl q ↦ rw (e, q) (next, refl, IsAtLeast-trans c d next h (monotonic-IsAtLeast d next q))
  | inr q ↦ rw (e, q) (d, refl, h)
]

-- Whatever commits are tried after it, a checkpoint is never replaced by one of another partition or
-- of an earlier slot, or of an earlier sequence in its slot.
pub checkpoint-IsPast :
    (c : PartitionCheckpoint) (tries : List PartitionCheckpoint) (s : IngestionStore)
    → IsPast c s
    → IsPast c (commit_all tries s)
unfolding commit_all
checkpoint-IsPast c [] s h = h
checkpoint-IsPast c (t ∷ ts) s h = checkpoint-IsPast c ts _ (IsPast-commit c t s h)

-- No gap is reported exactly if what is observed is not after the checkpoint, or is the next sequence
-- of the checkpoint's own slot; every place in a later slot is reported.
pub detect_gap-none :
    (c : PartitionCheckpoint) (slot sequence : ℕ) (now : Text)
    → (detect_gap c slot sequence now ≡ none)
      ↔ ((slot < c.slot) ⊎ ((slot ≡ c.slot) × (sequence ≤ c.sequence + 1)))
unfolding detect_gap
detect_gap-none c slot sequence now = (λ h. ground arith, λ h. ground arith)
