-- ===== src/Collector.antt =====
-- The collector's contracts (packages/collector-core/src/index.ts): checkpoints, gaps and idempotent
-- ingestion. ISO times are texts, and `now` is an argument.
pub mod Ingestion
pub mod Checkpoints
mod Examples
use chain_sieve.Base.{
  ℕ, ◌+◌, Bool, true, false, not, ◌&&◌, ◌||◌, Option, none, some, List, [], ◌∷◌, ◌++◌, Text, same,
  codes, decimal, ltb, leb, ◌==◌, if◌then◌else◌, any, length,
}

-- the fields of an envelope that its key and its times are made of
pub record CollectorEnvelope : Type 0 where
  pub slot : ℕ
  pub block_hash : Text
  pub signature : Text
  pub instruction_index : ℕ
  pub log_index : Option ℕ
  pub available_at : Text
  pub earliest_system_availability : Text

pub record PartitionCheckpoint : Type 0 where
  pub partition : Text
  pub slot : ℕ
  pub sequence : ℕ
  pub updated_at : Text

-- `isMonotonic`
unfoldable pub is_monotonic : Option PartitionCheckpoint → PartitionCheckpoint → Bool
is_monotonic none next = true
is_monotonic (some prev) next =
    if not (same prev.partition next.partition)
    then false
    else if ltb next.slot prev.slot
    then false
    else if next.slot == prev.slot && leb next.sequence prev.sequence
    then false
    else true

pub record Gap : Type 0 where
  pub partition : Text
  pub from_slot : ℕ
  pub to_slot : ℕ
  pub from_sequence : ℕ
  pub to_sequence : ℕ
  pub detected_at : Text

-- `detectGap`; a gap is made with the status 'detected'
unfoldable pub detect_gap : PartitionCheckpoint → ℕ → ℕ → Text → Option Gap
detect_gap checkpoint observed_slot observed_sequence now =
    if ltb observed_slot checkpoint.slot
    then none
    else if observed_slot == checkpoint.slot && leb observed_sequence checkpoint.sequence
    then none
    else if not
        (ltb checkpoint.slot observed_slot || ltb (checkpoint.sequence + 1) observed_sequence)
    then none
    else some (record {
      partition = checkpoint.partition;
      from_slot = checkpoint.slot;
      to_slot = observed_slot;
      from_sequence = checkpoint.sequence + 1;
      to_sequence = observed_sequence;
      detected_at = now;
    })

abbrev log_index_text : Option ℕ → Text
log_index_text none = codes "null"
log_index_text (some n) = decimal n

-- `canonicalKey`
unfoldable pub canonical_key : CollectorEnvelope → Text
canonical_key e =
    e.signature
    ++ (codes ":"
        ++ (decimal e.slot
            ++ (codes ":"
                ++ (decimal e.instruction_index
                    ++ (codes ":"
                        ++ (log_index_text e.log_index ++ (codes ":" ++ e.block_hash)))))))

pub data IngestResult : Type 0 where
  accepted : CollectorEnvelope → IngestResult
  duplicate : Text → IngestResult

-- the fields of an `IngestionStore`
pub record IngestionStore : Type 0 where
  pub seen : List Text
  pub envelopes : List CollectorEnvelope
  pub checkpoint : Option PartitionCheckpoint

abbrev pub new_store : IngestionStore
new_store = record { seen = []; envelopes = []; checkpoint = none }

abbrev pub has_seen : Text → IngestionStore → Bool
has_seen key s = any (λ k. same k key) s.seen

unfoldable pub ingest : CollectorEnvelope → IngestionStore → IngestResult × IngestionStore
ingest e s =
    if has_seen (canonical_key e) s then (IngestResult.duplicate (canonical_key e), s) else (
      IngestResult.accepted e,
      record s { seen = canonical_key e ∷ s.seen; envelopes = s.envelopes ++ e ∷ [] },
    )

-- whether the checkpoint is committed; otherwise the reason is 'NON_MONOTONIC_CHECKPOINT'
unfoldable pub commit_checkpoint : PartitionCheckpoint → IngestionStore → Bool × IngestionStore
commit_checkpoint next s =
    if not (is_monotonic s.checkpoint next)
    then (false, s)
    else (true, record s { checkpoint = some next })

-- `count`
unfoldable pub count : IngestionStore → ℕ
count s = length s.envelopes
