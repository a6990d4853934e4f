-- ===== src/Collector/Examples.antt =====
-- The store and the checkpoints at some inputs (packages/collector-core/src/index.ts).
use mathlib.Core.Path.{refl}
use chain_sieve.Base.{ℕ, ◌≡◌, inr, some, none, [], ◌∷◌, same, codes, decimal, arith}
use chain_sieve.Collector.{
  CollectorEnvelope, PartitionCheckpoint, IngestResult, IngestionStore, new_store, ingest,
  canonical_key, count,
}
use chain_sieve.Collector.Ingestion.{
  IsConsistent, ingest_all, ingest_all-IsConsistent, ingest-duplicate,
}
use chain_sieve.Collector.Checkpoints.{IsAtLeast}

abbrev envelope : ℕ → CollectorEnvelope
envelope slot = record {
  slot = slot;
  block_hash = [];
  signature = 115 ∷ [];
  instruction_index = 0;
  log_index = none;
  available_at = [];
  earliest_system_availability = [];
}

abbrev checkpoint : ℕ → ℕ → PartitionCheckpoint
checkpoint slot sequence = record {
  partition = [];
  slot = slot;
  sequence = sequence;
  updated_at = [];
}

new_store-IsConsistent : IsConsistent new_store
new_store-IsConsistent = record { distinct = tt; all_seen = tt }

ingest_all-IsConsistent_example :
    IsConsistent (ingest_all (envelope 1 ∷ envelope 2 ∷ envelope 1 ∷ []) new_store)
ingest_all-IsConsistent_example =
    ingest_all-IsConsistent (envelope 1 ∷ envelope 2 ∷ envelope 1 ∷ []) new_store
      new_store-IsConsistent

ingest-duplicate_example :
    ingest (envelope 1) (ingest_all (envelope 2 ∷ []) (ingest (envelope 1) new_store).1) ≡ (
      IngestResult.duplicate (canonical_key (envelope 1)),
      ingest_all (envelope 2 ∷ []) (ingest (envelope 1) new_store).1,
    )
ingest-duplicate_example =
    ingest-duplicate (envelope 1) (envelope 1) (envelope 2 ∷ []) new_store refl

-- two different envelopes are both kept
counted : count (ingest_all (envelope 1 ∷ envelope 2 ∷ envelope 1 ∷ []) new_store) ≡ 2
unfolding count ingest_all ingest canonical_key decimal codes same
counted = refl

abbrev at_5 : IngestionStore
at_5 = record new_store { checkpoint = some (checkpoint 5 7) }

same_place : IsAtLeast (checkpoint 5 7) (checkpoint 5 7)
same_place = record { partition = refl; place = inr (refl, omega arith) }
