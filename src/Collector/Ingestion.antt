-- ===== src/Collector/Ingestion.antt =====
-- What an `IngestionStore` keeps (packages/collector-core/src/index.ts).
use chain_sieve.Base.{
  ◌≡◌, ◌≢◌, refl, Bool, true, false, List, [], ◌∷◌, Text, same, same_refl, any, All, All-append,
  Bool-cases, inl, inr, arith, subst,
}
use chain_sieve.Sql.Table.{IsKeyed, Lacks, IsKeyed-append}
use chain_sieve.Collector.{
  CollectorEnvelope, IngestResult, IngestionStore, canonical_key, has_seen, ingest,
}

-- the envelopes have different keys, and all of those keys were seen
pub record IsConsistent (s : IngestionStore) : Type 0 where
  pub distinct : IsKeyed canonical_key s.envelopes
  pub all_seen : All (λ e. has_seen (canonical_key e) s ≡ true) s.envelopes

-- envelopes in a row
unfoldable pub ingest_all : List CollectorEnvelope → IngestionStore → IngestionStore
ingest_all [] s = s
ingest_all (e ∷ es) s = ingest_all es (ingest e s).1

absurd_bool : {b : Bool} → b ≡ true → b ≡ false → ⊥
absurd_bool h u = cc

different :
    (key : Text) (s : IngestionStore) (key' : Text)
    → has_seen key s ≡ false
    → has_seen key' s ≡ true
    → key' ≢ key
different key s key' u h p = absurd_bool (subst (λ k. has_seen k s ≡ true) p h) u

unseen-Lacks :
    (key : Text) (s : IngestionStore) (es : List CollectorEnvelope)
    → has_seen key s ≡ false
    → All (λ e. has_seen (canonical_key e) s ≡ true) es
    → Lacks canonical_key key es
unseen-Lacks key s [] u h = tt
unseen-Lacks key s (e ∷ es) u h =
    ((λ p. different key s (canonical_key e) u h.0 p), unseen-Lacks key s es u h.1)

All-seen-more :
    (key : Text) (s : IngestionStore) (es : List CollectorEnvelope)
    → All (λ e. has_seen (canonical_key e) s ≡ true) es
    → All (λ e. any (λ k. same k (canonical_key e)) (key ∷ s.seen) ≡ true) es
All-seen-more key s [] h = tt
All-seen-more key s (e ∷ es) h = (ground (arith, h.0), All-seen-more key s es h.1)

IsConsistent-ingest :
    (e : CollectorEnvelope) (s : IngestionStore) → IsConsistent s → IsConsistent (ingest e s).1
unfolding ingest
IsConsistent-ingest e s h = elim (Bool-cases (has_seen (canonical_key e) s)) [
  | inl q ↦ rw q h
  | inr q ↦ rw q (record {
    distinct =
        IsKeyed-append canonical_key s.envelopes e h.distinct
          (unseen-Lacks (canonical_key e) s s.envelopes q h.all_seen);
    all_seen =
        All-append _ s.envelopes (e ∷ []) (All-seen-more (canonical_key e) s s.envelopes h.all_seen)
          (rw (same_refl (canonical_key e)) refl, tt);
  })
]

-- Whatever is ingested, the store never holds two envelopes with one key.
pub ingest_all-IsConsistent :
    (es : List CollectorEnvelope) (s : IngestionStore)
    → IsConsistent s
    → IsConsistent (ingest_all es s)
unfolding ingest_all
ingest_all-IsConsistent [] s h = h
ingest_all-IsConsistent (e ∷ es) s h = ingest_all-IsConsistent es _ (IsConsistent-ingest e s h)

seen_stays :
    (key : Text) (e : CollectorEnvelope) (s : IngestionStore)
    → has_seen key s ≡ true
    → has_seen key (ingest e s).1 ≡ true
unfolding ingest
seen_stays key e s h = elim (Bool-cases (has_seen (canonical_key e) s)) [
  | inl q ↦ rw q h
  | inr q ↦ rw q (ground arith)
]

seen_after :
    (e : CollectorEnvelope) (s : IngestionStore) → has_seen (canonical_key e) (ingest e s).1 ≡ true
unfolding ingest
seen_after e s = elim (Bool-cases (has_seen (canonical_key e) s)) [
  | inl q ↦ rw q q
  | inr q ↦ rw q (ground (arith, same_refl (canonical_key e)))
]

seen_stays_all :
    (key : Text) (es : List CollectorEnvelope) (s : IngestionStore)
    → has_seen key s ≡ true
    → has_seen key (ingest_all es s) ≡ true
unfolding ingest_all
seen_stays_all key [] s h = h
seen_stays_all key (e ∷ es) s h = seen_stays_all key es _ (seen_stays key e s h)

-- An envelope that was ingested is, whatever was ingested since, a duplicate the next time, as is
-- every other envelope with its key; and a duplicate changes nothing.
pub ingest-duplicate :
    (e again : CollectorEnvelope) (between : List CollectorEnvelope) (s : IngestionStore)
    → canonical_key again ≡ canonical_key e
    → let after = ingest_all between (ingest e s).1 in
      ingest again after ≡ (IngestResult.duplicate (canonical_key e), after)
unfolding ingest
ingest-duplicate e again between s same_key =
    let known = seen_stays_all (canonical_key e) between (ingest e s).1 (seen_after e s) in
    rw (same_key, known) refl
