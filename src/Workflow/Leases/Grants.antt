-- ===== src/Workflow/Leases/Grants.antt =====
-- Fencing: what `acquireLease` and `renewLease` (packages/workflow-runtime/src/index.ts) guarantee
-- while other processes act between any two of their statements.
use chain_sieve.Base.{
  ℕ, ◌+◌, ◌<◌, ◌≡◌, refl, ◌⊎◌, inl, inr, Option, none, some, Text, same, same_iff, arith, ◌==◌,
  ◌&&◌, Bool-cases, Option-cases,
}
use chain_sieve.Sql.Exec.{World, statement}
use chain_sieve.Sql.Rely.{
  Preorder, Obeys, Respects, Respects-statement, Respects-bind, Respects-if, Respects-pure,
  rely_rules,
}
use chain_sieve.Workflow.Store.{Db, Lease, Fault, put_lease}
use chain_sieve.Workflow.Leases.{
  read_lease, swap_lease, insert_lease, reread, swap_or_reread, renewed, taken, contend,
  contend_after_race, race_decision, insert_or_contend, acquire_lease, swap_own_lease, renew_lease,
}

-- A later row of the lease: a greater version, or the same one with the same owner.
abbrev pub Later : Option Lease → Option Lease → Type 0
Later none _ = Unit
Later (some l) none = ⊥
Later (some l) (some m) = (l.version < m.version) ⊎ ((l.version ≡ m.version) × (l.owner ≡ m.owner))

abbrev pub LeasesGrow : Db → Db → Type 0
LeasesGrow s t = (k : Text) → Later (s.workflow_leases k) (t.workflow_leases k)

pub Later-refl : (a : Option Lease) → Later a a
Later-refl none = tt
Later-refl (some l) = inr (refl, refl)

pub Later-trans : (a b c : Option Lease) → Later a b → Later b c → Later a c
Later-trans none b c h k = tt
Later-trans (some l) none c h k = absurd h
Later-trans (some l) (some m) none h k = k
Later-trans (some l) (some m) (some n) h k = ground arith

abbrev pub fencing : Preorder Db
fencing = record {
  R = LeasesGrow;
  reflexive = λ s k. Later-refl (s.workflow_leases k);
  transitive = λ s t u h g k. Later-trans _ _ _ (h k) (g k);
}

put_lease-LeasesGrow :
    (k : Text) (l : Lease) (s : Db)
    → Later (s.workflow_leases k) (some l)
    → LeasesGrow s (put_lease k l s)
put_lease-LeasesGrow k l s h j = elim (Bool-cases (same k j)) [
  | inl e ↦ rw (e, ← (same_iff k j).0 e) h
  | inr n ↦ rw n (Later-refl (s.workflow_leases j))
]

-- the row that a swap writes has the next version
swap_lease-LeasesGrow :
    (k : Text) (v : ℕ) (change : Lease → Lease)
    → ((l : Lease) → v < (change l).version)
    → (s : Db) → LeasesGrow s (swap_lease k v change s).1
unfolding swap_lease
swap_lease-LeasesGrow k v change up s j = elim (Option-cases (s.workflow_leases k)) [
  | inl e ↦ rw (e, swap_lease) (Later-refl (s.workflow_leases j))
  | inr (l, e) ↦ elim (Bool-cases (l.version == v)) [
    | inl q ↦
        rw (e, swap_lease)
          (rw q (put_lease-LeasesGrow k (change l) s (rw e (inl (ground (arith, up l)))) j))
    | inr q ↦ rw (e, swap_lease) (rw q (Later-refl (s.workflow_leases j)))
  ]
]

insert_lease-LeasesGrow : (k : Text) (l : Lease) (s : Db) → LeasesGrow s (insert_lease k l s).1
unfolding insert_lease
insert_lease-LeasesGrow k l s j = elim (Option-cases (s.workflow_leases k)) [
  | inl e ↦ rw (e, insert_lease) (put_lease-LeasesGrow k l s (rw e tt) j)
  | inr (m, e) ↦ rw (e, insert_lease) (Later-refl (s.workflow_leases j))
]

module _ (lease_key owner : Text) where
  read_lease-Respects : Respects fencing (statement {E = Fault} (read_lease lease_key))
  unfolding read_lease
  read_lease-Respects = Respects-statement fencing (read_lease lease_key) fencing.reflexive

  reread-Respects : Respects fencing (reread lease_key owner)
  unfolding reread
  reread-Respects =
      Respects-bind fencing _ _ read_lease-Respects
        (elim [ none ↦ search rely_rules | some l ↦ search rely_rules ])

  swap_or_reread-Respects :
      (v : ℕ) (change : Lease → Lease)
      → ((l : Lease) → v < (change l).version)
      → Respects fencing (swap_or_reread lease_key owner v change)
  unfolding swap_or_reread
  swap_or_reread-Respects v change up =
      Respects-bind fencing _ _
        (Respects-statement fencing _ (swap_lease-LeasesGrow lease_key v change up))
        (elim [ none ↦ reread-Respects | some l ↦ search rely_rules ])

  module _ (ttl_ms now : ℕ) where
    contend-Respects : (l : Lease) → Respects fencing (contend lease_key owner ttl_ms now l)
    unfolding contend renewed taken
    contend-Respects l =
        let v = l.version in
        Respects-if fencing _ _ _
          (swap_or_reread-Respects v (taken lease_key owner ttl_ms now (v + 1)) (λ m. omega arith))
          (Respects-if fencing _ _ _
            (swap_or_reread-Respects v (renewed lease_key owner ttl_ms now (v + 1))
              (λ m. omega arith))
            (Respects-pure fencing _))

    contend_after_race-Respects :
        (l : Lease) → Respects fencing (contend_after_race lease_key owner ttl_ms now l)
    unfolding contend_after_race taken
    contend_after_race-Respects l =
        let v = l.version in
        Respects-if fencing _ _ _ (Respects-pure fencing _)
          (swap_or_reread-Respects v (taken lease_key owner ttl_ms now (v + 1)) (λ m. omega arith))

    insert_or_contend-Respects : Respects fencing (insert_or_contend lease_key owner ttl_ms now)
    unfolding insert_or_contend race_decision
    insert_or_contend-Respects =
        Respects-bind fencing _ _
          (Respects-statement fencing _ (insert_lease-LeasesGrow lease_key _))
          (elim [
            | none ↦
                Respects-bind fencing _ _ read_lease-Respects
                  (elim [ none ↦ search rely_rules | some l ↦ contend_after_race-Respects l ])
            | some l ↦ search rely_rules
          ])

    pub acquire_lease-Respects : Respects fencing (acquire_lease lease_key owner ttl_ms now)
    unfolding acquire_lease
    acquire_lease-Respects =
        Respects-bind fencing _ _ read_lease-Respects
          (elim [ none ↦ insert_or_contend-Respects | some l ↦ contend-Respects l ])

    -- While a lease is acquired, won or lost, no lease's version falls and no version gets a second
    -- owner, whatever the others do before each statement, so long as the others keep to that too.
    pub acquire_lease-LeasesGrow :
        (w : World Db)
        → Obeys fencing w.others
        → LeasesGrow w.state (acquire_lease lease_key owner ttl_ms now w).1.state
    acquire_lease-LeasesGrow w h = (acquire_lease-Respects.at w h).state

    swap_own_lease-LeasesGrow :
        (expected : ℕ) (s : Db)
        → LeasesGrow s (swap_own_lease lease_key owner ttl_ms now expected s).1
    unfolding swap_own_lease renewed
    swap_own_lease-LeasesGrow expected s j = elim (Option-cases (s.workflow_leases lease_key)) [
      | inl e ↦ rw (e, swap_own_lease) (Later-refl (s.workflow_leases j))
      | inr (l, e) ↦ elim (Bool-cases (same l.owner owner && l.version == expected)) [
        | inl q ↦
            rw (e, swap_own_lease)
              (rw q (put_lease-LeasesGrow lease_key _ s (rw e (inl (omega arith))) j))
        | inr q ↦ rw (e, swap_own_lease) (rw q (Later-refl (s.workflow_leases j)))
      ]
    ]

    -- renewing a lease does the same
    pub renew_lease-Respects :
        (expected : ℕ) → Respects fencing (renew_lease lease_key owner ttl_ms now expected)
    unfolding renew_lease
    renew_lease-Respects expected =
        Respects-bind fencing _ _
          (Respects-statement fencing _ (swap_own_lease-LeasesGrow expected))
          (λ u. search rely_rules)
