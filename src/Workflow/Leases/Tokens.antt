-- ===== src/Workflow/Leases/Tokens.antt =====
-- What a process that was granted a lease by `acquireLease` (packages/workflow-runtime/src/index.ts)
-- holds: a version that no other owner is ever given.
use chain_sieve.Base.{
  ℕ, ◌+◌, ◌<◌, ◌≡◌, refl, ◌⊎◌, inl, inr, true, false, not, ◌&&◌, none, some, Text, same, same_iff,
  same_refl, arith, leb, ◌==◌, ==_iff, ok, err, subst, subst₂, Outcome, Bool-cases, Option-cases,
}
use chain_sieve.Sql.Exec.{World, turn, statement, pure, ◌>>=◌}
use chain_sieve.Sql.Rely.{Obeys, Kept-turn}
use chain_sieve.Workflow.Store.{Db, Lease, Fault}
use chain_sieve.Workflow.Leases.{
  LeaseAcquireResult, read_lease, swap_lease, insert_lease, granted, as_read, reread,
  swap_or_reread, swap_own_lease, renew_lease, renewed, taken, first_lease, contend,
  contend_after_race, race_decision, insert_or_contend, acquire_lease,
}
use chain_sieve.Workflow.Leases.Grants.{fencing, Later, LeasesGrow, acquire_lease-Respects}

module _ (lease_key owner : Text) where
  -- the row of the lease is the owner's, under that version
  abbrev pub Holds : ℕ → Db → Type 0
  Holds version s =
      (l : Lease) × (s.workflow_leases lease_key ≡ some l)
      × (l.owner ≡ owner)
      × (l.version ≡ version)

  abbrev pub HoldsIfAcquired : Outcome Fault LeaseAcquireResult → Db → Type 0
  HoldsIfAcquired (ok r) s = r.acquired ≡ true → Holds r.version s
  HoldsIfAcquired (err e) s = Unit

  abbrev pub Sound : Outcome Fault LeaseAcquireResult × World Db → Type 0
  Sound run = HoldsIfAcquired run.0 run.1.state

  Sound-reread : (w : World Db) → Sound (reread lease_key owner w)
  unfolding reread ◌>>=◌ read_lease as_read
  Sound-reread w = elim (Option-cases ((turn w).state.workflow_leases lease_key)) [
    | inl e ↦ rw e tt
    | inr (l, e) ↦ rw e (λ a. (l, e, (same_iff _ _).0 a, refl))
  ]

  Sound-swap :
      (v : ℕ) (change : Lease → Lease) (w : World Db)
      → ((m : Lease)
          → (turn w).state.workflow_leases lease_key ≡ some m
          → m.version ≡ v
          → (change m).owner ≡ owner)
      → Sound (swap_or_reread lease_key owner v change w)
  unfolding swap_or_reread ◌>>=◌ swap_lease granted
  Sound-swap v change w own = elim (Option-cases ((turn w).state.workflow_leases lease_key)) [
    | inl e ↦ rw (e, swap_lease) (Sound-reread _)
    | inr (m, e) ↦ elim (Bool-cases (m.version == v)) [
      | inl q ↦
          rw (e, swap_lease)
            (rw q (λ a. (change m, rw (same_refl lease_key), own m e ((==_iff _ _).0 q), refl)))
      | inr q ↦ rw (e, swap_lease) (rw q (Sound-reread _))
    ]
  ]

  module _ (ttl_ms now : ℕ) where
    Sound-taken :
        (v : ℕ) (w : World Db)
        → Sound (swap_or_reread lease_key owner v (taken lease_key owner ttl_ms now (v + 1)) w)
    unfolding taken
    Sound-taken v w = Sound-swap v _ w (λ m e q. refl)

    -- a renewal keeps the owner of the row, and under the version that was read that is the caller
    Sound-renewed :
        (l : Lease) (w : World Db)
        → Obeys fencing w.others
        → w.state.workflow_leases lease_key ≡ some l
        → l.owner ≡ owner
        → Sound (
            swap_or_reread lease_key owner l.version
              (renewed lease_key owner ttl_ms now (l.version + 1))
              w)
    unfolding renewed
    Sound-renewed l w h e own =
        Sound-swap l.version _ w
          λ m f q. ground (arith, subst₂ Later e f ((Kept-turn fencing w h).state lease_key))

    Sound-contend :
        (l : Lease) (w : World Db)
        → Obeys fencing w.others
        → w.state.workflow_leases lease_key ≡ some l
        → Sound (contend lease_key owner ttl_ms now l w)
    unfolding contend pure as_read
    Sound-contend l w h e = elim (Bool-cases (leb l.expires_at now)) [
      | inl old ↦ rw old (Sound-taken l.version w)
      | inr valid ↦ elim (Bool-cases (same l.owner owner)) [
        | inl own ↦ rw (valid, own) (Sound-renewed l w h e ((same_iff _ _).0 own))
        | inr other ↦ rw (valid, other) (λ a. cc)
      ]
    ]

    Sound-contend_after_race :
        (l : Lease) (w : World Db) → Sound (contend_after_race lease_key owner ttl_ms now l w)
    unfolding contend_after_race pure as_read
    Sound-contend_after_race l w =
        elim (Bool-cases (not (leb l.expires_at now) && not (same l.owner owner))) [
          | inl q ↦ rw q (λ a. cc)
          | inr q ↦ rw q (Sound-taken l.version w)
        ]

    after_conflict :
        (w : World Db)
        → Sound ((statement (read_lease lease_key) >>= race_decision lease_key owner ttl_ms now) w)
    unfolding race_decision ◌>>=◌ read_lease
    after_conflict w = elim (Option-cases ((turn w).state.workflow_leases lease_key)) [
      | inl e ↦ rw e tt
      | inr (l, e) ↦ rw e (Sound-contend_after_race l _)
    ]

    Sound-insert_or_contend :
        (w : World Db) → Sound (insert_or_contend lease_key owner ttl_ms now w)
    unfolding insert_or_contend ◌>>=◌ insert_lease read_lease first_lease granted
    Sound-insert_or_contend w = elim (Option-cases ((turn w).state.workflow_leases lease_key)) [
      | inl e ↦
          rw (e, insert_lease)
            (λ a. (first_lease lease_key owner ttl_ms now, rw (same_refl lease_key), refl, refl))
      | inr (l, e) ↦ rw (e, insert_lease) (after_conflict (turn w))
    ]

    pub Sound-acquire_lease :
        (w : World Db) → Obeys fencing w.others → Sound (acquire_lease lease_key owner ttl_ms now w)
    unfolding acquire_lease ◌>>=◌ read_lease
    Sound-acquire_lease w h = elim (Option-cases ((turn w).state.workflow_leases lease_key)) [
      | inl e ↦ rw e (Sound-insert_or_contend _)
      | inr (l, e) ↦ rw e (Sound-contend l _ (Kept-turn fencing w h).others e)
    ]

    not_current :
        (expected : ℕ) (l m : Lease)
        → Later (some l) (some m)
        → expected < l.version
        → same m.owner owner && m.version == expected ≡ false
    not_current expected l m later lt = ground arith

    -- A run that reports the lease as acquired ends with the caller's name and the reported version
    -- in the row of the lease, whatever the others did before each of its statements, so long as they
    -- made no version fall and gave none a second owner.
    pub acquired-Holds :
        (w : World Db) (r : LeaseAcquireResult)
        → Obeys fencing w.others
        → (acquire_lease lease_key owner ttl_ms now w).0 ≡ ok r
        → r.acquired ≡ true
        → Holds r.version (acquire_lease lease_key owner ttl_ms now w).1.state
    acquired-Holds w r h e =
        subst (λ o. HoldsIfAcquired o (acquire_lease lease_key owner ttl_ms now w).1.state) e
          (Sound-acquire_lease w h)

    -- Once the lease has passed to a greater version, renewing the old token finds nothing to renew,
    -- whatever the others do in the meantime, so long as they make no version fall.
    pub renew_lease-stale :
        (expected : ℕ) (l : Lease) (w : World Db)
        → Obeys fencing w.others
        → w.state.workflow_leases lease_key ≡ some l
        → expected < l.version
        → (renew_lease lease_key owner ttl_ms now expected w).0 ≡ ok none
    unfolding renew_lease swap_own_lease ◌>>=◌
    renew_lease-stale expected l w h e lt =
        elim (Option-cases ((turn w).state.workflow_leases lease_key)) [
          | inl f ↦ rw (f, swap_own_lease)
          | inr (m, f) ↦
              let later = (Kept-turn fencing w h).state lease_key in
              rw (f, swap_own_lease) (rw (not_current expected l m (subst₂ Later e f later) lt))
        ]

module _ (lease_key first second : Text) (ttl now ttl' now' : ℕ) (w w' : World Db) where
  -- A granted lease is a token (owner, version). Of two grants of one lease, the second starting
  -- after the first has ended, the second has the greater version, or it has the same version and
  -- the same owner. Whatever the other processes do before each statement of both runs, and in
  -- between, is arbitrary so long as it makes no version fall and gives none a second owner.
  pub tokens_differ :
      (r r' : LeaseAcquireResult)
      → Obeys fencing w.others
      → Obeys fencing w'.others
      → (acquire_lease lease_key first ttl now w).0 ≡ ok r
      → r.acquired ≡ true
      → LeasesGrow (acquire_lease lease_key first ttl now w).1.state w'.state
      → (acquire_lease lease_key second ttl' now' w').0 ≡ ok r'
      → r'.acquired ≡ true
      → (r.version < r'.version) ⊎ ((r.version ≡ r'.version) × (first ≡ second))
  tokens_differ r r' h h' e a between e' a' =
      let (l, f, own, v) = acquired-Holds lease_key first ttl now w r h e a in
      let (l', f', own', v') = acquired-Holds lease_key second ttl' now' w' r' h' e' a' in
      let run = (acquire_lease-Respects lease_key second ttl' now').at w' h' in
      let later =
        fencing.transitive (acquire_lease lease_key first ttl now w).1.state w'.state
          (acquire_lease lease_key second ttl' now' w').1.state between run.state lease_key in
      ground (arith, subst₂ Later f f' later)
