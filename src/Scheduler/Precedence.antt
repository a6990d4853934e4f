-- ===== src/Scheduler/Precedence.antt =====
-- `resolveConfigPrecedence` (packages/scheduler/src/index.ts) by its keys.
use chain_sieve.Base.{
  ◌≡◌, refl, sym, ap, ◌∙◌, Option, none, some, List, [], ◌∷◌, Text, same, same_iff, arith,
  if◌then◌else◌, Bool-cases, inl, inr,
}
use chain_sieve.Scheduler.Config.{
  Json, Fields, no_field, field, get_field, set_field, spread, or_empty, PrecedenceInput,
  resolved_fields, resolve_config_precedence,
}

-- no key twice
unfoldable pub IsObject : Fields → Type 0
IsObject no_field = Unit
IsObject (field k v fs) = (get_field k fs ≡ none) × IsObject fs

abbrev pub before : {A : Type 0} → Option A → Option A → Option A
before none o = o
before (some a) o = some a

-- the first that is there
abbrev pub first_given : {A : Type 0} → List (Option A) → Option A
first_given [] = none
first_given (o ∷ os) = before o (first_given os)

pub get_field-set_field :
    (k j : Text) (v : Json) (fs : Fields)
    → get_field k (set_field j v fs) ≡ (if same j k then some v else get_field k fs)
unfolding get_field set_field
get_field-set_field k j v no_field = refl
get_field-set_field k j v (field i w fs) =
    ground (arith, same_iff i j, same_iff i k, same_iff j k, get_field-set_field k j v fs)

pub get_field-spread :
    (k : Text) (a b : Fields)
    → IsObject b
    → get_field k (spread a b) ≡ before (get_field k b) (get_field k a)
unfolding get_field spread IsObject
get_field-spread k a no_field h = refl
get_field-spread k a (field j v fs) h =
    get_field-spread k (set_field j v a) fs h.1
    ∙ (ap (before (get_field k fs)) (get_field-set_field k j v a) ∙ elim (Bool-cases (same j k)) [
      | inl e ↦ rw (e, ap (λ i. get_field i fs) (sym ((same_iff j k).0 e)) ∙ h.0) refl
      | inr e ↦ rw (e) refl
    ])

-- A key of the resolved configuration has its value from the first of the explicit overrides, the
-- schedule's version, the agent profile, the workflow and the system's defaults that has the key; the
-- five are objects, with no key twice.
pub resolve_config_precedence-first :
    (hash_config : Fields → Text) (i : PrecedenceInput) (k : Text)
    → IsObject i.system_defaults
    → IsObject i.workflow_version
    → IsObject i.agent_profile_version
    → IsObject i.schedule_version_overrides
    → IsObject (or_empty i.explicit_run_now_overrides)
    → get_field k (resolve_config_precedence hash_config i).resolved
      ≡ first_given (
          get_field k (or_empty i.explicit_run_now_overrides)
          ∷ get_field k i.schedule_version_overrides
          ∷ get_field k i.agent_profile_version
          ∷ get_field k i.workflow_version
          ∷ get_field k i.system_defaults
          ∷ [])
unfolding resolve_config_precedence resolved_fields get_field
resolve_config_precedence-first hash_config i k h1 h2 h3 h4 h5 =
    rw
      (
        get_field-spread k _ (or_empty i.explicit_run_now_overrides) h5,
        get_field-spread k _ i.schedule_version_overrides h4,
        get_field-spread k _ i.agent_profile_version h3,
        get_field-spread k _ i.workflow_version h2,
        get_field-spread k no_field i.system_defaults h1,
      )
      refl
