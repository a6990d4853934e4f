-- ===== src/Scheduler/Config.antt =====
-- Configurations as JSON objects, and their precedence (`resolveConfigPrecedence`,
-- packages/scheduler/src/index.ts). `hashConfig` is JSON text and SHA-256: the parameter `hash_config`.
use chain_sieve.Base.{ℕ, Option, none, some, Text, same, if◌then◌else◌}

mutual
  pub data Json : Type 0 where
    json_text : Text → Json
    json_number : ℕ → Json
    json_object : Fields → Json
    -- an array, a Boolean or null, by its text
    json_other : Text → Json

  -- the fields of an object, in their order
  pub data Fields : Type 0 where
    no_field : Fields
    field : Text → Json → Fields → Fields

-- the value of a key
unfoldable pub get_field : Text → Fields → Option Json
get_field k no_field = none
get_field k (field j v fs) = let rest = get_field k fs in if same j k then some v else rest

-- a key that is there keeps its place
unfoldable pub set_field : Text → Json → Fields → Fields
set_field k v no_field = field k v no_field
set_field k v (field j w fs) =
    let rest = set_field k v fs in if same j k then field j v fs else field j w rest

-- `{ ...a, ...b }`
unfoldable pub spread : Fields → Fields → Fields
spread a no_field = a
spread a (field k v fs) = spread (set_field k v a) fs

-- `input.explicitRunNowOverrides ?? {}`
abbrev pub or_empty : Option Fields → Fields
or_empty none = no_field
or_empty (some fs) = fs

pub record PrecedenceInput : Type 0 where
  pub system_defaults : Fields
  pub workflow_version : Fields
  pub agent_profile_version : Fields
  pub schedule_version_overrides : Fields
  pub explicit_run_now_overrides : Option Fields

-- the inputs, and what they resolve to
pub record ResolvedConfig : Type 0 where
  pub input : PrecedenceInput
  pub resolved : Fields
  pub config_hash : Text

unfoldable pub resolved_fields : PrecedenceInput → Fields
resolved_fields i =
    spread
      (spread
        (spread (spread (spread no_field i.system_defaults) i.workflow_version)
          i.agent_profile_version)
        i.schedule_version_overrides)
      (or_empty i.explicit_run_now_overrides)

unfoldable pub resolve_config_precedence : (Fields → Text) → PrecedenceInput → ResolvedConfig
resolve_config_precedence hash_config i = record {
  input = i;
  resolved = resolved_fields i;
  config_hash = hash_config (resolved_fields i);
}
