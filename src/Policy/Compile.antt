-- ===== src/Policy/Compile.antt =====
-- crates/scrooge-policy: `CompiledPolicy` (compile.rs), `Policy::from_yaml` and `Policy::compile`
-- (lib.rs). The YAML parser, MessagePack and SHA-256 are parameters.
use scrooge_dlp.Common.{ℕ, String, Bool, Option, List, Outcome, ok, ◌>>=◌, ◌>>◌, ok_or}
use scrooge_dlp.Policy.Defs.{Policy, PolicyError, yaml, msgpack}
use scrooge_dlp.Policy.Validate.{validate}

abbrev pub Bytes : Type 0
Bytes = List ℕ

pub record CompiledPolicy : Type 0 where
  pub name : String
  pub version : ℕ
  pub payload : Bytes
  pub hash : String

-- What the crate takes from serde_yaml, rmp_serde, sha2 and regex.
pub record Codecs : Type 0 where
  pub parse_yaml : String → Option Policy
  pub to_vec : Policy → Option Bytes
  pub from_slice : Bytes → Option Policy
  pub sha256_hex : Bytes → String
  pub compiles : String → Bool

module _ (codecs : Codecs) where
  -- `Policy::from_yaml`
  unfoldable pub from_yaml : String → Outcome PolicyError Policy
  from_yaml text = do
    policy ← ok_or (codecs.parse_yaml text) yaml
    validate codecs.compiles policy
    ok policy

  -- `CompiledPolicy::from_policy`
  unfoldable pub from_policy : Policy → Outcome PolicyError CompiledPolicy
  from_policy policy = do
    payload ← ok_or (codecs.to_vec policy) msgpack
    ok (record {
      name = policy.metadata.name;
      version = policy.metadata.version;
      payload = payload;
      hash = codecs.sha256_hex payload;
    })

  -- `Policy::compile`
  unfoldable pub compile : Policy → Outcome PolicyError CompiledPolicy
  unfolding from_policy
  compile policy = from_policy policy

  -- `CompiledPolicy::decode`
  unfoldable pub decode : CompiledPolicy → Option Policy
  decode compiled = codecs.from_slice compiled.payload
