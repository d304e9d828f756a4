-- ===== src/Config/Loads.antt =====
-- config.rs, `load`: which files are accepted.
use scrooge_dlp.Common.{
  Bool, true, false, not, Option, some, [], ◌∷◌, ◌≡◌, ◌↔◌, ◌≤◌, refl, arith, ok, is_empty, any,
  ◌==◌, ltb, >>-eq-ok, err_if-eq-ok, >>-of-ok, err_if-of-false,
}
use scrooge_dlp.Common.Text.{Text, byte_len}
use scrooge_dlp.Config.{invalid_value, AgentDocument, AgentConfig, agent_config, validate, load}
use scrooge_dlp.Config.Manager.{ManagerConfig}
use scrooge_dlp.Config.Documents
use scrooge_dlp.Config.Documents.{ManagerDocument, manager_config}

abbrev has_colon : Text → Bool
has_colon t = any (λ x. x == 58) t

not_empty : (t : Text) → has_colon t ≡ true → is_empty t ≡ false
not_empty [] h = cc
not_empty (x ∷ t) h = refl

not-true : (b : Bool) → not b ≡ false → b ≡ true
not-true true h = refl
not-true false h = cc

not-false : (b : Bool) → b ≡ true → not b ≡ false
not-false true h = refl
not-false false h = cc

validate-accepts :
    (c : AgentConfig)
    → (validate c ≡ ok tt)
      ↔ ((any (λ x. x == 58) c.manager.endpoint ≡ true) × (is_empty c.agent.data_dir ≡ false))
unfolding validate
validate-accepts c = (
  λ e.
      let (named, more) = >>-eq-ok _ _ e in
      let (colon, dir) = >>-eq-ok _ _ more in
      (not-true _ (err_if-eq-ok _ _ colon), err_if-eq-ok _ _ dir),
  λ h.
      >>-of-ok _ _ (err_if-of-false _ _ (not_empty c.manager.endpoint h.0))
        (>>-of-ok _ _ (err_if-of-false _ _ (not-false _ h.0)) (err_if-of-false _ _ h.1)),
)

-- A file of the agent that is YAML is loaded exactly if its endpoint has a colon and its data
-- directory a name, and then with the defaults filled in.
pub load_iff :
    (text : Text) (from_str : Text → Option AgentDocument) (d : AgentDocument)
    → from_str text ≡ some d
    → (load (some text) from_str ≡ ok (agent_config d))
      ↔ ((any (λ x. x == 58) d.endpoint ≡ true) × (is_empty d.data_dir ≡ false))
unfolding load
load_iff text from_str d h =
    let (accepted, accepts) = validate-accepts (agent_config d) in
    (
      λ e. accepted ((>>-eq-ok (validate (agent_config d)) _ (rw h at e)).0),
      λ v. rw h (>>-of-ok (validate (agent_config d)) _ (accepts v) refl),
    )

is_long :
    (c : ManagerConfig)
    → 32 ≤ byte_len c.auth.jwt_secret
    → ltb (byte_len c.auth.jwt_secret) 32 ≡ false
is_long c h = ground (arith, h)

manager-validate-accepts :
    (c : ManagerConfig)
    → (Documents.validate c ≡ ok tt)
      ↔ ((32 ≤ byte_len c.auth.jwt_secret) × (is_empty c.database.url ≡ false))
unfolding Documents.validate
manager-validate-accepts c = (
  λ e.
      let (long, named) = >>-eq-ok _ _ e in
      let long' =
        err_if-eq-ok (ltb (byte_len c.auth.jwt_secret) 32)
          (invalid_value "auth.jwt_secret" "must be at least 32 characters") long in
      (ground (arith, long'), err_if-eq-ok _ _ named),
  λ h. >>-of-ok _ _ (err_if-of-false _ _ (is_long c h.0)) (err_if-of-false _ _ h.1),
)

-- A file of the manager that is YAML is loaded exactly if its secret has 32 bytes and its database a
-- name, and then with the defaults filled in.
pub manager-load_iff :
    (text : Text) (from_str : Text → Option ManagerDocument) (d : ManagerDocument)
    → from_str text ≡ some d
    → (Documents.load (some text) from_str ≡ ok (manager_config d))
      ↔ ((32 ≤ byte_len d.auth.jwt_secret) × (is_empty d.database.url ≡ false))
unfolding Documents.load
manager-load_iff text from_str d h =
    let (accepted, accepts) = manager-validate-accepts (manager_config d) in
    (
      λ e. accepted ((>>-eq-ok (Documents.validate (manager_config d)) _ (rw h at e)).0),
      λ v. rw h (>>-of-ok (Documents.validate (manager_config d)) _ (accepts v) refl),
    )
