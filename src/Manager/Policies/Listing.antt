-- ===== src/Manager/Policies/Listing.antt =====
-- policies.rs: the list of policies, and validation without a write.
use scrooge_dlp.Common.{
  String, Bool, true, false, none, some, List, [], ◌∷◌, ◌&&◌, ◌||◌, Outcome, ok, err, map,
}
use scrooge_dlp.Common.Int.{ltb_ℤ, eqb_ℤ}
use scrooge_dlp.Common.Sort.{sort_by}
use scrooge_dlp.Policy.Compile.{from_yaml, compile}
use scrooge_dlp.Manager.World.{PolicyRow, Action, lift, select, pure, ◌>>=◌, ◌>>◌}
use scrooge_dlp.Manager.Api.{ApiError, database, internal, Claims, require_admin, AppState}
use scrooge_dlp.Manager.Policies.{PolicySummaryDto, ValidateResponse}

abbrev pub to_summary : PolicyRow → PolicySummaryDto
to_summary r = record {
  name = r.name;
  version = r.version;
  enabled = r.enabled;
  priority = r.priority;
  content_hash = r.content_hash;
  created_at = r.created_at;
  updated_at = r.updated_at;
}

-- `ORDER BY priority DESC, name ASC`
abbrev pub more_urgent : (String → String → Bool) → PolicyRow → PolicyRow → Bool
more_urgent name_before a b =
    ltb_ℤ b.priority a.priority || (eqb_ℤ a.priority b.priority && name_before a.name b.name)

module _ (app : AppState) (claims : Claims) where
  -- `list`
  unfoldable pub list : Action ApiError (List PolicySummaryDto)
  list = do
    lift (require_admin claims)
    rows ← select (λ w. sort_by (more_urgent app.name_before) w.policies) database
    pure (map to_summary rows)

  -- What `validate` answers once the claims are checked; it asks the database nothing.
  unfoldable pub validation_of : String → Outcome ApiError ValidateResponse
  validation_of yaml = elim (from_yaml app.codecs yaml) [
    | err e ↦ ok (record {
      valid = false;
      errors = e ∷ [];
      hash = none;
      name = none;
      version = none;
      parsed = none;
    })
    | ok policy ↦ elim (compile app.codecs policy) [
      | err e ↦ err (internal "compile")
      | ok compiled ↦ ok (record {
        valid = true;
        errors = [];
        hash = some compiled.hash;
        name = some policy.metadata.name;
        version = some policy.metadata.version;
        parsed = app.policy_json policy;
      })
    ]
  ]

  -- `validate`
  unfoldable pub validate : String → Action ApiError ValidateResponse
  validate yaml = do lift (require_admin claims); lift (validation_of yaml)
