-- ===== src/Manager/Policies/Stored/Requests.antt =====
-- policies.rs: whatever is asked of the handlers, and whichever queries fail, the rows stay sound.
use scrooge_dlp.Common.{
  String, Bool, true, not, Option, none, some, List, [], ◌∷◌, ◌≡◌, refl, sym, ap, subst, ◌∙◌, arith,
  ok, ok_or, err_if, str_eq, eq_iff, find, All, ◌&&◌, Bool-cases, inl, inr,
}
use scrooge_dlp.Common.Int.{ℤ, eqb_ℤ}
use scrooge_dlp.Manager.World.{Uuid, World, HistoryRow, execute, ◌>>◌}
use scrooge_dlp.Manager.World.Keeps.{
  Keeps, Keeps-query, Keeps-execute, Keeps-modify, Keeps-select, Keeps-lift, Keeps-bind,
  Keeps-bind-lift, Keeps-bind-select, keeps_rules,
}
use scrooge_dlp.Manager.Api.{ApiError, Claims, AppState, not_found, database}
use scrooge_dlp.Manager.Policies.{
  PolicyRequest, Parsed, parse_and_compile, insert_history, drop_policy, new_row, fetch_full,
  notify_policy_changed, write_version, create, update, delete_, get,
}
use scrooge_dlp.Manager.Policies.Versions.{history, rollback}
use scrooge_dlp.Manager.Policies.Listing.{list, validate}
use scrooge_dlp.Manager.Policies.Stored.{IsCompiled, IsDocument, Stored}
use scrooge_dlp.Manager.Policies.Stored.Rows.{
  enqueue_push-Stored, insert_history-Stored, insert_policy-Stored, drop_policy-Stored,
  update_policy-Stored,
}

module _ (app : AppState) (claims : Claims) where
  abbrev P : World → Type 0
  P = Stored (parse_and_compile app)

  fetch_full-Stored : (name : String) → Keeps P (fetch_full name)
  unfolding fetch_full
  fetch_full-Stored name = search (keeps_rules) depth 12

  -- The steps with which every change of a policy ends.
  record_change-Stored :
      (h : HistoryRow) (name : String)
      → IsDocument (parse_and_compile app) h
      → Keeps P (
          execute (insert_history h) database
          >> (notify_policy_changed app (some name) >> fetch_full name))
  record_change-Stored h name d =
      Keeps-bind _ _ (Keeps-execute _ _ (λ w s. insert_history-Stored _ h w d s)) (λ a.
        Keeps-bind _ _
          (Keeps-modify _ (λ w s. enqueue_push-Stored _ app.push_capacity (some name) w s))
          (λ b. fetch_full-Stored name))

  write_version-Stored :
      (name : String) (parsed : Parsed) (yaml : String) (version : ℤ) (by : Uuid) (reason : String)
      → parse_and_compile app yaml ≡ ok parsed
      → parsed.0.metadata.name ≡ name
      → Keeps P (write_version app claims name parsed yaml version by reason)
  unfolding write_version
  write_version-Stored name parsed yaml version by reason p n =
      Keeps-bind _ _
        (Keeps-execute _ _
          (λ w s. update_policy-Stored _ name yaml parsed version by app.now w p n s))
        (λ a. record_change-Stored _ name (record { document = parsed; parses = p; named = n }))

  new_row-IsCompiled :
      (parsed : Parsed) (yaml : String) (by : Uuid)
      → parse_and_compile app yaml ≡ ok parsed
      → IsCompiled (parse_and_compile app) (new_row app parsed yaml by)
  new_row-IsCompiled parsed yaml by p = record {
    parsed = parsed;
    parses = p;
    named = refl;
    priority = refl;
    payload = refl;
    hash = refl;
    targets = refl;
  }

  pub create-Stored : (req : PolicyRequest) → Keeps P (create app claims req)
  unfolding create
  create-Stored req = Keeps-bind-lift _ _ (λ a e. Keeps-bind-lift _ _ (λ parsed p.
      Keeps-bind-lift _ _ (λ by e1. Keeps-bind _ _ (Keeps-select _ _) (λ exists.
        Keeps-bind-lift _ _ (λ b e2.
          Keeps-bind _ _
            (Keeps-query _ _ (λ w w' u s.
              insert_policy-Stored _ _ w w' u (new_row-IsCompiled parsed req.content_yaml by p) s))
            (λ c.
              record_change-Stored _ _
                (record { document = parsed; parses = p; named = refl })))))))

  same_name :
      (a b : String) (e : ApiError) (u : Unit {0}) → err_if (not (str_eq a b)) e ≡ ok u → a ≡ b
  same_name a b e u h = elim (Bool-cases (str_eq a b)) [
    | inl y ↦ (eq_iff a b).0 y
    | inr y ↦ absurd (cc (rw y at h))
  ]

  pub update-Stored : (name : String) (req : PolicyRequest) → Keeps P (update app claims name req)
  unfolding update
  update-Stored name req = Keeps-bind-lift _ _ (λ a e. Keeps-bind-lift _ _ (λ parsed p.
      Keeps-bind-lift _ _ (λ b same.
        let same_as = same_name _ _ _ _ same in
        search (keeps_rules, write_version-Stored) depth 12)))

  deleted :
      (name : String) (w w' : World) (found : Bool)
      → P w
      → ◌≡◌ {A = Option (Bool × World)} (some (drop_policy name w)) (some (found, w'))
      → P w'
  deleted name w w' found s k =
      let same : ◌≡◌ {A = Bool × World} (drop_policy name w) (found, w') = cc k in
      subst (λ (r : Bool × World). P r.1) same (drop_policy-Stored _ name w s)

  pub delete_-Stored : (name : String) → Keeps P (delete_ app claims name)
  unfolding delete_
  delete_-Stored name = Keeps-bind-lift _ _ (λ a e.
      Keeps-bind _ _ (Keeps-query _ _ (λ w w' found s k. deleted name w w' found s k)) (λ found.
        Keeps-bind _ _ (Keeps-lift _)
          (λ b. Keeps-modify _ (λ w s. enqueue_push-Stored _ app.push_capacity (some name) w s))))

  find_version-IsDocument :
      (name : String) (version : ℤ) (hs : List HistoryRow) (h : HistoryRow)
      → All (IsDocument (parse_and_compile app)) hs
      → find (λ x. str_eq x.policy_name name && eqb_ℤ x.version version) hs ≡ some h
      → IsDocument (parse_and_compile app) h × (h.policy_name ≡ name)
  find_version-IsDocument name version [] h d e = absurd (cc e)
  find_version-IsDocument name version (x ∷ hs) h d e =
      elim (Bool-cases (str_eq x.policy_name name && eqb_ℤ x.version version)) [
        | inl y ↦
            let first : x ≡ h = cc (rw y at e) in
            let named : str_eq x.policy_name name ≡ true = ground (arith, y) in
            subst (λ t. IsDocument (parse_and_compile app) t × (t.policy_name ≡ name)) first
              (d.0, (eq_iff x.policy_name name).0 named)
        | inr y ↦ find_version-IsDocument name version hs h d.1 (rw y at e)
      ]

  -- What an entry of the history compiles to has the name of its policy.
  name_of_document :
      (name : String) (h : HistoryRow) (parsed : Parsed)
      → IsDocument (parse_and_compile app) h × (h.policy_name ≡ name)
      → parse_and_compile app h.content_yaml ≡ ok parsed
      → parsed.0.metadata.name ≡ name
  name_of_document name h parsed d p =
      let same : parsed ≡ d.0.document = cc (sym p ∙ d.0.parses) in rw same (d.0.named ∙ d.1)

  some_of_ok_or : {A : Type 0} (o : Option A) (e : ApiError) (a : A) → ok_or o e ≡ ok a → o ≡ some a
  some_of_ok_or none e a h = absurd (cc h)
  some_of_ok_or (some b) e a h = ap some (cc h)

  pub rollback-Stored :
      (name : String) (version : ℤ) (reason : String)
      → Keeps P (rollback app claims name version reason)
  unfolding rollback
  rollback-Stored name version reason = Keeps-bind-lift _ _ (λ a e. Keeps-bind-lift _ _ (λ by e1.
      Keeps-bind-select
        (λ o.
          (h : HistoryRow)
          → o ≡ some h
          → IsDocument (parse_and_compile app) h × (h.policy_name ≡ name))
        _ _ _ (λ w s h k. find_version-IsDocument name version w.history h s.documents k)
        (λ o found. Keeps-bind-lift _ _ (λ old e2.
          let d = found old (some_of_ok_or o not_found old e2) in
          search (keeps_rules, write_version-Stored, name_of_document) depth 12))))

  pub get-Stored : (name : String) → Keeps P (get app claims name)
  unfolding get
  get-Stored name = search (keeps_rules) depth 12

  pub history-Stored : (name : String) → Keeps P (history app claims name)
  unfolding history
  history-Stored name = search (keeps_rules) depth 12

  pub list-Stored : Keeps P (list app claims)
  unfolding list
  list-Stored = search (keeps_rules) depth 12

  pub validate-Stored : (yaml : String) → Keeps P (validate app claims yaml)
  unfolding validate
  validate-Stored yaml = search (keeps_rules) depth 12
