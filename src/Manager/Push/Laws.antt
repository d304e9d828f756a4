-- ===== src/Manager/Push/Laws.antt =====
-- grpc.rs, stream.rs: the push and its answers bring an agent up to date.
pub mod Rows
use scrooge_dlp.Common.{
  ℕ, suc, zero, String, Bool, true, false, not, ◌&&◌, ◌||◌, Option, none, some, List, [], ◌∷◌, ◌++◌,
  ◌≡◌, ◌≤◌, ◌<◌, refl, sym, ap, ◌∙◌, arith, if◌then◌else◌, str_eq, eq_iff, ◌==◌, ltb, Outcome, ok,
  err, length, any, find, filter, map, All, All-map, Bool-cases, inl, inr,
}
use scrooge_dlp.Common.Int.{ℤ, pos, negsuc, ltb_ℤ, to_u32_or_zero}
use scrooge_dlp.Common.Sort.{insert_by, sort_by}
use scrooge_dlp.Manager.World.{Uuid, World, Faults, PolicyRow, AssignmentRow}
use scrooge_dlp.Manager.Policies.{is_named}
use scrooge_dlp.Manager.Push.{
  PolicyRef, PolicyAck, to_i32_or_zero, is_of, acked_in, is_behind, is_pending, to_ref, before,
  load_pending_policies, upsert, set_acked, mark_assigned, mark_acked, assign_all, push_pending,
  receive_ack, receive_acks, Files, answer, apply_refs, apply_update,
}
use scrooge_dlp.Manager.Push.Laws.Rows.{
  acked_in-set_acked, acked_in-set_acked_other, any-set_acked, any-upsert, any-upsert_other,
  acked_in-upsert,
}

-- The versions that the column `version` and a `u32` both hold.
abbrev pub InRange : ℤ → Type 0
InRange (pos n) = n < 2147483648
InRange (negsuc n) = ⊥

-- `name` is the key of the table: each row is the one that is found under its name.
abbrev pub KeyedByName : List PolicyRow → Type 0
KeyedByName ps = All (λ p. find (is_named p.name) ps ≡ some p) ps

module _ (agent : Uuid) (now : ℕ) where
  abbrev pub assign_rows : List PolicyRef → List AssignmentRow → List AssignmentRow
  assign_rows [] rows = rows
  assign_rows (r ∷ rs) rows =
      assign_rows rs (upsert now agent r.policy_id (to_i32_or_zero r.version) rows)

  abbrev pub ack_rows : List PolicyRef → List AssignmentRow → List AssignmentRow
  ack_rows [] rows = rows
  ack_rows (r ∷ rs) rows = ack_rows rs (set_acked agent r.policy_id (to_i32_or_zero r.version) rows)

  pub acked_in-assign_rows :
      (name : String) (rs : List PolicyRef) (rows : List AssignmentRow)
      → acked_in agent name (assign_rows rs rows) ≡ acked_in agent name rows
  acked_in-assign_rows name [] rows = refl
  acked_in-assign_rows name (r ∷ rs) rows =
      acked_in-assign_rows name rs _
      ∙ acked_in-upsert agent r.policy_id (to_i32_or_zero r.version) now rows name

  any-assign_rows_kept :
      (name : String) (rs : List PolicyRef) (rows : List AssignmentRow)
      → any (is_of agent name) rows ≡ true
      → any (is_of agent name) (assign_rows rs rows) ≡ true
  any-assign_rows_kept name [] rows h = h
  any-assign_rows_kept name (r ∷ rs) rows h =
      any-assign_rows_kept name rs _
        (any-upsert_other agent r.policy_id (to_i32_or_zero r.version) now rows name h)

  pub any-assign_rows :
      (name : String) (rs : List PolicyRef) (rows : List AssignmentRow)
      → any (λ r. str_eq r.policy_id name) rs ≡ true
      → any (is_of agent name) (assign_rows rs rows) ≡ true
  any-assign_rows name [] rows h = absurd (cc h)
  any-assign_rows name (r ∷ rs) rows h = elim (Bool-cases (str_eq r.policy_id name)) [
    | inl e ↦ any-assign_rows_kept name rs _ (
        rw (← (eq_iff r.policy_id name).0 e)
          (any-upsert agent r.policy_id (to_i32_or_zero r.version) now rows))
    | inr e ↦ any-assign_rows name rs _ (ground arith)
  ]

  module _ (name : String) (version : ℤ) where
    -- A push of the policy carries its version.
    abbrev pub Agrees : PolicyRef → Type 0
    Agrees r = str_eq r.policy_id name ≡ true → to_i32_or_zero r.version ≡ version

    abbrev pub UpToDate : List AssignmentRow → Type 0
    UpToDate rows = is_behind (acked_in agent name rows) version ≡ false

    any-UpToDate : (rows : List AssignmentRow) → UpToDate rows → any (is_of agent name) rows ≡ true
    any-UpToDate [] h = absurd (cc h)
    any-UpToDate (a ∷ rows) h = elim (Bool-cases (is_of agent name a)) [
      | inl e ↦ rw e
      | inr e ↦ rw e (any-UpToDate rows (rw e at h))
    ]

    set_acked-same :
        (r : PolicyRef) (rows : List AssignmentRow)
        → Agrees r
        → str_eq r.policy_id name ≡ true
        → any (is_of agent name) rows ≡ true
        → UpToDate (set_acked agent r.policy_id (to_i32_or_zero r.version) rows)
    set_acked-same r rows agrees e held =
        rw
          ((eq_iff r.policy_id name).0 e, agrees e, acked_in-set_acked agent name version rows held)
          (ground arith)

    UpToDate-set_acked :
        (r : PolicyRef) (rows : List AssignmentRow)
        → Agrees r
        → UpToDate rows
        → UpToDate (set_acked agent r.policy_id (to_i32_or_zero r.version) rows)
    UpToDate-set_acked r rows agrees h = elim (Bool-cases (str_eq r.policy_id name)) [
      | inl e ↦ set_acked-same r rows agrees e (any-UpToDate rows h)
      | inr e ↦
          rw (acked_in-set_acked_other agent r.policy_id (to_i32_or_zero r.version) name rows e) h
    ]

    pub UpToDate-ack_rows :
        (rs : List PolicyRef) (rows : List AssignmentRow)
        → All Agrees rs
        → UpToDate rows
        → UpToDate (ack_rows rs rows)
    UpToDate-ack_rows [] rows agrees h = h
    UpToDate-ack_rows (r ∷ rs) rows agrees h =
        UpToDate-ack_rows rs _ agrees.1 (UpToDate-set_acked r rows agrees.0 h)

    pub acked-UpToDate :
        (rs : List PolicyRef) (rows : List AssignmentRow)
        → All Agrees rs
        → any (is_of agent name) rows ≡ true
        → any (λ r. str_eq r.policy_id name) rs ≡ true
        → UpToDate (ack_rows rs rows)
    acked-UpToDate [] rows agrees held h = absurd (cc h)
    acked-UpToDate (r ∷ rs) rows agrees held h = elim (Bool-cases (str_eq r.policy_id name)) [
      | inl e ↦ UpToDate-ack_rows rs _ agrees.1 (set_acked-same r rows agrees.0 e held)
      | inr e ↦
          acked-UpToDate rs _ agrees.1
            (any-set_acked agent r.policy_id (to_i32_or_zero r.version) name rows ∙ held)
            (ground arith)
    ]

pub All-refs :
    (P : PolicyRef → Type 0) (ps : List PolicyRow)
    → All (λ p. P (to_ref p)) ps
    → All P (map to_ref ps)
All-refs P [] h = tt
All-refs P (p ∷ ps) h = (h.0, All-refs P ps h.1)

pub any-refs :
    (f : PolicyRef → Bool) (ps : List PolicyRow)
    → any f (map to_ref ps) ≡ any (λ p. f (to_ref p)) ps
any-refs f [] = refl
any-refs f (p ∷ ps) = ap (λ b. f (to_ref p) || b) (any-refs f ps)

pub filter-none :
    {A : Type 0} (p : A → Bool) (xs : List A) → All (λ x. p x ≡ false) xs → filter p xs ≡ []
filter-none p [] h = refl
filter-none p (x ∷ xs) h = rw (h.0, filter-none p xs h.1)

pub to_i32-to_u32 : (v : ℤ) → InRange v → to_i32_or_zero (to_u32_or_zero v) ≡ v
to_i32-to_u32 (pos n) h = ground arith
to_i32-to_u32 (negsuc n) h = absurd h
