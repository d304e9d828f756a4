-- ===== src/Manager/Push/Laws/Rows.antt =====
-- grpc.rs, `mark_assigned` and `mark_acked`: what they do to the rows of an agent and a policy.
use scrooge_dlp.Common.{
  ℕ, String, true, false, ◌||◌, none, some, List, [], ◌∷◌, ◌++◌, ◌≡◌, refl, ◌∙◌, arith, str_eq,
  eq_iff, any, Bool-cases, inl, inr,
}
use scrooge_dlp.Common.Int.{ℤ}
use scrooge_dlp.Manager.World.{Uuid, AssignmentRow}
use scrooge_dlp.Manager.Push.{is_of, acked_in, change_assignment, upsert, set_acked}

module _ (agent : Uuid) (name : String) (version : ℤ) where
  pub acked_in-set_acked :
      (rows : List AssignmentRow)
      → any (is_of agent name) rows ≡ true
      → acked_in agent name (set_acked agent name version rows) ≡ some version
  acked_in-set_acked [] h = absurd (cc h)
  acked_in-set_acked (a ∷ rows) h = elim (Bool-cases (is_of agent name a)) [
    | inl e ↦ rw (e, e)
    | inr e ↦ rw (e, e) (acked_in-set_acked rows (ground arith))
  ]

  module _ (other : String) where
    -- A row is of one policy only.
    is_of-other :
        (a : AssignmentRow)
        → str_eq name other ≡ false
        → is_of agent name a ≡ true
        → is_of agent other a ≡ false
    is_of-other a ne h =
        ground (arith, eq_iff a.policy_name name, eq_iff a.policy_name other, eq_iff name other)

    pub acked_in-set_acked_other :
        (rows : List AssignmentRow)
        → str_eq name other ≡ false
        → acked_in agent other (set_acked agent name version rows) ≡ acked_in agent other rows
    acked_in-set_acked_other [] ne = refl
    acked_in-set_acked_other (a ∷ rows) ne =
        let rest = acked_in-set_acked_other rows ne in
        elim (Bool-cases (is_of agent name a)) [
          | inl e ↦ rw (e, is_of-other a ne e) rest
          | inr e ↦ elim (Bool-cases (is_of agent other a)) [
            | inl o ↦ rw (e, o)
            | inr o ↦ rw (e, o) rest
          ]
        ]

    pub any-set_acked :
        (rows : List AssignmentRow)
        → any (is_of agent other) (set_acked agent name version rows) ≡ any (is_of agent other) rows
    any-set_acked [] = refl
    any-set_acked (a ∷ rows) =
        let rest = any-set_acked rows in
        elim (Bool-cases (is_of agent name a)) [ inl e ↦ rw (e, rest) | inr e ↦ rw (e, rest) ]

  module _ (now : ℕ) where
    any-assigned :
        (rows : List AssignmentRow) (other : String)
        → any (is_of agent other) (
            change_assignment
              (is_of agent name)
              (λ a. record a { assigned_version = version; last_pushed_at = now })
              rows)
          ≡ any (is_of agent other) rows
    any-assigned [] other = refl
    any-assigned (a ∷ rows) other =
        let rest = any-assigned rows other in
        elim (Bool-cases (is_of agent name a)) [ inl e ↦ rw (e, rest) | inr e ↦ rw (e, rest) ]

    acked_in-assigned :
        (rows : List AssignmentRow) (other : String)
        → acked_in agent other (
            change_assignment
              (is_of agent name)
              (λ a. record a { assigned_version = version; last_pushed_at = now })
              rows)
          ≡ acked_in agent other rows
    acked_in-assigned [] other = refl
    acked_in-assigned (a ∷ rows) other =
        let rest = acked_in-assigned rows other in
        elim (Bool-cases (is_of agent name a)) [
          | inl e ↦ elim (Bool-cases (is_of agent other a)) [
            | inl o ↦ rw (e, o)
            | inr o ↦ rw (e, o) rest
          ]
          | inr e ↦ elim (Bool-cases (is_of agent other a)) [
            | inl o ↦ rw (e, o)
            | inr o ↦ rw (e, o) rest
          ]
        ]

    any-snoc :
        (rows : List AssignmentRow) (a : AssignmentRow) (other : String)
        → any (is_of agent other) (rows ++ a ∷ [])
          ≡ (any (is_of agent other) rows || is_of agent other a)
    any-snoc [] a other = ground arith
    any-snoc (b ∷ rows) a other = ground (arith, any-snoc rows a other)

    acked_in-snoc :
        (rows : List AssignmentRow) (a : AssignmentRow) (other : String)
        → a.acked_version ≡ none
        → acked_in agent other (rows ++ a ∷ []) ≡ acked_in agent other rows
    acked_in-snoc [] a other e = elim (Bool-cases (is_of agent other a)) [
      | inl o ↦ rw (o, e)
      | inr o ↦ rw o
    ]
    acked_in-snoc (b ∷ rows) a other e =
        let rest = acked_in-snoc rows a other e in
        elim (Bool-cases (is_of agent other b)) [ inl o ↦ rw o | inr o ↦ rw o rest ]

    pub any-upsert :
        (rows : List AssignmentRow)
        → any (is_of agent name) (upsert now agent name version rows) ≡ true
    any-upsert rows = elim (Bool-cases (any (is_of agent name) rows)) [
      | inl e ↦ rw e (any-assigned rows name ∙ e)
      | inr e ↦ rw e (any-snoc rows _ name ∙ ground (arith, eq_iff name name))
    ]

    pub any-upsert_other :
        (rows : List AssignmentRow) (other : String)
        → any (is_of agent other) rows ≡ true
        → any (is_of agent other) (upsert now agent name version rows) ≡ true
    any-upsert_other rows other h = elim (Bool-cases (any (is_of agent name) rows)) [
      | inl e ↦ rw e (any-assigned rows other ∙ h)
      | inr e ↦ rw e (any-snoc rows _ other ∙ rw h)
    ]

    pub acked_in-upsert :
        (rows : List AssignmentRow) (other : String)
        → acked_in agent other (upsert now agent name version rows) ≡ acked_in agent other rows
    acked_in-upsert rows other = elim (Bool-cases (any (is_of agent name) rows)) [
      | inl e ↦ rw e (acked_in-assigned rows other)
      | inr e ↦ rw e (acked_in-snoc rows _ other refl)
    ]
