-- ===== src/Manager/Push/Converge.antt =====
-- grpc.rs, stream.rs: a push that meets no fault and the agent's answers to it.
use scrooge_dlp.Common.{
  All-filter, ℕ, suc, zero, String, Bool, true, false, none, some, List, [], ◌∷◌, ◌≡◌, ◌⊎◌, ◌≤◌,
  refl, sym, ap, ◌∙◌, arith, str_eq, eq_iff, Outcome, ok, err, length, any, find, filter, map, All,
  All-map, Bool-cases, inl, inr,
}
use scrooge_dlp.Common.Sort.{sort_by}
use scrooge_dlp.Common.Sort.{any-sort_by, All-sort_by}
use scrooge_dlp.Manager.World.{
  Uuid, World, Faults, PolicyRow, AssignmentRow, pure, ◌>>◌, lift, select, query, execute, modify,
  ◌>>=◌,
}
use scrooge_dlp.Manager.Policies.{is_named}
use scrooge_dlp.Manager.Push.{
  PolicyRef, acked_in, is_behind, is_pending, to_ref, before, load_pending_policies, mark_assigned,
  mark_acked, assign_all, push_pending, receive_ack, receive_acks, Files, answer, apply_refs,
  apply_update,
}
use scrooge_dlp.Manager.Push.Laws.{
  InRange, KeyedByName, assign_rows, ack_rows, acked_in-assign_rows, any-assign_rows, Agrees,
  UpToDate-ack_rows, acked-UpToDate, All-refs, any-refs, filter-none, to_i32-to_u32,
}

apply_refs-all :
    (room : ℕ) (rs : List PolicyRef) (files : Files)
    → length rs ≤ room
    → (apply_refs (λ n. true) room rs files).0 ≡ map (answer true) rs
unfolding apply_refs
apply_refs-all room [] files h = refl
apply_refs-all zero (r ∷ rs) files h = absurd (omega (arith, h))
apply_refs-all (suc room) (r ∷ rs) files h =
    ap (λ acks. answer true r ∷ acks) (apply_refs-all room rs _ (omega (arith, h)))

same_version :
    (p q : PolicyRow) (ps : List PolicyRow)
    → str_eq q.name p.name ≡ true
    → find (is_named p.name) ps ≡ some p
    → find (is_named q.name) ps ≡ some q
    → q.version ≡ p.version
same_version p q ps e hp hq =
    let e' = (eq_iff q.name p.name).0 e in
    let both : some q ≡ some p = sym hq ∙ (rw e' hp) in
    ap (λ o. elim o [ none ↦ q.version | some r ↦ r.version ]) both

any-found :
    (n : String) (test : PolicyRow → Bool) (p : PolicyRow) (ps : List PolicyRow)
    → find (is_named n) ps ≡ some p
    → test p ≡ true
    → any (λ q. str_eq q.name n) (filter test ps) ≡ true
any-found n test p [] h t = absurd (cc h)
any-found n test p (x ∷ ps) h t = elim (Bool-cases (is_named n x)) [
  | inl e ↦
      (let both : some x ≡ some p = rw e at h in
        let same : test x ≡ true = ap (λ o. elim o [ none ↦ test p | some r ↦ test r ]) both ∙ t in
        rw (same, e))
  | inr e ↦
      (let rest = any-found n test p ps (rw e at h) t in
        elim (Bool-cases (test x)) [ inl y ↦ rw (y, e) rest | inr y ↦ rw y rest ])
]

module _ (name_before : String → String → Bool) (now : ℕ) (agent : Uuid) where
  assign_all-runs :
      (rs : List PolicyRef) (w : World)
      → assign_all name_before now agent rs [] w
        ≡ (ok tt, [], record w { assignments = assign_rows agent now rs w.assignments })
  unfolding mark_assigned pure lift select query execute modify ◌>>=◌
  assign_all-runs [] w = refl
  assign_all-runs (r ∷ rs) w = assign_all-runs rs _

  pub push-runs :
      (refs : List PolicyRef) (w : World)
      → (assign_all name_before now agent refs >> pure refs) [] w
        ≡ (ok refs, [], record w { assignments = assign_rows agent now refs w.assignments })
  unfolding ◌>>=◌ pure
  push-runs refs w =
      ap
        (λ r. elim r.0 as (λ o. Outcome (Unit {0}) (List PolicyRef) × Faults × World) [
          | ok a ↦ (ok refs, r.1, r.2)
          | err e ↦ (err e, r.1, r.2)
        ])
        (assign_all-runs refs w)

  receive_acks-runs :
      (rs : List PolicyRef) (w : World)
      → receive_acks agent (map (answer true) rs) [] w
        ≡ (ok tt, [], record w { assignments = ack_rows agent now rs w.assignments })
  unfolding receive_acks receive_ack mark_acked pure lift select query execute modify ◌>>=◌
  receive_acks-runs [] w = refl
  receive_acks-runs (r ∷ rs) w = receive_acks-runs rs _

  module _ (ps : List PolicyRow) (rows : List AssignmentRow) (keyed : KeyedByName ps)
      (ranged : All (λ p. InRange p.version) ps) where
    waiting : List PolicyRow
    waiting = sort_by (before name_before agent) (filter (is_pending agent rows) ps)

    agree :
        (p : PolicyRow)
        → find (is_named p.name) ps ≡ some p
        → (qs : List PolicyRow) → All (λ q. find (is_named q.name) ps ≡ some q) qs
        → All (λ q. InRange q.version) qs
        → All (λ q. Agrees agent now p.name p.version (to_ref q)) qs
    agree p kp [] ks rs = tt
    agree p kp (q ∷ qs) ks rs =
        (λ e. to_i32-to_u32 q.version rs.0 ∙ same_version p q ps e kp ks.0, agree p kp qs ks.1 rs.1)

    abbrev final_rows : List AssignmentRow
    final_rows =
        ack_rows agent now (map to_ref waiting) (assign_rows agent now (map to_ref waiting) rows)

    All-Agrees :
        (p : PolicyRow)
        → find (is_named p.name) ps ≡ some p
        → All (Agrees agent now p.name p.version) (map to_ref waiting)
    unfolding waiting
    All-Agrees p kp = All-refs _ waiting (
        All-sort_by (before name_before agent) _ _
          (All-filter _ (is_pending agent rows) ps (agree p kp ps keyed ranged)))

    named_waiting :
        (p : PolicyRow)
        → find (is_named p.name) ps ≡ some p
        → is_pending agent rows p ≡ true
        → any (λ r. str_eq r.policy_id p.name) (map to_ref waiting) ≡ true
    unfolding waiting
    named_waiting p kp h =
        any-refs _ waiting
        ∙ any-sort_by (before name_before agent) _ (filter (is_pending agent rows) ps)
        ∙ any-found p.name (is_pending agent rows) p ps kp h

    up_to_date :
        (p : PolicyRow)
        → find (is_named p.name) ps ≡ some p
        → is_behind (acked_in agent p.name final_rows) p.version ≡ false ⊎ p.enabled ≡ false
    up_to_date p kp =
        let agrees = All-Agrees p kp in
        elim (Bool-cases (is_pending agent rows p)) [
          | inl h ↦
              (let named = named_waiting p kp h in
                inl (
                  acked-UpToDate agent now p.name p.version (map to_ref waiting) _ agrees
                    (any-assign_rows agent now p.name (map to_ref waiting) rows named) named))
          | inr h ↦ elim (Bool-cases p.enabled) [
            | inl e ↦ inl (
                UpToDate-ack_rows agent now p.name p.version (map to_ref waiting) _ agrees (
                  rw (acked_in-assign_rows agent now p.name (map to_ref waiting) rows)
                    (ground arith)))
            | inr e ↦ inr e
          ]
        ]

    not_pending :
        (p : PolicyRow) → find (is_named p.name) ps ≡ some p → is_pending agent final_rows p ≡ false
    not_pending p kp = elim (up_to_date p kp) [ inl h ↦ rw h (ground arith) | inr h ↦ rw h ]

    none_waits : filter (is_pending agent final_rows) ps ≡ []
    none_waits = filter-none (is_pending agent final_rows) ps (All-map _ _ not_pending ps keyed)

  -- A push in which no query fails sends the policies that wait for the agent. If the agent can write
  -- its files and the channel takes its answers, then after their receipt no policy waits for it, and
  -- the policies are unchanged. The table of policies is keyed by name, and its versions are not
  -- negative.
  pub push-converges :
      (w : World) (room : ℕ) (files : Files)
      → KeyedByName w.policies
      → All (λ p. InRange p.version) w.policies
      → length (load_pending_policies name_before agent w) ≤ room
      → (w1 w2 : World) × (push_pending name_before now agent [] w
          ≡ (ok (load_pending_policies name_before agent w), [], w1))
        × (receive_acks agent
              (apply_update true
                (λ n. true)
                room
                (load_pending_policies name_before agent w)
                files).0
              []
              w1
            ≡ (ok tt, [], w2))
        × (load_pending_policies name_before agent w2 ≡ [])
        × (w2.policies ≡ w.policies)
  unfolding push_pending load_pending_policies apply_update waiting sort_by pure lift select query
      execute modify ◌>>=◌
  push-converges w room files keyed ranged fits =
      let refs = load_pending_policies name_before agent w in
      let w1 = record w { assignments = assign_rows agent now refs w.assignments } in
      (
        w1,
        record w1 { assignments = ack_rows agent now refs w1.assignments },
        push-runs refs w,
        rw (apply_refs-all room refs files fits) (receive_acks-runs refs w1),
        ap (λ xs. map to_ref (sort_by (before name_before agent) xs))
            (none_waits w.policies w.assignments keyed ranged),
        refl,
      )
