-- ===== src/Manager/Enroll/Effect.antt =====
-- grpc.rs, `enroll`: what a request does to the tokens.
use scrooge_dlp.Common.{
  String, Bool, true, false, none, some, List, [], ◌∷◌, ◌≡◌, refl, arith, Outcome, ok, err, str_eq,
  eq_iff, find, Bool-cases, Option-cases, inl, inr, ◌⊎◌,
}
use scrooge_dlp.Manager.World.{World, TokenRow, attempt, pure, lift, select, query, execute, ◌>>=◌}
use scrooge_dlp.Manager.Enroll.{
  Authority, EnrollRequest, agent_row, is_expired, is_taken, is_token, is_spent, count_use, joined,
  insert_agent, enroll,
}

abbrev pub is_ok : {E A : Type 0} → Outcome E A → Bool
is_ok (ok a) = true
is_ok (err e) = false

pub find-count_use_other :
    (hash other : String) (ts : List TokenRow)
    → str_eq other hash ≡ false
    → find (is_token hash) (count_use other ts) ≡ find (is_token hash) ts
find-count_use_other hash other [] ne = refl
find-count_use_other hash other (t ∷ ts) ne =
    let rest = find-count_use_other hash other ts ne in
    elim (Bool-cases (is_token other t)) [
      | inl e ↦
          (let no_hash : is_token hash t ≡ false =
              ground
                (arith, eq_iff t.token_hash other, eq_iff t.token_hash hash, eq_iff other hash) in
            rw (e, no_hash) rest)
      | inr e ↦ elim (Bool-cases (is_token hash t)) [ inl k ↦ rw (e, k) | inr k ↦ rw (e, k) rest ]
    ]

-- A request is not admitted and changes no token, or its token had a use left, which is counted.
pub record Refused (ca : Authority) (req : EnrollRequest) (w : World) : Type 0 where
  pub not_ok : is_ok (enroll ca req [] w).0 ≡ false
  pub kept : (enroll ca req [] w).2.tokens ≡ w.tokens

pub record Counted (ca : Authority) (req : EnrollRequest) (w : World) : Type 0 where
  pub row : TokenRow
  pub found : find (is_token (ca.sha256_hex req.enrollment_token)) w.tokens ≡ some row
  pub unspent : is_spent row ≡ false
  pub counted :
      (enroll ca req [] w).2.tokens ≡ count_use (ca.sha256_hex req.enrollment_token) w.tokens

pub enroll-effect :
    (ca : Authority) (req : EnrollRequest) (w : World) → Refused ca req w ⊎ Counted ca req w
unfolding enroll pure lift select query execute ◌>>=◌
enroll-effect ca req w = elim (Option-cases req.info) [
  | inl e ↦ inl (record { not_ok = rw (enroll, e); kept = rw (enroll, e) })
  | inr (info, e) ↦
      elim (Option-cases (find (is_token (ca.sha256_hex req.enrollment_token)) w.tokens)) [
        | inl f ↦ inl (record { not_ok = rw (enroll, e, f); kept = rw (enroll, e, f) })
        | inr (t, f) ↦ elim (Bool-cases (is_expired ca.now t)) [
          | inl x ↦ inl (record { not_ok = rw (enroll, e, f, x); kept = rw (enroll, e, f, x) })
          | inr x ↦ elim (Bool-cases (is_spent t)) [
            | inl s ↦
                inl (record { not_ok = rw (enroll, e, f, x, s); kept = rw (enroll, e, f, x, s) })
            | inr s ↦ elim (Option-cases (ca.from_utf8 req.csr_pem)) [
              | inl c ↦ inl (record {
                not_ok = rw (enroll, e, f, x, s, c);
                kept = rw (enroll, e, f, x, s, c);
              })
              | inr (csr, c) ↦
                  elim (Option-cases (ca.sign_csr_with_cn csr (ca.to_string ca.new_v4))) [
                    | inl g ↦ inl (record {
                      not_ok = rw (enroll, e, f, x, s, c, g);
                      kept = rw (enroll, e, f, x, s, c, g);
                    })
                    | inr (cert, g) ↦
                        elim (Bool-cases (is_taken (agent_row ca info cert) w.agents)) [
                          | inl k ↦
                              (let taken : insert_agent (agent_row ca info cert) w ≡ none = rw k in
                                inl (record {
                                  not_ok = rw (enroll, e, f, x, s, c, g, taken, attempt);
                                  kept = rw (enroll, e, f, x, s, c, g, taken, attempt, taken);
                                }))
                          | inr k ↦
                              (let free : insert_agent (agent_row ca info cert) w
                                    ≡ some (tt, joined ca req info w e t csr cert f x s c g k) =
                                  rw k in
                                inr (record {
                                  row = t;
                                  found = f;
                                  unspent = s;
                                  counted = rw (enroll, e, f, x, s, c, g, free, attempt, free);
                                }))
                        ]
                  ]
            ]
          ]
        ]
      ]
]
