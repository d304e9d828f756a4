-- ===== src/Cli/Admin/Tokens.antt =====
-- `gen_token` and grpc.rs, `enroll`: how many agents a token admits.
use scrooge_dlp.Common.{ℕ, String, Option, some, List, ◌≡◌, ◌≤◌, refl, subst, arith, ok, find}
use scrooge_dlp.Manager.World.{World, Faults}
use scrooge_dlp.Manager.World.Answers.{after, query-Answers, pure-Answers}
use scrooge_dlp.Common.Text.{Text}
use scrooge_dlp.Common.Int.{ℤ, pos}
use scrooge_dlp.Manager.Install.Once.{insert_token-found}
use scrooge_dlp.Cli.Admin.{AdminState, generated_row, gen_token}
use scrooge_dlp.Manager.Enroll.Bound.{admitted, Holds, admitted_within}
use scrooge_dlp.Manager.Enroll.{Authority, EnrollRequest, is_token}

module _ (state : AdminState) (d : Option Text) (n : ℕ) (days : ℤ) (fs gs : Faults) (w v : World)
    (raw : String) (generated : gen_token state d (some (pos n)) days fs w ≡ (ok raw, gs, v)) where
  stored : Holds (state.sha256_hex raw) n v 0
  unfolding gen_token
  stored =
      after _ _ fs w raw v (record { left = gs; run = generated })
        (λ expires gs1 w1 first rest. after _ _ gs1 w1 raw v rest (λ u gs2 w2 added last.
          let (same, there) = pure-Answers state.new_v4 last in
          let row = generated_row state d (some (pos n)) expires in
          let inserted = query-Answers _ _ added in
          let found = insert_token-found row w1 w2 u inserted in
          record {
            row = row;
            found =
                subst (λ x. find (is_token (state.sha256_hex x)) v.tokens ≡ some row) same
                  (subst (λ x. find (is_token row.token_hash) x.tokens ≡ some row) there found);
            bound = refl;
            uses = refl;
            within = omega arith;
          }))

  -- However many requests bear a token that the command gave out with a bound, one after another, no
  -- more of them than the bound are admitted, whichever of them are refused. No query of theirs fails.
  pub gen_token-admitted :
      (rs : List (Authority × EnrollRequest)) → admitted (state.sha256_hex raw) rs v ≤ n
  gen_token-admitted rs =
      let most = admitted_within (state.sha256_hex raw) n rs v 0 stored in omega (arith, most)
