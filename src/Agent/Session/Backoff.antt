-- ===== src/Agent/Session/Backoff.antt =====
-- stream.rs, `run_with_reconnect`: how long the agent waits before it connects again.
use scrooge_dlp.Common.{
  ℕ, suc, Bool, false, List, [], ◌∷◌, ◌*◌, ◌^◌, ◌≤◌, ◌≡◌, refl, ap, ◌∙◌, arith, map, length, All,
  ◌||◌, any, Bool-cases, inl, inr,
}
use scrooge_dlp.Agent.Session.{
  Attempt, connect_failed, session_error, ended_cleanly, Round, delay_after, doubled, reconnect,
  run_with_reconnect,
}
use Prim.Native.Nat.{min}

-- A round through which the agent is not shut down.
abbrev pub lived : Attempt → Round
lived a = record { shutdown = false; attempt = a; shutdown_asleep = false }

-- The delays by the count `k` of the rounds since the last session that ended cleanly, or since the
-- start: no delay depends on the one before it.
abbrev pub delays : ℕ → List Attempt → List ℕ
delays k [] = []
delays k (ended_cleanly ∷ rest) = 1 ∷ delays 1 rest
delays k (connect_failed ∷ rest) = min (2 ^ k) 60 ∷ delays (suc k) rest
delays k (session_error ∷ rest) = min (2 ^ k) 60 ∷ delays (suc k) rest

pow_suc : (k : ℕ) → 2 ^ suc k ≡ 2 ^ k * 2
pow_suc k = omega arith

doubled-delay : (k : ℕ) → doubled (min (2 ^ k) 60) ≡ min (2 ^ suc k) 60
doubled-delay k = rw (pow_suc k) (omega arith)

reconnect-delays :
    (k : ℕ) (atts : List Attempt)
    → reconnect (min (2 ^ k) 60) (map lived atts) ≡ (delays k atts, false)
reconnect-delays k [] = refl
reconnect-delays k (ended_cleanly ∷ rest) = ap (λ r. (1 ∷ r.0, r.1)) (reconnect-delays 1 rest)
reconnect-delays k (connect_failed ∷ rest) =
    ap (λ r. (min (2 ^ k) 60 ∷ r.0, r.1))
      (ap (λ b. reconnect b (map lived rest)) (doubled-delay k) ∙ reconnect-delays (suc k) rest)
reconnect-delays k (session_error ∷ rest) =
    ap (λ r. (min (2 ^ k) 60 ∷ r.0, r.1))
      (ap (λ b. reconnect b (map lived rest)) (doubled-delay k) ∙ reconnect-delays (suc k) rest)

-- While the agent is not shut down the loop goes on, and the delay after a failure is a second,
-- doubled for each round since the last session that ended cleanly, and at most a minute.
pub run_with_reconnect-delays :
    (atts : List Attempt) → run_with_reconnect (map lived atts) ≡ (delays 0 atts, false)
unfolding run_with_reconnect
run_with_reconnect-delays atts = reconnect-delays 0 atts

-- A round that ends the loop.
abbrev pub stops : Round → Bool
stops r = r.shutdown || r.shutdown_asleep

delay_bounds :
    (a : Attempt) (b : ℕ) → 1 ≤ b → b ≤ 60 → (1 ≤ delay_after a b) × (delay_after a b ≤ 60)
delay_bounds connect_failed b lo hi = (lo, hi)
delay_bounds session_error b lo hi = (lo, hi)
delay_bounds ended_cleanly b lo hi = (omega arith, omega arith)

reconnect_bounds :
    (b : ℕ) (rs : List Round)
    → 1 ≤ b
    → b ≤ 60
    → All (λ d. (1 ≤ d) × (d ≤ 60)) (reconnect b rs).0
      × (length (reconnect b rs).0 ≤ length rs)
      × ((reconnect b rs).1 ≡ any stops rs)
reconnect_bounds b [] lo hi = (tt, omega arith, refl)
reconnect_bounds b (r ∷ rs) lo hi =
    let (lo', hi') = delay_bounds r.attempt b lo hi in
    let rest =
      reconnect_bounds (doubled (delay_after r.attempt b)) rs (omega (arith, lo')) (omega arith) in
    elim (Bool-cases r.shutdown) [
      | inl e ↦ rw e (tt, omega arith, refl)
      | inr e ↦ elim (Bool-cases r.shutdown_asleep) [
        | inl a ↦ rw (e, a) (((lo', hi'), tt), omega arith, refl)
        | inr a ↦ rw (e, a) (((lo', hi'), rest.0), omega (arith, rest.1), rest.2)
      ]
    ]

-- Whatever the attempts bring, each delay is of a second at least and a minute at most, there is at
-- most one for each round, and the loop returns exactly if a shutdown comes.
pub run_with_reconnect_bounds :
    (rs : List Round)
    → All (λ d. (1 ≤ d) × (d ≤ 60)) (run_with_reconnect rs).0
      × (length (run_with_reconnect rs).0 ≤ length rs)
      × ((run_with_reconnect rs).1 ≡ any stops rs)
unfolding run_with_reconnect
run_with_reconnect_bounds rs = reconnect_bounds 1 rs (omega arith) (omega arith)
