-- ===== src/Agent/Session/Heartbeats.antt =====
-- stream.rs, `run_one_session`: the task that sends heartbeats.
use scrooge_dlp.Common.{ℕ, zero, suc, String, List, [], ◌∷◌, ◌≡◌, refl, ap, map, take}
use scrooge_dlp.Common.Int.{ℤ}

-- `Heartbeat`, but for the fields that the source leaves empty.
pub record Heartbeat : Type 0 where
  pub timestamp_ns : ℤ
  pub agent_version : String

-- What the task waits for: the next tick of the interval, at a time, and the shutdown.
pub data Beat : Type 0 where
  tick : (timestamp_ns : ℤ) → Beat
  shutdown : Beat

module _ (agent_version : String) where
  abbrev pub heartbeat_at : ℤ → Heartbeat
  heartbeat_at t = record { timestamp_ns = t; agent_version = agent_version }

  -- The loop of the task, on a channel that takes `room` messages more before it is closed.
  unfoldable pub heartbeats : (room : ℕ) → List Beat → List Heartbeat
  heartbeats room [] = []
  heartbeats room (shutdown ∷ bs) = []
  heartbeats zero (tick t ∷ bs) = []
  heartbeats (suc room) (tick t ∷ bs) = heartbeat_at t ∷ heartbeats room bs

  -- The ticks before the shutdown.
  abbrev pub ticks : List Beat → List ℤ
  ticks [] = []
  ticks (shutdown ∷ bs) = []
  ticks (tick t ∷ bs) = t ∷ ticks bs

  -- Each tick before the shutdown sends one heartbeat, as long as the channel takes them.
  pub heartbeats-ticks :
      (room : ℕ) (bs : List Beat) → heartbeats room bs ≡ map heartbeat_at (take room (ticks bs))
  unfolding heartbeats
  heartbeats-ticks zero [] = refl
  heartbeats-ticks (suc room) [] = refl
  heartbeats-ticks zero (shutdown ∷ bs) = refl
  heartbeats-ticks (suc room) (shutdown ∷ bs) = refl
  heartbeats-ticks zero (tick t ∷ bs) = refl
  heartbeats-ticks (suc room) (tick t ∷ bs) =
      ap (λ hs. heartbeat_at t ∷ hs) (heartbeats-ticks room bs)
