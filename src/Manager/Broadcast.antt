-- ===== src/Manager/Broadcast.antt =====
-- crates/scrooge-manager-bin/src/grpc.rs, `run_policy_push_bridge`: the push of the policies to every
-- agent that is connected.
pub mod Rounds
use scrooge_dlp.Common.{
  Bool, ℕ, String, Option, none, some, List, [], ◌∷◌, ◌++◌, Outcome, ok, err, if◌then◌else◌,
}
use scrooge_dlp.Manager.World.{Uuid, World, Faults}
use scrooge_dlp.Manager.Push.{PolicyRef, push_pending}
use scrooge_dlp.Manager.Registry.{AgentTx, AgentRegistry, all_agent_ids, get}

-- The updates on the channels of the agents.
abbrev pub Updates : Type 0
Updates = List (AgentTx × List PolicyRef)

-- A request of the bridge: the agents that are connected when it comes, their channels when their
-- turn comes, the channels that take a message, the faults that its queries meet, and what others have
-- done to the database before it.
pub record Round : Type 0 where
  pub ids : List Uuid
  pub channel_of : Uuid → Option AgentTx
  pub is_open : AgentTx → Bool
  pub faults : Faults
  pub others : World → World

-- The update for one agent: none where nothing waits, or where it could not be loaded or sent.
abbrev pub delivered : Bool → AgentTx → Outcome (Unit {0}) (List PolicyRef) → Updates
delivered takes tx (err e) = []
delivered takes tx (ok []) = []
delivered takes tx (ok (r ∷ rs)) = if takes then (tx, r ∷ rs) ∷ [] else []

module _ (name_before : String → String → Bool) (now : ℕ) where
  -- The loop over the agents.
  unfoldable pub broadcast :
      (Uuid → Option AgentTx)
      → (AgentTx → Bool)
      → List Uuid
      → Faults
      → World
      → Updates × Faults × World
  broadcast channel_of is_open [] fs w = ([], fs, w)
  broadcast channel_of is_open (id ∷ ids) fs w = elim (channel_of id) [
    | none ↦ broadcast channel_of is_open ids fs w
    | some tx ↦
        (let (pending, fs', w') = push_pending name_before now id fs w in
          let (sent, fs'', w'') = broadcast channel_of is_open ids fs' w' in
          (delivered (is_open tx) tx pending ++ sent, fs'', w''))
  ]

  -- The loop over the requests.
  unfoldable pub run_policy_push_bridge : List Round → World → Updates × World
  unfolding broadcast
  run_policy_push_bridge [] w = ([], w)
  run_policy_push_bridge (r ∷ rs) w =
      let (sent, fs, w') = broadcast r.channel_of r.is_open r.ids r.faults (r.others w) in
      let (more, w'') = run_policy_push_bridge rs w' in (sent ++ more, w'')
