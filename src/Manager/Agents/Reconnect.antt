-- ===== src/Manager/Agents/Reconnect.antt =====
-- grpc.rs: an agent that connects again before the end of its old stream is noticed, and the commands
-- that the bridge carries to it.
use scrooge_dlp.Common.{Bool, true, false, some, none, [], ◌∷◌, ◌≡◌, ◌==◌, ◌∙◌}
use scrooge_dlp.Manager.World.{Uuid}
use scrooge_dlp.Manager.Registry.{
  AgentTx, AgentRegistry, get, accepted, ended, on_stream, get-on_stream,
}
use scrooge_dlp.Manager.Agents.{AgentCommandRequest, Command, run_command_bridge}

-- The message of a request.
abbrev pub command_of : AgentCommandRequest → Command
command_of req = record {
  command_id = req.command_id;
  command_type = req.command_type;
  payload = req.payload;
}

module _ (is_open : AgentTx → Bool) (req : AgentCommandRequest) (reg : AgentRegistry) where
  bridge-some :
      (tx : AgentTx)
      → get req.agent_id reg ≡ some tx
      → is_open tx ≡ true
      → run_command_bridge is_open ((reg, req) ∷ []) ≡ (tx, command_of req) ∷ []
  unfolding run_command_bridge
  bridge-some tx found open' = rw (run_command_bridge, found, open')

  bridge-none : get req.agent_id reg ≡ none → run_command_bridge is_open ((reg, req) ∷ []) ≡ []
  unfolding run_command_bridge
  bridge-none missing = rw (run_command_bridge, missing)

-- The registry once both streams of the agent are accepted.
abbrev pub twice : Uuid → (old fresh : AgentTx) → AgentRegistry → AgentRegistry
twice agent old fresh r = on_stream (accepted agent fresh) (on_stream (accepted agent old) r)

module _ (is_open : AgentTx → Bool) (req : AgentCommandRequest) (old fresh : AgentTx)
    (r : AgentRegistry) where
  abbrev connected : AgentRegistry
  connected = twice req.agent_id old fresh r

  -- Where an agent connects again before its old stream ends, a command goes to the new channel; once
  -- the old stream has ended, a command for the agent is dropped, although the new channel still takes
  -- messages. What is found for another agent is as it was before both streams.
  pub reconnect-lost :
      (other : Uuid)
      → (other == req.agent_id) ≡ false
      → is_open fresh ≡ true
      → (run_command_bridge is_open ((connected, req) ∷ []) ≡ (fresh, command_of req) ∷ [])
        × (run_command_bridge is_open ((on_stream (ended req.agent_id) connected, req) ∷ []) ≡ [])
        × (get other (on_stream (ended req.agent_id) connected) ≡ get other r)
  reconnect-lost other ne open' =
      let first = get-on_stream req.agent_id other old r ne in
      let second =
        get-on_stream req.agent_id other fresh (on_stream (accepted req.agent_id old) r) ne in
      let last = get-on_stream req.agent_id other fresh connected ne in
      (
        bridge-some is_open req connected fresh second.0 open',
        bridge-none is_open req (on_stream (ended req.agent_id) connected) last.1,
        last.3 ∙ second.2 ∙ first.2,
      )
