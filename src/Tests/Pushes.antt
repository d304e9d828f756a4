-- ===== src/Tests/Pushes.antt =====
-- The push of policies to an agent, its answers, and the registry of the agents.
use scrooge_dlp.Common.{
  ◌+◌, Option, ◌==◌, if◌then◌else◌, String, Bool, true, false, none, some, [], ◌∷◌, ◌≡◌, refl,
  arith, ok,
}
use scrooge_dlp.Common.Int.{ℤ, pos}
use scrooge_dlp.Common.Sort.{sort_by}
use scrooge_dlp.Manager.World.{World, Uuid, PolicyRow}
use scrooge_dlp.Manager.Push.{load_pending_policies, push_pending, receive_acks, apply_update}
use scrooge_dlp.Manager.Push.Converge.{push-converges}
use scrooge_dlp.Manager.Registry.{AgentTx, get, on_stream, ended}
use scrooge_dlp.Manager.Agents.{AgentCommandRequest, run_command_bridge}
use scrooge_dlp.Manager.Agents.Reconnect.{command_of, twice, reconnect-lost}

abbrev row : String → ℤ → ℤ → PolicyRow
row name version priority = record {
  name = name;
  version = version;
  content_yaml = "";
  content_compiled = 1 ∷ [];
  content_hash = "4bf5";
  targets = "{}";
  priority = priority;
  enabled = true;
  created_at = 0;
  updated_at = 0;
  created_by = 1;
  updated_by = 1;
}

-- An agent that has the first version of `usb` and no `mail`.
abbrev world : World
world = record {
  policies = row "usb" (pos 2) (pos 5) ∷ row "mail" (pos 1) (pos 9) ∷ [];
  history = [];
  assignments =
      record {
        agent_id = 7;
        policy_name = "usb";
        assigned_version = pos 1;
        acked_version = some (pos 1);
        last_pushed_at = 0;
      }
      ∷ [];
  agents = [];
  tokens = [];
  users = [];
  refresh_tokens = [];
  pushes = [];
}

abbrev never_before : String → String → Bool
never_before a b = false

push-converges_example :
    (w1 w2 : World) × (push_pending never_before 100 7 [] world
      ≡ (ok (load_pending_policies never_before 7 world), [], w1))
    × (receive_acks 7
          (apply_update true (λ n. true) 16 (load_pending_policies never_before 7 world) []).0
          []
          w1
        ≡ (ok tt, [], w2))
    × (load_pending_policies never_before 7 w2 ≡ [])
    × (w2.policies ≡ world.policies)
unfolding load_pending_policies sort_by
push-converges_example =
    push-converges never_before 100 7 world 16 [] (refl, (refl, tt))
      (omega arith, (omega arith, tt)) (omega arith)

-- Agent 1 connects by channel 11 while its channel 10 is still there; agent 2 has channel 12.
abbrev to_agent : AgentCommandRequest
to_agent = record { agent_id = 1; command_type = 2; payload = 5 ∷ []; command_id = "c" }

reconnect-lost_example :
    (run_command_bridge (λ tx. true) ((twice 1 10 11 ((2, 12) ∷ []), to_agent) ∷ [])
      ≡ (11, command_of to_agent) ∷ [])
    × (run_command_bridge
          (λ tx. true)
          ((on_stream (ended 1) (twice 1 10 11 ((2, 12) ∷ [])), to_agent) ∷ [])
        ≡ [])
    × (get 2 (on_stream (ended 1) (twice 1 10 11 ((2, 12) ∷ []))) ≡ get 2 ((2, 12) ∷ []))
reconnect-lost_example = reconnect-lost (λ tx. true) to_agent 10 11 ((2, 12) ∷ []) 2 refl refl

-- Of three agents 7 and 9 are connected, the latter by a channel that is closed.
abbrev channel_of : Uuid → Option AgentTx
channel_of id = if id == 8 then none else some (id + 100)

abbrev is_open : AgentTx → Bool
is_open tx = tx == 107
