-- ===== src/Manager/Broadcast/Rounds.antt =====
-- grpc.rs, `run_policy_push_bridge`: what a broadcast sends, and what it leaves waiting.
use scrooge_dlp.Common.{ℕ, String, Bool, Option, none, some, [], ◌≡◌, ok}
use scrooge_dlp.Common.Int.{ℤ}
use scrooge_dlp.Manager.World.{Uuid, World, AssignmentRow}
use scrooge_dlp.Manager.World.Keeps.{Keeps}
use scrooge_dlp.Manager.Push.{load_pending_policies, acked_in}
use scrooge_dlp.Manager.Push.Laws.{assign_rows}
use scrooge_dlp.Manager.Registry.{AgentTx}
use scrooge_dlp.Manager.Broadcast.{Updates, delivered}

abbrev pushed : ℕ → ℤ → AssignmentRow → AssignmentRow
pushed now version a = record a { assigned_version = version; last_pushed_at = now }

module _ (name_before : String → String → Bool) (now : ℕ) (w0 : World) where
  -- The policies are those of `w0`, and so is what the agents acknowledged.
  record Same (w : World) : Type 0 where
    policies : w.policies ≡ w0.policies
    acked :
        (who : Uuid) (name : String)
        → acked_in who name w.assignments ≡ acked_in who name w0.assignments

  module _ (channel_of : Uuid → Option AgentTx) (is_open : AgentTx → Bool) where
    -- The update that an agent gets of what waits for it in `w0`.
    abbrev pub update_for : Uuid → Updates
    update_for id = elim (channel_of id) [
      | none ↦ []
      | some tx ↦ delivered (is_open tx) tx (ok (load_pending_policies name_before id w0))
    ]

    abbrev assigned : Uuid → World → World
    assigned id w = record w {
      assignments = assign_rows id now (load_pending_policies name_before id w) w.assignments;
    }
