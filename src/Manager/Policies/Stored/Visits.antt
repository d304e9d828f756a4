-- ===== src/Manager/Policies/Stored/Visits.antt =====
-- policies.rs: sequences of requests.
use scrooge_dlp.Common.{ℕ, String, Option, List, [], ◌∷◌}
use scrooge_dlp.Common.Int.{ℤ}
use scrooge_dlp.Manager.World.{World, Faults}
use scrooge_dlp.Manager.World.Keeps.{Keeps-at}
use scrooge_dlp.Manager.Api.{Claims, AppState}
use scrooge_dlp.Manager.Policies.{PolicyRequest, parse_and_compile, create, update, delete_, get}
use scrooge_dlp.Manager.Policies.Versions.{history, rollback}
use scrooge_dlp.Manager.Policies.Listing.{list, validate}
use scrooge_dlp.Manager.Policies.Stored.{Stored}
use scrooge_dlp.Manager.Policies.Stored.Requests.{
  create-Stored, update-Stored, delete_-Stored, rollback-Stored, get-Stored, history-Stored,
  list-Stored, validate-Stored,
}

-- A call of one of the handlers.
pub data PolicyCall : Type 0 where
  list_call : PolicyCall
  get_call : String → PolicyCall
  create_call : PolicyRequest → PolicyCall
  update_call : String → PolicyRequest → PolicyCall
  delete_call : String → PolicyCall
  history_call : String → PolicyCall
  rollback_call : String → ℤ → String → PolicyCall
  validate_call : String → PolicyCall

-- What a call leaves, at a time, with room for so many push requests, by a caller with these claims.
abbrev pub serve : AppState → Claims → Faults → PolicyCall → World → World
serve app claims fs list_call w = (list app claims fs w).2
serve app claims fs (get_call name) w = (get app claims name fs w).2
serve app claims fs (create_call req) w = (create app claims req fs w).2
serve app claims fs (update_call name req) w = (update app claims name req fs w).2
serve app claims fs (delete_call name) w = (delete_ app claims name fs w).2
serve app claims fs (history_call name) w = (history app claims name fs w).2
serve app claims fs (rollback_call name version reason) w =
    (rollback app claims name version reason fs w).2
serve app claims fs (validate_call yaml) w = (validate app claims yaml fs w).2

serve-Stored :
    (app : AppState) (claims : Claims) (fs : Faults) (c : PolicyCall) (w : World)
    → Stored (parse_and_compile app) w
    → Stored (parse_and_compile app) (serve app claims fs c w)
serve-Stored app claims fs list_call w s = Keeps-at (list-Stored app claims) fs w s
serve-Stored app claims fs (get_call name) w s = Keeps-at (get-Stored app claims name) fs w s
serve-Stored app claims fs (create_call req) w s = Keeps-at (create-Stored app claims req) fs w s
serve-Stored app claims fs (update_call name req) w s =
    Keeps-at (update-Stored app claims name req) fs w s
serve-Stored app claims fs (delete_call name) w s = Keeps-at (delete_-Stored app claims name) fs w s
serve-Stored app claims fs (history_call name) w s =
    Keeps-at (history-Stored app claims name) fs w s
serve-Stored app claims fs (rollback_call name version reason) w s =
    Keeps-at (rollback-Stored app claims name version reason) fs w s
serve-Stored app claims fs (validate_call yaml) w s =
    Keeps-at (validate-Stored app claims yaml) fs w s

pub record Visit : Type 0 where
  pub now : ℕ
  pub push_capacity : Option ℕ
  pub claims : Claims
  pub faults : Faults
  pub call : PolicyCall

abbrev pub visited : AppState → Visit → World → World
visited app v w =
    serve (record app { now = v.now; push_capacity = v.push_capacity }) v.claims v.faults v.call w

abbrev pub visited_all : AppState → List Visit → World → World
visited_all app [] w = w
visited_all app (v ∷ vs) w = visited_all app vs (visited app v w)

-- Whatever is asked of the handlers of the policies, by whom, in which order, at which times and with
-- whichever queries lost, soundness of the tables is kept: a policy is the one row under its name,
-- its compiled form, hash, targets and priority are those of its document, and every entry of the
-- history is a document of its policy that still compiles.
pub visited_all-Stored :
    (app : AppState) (vs : List Visit) (w : World)
    → Stored (parse_and_compile app) w
    → Stored (parse_and_compile app) (visited_all app vs w)
unfolding parse_and_compile
visited_all-Stored app [] w s = s
visited_all-Stored app (v ∷ vs) w s = visited_all-Stored app vs _ (
    serve-Stored (record app { now = v.now; push_capacity = v.push_capacity }) v.claims v.faults
      v.call w s)
