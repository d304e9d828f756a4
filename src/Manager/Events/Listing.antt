-- ===== src/Manager/Events/Listing.antt =====
-- crates/scrooge-manager-api/src/handlers/events.rs: the pages of events that the dashboard reads.
use scrooge_dlp.Common.{
  ℕ, String, Bool, true, not, Option, none, some, List, ◌&&◌, ◌||◌, Outcome, ok, err, err_if, ◌>>◌,
  if◌then◌else◌, str_eq, ◌==◌, filter, take, drop,
}
use scrooge_dlp.Common.Int.{ℤ, ltb_ℤ}
use scrooge_dlp.Common.Sort.{sort_by}
use scrooge_dlp.Manager.World.{Uuid}
use scrooge_dlp.Manager.Api.{
  ApiError, bad_request, invalid_severity, database, Claims, require_admin,
}
use scrooge_dlp.Manager.Events.{EventRow}
use Prim.Native.Nat.{min}

-- `EventQuery`, with `limit` and `offset` in a `u32` and times in nanoseconds.
pub record EventQuery : Type 0 where
  pub agent_id : Option Uuid
  pub severity : Option String
  pub event_type : Option String
  pub since : Option ℤ
  pub until : Option ℤ
  pub limit : Option ℕ
  pub offset : Option ℕ

abbrev pub unwrap_or : Option ℕ → ℕ → ℕ
unwrap_or none d = d
unwrap_or (some n) d = n

abbrev pub is_severity : String → Bool
is_severity s = str_eq s "low" || (str_eq s "medium" || (str_eq s "high" || str_eq s "critical"))

-- `return Err(..)` on a severity that is none.
abbrev pub check_severity : Option String → Outcome ApiError (Unit {0})
check_severity none = ok tt
check_severity (some s) = err_if (not (is_severity s)) (bad_request (invalid_severity s))

-- A condition that is only pushed where the query has it.
abbrev pub where_some : {A : Type 0} → Option A → (A → Bool) → Bool
where_some none p = true
where_some (some a) p = p a

-- `WHERE 1=1 AND ..`
abbrev pub fits : EventQuery → EventRow → Bool
fits q r =
    where_some q.agent_id (λ a. r.agent_id == a)
    && (where_some q.severity (λ s. str_eq r.severity s)
        && (where_some q.event_type (λ t. str_eq r.event_type t)
            && (where_some q.since (λ t. not (ltb_ℤ r.timestamp t))
                && where_some q.until (λ t. not (ltb_ℤ t r.timestamp)))))

-- `ORDER BY timestamp DESC`
abbrev pub is_later : EventRow → EventRow → Bool
is_later r s = ltb_ℤ s.timestamp r.timestamp

abbrev pub limit_of : EventQuery → ℕ
limit_of q = min (unwrap_or q.limit 100) 1000

-- `LIMIT .. OFFSET ..`
abbrev pub page : EventQuery → List EventRow → List EventRow
page q rows =
    take (limit_of q) (drop (unwrap_or q.offset 0) (sort_by is_later (filter (fits q) rows)))

-- `list`, on the table of the events, where the query may fail; a row is answered as it stands.
unfoldable pub list : Claims → EventQuery → Bool → List EventRow → Outcome ApiError (List EventRow)
list claims q fails table = do
  require_admin claims
  check_severity q.severity
  if fails then err database else ok (page q table)
