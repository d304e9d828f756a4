-- ===== src/Manager/World.antt =====
-- The manager's database (migrations/) as lists of rows, with the queue of push requests, and the
-- chains of queries that the handlers run on it. A query fails where the list of faults says so; a
-- failed query changes nothing.
pub mod Hoare
pub mod Keeps
pub mod Answers
use scrooge_dlp.Common.{
  ℕ, String, Bool, true, false, Option, none, some, List, [], ◌∷◌, ◌+◌, zero, suc, Outcome, ok, err,
  if◌then◌else◌, ◌==◌,
}
use scrooge_dlp.Common.Int.{ℤ, pos, negsuc}
use scrooge_dlp.Common.Text.{Text}

-- A `Uuid`, a number of 128 bits.
abbrev pub Uuid : Type 0
Uuid = ℕ

abbrev pub Bytes : Type 0
Bytes = List ℕ

-- Table `policies`, with `version` and `priority` in an `i32` and times in seconds.
pub record PolicyRow : Type 0 where
  pub name : String
  pub version : ℤ
  pub content_yaml : String
  pub content_compiled : Bytes
  pub content_hash : String
  pub targets : String
  pub priority : ℤ
  pub enabled : Bool
  pub created_at : ℕ
  pub updated_at : ℕ
  pub created_by : Uuid
  pub updated_by : Uuid

-- Table `policy_history`.
pub record HistoryRow : Type 0 where
  pub policy_name : String
  pub version : ℤ
  pub content_yaml : String
  pub changed_by : Uuid
  pub changed_at : ℕ
  pub change_reason : String

-- Table `policy_assignments`, whose key is the agent and the policy.
pub record AssignmentRow : Type 0 where
  pub agent_id : Uuid
  pub policy_name : String
  pub assigned_version : ℤ
  pub acked_version : Option ℤ
  pub last_pushed_at : ℕ

-- Table `agents`.
pub record AgentRow : Type 0 where
  pub id : Uuid
  pub hostname : String
  pub os : String
  pub os_version : String
  pub arch : String
  pub agent_version : String
  pub enrolled_at : ℕ
  pub last_seen : ℕ
  pub status : String
  pub cert_fingerprint : String

-- Table `enrollment_tokens`.
pub record TokenRow : Type 0 where
  pub token_hash : String
  pub description : Option Text
  pub created_by : Option Uuid
  pub max_uses : Option ℕ
  pub uses_count : ℕ
  pub expires_at : Option ℕ

-- Table `users`.
pub record UserRow : Type 0 where
  pub id : Uuid
  pub username : String
  pub password_hash : String
  pub role : String
  pub enabled : Bool
  pub last_login : Option ℕ

-- Table `refresh_tokens`.
pub record RefreshRow : Type 0 where
  pub token_hash : String
  pub user_id : Uuid
  pub expires_at : ℕ
  pub revoked : Bool

pub record World : Type 0 where
  pub policies : List PolicyRow
  pub history : List HistoryRow
  pub assignments : List AssignmentRow
  pub agents : List AgentRow
  pub tokens : List TokenRow
  pub users : List UserRow
  pub refresh_tokens : List RefreshRow
  pub pushes : List (Option String)  -- the requests that wait for the push bridge

-- Which of the queries to come fail; past the end of the list all of them work.
abbrev pub Faults : Type 0
Faults = List Bool

abbrev pub fails_now : Faults → Bool
fails_now [] = false
fails_now (b ∷ fs) = b

abbrev pub later : Faults → Faults
later [] = []
later (b ∷ fs) = fs

abbrev pub Action : Type 0 → Type 0 → Type 0
Action E A = Faults → World → Outcome E A × Faults × World

module _ {E A : Type 0} where
  unfoldable pub pure : A → Action E A
  pure a fs w = (ok a, fs, w)

  -- A step that needs no database: `?` on a `Result`.
  unfoldable pub lift : Outcome E A → Action E A
  lift r fs w = (r, fs, w)

  abbrev pub attempt : Option (A × World) → E → World → Outcome E A × World
  attempt none e w = (err e, w)
  attempt (some (a, w')) e w = (ok a, w')

  -- One query, which the database may refuse by `none`, as at a key that is taken.
  unfoldable pub query : (World → Option (A × World)) → E → Action E A
  query f e fs w =
      if fails_now fs
      then (err e, later fs, w)
      else (let (r, w') = attempt (f w) e w in (r, later fs, w'))

  unfoldable pub select : (World → A) → E → Action E A
  unfolding query
  select f = query (λ w. some (f w, w))

infixl 5 ◌>>=◌ ◌>>◌
unfoldable pub ◌>>=◌ : {E A B : Type 0} → Action E A → (A → Action E B) → Action E B
◌>>=◌ m f fs w =
    let (r, fs', w') = m fs w in elim r [ ok a ↦ f a fs' w' | err e ↦ (err e, fs', w') ]

abbrev pub ◌>>◌ : {E B : Type 0} → Action E (Unit {0}) → Action E B → Action E B
m >> k = m >>= λ _. k

unfoldable pub execute : {E : Type 0} → (World → World) → E → Action E (Unit {0})
unfolding query
execute f = query (λ w. some (tt, f w))

-- A step that neither asks the database nor fails.
unfoldable pub modify : {E : Type 0} → (World → World) → Action E (Unit {0})
modify f fs w = (ok tt, fs, f w)

-- `i32` addition of 1 in a release build, which wraps at the largest number.
abbrev pub succ_i32 : ℤ → ℤ
succ_i32 (pos n) = if n == 2147483647 then negsuc 2147483647 else pos (n + 1)
succ_i32 (negsuc n) = elim n [ zero ↦ pos 0 | suc m ↦ negsuc m ]
