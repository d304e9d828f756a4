-- ===== src/Agent/Identity.antt =====
-- crates/scrooge-agent-bin: the identity that an agent keeps in its data directory (state.rs), and how
-- it comes to one at its start (enroll.rs, main.rs). The file system's failures, the parser of UUIDs
-- and the exchange with the manager are parameters.
use scrooge_dlp.Common.{
  Bool, true, Option, none, some, [], ◌∷◌, ◌≡◌, refl, All, Outcome, ok, err, ok_or, ◌>>=◌,
  if◌then◌else◌,
}
use scrooge_dlp.Common.Text.{Text}
use scrooge_dlp.Policy.Size.{trim}
use scrooge_dlp.Manager.World.{Uuid}

-- `AgentState`
pub record AgentState : Type 0 where
  pub agent_id : Uuid
  pub cert_pem : Text
  pub key_pem : Text

-- The files of the data directory: `agent.cert`, `agent.key` and `agent.id`.
pub record DataDir : Type 0 where
  pub cert : Option Text
  pub key : Option Text
  pub id : Option Text

-- What a start ends in, where it does not get to an identity.
pub data StartError : Type 0 where
  reading writing parsing no_token enrolling : StartError

-- The step at which a save stops, or its end.
pub data SaveEnd : Type 0 where
  at_dir at_cert at_key at_id at_mode saved : SaveEnd

-- `Uuid::parse_str` and the text of a UUID.
pub record Uuids : Type 0 where
  pub parse_str : Text → Option Uuid
  pub to_string : Uuid → Text

module _ (uuids : Uuids) where
  -- `AgentState::load`, where `readable` says whether the files that exist can be read.
  unfoldable pub load : (readable : Bool) → DataDir → Outcome StartError (Option AgentState)
  load readable d = elim d.cert [
    | none ↦ ok none
    | some cert ↦ elim d.key [
      | none ↦ ok none
      | some key ↦ elim d.id [
        | none ↦ ok none
        | some id_raw ↦
            if readable
            then elim (uuids.parse_str (trim id_raw)) [
              | none ↦ err parsing
              | some id ↦ ok (some (record { agent_id = id; cert_pem = cert; key_pem = key }))
            ]
            else err reading
      ]
    ]
  ]

  -- `AgentState::save`, which makes the directory, writes the three files in their order, and
  -- sets the permissions of the key.
  unfoldable pub save : SaveEnd → AgentState → DataDir → Outcome StartError (Unit {0}) × DataDir
  save at_dir s d = (err writing, d)
  save at_cert s d = (err writing, d)
  save at_key s d = (err writing, record d { cert = some s.cert_pem })
  save at_id s d = (err writing, record d { cert = some s.cert_pem; key = some s.key_pem })
  save at_mode s d = (
    err writing,
    record { cert = some s.cert_pem; key = some s.key_pem; id = some (uuids.to_string s.agent_id) },
  )
  save saved s d = (
    ok tt,
    record { cert = some s.cert_pem; key = some s.key_pem; id = some (uuids.to_string s.agent_id) },
  )

  -- `enroll`, from the key that was made and the answer of the manager.
  unfoldable pub enroll :
      (key_pem : Text) → (answer : Option (Text × Option Text)) → Outcome StartError AgentState
  enroll key_pem answer = do
    resp ← ok_or answer enrolling
    id ← ok_or (uuids.parse_str resp.0) parsing
    cert ← ok_or resp.1 parsing
    ok (record { agent_id = id; cert_pem = cert; key_pem = key_pem })

  abbrev pub after_save :
      AgentState → Outcome StartError (Unit {0}) × DataDir → Outcome StartError AgentState × DataDir
  after_save s (ok u, d) = (ok s, d)
  after_save s (err e, d) = (err e, d)

  -- The part of `main` that comes to an identity: the one on disk, or a new one with the token.
  unfoldable pub identify :
      (readable : Bool)
      → (token : Option Text) → (enrolled : Text → Outcome StartError AgentState) → SaveEnd
      → DataDir
      → Outcome StartError AgentState × DataDir
  unfolding load save
  identify readable token enrolled end d = elim (load readable d) [
    | err e ↦ (err e, d)
    | ok (some existing) ↦ (ok existing, d)
    | ok none ↦ elim token [
      | none ↦ (err no_token, d)
      | some t ↦ elim (enrolled t) [
        | err e ↦ (err e, d)
        | ok fresh ↦ after_save fresh (save end fresh d)
      ]
    ]
  ]

  -- What was saved to the end is loaded again.
  pub save-load :
      (s : AgentState) (d : DataDir)
      → uuids.parse_str (trim (uuids.to_string s.agent_id)) ≡ some s.agent_id
      → load true (save saved s d).1 ≡ ok (some s)
  unfolding load save
  save-load s d round_trip = rw round_trip

  -- A first save that stops before its last file is written leaves nothing to load.
  pub save-torn :
      (readable : Bool) (s : AgentState) (d : DataDir)
      → d ≡ record { cert = none; key = none; id = none }
      → All
          (λ end. load readable (save end s d).1 ≡ ok none)
          (at_dir ∷ at_cert ∷ at_key ∷ at_id ∷ [])
  unfolding load save
  save-torn readable s d fresh = rw fresh (refl, (refl, (refl, (refl, tt))))
