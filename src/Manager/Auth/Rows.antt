-- ===== src/Manager/Auth/Rows.antt =====
-- auth.rs: what the queries do to the rows of `refresh_tokens`.
use scrooge_dlp.Common.{
  find-append_some, ℕ, String, true, false, none, some, List, [], ◌∷◌, ◌++◌, ◌≡◌, refl, arith,
  if◌then◌else◌, find, Bool-cases, inl, inr,
}
use scrooge_dlp.Manager.World.{RefreshRow}
use scrooge_dlp.Manager.Auth.{is_hash, in_force, revoke}

-- The hash stands in the table, and each row with it is revoked.
pub record IsRevoked (hash : String) (ts : List RefreshRow) : Type 0 where
  pub row : RefreshRow
  pub held : find (is_hash hash) ts ≡ some row
  pub unusable : (now : ℕ) → find (in_force hash now) ts ≡ none

module _ (hash : String) where
  find-revoke :
      (ts : List RefreshRow) (t : RefreshRow)
      → find (is_hash hash) ts ≡ some t
      → find (is_hash hash) (revoke hash ts) ≡ some (record t { revoked = true })
  find-revoke [] t h = absurd (cc h)
  find-revoke (x ∷ ts) t h = ground (arith, find-revoke ts t)

  in_force-revoke :
      (now : ℕ) (ts : List RefreshRow) → find (in_force hash now) (revoke hash ts) ≡ none
  in_force-revoke now [] = refl
  in_force-revoke now (x ∷ ts) = ground (arith, in_force-revoke now ts)

  -- A token in force has a row.
  pub held_of_in_force :
      (now : ℕ) (ts : List RefreshRow) (t : RefreshRow)
      → find (in_force hash now) ts ≡ some t
      → (r : RefreshRow) × (find (is_hash hash) ts ≡ some r)
  held_of_in_force now [] t h = absurd (cc h)
  held_of_in_force now (x ∷ ts) t h = elim (Bool-cases (is_hash hash x)) [
    | inl e ↦ (x, rw e)
    | inr e ↦ rw e (held_of_in_force now ts t (rw e at h))
  ]

  pub revoke-IsRevoked :
      (ts : List RefreshRow) (t : RefreshRow)
      → find (is_hash hash) ts ≡ some t
      → IsRevoked hash (revoke hash ts)
  revoke-IsRevoked ts t h = record {
    row = record t { revoked = true };
    held = find-revoke ts t h;
    unusable = λ now. in_force-revoke now ts;
  }

module _ (hash : String) (t : RefreshRow) where
  in_force-append :
      (now : ℕ) (ts : List RefreshRow)
      → is_hash hash t ≡ false
      → find (in_force hash now) ts ≡ none
      → find (in_force hash now) (ts ++ t ∷ []) ≡ none
  in_force-append now [] other h = simp (other)
  in_force-append now (x ∷ ts) other h = ground (arith, in_force-append now ts other)

  -- A row under another hash takes nothing back.
  pub append-IsRevoked :
      (ts : List RefreshRow)
      → is_hash hash t ≡ false
      → IsRevoked hash ts
      → IsRevoked hash (ts ++ t ∷ [])
  append-IsRevoked ts other v = record {
    row = v.row;
    held = find-append_some (is_hash hash) ts (t ∷ []) v.row v.held;
    unusable = λ now. in_force-append now ts other (v.unusable now);
  }

module _ (hash other : String) where
  find-revoke_any :
      (ts : List RefreshRow) (r : RefreshRow)
      → find (is_hash hash) ts ≡ some r
      → find (is_hash hash) (revoke other ts)
        ≡ some (if is_hash other r then record r { revoked = true } else r)
  find-revoke_any [] r h = absurd (cc h)
  find-revoke_any (x ∷ ts) r h = ground (arith, find-revoke_any ts r)

  in_force-revoke_any :
      (now : ℕ) (ts : List RefreshRow)
      → find (in_force hash now) ts ≡ none
      → find (in_force hash now) (revoke other ts) ≡ none
  in_force-revoke_any now [] h = refl
  in_force-revoke_any now (x ∷ ts) h = ground (arith, in_force-revoke_any now ts)

  pub revoke_any-IsRevoked :
      (ts : List RefreshRow) → IsRevoked hash ts → IsRevoked hash (revoke other ts)
  revoke_any-IsRevoked ts v = record {
    row = if is_hash other v.row then record v.row { revoked = true } else v.row;
    held = find-revoke_any ts v.row v.held;
    unusable = λ now. in_force-revoke_any now ts (v.unusable now);
  }
