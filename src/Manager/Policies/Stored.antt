-- ===== src/Manager/Policies/Stored.antt =====
-- policies.rs: what holds of the rows of the policies and of their history whatever is asked, the
-- name as the key and each document compiled into its row.
pub mod Rows
pub mod Requests
pub mod Visits
use scrooge_dlp.Common.{
  ℕ, String, Bool, true, false, not, Option, none, some, List, [], ◌∷◌, ◌++◌, ◌≡◌, refl, sym, ap,
  subst, ◌∙◌, arith, Outcome, ok, err, if◌then◌else◌, str_eq, eq_iff, find, filter, All, All-append,
  All-map, All-filter_kept, find-append_some, find-append_last,
}
use scrooge_dlp.Manager.World.{World, PolicyRow, HistoryRow}
use scrooge_dlp.Manager.Api.{ApiError}
use scrooge_dlp.Manager.Policies.{
  Parsed, is_named, update_where, insert_policy, drop_policy, change_row, is_some, find_policy,
}
use scrooge_dlp.Manager.Push.Laws.{KeyedByName}

module _ (parse : String → Outcome ApiError Parsed) where
  -- The row is what its own document compiles to.
  pub record IsCompiled (r : PolicyRow) : Type 0 where
    pub parsed : Parsed
    pub parses : parse r.content_yaml ≡ ok parsed
    pub named : parsed.0.metadata.name ≡ r.name
    pub priority : parsed.0.priority ≡ r.priority
    pub payload : parsed.1.payload ≡ r.content_compiled
    pub hash : parsed.1.hash ≡ r.content_hash
    pub targets : parsed.2 ≡ r.targets

  -- The entry holds a document of its policy that compiles.
  pub record IsDocument (h : HistoryRow) : Type 0 where
    pub document : Parsed
    pub parses : parse h.content_yaml ≡ ok document
    pub named : document.0.metadata.name ≡ h.policy_name

  -- `name` is the key of `policies`, every row there is compiled from its document, and every entry
  -- of the history can be compiled again.
  pub record Stored (w : World) : Type 0 where
    pub keyed : KeyedByName w.policies
    pub compiled : All IsCompiled w.policies
    pub documents : All IsDocument w.history

module _ (name : String) (f : PolicyRow → PolicyRow)
    (keeps : (r : PolicyRow) → (f r).name ≡ r.name) where
  abbrev changed : PolicyRow → PolicyRow
  changed r = if is_named name r then f r else r

  find-update_any :
      (other : String) (rs : List PolicyRow) (r : PolicyRow)
      → find (is_named other) rs ≡ some r
      → find (is_named other) (update_where (is_named name) f rs) ≡ some (changed r)
  find-update_any other [] r h = absurd (cc h)
  find-update_any other (x ∷ rs) r h = ground (arith, keeps x, find-update_any other rs r)

  changed-name : (r : PolicyRow) → (changed r).name ≡ r.name
  changed-name r = ground (arith, keeps r)

  All-update_where :
      (P Q : PolicyRow → Type 0) (rs : List PolicyRow)
      → ((r : PolicyRow) → P r → Q (changed r))
      → All P rs
      → All Q (update_where (is_named name) f rs)
  All-update_where P Q [] h a = tt
  All-update_where P Q (x ∷ rs) h a = (h x a.0, All-update_where P Q rs h a.1)

  pub update_where-KeyedByName :
      (rs : List PolicyRow) → KeyedByName rs → KeyedByName (update_where (is_named name) f rs)
  update_where-KeyedByName rs k =
      All-update_where (λ p. find (is_named p.name) rs ≡ some p) _ rs
        (λ r h.
          subst (λ n. find (is_named n) (update_where (is_named name) f rs) ≡ some (changed r))
            (sym (changed-name r)) (find-update_any r.name rs r h))
        k

pub append-KeyedByName :
    (rs : List PolicyRow) (r : PolicyRow)
    → find (is_named r.name) rs ≡ none
    → KeyedByName rs
    → KeyedByName (rs ++ r ∷ [])
append-KeyedByName rs r free k =
    All-append _ rs (r ∷ [])
      (All-map _ _ (λ p h. find-append_some (is_named p.name) rs (r ∷ []) p h) rs k)
      (find-append_last (is_named r.name) rs r free ((eq_iff r.name r.name).1 refl), tt)

find-filter_other :
    (name other : String) (rs : List PolicyRow)
    → str_eq other name ≡ false
    → find (is_named other) (filter (λ r. not (is_named name r)) rs) ≡ find (is_named other) rs
find-filter_other name other [] h = refl
find-filter_other name other (x ∷ rs) h = ground (
  arith,
  eq_iff x.name name,
  eq_iff x.name other,
  eq_iff other name,
  find-filter_other name other rs h,
)

pub filter-KeyedByName :
    (name : String) (rs : List PolicyRow)
    → KeyedByName rs
    → KeyedByName (filter (λ r. not (is_named name r)) rs)
filter-KeyedByName name rs k =
    All-filter_kept _ _ (λ r. not (is_named name r)) rs
      (λ r e h. find-filter_other name r.name rs (ground arith) ∙ h) k
