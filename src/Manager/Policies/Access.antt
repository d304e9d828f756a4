-- ===== src/Manager/Policies/Access.antt =====
-- policies.rs: who may call the handlers.
use scrooge_dlp.Common.{String, false, ◌≡◌, ◌≢◌, arith, err, str_eq, eq_iff}
use scrooge_dlp.Common.Int.{ℤ}
use scrooge_dlp.Manager.World.{World, Faults, pure, lift, select, query, execute, modify, ◌>>=◌}
use scrooge_dlp.Manager.Api.{forbidden, Claims, AppState}
use scrooge_dlp.Manager.Policies.{PolicyRequest, create, update, delete_, get}
use scrooge_dlp.Manager.Policies.Versions.{history, rollback}
use scrooge_dlp.Manager.Policies.Listing.{list, validate}

module _ (app : AppState) (claims : Claims) (fs : Faults) (w : World)
    (other : claims.role ≢ "admin") where
  not_admin : str_eq claims.role "admin" ≡ false
  not_admin = ground (arith, eq_iff claims.role "admin")

  -- To a caller of another role than `admin` every handler of the policies answers `forbidden`, asks
  -- the database nothing and changes nothing, whatever the request.
  pub handlers_forbidden :
      (name reason : String) (version : ℤ) (req : PolicyRequest)
      → (list app claims fs w ≡ (err forbidden, fs, w))
        × (get app claims name fs w ≡ (err forbidden, fs, w))
        × (create app claims req fs w ≡ (err forbidden, fs, w))
        × (update app claims name req fs w ≡ (err forbidden, fs, w))
        × (delete_ app claims name fs w ≡ (err forbidden, fs, w))
        × (history app claims name fs w ≡ (err forbidden, fs, w))
        × (rollback app claims name version reason fs w ≡ (err forbidden, fs, w))
        × (validate app claims req.content_yaml fs w ≡ (err forbidden, fs, w))
  unfolding list get create update delete_ history rollback validate pure lift select query execute
      modify ◌>>=◌
  handlers_forbidden name reason version req = (
    rw not_admin,
    rw not_admin,
    rw not_admin,
    rw not_admin,
    rw not_admin,
    rw not_admin,
    rw not_admin,
    rw not_admin,
  )
