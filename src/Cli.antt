-- ===== src/Cli.antt =====
-- crates/scrooge-cli/src/main.rs: the commands of `scroogectl`. The machine is the directory of the
-- certificates and the database; the file of the configuration, the pool and the migrations are
-- parameters.
pub mod Dir
pub mod Init
pub mod Admin
use scrooge_dlp.Common.{
  String, Bool, true, false, not, Option, none, some, List, [], ◌∷◌, ◌≡◌, refl, Outcome, ok, err,
  map_err, err_if, ◌>>=◌, ok_or, ◌⊎◌, inl, inr,
}
use scrooge_dlp.Common.Int.{ℤ}
use scrooge_dlp.Common.Text.{Text}
use scrooge_dlp.Config.{ConfigError}
use scrooge_dlp.Config.Documents.{ManagerDocument, load}
use scrooge_dlp.Manager.World.{World, Faults}
use scrooge_dlp.Certificates.{Rcgen}
use scrooge_dlp.Cli.Dir.{CertDir, CliError, config, connecting, migrating}
use scrooge_dlp.Cli.Init.{InitEnd, InitCa, init_ca}
use scrooge_dlp.Cli.Admin.{AdminState, bootstrap_admin, gen_token}

pub data Command (r : Rcgen) : Type 0 where
  generate_ca : InitCa r → Command r
  migrate : Command r
  create_admin : (username password : String) → Command r
  create_token : (description : Option Text) → (max_uses : Option ℤ) → (valid_days : ℤ) → Command r

-- What a command says at its end.
pub data Done : Type 0 where
  made : InitEnd → Done
  migrated : Done
  account : (is_created : Bool) → Done
  token : String → Done

-- What the commands find: the text of the configuration and the reader of YAML, whether PostgreSQL
-- takes a connection at an address, `sqlx::migrate!`, and what the commands on accounts take.
pub record Host : Type 0 where
  pub contents : Option Text
  pub from_str : Text → Option ManagerDocument
  pub connects : Text → Bool
  pub migrations : World → Option World
  pub admin : AdminState

pub record Machine : Type 0 where
  pub dir : CertDir
  pub world : World

module _ (host : Host) where
  -- `open_pool`
  abbrev pub open_pool : Outcome CliError (Unit {0})
  open_pool = do
    c ← map_err (λ e. config) (load host.contents host.from_str)
    err_if (not (host.connects c.database.url)) connecting

  -- A command on the database runs once the pool is open.
  abbrev pub with_pool :
      (World → Outcome CliError Done × World) → Machine → Outcome CliError Done × Machine
  with_pool run m = elim open_pool [
    | err e ↦ (err e, m)
    | ok u ↦ (let (r, w) = run m.world in (r, record m { world = w }))
  ]

  abbrev pub run_migrations : World → Outcome CliError Done × World
  run_migrations w = elim (host.migrations w) [
    | none ↦ (err migrating, w)
    | some w' ↦ (ok migrated, w')
  ]

  abbrev pub say : {A : Type 0} → (A → Done) → Outcome CliError A → Outcome CliError Done
  say f (ok a) = ok (f a)
  say f (err e) = err e

  module _ (r : Rcgen) (failures : List Bool) (fs : Faults) where
    -- `main`, from the command on. The failures are those of the file system, and the faults those of
    -- the queries.
    unfoldable pub main : Command r → Machine → Outcome CliError Done × Machine
    main (generate_ca args) m =
        let (end, rest, d) = init_ca r args failures m.dir in (say made end, record m { dir = d })
    main migrate m = with_pool run_migrations m
    main (create_admin username password) m =
        with_pool
          (λ w.
            let (o, rest, w') = bootstrap_admin host.admin username password fs w in
            (say account o, w'))
          m
    main (create_token description max_uses valid_days) m =
        with_pool
          (λ w.
            let (o, rest, w') = gen_token host.admin description max_uses valid_days fs w in
            (say token o, w'))
          m

    -- Where the configuration is not accepted, no command changes the database, and every command but
    -- `init-ca` ends in an error and changes nothing.
    pub main-refused :
        (e : ConfigError) (c : Command r) (m : Machine)
        → load host.contents host.from_str ≡ err e
        → ((main c m).1.world ≡ m.world)
          × (((main c m) ≡ (err config, m)) ⊎ ((args : InitCa r) × (c ≡ generate_ca args)))
    unfolding main
    main-refused e (generate_ca args) m h = (refl, inr (args, refl))
    main-refused e migrate m h = (rw (main, with_pool, h), inl (rw (main, with_pool, h)))
    main-refused e (create_admin username password) m h =
        (rw (main, with_pool, h), inl (rw (main, with_pool, h)))
    main-refused e (create_token description max_uses valid_days) m h =
        (rw (main, with_pool, h), inl (rw (main, with_pool, h)))
