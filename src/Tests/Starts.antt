-- ===== src/Tests/Starts.antt =====
-- The manager starts on the directory that `init-ca` filled.
use scrooge_dlp.Common.{true, none, some, [], ◌≡◌, refl, ok, if◌then◌else◌}
use scrooge_dlp.Common.Text.{codes}
use scrooge_dlp.Config.Documents.{manager_config, load}
use scrooge_dlp.Cli.Init.Files.{empty}
use scrooge_dlp.Manager.Install.Targets.{same_text}
use scrooge_dlp.Manager.Startup.{Surroundings, Servers, start_up}
use scrooge_dlp.Manager.Startup.Filled.{StartsWith, start_up-init_ca}
use scrooge_dlp.Tests.Certs.{crate, reader, signs}
use scrooge_dlp.Tests.Commands.{args, filled, init_ca-fills_here, none_yet}
use scrooge_dlp.Tests.Settings.{document, reader as documents}

abbrev at : Surroundings
at = record {
  contents = some (codes "server:");
  from_str = documents;
  read = λ path.
      if same_text path (codes "ca.crt")
      then some "Root"
      else if same_text path (codes "ca.key")
      then some "|||"
      else if same_text path (codes "server.crt")
      then some "||"
      else if same_text path (codes "server.key")
      then some "||||"
      else none;
  connects = λ url. true;
  migrate = some;
  is_socket_addr = λ t. true;
}

config_loads : load at.contents at.from_str ≡ ok (manager_config document)
unfolding load
config_loads = refl

start_up-init_ca_example :
    (s : Servers crate at 5) × (start_up crate at 5 none_yet ≡ (ok s, none_yet))
    × StartsWith reader args at 5 filled s
start_up-init_ca_example =
    start_up-init_ca reader args at 5 signs (manager_config document) config_loads refl refl refl []
      [] empty filled none_yet none_yet init_ca-fills_here
      (record { ca_pem = refl; ca_key = refl; server_pem = refl; server_key = refl }) refl
