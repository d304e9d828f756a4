-- ===== src/Agent/Sensors/Filemon/Limits.antt =====
-- filemon.rs: what is read of a file, and what is made of it.
use scrooge_dlp.Common.{String, true, false, some, List, [], ◌≡◌, arith, ◌<◌, ltb, map}
use scrooge_dlp.Common.Text.{Text}
use scrooge_dlp.Classifier.Defs.{Match}
use scrooge_dlp.Classifier.Registry.{ClassifierRegistry, scan_all}
use scrooge_dlp.Agent.Sensors.{Bytes, Host}
use scrooge_dlp.Agent.Sensors.Filemon.{
  Metadata, FileSystem, content_scan_max_bytes, to_proto, inspect_file,
}

module _ (host : Host) (classifiers : ClassifierRegistry) (fs : FileSystem) (path : String)
    (meta : Metadata) (there : fs.metadata path ≡ some meta) where
  -- The content of a file above the limit is not read: only its size is known.
  pub inspect_file-large :
      content_scan_max_bytes < meta.len
      → inspect_file host classifiers fs path ≡ some (meta.len, [], [])
  unfolding inspect_file
  inspect_file-large large = rw (inspect_file, there) (ground (arith, large))

  -- Of a text up to the limit all matches are known.
  pub inspect_file-text :
      (bytes : Bytes) (text : Text) (ms : List Match)
      → meta.is_file ≡ true
      → ltb content_scan_max_bytes meta.len ≡ false
      → fs.read path ≡ some bytes
      → fs.from_utf8 bytes ≡ some text
      → scan_all classifiers text ≡ some ms
      → inspect_file host classifiers fs path ≡ some (meta.len, host.sha256 bytes, map to_proto ms)
  unfolding inspect_file
  inspect_file-text bytes text ms is_file small read utf8 scan =
      rw (inspect_file, there, is_file, small, read, utf8, scan)
