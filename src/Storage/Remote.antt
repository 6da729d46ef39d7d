-- ===== src/Storage/Remote.antt =====
-- The storage of environments in the hub, `AEnvHubStorage` of
-- aenv/src/cli/extends/storage/storage_manager.py, with `TempArchive` of
-- aenv/src/cli/utils/archive_tool.py, over the shared client of the hub.
use aenvironment.Common.{Bool, true, Option, none, List, [], ◌++◌, if◌then◌else◌}
use aenvironment.Common.Text.{Str, lit, str_eq}
use aenvironment.Common.Dict.{Dict}
use aenvironment.Common.Json.{Json, text}
use aenvironment.Effect.{Result, ok, err, Eff, pure, ◌>>=◌, ◌>>◌, finally}
use aenvironment.Hub.{HubRequest, Reply, apply_sign_url}
use aenvironment.Hub.Singleton.{Client, Hub, load_client}
use aenvironment.Storage.Pack.{Packing, without, pack_directory}
use aenvironment.Storage.{StorageContext, StorageStatus, prefix_of, info}

-- The shared client and its class, the server and the store that a signed URL is an address of, and
-- the temporary archives that are on the disk.
pub record RemoteWorld (S : Type 0) : Type 0 where
  pub hub : Hub
  pub server : S
  pub archives : List Str

-- What a client's session does with a request, `requests.put` of an archive to an address with
-- `raise_for_status`, what packing asks of the system, and whether the system refuses to remove an
-- archive.
pub record Network (S : Type 0) : Type 0 where
  pub send : Client → HubRequest → S → Reply × S
  pub upload_archive : Json → Str → S → Result (Unit {0}) × S
  pub packing : Packing
  pub refuses : Str → Bool

module _ {S : Type 0} (network : Network S) (shown : Json → Str) where
  -- `TempArchive.__enter__`
  unfoldable pub entered : Str → Eff (RemoteWorld S) Str
  unfolding pack_directory
  entered source_dir w =
      let (r, archives) = pack_directory network.packing source_dir w.archives in
      (r, record w { archives = archives })

  -- `TempArchive.__exit__`; a removal that is refused is only logged.
  unfoldable pub leave : Str → Eff (RemoteWorld S) (Unit {0})
  unfolding str_eq
  leave archive w = (
    ok tt,
    record w {
      archives = if network.refuses archive then w.archives else without archive w.archives;
    },
  )

  unfoldable pub shared_client : Eff (RemoteWorld S) Client
  unfolding load_client
  shared_client w = let (r, hub) = load_client none none w.hub in (r, record w { hub = hub })

  unfoldable pub sign : Dict Str → Client → Eff (RemoteWorld S) Json
  unfolding apply_sign_url info
  sign infos client w =
      let (r, server) =
        apply_sign_url (network.send client) (info (lit "name") infos) (info (lit "version") infos)
          none w.server in
      (r, record w { server = server })

  unfoldable pub put_archive : Str → Json → Eff (RemoteWorld S) (Unit {0})
  put_archive archive oss_url w =
      let (r, server) = network.upload_archive oss_url archive w.server in
      (r, record w { server = server })

  -- the body of the `with` statement
  unfoldable pub send_archive : Dict Str → Str → Eff (RemoteWorld S) (Unit {0})
  unfolding ◌>>=◌ shared_client sign put_archive
  send_archive infos archive = (shared_client >>= sign infos) >>= put_archive archive

  unfoldable pub with_archive : Dict Str → Str → Eff (RemoteWorld S) (Unit {0})
  unfolding finally send_archive leave
  with_archive infos archive = finally (send_archive infos archive) (leave archive)

  unfoldable status_at : Str → Dict Str → StorageStatus
  unfolding info
  status_at prefix infos = record {
    state = true;
    dest_url =
        prefix
        ++ lit "/"
        ++ info (lit "name") infos
        ++ lit "-"
        ++ info (lit "version") infos
        ++ lit ".tar";
  }

  unfoldable pub upload_under : StorageContext → Result Json → Eff (RemoteWorld S) StorageStatus
  unfolding ◌>>=◌ ◌>>◌ pure entered with_archive status_at
  upload_under context (err e) w = (err e, w)
  upload_under context (ok prefix) w =
      ((entered context.src_url >>= with_archive context.infos)
          >> pure (status_at (shown prefix) context.infos))
        w

  unfoldable pub remote_upload : StorageContext → Eff (RemoteWorld S) StorageStatus
  unfolding upload_under prefix_of
  remote_upload context w =
      upload_under context (prefix_of (text []) w.hub.manager.config.storage_config) w

-- `AEnvHubStorage.download` does nothing and returns `None`.
abbrev pub remote_download : StorageContext → Option Bool
remote_download context = none
