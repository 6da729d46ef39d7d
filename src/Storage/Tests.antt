-- ===== src/Storage/Tests.antt =====
-- Tests of the storage of environments.
use aenvironment.Common.{◌&&◌, if◌then◌else◌, ◌≡◌, refl, ℕ, true, false, none, some, List, [], ◌∷◌}
use aenvironment.Common.Text.{Str, lit, str_eq}
use aenvironment.Common.Json.{Json, bool, text, object, end, field}
use aenvironment.Effect.{ok, err}
use aenvironment.Effect.Exceptions.{Exn}
use aenvironment.Config.{fresh}
use aenvironment.Hub.{Reply, responded}
use aenvironment.Storage.{
  StorageContext, StorageStatus, Files, upload, load_storage, local_storage, kind_of, zip,
  prefix_of,
}
use aenvironment.Storage.Remote.{RemoteWorld, Network, remote_upload}
use aenvironment.Storage.Pack.{archive_path}
use aenvironment.Storage.Archives.{remote_upload-archives, succeeds, is_made, is_removed, remaining}

-- The state lists the paths that were written; every path is that of a directory but for archives.
abbrev files : Files (List Str)
files = record {
  exists = λ p w. true;
  is_dir = λ p w. false;
  is_file = λ p w. true;
  make_dirs = λ p w. (ok tt, w);
  copy = λ p q w. (ok tt, q ∷ w);
  unlink = λ p w. (ok tt, w);
  remove_tree = λ p w. (ok tt, w);
  compress = λ f s n w. (ok n, w);
  extract = λ m s w. (ok [], w);
  is_folder = λ p w. false;
  move = λ p q w. (ok tt, w);
}

abbrev shown : Json → Str
shown j = elim j [ text s ↦ s | other ↦ [] ]

abbrev context : StorageContext
context = record {
  src_url = lit "/tmp/swe.tar.gz";
  infos = (lit "name", lit "swe") ∷ (lit "version", lit "1.0") ∷ [];
  dest_url = none;
}

abbrev status : StorageStatus
status = record { state = true; dest_url = lit "~/.aenv/envs/swe_1.0.zip" }

-- The default prefix begins with a tilde, which nothing expands; a compressed tar file is put under
-- a name that ends in ".zip".
test_upload :
    upload files shown (lit "zip") fresh context []
    ≡ (ok status, lit "~/.aenv/envs/swe_1.0.zip" ∷ [])
unfolding upload str_eq
test_upload = refl

test_load : load_storage fresh ≡ ok (local_storage (lit "zip"))
unfolding load_storage str_eq
test_load = refl

test_kind : kind_of (lit "/tmp/a.b.zip") ≡ some zip
unfolding kind_of str_eq
test_kind = refl

abbrev with_dest : StorageContext
with_dest = record context { dest_url = some (lit "/out") }

abbrev signed : Reply
signed = responded record {
  status_code = 200;
  body = [];
  json = some (
      object
        (field (lit "success") (bool true) (field (lit "data") (text (lit "https://oss")) end)));
}

-- The store refuses every archive, and the files of one directory cannot be read.
abbrev network : Network ℕ
network = record {
  send = λ client request n. (signed, n);
  upload_archive = λ url archive n. (err (Exn.http_status_error 403), n);
  packing = record {
    is_there = λ src. true;
    temp_dir = lit "/tmp";
    time = 1700000000;
    open_tar = λ archive. ok tt;
    add_files = λ src archive. if str_eq src (lit "/locked") then err Exn.other_error else ok tt;
  };
  refuses = λ archive. false;
}

abbrev world : RemoteWorld ℕ
world = record {
  hub = record { instance = none; lock = false; manager = fresh; hub_backend = none; next_id = 0 };
  server = 0;
  archives = lit "other" ∷ [];
}

abbrev locked : StorageContext
locked = record context { src_url = lit "/locked" }

remote_upload-archives_example : (remote_upload network shown locked world).1.archives ≡ (
    let archive = archive_path network.packing (lit "/locked") in
    if succeeds (prefix_of (text []) world.hub.manager.config.storage_config)
      && is_made network shown (lit "/locked") archive
    then remaining network shown
        (is_removed network shown (lit "/locked") archive)
        archive
        (lit "other" ∷ [])
    else lit "other" ∷ [])
remote_upload-archives_example = remote_upload-archives network shown locked world

-- The archive of a directory that cannot be read whole stays behind; that of an upload that the store
-- refuses does not.
test_locked :
    (remote_upload network shown locked world).1.archives
    ≡ lit "/tmp/locked_1700000000.tar.gz" ∷ lit "other" ∷ []
unfolding remote_upload prefix_of archive_path str_eq
test_locked = refl

test_refused : (remote_upload network shown context world).1.archives ≡ lit "other" ∷ []
unfolding remote_upload prefix_of archive_path str_eq
test_refused = refl
