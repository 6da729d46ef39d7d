-- ===== src/Storage/Archives.antt =====
-- Which temporary archives an upload to the hub leaves behind.
use aenvironment.Common.{
  ◌≡◌, refl, ap, ◌∙◌, Bool, true, false, not, ◌&&◌, List, [], ◌∷◌, arith, if◌then◌else◌, Bool-cases,
  inl, inr,
}
use aenvironment.Common.Text.{Str, str_eq_refl}
use aenvironment.Common.Dict.{Dict}
use aenvironment.Common.Json.{Json, text}
use aenvironment.Effect.{Result, ok, err, pure, ◌>>=◌, ◌>>◌, follow, resume, finally}
use aenvironment.Effect.Keeps.{Keeps, IsPreorder, Keeps-bind}
use aenvironment.Storage.{StorageContext, prefix_of}
use aenvironment.Storage.Pack.{without, made, archive_path, write_tar, packed, pack_directory}
use aenvironment.Storage.Remote.{
  RemoteWorld, Network, entered, leave, shared_client, sign, put_archive, send_archive,
  with_archive, upload_under, remote_upload,
}

module _ {S : Type 0} where
  -- The archives are the same.
  abbrev Same : RemoteWorld S → RemoteWorld S → Type 0
  Same v w = w.archives ≡ v.archives

  Same-order : IsPreorder Same
  Same-order = record { same = λ s. refl; chain = λ s t u p q. q ∙ p }

without_twice :
    (archive : Str) (archives : List Str)
    → without archive (without archive archives) ≡ without archive archives
without_twice archive [] = refl
without_twice archive (a ∷ archives) = ground (arith, without_twice archive archives)

without-made :
    (archive : Str) (archives : List Str)
    → without archive (made archive archives) ≡ without archive archives
without-made archive archives = rw (str_eq_refl archive) (without_twice archive archives)

abbrev pub succeeds {ℓ} : {A : Type ℓ} → Result A → Bool
succeeds (ok a) = true
succeeds (err e) = false

module _ {S : Type 0} (network : Network S) (shown : Json → Str) where
  send-Same :
      (infos : Dict Str) (archive : Str) → Keeps Same (send_archive network shown infos archive)
  unfolding send_archive shared_client sign put_archive
  send-Same infos archive =
      Keeps-bind Same-order (shared_client network shown >>= sign network shown infos)
        (put_archive network shown archive)
        (Keeps-bind Same-order (shared_client network shown) (sign network shown infos)
          (record { at = λ w. refl }) (λ c. record { at = λ w. refl }))
        (λ j. record { at = λ w. refl })

  left :
      (archive : Str) (archives : List Str) (r : Result (Unit {0})) (w : RemoteWorld S)
      → w.archives ≡ made archive archives
      → (resume r (leave network shown archive w)).1.archives
        ≡ (if network.refuses archive then made archive archives else without archive archives)
  unfolding leave
  left archive archives (ok a) w e = rw e (ground (arith, without-made archive archives))
  left archive archives (err x) w e = rw e (ground (arith, without-made archive archives))

  -- whether the archive in a path is removed, when the file has been made
  abbrev pub is_removed : Str → Str → Bool
  is_removed source_dir archive =
      succeeds (network.packing.add_files source_dir archive) && not (network.refuses archive)

  abbrev pub is_made : Str → Str → Bool
  is_made source_dir archive =
      network.packing.is_there source_dir && succeeds (network.packing.open_tar archive)

  after_pure :
      {A B : Type 0} (r : Result A) (b : B) (u : RemoteWorld S) → (follow r (λ _. pure b) u).1 ≡ u
  unfolding pure
  after_pure (ok a) b u = refl
  after_pure (err e) b u = refl

  -- the archives that are left when one has been made
  abbrev pub remaining : Bool → Str → List Str → List Str
  remaining removed archive archives =
      if removed then without archive archives else made archive archives

  with_archive-remaining :
      (infos : Dict Str) (archive : Str) (archives : List Str) (w : RemoteWorld S)
      → w.archives ≡ made archive archives
      → (with_archive network shown infos archive w).1.archives
        ≡ (if network.refuses archive then made archive archives else without archive archives)
  unfolding with_archive finally
  with_archive-remaining infos archive archives w e =
      let (r, u) = send_archive network shown infos archive w in
      left archive archives r u ((send-Same infos archive).at w ∙ e)

  added_left :
      (infos : Dict Str) (archive : Str) (r : Result (Unit {0})) (w : RemoteWorld S)
      → (follow
          (packed network.packing archive r)
          (with_archive network shown infos)
          (record w { archives = made archive w.archives })).1.archives
        ≡ remaining (succeeds r && not (network.refuses archive)) archive w.archives
  added_left infos archive (ok a) w =
      with_archive-remaining infos archive w.archives _ refl ∙ (ground arith)
  added_left infos archive (err e) w = refl

  written_left :
      (infos : Dict Str) (source_dir archive : Str) (r : Result (Unit {0})) (w : RemoteWorld S)
      → (let (o, archives) = write_tar network.packing source_dir archive r w.archives in
          (follow o
            (with_archive network shown infos)
            (record w { archives = archives })).1.archives)
        ≡ (if succeeds r
            then remaining (is_removed source_dir archive) archive w.archives
            else w.archives)
  written_left infos source_dir archive (ok a) w =
      added_left infos archive (network.packing.add_files source_dir archive) w
  written_left infos source_dir archive (err e) w = refl

  entered_left :
      (infos : Dict Str) (source_dir : Str) (w : RemoteWorld S)
      → ((entered network shown source_dir >>= with_archive network shown infos) w).1.archives ≡ (
          let archive = archive_path network.packing source_dir in
          if is_made source_dir archive
          then remaining (is_removed source_dir archive) archive w.archives
          else w.archives)
  unfolding ◌>>=◌ entered pack_directory
  entered_left infos source_dir w =
      let archive : Str = archive_path network.packing source_dir in
      elim (Bool-cases (network.packing.is_there source_dir)) [
        | inl e ↦ rw e (written_left infos source_dir archive (network.packing.open_tar archive) w)
        | inr e ↦ rw e refl
      ]

  under_left :
      (context : StorageContext) (o : Result Json) (w : RemoteWorld S)
      → (upload_under network shown context o w).1.archives ≡ (
          let archive = archive_path network.packing context.src_url in
          if succeeds o && is_made context.src_url archive
          then remaining (is_removed context.src_url archive) archive w.archives
          else w.archives)
  unfolding upload_under ◌>>=◌ ◌>>◌
  under_left context (err e) w = refl
  under_left context (ok prefix) w =
      ap (λ (u : RemoteWorld S). u.archives) (after_pure _ _ _)
      ∙ entered_left context.infos context.src_url w

  -- An upload to the hub, whatever it returns or raises, changes the archives on the disk only where
  -- the prefix of the storage can be read, the directory exists and its archive can be opened. Then
  -- the archive is gone in the end if the files could be added to it and the system lets it be
  -- removed, and is left behind, perhaps with a part of the files, if not.
  pub remote_upload-archives :
      (context : StorageContext) (w : RemoteWorld S)
      → (remote_upload network shown context w).1.archives ≡ (
          let archive = archive_path network.packing context.src_url in
          if succeeds (prefix_of (text []) w.hub.manager.config.storage_config)
            && is_made context.src_url archive
          then remaining (is_removed context.src_url archive) archive w.archives
          else w.archives)
  unfolding remote_upload
  remote_upload-archives context w = under_left context _ w
