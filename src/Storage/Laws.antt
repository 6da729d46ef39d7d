-- ===== src/Storage/Laws.antt =====
-- What the storage on the local disk does on every path: the status of an upload, and the archives
-- that a download does not take apart.
use aenvironment.Common.{
  ◌≡◌, refl, ap, sym, ◌∙◌, ℕ, Bool, true, false, none, some, [], ◌∷◌, ◌++◌, if◌then◌else◌, arith,
  Bool-cases, inl, inr,
}
use aenvironment.Common.Text.{Str, lit, str_eq}
use aenvironment.Common.Json.{Json, text}
use aenvironment.Effect.{Result, ok, err, Eff, pure, raise, ◌>>=◌, ◌>>◌, follow}
use aenvironment.Effect.Exceptions.{Exn}
use aenvironment.Config.{Manager}
use aenvironment.Storage.Paths.{path_name, last_stop, name_suffix, suffix, parent}
use aenvironment.Storage.{
  StorageContext, StorageStatus, Files, prefix_of, full_path, kind_of, upload, upload_to,
  upload_within, stored_as, upload_directory_compressed, copy_direct, download, download_to, inside,
  is_format, archive_filename,
}

-- A method that returns at all returns True.
abbrev Affirms : Result Bool → Type 0
Affirms (ok b) = b ≡ true
Affirms (err e) = Unit

module _ {W A : Type 0} where
  follow-Affirms :
      (r : Result A) (f : A → Eff W Bool) (w : W)
      → ((a : A) (v : W) → Affirms (f a v).0)
      → Affirms (follow r f w).0
  follow-Affirms (ok a) f w h = h a w
  follow-Affirms (err e) f w h = tt

  bind-Affirms :
      (m : Eff W A) (f : A → Eff W Bool) (w : W)
      → ((a : A) (v : W) → Affirms (f a v).0)
      → Affirms ((m >>= f) w).0
  unfolding ◌>>=◌
  bind-Affirms m f w h = follow-Affirms (m w).0 f (m w).1 h

if-Affirms :
    {W : Type 0} (b : Bool) (m n : Eff W Bool) (w : W)
    → Affirms (m w).0
    → Affirms (n w).0
    → Affirms ((if b then m else n) w).0
if-Affirms true m n w h k = h
if-Affirms false m n w h k = k

pair-Affirms :
    {W : Type 0} (b : Bool) (p q : Result Bool × W)
    → Affirms p.0
    → Affirms q.0
    → Affirms (if b then p else q).0
pair-Affirms true p q h k = h
pair-Affirms false p q h k = k

last_stop_gz : (stem : Str) → last_stop (stem ++ lit ".tar.gz") ≡ some (lit ".gz")
unfolding last_stop
last_stop_gz [] = refl
last_stop_gz (c ∷ stem) = rw (last_stop_gz stem) refl

kind_of_gz :
    (src : Str) (c : ℕ) (stem : Str)
    → path_name src ≡ (c ∷ stem) ++ lit ".tar.gz"
    → kind_of src ≡ none
unfolding kind_of suffix name_suffix str_eq
kind_of_gz src c stem h = rw (h, last_stop_gz stem) refl

module _ {W : Type 0} (files : Files W) (shown : Json → Str) where
  copy-Affirms : (src dest : Str) (w : W) → Affirms (copy_direct files shown src dest w).0
  unfolding copy_direct ◌>>◌ pure
  copy-Affirms src dest w =
      bind-Affirms (files.copy src (inside files shown dest (path_name src) w)) (λ _. pure true) w
        (λ a v. refl)

  compressed-Affirms :
      (format src dest : Str) (w : W)
      → Affirms (upload_directory_compressed files shown format src dest w).0
  unfolding upload_directory_compressed ◌>>◌ pure raise
  compressed-Affirms format src dest w =
      if-Affirms (is_format format)
        (files.compress format src (archive_filename format src) >>= λ archive w.
          (files.copy archive (inside files shown dest (archive_filename format src) w)
              >> pure true)
            w)
        (raise Exn.value_error) w
        (bind-Affirms (files.compress format src (archive_filename format src)) _ w (λ archive v.
          bind-Affirms
            (files.copy archive (inside files shown dest (archive_filename format src) v))
            (λ _. pure true) v (λ a u. refl)))
        tt

  -- A download of an existing file whose name ends in ".tar.gz" copies it and does not unpack it.
  download-gz :
      (context : StorageContext) (dest : Str) (c : ℕ) (stem : Str) (w : W)
      → context.dest_url ≡ some dest
      → path_name context.src_url ≡ (c ∷ stem) ++ lit ".tar.gz"
      → files.exists context.src_url w ≡ true
      → download files shown context w
        ≡ (files.make_dirs dest >> copy_direct files shown context.src_url dest) w
  unfolding download download_to
  download-gz context dest c stem w d e h = rw (d, h, kind_of_gz context.src_url c stem e) refl

  -- A download of a context that has no destination, as no StorageContext has, raises an
  -- AttributeError and changes nothing.
  download-without :
      (context : StorageContext) (w : W)
      → context.dest_url ≡ none
      → download files shown context w ≡ (err Exn.attribute_error, w)
  unfolding download
  download-without context w h = rw h refl

  -- what `upload_to` gives where it returns
  abbrev Stored : Str → Result StorageStatus → Type 0
  Stored path (ok s) = (s.state ≡ true) × (s.dest_url ≡ path)
  Stored path (err e) = Unit

  stored_as-Stored :
      (path : Str) (r : Result Bool × W)
      → Affirms r.0
      → Stored path (stored_as files shown path r).0
  stored_as-Stored path (ok b, w) h = (h, refl)
  stored_as-Stored path (err e, w) h = tt

  upload_to-Stored :
      (format src path : Str) (w : W) → Stored path (upload_to files shown format src path w).0
  unfolding upload_to ◌>>◌
  upload_to-Stored format src path w = elim (Bool-cases (files.exists src w)) [
    | inl e ↦ rw e (
        stored_as-Stored path _ (
          bind-Affirms (files.make_dirs (parent path)) _ w (λ a v.
            pair-Affirms (files.is_dir src v)
              (upload_directory_compressed files shown format src path v)
              (copy_direct files shown src path v) (compressed-Affirms format src path v)
              (copy-Affirms src path v))))
    | inr e ↦ rw e tt
  ]

  stored_status :
      (path : Str) (r : Result StorageStatus) (s : StorageStatus)
      → r ≡ ok s
      → Stored path r
      → (s.state ≡ true) × (s.dest_url ≡ path)
  stored_status path (ok t) s e h = (ground (arith, e, h.0), ground (arith, e, h.1))
  stored_status path (err x) s e h = absurd (cc)

  -- Where an upload returns and the configuration gives a prefix, the status says that it succeeded,
  -- and where: under the prefix, in a file named for the environment and ending in ".zip", whatever
  -- the format of the archives is and whether or not the source is a directory.
  upload-stores :
      (format : Str) (manager : Manager) (context : StorageContext) (prefix : Json) (w : W)
      (s : StorageStatus)
      → prefix_of (text (lit "/home/aenvs")) manager.config.storage_config ≡ ok prefix
      → (upload files shown format manager context w).0 ≡ ok s
      → (s.state ≡ true) × (s.dest_url ≡ full_path (shown prefix) context.infos)
  unfolding upload
  upload-stores format manager context prefix w s e h =
      let path = full_path (shown prefix) context.infos in
      stored_status path (upload_to files shown format context.src_url path w).0 s
        (ap (λ (o : Result Json). (upload_within files shown format context o w).0) (sym e) ∙ h)
        (upload_to-Stored format context.src_url path w)
