-- ===== src/Platform.antt =====
-- The secret files of meridian-relay/src/platform/unix.rs in one directory. The operating system's
-- calls on that directory are a parameter, with the documented behaviour that the code relies on.
use ius.Base.{◌≡◌, ◌≢◌, Bool, true, false, List, Outcome, ok, err}
use ius.Base.Words.{Bytes}
use ius.Base.Strings.{Text}

-- `std::io::ErrorKind`, as far as the code makes errors of its own.
pub data IoError : Type 0 where
  not_found invalid_input other : IoError

-- Files are named by the text that is joined to the directory's path.
pub record Directory : Type 1 where
  pub State : Type 0
  -- `metadata` of the directory itself, and of a file in it, succeeds.
  pub present : State → Bool
  pub metadata : State → Text → Bool
  pub read : State → Text → Outcome IoError Bytes
  -- The names, each of which the iteration may fail to give.
  pub read_dir : State → Outcome IoError (List (Outcome IoError Text))
  pub create_dir_all : State → State × Outcome IoError (Unit {0})
  pub remove_file : State → Text → State × Outcome IoError (Unit {0})
  -- `open` for writing, with `create`, `truncate`, the mode and `O_NOFOLLOW`.
  pub open_secret : State → Text → State × Outcome IoError (Unit {0})
  pub write_all : State → Text → Bytes → State × Outcome IoError (Unit {0})
  pub sync_all : State → Text → State × Outcome IoError (Unit {0})

unfoldable pub secure_write_secret :
    (D : Directory) → D.State → Text → Bytes → D.State × Outcome IoError (Unit {0})
secure_write_secret D s path contents =
    let (opened, o) = D.open_secret s path in
    elim o [
      | err e ↦ (opened, err e)
      | ok _ ↦
          let (written, w) = D.write_all opened path contents in
          elim w [ err e ↦ (written, err e) | ok _ ↦ D.sync_all written path ]
    ]

-- No two names stand for one file.
pub record IsLawful (D : Directory) : Type 0 where
  pub read-written :
      (s s₁ s₂ s₃ : D.State) (path : Text) (contents : Bytes)
      → D.open_secret s path ≡ (s₁, ok tt)
      → D.write_all s₁ path contents ≡ (s₂, ok tt)
      → D.sync_all s₂ path ≡ (s₃, ok tt)
      → (D.present s₃ ≡ true) × (D.metadata s₃ path ≡ true) × (D.read s₃ path ≡ ok contents)
  pub other-written :
      (s s₁ s₂ s₃ : D.State) (path : Text) (contents : Bytes) (name : Text)
      → name ≢ path
      → D.open_secret s path ≡ (s₁, ok tt)
      → D.write_all s₁ path contents ≡ (s₂, ok tt)
      → D.sync_all s₂ path ≡ (s₃, ok tt)
      → (D.metadata s₃ name ≡ D.metadata s name) × (D.read s₃ name ≡ D.read s name)
  pub metadata-create_dir_all :
      (s s' : D.State) (name : Text)
      → D.create_dir_all s ≡ (s', ok tt)
      → (D.metadata s' name ≡ D.metadata s name) × (D.read s' name ≡ D.read s name)
  pub metadata-remove_file :
      (s s' : D.State) (path : Text)
      → D.remove_file s path ≡ (s', ok tt)
      → (D.metadata s' path ≡ false) × (D.present s' ≡ D.present s)
  pub other-remove_file :
      (s s' : D.State) (path name : Text)
      → name ≢ path
      → D.remove_file s path ≡ (s', ok tt)
      → (D.metadata s' name ≡ D.metadata s name) × (D.read s' name ≡ D.read s name)
  -- Nothing is in a directory that does not exist.
  pub metadata_absent :
      (s : D.State) (name : Text) → D.present s ≡ false → D.metadata s name ≡ false
