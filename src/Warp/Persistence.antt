-- ===== src/Warp/Persistence.antt =====
-- src/warp/persistence.rs: the atomic JSON writer. A file is its content with its mode; which of the
-- system calls fails, if any, is an input. The content of a file is whatever `T` is.
pub mod Atomicity
use cf_warp_rust.Base.{
  ℕ, Bool, true, false, Option, none, some, Outcome, ok, err, io, json, if◌then◌else◌,
}

-- The fallible steps of `save`, in order.
pub data SaveStep : Type 0 where
  create_dir serialize create_temp write_temp sync_temp persist : SaveStep
  read_metadata set_permissions open_file sync_file open_dir sync_dir : SaveStep

pub record File {ℓ} (T : Type ℓ) : Type ℓ where
  pub content : T
  pub mode : ℕ

-- `tempfile` makes its files with mode 0600, and `set_mode` replaces the permission bits.
abbrev pub private_mode : ℕ
private_mode = 0o600

module _ {ℓ} {T : Type ℓ} where
  -- `load`: a missing file is `none`; `readable` and `parses` are the file system's and serde's answers.
  unfoldable pub load : Bool → Bool → Option (File T) → Outcome (Option T)
  load readable parses none = if readable then ok none else err io
  load readable parses (some f) =
      if readable then (if parses then ok (some f.content) else err json) else err io

  -- The steps behind the rename: they touch the mode and the disk cache, never the content.
  unfoldable pub save_metadata : (SaveStep → Bool) → File T → Outcome (Unit {0}) × Option (File T)
  save_metadata fails f =
      if fails read_metadata
      then (err io, some f)
      else if fails set_permissions
      then (err io, some f)
      else let g : File T = record f { mode = private_mode } in
        if fails open_file
        then (err io, some g)
        else if fails sync_file
        then (err io, some g)
        else if fails open_dir
        then (err io, some g)
        else if fails sync_dir
        then (err io, some g)
        else (ok tt, some g)

  -- `save`, with the file as it stands on disk before and after.
  unfoldable pub save :
      (SaveStep → Bool) → T → Option (File T) → Outcome (Unit {0}) × Option (File T)
  unfolding save_metadata
  save fails value disk =
      if fails create_dir
      then (err io, disk)
      else if fails serialize
      then (err json, disk)
      else if fails create_temp
      then (err io, disk)
      else if fails write_temp
      then (err io, disk)
      else if fails sync_temp
      then (err io, disk)
      else if fails persist
      then (err io, disk)
      else save_metadata fails (record { content = value; mode = private_mode })

-- The step is one of those up to the rename.
abbrev pub before_rename : SaveStep → Bool
before_rename read_metadata = false
before_rename set_permissions = false
before_rename open_file = false
before_rename sync_file = false
before_rename open_dir = false
before_rename sync_dir = false
before_rename _ = true
