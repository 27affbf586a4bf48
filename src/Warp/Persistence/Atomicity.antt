-- ===== src/Warp/Persistence/Atomicity.antt =====
-- src/warp/persistence.rs: what a failed `save` leaves on disk.
use cf_warp_rust.Base.{Bool, Option, some, ok, err, Error, ◌≡◌, ◌⊎◌, arith, false, io, true, ◌≢◌}
use cf_warp_rust.Warp.Persistence.{
  SaveStep, File, save, before_rename, create_dir, serialize, create_temp, write_temp, sync_temp,
  persist, read_metadata, set_permissions, open_file, sync_file, open_dir, sync_dir, private_mode,
}

-- `save` answers without a panic; when it succeeds the file on disk is the new content, readable by
-- its owner only; when it fails the file is exactly the old one or holds exactly the new content.
pub save_atomic :
    {T : Type 0} (fails : SaveStep → Bool) (value : T) (disk : Option (File T))
    → ((save fails value disk).0 ≡ ok tt)
        × ((save fails value disk).1 ≡ some (record { content = value; mode = private_mode }))
      ⊎ (e : Error) × ((save fails value disk).0 ≡ err e)
        × (((save fails value disk).1 ≡ disk)
            ⊎ ((save fails value disk).1 ≡ some (record { content = value; mode = private_mode })))
unfolding save
save_atomic fails value disk = ground arith

-- If nothing fails behind the rename, a `save` that fails has left the old file.
pub save_all_or_nothing :
    {T : Type 0} (fails : SaveStep → Bool) (value : T) (disk : Option (File T))
    → ((st : SaveStep) → before_rename st ≡ false → fails st ≡ false)
    → (((save fails value disk).0 ≡ ok tt)
        × ((save fails value disk).1 ≡ some (record { content = value; mode = private_mode })))
      ⊎ (((save fails value disk).0 ≢ ok tt) × ((save fails value disk).1 ≡ disk))
unfolding save
save_all_or_nothing fails value disk h =
    ground
      (arith, h read_metadata, h set_permissions, h open_file, h sync_file, h open_dir, h sync_dir)

late_cases :
    (st : SaveStep)
    → before_rename st ≡ false
    → (st ≡ read_metadata)
      ⊎ (st ≡ set_permissions)
      ⊎ (st ≡ open_file)
      ⊎ (st ≡ sync_file)
      ⊎ (st ≡ open_dir)
      ⊎ (st ≡ sync_dir)
late_cases st h = ground arith

-- If nothing fails up to the rename but a later step does, `save` reports an error although the new content
-- has replaced the old one.
pub save_torn :
    {T : Type 0} (fails : SaveStep → Bool) (value : T) (disk : Option (File T)) (late : SaveStep)
    → ((st : SaveStep) → before_rename st ≡ true → fails st ≡ false)
    → before_rename late ≡ false
    → fails late ≡ true
    → ((save fails value disk).0 ≡ err io)
      × ((save fails value disk).1 ≡ some (record { content = value; mode = private_mode }))
unfolding save
save_torn fails value disk late h after bad = ground (
  arith,
  late_cases late after,
  h create_dir,
  h serialize,
  h create_temp,
  h write_temp,
  h sync_temp,
  h persist,
)
