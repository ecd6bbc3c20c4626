-- ===== src/Files/Mount.antt =====
-- libs/filesystem.c: the adapters of the SD driver, and the mounting of the volume at boot. The
-- functions of the driver and of the FAT library are parameters on a state of theirs.
use demo_os.Base.{ℕ, Bool, not, if◌then◌else◌, List, [], ◌∷◌}
use demo_os.Base.Int.{ℤ, pos, eqb_ℤ}

-- SD_OK, SD_FILESYSTEM_INIT_OK and SD_FILESYSTEM_INIT_ERROR.
abbrev pub sd_ok : ℤ
sd_ok = pos 0

abbrev pub sd_filesystem_init_ok : ℕ
sd_filesystem_init_ok = 0

abbrev pub sd_filesystem_init_error : ℕ
sd_filesystem_init_error = 1

module _ {D : Type 0} where
  -- The bytes of the block, and whether the driver read it.
  unfoldable pub sd_read_adapter :
      (sd_readblock : (sector num : ℕ) → D → ℤ × List ℕ × D) (sector : ℕ) → D → Bool × List ℕ × D
  sd_read_adapter sd_readblock sector d =
      let (res, buffer, d1) = sd_readblock sector 1 d in (not (eqb_ℤ res (pos 0)), buffer, d1)

  unfoldable pub sd_write_adapter :
      (sd_writeblock : (buffer : List ℕ) (sector num : ℕ) → D → ℤ × D) (buffer : List ℕ)
      (sector : ℕ)
      → D
      → Bool × D
  sd_write_adapter sd_writeblock buffer sector d =
      let (res, d1) = sd_writeblock buffer sector 1 d in (not (eqb_ℤ res (pos 0)), d1)

  -- The partition is number 0, and the volume is mounted as "mnt".
  unfoldable pub sd_filesystem_init :
      (sd_init : D → ℤ × D) (fat_probe : (partition : ℕ) → D → ℤ × D)
      (fat_mount : (partition : ℕ) (path : List ℕ) → D → ℤ × D)
      → D
      → ℕ × D
  sd_filesystem_init sd_init fat_probe fat_mount d =
      let (sd_result, d1) = sd_init d in
      let (probe_error, d2) = fat_probe 0 d1 in
      let (mount_error, d3) = fat_mount 0 (109 ∷ 110 ∷ 116 ∷ []) d2 in
      if not (eqb_ℤ sd_result sd_ok)
      then (sd_filesystem_init_error, d1)
      else if not (eqb_ℤ probe_error (pos 0))
      then (sd_filesystem_init_error, d2)
      else if not (eqb_ℤ mount_error (pos 0))
      then (sd_filesystem_init_error, d3)
      else (sd_filesystem_init_ok, d3)
