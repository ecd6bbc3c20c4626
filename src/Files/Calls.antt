-- ===== src/Files/Calls.antt =====
-- libs/syscalls.c: the handlers of the calls on files and directories.
use demo_os.Base.{
  ℕ, Bool, not, ◌==◌, ltb, leb, if◌then◌else◌, Option, none, some, ◌>>=◌, List, ◌++◌, length, take,
  drop,
}
use demo_os.Base.Int.{ℤ, pos, negsuc, eqb_ℤ}
use demo_os.Base.Bits.{test_bit}
use demo_os.Process.{null}
use demo_os.Memory.{allocate_kernel_page}
use demo_os.Syscalls.{get_first_free_file_descriptor}
use demo_os.Files.{
  FatLibrary, ResourceType, Files, fat_max_name_size, fat_seek_start, create_dir, open_dir,
  open_file, resource_of, bind_resource, give_back,
}

-- An entry of a directory as `syscall_get_next_entry` fills it in; the field `size` is not written.
pub record FatEntryInfo : Type 0 where
  pub name : List ℕ
  pub is_dir : Bool

-- The copy of `size` characters over the old name, which has FAT_MAX_NAME_SIZE cells.
abbrev pub copy_name : (size : ℕ) → (name old : List ℕ) → Option (List ℕ)
copy_name size name old =
    if leb size fat_max_name_size then some (take size name ++ drop size old) else none

-- FAT_ATTR_DIR is bit 4.
abbrev pub fat_attr_dir_bit : ℕ
fat_attr_dir_bit = 4

module _ {D : Type 0} (fat : FatLibrary D) where
  unfoldable pub syscall_create_dir : (dir_path : List ℕ) → Files D → Option (ℤ × Files D)
  syscall_create_dir dir_path f =
      let k = f.kernel in
      let file_descriptor = get_first_free_file_descriptor k.current_process k in
      let (created_dir, k1) = allocate_kernel_page k in
      let (error, d1) = create_dir fat dir_path created_dir f.disk in
      let f1 = record f { kernel = k1; disk = d1 } in
      let bound = (do
        f2 ← bind_resource file_descriptor ResourceType.resource_type_folder created_dir f1
        some (file_descriptor, f2)) in
      let failed = (do f2 ← give_back created_dir f1; some (error, f2)) in
      if eqb_ℤ file_descriptor (negsuc 0)
      then some (negsuc 0, f)
      else if not (eqb_ℤ error (pos 0))
      then failed
      else bound

  unfoldable pub syscall_open_dir : (dir_path : List ℕ) → Files D → Option (ℤ × Files D)
  syscall_open_dir dir_path f =
      let k = f.kernel in
      let file_descriptor = get_first_free_file_descriptor k.current_process k in
      let (dir, k1) = allocate_kernel_page k in
      let (error, d1) = open_dir fat dir_path dir f.disk in
      let f1 = record f { kernel = k1; disk = d1 } in
      let bound = (do
        f2 ← bind_resource file_descriptor ResourceType.resource_type_folder dir f1
        some (file_descriptor, f2)) in
      let failed = (do f2 ← give_back dir f1; some (negsuc 0, f2)) in
      if eqb_ℤ file_descriptor (negsuc 0)
      then some (negsuc 0, f)
      else if not (eqb_ℤ error (pos 0))
      then failed
      else bound

  unfoldable pub syscall_open_file :
      (file_path : List ℕ) → (flags : ℕ) → Files D → Option (ℤ × Files D)
  syscall_open_file file_path flags f =
      let k = f.kernel in
      let file_descriptor = get_first_free_file_descriptor k.current_process k in
      let (file, k1) = allocate_kernel_page k in
      let (error, d1) = open_file fat file_path flags file f.disk in
      let f1 = record f { kernel = k1; disk = d1 } in
      let bound = (do
        f2 ← bind_resource file_descriptor ResourceType.resource_type_file file f1
        some (file_descriptor, f2)) in
      let failed = (do f2 ← give_back file f1; some (negsuc 0, f2)) in
      if eqb_ℤ file_descriptor (negsuc 0)
      then some (negsuc 0, f)
      else if not (eqb_ℤ error (pos 0))
      then failed
      else bound

  -- The descriptor gets a new FatResource with a NULL pointer; resource type 0 is that of a file.
  unfoldable pub syscall_close_file : (file_descriptor : ℤ) → Files D → Option (ℤ × Files D)
  syscall_close_file file_descriptor f = elim (resource_of file_descriptor f) [
    | none ↦ some (negsuc 0, f)
    | some resource ↦
        let file = (f.resources resource).target in
        let (error, d1) = fat.fat_file_close file f.disk in
        let f1 = record f { disk = d1 } in
        let closed = (do
          f2 ← give_back file f1
          f3 ← bind_resource file_descriptor ResourceType.resource_type_file null f2
          some (pos 0, f3)) in
        if resource == null
        then none
        else if not (eqb_ℤ error (pos 0))
        then some (error, f1)
        else closed
  ]

  -- The error code and the number of bytes written.
  unfoldable pub syscall_write_file :
      (file_descriptor : ℤ) → (buffer : List ℕ) → Files D → Option (ℤ × Option ℕ × Files D)
  syscall_write_file file_descriptor buffer f = do
    resource ← resource_of file_descriptor f
    let (error, bytes, d1) = fat.fat_file_write (f.resources resource).target buffer f.disk
    if resource == null
        then some (negsuc 0, none, f)
        else some (error, some bytes, record f { disk = d1 })

  -- The error code and the bytes read, from the start of the file.
  unfoldable pub syscall_read_file :
      (file_descriptor : ℤ) → (len : ℕ) → Files D → Option (ℤ × List ℕ × Files D)
  syscall_read_file file_descriptor len f = do
    resource ← resource_of file_descriptor f
    let file = (f.resources resource).target
    let (_, d1) = fat.fat_file_seek file 0 fat_seek_start f.disk
    let (error, bytes, d2) = fat.fat_file_read file len d1
    if resource == null then none else some (error, bytes, record f { disk = d2 })

  unfoldable pub syscall_get_next_entry :
      (file_descriptor : ℤ) → FatEntryInfo → Files D → Option (ℤ × FatEntryInfo × Files D)
  syscall_get_next_entry file_descriptor entry_info f = do
    resource ← resource_of file_descriptor f
    let dir = (f.resources resource).target
    let (error, dir_info, d1) = fat.fat_dir_read dir f.disk
    let name_len = length dir_info.name
    let size = if ltb name_len 255 then name_len else 255
    let is_dir = test_bit dir_info.attr fat_attr_dir_bit
    let (next_error, d2) = fat.fat_dir_next dir d1
    let read = (do
      name ← copy_name size dir_info.name entry_info.name
      let entry = record entry_info { name = name; is_dir = is_dir }
      some (if eqb_ℤ next_error (pos 0) then pos 0 else negsuc 0, entry, record f { disk = d2 }))
    if resource == null
        then none
        else if dir == null
        then some (negsuc 0, entry_info, f)
        else if not (eqb_ℤ error (pos 0))
        then some (negsuc 0, entry_info, record f { disk = d1 })
        else read
