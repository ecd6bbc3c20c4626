-- ===== src/Files.antt =====
-- libs/filesystem.c and what the calls of libs/syscalls.c on files share. The FAT library is a record of
-- its functions; it keeps the disk, and what it writes to the File and Dir structures of the kernel, in
-- a state of its own. Paths and buffers are lists of their characters. A result is missing where the C
-- code follows a NULL pointer or reads or writes outside an array.
pub mod Calls
pub mod Mount
pub mod Opening
pub mod Exec
use demo_os.Base.{
  ℕ, ◌+◌, ◌-◌, ◌<◌, ◌%◌, ◌/◌, Bool, true, false, not, ◌&&◌, ◌||◌, ◌==◌, ltb, leb, if◌then◌else◌,
  update, Option, none, some, ◌>>=◌, List, [], ◌∷◌, ◌++◌, length, set, get_or,
}
use demo_os.Base.Int.{ℤ, pos, negsuc, eqb_ℤ, ltb_ℤ, to_ℕ}
use demo_os.Base.Bits.{test_bit}
use demo_os.Process.{Ptr, null, Pcb, max_files_per_process}
use demo_os.Kernel.{Kernel, set_pcb}
use demo_os.Memory.{allocate_kernel_page, free_page}
use demo_os.Syscalls.{get_first_free_file_descriptor}

-- The fields of DirInfo that the kernel reads: the name as far as `name_len`, and the attributes.
pub record DirInfo : Type 0 where
  pub name : List ℕ
  pub attr : ℕ

-- The FAT library, with a state `D`: each function returns its error code, 0 for none. `fat_file_read`
-- also gives the bytes that it read, `fat_file_write` the number of those that it wrote.
pub record FatLibrary (D : Type 0) : Type 0 where
  pub fat_file_open : (file : Ptr) → (path : List ℕ) → (flags : ℕ) → D → ℤ × D
  pub fat_file_close : (file : Ptr) → D → ℤ × D
  pub fat_file_read : (file : Ptr) → (len : ℕ) → D → ℤ × List ℕ × D
  pub fat_file_write : (file : Ptr) → (buffer : List ℕ) → D → ℤ × ℕ × D
  pub fat_file_seek : (file : Ptr) → (offset : ℕ) → (seek : ℕ) → D → ℤ × D
  pub fat_dir_create : (dir : Ptr) → (path : List ℕ) → D → ℤ × D
  pub fat_dir_open : (dir : Ptr) → (path : List ℕ) → D → ℤ × D
  pub fat_dir_read : (dir : Ptr) → D → ℤ × DirInfo × D
  pub fat_dir_next : (dir : Ptr) → D → ℤ × D

pub data ResourceType : Type 0 where
  resource_type_file resource_type_folder : ResourceType

-- The union of the File and the Dir pointer is one pointer.
pub record FatResource : Type 0 where
  pub resource_type : ResourceType
  pub target : Ptr

-- The kernel, the state of the library, and the FatResource structures by address.
pub record Files (D : Type 0) : Type 0 where
  pub kernel : Kernel
  pub disk : D
  pub resources : Ptr → FatResource

-- FAT_MAX_PATH_SIZE, FAT_MAX_NAME_SIZE and FAT_SEEK_START.
abbrev pub fat_max_path_size : ℕ
fat_max_path_size = 128

abbrev pub fat_max_name_size : ℕ
fat_max_name_size = 64

abbrev pub fat_seek_start : ℕ
fat_seek_start = 0

-- "/mnt/".
abbrev pub mount_point : List ℕ
mount_point = 47 ∷ 109 ∷ 110 ∷ 116 ∷ 47 ∷ []

module _ {D : Type 0} (fat : FatLibrary D) where
  unfoldable pub create_dir : (dir_path : List ℕ) → (created_dir : Ptr) → D → ℤ × D
  create_dir dir_path created_dir d =
      if leb fat_max_path_size (length mount_point + length dir_path)
      then (negsuc 0, d)
      else fat.fat_dir_create created_dir (mount_point ++ dir_path) d

  unfoldable pub open_dir : (dir_path : List ℕ) → (dir : Ptr) → D → ℤ × D
  open_dir dir_path dir d =
      if leb fat_max_path_size (length mount_point + length dir_path)
      then (negsuc 0, d)
      else fat.fat_dir_open dir (mount_point ++ dir_path) d

  unfoldable pub open_file : (file_path : List ℕ) → (flags : ℕ) → (file : Ptr) → D → ℤ × D
  open_file file_path flags file d =
      if leb fat_max_path_size (length mount_point + length file_path)
      then (negsuc 0, d)
      else fat.fat_file_open file (mount_point ++ file_path) flags d

-- The resource of a descriptor of the current process; the array has 16 cells.
unfoldable pub resource_of : {D : Type 0} → ℤ → Files D → Option Ptr
resource_of file_descriptor f =
    let k = f.kernel in
    if ltb_ℤ file_descriptor (pos 0) || not (ltb_ℤ file_descriptor (pos max_files_per_process))
    then none
    else some (get_or (k.pcb k.current_process).files (to_ℕ file_descriptor) null)

-- The allocation of a FatResource for a descriptor, and the writes to it.
unfoldable pub bind_resource :
    {D : Type 0}
    → (file_descriptor : ℤ) → ResourceType
    → (target : Ptr) → Files D
    → Option (Files D)
bind_resource file_descriptor resource_type target f =
    let (page, k1) = allocate_kernel_page f.kernel in
    let c = k1.pcb k1.current_process in
    let k2 =
      set_pcb k1 k1.current_process
        (record c { files = set c.files (to_ℕ file_descriptor) page }) in
    if page == null
    then none
    else some (record f {
      kernel = k2;
      resources =
          update f.resources page (record { resource_type = resource_type; target = target });
    })

-- The release of the structure when the library failed.
unfoldable pub give_back : {D : Type 0} → Ptr → Files D → Option (Files D)
give_back page f = free_page page f.kernel >>= λ (_, k1). some (record f { kernel = k1 })
