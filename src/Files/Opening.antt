-- ===== src/Files/Opening.antt =====
-- syscall_open_file on each of its returns.
use demo_os.Base.{
  true, leb, sym, ℕ, ◌+◌, ◌<◌, ◌≡◌, ◌≢◌, refl, ap, ◌∙◌, false, not, ◌==◌, some, ◌>>=◌, List, [],
  ◌∷◌, ◌++◌, length, length-append, set, get_or, arith, inl, inr, Bool-cases, ==-refl, All, Returns,
  returns, Returns-bind,
}
use demo_os.Base.Int.{ℤ, pos, negsuc, eqb_ℤ}
use demo_os.Process.{Ptr, null, max_files_per_process}
use demo_os.Kernel.{Kernel}
use demo_os.Memory.{va_start, allocate_kernel_page, n_pages, page_address, zero_page, mark_page}
use demo_os.Memory.Pages.{free_page-marked}
use demo_os.Memory.Taking.{Takes, allocate-Takes}
use demo_os.Syscalls.{get_first_free_file_descriptor}
use demo_os.Syscalls.Descriptors.{FreeSlot, get_first_free_file_descriptor-FreeSlot}
use demo_os.Files.{
  FatLibrary, ResourceType, Files, mount_point, fat_max_path_size, open_file, resource_of,
  bind_resource, give_back,
}
use demo_os.Files.Calls.{syscall_open_file}

get_at :
    (before : List Ptr) (x : Ptr) (after : List Ptr)
    → get_or (before ++ (x ∷ after)) (length before) null ≡ x
get_at [] x after = refl
get_at (b ∷ before) x after = get_at before x after

-- What the kernel needs for an opening: two free pages, none of which is that of the current PCB.
pub record HasRoom (k : Kernel) : Type 0 where
  pub one : ℕ
  pub other : ℕ
  pub distinct : one ≢ other
  pub one_in : one < n_pages
  pub other_in : other < n_pages
  pub one_free : k.memory.memory_pages one ≡ 0
  pub other_free : k.memory.memory_pages other ≡ 0
  pub current_kept :
      (i : ℕ)
      → i < n_pages
      → k.memory.memory_pages i ≡ 0
      → page_address i + va_start ≢ k.current_process
  pub n_files : length (k.pcb k.current_process).files ≡ max_files_per_process

-- What the allocation of a FatResource leaves.
record Bound {D : Type 0} (j : ℕ) (resource_type : ResourceType) (target : Ptr) (f f' : Files D)
    : Type 0 where
  page : Ptr
  ne_null : page ≢ null
  resource : f'.resources page ≡ record { resource_type = resource_type; target = target }
  disk : f'.disk ≡ f.disk
  files :
      (f'.kernel.pcb f.kernel.current_process).files
      ≡ set (f.kernel.pcb f.kernel.current_process).files j page
  current : f'.kernel.current_process ≡ f.kernel.current_process

abbrev taken : ℕ → Kernel → Kernel
taken i k = zero_page (page_address i) (mark_page i 1 k)

bind_resource-Bound :
    {D : Type 0} (j : ℕ) (resource_type : ResourceType) (target : Ptr) (f : Files D)
    → (t : Takes f.kernel) → page_address t.index + va_start ≢ f.kernel.current_process
    → Returns (Bound j resource_type target f) (bind_resource (pos j) resource_type target f)
unfolding bind_resource
bind_resource-Bound j resource_type target f t kept =
    let some_page : (page_address t.index + va_start == null) ≡ false = ground arith in
    rw (t.takes, some_page)
      (returns (record {
        page = page_address t.index + va_start;
        ne_null = ground arith;
        resource = rw (==-refl (page_address t.index + va_start)) refl;
        disk = refl;
        files = ground arith;
        current = refl;
      }))

-- The page that an opening takes for the file, and what `open_file` gives on it.
abbrev taken_page : Kernel → Ptr
taken_page k = (allocate_kernel_page k).0

module _ {D : Type 0} (fat : FatLibrary D) (file_path : List ℕ) (flags : ℕ) (f : Files D) where
  abbrev library_result : ℤ × D
  library_result = open_file fat file_path flags (taken_page f.kernel) f.disk

  -- What an opening leaves: all descriptors are in use and nothing happened; or `open_file` gives
  -- an error, and the marks of the pages and the descriptors are what they were; or it gives none,
  -- and the first free descriptor leads to the file that it opened.
  pub data Opened : ℤ × Files D → Type 0 where
    full :
        All (λ file. file ≢ null) (f.kernel.pcb f.kernel.current_process).files
        → Opened (negsuc 0, f)
    refused :
        {f' : Files D}
        → library_result.0 ≢ pos 0
        → f'.disk ≡ library_result.1
        → ((i : ℕ) → f'.kernel.memory.memory_pages i ≡ f.kernel.memory.memory_pages i)
        → f'.kernel.pcb f.kernel.current_process ≡ f.kernel.pcb f.kernel.current_process
        → Opened (negsuc 0, f')
    opened :
        {f' : Files D} (before after : List Ptr) (page : Ptr)
        → length mount_point + length file_path < fat_max_path_size
        → library_result.0 ≡ pos 0
        → f'.disk ≡ library_result.1
        → (f.kernel.pcb f.kernel.current_process).files ≡ before ++ (null ∷ after)
        → All (λ file. file ≢ null) before
        → resource_of (pos (length before)) f' ≡ some page
        → page ≢ null
        → (f'.resources page).resource_type ≡ ResourceType.resource_type_file
        → (f'.resources page).target ≡ taken_page f.kernel
        → taken_page f.kernel ≢ null
        → (f'.kernel.pcb f.kernel.current_process).files ≡ before ++ (page ∷ after)
        → Opened (pos (length before), f')

-- A free page besides the one that is taken.
second_page : (k : Kernel) (r : HasRoom k) (i : ℕ) → i < n_pages → Takes (taken i k)
second_page k r i hi = elim (Bool-cases (i == r.one)) [
  | inl e ↦
      let d = r.distinct in
      let o = r.other_free in allocate-Takes (taken i k) r.other r.other_in (ground arith)
  | inr e ↦ let o = r.one_free in allocate-Takes (taken i k) r.one r.one_in (ground arith)
]

set_at :
    (before : List Ptr) (x : Ptr) (after : List Ptr) (v : Ptr)
    → set (before ++ (x ∷ after)) (length before) v ≡ before ++ (v ∷ after)
set_at [] x after v = refl
set_at (b ∷ before) x after v = rw (set_at before x after v) refl

nonzero : (n : ℤ) → not (eqb_ℤ n (pos 0)) ≡ true → n ≢ pos 0
nonzero n h z = let h' = rw z at h in cc

zero_of : (n : ℤ) → not (eqb_ℤ n (pos 0)) ≡ false → n ≡ pos 0
zero_of (pos n) h = ap pos (ground arith)
zero_of (negsuc n) h = cc

-- No file is opened by a path that is too long.
open_file-short :
    {D : Type 0} (fat : FatLibrary D) (file_path : List ℕ) (flags : ℕ) (file : Ptr) (d : D)
    → (open_file fat file_path flags file d).0 ≡ pos 0
    → length mount_point + length file_path < fat_max_path_size
unfolding open_file
open_file-short fat file_path flags file d e =
    elim (Bool-cases (leb fat_max_path_size (length mount_point + length file_path))) [
      | inl long ↦ let e' = rw long at e in cc
      | inr short ↦ ground arith
    ]

module _ {D : Type 0} (fat : FatLibrary D) (file_path : List ℕ) (flags : ℕ) (f : Files D)
    (r : HasRoom f.kernel) (t : Takes f.kernel) where
  abbrev k0 : Kernel
  k0 = f.kernel

  abbrev file_page : Ptr
  file_page = page_address t.index + va_start

  abbrev result : ℤ × D
  result = open_file fat file_path flags file_page f.disk

  same_page : taken_page k0 ≡ file_page
  same_page = ap (λ x. x.0) t.takes

  same_result : library_result fat file_path flags f ≡ result
  same_result = ap (λ page. open_file fat file_path flags page f.disk) same_page

  -- The library refused.
  give_back-Opened :
      not (eqb_ℤ result.0 (pos 0)) ≡ true
      → Returns (Opened fat file_path flags f) (
          give_back file_page (record f { kernel = taken t.index k0; disk = result.1 }) >>= λ f2.
          some (negsuc 0, f2))
  unfolding give_back
  give_back-Opened bad =
      let not_current = r.current_kept t.index t.in_range t.was_free in
      rw (free_page-marked t.index (taken t.index k0) t.in_range) (
        returns (
          Opened.refused (rw same_result (nonzero result.0 bad)) (rw same_result refl)
            (λ i. let was = t.was_free in ground arith) (ground arith)))

  -- The descriptor is bound.
  Bound-Opened :
      not (eqb_ℤ result.0 (pos 0)) ≡ false
      → (before after : List Ptr) (f' : Files D)
      → (k0.pcb k0.current_process).files ≡ before ++ (null ∷ after)
      → All (λ file. file ≢ null) before
      → Bound
          (length before)
          ResourceType.resource_type_file
          file_page
          (record f { kernel = taken t.index k0; disk = result.1 })
          f'
      → Opened fat file_path flags f (pos (length before), f')
  unfolding resource_of
  Bound-Opened ok before after f' e used b =
      let same_pcb : (taken t.index k0).pcb k0.current_process ≡ k0.pcb k0.current_process =
        let not_current = r.current_kept t.index t.in_range t.was_free in ground arith in
      let files : (f'.kernel.pcb k0.current_process).files ≡ before ++ (b.page ∷ after) =
        b.files
        ∙ ap (λ c. set c.files (length before) b.page) same_pcb
        ∙ ap (λ fs. set fs (length before) b.page) e
        ∙ set_at before null after b.page in
      let few : length before < max_files_per_process =
        let n = r.n_files in
        let l = length-append before (null ∷ after) in let all = ap length e in omega arith in
      Opened.opened before after b.page
        (open_file-short fat file_path flags file_page f.disk (zero_of result.0 ok))
        (rw same_result (zero_of result.0 ok)) (b.disk ∙ ap (λ x. x.1) (sym same_result)) e used
        (rw (b.current, files, get_at before b.page after) (ground arith)) b.ne_null
        (rw (b.resource) refl) (rw (b.resource, same_page) refl) (rw same_page (ground arith)) files

-- Opening a file, with two free pages, 16 descriptors, and the control block of the current
-- process in no free page, has a result whatever the FAT library does: -1 with nothing changed
-- if all descriptors are in use; -1, only if open_file on the page taken for the file gives an
-- error, with the marks of all pages and the control block of the process as before; else, only
-- if open_file gives none and the path with the mount point is shorter than the limit of the
-- library, the first free descriptor, which then leads to a new resource of the type of a file
-- for that page, while the other descriptors are as before. In the last two cases the disk is
-- the one that open_file leaves.
pub syscall_open_file-Opened :
    {D : Type 0} (fat : FatLibrary D) (file_path : List ℕ) (flags : ℕ) (f : Files D)
    → HasRoom f.kernel
    → Returns (Opened fat file_path flags f) (syscall_open_file fat file_path flags f)
unfolding syscall_open_file
syscall_open_file-Opened {D} fat file_path flags f r =
    by_slot (get_first_free_file_descriptor f.kernel.current_process f.kernel) refl
      (get_first_free_file_descriptor-FreeSlot f.kernel.current_process f.kernel)
  where
    not_current :
        (t : Takes f.kernel) (t2 : Takes (taken t.index f.kernel))
        → page_address t2.index + va_start ≢ f.kernel.current_process
    not_current t t2 = r.current_kept t2.index t2.in_range (let was = t2.was_free in ground arith)

    by_slot :
        (fd : ℤ)
        → get_first_free_file_descriptor f.kernel.current_process f.kernel ≡ fd
        → FreeSlot 0 (f.kernel.pcb f.kernel.current_process).files fd
        → Returns (Opened fat file_path flags f) (syscall_open_file fat file_path flags f)
    by_slot _ at (FreeSlot.all_open h) = rw (syscall_open_file, at) (returns (Opened.full h))
    by_slot _ at (FreeSlot.free_at before after e used j here) =
        let t = allocate-Takes f.kernel r.one r.one_in r.one_free in
        let page : Ptr = page_address t.index + va_start in
        let d1 = (open_file fat file_path flags page f.disk).1 in
        let same : j ≡ length before = omega arith in
        elim (Bool-cases (not (eqb_ℤ (open_file fat file_path flags page f.disk).0 (pos 0)))) [
          | inl bad ↦
              rw (syscall_open_file, at, t.takes, bad)
                (give_back-Opened fat file_path flags f r t bad)
          | inr ok ↦
              let t2 = second_page f.kernel r t.index t.in_range in
              rw (syscall_open_file, at, t.takes, ok, same)
                (Returns-bind
                  (bind_resource-Bound (length before) ResourceType.resource_type_file page
                    (record f { kernel = taken t.index f.kernel; disk = d1 }) t2 (not_current t t2))
                  λ f' b.
                    returns (Bound-Opened fat file_path flags f r t ok before after f' e used b))
        ]
