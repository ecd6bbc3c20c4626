-- ===== src/Memory.antt =====
-- libs/mm.c and libs/mm.h: the allocator of physical pages and the translation tables of a process.
-- A word of the memory stands at its physical address; a page that is filled with zeros is also a
-- PCB of zeros for one who reads it as a PCB. A result is missing where the C code reads or writes
-- outside an array.
pub mod Pages
pub mod Taking
pub mod Virtual
use demo_os.Base.{
  ℕ, zero, suc, ◌+◌, ◌-◌, ◌*◌, ◌/◌, ◌%◌, ◌^◌, Bool, true, false, not, ◌&&◌, ◌==◌, ltb, leb,
  if◌then◌else◌, update, Option, none, some, ◌>>=◌, set, get_or,
}
use demo_os.Base.Int.{ℤ, pos, negsuc, succ, ltb_ℤ}
use demo_os.Base.Bits.{bit_or}
use demo_os.Process.{Ptr, Pcb, MmStruct, UserPage, zero_pcb, max_process_pages}
use demo_os.Kernel.{Kernel, Memory, set_pcb}

abbrev pub va_start : ℕ
va_start = 0xffff000000000000

abbrev pub page_size : ℕ
page_size = 4096

abbrev pub section_size : ℕ
section_size = 2 ^ 21

-- LOW_MEMORY, the end of the kernel's memory.
abbrev pub low_memory : ℕ
low_memory = 2 * section_size

abbrev pub n_pages : ℕ
n_pages = (0x3F000000 - low_memory) / page_size

abbrev pub ptrs_per_table : ℕ
ptrs_per_table = 512

abbrev pub page_shift : ℕ
page_shift = 12

abbrev pub pmd_shift : ℕ
pmd_shift = 21

abbrev pub pud_shift : ℕ
pud_shift = 30

abbrev pub pgd_shift : ℕ
pgd_shift = 39

-- MM_TYPE_PAGE_TABLE.
abbrev pub mm_type_page_table : ℕ
mm_type_page_table = 3

-- MMU_PTE_FLAGS: a page, not cached, accessed, accessible from user mode.
abbrev pub mmu_pte_flags : ℕ
mmu_pte_flags = 0x447

-- A 64-bit word without its low twelve bits: `w & PAGE_MASK`.
abbrev pub page_of : ℕ → ℕ
page_of w = w / page_size * page_size

-- `memzero(address + VA_START, PAGE_SIZE)` of a physical address.
abbrev pub zero_page : ℕ → Kernel → Kernel
zero_page address k = record k {
  pcb = update k.pcb (address + va_start) zero_pcb;
  memory = record k.memory {
    ram = λ a. if leb address a && ltb a (address + page_size) then 0 else k.memory.ram a;
  };
}

abbrev pub mark_page : ℕ → ℕ → Kernel → Kernel
mark_page i used k = record k {
  memory = record k.memory { memory_pages = update k.memory.memory_pages i used };
}

abbrev pub read_word : Kernel → ℕ → ℕ
read_word k a = k.memory.ram a

abbrev pub write_word : ℕ → ℕ → Kernel → Kernel
write_word a w k = record k { memory = record k.memory { ram = update k.memory.ram a w } }

-- The scan of `get_free_page`: the first of the `n` pages from `i` on that is free.
unfoldable pub find_free : ℕ → ℕ → (ℕ → ℕ) → Option ℕ
find_free zero i pages = none
find_free (suc n) i pages = elim (pages i == 0) [
  | true ↦ some i
  | false ↦ find_free n (i + 1) pages
]

-- `LOW_MEMORY + i * PAGE_SIZE`.
abbrev pub page_address : ℕ → ℕ
page_address i = low_memory + i * page_size

unfoldable pub get_free_page : Kernel → ℕ × Kernel
get_free_page k = elim (find_free n_pages 0 k.memory.memory_pages) [
  | none ↦ (0, k)
  | some i ↦ (page_address i, zero_page (page_address i) (mark_page i 1 k))
]

unfoldable pub free_page : ℕ → Kernel → Option (ℤ × Kernel)
free_page page_kernel_address k =
    let address = page_kernel_address - va_start in
    let i = (address - low_memory) / page_size in
    if not (page_kernel_address % page_size == 0)
    then some (negsuc 0, k)
    else if leb (va_start + low_memory) page_kernel_address && ltb i n_pages
    then some (pos 0, mark_page i 0 (zero_page address k))
    else none

unfoldable pub allocate_kernel_page : Kernel → ℕ × Kernel
allocate_kernel_page k =
    let (page, k1) = get_free_page k in if page == 0 then (0, k1) else (page + va_start, k1)

-- `process->mm.kernel_pages[process->mm.n_kernel_pages++] = page`.
unfoldable pub track_kernel_page : Ptr → ℕ → Kernel → Option Kernel
track_kernel_page process page k =
    let c = k.pcb process in
    let mm = c.mm in
    if ltb mm.n_kernel_pages max_process_pages
    then some (
        set_pcb k process (record c {
          mm = record mm {
            kernel_pages = set mm.kernel_pages mm.n_kernel_pages page;
            n_kernel_pages = mm.n_kernel_pages + 1;
          };
        }))
    else none

-- `process->mm.user_pages[process->mm.n_user_pages++] = page`.
unfoldable pub track_user_page : Ptr → UserPage → Kernel → Option Kernel
track_user_page process page k =
    let c = k.pcb process in
    let mm = c.mm in
    if ltb mm.n_user_pages max_process_pages
    then some (
        set_pcb k process (record c {
          mm = record mm {
            user_pages = set mm.user_pages mm.n_user_pages page;
            n_user_pages = mm.n_user_pages + 1;
          };
        }))
    else none

-- The address of the entry of a table that translates an address.
abbrev pub entry_address : (table index_shift virtual_address : ℕ) → ℕ
entry_address table index_shift virtual_address =
    table + (virtual_address / 2 ^ index_shift) % ptrs_per_table * 8

-- The next table, and whether it was created.
unfoldable pub map_table : (table index_shift virtual_address : ℕ) → Kernel → ℕ × Bool × Kernel
map_table table index_shift virtual_address k =
    let entry = entry_address table index_shift virtual_address in
    let (page, k1) = get_free_page k in
    if read_word k entry == 0
    then (page, true, write_word entry (bit_or page mm_type_page_table) (zero_page page k1))
    else (page_of (read_word k entry), false, k)

unfoldable pub map_table_entry : (pte virtual_address page_physical_address : ℕ) → Kernel → Kernel
map_table_entry pte virtual_address page_physical_address k =
    write_word (entry_address pte page_shift virtual_address)
      (bit_or page_physical_address mmu_pte_flags) k

-- The root table of a process, created at the first use.
unfoldable pub create_pgd : Ptr → Kernel → Option Kernel
create_pgd process k =
    let (pgd, k1) = get_free_page k in
    let c = k1.pcb process in
    let k2 = set_pcb k1 process (record c { mm = record c.mm { pgd = pgd } }) in
    if (k.pcb process).mm.pgd == 0 then track_kernel_page process pgd (zero_page pgd k2) else some k

-- One level of the walk of `map_page`: the next table, which is tracked if it is new.
unfoldable pub map_level :
    Ptr → (table index_shift virtual_address : ℕ) → Kernel → Option (ℕ × Kernel)
map_level process table index_shift virtual_address k =
    let (next, created, k1) = map_table table index_shift virtual_address k in
    if created
    then (track_kernel_page process next k1 >>= λ k2. some (next, k2))
    else some (next, k1)

unfoldable pub map_page : Ptr → (virtual_address page_physical_address : ℕ) → Kernel → Option Kernel
map_page process virtual_address page_physical_address k = do
  k0 ← create_pgd process k
  (pud, k1) ← map_level process (k0.pcb process).mm.pgd pgd_shift virtual_address k0
  (pmd, k2) ← map_level process pud pud_shift virtual_address k1
  (pte, k3) ← map_level process pmd pmd_shift virtual_address k2
  track_user_page process
      (record { physical_address = page_physical_address; virtual_address = virtual_address })
      (map_table_entry pte virtual_address page_physical_address k3)

unfoldable pub allocate_user_page : Ptr → ℕ → Kernel → Option (ℕ × Kernel)
allocate_user_page process virtual_address k =
    let (page, k1) = get_free_page k in
    let mapped = map_page process virtual_address page k1 in
    if page == 0 then some (0, k1) else (mapped >>= λ k2. some (page + va_start, k2))
