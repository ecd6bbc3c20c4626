-- ===== src/Memory/Virtual.antt =====
-- libs/mm.c: sectors, page faults and the copy of an address space.
use demo_os.Base.{
  ℕ, zero, suc, ◌+◌, ◌-◌, ◌*◌, ◌/◌, ◌%◌, ◌^◌, ◌≡◌, refl, false, ◌&&◌, ◌==◌, ltb, leb, arith,
  if◌then◌else◌, Option, some, ◌>>=◌, get_or,
}
use demo_os.Base.Int.{ℤ, pos, negsuc, succ, ltb_ℤ}
use demo_os.Base.Bits.{bit_or}
use demo_os.Process.{Ptr, UserPage}
use demo_os.Kernel.{Kernel}
use demo_os.Memory.{
  va_start, page_size, section_size, ptrs_per_table, pud_shift, pgd_shift, page_of, zero_page,
  read_word, write_word, entry_address, get_free_page, map_page, allocate_user_page,
}

-- The loop of `map_sector`: `n` entries of the PMD from `pmd_index` on.
unfoldable pub map_sector_entries : ℕ → (pmd pmd_index descriptor : ℕ) → Kernel → Kernel
map_sector_entries zero pmd pmd_index descriptor k = k
map_sector_entries (suc n) pmd pmd_index descriptor k =
    map_sector_entries n pmd (pmd_index + 1) ((descriptor + section_size) % 2 ^ 64)
      (write_word (pmd + pmd_index * 8) descriptor k)

unfoldable pub map_sector :
    Ptr
    → (start_virtual_address end_virtual_address page_physical_address flags : ℕ) → Kernel
    → ℤ × Kernel
map_sector process start_virtual_address end_virtual_address page_physical_address flags k =
    let first_index = (start_virtual_address / section_size) % ptrs_per_table in
    let last_index = (end_virtual_address / section_size) % ptrs_per_table in
    let descriptor = bit_or (page_physical_address / section_size * section_size) flags in
    let pgd = (k.pcb process).mm.pgd in
    let pud_phys = read_word k (entry_address pgd pgd_shift start_virtual_address) in
    let pmd_phys = read_word k (entry_address (page_of pud_phys) pud_shift start_virtual_address) in
    if pud_phys % 2 == 0 then (negsuc 0, k) else if pmd_phys % 2 == 0 then (negsuc 0, k) else (
      pos 0,
      map_sector_entries (last_index + 1 - first_index) (page_of pmd_phys) first_index descriptor k,
    )

-- The handler of page faults; `index` is its static counter.
unfoldable pub do_mem_abort : (address esr : ℕ) → ℤ → Kernel → Option (ℤ × ℤ × Kernel)
do_mem_abort address esr index k =
    let dfs = esr % 64 in
    let (page, k1) = get_free_page k in
    let mapped = map_page k.current_process (page_of address) page k1 in
    if dfs / 60 == 4
    then if page == 0
      then some (negsuc 0, index, k1)
      else (mapped >>= λ k2.
          some (if ltb_ℤ (pos 2) (succ index) then negsuc 0 else pos 0, succ index, k2))
    else some (negsuc 0, index, k)

-- The page-fault handler reports a failure for every address and every syndrome, and neither
-- maps a page nor changes its counter.
pub do_mem_abort-fails :
    (address esr : ℕ) (index : ℤ) (k : Kernel)
    → do_mem_abort address esr index k ≡ some (negsuc 0, index, k)
unfolding do_mem_abort
do_mem_abort-fails address esr index k = rw (low_status esr) refl
  where
    low_status : (esr : ℕ) → (esr % 64 / 60 == 4) ≡ false
    low_status esr = ground arith

-- `memcpy` of a page between physical addresses.
abbrev pub copy_page : (destination source : ℕ) → Kernel → Kernel
copy_page destination source k = record k {
  memory = record k.memory {
    ram = λ a.
        if leb destination a && ltb a (destination + page_size)
        then k.memory.ram (source + (a - destination))
        else k.memory.ram a;
  };
}

abbrev pub no_page : UserPage
no_page = record { physical_address = 0; virtual_address = 0 }

-- The user pages `i` to `i + n` of the current process.
unfoldable pub copy_user_pages : ℕ → ℕ → Ptr → Kernel → Option (ℤ × Kernel)
copy_user_pages zero i destination_process k = some (pos 0, k)
copy_user_pages (suc n) i destination_process k =
    let page = get_or (k.pcb k.current_process).mm.user_pages i no_page in
    allocate_user_page destination_process page.virtual_address k >>= λ (address, k1).
    let destination = address - va_start in
    let rest =
      copy_user_pages n (i + 1) destination_process
        (copy_page destination page.physical_address (zero_page destination k1)) in
    if address == 0 then some (negsuc 0, k1) else rest

unfoldable pub copy_virtual_memory : Ptr → Kernel → Option (ℤ × Kernel)
copy_virtual_memory destination_process k =
    copy_user_pages (k.pcb k.current_process).mm.n_user_pages 0 destination_process k
