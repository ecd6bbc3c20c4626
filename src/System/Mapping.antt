-- ===== src/System/Mapping.antt =====
-- map_page and copy_virtual_memory, as growth of the memory in use.
use demo_os.Base.{ℕ, zero, suc, ◌+◌, ◌-◌, ◌≡◌, refl, false, ◌==◌, arith, inl, inr, Bool-cases, ltb}
use demo_os.Process.{Ptr, UserPage, max_process_pages}
use demo_os.Kernel.{Kernel}
use demo_os.Memory.{
  va_start, read_word, entry_address, get_free_page, pgd_shift, pud_shift, pmd_shift,
  track_kernel_page, track_user_page, map_table, map_table_entry, create_pgd, map_level, map_page,
  allocate_user_page,
}
use demo_os.Memory.Virtual.{copy_user_pages, copy_virtual_memory}
use demo_os.System.Grow.{
  Grew, Unguarded, ram-Grew, set_pcb-Grew, zero_page-Grew, get_free_page-Grew,
}
use demo_os.System.Returned.{IfReturned, IfReturned-bind}

module _ (k0 : Kernel) where
  track_kernel_page-Grew :
      (p : Ptr) (page : ℕ) (k : Kernel)
      → Grew k0 k
      → IfReturned (Grew k0) (track_kernel_page p page k)
  unfolding track_kernel_page
  track_kernel_page-Grew p page k g =
      elim (Bool-cases (ltb (k.pcb p).mm.n_kernel_pages max_process_pages)) [
        | inl e ↦ rw e (set_pcb-Grew k0 p _ k refl refl g)
        | inr e ↦ rw e tt
      ]

  track_user_page-Grew :
      (p : Ptr) (page : UserPage) (k : Kernel)
      → Grew k0 k
      → IfReturned (Grew k0) (track_user_page p page k)
  unfolding track_user_page
  track_user_page-Grew p page k g =
      elim (Bool-cases (ltb (k.pcb p).mm.n_user_pages max_process_pages)) [
        | inl e ↦ rw e (set_pcb-Grew k0 p _ k refl refl g)
        | inr e ↦ rw e tt
      ]

  map_table-Grew :
      (table shift address : ℕ) (k : Kernel)
      → Grew k0 k
      → Grew k0 (map_table table shift address k).2
  unfolding map_table
  map_table-Grew table shift address k g =
      let page = get_free_page-Grew k0 k g in
      elim (Bool-cases (read_word k (entry_address table shift address) == 0)) [
        | inl e ↦ rw e (
            ram-Grew k0 _ _
              (zero_page-Grew k0 (get_free_page k).0 (get_free_page k).1 page.1 page.0))
        | inr e ↦ rw e g
      ]

  create_pgd-Grew : (p : Ptr) (k : Kernel) → Grew k0 k → IfReturned (Grew k0) (create_pgd p k)
  unfolding create_pgd
  create_pgd-Grew p k g =
      let page = get_free_page-Grew k0 k g in
      elim (Bool-cases ((k.pcb p).mm.pgd == 0)) [
        | inl e ↦ rw e (
            track_kernel_page-Grew p (get_free_page k).0 _ (
              zero_page-Grew k0 (get_free_page k).0 _ page.1
                (set_pcb-Grew k0 p _ (get_free_page k).1 refl refl page.0)))
        | inr e ↦ rw e g
      ]

  map_level-Grew :
      (p : Ptr) (table shift address : ℕ) (k : Kernel)
      → Grew k0 k
      → IfReturned (λ (next, k'). Grew k0 k') (map_level p table shift address k)
  unfolding map_level
  map_level-Grew p table shift address k g =
      let g1 = map_table-Grew table shift address k g in
      elim (Bool-cases ((map_table table shift address k).1)) [
        | inl e ↦ rw e (
            IfReturned-bind (Grew k0) (λ (next, k'). Grew k0 k') (track_kernel_page p _ _) _
              (track_kernel_page-Grew p _ _ g1) λ k2 g2. g2)
        | inr e ↦ rw e g1
      ]

  map_page-Grew :
      (p : Ptr) (address page : ℕ) (k : Kernel)
      → Grew k0 k
      → IfReturned (Grew k0) (map_page p address page k)
  unfolding map_page map_table_entry
  map_page-Grew p address page k g =
      IfReturned-bind (Grew k0) (Grew k0) (create_pgd p k) _ (create_pgd-Grew p k g) λ ka ga.
        IfReturned-bind (λ (next, k'). Grew k0 k') (Grew k0) (map_level p _ pgd_shift address ka) _
          (map_level-Grew p _ pgd_shift address ka ga)
          λ (pud, k1) g1.
            IfReturned-bind (λ (next, k'). Grew k0 k') (Grew k0)
              (map_level p pud pud_shift address k1) _
              (map_level-Grew p pud pud_shift address k1 g1)
              λ (pmd, k2) g2.
                IfReturned-bind (λ (next, k'). Grew k0 k') (Grew k0)
                  (map_level p pmd pmd_shift address k2) _
                  (map_level-Grew p pmd pmd_shift address k2 g2)
                  λ (pte, k3) g3. track_user_page-Grew p _ _ (ram-Grew k0 k3 _ g3)

  allocate_user_page-Grew :
      (p : Ptr) (address : ℕ) (k : Kernel)
      → Grew k0 k
      → IfReturned
          (λ (page, k'). Grew k0 k' × ((page == 0) ≡ false → Unguarded k0 (page - va_start)))
          (allocate_user_page p address k)
  unfolding allocate_user_page
  allocate_user_page-Grew p address k g =
      let page = get_free_page-Grew k0 k g in
      elim (Bool-cases ((get_free_page k).0 == 0)) [
        | inl e ↦ rw e (page.0, λ none. cc)
        | inr e ↦ rw e (
            IfReturned-bind (Grew k0) _ (map_page p address (get_free_page k).0 (get_free_page k).1)
              _ (map_page-Grew p address (get_free_page k).0 (get_free_page k).1 page.0)
              λ k2 g2. (g2, λ some_page a h same. page.1 a h (omega arith)))
      ]

  copy_user_pages-Grew :
      (n i : ℕ) (p : Ptr) (k : Kernel)
      → Grew k0 k
      → IfReturned (λ (code, k'). Grew k0 k') (copy_user_pages n i p k)
  unfolding copy_user_pages
  copy_user_pages-Grew zero i p k g = g
  copy_user_pages-Grew (suc n) i p k g =
      IfReturned-bind
        (λ (page, k'). Grew k0 k' × ((page == 0) ≡ false → Unguarded k0 (page - va_start)))
        (λ (code, k'). Grew k0 k') (allocate_user_page p _ k) _ (allocate_user_page-Grew p _ k g)
        λ (address, k1) g1. elim (Bool-cases (address == 0)) [
          | inl e ↦ rw e g1.0
          | inr e ↦ rw e (
              copy_user_pages-Grew n (i + 1) p _
                (ram-Grew k0 _ _ (zero_page-Grew k0 (address - va_start) k1 (g1.1 e) g1.0)))
        ]

  pub copy_virtual_memory-Grew :
      (p : Ptr) (k : Kernel)
      → Grew k0 k
      → IfReturned (λ (code, k'). Grew k0 k') (copy_virtual_memory p k)
  unfolding copy_virtual_memory
  copy_virtual_memory-Grew p k g =
      copy_user_pages-Grew (k.pcb k.current_process).mm.n_user_pages 0 p k g
