-- ===== src/Memory/Taking.antt =====
-- An allocation from a memory with a free page, as an equation.
use demo_os.Base.{ℕ, ◌+◌, ◌<◌, ◌≡◌, refl, false, ◌==◌, Option, none, some, arith}
use demo_os.Kernel.{Kernel}
use demo_os.Memory.{
  va_start, n_pages, page_address, zero_page, mark_page, get_free_page, find_free,
  allocate_kernel_page,
}
use demo_os.Memory.Pages.{FirstFree, find_free-FirstFree}

-- An allocation that succeeds.
pub record Takes (k : Kernel) : Type 0 where
  pub index : ℕ
  pub in_range : index < n_pages
  pub was_free : k.memory.memory_pages index ≡ 0
  pub takes :
      allocate_kernel_page k
      ≡ (page_address index + va_start, zero_page (page_address index) (mark_page index 1 k))

get_found :
    (m : ℕ) (k : Kernel)
    → find_free n_pages 0 k.memory.memory_pages ≡ some m
    → get_free_page k ≡ (page_address m, zero_page (page_address m) (mark_page m 1 k))
unfolding get_free_page
get_found m k e = rw (e, get_free_page) refl

allocate_found :
    (m : ℕ) (k : Kernel)
    → get_free_page k ≡ (page_address m, zero_page (page_address m) (mark_page m 1 k))
    → allocate_kernel_page k
      ≡ (page_address m + va_start, zero_page (page_address m) (mark_page m 1 k))
unfolding allocate_kernel_page
allocate_found m k e =
    let some_page : (page_address m == 0) ≡ false = ground arith in rw (e, some_page) refl

Takes-found :
    (k : Kernel) (o : Option ℕ) (j : ℕ)
    → j < n_pages
    → k.memory.memory_pages j ≡ 0
    → find_free n_pages 0 k.memory.memory_pages ≡ o
    → FirstFree n_pages 0 k.memory.memory_pages o
    → Takes k
Takes-found k none j hi free e (FirstFree.all_used h) =
    absurd (h j (omega arith) (omega arith) free)
Takes-found k (some _) j hi free e (FirstFree.first_free m lo hi' was before) = record {
  index = m;
  in_range = omega arith;
  was_free = was;
  takes = allocate_found m k (get_found m k e);
}

pub allocate-Takes : (k : Kernel) (j : ℕ) → j < n_pages → k.memory.memory_pages j ≡ 0 → Takes k
allocate-Takes k j hi free =
    Takes-found k (find_free n_pages 0 k.memory.memory_pages) j hi free refl
      (find_free-FirstFree n_pages 0 k.memory.memory_pages)
