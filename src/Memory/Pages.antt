-- ===== src/Memory/Pages.antt =====
-- The allocation of physical pages: the first free page, its marking and its release.
use demo_os.Base.{
  ℕ, zero, suc, ◌+◌, ◌<◌, ◌≤◌, ◌≡◌, ◌≢◌, refl, ◌==◌, Option, none, some, arith, inl, inr, ◌⊎◌,
  Bool-cases, ==-refl, ==_of_ne, sym, Returns, returns,
}
use demo_os.Base.Int.{pos}
use demo_os.Kernel.{Kernel}
use demo_os.Memory.{
  va_start, n_pages, zero_page, mark_page, page_address, find_free, get_free_page, free_page,
}

-- What the scan of the pages `i` to `i + n` finds.
pub data FirstFree (n i : ℕ) (pages : ℕ → ℕ) : Option ℕ → Type 0 where
  all_used : ((j : ℕ) → i ≤ j → j < i + n → pages j ≢ 0) → FirstFree n i pages none
  first_free :
      (m : ℕ)
      → i ≤ m
      → m < i + n
      → pages m ≡ 0
      → ((j : ℕ) → i ≤ j → j < m → pages j ≢ 0)
      → FirstFree n i pages (some m)

find_free-skip :
    (n i : ℕ) (pages : ℕ → ℕ) (o : Option ℕ)
    → pages i ≢ 0
    → FirstFree n (i + 1) pages o
    → FirstFree (suc n) i pages o
find_free-skip n i pages none used (all_used h) = all_used (λ j lo hi. elim (Bool-cases (j == i)) [
  | inl e ↦ let same : j ≡ i = ground arith in rw same used
  | inr e ↦ h j (ground arith) (ground arith)
])
find_free-skip n i pages (some _) used (first_free m lo hi e h) =
    first_free m (omega arith) (omega arith) e (λ j lo' hi'. elim (Bool-cases (j == i)) [
      | inl e ↦ let same : j ≡ i = ground arith in rw same used
      | inr e ↦ h j (ground arith) (ground arith)
    ])

pub find_free-FirstFree : (n i : ℕ) (pages : ℕ → ℕ) → FirstFree n i pages (find_free n i pages)
unfolding find_free
find_free-FirstFree zero i pages = all_used (λ j lo hi. absurd (omega arith))
find_free-FirstFree (suc n) i pages = elim (Bool-cases (pages i == 0)) [
  | inl e ↦
      rw (e, find_free)
        (first_free i (omega arith) (omega arith) (ground arith) (λ j lo hi. absurd (omega arith)))
  | inr e ↦
      rw (e, find_free)
        (find_free-skip n i pages (find_free n (i + 1) pages) (ground arith)
          (find_free-FirstFree n (i + 1) pages))
]

-- An allocation: none is left and nothing changes, or the lowest free page, which is then in use and
-- full of zeros; no other page's mark and no word outside the page changes.
pub data Allocated (k : Kernel) : ℕ × Kernel → Type 0 where
  exhausted : ((j : ℕ) → j < n_pages → k.memory.memory_pages j ≢ 0) → Allocated k (0, k)
  allocated :
      {k' : Kernel}
      → (i : ℕ) → i < n_pages
      → k.memory.memory_pages i ≡ 0
      → ((j : ℕ) → j < i → k.memory.memory_pages j ≢ 0)
      → k'.memory.memory_pages i ≢ 0
      → ((j : ℕ) → j ≢ i → k'.memory.memory_pages j ≡ k.memory.memory_pages j)
      → ((a : ℕ) → page_address i ≤ a → a < page_address (i + 1) → k'.memory.ram a ≡ 0)
      → ((a : ℕ)
          → (a < page_address i) ⊎ (page_address (i + 1) ≤ a)
          → k'.memory.ram a ≡ k.memory.ram a)
      → Allocated k (page_address i, k')

-- The allocator returns the lowest free page, marks it used and fills it with zeros, and
-- changes neither the mark of another page nor a word outside the page; it returns 0, with
-- nothing changed, only if no page is free.
pub get_free_page-Allocated : (k : Kernel) → Allocated k (get_free_page k)
unfolding get_free_page
get_free_page-Allocated k =
    go (find_free n_pages 0 k.memory.memory_pages)
      (find_free-FirstFree n_pages 0 k.memory.memory_pages)
  where
    go :
        (o : Option ℕ)
        → FirstFree n_pages 0 k.memory.memory_pages o
        → Allocated k (elim o [
          | none ↦ (0, k)
          | some i ↦ (page_address i, zero_page (page_address i) (mark_page i 1 k))
        ])
    go none (all_used h) = exhausted (λ j hi. h j (omega arith) (ground arith))
    go (some _) (first_free m lo hi e h) =
        allocated m (ground arith) e (λ j l. h j (omega arith) l)
          (rw (==-refl m) (λ e. absurd (omega arith)))
          (λ j ne. rw (==_of_ne m j (λ same. ne (sym same))) refl) (λ a lo' hi'. ground arith)
          (λ a out. ground arith)

-- The release of page `i`: it succeeds, marks the page free, fills it with zeros and touches no other
-- page's mark.
pub record Released (i : ℕ) (k k' : Kernel) : Type 0 where
  pub free : k'.memory.memory_pages i ≡ 0
  pub others : (j : ℕ) → j ≢ i → k'.memory.memory_pages j ≡ k.memory.memory_pages j
  pub zeros : (a : ℕ) → page_address i ≤ a → a < page_address (i + 1) → k'.memory.ram a ≡ 0

pub free_page-marked :
    (i : ℕ) (k : Kernel)
    → i < n_pages
    → free_page (page_address i + va_start) k
      ≡ some (pos 0, mark_page i 0 (zero_page (page_address i) k))
unfolding free_page
free_page-marked i k hi = ground arith

-- The release of a page of the allocator, given by its kernel address, succeeds, marks the page
-- free, fills it with zeros, and changes the mark of no other page.
pub free_page-Released :
    (i : ℕ) (k : Kernel)
    → i < n_pages
    → Returns
        (λ (code, k'). (code ≡ pos 0) × Released i k k')
        (free_page (page_address i + va_start) k)
free_page-Released i k hi = rw (free_page-marked i k hi) (
    returns (
      refl,
      record {
        free = rw (==-refl i) refl;
        others = λ j ne. rw (==_of_ne i j (λ same. ne (sym same))) refl;
        zeros = λ a lo hi. ground arith;
      },
    ))
