-- ===== src/Queue/Sorted/Place.antt =====
-- The place of a process in a sorted list, and the walk that finds it.
use demo_os.Base.{
  ℕ, zero, suc, ◌<◌, ◌≤◌, ◌≡◌, refl, ap, false, some, List, [], ◌∷◌, ◌++◌, arith, has, ◌∈◌, last_or,
  if◌then◌else◌, ◌==◌, ltb, length, Bool-cases, inl, inr,
}
use demo_os.Process.{Ptr, null, Store}
use demo_os.Queue.{sorted_position}
use demo_os.Queue.Chain.{Seg}

-- The specification: before the first longer element, so behind those that are as long.
unfoldable pub insert_by : (Ptr → ℕ) → Ptr → List Ptr → List Ptr
insert_by key p [] = p ∷ []
insert_by key p (x ∷ xs) = if ltb (key p) (key x) then p ∷ x ∷ xs else x ∷ insert_by key p xs

-- Ascending keys.
abbrev pub IsSorted : (Ptr → ℕ) → List Ptr → Type 0
IsSorted key [] = Unit
IsSorted key (x ∷ []) = Unit
IsSorted key (x ∷ (y ∷ xs)) = (key x ≤ key y) × IsSorted key (y ∷ xs)

pub insert_by-IsSorted :
    (key : Ptr → ℕ) (p : Ptr) (xs : List Ptr) → IsSorted key xs → IsSorted key (insert_by key p xs)
unfolding insert_by
insert_by-IsSorted key p [] s = tt
insert_by-IsSorted key p (x ∷ []) s = ground arith
insert_by-IsSorted key p (x ∷ (y ∷ xs)) s = ground (arith, insert_by-IsSorted key p (y ∷ xs))

-- The elements before and behind the place of insertion.
pub front : (Ptr → ℕ) → ℕ → List Ptr → List Ptr
front key b [] = []
front key b (x ∷ xs) = if ltb b (key x) then [] else x ∷ front key b xs

pub back : (Ptr → ℕ) → ℕ → List Ptr → List Ptr
back key b [] = []
back key b (x ∷ xs) = if ltb b (key x) then x ∷ xs else back key b xs

pub front-append-back :
    (key : Ptr → ℕ) (b : ℕ) (xs : List Ptr) → front key b xs ++ back key b xs ≡ xs
unfolding front back
front-append-back key b [] = refl
front-append-back key b (x ∷ xs) = elim (Bool-cases (ltb b (key x))) [
  | inl e ↦ rw e
  | inr e ↦ rw e (ap (λ ys. x ∷ ys) (front-append-back key b xs))
]

pub insert_by-front :
    (key : Ptr → ℕ) (p : Ptr) (xs : List Ptr)
    → insert_by key p xs ≡ front key (key p) xs ++ (p ∷ back key (key p) xs)
unfolding insert_by front back
insert_by-front key p [] = refl
insert_by-front key p (x ∷ xs) = elim (Bool-cases (ltb (key p) (key x))) [
  | inl e ↦ rw e
  | inr e ↦ rw e (ap (λ ys. x ∷ ys) (insert_by-front key p xs))
]

-- The walk ends at the last node of the front part, within the fuel.
pub sorted_position-front :
    (fuel : ℕ) (h : Store) (key : Ptr → ℕ) (b p x : Ptr) (xs : List Ptr)
    → Seg h p (x ∷ xs) null
    → ((a : Ptr) → a ∈ x ∷ xs → (h a).est_burst ≡ key a)
    → length xs < fuel
    → sorted_position fuel h b x ≡ some (last_or x (front key b xs))
unfolding sorted_position front
sorted_position-front zero h key b p x xs c same l = elim l [ ]
sorted_position-front (suc fuel) h key b p x [] c same l = rw c.2
sorted_position-front (suc fuel) h key b p x (y ∷ xs) c same l =
    rw (c.2.0, not_null, same y (ground arith))
      (elim (Bool-cases (ltb b (key y))) [
        | inl e ↦ rw e
        | inr e ↦ rw e (
            sorted_position-front fuel h key b (h x).next_ready y xs c.2
              (λ a i. same a (ground arith)) (omega arith))
      ])
  where
    not_null : (y == null) ≡ false
    not_null = ground (arith, c.2.1)

pub has-insert_by :
    (key : Ptr → ℕ) (p a : Ptr) (xs : List Ptr) → has a (insert_by key p xs) ≡ has a (p ∷ xs)
unfolding insert_by
has-insert_by key p a [] = refl
has-insert_by key p a (x ∷ xs) = ground (arith, has-insert_by key p a xs)

pub length-insert_by :
    (key : Ptr → ℕ) (p : Ptr) (xs : List Ptr) → length (insert_by key p xs) ≡ suc (length xs)
unfolding insert_by
length-insert_by key p [] = refl
length-insert_by key p (x ∷ xs) = ground (arith, length-insert_by key p xs)
