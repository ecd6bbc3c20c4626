-- ===== src/Base/Lists.antt =====
-- Lists measured and indexed by native numbers, under the library's names, and membership tests.
use Prim.Native.Nat.{ℕ, zero, suc, ◌+◌, ◌<◌}
use mathlib.Core.Path.{◌≡◌, refl, ap}
use mathlib.Core.Logic.{◌≢◌}
use mathlib.Core.Bool.{Bool, true, false, ◌||◌}
use mathlib.Core.List.{List, [], ◌∷◌, ◌++◌}
use native.Mathlib.Omega.{arith}
use demo_os.Base.Tests.{◌==◌}

module _ {ℓ} {A : Type ℓ} where
  abbrev pub length : List A → ℕ
  length [] = 0
  length (x ∷ xs) = suc (length xs)

  abbrev pub get_or : List A → ℕ → A → A
  get_or [] i d = d
  get_or (x ∷ xs) zero d = x
  get_or (x ∷ xs) (suc i) d = get_or xs i d

  abbrev pub take : ℕ → List A → List A
  take zero xs = []
  take (suc n) [] = []
  take (suc n) (x ∷ xs) = x ∷ take n xs

  abbrev pub drop : ℕ → List A → List A
  drop zero xs = xs
  drop (suc n) [] = []
  drop (suc n) (x ∷ xs) = drop n xs

  -- A write out of bounds changes nothing.
  abbrev pub set : List A → ℕ → A → List A
  set [] i v = []
  set (x ∷ xs) zero v = v ∷ xs
  set (x ∷ xs) (suc i) v = x ∷ set xs i v

  abbrev pub replicate : ℕ → A → List A
  replicate zero a = []
  replicate (suc n) a = a ∷ replicate n a

  abbrev pub All {κ} : (A → Type κ) → List A → Type κ
  All P [] = Unit
  All P (x ∷ xs) = P x × All P xs

module _ {ℓ} {A : Type ℓ} where
  pub length-append : (xs ys : List A) → length (xs ++ ys) ≡ length xs + length ys
  length-append [] ys = omega arith
  length-append (x ∷ xs) ys = omega (arith, length-append xs ys)

  pub length-set : (xs : List A) (i : ℕ) (v : A) → length (set xs i v) ≡ length xs
  length-set [] i v = refl
  length-set (x ∷ xs) zero v = refl
  length-set (x ∷ xs) (suc i) v = ap suc (length-set xs i v)

  pub get_or-set_self :
      (xs : List A) (i : ℕ) (v d : A) → i < length xs → get_or (set xs i v) i d ≡ v
  get_or-set_self [] i v d h = elim h [ ]
  get_or-set_self (x ∷ xs) zero v d h = refl
  get_or-set_self (x ∷ xs) (suc i) v d h = get_or-set_self xs i v d (omega arith)

  pub get_or-set_ne :
      (xs : List A) {i j : ℕ} (v d : A) → i ≢ j → get_or (set xs i v) j d ≡ get_or xs j d
  get_or-set_ne [] v d h = refl
  get_or-set_ne (x ∷ xs) {i = zero} {j = zero} v d h = absurd (h refl)
  get_or-set_ne (x ∷ xs) {i = zero} {j = suc j} v d h = refl
  get_or-set_ne (x ∷ xs) {i = suc i} {j = zero} v d h = refl
  get_or-set_ne (x ∷ xs) {i = suc i} {j = suc j} v d h = get_or-set_ne xs v d (λ e. h (ap suc e))

  pub All-append {κ} : (P : A → Type κ) (xs ys : List A) → All P xs → All P ys → All P (xs ++ ys)
  All-append P [] ys p q = q
  All-append P (x ∷ xs) ys p q = (p.0, All-append P xs ys p.1 q)

-- Membership of a number in a list, as a test.
abbrev pub has : ℕ → List ℕ → Bool
has a [] = false
has a (x ∷ xs) = (a == x) || has a xs

infix 40 ◌∈◌ ◌∉◌
abbrev pub ◌∈◌ : ℕ → List ℕ → Type 0
a ∈ xs = has a xs ≡ true

abbrev pub ◌∉◌ : ℕ → List ℕ → Type 0
a ∉ xs = has a xs ≡ false

pub has-append : (a : ℕ) (xs ys : List ℕ) → has a (xs ++ ys) ≡ (has a xs || has a ys)
has-append a [] ys = refl
has-append a (x ∷ xs) ys = ground (arith, has-append a xs ys)

-- The first element, or the default of an empty list, and the others.
abbrev pub first_or : ℕ → List ℕ → ℕ
first_or d [] = d
first_or d (x ∷ xs) = x

abbrev pub rest_of : List ℕ → List ℕ
rest_of [] = []
rest_of (x ∷ xs) = xs

-- The last element, or the default of an empty list.
abbrev pub last_or : ℕ → List ℕ → ℕ
last_or d [] = d
last_or d (x ∷ xs) = last_or x xs

pub last_or-append : (d : ℕ) (xs : List ℕ) (x : ℕ) → last_or d (xs ++ (x ∷ [])) ≡ x
last_or-append d [] x = refl
last_or-append d (y ∷ xs) x = last_or-append y xs x

pub last_or-mem : (x : ℕ) (xs : List ℕ) → last_or x xs ∈ x ∷ xs
last_or-mem x [] = ground arith
last_or-mem x (y ∷ xs) = ground (arith, last_or-mem y xs)

pub last_or-append_cons :
    (d : ℕ) (xs : List ℕ) (y : ℕ) (ys : List ℕ) → last_or d (xs ++ (y ∷ ys)) ≡ last_or y ys
last_or-append_cons d [] y ys = refl
last_or-append_cons d (x ∷ xs) y ys = last_or-append_cons x xs y ys

-- No element twice.
abbrev pub Distinct : List ℕ → Type 0
Distinct [] = Unit
Distinct (x ∷ xs) = (x ∉ xs) × Distinct xs

pub Distinct-snoc : (xs : List ℕ) (y : ℕ) → Distinct xs → y ∉ xs → Distinct (xs ++ (y ∷ []))
Distinct-snoc [] y d out = (refl, tt)
Distinct-snoc (x ∷ xs) y d out =
    (ground (arith, has-append x xs (y ∷ [])), Distinct-snoc xs y d.1 (ground arith))

pub not_mem-append : (a : ℕ) (xs ys : List ℕ) → a ∉ xs → a ∉ ys → a ∉ xs ++ ys
not_mem-append a xs ys p q = ground (arith, has-append a xs ys)

pub ne_of_mem : (a b : ℕ) (xs : List ℕ) → a ∈ xs → b ∉ xs → a ≢ b
ne_of_mem a b xs i o e = cc (ap (λ c. has c xs) e)

pub Distinct-insert :
    (xs : List ℕ) (y : ℕ) (ys : List ℕ)
    → Distinct (xs ++ ys)
    → y ∉ xs ++ ys
    → Distinct (xs ++ (y ∷ ys))
Distinct-insert [] y ys d out = (out, d)
Distinct-insert (x ∷ xs) y ys d out = (
  ground (arith, has-append x xs (y ∷ ys), has-append x xs ys),
  Distinct-insert xs y ys d.1 (ground arith),
)

pub Distinct-remove :
    (xs : List ℕ) (y : ℕ) (ys : List ℕ) → Distinct (xs ++ (y ∷ ys)) → Distinct (xs ++ ys)
Distinct-remove [] y ys d = d.1
Distinct-remove (x ∷ xs) y ys d =
    (ground (arith, has-append x xs (y ∷ ys), has-append x xs ys), Distinct-remove xs y ys d.1)

pub not_mem_of_distinct :
    (xs : List ℕ) (y : ℕ) (ys : List ℕ) → Distinct (xs ++ (y ∷ ys)) → y ∉ xs ++ ys
not_mem_of_distinct [] y ys d = d.0
not_mem_of_distinct (x ∷ xs) y ys d =
    ground (arith, has-append x xs (y ∷ ys), not_mem_of_distinct xs y ys)

pub Distinct-left : (xs ys : List ℕ) → Distinct (xs ++ ys) → Distinct xs
Distinct-left [] ys d = tt
Distinct-left (x ∷ xs) ys d = (ground (arith, has-append x xs ys), Distinct-left xs ys d.1)

pub Distinct-right : (xs ys : List ℕ) → Distinct (xs ++ ys) → Distinct ys
Distinct-right [] ys d = d
Distinct-right (x ∷ xs) ys d = Distinct-right xs ys d.1

pub not_mem-right : (a : ℕ) (xs ys : List ℕ) → Distinct (xs ++ ys) → a ∈ xs → a ∉ ys
not_mem-right a [] ys d i = cc
not_mem-right a (x ∷ xs) ys d i =
    ground (arith, has-append x xs ys, has-append a xs ys, not_mem-right a xs ys d.1)
