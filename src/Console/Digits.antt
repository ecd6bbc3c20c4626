-- ===== src/Console/Digits.antt =====
-- The printed numbers.
use demo_os.Base.{
  ◌⊎◌, ℕ, zero, suc, ◌+◌, ◌-◌, ◌*◌, ◌^◌, ◌<◌, ◌≤◌, ◌≡◌, refl, ◌∙◌, ap, Bool, true, false, ◌==◌,
  ◌||◌, leb, ltb, List, [], ◌∷◌, arith, inl, inr, Bool-cases, All,
}
use demo_os.Console.{count_divisor, print_digits, print_int}

-- The number that a text of decimal digits stands for, read from the left.
abbrev pub read_decimal : ℕ → List ℕ → ℕ
read_decimal value [] = value
read_decimal value (c ∷ cs) = read_decimal (value * 10 + (c - 48)) cs

-- The loop counts how often the divisor goes into the number.
count_divisor-divides :
    (fuel divisor num count : ℕ)
    → 0 < divisor
    → num < fuel * divisor
    → (count_divisor fuel divisor num count).1 < divisor
      × (num + count * divisor
          ≡ (count_divisor fuel divisor num count).0 * divisor
            + (count_divisor fuel divisor num count).1)
unfolding count_divisor
count_divisor-divides zero divisor num count positive enough = absurd (omega arith)
count_divisor-divides (suc fuel) divisor num count positive enough =
    elim (Bool-cases (leb divisor num)) [
      | inl more ↦
          let rest =
            count_divisor-divides fuel divisor (num - divisor) (count + 1) positive
              (ground arith) in
          rw more (rest.0, let e = rest.1 in ground arith)
      | inr done ↦ rw done (ground arith, omega arith)
    ]

abbrev pub IsDigit : ℕ → Type 0
IsDigit c = (48 ≤ c) × (c < 58)

-- The text reads as the number `n` behind the number `value`, and has only digits.
abbrev pub Reads : (value n : ℕ) → List ℕ → Type 0
Reads value n text = (read_decimal value text ≡ n) × All IsDigit text

shift :
    (value q r num D : ℕ)
    → num + 0 * D ≡ q * D + r
    → (value * 10 + (q + 48 - 48)) * D + r ≡ value * (10 * D) + num
shift value q r num D e = let same : q + 48 - 48 ≡ q = omega arith in rw same (ground arith)

skip :
    (value q r num D : ℕ)
    → value ≡ 0
    → q ≡ 0
    → num + 0 * D ≡ q * D + r
    → value * D + r ≡ value * (10 * D) + num
skip value q r num D v z e = rw v (let none_left : q * D ≡ 0 * D = ap (λ x. x * D) z in omega arith)

quotient_lt : (q r num D : ℕ) → num + 0 * D ≡ q * D + r → num < 10 * D → q < 10
quotient_lt q r num D e lt = elim (Bool-cases (ltb q 10)) [
  | inl few ↦ ground arith
  | inr many ↦
      let t : ℕ = q - 10 in
      let more : q ≡ 10 + t = ground arith in
      let e' : num + 0 * D ≡ (10 + t) * D + r = rw (← more) e in absurd (ground arith)
]

pow_suc : (d : ℕ) → 10 ^ suc d ≡ 10 * 10 ^ d
pow_suc d = omega arith

pow_pos : (d : ℕ) → 0 < 10 ^ d
pow_pos zero = omega arith
pow_pos (suc d) = ground (arith, pow_suc d, pow_pos d)

print_digits-Reads :
    (d num value : ℕ) (started : Bool)
    → num < 10 ^ d
    → (started ≡ true) ⊎ (value ≡ 0)
    → Reads value (value * 10 ^ d + num) (print_digits 10 d num started)
unfolding print_digits
print_digits-Reads zero num value started lt h = (omega arith, tt)
print_digits-Reads (suc d) num value started lt h =
    let q : ℕ = (count_divisor 10 (10 ^ d) num 0).0 in
    let r : ℕ = (count_divisor 10 (10 ^ d) num 0).1 in
    let lt' : num < 10 * 10 ^ d = rw (← pow_suc d) lt in
    let split = count_divisor-divides 10 (10 ^ d) num 0 (pow_pos d) lt' in
    elim (Bool-cases (ltb 0 q || started)) [
      | inl printed ↦
          let rest = print_digits-Reads d r (value * 10 + (q + 48 - 48)) true split.0 (inl refl) in
          let few = quotient_lt q r num (10 ^ d) split.1 lt' in
          rw (printed, pow_suc d)
            (rest.0 ∙ shift value q r num (10 ^ d) split.1, ((omega arith, omega arith), rest.1))
      | inr skipped ↦
          let none_yet : value ≡ 0 = ground arith in
          let rest = print_digits-Reads d r value false split.0 (inr none_yet) in
          rw (skipped, pow_suc d)
            (rest.0 ∙ skip value q r num (10 ^ d) none_yet (ground arith) split.1, rest.1)
    ]

-- A number below ten billion is printed by print_int, with ten subtractions for each divisor as
-- fuel, in decimal digits only, and they read as the number.
pub print_int-Reads : (num : ℕ) → num < 10 ^ 10 → Reads 0 num (print_int 10 num)
unfolding print_int
print_int-Reads num lt = elim (Bool-cases (num == 0)) [
  | inl e ↦ let same : num ≡ 0 = ground arith in rw same (refl, ((omega arith, omega arith), tt))
  | inr e ↦
      rw e (let r = print_digits-Reads 10 num 0 false lt (inr refl) in (r.0 ∙ omega arith, r.1))
]
