-- ===== src/Text/Compare.antt =====
-- The comparison of strings.
use demo_os.Base.{ℕ, zero, suc, ◌+◌, ◌<◌, ◌≤◌, ◌≡◌, ◌↔◌, refl, ◌==◌, arith, inl, inr, Bool-cases}
use demo_os.Text.{Chars, strcmp_from, strcmp}

strcmp_from_iff :
    (n i : ℕ) (mem : Chars) (src1 src2 : ℕ)
    → (strcmp_from n i mem src1 src2 ≡ 0)
      ↔ ((j : ℕ) → i ≤ j → j < i + n → mem (src1 + j) ≡ mem (src2 + j))
unfolding strcmp_from
strcmp_from_iff zero i mem src1 src2 = (λ e j lo hi. absurd (omega arith), λ h. refl)
strcmp_from_iff (suc n) i mem src1 src2 =
    let rest = strcmp_from_iff n (i + 1) mem src1 src2 in
    elim (Bool-cases (mem (src1 + i) == mem (src2 + i))) [
      | inl same ↦ (
        rw same (λ e j lo hi. elim (Bool-cases (j == i)) [
          | inl at ↦ let here : j ≡ i = ground arith in rw here (ground arith)
          | inr at ↦ rest.0 e j (ground arith) (ground arith)
        ]),
        λ h. rw same (rest.1 (λ j lo hi. h j (omega arith) (omega arith))),
      )
      | inr differ ↦ (
        rw differ (λ e. absurd (omega arith)),
        λ h. absurd (let same = h i (omega arith) (omega arith) in ground arith),
      )
    ]

-- strcmp gives 0 exactly if the two strings agree in as many characters as it is asked to
-- compare.
pub strcmp_iff :
    (mem : Chars) (src1 src2 size : ℕ)
    → (strcmp mem src1 src2 size ≡ 0) ↔ ((j : ℕ) → j < size → mem (src1 + j) ≡ mem (src2 + j))
unfolding strcmp
strcmp_iff mem src1 src2 size =
    let all = strcmp_from_iff size 0 mem src1 src2 in
    (λ e j hi. all.0 e j (omega arith) (omega arith), λ h. all.1 (λ j lo hi. h j (omega arith)))
