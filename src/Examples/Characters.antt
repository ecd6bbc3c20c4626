-- ===== src/Examples/Characters.antt =====
-- Strings, the receive ring and printed numbers at concrete memories.
use demo_os.Base.{ℕ, ◌+◌, ◌≡◌, ◌↔◌, ◌<◌, List, [], ◌∷◌, update, refl, arith, Returns}
use demo_os.Text.{Chars, strcat, strcmp}
use demo_os.Text.Copy.{IsString, Concatenated, strcat-Concatenated}
use demo_os.Text.Compare.{strcmp_iff}
use demo_os.Console.{Uart, receive_char, print_int}
use demo_os.Console.Ring.{Holds, Received, receive_char-Received}
use demo_os.Console.Digits.{Reads, print_int-Reads}

-- "hi" at 100 and "!" at 200.
abbrev chars : Chars
chars = update (update (update (λ _. 0) 100 104) 101 105) 200 33

abbrev hi : List ℕ
hi = 104 ∷ 105 ∷ []

hi-IsString : IsString chars 100 hi
hi-IsString = (refl, omega arith, (refl, omega arith, refl))

mark-IsString : IsString chars 200 (33 ∷ [])
mark-IsString = (refl, omega arith, refl)

strcat-Concatenated_example : Returns (Concatenated 100 hi (33 ∷ []) chars) (strcat 3 100 200 chars)
strcat-Concatenated_example =
    strcat-Concatenated 3 100 200 chars hi (33 ∷ []) hi-IsString mark-IsString (ground arith)
      (omega arith) (omega arith)

strcmp_iff_example :
    (strcmp chars 100 200 2 ≡ 0) ↔ ((j : ℕ) → j < 2 → chars (100 + j) ≡ chars (200 + j))
strcmp_iff_example = strcmp_iff chars 100 200 2

-- A ring with one character in its last cell.
abbrev wrapped : Uart
wrapped = record { uart_buffer = update (λ _. 0) 63 104; uart_head = 0; uart_tail = 63 }

wrapped-Holds : Holds wrapped (104 ∷ [])
wrapped-Holds = record {
  tail_in = omega arith;
  head_at = refl;
  fits = omega arith;
  stands = (refl, tt);
}

receive_char-Received_example : Received wrapped (104 ∷ []) 105 (receive_char 105 wrapped)
receive_char-Received_example = receive_char-Received 105 wrapped (104 ∷ []) wrapped-Holds

print_int-Reads_example : Reads 0 1203 (print_int 10 1203)
print_int-Reads_example = print_int-Reads 1203 (omega arith)
