-- ===== src/Console/Ring.antt =====
-- The receive ring as a queue of characters.
use demo_os.Base.{
  Option, none, some, ℕ, ◌+◌, ◌%◌, ◌<◌, ◌≡◌, ◌≢◌, refl, true, false, ◌==◌, ltb, update, none, List,
  [], ◌∷◌, ◌++◌, length, arith, inl, inr, Bool-cases, ==-refl, ==_of_ne,
}
use demo_os.Console.{Uart, uart_buffer_size, receive_char, take_char}

-- The characters stand from index `i` on, around the end of the ring.
abbrev pub Stands : (ℕ → ℕ) → ℕ → List ℕ → Type 0
Stands buffer i [] = Unit
Stands buffer i (c ∷ cs) = (buffer i ≡ c) × Stands buffer ((i + 1) % uart_buffer_size) cs

-- The ring holds the characters, oldest first.
pub record Holds (u : Uart) (cs : List ℕ) : Type 0 where
  pub tail_in : u.uart_tail < uart_buffer_size
  pub head_at : u.uart_head ≡ (u.uart_tail + length cs) % uart_buffer_size
  pub fits : length cs < uart_buffer_size
  pub stands : Stands u.uart_buffer u.uart_tail cs

Stands-at :
    (buffer : ℕ → ℕ) (c a b i : ℕ) (cs : List ℕ)
    → a ≡ b
    → Stands (update buffer b c) i cs
    → Stands (update buffer a c) i cs
Stands-at buffer c a b i cs e s = rw e s

Stands-snoc :
    (buffer : ℕ → ℕ) (i : ℕ) (cs : List ℕ) (c : ℕ)
    → i < uart_buffer_size
    → length cs < uart_buffer_size
    → Stands buffer i cs
    → Stands (update buffer ((i + length cs) % uart_buffer_size) c) i (cs ++ (c ∷ []))
Stands-snoc buffer i [] c hi fits s =
    let here : (i + 0) % uart_buffer_size ≡ i = omega arith in rw (here, ==-refl i) (refl, tt)
Stands-snoc buffer i (x ∷ cs) c hi fits s =
    let j : ℕ = (i + length (x ∷ cs)) % uart_buffer_size in
    let next : ℕ = (i + 1) % uart_buffer_size in
    let same : j ≡ (next + length cs) % uart_buffer_size = omega arith in
    let apart : j ≢ i = omega arith in
    (
      rw (==_of_ne j i apart) s.0,
      Stands-at buffer c j ((next + length cs) % uart_buffer_size) next (cs ++ (c ∷ [])) same
          (Stands-snoc buffer next cs c (omega arith) (omega arith) s.1),
    )

-- A received character is appended to the ring if it holds fewer than 63, and else lost.
pub data Received (u : Uart) (cs : List ℕ) (c : ℕ) : Uart → Type 0 where
  lost : length cs ≡ 63 → Received u cs c u
  appended : {u' : Uart} → length cs < 63 → Holds u' (cs ++ (c ∷ [])) → Received u cs c u'

length-snoc : (cs : List ℕ) (c : ℕ) → length (cs ++ (c ∷ [])) ≡ length cs + 1
length-snoc [] c = refl
length-snoc (x ∷ cs) c = rw (length-snoc cs c) (omega arith)

-- A character received by the UART goes behind the characters that the ring holds, and is lost
-- exactly if the ring holds 63.
pub receive_char-Received :
    (c : ℕ) (u : Uart) (cs : List ℕ) → Holds u cs → Received u cs c (receive_char c u)
unfolding receive_char
receive_char-Received c u cs h = elim (Bool-cases (ltb (length cs) 63)) [
  | inl room ↦
      let open_end : ((u.uart_head + 1) % uart_buffer_size == u.uart_tail) ≡ false =
        ground (arith, h.head_at, h.tail_in) in
      rw open_end (
        appended (ground arith) (record {
          tail_in = h.tail_in;
          head_at = rw (length-snoc cs c) (let at = h.head_at in omega arith);
          fits = rw (length-snoc cs c) (ground arith);
          stands =
              rw (h.head_at) (Stands-snoc u.uart_buffer u.uart_tail cs c h.tail_in h.fits h.stands);
        }))
  | inr none_left ↦
      let last : length cs ≡ 63 = ground (arith, h.fits) in
      let closed : ((u.uart_head + 1) % uart_buffer_size == u.uart_tail) ≡ true =
        ground (arith, h.head_at, h.tail_in) in
      rw closed (lost last)
]

-- What the reader of a ring gets.
pub data Taken : List ℕ → Option (ℕ × Uart) → Type 0 where
  nothing : Taken [] none
  taken : {c : ℕ} {cs : List ℕ} {u' : Uart} → Holds u' cs → Taken (c ∷ cs) (some (c, u'))

-- The reader of the UART ring takes the oldest of the characters that it holds and leaves the
-- others, and finds nothing exactly if it holds none.
pub take_char-Taken : (u : Uart) (cs : List ℕ) → Holds u cs → Taken cs (take_char u)
unfolding take_char
take_char-Taken u [] h =
    let at = h.head_at in
    let lt = h.tail_in in let e : (u.uart_tail == u.uart_head) ≡ true = ground arith in rw e nothing
take_char-Taken u (c ∷ cs) h =
    let at = h.head_at in
    let lt = h.tail_in in
    let few = h.fits in
    let e : (u.uart_tail == u.uart_head) ≡ false = ground arith in
    rw (e, h.stands.0)
      (taken (record {
        tail_in = omega arith;
        head_at = omega arith;
        fits = omega arith;
        stands = h.stands.1;
      }))
