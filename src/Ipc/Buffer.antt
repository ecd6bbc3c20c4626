-- ===== src/Ipc/Buffer.antt =====
-- The message buffer against a queue of messages.
use demo_os.Base.{
  ℕ, zero, suc, ◌+◌, ◌<◌, ◌≤◌, ◌≡◌, refl, sym, ap, ap₂, ◌∙◌, true, false, ltb, ◌==◌, List, [], ◌∷◌,
  ◌++◌, arith, length, set, get_or, Bool-cases, inl, inr, length-set, get_or-set_self,
  get_or-set_ne, length-append,
}
use demo_os.Process.{max_messages_per_process, Message, MessagesCircularBuffer, zero_message}
use demo_os.Ipc.{Push, full, overrun, pushed, Pop, empty, overread, popped, push_buffer, pop_buffer}

-- The `n` cells from index `i` on.
abbrev pub cells : List Message → ℕ → ℕ → List Message
cells buffer i zero = []
cells buffer i (suc n) = get_or buffer i zero_message ∷ cells buffer (i + 1) n

-- The buffer holds `xs`, oldest first, and has not wrapped: `head` counts the messages that were
-- ever pushed.
pub record Holds (b : MessagesCircularBuffer) (xs : List Message) : Type 0 where
  pub size : length b.buffer ≡ max_messages_per_process
  pub in_bounds : b.head ≤ max_messages_per_process
  pub count : b.head ≡ b.tail + length xs
  pub contents : cells b.buffer b.tail (length xs) ≡ xs

cells-set :
    (buffer : List Message) (m : Message) (n i j : ℕ)
    → i + n ≤ j
    → cells (set buffer j m) i n ≡ cells buffer i n
cells-set buffer m zero i j h = refl
cells-set buffer m (suc n) i j h =
    ap₂ ◌∷◌ (get_or-set_ne buffer m zero_message (λ e. absurd (omega arith)))
      (cells-set buffer m n (i + 1) j (omega arith))

cells-snoc :
    (buffer : List Message) (n i j : ℕ)
    → i + n ≡ j
    → cells buffer i (suc n) ≡ cells buffer i n ++ (get_or buffer j zero_message ∷ [])
cells-snoc buffer zero i j h = let e : i ≡ j = omega arith in rw e
cells-snoc buffer (suc n) i j h =
    ap (λ ys. get_or buffer i zero_message ∷ ys) (cells-snoc buffer n (i + 1) j (omega arith))

-- What a push into a buffer that holds `xs` comes to, and with what the buffer is left.
abbrev pub PushSpec : MessagesCircularBuffer → List Message → Message → Push → Type 0
PushSpec b xs m full = length xs ≡ max_messages_per_process
PushSpec b xs m overrun =
    (b.head ≡ max_messages_per_process) × (length xs < max_messages_per_process)
PushSpec b xs m (pushed b') = (b.head < max_messages_per_process) × Holds b' (xs ++ (m ∷ []))

abbrev pub PopSpec : List Message → Pop → Type 0
PopSpec xs empty = xs ≡ []
PopSpec xs overread = ⊥
PopSpec xs (popped m b') = (ys : List Message) × (xs ≡ m ∷ ys) × Holds b' ys

pushed-Holds :
    (b : MessagesCircularBuffer) (xs : List Message) (m : Message)
    → Holds b xs
    → b.head < max_messages_per_process
    → Holds (record b { buffer = set b.buffer b.head m; head = b.head + 1 }) (xs ++ (m ∷ []))
pushed-Holds b xs m h l = record {
  size = length-set b.buffer b.head m ∙ h.size;
  in_bounds = omega arith;
  count = omega (arith, h.count, length-append xs (m ∷ []));
  contents =
      let len : length (xs ++ (m ∷ [])) ≡ suc (length xs) =
        omega (arith, length-append xs (m ∷ [])) in
      rw (
        len,
        cells-snoc (set b.buffer b.head m) (length xs) b.tail b.head (sym h.count),
        cells-set b.buffer m (length xs) b.tail b.head (omega (arith, h.count)),
        h.contents,
        get_or-set_self b.buffer b.head m zero_message (omega (arith, h.size)),
      );
}

-- A push into a message buffer that holds a list of messages and has not wrapped reports it
-- full only with four messages in it, appends the message while fewer than four were ever
-- pushed, and else writes behind the end of the array.
pub push_buffer_lem :
    (b : MessagesCircularBuffer) (xs : List Message) (m : Message)
    → Holds b xs
    → PushSpec b xs m (push_buffer b m)
unfolding push_buffer
push_buffer_lem b xs m h = elim (Bool-cases (ltb b.head 4)) [
  | inl below ↦
      let no_wrap : ltb 4 (b.head + 1) ≡ false = ground arith in
      let not_full : (b.head + 1 == b.tail) ≡ false = ground (arith, h.count) in
      rw (no_wrap, not_full, below) (ground arith, pushed-Holds b xs m h (ground arith))
  | inr at_end ↦
      let wrap : ltb 4 (b.head + 1) ≡ true = ground arith in
      rw wrap (elim (Bool-cases (0 == b.tail)) [
        | inl none_popped ↦ rw none_popped (ground (arith, h.count))
        | inr some_popped ↦ rw (some_popped, at_end) (ground (arith, h.count))
      ])
]

-- A pop from such a message buffer returns the oldest message and leaves the rest, reports it
-- empty exactly if it holds none, and does not read behind the end of the array.
pub pop_buffer_lem :
    (b : MessagesCircularBuffer) (xs : List Message) → Holds b xs → PopSpec xs (pop_buffer b)
unfolding pop_buffer
pop_buffer_lem b [] h =
    let none_left : (b.head == b.tail) ≡ true = ground (arith, h.count) in rw none_left
pop_buffer_lem b (x ∷ xs) h =
    let some_left : (b.head == b.tail) ≡ false = ground (arith, h.count) in
    let inside : ltb b.tail 4 ≡ true = ground (arith, h.count) in
    let no_wrap : ltb 4 (b.tail + 1) ≡ false = ground (arith, h.count) in
    rw (some_left, inside, no_wrap)
      (
        xs,
        rw oldest,
        record {
          size = h.size;
          in_bounds = h.in_bounds;
          count = omega (arith, h.count);
          contents = rest;
        },
      )
  where
    oldest : get_or b.buffer b.tail zero_message ≡ x
    oldest = cc (h.contents)

    rest : cells b.buffer (b.tail + 1) (length xs) ≡ xs
    rest = cc (h.contents)
