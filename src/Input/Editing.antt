-- ===== src/Input/Editing.antt =====
-- The line that `syscall_input` returns, as the edited text of what was typed.
use demo_os.Base.{
  ℕ, zero, suc, ◌<◌, ◌≤◌, ◌≡◌, refl, ◌∙◌, true, false, not, ◌&&◌, ◌||◌, ◌==◌, ltb, if◌then◌else◌,
  Option, some, List, [], ◌∷◌, ◌++◌, length, length-append, get_or, All, arith, inl, inr,
  Bool-cases, Returns, returns, Returns-bind, Returns-mono,
}
use demo_os.Process.{null}
use demo_os.Kernel.{Kernel}
use demo_os.Console.{Uart, take_char, uart_buffer_size}
use demo_os.Console.Ring.{Holds, Taken, take_char-Taken}
use demo_os.Input.{
  Line, Terminal, InputOutcome, is_enter, backspace, max_length, type_char, end_line, drain_ring,
  read_line, syscall_input,
}
use demo_os.Input.Edited.{drop_last, edit, length-drop_last, get-drop_last, get-snoc_last, get-snoc}

-- The buffer holds the text, which has at most `max_len` characters.
pub record Shows (max_len : ℕ) (line : Line) (text : List ℕ) : Type 0 where
  pub len : line.current_len ≡ length text
  pub fits : length text ≤ max_len
  pub chars : (i : ℕ) → i < length text → line.buffer i ≡ get_or text i 0

-- Nothing behind the first `max_len + 1` characters is written.
abbrev pub Within : ℕ → Line → Line → Type 0
Within max_len line line' = (a : ℕ) → max_len < a → line'.buffer a ≡ line.buffer a

module _ (max_len c : ℕ) (line : Line) (text : List ℕ) (s : Shows max_len line text) where
  type_char-Shows : Shows max_len (type_char max_len c line) (
      if c == backspace
      then drop_last text
      else if ltb (length text) max_len
      then text ++ (c ∷ [])
      else text)
  unfolding type_char
  type_char-Shows = elim (Bool-cases (c == backspace)) [
    | inl e ↦ rw e (elim (Bool-cases (ltb 0 line.current_len)) [
      | inl some_left ↦ rw some_left (record {
        len = let n = length-drop_last text in let l = s.len in omega arith;
        fits = let n = length-drop_last text in let l = s.fits in omega arith;
        chars = λ i l.
            let n = length-drop_last text in
            let same = s.len in
            rw (get-drop_last text i (omega arith))
              (let c = s.chars i (omega arith) in ground arith);
      })
      | inr none_left ↦
          let nothing : length text ≡ 0 = let l = s.len in ground arith in
          let n = length-drop_last text in
          rw none_left (record {
            len = let l = s.len in omega arith;
            fits = let l = s.fits in omega arith;
            chars = λ i l. absurd (omega arith);
          })
    ])
    | inr e ↦
        rw (e, s.len)
          (elim (Bool-cases (ltb (length text) max_len)) [
            | inl room ↦ rw room (record {
              len = let n = length-append text (c ∷ []) in let l = s.len in omega arith;
              fits = let n = length-append text (c ∷ []) in ground arith;
              chars = λ i l. elim (Bool-cases (i == length text)) [
                | inl at ↦
                    let same : i ≡ length text = ground arith in
                    rw (same, get-snoc_last text c) (let l = s.len in ground arith)
                | inr off ↦
                    let n = length-append text (c ∷ []) in
                    let before : i < length text = ground arith in
                    rw (get-snoc text c i before)
                      (let l = s.len in let old = s.chars i before in ground arith)
              ];
            })
            | inr closed ↦ rw closed (record { len = refl; fits = s.fits; chars = s.chars })
          ])
  ]

  type_char-Within : Within max_len line (type_char max_len c line)
  unfolding type_char
  type_char-Within a out = let l = s.len in let f = s.fits in ground arith

-- The ring gives its oldest character.
record Next (u : Uart) (c : ℕ) (cs : List ℕ) : Type 0 where
  uart : Uart
  takes : take_char u ≡ some (c, uart)
  holds : Holds uart cs

Next-taken :
    (u : Uart) (c : ℕ) (cs : List ℕ) (o : Option (ℕ × Uart))
    → take_char u ≡ o
    → Taken (c ∷ cs) o
    → Next u c cs
Next-taken u c cs _ e (Taken.taken {u' = u'} h) = record { uart = u'; takes = e; holds = h }

take_char-Next : (u : Uart) (c : ℕ) (cs : List ℕ) → Holds u (c ∷ cs) → Next u c cs
take_char-Next u c cs h = Next-taken u c cs (take_char u) refl (take_char-Taken u (c ∷ cs) h)

-- A line that was ended by the enter: the buffer holds the text, with a zero behind it.
pub record Ended (max_len : ℕ) (line : Line) (text rest : List ℕ) (u' : Uart) (line' : Line)
    : Type 0 where
  pub shows : Shows max_len line' text
  pub terminated : line'.buffer (length text) ≡ 0
  pub within : Within max_len line line'
  pub left : Holds u' rest

end_line-Ended :
    (max_len c : ℕ) (line : Line) (text rest : List ℕ) (u' : Uart)
    → Shows max_len line text
    → Holds u' rest
    → Ended max_len line text rest u' (end_line c line)
unfolding end_line
end_line-Ended max_len c line text rest u' s h = record {
  shows = record {
    len = s.len;
    fits = s.fits;
    chars = λ i l. let n = s.len in let old = s.chars i l in ground arith;
  };
  terminated = let n = s.len in ground arith;
  within = λ a out. let n = s.len in let f = s.fits in ground arith;
  left = h;
}

Ended-before :
    (max_len : ℕ) (line line1 : Line) (text rest : List ℕ) (u' : Uart) (line' : Line)
    → Within max_len line line1
    → Ended max_len line1 text rest u' line'
    → Ended max_len line text rest u' line'
Ended-before max_len line line1 text rest u' line' w e = record {
  shows = e.shows;
  terminated = e.terminated;
  within = λ a out. e.within a out ∙ w a out;
  left = e.left;
}

-- The ring holds what was typed, and an enter behind it.
drain_ring-Ended :
    (fuel max_len : ℕ) (u : Uart) (line : Line) (text typed : List ℕ) (c : ℕ) (rest : List ℕ)
    → length typed < fuel
    → Holds u (typed ++ (c ∷ rest))
    → All (λ d. is_enter d ≡ false) typed
    → is_enter c ≡ true
    → Shows max_len line text
    → Returns
        (λ (ended, u', line').
          (ended ≡ true) × Ended max_len line (edit max_len text typed) rest u' line')
        (drain_ring fuel max_len u line)
unfolding drain_ring
drain_ring-Ended zero max_len u line text typed c rest l h plain enter s = absurd (omega arith)
drain_ring-Ended (suc fuel) max_len u line text [] c rest l h plain enter s =
    let n = take_char-Next u c rest h in
    rw (n.takes, drain_ring, enter)
      (returns (refl, end_line-Ended max_len c line text rest n.uart s n.holds))
drain_ring-Ended (suc fuel) max_len u line text (d ∷ typed) c rest l h plain enter s =
    let n = take_char-Next u d (typed ++ (c ∷ rest)) h in
    rw (n.takes, drain_ring, plain.0)
      (Returns-mono
        (drain_ring-Ended fuel max_len n.uart (type_char max_len d line) _ typed c rest
          (omega arith) n.holds plain.1 enter (type_char-Shows max_len d line text s))
        λ (ended, u', line') p. (
          p.0,
          Ended-before max_len line (type_char max_len d line) _ rest u' line'
              (type_char-Within max_len d line text s) p.1,
        ))

-- What a call that finds a whole line comes to.
pub data GotLine (len : ℕ) (line : Line) (text rest : List ℕ) (k : Kernel)
    : InputOutcome → Type 0 where
  got_line :
      {line' : Line} {u' : Uart} {n : ℕ}
      → n ≡ length text
      → Ended (max_length len) line text rest u' line'
      → GotLine len line text rest k
          (InputOutcome.entered n line' (record { uart = u'; uart_owner = null }) k)

-- If the UART is free or owned by the caller and its ring holds a whole line, the call returns
-- at once with the length of the line that was typed, in which a backspace takes away the
-- character before it and characters that do not fit are dropped. The buffer holds it with a
-- zero behind it and nothing is written behind the room of the buffer and one cell; the ring
-- keeps the characters behind the enter, the UART is free, and the kernel is unchanged.
pub syscall_input-GotLine :
    (len : ℕ) (line : Line) (t : Terminal) (k : Kernel) (text typed : List ℕ) (c : ℕ)
    (rest : List ℕ)
    → (t.uart_owner == null || t.uart_owner == k.current_process) ≡ true
    → Holds t.uart (typed ++ (c ∷ rest))
    → All (λ d. is_enter d ≡ false) typed
    → is_enter c ≡ true
    → Shows (max_length len) line text
    → Returns
        (GotLine len line (edit (max_length len) text typed) rest k)
        (syscall_input len line t k)
unfolding syscall_input read_line
syscall_input-GotLine len line t k text typed c rest mine h plain enter s =
    let free : (not (t.uart_owner == null) && not (t.uart_owner == k.current_process)) ≡ false =
      ground arith in
    let short : length typed < uart_buffer_size =
      let f = h.fits in let n = length-append typed (c ∷ rest) in omega arith in
    rw free (
      Returns-bind
        (drain_ring-Ended uart_buffer_size (max_length len) t.uart line text typed c rest short h
          plain enter s)
        λ (ended, u', line') p. rw (p.0) (returns (GotLine.got_line p.1.shows.len p.1)))
