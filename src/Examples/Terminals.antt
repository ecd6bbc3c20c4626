-- ===== src/Examples/Terminals.antt =====
-- A line with a backspace, typed into the ring of the UART.
use demo_os.Base.{refl, arith, [], ◌∷◌, update, Returns}
use demo_os.Process.{null}
use demo_os.Kernel.{Algorithm, Kernel, boot}
use demo_os.Console.{Uart}
use demo_os.Console.Ring.{Holds}
use demo_os.Input.{Line, Terminal, syscall_input}
use demo_os.Input.Edited.{drop_last}
use demo_os.Input.Editing.{GotLine, syscall_input-GotLine}

-- "hx", a backspace, "i" and the enter, around the end of the ring.
abbrev typed_uart : Uart
typed_uart = record {
  uart_buffer = update (update (update (update (update (λ _. 0) 62 104) 63 120) 0 127) 1 105) 2 13;
  uart_head = 3;
  uart_tail = 62;
}

abbrev terminal : Terminal
terminal = record { uart = typed_uart; uart_owner = null }

abbrev blank : Line
blank = record { buffer = λ _. 7; current_len = 0; echo = [] }

terminal-Holds : Holds typed_uart (104 ∷ 120 ∷ 127 ∷ 105 ∷ 13 ∷ [])
terminal-Holds = record {
  tail_in = omega arith;
  head_at = refl;
  fits = omega arith;
  stands = (refl, (refl, (refl, (refl, (refl, tt)))));
}

abbrev idle : Kernel
idle = boot Algorithm.fcfs (λ n. n)

-- The buffer has eight cells.
syscall_input-GotLine_example :
    Returns (GotLine 8 blank (104 ∷ 105 ∷ []) [] idle) (syscall_input 8 blank terminal idle)
unfolding drop_last
syscall_input-GotLine_example =
    syscall_input-GotLine 8 blank terminal idle [] (104 ∷ 120 ∷ 127 ∷ 105 ∷ []) 13 [] refl
      terminal-Holds (refl, (refl, (refl, (refl, tt)))) refl
      (record { len = refl; fits = omega arith; chars = λ i l. absurd (omega arith) })
