-- ===== src/System/Clock.antt =====
-- The interrupts of the timer in a row (drivers/timer/timer.c), under Round Robin.
use demo_os.Base.{
  ℕ, zero, suc, ◌+◌, ◌*◌, ◌%◌, ◌^◌, ◌≡◌, Option, some, ◌>>=◌, arith, Returns, returns, Returns-bind,
  Returns-mono,
}
use demo_os.Kernel.{Kernel}
use demo_os.Interrupts.{Timer, timer_period, timer_init, handle_timer_irq}
use demo_os.System.Sound.{Sound}
use demo_os.System.Switching.{handle_timer_tick-Sound}

-- `n` interrupts of the timer.
unfoldable pub timer_irqs : ℕ → Timer → Kernel → Option (Timer × Kernel)
timer_irqs zero t k = some (t, k)
timer_irqs (suc n) t k = handle_timer_irq t k >>= λ (t1, k1). timer_irqs n t1 k1

-- The timer was last programmed for `v`, as a 32-bit number.
abbrev pub Programmed : ℕ → Timer × Kernel → Type 0
Programmed v (t, k) = (t.cur_val ≡ v % 2 ^ 32) × (t.timer_c1 ≡ v % 2 ^ 32) × Sound k

handle_timer_irq-Programmed :
    (v : ℕ) (t : Timer) (k : Kernel)
    → Programmed v (t, k)
    → Returns (Programmed (v + timer_period)) (handle_timer_irq t k)
unfolding handle_timer_irq
handle_timer_irq-Programmed v t k p =
    let e = p.0 in
    Returns-bind (handle_timer_tick-Sound k p.2) λ k1 s1. returns (omega arith, omega arith, s1)

timer_irqs-Programmed_from :
    (n v : ℕ) (t : Timer) (k : Kernel)
    → Programmed v (t, k)
    → Returns (Programmed (v + n * timer_period)) (timer_irqs n t k)
unfolding timer_irqs
timer_irqs-Programmed_from zero v t k p =
    returns (let e = p.0 in omega arith, let e = p.1 in omega arith, p.2)
timer_irqs-Programmed_from (suc n) v t k p =
    Returns-bind (handle_timer_irq-Programmed v t k p) λ (t1, k1) p1.
      Returns-mono (timer_irqs-Programmed_from n (v + timer_period) t1 k1 p1)
        λ (t2, k2) q. (let e = q.0 in omega arith, let e = q.1 in omega arith, q.2)

-- After the initialisation of the timer at counter value c, n interrupts of the timer in a row,
-- from a sound state under Round Robin, succeed and leave its compare register at c + (n + 1)
-- periods as a 32-bit number, however late they are handled, and the state sound.
pub timer_irqs-Programmed :
    (n timer_clo : ℕ) (t : Timer) (k : Kernel)
    → Sound k
    → Returns
        (Programmed (timer_clo + (n + 1) * timer_period))
        (timer_irqs n (timer_init timer_clo t) k)
unfolding timer_init
timer_irqs-Programmed n timer_clo t k s =
    Returns-mono
      (timer_irqs-Programmed_from n (timer_clo + timer_period) (timer_init timer_clo t) k
        (omega arith, omega arith, s))
      λ (t2, k2) q. (let e = q.0 in omega arith, let e = q.1 in omega arith, q.2)
