-- ===== src/Sched/Lottery.antt =====
-- libs/scheduler.c, "LOTTERY SCHEDULING". The walks of the queue and the repetition of the draw
-- run on fuel. An `unsigned long` has 64 bits; the `long` sums of tickets are kept as numbers.
use Prim.Native.Nat.{bit_xor}
pub mod Draw
pub mod Select
use demo_os.Base.{
  ℕ, zero, suc, ◌+◌, ◌*◌, ◌/◌, ◌%◌, ◌^◌, Bool, true, false, ◌==◌, ltb, if◌then◌else◌, Option, none,
  some, ◌>>=◌,
}
use demo_os.Base.Int.{ℤ, pos, is_pos, to_ℕ}
use demo_os.Process.{Ptr, null, Pcb, Store, is_ready}
use demo_os.Queue.{ProcessQueue}
use demo_os.Kernel.{Kernel, QueueRef, remove_from, preempt_disable}
use demo_os.Sched.Signals.{handle_process_signals}
use demo_os.Sched.Pick.{queue_fuel, requeue_current, recharge, dispatch}

abbrev pub lottery_seed : ℕ
lottery_seed = 88172645463325252

-- One xorshift64 step.
unfoldable pub xorshift64 : ℕ → ℕ
xorshift64 x =
    let a = bit_xor x (x * 2 ^ 13 % 2 ^ 64) in
    let b = bit_xor a (a / 2 ^ 7) in bit_xor b (b * 2 ^ 17 % 2 ^ 64)

unfoldable pub lottery_random : Kernel → ℕ × Kernel
lottery_random k =
    let mixed = bit_xor k.lottery_rng_state (k.timer_clo k.timer_reads) in
    let state = xorshift64 (if mixed == 0 then lottery_seed else mixed) in
    (state, record k { lottery_rng_state = state; timer_reads = k.timer_reads + 1 })

-- `p->tickets > 0 ? p->tickets : 1`.
abbrev pub effective_tickets : Pcb → ℕ
effective_tickets p = if is_pos p.tickets then to_ℕ p.tickets else 1

-- The sum of the tickets from `p` on; `none` if the fuel runs out.
unfoldable pub count_tickets : ℕ → Store → Ptr → ℕ → Option ℕ
count_tickets zero h p total = none
count_tickets (suc fuel) h p total =
    let rest = count_tickets fuel h (h p).next_ready (total + effective_tickets (h p)) in
    if p == null then some total else rest

-- The holder of the winning ticket and the node before it.
unfoldable pub find_winner :
    ℕ → Store → (winner counter : ℕ) → (previous candidate : Ptr) → Option (Ptr × Ptr)
find_winner zero h winner counter previous candidate = none
find_winner (suc fuel) h winner counter previous candidate =
    let counter' = counter + effective_tickets (h candidate) in
    let rest = find_winner fuel h winner counter' candidate (h candidate).next_ready in
    if candidate == null
    then some (previous, candidate)
    else if ltb winner counter'
    then some (previous, candidate)
    else rest

-- The part of a draw behind the choice of the ticket, with the next draws as an argument.
unfoldable pub one_draw : ℕ → Kernel → (Kernel → Option (Ptr × Kernel)) → Option (Ptr × Kernel)
one_draw winner k again = do
  (previous, candidate) ← find_winner queue_fuel k.pcb winner 0 null k.ready_queue.head
  k2 ← handle_process_signals candidate (remove_from QueueRef.ready_queue previous candidate k)
  if is_ready (k2.pcb candidate).state then some (candidate, k2) else again k2

-- The repeated draw: the process to dispatch, or NULL.
unfoldable pub draw : ℕ → Kernel → Option (Ptr × Kernel)
draw zero k = none
draw (suc rounds) k = do
  total ← count_tickets queue_fuel k.pcb k.ready_queue.head 0
  let (random, k1) = lottery_random k
  let drawn = one_draw (random % total) k1 (draw rounds)
  if total == 0 then some (null, k) else drawn

unfoldable pub schedule_lottery : Kernel → Option Kernel
schedule_lottery k = do
  (next, k1) ← draw queue_fuel (requeue_current QueueRef.ready_queue (preempt_disable k))
  some (dispatch next (if next == null then k1 else recharge next 10 k1))
