-- ===== src/System/Exit.antt =====
-- exit_process under Round Robin.
use demo_os.Base.{
  ℕ, ◌≤◌, ◌<◌, ◌≡◌, ◌≢◌, refl, ap, ◌∙◌, sym, true, false, ◌==◌, List, arith, inl, inr, Bool-cases,
  has, ◌∈◌, Returns, Returns-bind,
}
use demo_os.Process.{Ptr, init_process, n_processes_max, State}
use demo_os.Kernel.{Kernel, set_pcb, preempt_enable, preempt_disable}
use demo_os.Sched.Table.{ne_of_not_mem-slots}
use demo_os.Sched.Dispatch.{exit_process}
use demo_os.Sched.Dispatch.Wake.{Woke, is_fifo, wake_waiters-Woke}
use demo_os.System.Sound.{table, Queued, Sound, Queued-frame}
use demo_os.System.Switching.{schedule-Sound, blocked-Queued}

-- The queue behind the scan of the whole table.
module _ (pid : ℕ) (k k1 : Kernel) (xs : List Ptr) (q : Queued k xs) (w : Woke pid 64 0 k k1) where
  same_table : table k1 ≡ table k
  same_table = rw (w.processes) refl

  woken_in_table : (a : Ptr) → a ∈ w.queued → a ∈ table k
  woken_in_table a m = elim (Bool-cases (has a (table k))) [
    | inl listed ↦ listed
    | inr unlisted ↦
        let not_idle : a ≢ init_process = λ e. let i = w.inv.idle_out in cc (rw e at m) in
        let nowhere : (j : ℕ) → 0 ≤ j → j < 64 → k.processes j ≢ a = λ j lo hi.
          elim (Bool-cases (j == 0)) [
            | inl first ↦
                let at : j ≡ 0 = ground arith in rw (at, q.first_slot) (λ e. not_idle (sym e))
            | inr later ↦
                ne_of_not_mem-slots 63 1 k.processes a j unlisted (ground arith) (omega arith)
          ] in
        let before : (k.pcb a).state ≡ State.ready =
          sym (w.elsewhere a nowhere) ∙ w.inv.ready a m in
        q.in_table a (q.inv.complete a before not_idle)
  ]

  woken-Queued : Queued k1 w.queued
  woken-Queued = record {
    inv = w.inv;
    in_table = λ a m. rw same_table (woken_in_table a m);
    current = rw (w.current, same_table) q.current;
    first_slot = rw (w.processes) q.first_slot;
    idle_awake = let awake = q.idle_awake in rw (w.kept init_process (ground arith)).0 awake;
    algorithm = w.algorithm ∙ q.algorithm;
    tidy = rw (w.pages, w.processes) q.tidy;
    counted = rw (w.n_processes) q.counted;
    bounded = rw (w.n_processes) q.bounded;
    filled = λ j hi. rw (w.processes) (q.filled j (rw (w.n_processes) at hi));
    free_slots = λ j lo hi. rw (w.processes) (q.free_slots j (rw (w.n_processes) at lo) hi);
  }

disabled-Queued : (k : Kernel) (xs : List Ptr) → Queued k xs → Queued (preempt_disable k) xs
unfolding preempt_disable
disabled-Queued k xs q = Queued-frame _ (λ a. ground arith) (λ a. ground arith) q

enabled-Queued : (k : Kernel) (xs : List Ptr) → Queued k xs → Queued (preempt_enable k) xs
unfolding preempt_enable
enabled-Queued k xs q = Queued-frame _ (λ a. ground arith) (λ a. ground arith) q

-- The current process is a ZOMBIE.
abbrev ended : Kernel → Kernel
ended k = set_pcb k k.current_process (record (k.pcb k.current_process) { state = State.zombie })

ended-Queued :
    (k : Kernel)
    → (s : Sound k) → (k.current_process == init_process) ≡ false
    → Queued (ended (preempt_disable k)) s.queue
unfolding preempt_disable
ended-Queued k s user =
    blocked-Queued (preempt_disable k) _ s.queue (disabled-Queued k s.queue s.queued)
      (ground (arith, s.running)) user refl refl refl

pub exit_process-Sound :
    (k : Kernel)
    → Sound k
    → (k.current_process == init_process) ≡ false
    → Returns Sound (exit_process k)
unfolding exit_process
exit_process-Sound k s user =
    let q = ended-Queued k s user in
    let fifo : is_fifo (ended (preempt_disable k)).active_algorithm ≡ true =
      ap is_fifo q.algorithm in
    Returns-bind (wake_waiters-Woke n_processes_max _ 0 _ s.queue q.inv fifo q.idle_awake) λ k1 w.
      schedule-Sound (preempt_enable k1) w.queued
        (enabled-Queued k1 w.queued (woken-Queued _ _ k1 s.queue q w))
