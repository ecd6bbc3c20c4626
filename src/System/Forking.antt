-- ===== src/System/Forking.antt =====
-- copy_process under Round Robin.
use demo_os.Base.{
  ℕ, ◌+◌, ◌/◌, ◌%◌, ◌<◌, ◌≡◌, refl, ◌∙◌, sym, false, ◌==◌, if◌then◌else◌, Option, some, ◌>>=◌, has,
  ◌∈◌, ◌∉◌, arith, inl, inr, Bool-cases, leb, returns,
}
use demo_os.Base.Int.{ℤ, pos, negsuc, ltb_ℤ}
use demo_os.Process.{Ptr, null, init_process, Pcb, State, n_processes_max}
use demo_os.Queue.{is_ignored}
use demo_os.Queue.Chain.{IsQueue-frame}
use demo_os.Kernel.{Kernel, set_pcb, preempt_enable, preempt_disable}
use demo_os.Memory.{va_start, get_free_page, allocate_kernel_page}
use demo_os.Memory.Virtual.{copy_virtual_memory}
use demo_os.Fork.{
  copy_execution, zero_registers, task_pt_regs, copy_registers, copy_process, pf_kthread,
}
use demo_os.Sched.Enqueue.{add_process_to_scheduler}
use demo_os.System.Sound.{table, Sound, Sound-frame}
use demo_os.System.Register.{Accepted, add_process_to_scheduler-Sound}
use demo_os.System.Tidy.{Guarded, Tidy-marks, Guarded-marks}
use demo_os.System.Grow.{
  get_free_page-Guarded, Grew, Grew-refl, ram-Grew, set_pcb-Grew, get_free_page-Grew,
}
use demo_os.System.Mapping.{copy_virtual_memory-Grew}
use demo_os.System.Returned.{IfReturned, IfReturned-bind}

Grew-Sound : (k k' : Kernel) → Sound k → Grew k k' → Sound k'
Grew-Sound k k' s g =
    let q = s.queued in
    let tidy = q.tidy.guarded in
    let i = q.inv in
    let idle : Guarded k.memory.memory_pages init_process = tidy init_process refl in
    let queued : (a : Ptr) → a ∈ s.queue → Guarded k.memory.memory_pages a =
      λ a m. tidy a (let t = q.in_table a m in ground arith) in
    record {
      queue = s.queue;
      queued = record {
        inv = record {
          queue = rw (g.queue) (IsQueue-frame k'.pcb (λ a m. g.links a (queued a m)) i.queue);
          ready = λ a m. g.states a (queued a m) ∙ i.ready a m;
          complete = λ a e ne. i.complete a (let r = g.ready a in ground arith) ne;
          running = λ a e. i.running a (let r = g.running a in ground arith) ∙ sym g.current;
          idle_out = i.idle_out;
          current_ne = rw (g.current) i.current_ne;
        };
        in_table = λ a m. rw (g.processes) (q.in_table a m);
        current = rw (g.current, g.processes) q.current;
        first_slot = rw (g.processes) q.first_slot;
        idle_awake = rw (g.states init_process idle) q.idle_awake;
        algorithm = g.algorithm ∙ q.algorithm;
        tidy = rw (g.processes) (Tidy-marks g.marks q.tidy);
        counted = rw (g.n_processes) q.counted;
        bounded = rw (g.n_processes) q.bounded;
        filled = λ j hi. rw (g.processes) (q.filled j (rw (g.n_processes) at hi));
        free_slots = λ j lo hi. rw (g.processes) (q.free_slots j (rw (g.n_processes) at lo) hi);
      };
      running =
          rw (g.current, g.states k.current_process (tidy k.current_process q.current)) s.running;
    }

disabled-Sound : (k : Kernel) → Sound k → Sound (preempt_disable k)
unfolding preempt_disable
disabled-Sound k s = Sound-frame k _ (λ a. ground arith) (λ a. ground arith) s

enabled-Sound : (k : Kernel) → Sound k → Sound (preempt_enable k)
unfolding preempt_enable
enabled-Sound k s = Sound-frame k _ (λ a. ground arith) (λ a. ground arith) s

copy_execution-Grew :
    (k0 : Kernel) (clone_flags function argument : ℕ) (p : Ptr) (k : Kernel)
    → Grew k0 k
    → IfReturned (Grew k0) (copy_execution clone_flags function argument p k)
unfolding copy_execution
copy_execution-Grew k0 clone_flags function argument p k g =
    elim (Bool-cases ((clone_flags / pf_kthread) % 2 == 1)) [
      | inl e ↦ rw e (set_pcb-Grew k0 p _ k refl refl g)
      | inr e ↦ rw e (
          IfReturned-bind (λ (code, k'). Grew k0 k') (Grew k0) (copy_virtual_memory p _) _
            (copy_virtual_memory-Grew k0 p _ (
              ram-Grew k0 (copy_registers (task_pt_regs p) (task_pt_regs k.current_process) k) _
                (ram-Grew k0 k _ g)))
            λ (code, k2) g2. g2)
    ]

-- The registration of the child, when its PCB is filled in.
child-Sound :
    (k1 : Kernel) (p : Ptr) (k2 : Kernel) (c : Pcb)
    → Sound k1
    → Grew k1 k2
    → is_ignored p ≡ false
    → p ∉ table k1
    → Guarded k1.memory.memory_pages p
    → c.state ≡ State.ready
    → c.pid ≡ k2.n_processes
    → k1.n_processes < n_processes_max
    → Accepted (add_process_to_scheduler p (set_pcb k2 p c))
child-Sound k1 p k2 c s g accepted unlisted guarded ready pid room =
    add_process_to_scheduler-Sound p c k2 (Grew-Sound k1 k2 s g) (record {
      accepted = accepted;
      unlisted = rw (g.processes) unlisted;
      guarded = Guarded-marks g.marks guarded;
      ready = ready;
      pid = pid;
      room = rw (g.n_processes) room;
    })

-- What follows the registration.
abbrev finished : ℕ → Option (ℤ × Kernel) → Option (ℤ × Kernel)
finished process_id m = m >>= λ (code, k3).
    if ltb_ℤ code (pos 0) then some (negsuc 0, k3) else some (pos process_id, preempt_enable k3)

finished-Sound :
    (process_id : ℕ) (m : Option (ℤ × Kernel))
    → Accepted m
    → IfReturned (λ (code, k'). Sound k') (finished process_id m)
finished-Sound process_id _ (returns {a = (code, k3)} p) = rw (p.0) (enabled-Sound k3 p.1)

-- The page of a new PCB: it is that of no known process.
fresh_page :
    (k0 : Kernel)
    → Sound k0
    → ((get_free_page k0).0 == 0) ≡ false
    → (is_ignored ((get_free_page k0).0 + va_start) ≡ false)
      × ((get_free_page k0).0 + va_start ∉ table k0)
fresh_page k0 s some_page =
    let new = (get_free_page-Grew k0 k0 (Grew-refl k0)).1 in
    let p : Ptr = (get_free_page k0).0 + va_start in
    let known = s.queued.tidy.guarded in
    (
      let not_idle = new init_process (known init_process refl) in ground arith,
      elim (Bool-cases (has p (table k0))) [
        | inl listed ↦ absurd (new p (known p (ground arith)) refl)
        | inr unlisted ↦ unlisted
      ],
    )

pub copy_process-Sound :
    (ret_from_fork clone_flags function argument : ℕ) (k : Kernel)
    → Sound k
    → IfReturned
        (λ (code, k'). Sound k')
        (copy_process ret_from_fork clone_flags function argument k)
unfolding copy_process allocate_kernel_page
copy_process-Sound ret_from_fork clone_flags function argument k s =
    let k0 : Kernel = preempt_disable k in
    let s0 = disabled-Sound k s in
    let page = get_free_page-Grew k0 k0 (Grew-refl k0) in
    let k1 : Kernel = (get_free_page k0).1 in
    let s1 = Grew-Sound k0 k1 s0 page.0 in
    elim (Bool-cases ((get_free_page k0).0 == 0)) [
      | inl none_left ↦ rw none_left s1
      | inr some_page ↦
          rw (some_page, not_null (get_free_page k0).0)
            (elim (Bool-cases (leb n_processes_max k1.n_processes)) [
              | inl full ↦ rw full s1
              | inr room ↦
                  let p : Ptr = (get_free_page k0).0 + va_start in
                  let new = fresh_page k0 s0 some_page in
                  let unlisted : p ∉ table k1 = rw (page.0.processes) new.1 in
                  let guarded = get_free_page-Guarded k0 some_page in
                  let cleared =
                    set_pcb-Grew k1 p _ (zero_registers (task_pt_regs p) k1) refl refl
                      (ram-Grew k1 k1 _ (Grew-refl k1)) in
                  rw room (
                    IfReturned-bind (Grew k1) (λ (code, k'). Sound k')
                      (copy_execution clone_flags function argument p _) _
                      (copy_execution-Grew k1 clone_flags function argument p _ cleared)
                      λ k2 g. finished-Sound k2.n_processes _ (
                        child-Sound k1 p k2 _ s1 g new.0 unlisted guarded refl refl (ground arith)))
            ])
    ]
  where
    not_null : (page : ℕ) → (page + va_start == null) ≡ false
    not_null page = ground arith
