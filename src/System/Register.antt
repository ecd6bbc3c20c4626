-- ===== src/System/Register.antt =====
-- add_process_to_scheduler under Round Robin, for a new process.
use demo_os.Base.{
  ℕ, ◌+◌, ◌<◌, ◌≡◌, ◌≢◌, refl, ap, ◌∙◌, sym, true, false, ◌==◌, ◌||◌, List, [], ◌∷◌, ◌++◌, arith,
  inl, inr, Bool-cases, leb, has, has-append, ◌∈◌, ◌∉◌, update, ==-refl, Option, some, Returns,
  returns,
}
use demo_os.Base.Int.{ℤ, pos}
use demo_os.Process.{Ptr, null, init_process, Pcb, State, is_ready, n_processes_max}
use demo_os.Queue.{is_ignored}
use demo_os.Queue.Chain.{ne-null_of_mem}
use demo_os.Kernel.{Kernel, QueueRef, set_pcb, enqueue_to}
use demo_os.Sched.Enqueue.{start_level, add_process_to_scheduler}
use demo_os.Sched.Table.{slots, mem-slots, mem-slots-update}
use demo_os.Sched.Dispatch.Wake.{is_fifo, entered-Inv, entered_at, enqueue_process-fifo}
use demo_os.System.Tidy.{Guarded, Tidy-update}
use demo_os.System.Sound.{table, Queued, Sound}

-- The PCB `c` of a new process at `p`: neither the idle task nor in the table, READY, with the next
-- PID, for which the table has a slot.
pub record Fresh (p : Ptr) (c : Pcb) (k : Kernel) : Type 0 where
  pub accepted : is_ignored p ≡ false
  pub unlisted : p ∉ table k
  pub guarded : Guarded k.memory.memory_pages p
  pub ready : c.state ≡ State.ready
  pub pid : c.pid ≡ k.n_processes
  pub room : k.n_processes < n_processes_max

module _ (p : Ptr) (c : Pcb) (k : Kernel) (xs : List Ptr) (q : Queued k xs) (f : Fresh p c k) where
  abbrev registered : Kernel
  registered = record (set_pcb k p c) {
    processes = update k.processes c.pid p;
    queue_level = update k.queue_level c.pid (start_level k.active_algorithm c.queue_priority);
  }

  abbrev counted : Kernel
  counted =
      let k' = enqueue_to QueueRef.ready_queue p registered in
      record k' { n_processes = k'.n_processes + 1 }

  add_process-counted : add_process_to_scheduler p (set_pcb k p c) ≡ some (pos 0, counted)
  unfolding add_process_to_scheduler
  add_process-counted =
      let pid_room : leb n_processes_max c.pid ≡ false =
        let r = f.room in let e = f.pid in ground arith in
      let table_room : leb n_processes_max k.n_processes ≡ false = let r = f.room in ground arith in
      let fifo : is_fifo registered.active_algorithm ≡ true = ap is_fifo q.algorithm in
      let ready : is_ready c.state ≡ true = ap is_ready f.ready in
      rw (==-refl p, ready, enqueue_process-fifo p registered fifo f.accepted, pid_room, table_room)
        refl

  abbrev later : ℕ → Ptr
  later = update k.processes c.pid p

  kept_listed : (a : Ptr) → a ≢ null → a ∈ table k → a ∈ slots 63 1 later
  kept_listed a ne m =
      let free : k.processes c.pid ≡ null =
        let e = f.pid in q.free_slots c.pid (omega arith) (let r = f.room in omega arith) in
      mem-slots-update 63 1 k.processes c.pid p a (rw free (λ e. ne (sym e))) m

  newly_listed : p ∈ slots 63 1 later
  newly_listed =
      let r = f.room in
      let n = q.counted in
      let e = f.pid in
      let at : later c.pid ≡ p = ground arith in
      let m : later c.pid ∈ slots 63 1 later =
        mem-slots 63 1 later c.pid (omega arith) (omega arith) in
      ap (λ a. has a (slots 63 1 later)) (sym at) ∙ m

  counted-Queued : Queued counted (xs ++ (p ∷ []))
  counted-Queued =
      let out : p ∉ xs = let m = q.in_table p in let u = f.unlisted in ground arith in
      let entry = entered-Inv p c k xs q.inv f.accepted out in
      let same_current : counted.current_process ≡ k.current_process = refl in
      let e = f.pid in
      record {
        inv = record {
          queue = entry.queue;
          ready = entry.ready;
          complete = entry.complete;
          running = entry.running;
          idle_out = entry.idle_out;
          current_ne = entry.current_ne;
        };
        in_table = λ a m. elim (Bool-cases (has a xs)) [
          | inl old ↦
              kept_listed a
                (ne-null_of_mem k.pcb k.ready_queue.head xs null a q.inv.queue.chain old)
                (q.in_table a old)
          | inr new ↦
              let same : a ≡ p = ground (arith, has-append a xs (p ∷ [])) in rw same newly_listed
        ];
        current = elim (Bool-cases (k.current_process == init_process)) [
          | inl idle ↦ rw idle refl
          | inr user ↦
              rw
                (
                  user,
                  kept_listed k.current_process q.inv.current_ne
                      (let h = q.current in ground arith),
                )
                refl
        ];
        first_slot = let n = q.counted in let h = q.first_slot in ground arith;
        idle_awake =
            let h = q.idle_awake in
            ground (arith, entered_at p c k xs q.inv f.accepted out init_process);
        algorithm = q.algorithm;
        tidy = Tidy-update c.pid p f.guarded q.tidy;
        counted = omega arith;
        bounded = let r = f.room in omega arith;
        filled = λ j hi. let old = q.filled j in let a = f.accepted in ground arith;
        free_slots = λ j lo hi. let h = q.free_slots j (omega arith) hi in ground arith;
      }

-- The registration is accepted.
abbrev pub Accepted : Option (ℤ × Kernel) → Type 0
Accepted m = Returns (λ (code, k'). (code ≡ pos 0) × Sound k') m

pub add_process_to_scheduler-Sound :
    (p : Ptr) (c : Pcb) (k : Kernel)
    → Sound k
    → Fresh p c k
    → Accepted (add_process_to_scheduler p (set_pcb k p c))
add_process_to_scheduler-Sound p c k s f =
    let r = s.running in
    let u = f.unlisted in
    let current : (k.current_process == init_process || has k.current_process (table k)) ≡ true =
      s.queued.current in
    let i : (p == init_process) ≡ false = let a = f.accepted in ground arith in
    let new : (p == k.current_process) ≡ false = elim (Bool-cases (p == k.current_process)) [
      | inl e ↦ let same : p ≡ k.current_process = ground arith in ground arith
      | inr e ↦ e
    ] in
    rw (add_process-counted p c k s.queue s.queued f) (
      returns (
        refl,
        record {
          queue = s.queue ++ (p ∷ []);
          queued = counted-Queued p c k s.queue s.queued f;
          running = elim (Bool-cases (k.current_process == init_process)) [
            | inl idle ↦ rw idle refl
            | inr user ↦
                let e =
                  entered_at p c k s.queue s.queued.inv f.accepted
                    (let m = s.queued.in_table p in ground arith) k.current_process in
                ground arith
          ];
        },
      ))
