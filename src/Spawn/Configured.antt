-- ===== src/Spawn/Configured.antt =====
-- common/process_api.c over sched_set_param of libs/scheduler.c: the parameters of a new process.
use demo_os.Base.{
  ℕ, zero, suc, ◌+◌, ◌≡◌, ◌≢◌, refl, ap, ◌∙◌, true, false, Bool-cases, inl, inr, ◌==◌, ◌||◌, not,
  if◌then◌else◌, arith, List,
}
use demo_os.Base.Int.{ℤ, pos, negsuc, ltb_ℤ, eqb_ℤ}
use demo_os.Process.{Ptr, null, n_processes_max}
use demo_os.Queue.{is_ignored}
use demo_os.Kernel.{Kernel, ml_max_levels, preempt_enable, preempt_disable}
use demo_os.Sched.Enqueue.{
  sched_set_param, set_queue_priority, sched_param_priority, sched_param_tickets,
  sched_param_queue_priority,
}
use demo_os.Syscalls.{search_slots, search_process, syscall_set_sched_param}
use demo_os.Syscalls.Search.{holds_pid}
use demo_os.UserCalls.{UserSyscalls}
use demo_os.Spawn.{ProgramResult, returned, gone, configure, spawn_process}

search_slots-cong :
    (n i : ℕ) (pid : ℤ) (k k' : Kernel)
    → k'.processes ≡ k.processes
    → ((a : Ptr) → (k'.pcb a).pid ≡ (k.pcb a).pid)
    → search_slots n i pid k' ≡ search_slots n i pid k
unfolding search_slots
search_slots-cong zero i pid k k' table pids = refl
search_slots-cong (suc n) i pid k k' table pids =
    let slot : k'.processes i ≡ k.processes i = ap (λ (f : ℕ → Ptr). f i) table in
    let same : holds_pid pid k' i ≡ holds_pid pid k i = rw (slot, pids (k.processes i)) refl in
    elim (Bool-cases (holds_pid pid k i)) [
      | inl e ↦ let e' : holds_pid pid k' i ≡ true = same ∙ e in rw (e, e', search_slots) slot
      | inr e ↦
          let e' : holds_pid pid k' i ≡ false = same ∙ e in
          rw (e, e', search_slots) (search_slots-cong n (i + 1) pid k k' table pids)
    ]

-- The value that a call of sched_set_param takes over, if it is at least 1.
abbrev pub taken_over : (value old : ℤ) → ℤ
taken_over value old = if ltb_ℤ value (pos 1) then old else value

-- The function returns the PID, in a state that has the property.
abbrev pub ReturnsPid : {W : Type 0} → ℤ → (W → Type 0) → ProgramResult ℤ W → Type 0
ReturnsPid pid P (returned result w) = (result ≡ pid) × P w
ReturnsPid pid P (gone w) = ⊥

-- The priority and the tickets of `child` are set, and no other process's.
pub record Configured (child : Ptr) (p t : ℤ) (k k' : Kernel) : Type 0 where
  pub priority : (k'.pcb child).priority ≡ p
  pub tickets : (k'.pcb child).tickets ≡ t
  pub other_priority : (a : Ptr) → a ≢ child → (k'.pcb a).priority ≡ (k.pcb a).priority
  pub other_tickets : (a : Ptr) → a ≢ child → (k'.pcb a).tickets ≡ (k.pcb a).tickets
  pub pid : (a : Ptr) → (k'.pcb a).pid ≡ (k.pcb a).pid
  pub table : k'.processes ≡ k.processes

Configured-refl :
    (child : Ptr) (k : Kernel) → Configured child (k.pcb child).priority (k.pcb child).tickets k k
Configured-refl child k = record {
  priority = refl;
  tickets = refl;
  other_priority = λ a ne. refl;
  other_tickets = λ a ne. refl;
  pid = λ a. refl;
  table = refl;
}

module _ (child : Ptr) (k : Kernel) (ok : is_ignored child ≡ false) where
  set_priority :
      (value : ℤ)
      → Configured child
          (taken_over value (k.pcb child).priority)
          (k.pcb child).tickets
          k
          (sched_set_param child sched_param_priority value k).1
  unfolding sched_set_param
  set_priority value = elim (Bool-cases (ltb_ℤ value (pos 1))) [
    | inl low ↦ rw (ok, low) (Configured-refl child k)
    | inr fine ↦
        rw (ok, fine)
          (record {
            priority = ground arith;
            tickets = ground arith;
            other_priority = λ a ne. ground arith;
            other_tickets = λ a ne. ground arith;
            pid = λ a. ground arith;
            table = refl;
          })
  ]

  set_tickets :
      (value : ℤ)
      → Configured child
          (k.pcb child).priority
          (taken_over value (k.pcb child).tickets)
          k
          (sched_set_param child sched_param_tickets value k).1
  unfolding sched_set_param
  set_tickets value = elim (Bool-cases (ltb_ℤ value (pos 1))) [
    | inl low ↦ rw (ok, low) (Configured-refl child k)
    | inr fine ↦
        rw (ok, fine)
          (record {
            priority = ground arith;
            tickets = ground arith;
            other_priority = λ a ne. ground arith;
            other_tickets = λ a ne. ground arith;
            pid = λ a. ground arith;
            table = refl;
          })
  ]

  set_level :
      (level : ℕ)
      → Configured child
          (k.pcb child).priority
          (k.pcb child).tickets
          k
          (set_queue_priority child level k)
  unfolding set_queue_priority preempt_disable preempt_enable
  set_level level = record {
    priority = ground arith;
    tickets = ground arith;
    other_priority = λ a ne. ground arith;
    other_tickets = λ a ne. ground arith;
    pid = λ a. ground arith;
    table = refl;
  }

  set_level_param :
      (value : ℤ)
      → Configured child
          (k.pcb child).priority
          (k.pcb child).tickets
          k
          (sched_set_param child sched_param_queue_priority value k).1
  unfolding sched_set_param
  set_level_param value =
      elim (Bool-cases (ltb_ℤ value (pos 0) || not (ltb_ℤ value (pos ml_max_levels)))) [
        | inl out ↦ rw (ok, out) (Configured-refl child k)
        | inr in_range ↦ rw (ok, in_range) (set_level _)
      ]

Configured-trans :
    (child : Ptr) (p t p' t' : ℤ) (k k1 k2 : Kernel)
    → Configured child p t k k1
    → Configured child p' t' k1 k2
    → Configured child p' t' k k2
Configured-trans child p t p' t' k k1 k2 c d = record {
  priority = d.priority;
  tickets = d.tickets;
  other_priority = λ a ne. d.other_priority a ne ∙ c.other_priority a ne;
  other_tickets = λ a ne. d.other_tickets a ne ∙ c.other_tickets a ne;
  pid = λ a. d.pid a ∙ c.pid a;
  table = d.table ∙ c.table;
}

found-Configured :
    (pid : ℤ) (child : Ptr) (p t : ℤ) (k k' : Kernel)
    → Configured child p t k k'
    → search_process pid k ≡ child
    → search_process pid k' ≡ child
unfolding search_process
found-Configured pid child p t k k' c found =
    search_slots-cong n_processes_max 0 pid k k' c.table c.pid ∙ found

below_one : (v : ℤ) → ltb_ℤ v (pos 0) ≡ true → ltb_ℤ v (pos 1) ≡ true
below_one (pos n) e = absurd (ground arith)
below_one (negsuc n) e = refl

parent_pid :
    (pid : ℤ) → ltb_ℤ (pos 0) pid ≡ true → (ltb_ℤ pid (pos 0) ≡ false) × (eqb_ℤ pid (pos 0) ≡ false)
parent_pid (pos n) e = (ground arith, ground arith)
parent_pid (negsuc n) e = absurd (ground arith)

-- A program whose set_sched_param is the kernel's.
module _ (calls : UserSyscalls Kernel)
    (kernel_call : (pid param value : ℤ) (k : Kernel)
      → calls.call_set_sched_param pid param value k ≡ syscall_set_sched_param pid param value k)
    (pid : ℤ) (child : Ptr) (ok : is_ignored child ≡ false) where
  configure-step :
      (param value p t : ℤ) (k : Kernel)
      → search_process pid k ≡ child
      → (ltb_ℤ value (pos 0) ≡ true → (p ≡ (k.pcb child).priority) × (t ≡ (k.pcb child).tickets))
      → Configured child p t k (sched_set_param child param value k).1
      → Configured child p t k (configure calls pid param value k)
        × (search_process pid (configure calls pid param value k) ≡ child)
  unfolding configure syscall_set_sched_param
  configure-step param value p t k found negative set = elim (Bool-cases (ltb_ℤ value (pos 0))) [
    | inl low ↦
        let same = negative low in
        let kept : Configured child p t k k = rw (same.0, same.1) (Configured-refl child k) in
        rw low (kept, found)
    | inr fine ↦
        let not_null : (child == null) ≡ false = ground arith in
        rw (fine, kernel_call pid param value k, found, not_null)
          (set, found-Configured pid child p t k _ set found)
  ]

  spawn_process-parent :
      (path : List ℕ) (priority tickets queue_priority : ℤ) (k k1 : Kernel)
      → calls.call_fork k ≡ (pid, k1)
      → ltb_ℤ (pos 0) pid ≡ true
      → spawn_process calls path priority tickets queue_priority k
        ≡ returned pid (
            configure calls pid sched_param_queue_priority queue_priority (
              configure calls pid sched_param_tickets tickets
                (configure calls pid sched_param_priority priority k1)))
  unfolding spawn_process
  spawn_process-parent path priority tickets queue_priority k k1 forked parent =
      let sign = parent_pid pid parent in rw (forked, sign.0, sign.1) refl

-- spawn_process, in a program whose set_sched_param is the call of the kernel, and when its
-- fork returns a positive PID that the search by PID finds to be a process other than NULL and
-- the idle task, returns that PID. The child has the given priority if that is at least 1, else
-- the one that it had after the fork, and likewise its tickets; no other process has its
-- priority or tickets changed.
pub spawn_process-Configured :
    (calls : UserSyscalls Kernel)
    → ((pid param value : ℤ) (k : Kernel)
        → calls.call_set_sched_param pid param value k ≡ syscall_set_sched_param pid param value k)
    → (pid : ℤ) (child : Ptr) → is_ignored child ≡ false
    → (path : List ℕ) (priority tickets queue_priority : ℤ) (k k1 : Kernel)
    → calls.call_fork k ≡ (pid, k1)
    → ltb_ℤ (pos 0) pid ≡ true
    → search_process pid k1 ≡ child
    → ReturnsPid pid
        (Configured child
          (taken_over priority (k1.pcb child).priority)
          (taken_over tickets (k1.pcb child).tickets)
          k1)
        (spawn_process calls path priority tickets queue_priority k)
spawn_process-Configured calls kernel_call pid child ok path priority tickets queue_priority k k1
      forked parent found =
    let p1 = (k1.pcb child).priority in
    let t1 = (k1.pcb child).tickets in
    let keep : ((value old : ℤ) → ltb_ℤ value (pos 0) ≡ true → taken_over value old ≡ old) =
      λ value old low. rw (below_one value low) refl in
    let first =
      configure-step calls kernel_call pid child ok sched_param_priority priority
        (taken_over priority p1) t1 k1 found (λ low. (keep priority p1 low, refl))
        (set_priority child k1 ok priority) in
    let k2 = configure calls pid sched_param_priority priority k1 in
    let second =
      configure-step calls kernel_call pid child ok sched_param_tickets tickets
        (k2.pcb child).priority (taken_over tickets (k2.pcb child).tickets) k2 first.1
        (λ low. (refl, keep tickets (k2.pcb child).tickets low))
        (set_tickets child k2 ok tickets) in
    let k3 = configure calls pid sched_param_tickets tickets k2 in
    let third =
      configure-step calls kernel_call pid child ok sched_param_queue_priority queue_priority
        (k3.pcb child).priority (k3.pcb child).tickets k3 second.1 (λ low. (refl, refl))
        (set_level_param child k3 ok queue_priority) in
    let k4 = configure calls pid sched_param_queue_priority queue_priority k3 in
    let all =
      Configured-trans child _ _ _ _ k1 k2 k4 first.0
        (Configured-trans child _ _ _ _ k2 k3 k4 second.0 third.0) in
    rw
      (spawn_process-parent calls kernel_call pid child ok path priority tickets queue_priority k k1
        forked parent)
      (
        refl,
        record {
          priority = third.0.priority ∙ second.0.priority ∙ first.0.priority;
          tickets = third.0.tickets ∙ second.0.tickets ∙ ap (taken_over tickets) first.0.tickets;
          other_priority = all.other_priority;
          other_tickets = all.other_tickets;
          pid = all.pid;
          table = all.table;
        },
      )
