-- ===== src/System/Changes.antt =====
-- syscall_send_signal and syscall_set_sched_param, which change a process but switch to none.
use demo_os.Base.{ℕ, ◌≡◌, refl, ◌==◌, ◌||◌, if◌then◌else◌, arith, inl, inr, Bool-cases, not}
use demo_os.Base.Int.{ℤ, pos, negsuc, eqb_ℤ, ltb_ℤ, to_ℕ}
use demo_os.Process.{Ptr, null, Pcb}
use demo_os.Queue.{is_ignored}
use demo_os.Kernel.{Kernel, set_pcb, preempt_enable, preempt_disable}
use demo_os.Sched.Enqueue.{
  set_queue_priority, sched_set_param, sched_param_priority, sched_param_tickets,
  sched_param_queue_priority, clamp_to_policy,
}
use demo_os.Ipc.{send_signal}
use demo_os.Syscalls.{search_process, syscall_send_signal, syscall_set_sched_param}
use demo_os.System.Sound.{Sound, Alike, Sound-Alike}

Alike-refl : (k : Kernel) → Alike k k
Alike-refl k = record {
  states = λ a. refl;
  links = λ a. refl;
  queue = refl;
  current = refl;
  processes = refl;
  n_processes = refl;
  algorithm = refl;
  marks = λ i e. e;
}

set_pcb-Alike :
    (p : Ptr) (c : Pcb) (k : Kernel)
    → c.state ≡ (k.pcb p).state
    → c.next_ready ≡ (k.pcb p).next_ready
    → Alike k (set_pcb k p c)
set_pcb-Alike p c k state link = record {
  states = λ a. ground arith;
  links = λ a. ground arith;
  queue = refl;
  current = refl;
  processes = refl;
  n_processes = refl;
  algorithm = refl;
  marks = λ i e. e;
}

set_queue_priority-Alike :
    (p : Ptr) (level : ℕ) (k : Kernel) → Alike k (set_queue_priority p level k)
unfolding set_queue_priority preempt_enable preempt_disable
set_queue_priority-Alike p level k = record {
  states = λ a. ground arith;
  links = λ a. ground arith;
  queue = refl;
  current = refl;
  processes = refl;
  n_processes = refl;
  algorithm = refl;
  marks = λ i e. e;
}

sched_set_param-Alike :
    (p : Ptr) (param value : ℤ) (k : Kernel) → Alike k (sched_set_param p param value k).1
unfolding sched_set_param
sched_set_param-Alike p param value k = elim (Bool-cases (is_ignored p)) [
  | inl e ↦ rw e (Alike-refl k)
  | inr e ↦ rw e (elim (Bool-cases (eqb_ℤ param sched_param_priority)) [
    | inl a ↦ rw a (elim (Bool-cases (ltb_ℤ value (pos 1))) [
      | inl bad ↦ rw bad (Alike-refl k)
      | inr ok ↦ rw ok (set_pcb-Alike p _ k refl refl)
    ])
    | inr a ↦ rw a (elim (Bool-cases (eqb_ℤ param sched_param_tickets)) [
      | inl b ↦ rw b (elim (Bool-cases (ltb_ℤ value (pos 1))) [
        | inl bad ↦ rw bad (Alike-refl k)
        | inr ok ↦ rw ok (set_pcb-Alike p _ k refl refl)
      ])
      | inr b ↦ rw b (elim (Bool-cases (eqb_ℤ param sched_param_queue_priority)) [
        | inl c ↦ rw c (range p value k)
        | inr c ↦ rw c (Alike-refl k)
      ])
    ])
  ])
]
  where
    range :
        (p : Ptr) (value : ℤ) (k : Kernel)
        → Alike k
            (if◌then◌else◌ {A = ℤ × Kernel}
              (ltb_ℤ value (pos 0) || not (ltb_ℤ value (pos 5)))
              (negsuc 0, k)
              (pos 0, set_queue_priority p (clamp_to_policy k.active_algorithm (to_ℕ value)) k)).1
    range p value k = elim (Bool-cases (ltb_ℤ value (pos 0) || not (ltb_ℤ value (pos 5)))) [
      | inl bad ↦ rw bad (Alike-refl k)
      | inr ok ↦ rw ok (set_queue_priority-Alike p _ k)
    ]

pub syscall_set_sched_param-Sound :
    (pid param value : ℤ) (k : Kernel)
    → Sound k
    → Sound (syscall_set_sched_param pid param value k).1
unfolding syscall_set_sched_param
syscall_set_sched_param-Sound pid param value k s =
    elim (Bool-cases (search_process pid k == null)) [
      | inl e ↦ rw e s
      | inr e ↦
          rw e (Sound-Alike k _ (sched_set_param-Alike (search_process pid k) param value k) s)
    ]

pub syscall_send_signal-Sound :
    (pid : ℤ) (signal_flag : ℕ) (k : Kernel)
    → Sound k
    → Sound (syscall_send_signal pid signal_flag k).1
unfolding syscall_send_signal send_signal
syscall_send_signal-Sound pid signal_flag k s = elim (Bool-cases (search_process pid k == null)) [
  | inl e ↦ rw e s
  | inr e ↦ rw e (Sound-Alike k _ (set_pcb-Alike (search_process pid k) _ k refl refl) s)
]
