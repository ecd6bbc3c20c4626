-- ===== src/System/Receive.antt =====
-- The loops of the UART that receive characters and wake readers, under Round Robin.
use demo_os.Base.{
  ℕ, zero, suc, ◌+◌, ◌/◌, ◌%◌, ◌≤◌, ◌<◌, ◌≡◌, ◌≢◌, refl, ap, ◌∙◌, true, false, not, ◌==◌, ◌||◌,
  List, [], ◌∷◌, ◌++◌, arith, inl, inr, Bool-cases, has, has-append, ◌∈◌, ◌∉◌, Returns, returns,
  Returns-bind, Returns-mono,
}
use demo_os.Process.{
  Ptr, null, init_process, Pcb, State, is_running, is_ready, is_waiting_uart_input, n_processes_max,
}
use demo_os.Queue.{is_ignored}
use demo_os.Queue.Chain.{IsQueue-frame}
use demo_os.Kernel.{Kernel, QueueRef, set_pcb, enqueue_to}
use demo_os.Sched.Enqueue.{enqueue_process}
use demo_os.Sched.Table.{mem-slots}
use demo_os.Sched.Dispatch.Wake.{is_fifo, entered-Inv, entered_at, enqueue_process-fifo}
use demo_os.Console.{Uart, wake_readers, receive_word, receive_words}
use demo_os.System.Sound.{table, Queued, Sound}

-- Entering the queue does not disturb the rest.
module _ (p : Ptr) (c : Pcb) (k : Kernel) (s : Sound k) (ok : is_ignored p ≡ false)
    (listed : p ∈ table k) (out : p ∉ s.queue) (off : is_running (k.pcb p).state ≡ false) where
  entering-Queued : Queued (enqueue_to QueueRef.ready_queue p (set_pcb k p c)) (s.queue ++ (p ∷ []))
  entering-Queued =
      let q = s.queued in
      record {
        inv = entered-Inv p c k s.queue q.inv ok out;
        in_table = λ a m. elim (Bool-cases (has a s.queue)) [
          | inl old ↦ q.in_table a old
          | inr new ↦
              let same : a ≡ p = ground (arith, has-append a s.queue (p ∷ [])) in rw same listed
        ];
        current = q.current;
        first_slot = q.first_slot;
        idle_awake =
            let h = q.idle_awake in
            ground (arith, entered_at p c k s.queue q.inv ok out init_process);
        algorithm = q.algorithm;
        tidy = q.tidy;
        counted = q.counted;
        bounded = q.bounded;
        filled = q.filled;
        free_slots = q.free_slots;
      }

  entering-Sound : Sound (enqueue_to QueueRef.ready_queue p (set_pcb k p c))
  entering-Sound = record {
    queue = s.queue ++ (p ∷ []);
    queued = entering-Queued;
    running =
        let r = s.running in
        ground (arith, entered_at p c k s.queue s.queued.inv ok out k.current_process);
  }

-- The idle task becomes READY, which puts it in no queue.
idle-Sound :
    (k : Kernel)
    → Sound k
    → Sound (set_pcb k init_process (record (k.pcb init_process) { state = State.ready }))
idle-Sound k s =
    let q = s.queued in
    let i = q.inv in
    record {
      queue = s.queue;
      queued = record {
        inv = record {
          queue = IsQueue-frame _ (λ a m. ground arith) i.queue;
          ready = λ a m. ground (arith, i.ready a m);
          complete = λ a e ne. ground (arith, i.complete a);
          running = λ a e. ground (arith, i.running a);
          idle_out = i.idle_out;
          current_ne = i.current_ne;
        };
        in_table = q.in_table;
        current = q.current;
        first_slot = q.first_slot;
        idle_awake = refl;
        algorithm = q.algorithm;
        tidy = q.tidy;
        counted = q.counted;
        bounded = q.bounded;
        filled = q.filled;
        free_slots = q.free_slots;
      };
      running = let r = s.running in ground arith;
    }

-- Sound, with as many processes and the same current one.
pub record Steady (k k' : Kernel) : Type 0 where
  pub sound : Sound k'
  pub n_processes : k'.n_processes ≡ k.n_processes
  pub current : k'.current_process ≡ k.current_process

pub Steady-refl : (k : Kernel) → Sound k → Steady k k
Steady-refl k s = record { sound = s; n_processes = refl; current = refl }

pub Steady-trans : {k k' k'' : Kernel} → Steady k k' → Steady k' k'' → Steady k k''
Steady-trans p q = record {
  sound = q.sound;
  n_processes = q.n_processes ∙ p.n_processes;
  current = q.current ∙ p.current;
}

-- A process of the table that neither runs nor is queued becomes READY.
pub enqueue_process-Steady :
    (p : Ptr) (k : Kernel)
    → Sound k
    → p ≢ null
    → (p == init_process || has p (table k)) ≡ true
    → is_ready (k.pcb p).state ≡ false
    → is_running (k.pcb p).state ≡ false
    → Returns
        (Steady k)
        (enqueue_process p (set_pcb k p (record (k.pcb p) { state = State.ready })))
unfolding enqueue_process
enqueue_process-Steady p k s some_process known waits off = elim (Bool-cases (p == init_process)) [
  | inl idle ↦
      let same : p ≡ init_process = ground arith in
      rw same (returns (record { sound = idle-Sound k s; n_processes = refl; current = refl }))
  | inr user ↦
      let c : Pcb = record (k.pcb p) { state = State.ready } in
      let ok : is_ignored p ≡ false = ground arith in
      let out : p ∉ s.queue = let r = s.queued.inv.ready p in ground arith in
      let listed : p ∈ table k = ground arith in
      let fifo : is_fifo (set_pcb k p c).active_algorithm ≡ true = ap is_fifo s.queued.algorithm in
      rw (enqueue_process-fifo p (set_pcb k p c) fifo ok) (
        returns (record {
          sound = entering-Sound p c k s ok listed out off;
          n_processes = refl;
          current = refl;
        }))
]

-- A slot of the table.
pub known_slot :
    (i : ℕ) (k : Kernel)
    → Sound k
    → i < n_processes_max
    → (k.processes i == init_process || has (k.processes i) (table k)) ≡ true
known_slot i k s hi = elim (Bool-cases (i == 0)) [
  | inl e ↦ let z : i ≡ 0 = ground arith in let f = s.queued.first_slot in rw (z, f) refl
  | inr e ↦ let m = mem-slots 63 1 k.processes i (ground arith) (omega arith) in ground arith
]

wake_readers-Steady :
    (n i : ℕ) (k : Kernel)
    → Sound k
    → i + n ≤ k.n_processes
    → Returns (Steady k) (wake_readers n i k)
unfolding wake_readers
wake_readers-Steady zero i k s l = returns (Steady-refl k s)
wake_readers-Steady (suc n) i k s l =
    let slot : (k.processes i == null) ≡ false =
      let f = s.queued.filled i (omega arith) in ground arith in
    let rest : (k1 : Kernel) → Steady k k1 → Returns (Steady k) (wake_readers n (i + 1) k1) =
      λ k1 p.
        Returns-mono
          (wake_readers-Steady n (i + 1) k1 p.sound (let e = p.n_processes in omega arith))
          λ k2 r. Steady-trans p r in
    elim (Bool-cases (is_waiting_uart_input (k.pcb (k.processes i)).state)) [
      | inl w ↦
          let known = known_slot i k s (let b = s.queued.bounded in omega arith) in
          rw (slot, w)
            (Returns-bind
              (enqueue_process-Steady (k.processes i) k s (s.queued.filled i (omega arith)) known
                (ground arith) (ground arith))
              rest)
      | inr w ↦ rw (slot, w) (rest k (Steady-refl k s))
    ]

receive_word-Sound :
    (dr : ℕ) (u : Uart) (k : Kernel)
    → Sound k
    → Returns (λ (u', k'). Sound k') (receive_word dr u k)
unfolding receive_word
receive_word-Sound dr u k s = elim (Bool-cases (not (dr / 256 % 16 == 0))) [
  | inl bad ↦ rw bad (returns s)
  | inr ok ↦
      rw ok (
        Returns-bind (wake_readers-Steady k.n_processes 0 k s (omega arith))
          λ k1 p. returns p.sound)
]

pub receive_words-Sound :
    (drs : List ℕ) (u : Uart) (k : Kernel)
    → Sound k
    → Returns (λ (u', k'). Sound k') (receive_words drs u k)
unfolding receive_words
receive_words-Sound [] u k s = returns s
receive_words-Sound (dr ∷ drs) u k s =
    Returns-bind (receive_word-Sound dr u k s) λ (u1, k1) s1. receive_words-Sound drs u1 k1 s1
