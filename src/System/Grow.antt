-- ===== src/System/Grow.antt =====
-- get_free_page, and what it and other writes to the memory do to the PCBs outside the free pages.
use demo_os.Base.{ℕ, ◌+◌, ◌≡◌, ◌≢◌, refl, true, false, ◌==◌, Option, none, some, arith}
use demo_os.Process.{Ptr, Pcb, is_ready, is_running}
use demo_os.Kernel.{Kernel, set_pcb}
use demo_os.Memory.{va_start, n_pages, page_address, zero_page, mark_page, find_free, get_free_page}
use demo_os.Memory.Pages.{FirstFree, find_free-FirstFree}
use demo_os.System.Tidy.{Guarded}

-- Guarded PCBs keep their states and links, no PCB becomes READY or RUNNING, no page becomes free.
pub record Grew (k k' : Kernel) : Type 0 where
  pub states : (a : Ptr) → Guarded k.memory.memory_pages a → (k'.pcb a).state ≡ (k.pcb a).state
  pub links :
      (a : Ptr) → Guarded k.memory.memory_pages a → (k'.pcb a).next_ready ≡ (k.pcb a).next_ready
  pub ready : (a : Ptr) → is_ready (k'.pcb a).state ≡ true → is_ready (k.pcb a).state ≡ true
  pub running : (a : Ptr) → is_running (k'.pcb a).state ≡ true → is_running (k.pcb a).state ≡ true
  pub marks : (i : ℕ) → k'.memory.memory_pages i ≡ 0 → k.memory.memory_pages i ≡ 0
  pub queue : k'.ready_queue ≡ k.ready_queue
  pub current : k'.current_process ≡ k.current_process
  pub processes : k'.processes ≡ k.processes
  pub n_processes : k'.n_processes ≡ k.n_processes
  pub algorithm : k'.active_algorithm ≡ k.active_algorithm

pub Grew-refl : (k : Kernel) → Grew k k
Grew-refl k = record {
  states = λ a g. refl;
  links = λ a g. refl;
  ready = λ a e. e;
  running = λ a e. e;
  marks = λ i e. e;
  queue = refl;
  current = refl;
  processes = refl;
  n_processes = refl;
  algorithm = refl;
}

-- No guarded PCB stands in the page.
abbrev pub Unguarded : Kernel → ℕ → Type 0
Unguarded k page = (a : Ptr) → Guarded k.memory.memory_pages a → page + va_start ≢ a

module _ (k0 : Kernel) where
  -- A write to the memory alone.
  pub ram-Grew :
      (k : Kernel) (ram : ℕ → ℕ)
      → Grew k0 k
      → Grew k0 (record k { memory = record k.memory { ram = ram } })
  ram-Grew k ram g = record {
    states = g.states;
    links = g.links;
    ready = g.ready;
    running = g.running;
    marks = g.marks;
    queue = g.queue;
    current = g.current;
    processes = g.processes;
    n_processes = g.n_processes;
    algorithm = g.algorithm;
  }

  -- A write to a PCB that keeps its state and its link.
  pub set_pcb-Grew :
      (p : Ptr) (c : Pcb) (k : Kernel)
      → c.state ≡ (k.pcb p).state
      → c.next_ready ≡ (k.pcb p).next_ready
      → Grew k0 k
      → Grew k0 (set_pcb k p c)
  set_pcb-Grew p c k state link g = record {
    states = λ a h. let e = g.states a h in ground arith;
    links = λ a h. let e = g.links a h in ground arith;
    ready = λ a e. let r = g.ready a in ground arith;
    running = λ a e. let r = g.running a in ground arith;
    marks = g.marks;
    queue = g.queue;
    current = g.current;
    processes = g.processes;
    n_processes = g.n_processes;
    algorithm = g.algorithm;
  }

  pub zero_page-Grew :
      (page : ℕ) (k : Kernel) → Unguarded k0 page → Grew k0 k → Grew k0 (zero_page page k)
  zero_page-Grew page k u g = record {
    states = λ a h. let n = u a h in let e = g.states a h in ground arith;
    links = λ a h. let n = u a h in let e = g.links a h in ground arith;
    ready = λ a e. let r = g.ready a in ground arith;
    running = λ a e. let r = g.running a in ground arith;
    marks = g.marks;
    queue = g.queue;
    current = g.current;
    processes = g.processes;
    n_processes = g.n_processes;
    algorithm = g.algorithm;
  }

  mark_page-Grew : (i : ℕ) (k : Kernel) → Grew k0 k → Grew k0 (mark_page i 1 k)
  mark_page-Grew i k g = record {
    states = g.states;
    links = g.links;
    ready = g.ready;
    running = g.running;
    marks = λ j e. let m = g.marks j in ground arith;
    queue = g.queue;
    current = g.current;
    processes = g.processes;
    n_processes = g.n_processes;
    algorithm = g.algorithm;
  }

  first-Unguarded : Unguarded k0 0
  first-Unguarded a h e = h.not_first (omega arith)

  -- The page that is given out, or 0 for none.
  pub get_free_page-Grew :
      (k : Kernel) → Grew k0 k → Grew k0 (get_free_page k).1 × Unguarded k0 (get_free_page k).0
  unfolding get_free_page
  get_free_page-Grew k g =
      found (find_free n_pages 0 k.memory.memory_pages) refl
        (find_free-FirstFree n_pages 0 k.memory.memory_pages)
    where
      found :
          (o : Option ℕ)
          → find_free n_pages 0 k.memory.memory_pages ≡ o
          → FirstFree n_pages 0 k.memory.memory_pages o
          → Grew k0 (get_free_page k).1 × Unguarded k0 (get_free_page k).0
      found none e f = rw (e, get_free_page) (g, first-Unguarded)
      found (some _) e (FirstFree.first_free m lo hi free before) =
          let u : Unguarded k0 (page_address m) =
            λ a h. h.not_free m (omega arith) (g.marks m free) in
          rw (e, get_free_page)
            (zero_page-Grew (page_address m) (mark_page m 1 k) u (mark_page-Grew m k g), u)

-- A page that was given out is free no more.
pub get_free_page-Guarded :
    (k : Kernel)
    → ((get_free_page k).0 == 0) ≡ false
    → Guarded (get_free_page k).1.memory.memory_pages ((get_free_page k).0 + va_start)
unfolding get_free_page
get_free_page-Guarded k some_page = found (find_free n_pages 0 k.memory.memory_pages) refl
  where
    no_page : (0 == 0) ≢ false
    no_page e = cc

    found :
        (o : Option ℕ)
        → find_free n_pages 0 k.memory.memory_pages ≡ o
        → Guarded (get_free_page k).1.memory.memory_pages ((get_free_page k).0 + va_start)
    found none e = absurd (no_page (rw (e, get_free_page) at some_page))
    found (some m) e =
        rw (e, get_free_page)
          (record {
            not_first = omega arith;
            not_free = λ i hi free same. let at : i ≡ m = omega arith in ground arith;
          })
