-- ===== src/Sched.antt =====
-- libs/scheduler.c, by part: insertion policies and registration (`Enqueue`), signals and the
-- context switch (`Signals`), the selection functions of the algorithms, and the entry points
-- (`Dispatch`).
pub mod Enqueue
pub mod Signals
pub mod Pick
pub mod Lottery
pub mod Aging
pub mod Multilevel
pub mod Dispatch
pub mod Invariant
pub mod Steps
pub mod Unlink
pub mod Table
pub mod Frame
