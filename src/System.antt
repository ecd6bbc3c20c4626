-- ===== src/System.antt =====
-- The kernel under Round Robin as a system of steps: the entry points of libs/syscalls.c and the
-- timer tick of libs/scheduler.c, what holds between two of them, and what runs when.
pub mod Tidy
pub mod Sound
pub mod Switching
pub mod Exit
pub mod Changes
pub mod Register
pub mod Returned
pub mod Receive
pub mod Messages
pub mod Receipts
pub mod Grow
pub mod Mapping
pub mod Forking
pub mod Irq
pub mod Clock
pub mod Reach
pub mod Fair
