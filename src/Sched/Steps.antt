-- ===== src/Sched/Steps.antt =====
-- The steps that the selections over the shared ready queue have in common.
mod Requeue
mod Removal
mod Running
mod Kept
pub use Requeue.*
pub use Removal.*
pub use Running.*
pub use Kept.*
