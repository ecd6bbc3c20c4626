-- ===== src/Queue/Sorted.antt =====
-- The sorted insertion of SJF.
mod Place
mod Link
mod Insertion
pub use Place.*
pub use Link.*
pub use Insertion.*
