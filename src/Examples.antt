-- ===== src/Examples.antt =====
-- Concrete states, tests of the definitions, and the theorems at these states.
pub mod States
mod Queues
mod Selections
mod Dispatcher
mod Running
mod Volumes
mod Terminals
mod Pages
mod Characters
mod Programs
mod Levels
