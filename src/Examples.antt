-- ===== src/Examples.antt =====
-- Concrete inputs for the theorems of the other modules, and tests of the definitions.
pub mod Data
mod Queue
mod Claims
mod Sample
mod Records
mod Routes
mod Owners
mod Adoptions
mod Outer
mod Lifecycles
mod Settings
