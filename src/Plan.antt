-- ===== src/Plan.antt =====
-- PafioPlan/CompilePlan.cpp: the parts of a compile plan.
pub mod Order
pub mod Entry
pub mod Invocations
pub mod Checks
