-- ===== src/Examples.antt =====
-- Concrete inputs for the theorems with hypotheses, one module for each program.
mod Auth
mod Lifecycle
mod Tester
mod Client
mod Program
