-- ===== src/Engine.antt =====
-- The discrete-event simulation engine (crates/pirx-core/src/engine/): its state, the handlers of
-- the simulation loop, the construction and the loop itself, and then what the loop guarantees.
pub mod State
pub mod Dispatch
pub mod Moves
pub mod Accounts
pub mod Refinement
pub mod Soundness
pub mod Fairness
pub mod Progress
pub mod Construct
pub mod Start
pub mod Completion
pub mod Accepted
pub mod Termination
pub mod Totals
pub mod Run
