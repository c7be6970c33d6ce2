-- ===== src/System.antt =====
-- The parts of the kernel together: what holds between any two operations, in all states that it reaches.
pub mod Processes
pub mod Spawn
pub mod Exit
pub mod Setup
pub mod Zeroed
pub mod Reach
pub mod Waiting
pub mod Events
pub mod Rounds
pub mod Ticks
pub mod Placed
pub mod Invariant
pub mod Counted
pub mod Tally
pub mod Cleared
pub mod Turn
pub mod Moves
pub mod Calls
pub mod Objects
pub mod Conditions
pub mod Mutex
pub mod Pick
pub mod Acquire
pub mod Handlers
