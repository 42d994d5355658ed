-- ===== src/Fair.antt =====
-- packages/fair/src: the provably fair derivations, from the hash up to the outcome of each game.
pub mod Hash
pub mod Floats
pub mod Shuffle
pub mod Cards
pub mod Lottery
pub mod Tickets
pub mod Derive
mod Tests
