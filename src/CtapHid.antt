-- ===== src/CtapHid.antt =====
-- The CTAPHID transport engine of src/ctaphid.rs.
-- `Engine` is the code's `CtapHid<N>`; the build (`N`, and whether the update command is compiled
-- in) is the argument `b` of the operations that depend on it. An operation on `&mut self` returns
-- the new engine. The children of this module prove what holds of it.
pub mod Protocol
pub mod State
pub mod Receive
pub mod Transmit
pub mod Invariant
pub mod Run
pub mod Frames
pub mod Errors
pub mod Arbitration
