-- ===== src/IdAlloc.antt =====
-- crates/athera-id-alloc/src/lib.rs: the ID allocator. `Id` is the trait, `Ranges` the table of
-- free intervals, `Flat` the private `FlatAlloc` and `Major` the public two-level `IdAlloc`.
pub mod Id
pub mod Ranges
pub mod Flat
pub mod Major
mod Tests
