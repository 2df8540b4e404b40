-- ===== src/Fib.antt =====
-- The FIB-Strategy table of table/fib-strategy*.go: what its two implementations share, the
-- longest-prefix specification that both meet, and the implementations.
pub mod Hops
pub mod Spec
pub mod Tree
pub mod HashTable
pub mod Rotate
pub mod Agreement
pub mod Equivalence
mod Tests
