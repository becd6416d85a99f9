-- ===== src/Esi.antt =====
-- The package esi.
pub mod Fragment
pub mod Attribute
pub mod Tag
pub mod Scanner
pub mod Splice
pub mod Surrogate
pub mod Guard
pub mod Reconcile
pub mod Fetch
pub mod Options
pub mod Flight
pub mod Execute
