-- ===== src/Kanren.antt =====
-- The logic engine: kanren/kanren.h and kanren/kanren.cpp.
pub mod Goal
pub mod Stream
pub mod Term
pub mod Unify
pub mod Search
pub mod Tests
