-- ===== src/Core/Containers.antt =====
-- The containers on arenas (core/container.h).
pub mod NameOrder
pub mod AaTree
pub mod SavedNodes
