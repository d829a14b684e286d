-- ===== src/Core.antt =====
-- The arenas under the values: core/alloc.h, core/alloc.cpp and core/container.h.
pub mod Reader
pub mod Images
pub mod Containers
pub mod BlobAllocator
pub mod SlotAllocator
pub mod Tests
pub mod SlotTests
