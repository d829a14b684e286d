-- ===== src/Root1.antt =====
-- The coordination layer: core/root1_resource_broker.h and core/root1_resource_broker.cpp.
pub mod Mailbox
pub mod Descriptor
pub mod Publication
pub mod Publishing
pub mod Polling
pub mod Resource
pub mod Broker
pub mod Slab
pub mod Leases
pub mod Messages
pub mod Await
pub mod AwaitTests
pub mod Tests
