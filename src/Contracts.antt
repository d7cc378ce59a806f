-- ===== src/Contracts.antt =====
-- libs/contracts/src/events: what a message is and which version of the contract it claims.
pub mod Value
pub mod SchemaVersion
pub mod Events
pub mod Zod
pub mod Schemas
pub mod Objects
pub mod Typed
pub mod Upcast
pub mod Json
pub mod Samples
pub mod Examples
