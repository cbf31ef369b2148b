-- ===== src/Domain.antt =====
-- lied/src/domain: the entities and their rules.
pub mod Entities
pub mod CollectionItem
pub mod Membership
pub mod User
pub mod Coverage
pub mod PartAssignment
pub mod File
pub mod AuditLog
