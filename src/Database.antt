-- ===== src/Database.antt =====
-- app/infrastructure/database.
pub mod Models
pub mod Session
pub mod Tables
pub mod UserMapper
pub mod TokenMapper
pub mod UserRepository
pub mod TokenRepository
pub mod UnitOfWork
pub mod Faults
pub mod Memory
pub mod Shared
pub mod Schema
pub mod Declared
pub mod Engine
pub mod Migrations
