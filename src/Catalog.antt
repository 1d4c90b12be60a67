-- ===== src/Catalog.antt =====
-- src/catalog: what the engine knows of its tables and indexes.
pub mod Schema
pub mod Texts
pub mod Words
pub mod Codec
pub mod Manager
