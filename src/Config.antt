-- ===== src/Config.antt =====
-- meridian-relay/src/config.rs in its unix build: the types and the defaults (Types), octal modes
-- (Octal), the layers above the defaults (Merge), loading and validation (Load).
pub mod Types
pub mod Octal
pub mod Merge
pub mod Load
pub mod Layers
pub mod Local
pub mod Bounds
pub mod Sizes
