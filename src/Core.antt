-- ===== src/Core.antt =====
-- src/core: values, row identifiers and the string pool of a table.
pub mod Float
pub mod Value
pub mod Hash
pub mod Id
pub mod Pool
