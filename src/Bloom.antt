-- ===== src/Bloom.antt =====
-- The NSRL bloom filter: bloom.c and bloom.h.
pub mod Types
pub mod Header
pub mod Filter
pub mod Create
pub mod Open
pub mod Usage
pub mod Class
pub mod Disk
