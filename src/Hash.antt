-- ===== src/Hash.antt =====
-- hash.h: a growing open-addressing multimap from 64-bit hashes to 64-bit values.
pub mod Table
pub mod Rehash
pub mod Update
pub mod Count
pub mod Content
pub mod Valid
pub mod Search
pub mod Find
pub mod Change
pub mod Remove
pub mod Fill
pub mod Round
pub mod InsertLoop
pub mod Place
pub mod CopyAll
pub mod Grow
pub mod SetLoop
pub mod Insert
pub mod FindInserted
pub mod Reserve
pub mod Multiset
pub mod Set
pub mod RemoveAll
pub mod Bugs
mod Tests
