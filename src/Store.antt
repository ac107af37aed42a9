-- ===== src/Store.antt =====
-- core/store: the store, its databases and the commands on them.
pub mod Entry
pub mod WalkSet
pub mod Vector
pub mod Db
pub mod Names
pub mod Clean
pub mod Compact
pub mod Aof
pub mod Set
pub mod Get
pub mod Del
pub mod Ttl
pub mod SetField
pub mod Incr
pub mod Replay
pub mod Load
pub mod Scan
pub mod Heap
pub mod Search
pub mod Core
pub mod Close
pub mod Exec
pub mod Durable
