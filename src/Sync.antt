-- ===== src/Sync.antt =====
-- Synchronisation (src/sync).
pub mod Mutex
pub mod AtomData
pub mod Condition
pub mod Barrier
pub mod SpinMutex
pub mod ConditionVariable
pub mod Examples
