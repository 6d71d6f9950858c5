-- ===== src/Security.antt =====
-- src/security/LifecycleManager: the lockdown state.
pub mod Lifecycle

-- `LockdownState` of src/security/LifecycleManager.h.
pub data LockdownState : Type 0 where
  safe close immediate : LockdownState
