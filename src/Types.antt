-- ===== src/Types.antt =====
-- include/kvdb.h: the enumerations and the small functions on them. `TxnId` and `SessionId` are
-- `uint32_t`, here ℕ; their wrap-around is written where they are counted up.
use concurrent_transactional.Prelude.{Bytes, codes, bytes_eq, Bool, true, false, if◌then◌else◌}

pub data LockMode : Type 0 where
  none shared exclusive : LockMode

-- `mode == LockMode::NONE` and the like.
abbrev pub is_none : LockMode → Bool
is_none LockMode.none = true
is_none LockMode.shared = false
is_none LockMode.exclusive = false

abbrev pub is_shared : LockMode → Bool
is_shared LockMode.none = false
is_shared LockMode.shared = true
is_shared LockMode.exclusive = false

abbrev pub is_exclusive : LockMode → Bool
is_exclusive LockMode.none = false
is_exclusive LockMode.shared = false
is_exclusive LockMode.exclusive = true

unfoldable pub lock_mode_to_string : LockMode → Bytes
lock_mode_to_string LockMode.none = codes "NONE"
lock_mode_to_string LockMode.shared = codes "SHARED"
lock_mode_to_string LockMode.exclusive = codes "EXCLUSIVE"

pub data IsolationLevel : Type 0 where
  read_committed repeatable_read : IsolationLevel

unfoldable pub parse_isolation_level : Bytes → IsolationLevel
parse_isolation_level str =
    if bytes_eq str (codes "READ_COMMITTED")
    then IsolationLevel.read_committed
    else IsolationLevel.repeatable_read

pub data TxnState : Type 0 where
  idle active committed aborted : TxnState
