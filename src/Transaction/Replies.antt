-- ===== src/Transaction/Replies.antt =====
-- What the methods of the transaction manager return: the empty string for success, or a message.
use concurrent_transactional.Prelude.{
  ℕ, zero, suc, ◌+◌, ◌/◌, ◌%◌, ltb, Bytes, codes, [], ◌∷◌, ◌++◌, is_empty, true, false, Bool, ◌≡◌,
  refl, if◌then◌else◌,
}

pub data Status : Type 0 where
  success no_server not_in_transaction no_lock_manager deadlock deleted_here no_store not_found :
      Status
  already_in_transaction : ℕ → Status

-- `std::to_string`: the digits of a number, for up to `fuel` of them.
unfoldable pub digits : ℕ → ℕ → Bytes
digits zero n = []
digits (suc fuel) n =
    let rest = digits fuel (n / 10) in
    let last = (b'0' + n % 10) ∷ [] in if ltb n 10 then last else rest ++ last

-- A 64-bit number has at most 20 digits.
unfoldable pub to_string : ℕ → Bytes
to_string n = digits 20 n

unfoldable pub message : Status → Bytes
message success = []
message (already_in_transaction id) =
    codes "Already in transaction (txn " ++ (to_string id ++ codes ")")
message no_server = codes "Server not initialized"
message not_in_transaction = codes "Not in transaction"
message no_lock_manager = codes "Lock manager not initialized"
message deadlock = codes "Deadlock detected, transaction aborted"
message deleted_here = codes "Key not found (deleted in this txn)"
message no_store = codes "Store not initialized"
message not_found = codes "Key not found"

abbrev pub is_success : Status → Bool
is_success success = true
is_success no_server = false
is_success not_in_transaction = false
is_success no_lock_manager = false
is_success deadlock = false
is_success deleted_here = false
is_success no_store = false
is_success not_found = false
is_success (already_in_transaction id) = false

-- `result.empty()` is success.
pub is_empty-message : (s : Status) → is_empty (message s) ≡ is_success s
unfolding message
is_empty-message success = refl
is_empty-message no_server = refl
is_empty-message not_in_transaction = refl
is_empty-message no_lock_manager = refl
is_empty-message deadlock = refl
is_empty-message deleted_here = refl
is_empty-message no_store = refl
is_empty-message not_found = refl
is_empty-message (already_in_transaction id) = refl
