-- ===== src/Transaction/Calls.antt =====
-- The calls that a session makes of its manager, one after another, and what they all keep.
use concurrent_transactional.Prelude.{
  ℕ, Bytes, Bool, true, false, not, Option, none, some, List, [], ◌∷◌, ◌>>=◌, ◌≡◌, refl, ◌≢◌, ◌∙◌,
  arith, if_both, inl, inr, subst, sym, Option-cases,
}
use concurrent_transactional.Prelude.Map.{insert, bytes_order}
use concurrent_transactional.Prelude.Sorted.{Sorted, insert-Sorted}
use concurrent_transactional.Types.{LockMode, IsolationLevel}
use concurrent_transactional.GroupCommit.{wait_for_commit}
use concurrent_transactional.Transaction.Replies.{Status}
use concurrent_transactional.Transaction.{end_commit}
use concurrent_transactional.Transaction.{finish_get, finish_write}
use concurrent_transactional.Transaction.{
  Shared, Manager, Others, is_active, idle_txn, begin, commit, finish_commit, abort,
  abort_deadlocked, write, put, delete_key, get, read_done, acquire_lock, is_no_store, read_value,
  new_manager, set_global_references,
}

pub data Call : Type 0 where
  begins : IsolationLevel → Call
  puts : Bytes → Bytes → Call
  deletes gets : Bytes → Call
  commits aborts : Call

-- `none` where the commit does not return.
unfoldable pub call : Others → Call → Manager → Shared → Option (Manager × Shared × Status)
call others (begins level) m w = some (begin level m w)
call others (puts key value) m w = some (put others key value m w)
call others (deletes key) m w = some (delete_key others key m w)
call others (gets key) m w = some (get others key m w).0
call others commits m w = commit others m w
call others aborts m w = some (abort m w)

-- A buffer that lists every key once, and an empty one where no transaction is active.
pub record IsWellFormed (m : Manager) : Type 0 where
  pub sorted : Sorted m.current_txn.pending_buffer
  pub idle : is_active m.current_txn.state ≡ false → m.current_txn.pending_buffer ≡ []

pub idle-IsWellFormed : (m : Manager) (s : ℕ) → m.current_txn ≡ idle_txn s → IsWellFormed m
idle-IsWellFormed m s e = record { sorted = rw e tt; idle = λ a. rw e refl }

abbrev Kept : Manager × Shared × Status → Type 0
Kept r = IsWellFormed r.0

begin-IsWellFormed :
    (level : IsolationLevel) (m : Manager) (w : Shared) → IsWellFormed m → Kept (begin level m w)
unfolding begin
begin-IsWellFormed level m w f =
    if_both Kept (is_active m.current_txn.state) _ _ (λ a. f)
      (λ a.
        if_both Kept (not m.server) _ _ (λ s. f) (λ s. record { sorted = tt; idle = λ x. refl }))

abort-IsWellFormed : (m : Manager) (w : Shared) → IsWellFormed m → Kept (abort m w)
unfolding abort
abort-IsWellFormed m w f =
    if_both Kept (is_active m.current_txn.state) _ _ (λ a. record { sorted = tt; idle = λ x. refl })
      (λ a. f)

deadlocked-IsWellFormed : (m : Manager) (w : Shared) → IsWellFormed m → Kept (abort_deadlocked m w)
unfolding abort_deadlocked
deadlocked-IsWellFormed m w f =
    let g = abort-IsWellFormed m w f in record { sorted = g.sorted; idle = g.idle }

write-IsWellFormed :
    (others : Others) (key : Bytes) (entry : Bytes × Bool) (m : Manager) (w : Shared)
    → IsWellFormed m
    → Kept (write others key entry m w)
unfolding write finish_write
write-IsWellFormed others key entry m w f =
    let (w', got) = acquire_lock others m.current_txn.txn_id key LockMode.exclusive w in
    if_both Kept (not (is_active m.current_txn.state)) _ _ (λ a. f)
      (λ a.
        if_both Kept (not m.lock_manager) _ _ (λ l. f)
          (λ l.
            if_both Kept (not got) _ _ (λ g. deadlocked-IsWellFormed m w' f)
              (λ g. record {
                sorted = insert-Sorted key entry m.current_txn.pending_buffer f.sorted;
                idle = λ x. ground (arith, a);
              })))

level_both :
    {A : Type 0} (P : A → Type 0) (l : IsolationLevel) (x y : A)
    → P x
    → P y
    → P (elim l [ IsolationLevel.repeatable_read ↦ x | IsolationLevel.read_committed ↦ y ])
level_both P IsolationLevel.repeatable_read x y p q = p
level_both P IsolationLevel.read_committed x y p q = q

read_done-IsWellFormed :
    (key : Bytes) (m : Manager) (w : Shared) → IsWellFormed m → IsWellFormed (read_done key m w).0
unfolding read_done
read_done-IsWellFormed key m w f =
    level_both (λ (r : Manager × Shared). IsWellFormed r.0) m.current_txn.isolation_level _ _ f
      (record { sorted = f.sorted; idle = f.idle })

get-IsWellFormed :
    (others : Others) (key : Bytes) (m : Manager) (w : Shared)
    → IsWellFormed m
    → Kept (get others key m w).0
unfolding get finish_get
get-IsWellFormed others key m w f =
    let txn = m.current_txn in
    let (w', got) = acquire_lock others txn.txn_id key LockMode.shared w in
    let held : Manager = record m {
      current_txn = record txn { locks_held = insert key LockMode.shared txn.locks_held };
    } in
    let g : IsWellFormed held = record { sorted = f.sorted; idle = f.idle } in
    let K : (Manager × Shared × Status) × Bytes → Type 0 = λ r. Kept r.0 in
    if_both K (not (is_active txn.state)) _ _ (λ a. f)
      (λ a.
        if_both K (not m.lock_manager) _ _ (λ l. f)
          (λ l.
            if_both K (not got) _ _ (λ b. deadlocked-IsWellFormed m w' f)
              (λ b.
                if_both K (is_no_store (read_value key held w').0) _ _ (λ c. g)
                  (λ c. read_done-IsWellFormed key held w' g))))

returned : (x r : Manager × Shared × Status) → IsWellFormed x.0 → some x ≡ some r → IsWellFormed r.0
returned x r f e =
    let same : x ≡ r = cc e in subst (λ (y : Manager × Shared × Status). IsWellFormed y.0) same f

commit-IsWellFormed :
    (others : Others) (m : Manager) (w : Shared) (r : Manager × Shared × Status)
    → IsWellFormed m
    → commit others m w ≡ some r
    → IsWellFormed r.0
unfolding commit finish_commit end_commit
commit-IsWellFormed others m w r f h =
    let P : Option (Manager × Shared × Status) → Type 0 = λ o. o ≡ some r → IsWellFormed r.0 in
    if_both P (not (is_active m.current_txn.state)) _ _ (λ a. returned _ r f)
      (λ a.
        if_both P m.group_commit _ _
          (λ g.
            if_both P (wait_for_commit _ _) _ _
              (λ b. returned _ r (record { sorted = tt; idle = λ x. refl })) (λ b e. absurd (cc e)))
          (λ g. returned _ r (record { sorted = tt; idle = λ x. refl })))
      h

call-IsWellFormed :
    (others : Others) (c : Call) (m : Manager) (w : Shared) (r : Manager × Shared × Status)
    → IsWellFormed m
    → call others c m w ≡ some r
    → IsWellFormed r.0
unfolding call put delete_key
call-IsWellFormed others (begins level) m w r f h = returned _ r (begin-IsWellFormed level m w f) h
call-IsWellFormed others (puts key value) m w r f h =
    returned _ r (write-IsWellFormed others key (value, false) m w f) h
call-IsWellFormed others (deletes key) m w r f h =
    returned _ r (write-IsWellFormed others key ([], true) m w f) h
call-IsWellFormed others (gets key) m w r f h = returned _ r (get-IsWellFormed others key m w f) h
call-IsWellFormed others commits m w r f h = commit-IsWellFormed others m w r f h
call-IsWellFormed others aborts m w r f h = returned _ r (abort-IsWellFormed m w f) h

-- A session's calls, with what the other threads do during and after each.
unfoldable pub run_calls : List (Others × Call) → Manager → Shared → Option (Manager × Shared)
run_calls [] m w = some (m, w)
run_calls ((others, c) ∷ rest) m w = do r ← call others c m w; run_calls rest r.0 (others r.1)

goes_on :
    (others : Others) (c : Call) (cs : List (Others × Call)) (m : Manager) (w : Shared)
    → (q : Manager × Shared × Status) → call others c m w ≡ some q
    → run_calls ((others, c) ∷ cs) m w ≡ run_calls cs q.0 (others q.1)
unfolding run_calls
goes_on others c cs m w q e = rw e refl

stuck :
    (others : Others) (c : Call) (cs : List (Others × Call)) (m : Manager) (w : Shared)
    → (r : Manager × Shared) → call others c m w ≡ none
    → run_calls ((others, c) ∷ cs) m w ≢ some r
unfolding run_calls
stuck others c cs m w r e = rw e (λ x. cc x)

run_calls_from :
    (cs : List (Others × Call)) (m : Manager) (w : Shared) (r : Manager × Shared)
    → IsWellFormed m
    → run_calls cs m w ≡ some r
    → IsWellFormed r.0
unfolding run_calls
run_calls_from [] m w r f h =
    let same : (m, w) ≡ r = cc h in subst (λ (y : Manager × Shared). IsWellFormed y.0) same f
run_calls_from ((others, c) ∷ cs) m w r f h = elim (Option-cases (call others c m w)) [
  | inl e ↦ absurd (stuck others c cs m w r e h)
  | inr (q, e) ↦
      run_calls_from cs q.0 (others q.1) r (call-IsWellFormed others c m w q f e)
        (sym (goes_on others c cs m w q e) ∙ h)
]

-- A session's manager before its first call: the constructor, and the references.
abbrev pub connected : ℕ → Bool → Manager
connected session linked =
    set_global_references linked linked linked linked (new_manager session linked)

-- Whatever a session calls, in whatever order and whatever the other sessions do, from a new
-- manager on, connected or not: the buffer of pending writes lists its keys in order and each
-- once, and it is empty while no transaction is active.
pub run_calls-IsWellFormed :
    (cs : List (Others × Call)) (session : ℕ) (linked : Bool) (w : Shared) (r : Manager × Shared)
    → run_calls cs (connected session linked) w ≡ some r
    → IsWellFormed r.0
unfolding new_manager set_global_references
run_calls-IsWellFormed cs session linked w r h =
    run_calls_from cs (connected session linked) w r (record { sorted = tt; idle = λ x. refl }) h
