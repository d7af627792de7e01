-- ===== src/Transaction/Lock/Compat.antt =====
-- Locks of different transactions on one thing are compatible, by the usual matrix of modes.
use rmdb.Prelude.{ℕ, ◌≡◌, refl, true, false, none, List, [], ◌∷◌}
use rmdb.Transaction.Types.{Rid, LockDataId, lock_data_id_Eq, Transaction}
use rmdb.Transaction.Lock.{
  LockMode, shared, exclusive, intention_shared, intention_exclusive, s_ix, is_exclusive, LockTable,
  Outcome, lock_shared_on_record, lock_exclusive_on_record, against_shared, against_ix,
  lock_shared_on_table, lock_exclusive_on_table, lock_is_on_table, lock_ix_on_table, unlock,
}
use rmdb.Transaction.Lock.Queues.{compatible, IsCompatible}
use rmdb.Transaction.Lock.Keeps.{
  lock_on_table-IsCompatible, lock_shared_on_record-IsCompatible,
  lock_exclusive_on_record-IsCompatible, unlock-IsCompatible,
}

shared_matrix : (m : LockMode) → against_shared m ≡ false → compatible m shared ≡ true
unfolding compatible
shared_matrix shared h = refl
shared_matrix exclusive h = cc h
shared_matrix intention_shared h = refl
shared_matrix intention_exclusive h = cc h
shared_matrix s_ix h = cc h

is_matrix : (m : LockMode) → is_exclusive m ≡ false → compatible m intention_shared ≡ true
unfolding compatible
is_matrix shared h = refl
is_matrix exclusive h = cc h
is_matrix intention_shared h = refl
is_matrix intention_exclusive h = refl
is_matrix s_ix h = refl

ix_matrix : (m : LockMode) → against_ix m ≡ false → compatible m intention_exclusive ≡ true
unfolding compatible
ix_matrix shared h = cc h
ix_matrix exclusive h = cc h
ix_matrix intention_shared h = refl
ix_matrix intention_exclusive h = refl
ix_matrix s_ix h = cc h

-- The calls of the lock manager.
pub data Call : Type 0 where
  shared_on_record exclusive_on_record : Rid → ℕ → Call
  shared_on_table exclusive_on_table is_on_table ix_on_table : ℕ → Call
  unlocks : LockDataId → Call

unfoldable pub apply : Call → LockTable → Transaction → Outcome
apply (shared_on_record rid fd) t txn = lock_shared_on_record t txn rid fd
apply (exclusive_on_record rid fd) t txn = lock_exclusive_on_record t txn rid fd
apply (shared_on_table fd) t txn = lock_shared_on_table t txn fd
apply (exclusive_on_table fd) t txn = lock_exclusive_on_table t txn fd
apply (is_on_table fd) t txn = lock_is_on_table t txn fd
apply (ix_on_table fd) t txn = lock_ix_on_table t txn fd
apply (unlocks id) t txn = unlock t txn id

apply-IsCompatible :
    (c : Call) (t : LockTable) (txn : Transaction) → IsCompatible t → IsCompatible (apply c t txn).0
unfolding apply lock_shared_on_table lock_exclusive_on_table lock_is_on_table lock_ix_on_table
apply-IsCompatible (shared_on_record rid fd) t txn g =
    lock_shared_on_record-IsCompatible t txn rid fd g
apply-IsCompatible (exclusive_on_record rid fd) t txn g =
    lock_exclusive_on_record-IsCompatible t txn rid fd g
apply-IsCompatible (shared_on_table fd) t txn g =
    lock_on_table-IsCompatible against_shared shared t txn fd shared_matrix g
apply-IsCompatible (exclusive_on_table fd) t txn g =
    lock_on_table-IsCompatible (λ _. true) exclusive t txn fd (λ m h. cc h) g
apply-IsCompatible (is_on_table fd) t txn g =
    lock_on_table-IsCompatible is_exclusive intention_shared t txn fd is_matrix g
apply-IsCompatible (ix_on_table fd) t txn g =
    lock_on_table-IsCompatible against_ix intention_exclusive t txn fd ix_matrix g
apply-IsCompatible (unlocks id) t txn g = unlock-IsCompatible t txn id g

-- Any calls, by any transactions in any state, one after another.
pub run : List (Transaction × Call) → LockTable → LockTable
run [] t = t
run ((txn, c) ∷ calls) t = run calls (apply c t txn).0

run-IsCompatible :
    (calls : List (Transaction × Call)) (t : LockTable)
    → IsCompatible t
    → IsCompatible (run calls t)
unfolding run
run-IsCompatible [] t g = g
run-IsCompatible ((txn, c) ∷ calls) t g =
    run-IsCompatible calls (apply c t txn).0 (apply-IsCompatible c t txn g)

-- After any calls on an empty lock table, in whatever order and by whatever transactions, every two
-- requests that are granted to different transactions on one thing have compatible modes, and a
-- row is locked shared or exclusive only.
pub run-empty-IsCompatible :
    (calls : List (Transaction × Call)) → IsCompatible (run calls (λ _. none))
unfolding IsCompatible
run-empty-IsCompatible calls = run-IsCompatible calls (λ _. none) (λ id queue h. cc h)
