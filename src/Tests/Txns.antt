-- ===== src/Tests/Txns.antt =====
-- The theorems on locks and version chains at concrete inputs.
use rmdb.Prelude.{
  ℕ, nat_eq, ◌==◌, if◌then◌else◌, ◌≡◌, ◌↔◌, refl, true, false, none, some, [], ◌∷◌, arith,
}
use rmdb.Prelude.Int.{ℤ, pos, ◌==ℤ◌, leb_ℤ}
use rmdb.Transaction.Types.{Transaction, growing, shrinking, table_id}
use rmdb.Transaction.Lock.{any, own, queue_of, is_shrinking}
use rmdb.Transaction.Lock.Queues.{IsCompatible}
use rmdb.Transaction.Lock.Compat.{run, run-empty-IsCompatible, apply, shared_on_table, unlocks}
use rmdb.Transaction.Lock.Grant.{
  ix, call_of, lock_mode_of, IsFree, call_of_iff, lock_lock_unlock, lock_lock_unlock_lem,
}
use rmdb.Transaction.VersionChain.{
  invalid_timestamp, int32_max, TupleVersion, new_version, add_version, commit_version,
  find_visible_version, update_version, delete_version, commit_from,
}
use rmdb.Transaction.Mvcc.{
  Chains, read_version, delete_record, get_version_chain, rollback_chain, rollback_transaction,
}
use rmdb.Transaction.Mvcc.Rollback.{writes, updates, deletes, has_own, rollback_chain-writes}
use rmdb.Transaction.Mvcc.Records.{read_version-delete_record}
use rmdb.Transaction.Mvcc.OneWriter.{
  inserts, commits, rolls_back, HasOneWriter, run_changes, run_changes-HasOneWriter,
}
use rmdb.Transaction.Mvcc.Outcomes.{update_version-overwrites}
use rmdb.Transaction.Mvcc.ReadSets.{ReadSets}
use rmdb.Transaction.Mvcc.Undone.{rolled_back, is_in, rollback_transaction_lem}
use rmdb.Transaction.VersionChain.Reads.{bytes, find_visible_version-commit_version}
use rmdb.Transaction.VersionChain.Writes.{
  find_visible_version-update_version, find_visible_version-commit_from,
}

abbrev reader : Transaction
reader = record { txn_id = 1; state = growing; lock_set = λ _. false }

abbrev late : Transaction
late = record { txn_id = 2; state = shrinking; lock_set = λ _. false }

run-empty-IsCompatible_example :
    IsCompatible (run ((reader, shared_on_table 4) ∷ (late, unlocks (table_id 4)) ∷ []) (λ _. none))
run-empty-IsCompatible_example =
    run-empty-IsCompatible ((reader, shared_on_table 4) ∷ (late, unlocks (table_id 4)) ∷ [])

call_of_iff_example :
    ((apply (call_of ix 4) (λ _. none) reader).2 ≡ true)
    ↔ ((is_shrinking reader.state ≡ false) × IsFree (λ _. none) reader 4 (lock_mode_of ix))
call_of_iff_example = call_of_iff ix (λ _. none) reader 4

lock_lock_unlock_lem_example :
    ((lock_lock_unlock (λ _. none) reader 4).1.lock_set (table_id 4) ≡ false)
    × (any (own reader) (queue_of (lock_lock_unlock (λ _. none) reader 4).0 (table_id 4)) ≡ true)
lock_lock_unlock_lem_example = lock_lock_unlock_lem (λ _. none) reader 4 refl refl

-- A version of transaction 1 that was committed at 3, and one of transaction 2 that is not.
abbrev committed_one : TupleVersion
committed_one = record (new_version (7 ∷ []) (pos 1)) { create_ts = pos 3 }

abbrev pending_two : TupleVersion
pending_two = new_version (8 ∷ []) (pos 2)

find_visible_version-commit_version_example :
    bytes (
      find_visible_version
        (commit_version (add_version (committed_one ∷ []) pending_two) (pos 6))
        (pos 4)
        (pos 5))
    ≡ bytes (find_visible_version (committed_one ∷ []) (pos 4) (pos 5))
find_visible_version-commit_version_example =
    find_visible_version-commit_version (committed_one ∷ []) pending_two (pos 6) (pos 4) (pos 5)
      (omega arith) refl refl

-- A version of transaction 2 that was committed at 6.
abbrev committed_two : TupleVersion
committed_two = record pending_two { create_ts = pos 6 }

find_visible_version-commit_from_example :
    bytes (
      find_visible_version
        (commit_from (pos 5) (pos 9) false (new_version (8 ∷ []) (pos 5) ∷ committed_one ∷ []))
        (pos 9)
        (pos 6))
    ≡ some (8 ∷ [])
find_visible_version-commit_from_example =
    find_visible_version-commit_from (8 ∷ []) (committed_one ∷ []) (pos 5) (pos 9) (pos 6) (pos 9)
      refl refl refl refl

rollback_chain-writes_example :
    rollback_chain
      (pos 5)
      (writes (pos 5) (pos 4) (updates (9 ∷ []) ∷ deletes ∷ []) (committed_one ∷ []))
    ≡ committed_one ∷ []
unfolding has_own
rollback_chain-writes_example =
    rollback_chain-writes (updates (9 ∷ []) ∷ deletes ∷ []) (committed_one ∷ []) (pos 5) (pos 4)
      refl

abbrev chains : Chains ℕ
chains key = if key == 3 then some (pending_two ∷ committed_one ∷ []) else none

rollback_transaction_lem_example :
    rollback_transaction (3 ∷ []) (pos 2) chains 3
    ≡ (if is_in {K = ℕ} 3 (3 ∷ []) then rolled_back (pos 2) (chains 3) else chains 3)
rollback_transaction_lem_example = rollback_transaction_lem (3 ∷ []) (pos 2) chains 3

abbrev no_chains : Chains ℕ
no_chains _ = none

abbrev read_sets : ReadSets ℕ
read_sets _ = some (pos 5 ∷ pos 6 ∷ [])

find_visible_version-update_version_example :
    bytes (
      find_visible_version
        (update_version (committed_one ∷ []) (9 ∷ []) (pos 5) (pos 4)).0
        (pos 4)
        (pos 5))
    ≡ some (9 ∷ [])
unfolding update_version
find_visible_version-update_version_example =
    find_visible_version-update_version (committed_one ∷ []) (9 ∷ []) (pos 5) (pos 4) refl

read_version-delete_record_example :
    ((at : ℤ)
      → read_version (delete_record no_chains 3 (pos 5) (pos 4) (some (9 ∷ []))).0 3 (pos 5) at
        ≡ none)
    × ((other : ℕ) (reader at : ℤ)
        → (3 == other) ≡ false
        → read_version (delete_record no_chains 3 (pos 5) (pos 4) (some (9 ∷ []))).0 other reader at
          ≡ read_version no_chains other reader at)
unfolding delete_record get_version_chain delete_version
read_version-delete_record_example =
    read_version-delete_record no_chains 3 (pos 5) (pos 4) (some (9 ∷ [])) refl

run_changes-HasOneWriter_example : HasOneWriter (
    run_changes
      (inserts (pos 1) (7 ∷ [])
        ∷ commits (pos 1) (pos 3) refl
        ∷ inserts (pos 2) (8 ∷ [])
        ∷ inserts (pos 5) (9 ∷ [])
        ∷ rolls_back (pos 2)
        ∷ [])
      [])
run_changes-HasOneWriter_example = run_changes-HasOneWriter (
    inserts (pos 1) (7 ∷ [])
    ∷ commits (pos 1) (pos 3) refl
    ∷ inserts (pos 2) (8 ∷ [])
    ∷ inserts (pos 5) (9 ∷ [])
    ∷ rolls_back (pos 2)
    ∷ [])

-- Transactions 5 and 6 both update the version that was committed at 3, and 6 commits at 8.
update_version-overwrites_example :
    ((update_version
        (commit_from
          (pos 6)
          (pos 8)
          false
          (update_version (committed_one ∷ []) (2 ∷ []) (pos 6) (pos 4)).0)
        (1 ∷ [])
        (pos 5)
        (pos 4)).2
      ≡ true)
    × ((reader later_ts later : ℤ)
        → (pos 5 ==ℤ reader) ≡ false
        → (later_ts ==ℤ invalid_timestamp) ≡ false
        → (later_ts ==ℤ int32_max) ≡ false
        → leb_ℤ later_ts later ≡ true
        → bytes (
            find_visible_version
              (commit_from
                (pos 5)
                later_ts
                false
                (update_version
                  (commit_from
                    (pos 6)
                    (pos 8)
                    false
                    (update_version (committed_one ∷ []) (2 ∷ []) (pos 6) (pos 4)).0)
                  (1 ∷ [])
                  (pos 5)
                  (pos 4)).0)
              later
              reader)
          ≡ some (1 ∷ []))
unfolding update_version find_visible_version
update_version-overwrites_example =
    update_version-overwrites (committed_one ∷ []) (2 ∷ []) (1 ∷ []) (pos 5) (pos 6) (pos 4) (pos 4)
      (pos 8) committed_one refl (omega arith) refl refl refl refl refl
