-- ===== src/Transaction/Lock/Grant.antt =====
-- When the lock manager grants a table lock.
use rmdb.Prelude.{
  ℕ, ◌≡◌, ◌↔◌, inl, inr, refl, sym, ◌∙◌, Bool, true, false, not, ◌&&◌, none, some, List, [], ◌∷◌,
  ◌++◌, ◌==◌, arith, Bool-cases, beq_refl, nat_eq,
}
use rmdb.Transaction.Types.{LockDataId, lock_data_id_Eq, table_id, Transaction, shrinking}
use rmdb.Transaction.Lock.{
  LockMode, shared, exclusive, intention_shared, intention_exclusive, s_ix, LockRequest, LockTable,
  Outcome, queue_of, any, grant, of_other, own, is_exclusive, is_shrinking, lock_on_table,
  against_shared, against_ix, lock_shared_on_table, lock_exclusive_on_table, lock_is_on_table,
  lock_ix_on_table, erase_request, unlock,
}
use rmdb.Transaction.Lock.Queues.{compatible, All}
use rmdb.Transaction.Lock.Compat.{
  Call, shared_on_table, exclusive_on_table, is_on_table, ix_on_table, apply,
}

-- The lock modes that a table can be asked for.
pub data TableMode : Type 0 where
  s x is ix : TableMode

abbrev pub lock_mode_of : TableMode → LockMode
lock_mode_of s = shared
lock_mode_of x = exclusive
lock_mode_of is = intention_shared
lock_mode_of ix = intention_exclusive

abbrev pub call_of : TableMode → ℕ → Call
call_of s = shared_on_table
call_of x = exclusive_on_table
call_of is = is_on_table
call_of ix = ix_on_table

-- No request that another transaction holds has a mode that conflicts.
pub IsFree : LockTable → Transaction → ℕ → LockMode → Type 0
IsFree t txn fd mode =
    All (λ req. of_other txn req ≡ true → compatible req.lock_mode mode ≡ true)
      (queue_of t (table_id fd))

any_iff :
    (txn : Transaction) (conflicts : LockMode → Bool) (mode : LockMode)
    → ((m : LockMode) → conflicts m ≡ not (compatible m mode))
    → (queue : List LockRequest)
    → (any (λ req. of_other txn req && conflicts req.lock_mode) queue ≡ false)
      ↔ All (λ req. of_other txn req ≡ true → compatible req.lock_mode mode ≡ true) queue
unfolding any
any_iff txn conflicts mode e [] = (λ _. tt, λ _. refl)
any_iff txn conflicts mode e (req ∷ queue) =
    let h = e req.lock_mode in
    let rest = any_iff txn conflicts mode e queue in
    elim (Bool-cases (of_other txn req && conflicts req.lock_mode)) [
      | inl hit ↦ rw hit (λ q. cc q, λ q. let c = q.0 (ground arith) in ground arith)
      | inr miss ↦ rw miss (λ q. (λ o. ground arith, rest.0 q), λ q. rest.1 q.1)
    ]

lock_on_table_iff :
    (conflicts : LockMode → Bool) (mode : LockMode) (t : LockTable) (txn : Transaction) (fd : ℕ)
    → ((m : LockMode) → conflicts m ≡ not (compatible m mode))
    → ((lock_on_table conflicts mode t txn fd).2 ≡ true)
      ↔ ((is_shrinking txn.state ≡ false) × IsFree t txn fd mode)
unfolding lock_on_table grant IsFree
lock_on_table_iff conflicts mode t txn fd e =
    let exact = any_iff txn conflicts mode e (queue_of t (table_id fd)) in
    elim (Bool-cases (is_shrinking txn.state)) [
      | inl late ↦ rw late (λ q. cc q, λ q. cc (q.0))
      | inr early ↦
          elim (Bool-cases
            (any (λ req. of_other txn req && conflicts req.lock_mode) (queue_of t (table_id fd)))) [
              | inl busy ↦ rw (early, busy) (λ q. cc q, λ q. cc (sym busy ∙ exact.1 q.1))
              | inr free ↦ rw (early, free) (λ q. (refl, exact.0 free), λ q. refl)
            ]
    ]

matrix : (m : TableMode) → LockMode → Bool
matrix s = against_shared
matrix x = λ _. true
matrix is = is_exclusive
matrix ix = against_ix

matrix_exact :
    (mode : TableMode) (m : LockMode) → matrix mode m ≡ not (compatible m (lock_mode_of mode))
unfolding matrix compatible
matrix_exact s shared = refl
matrix_exact s exclusive = refl
matrix_exact s intention_shared = refl
matrix_exact s intention_exclusive = refl
matrix_exact s s_ix = refl
matrix_exact x shared = refl
matrix_exact x exclusive = refl
matrix_exact x intention_shared = refl
matrix_exact x intention_exclusive = refl
matrix_exact x s_ix = refl
matrix_exact is shared = refl
matrix_exact is exclusive = refl
matrix_exact is intention_shared = refl
matrix_exact is intention_exclusive = refl
matrix_exact is s_ix = refl
matrix_exact ix shared = refl
matrix_exact ix exclusive = refl
matrix_exact ix intention_shared = refl
matrix_exact ix intention_exclusive = refl
matrix_exact ix s_ix = refl

-- A table lock is granted exactly when the transaction is not shrinking and every request that
-- another transaction holds on the table has a mode that is compatible with it.
pub call_of_iff :
    (mode : TableMode) (t : LockTable) (txn : Transaction) (fd : ℕ)
    → ((apply (call_of mode fd) t txn).2 ≡ true)
      ↔ ((is_shrinking txn.state ≡ false) × IsFree t txn fd (lock_mode_of mode))
unfolding apply lock_shared_on_table lock_exclusive_on_table lock_is_on_table lock_ix_on_table
call_of_iff s t txn fd =
    lock_on_table_iff against_shared shared t txn fd (unfold matrix in matrix_exact s)
call_of_iff x t txn fd =
    lock_on_table_iff (λ _. true) exclusive t txn fd (unfold matrix in matrix_exact x)
call_of_iff is t txn fd =
    lock_on_table_iff is_exclusive intention_shared t txn fd (unfold matrix in matrix_exact is)
call_of_iff ix t txn fd =
    lock_on_table_iff against_ix intention_exclusive t txn fd (unfold matrix in matrix_exact ix)

-- The answers of two calls, one after the other.
pub twice : (LockTable → Transaction → Outcome) → LockTable → Transaction → Bool × Bool
twice call t txn = let first = call t txn in (first.2, (call first.0 first.1).2)

-- The shared intention lock, the exclusive intention lock and one unlock of a table.
pub lock_lock_unlock : LockTable → Transaction → ℕ → Outcome
lock_lock_unlock t txn fd =
    let first = lock_is_on_table t txn fd in
    let second = lock_ix_on_table first.0 first.1 fd in unlock second.0 second.1 (table_id fd)

-- A refused transaction that asks again is granted the exclusive lock of a table that nobody has
-- locked: it was shrinking, the first call aborts it, and an aborted transaction is not refused.
pub twice-lock_exclusive_on_table :
    (t : LockTable) (txn : Transaction) (fd : ℕ)
    → txn.state ≡ shrinking
    → t (table_id fd) ≡ none
    → twice (λ t txn. lock_exclusive_on_table t txn fd) t txn ≡ (false, true)
unfolding twice lock_exclusive_on_table lock_on_table grant any
twice-lock_exclusive_on_table t txn fd st e = rw (st, e) refl

request : Transaction → LockMode → LockRequest
request txn mode = record { txn_id = txn.txn_id; lock_mode = mode; granted = true }

granted_lem :
    (conflicts : LockMode → Bool) (mode : LockMode) (t : LockTable) (txn : Transaction) (fd : ℕ)
    → is_shrinking txn.state ≡ false
    → any (λ req. of_other txn req && conflicts req.lock_mode) (queue_of t (table_id fd)) ≡ false
    → lock_on_table conflicts mode t txn fd ≡ grant t txn (table_id fd) mode
unfolding lock_on_table
granted_lem conflicts mode t txn fd st free = rw (st, free) refl

queue_of-grant :
    (t : LockTable) (txn : Transaction) (id : LockDataId) (mode : LockMode)
    → (grant t txn id mode).0 id ≡ some (queue_of t id ++ request txn mode ∷ [])
unfolding grant request
queue_of-grant t txn id mode = rw (beq_refl id) refl

unlock_two :
    (t : LockTable) (txn : Transaction) (id : LockDataId) (p q : LockRequest)
    → t id ≡ some (p ∷ q ∷ [])
    → (p.txn_id == txn.txn_id) ≡ true
    → own txn q ≡ true
    → ((unlock t txn id).1.lock_set id ≡ false)
      × (any (own txn) (queue_of (unlock t txn id).0 id) ≡ true)
unfolding unlock any erase_request
unlock_two t txn id p q h mine held =
    let r = beq_refl id in
    (rw (h, unlock, mine, r) refl, rw (h, unlock, mine, r, queue_of, held) refl)

-- A transaction that is not shrinking takes the shared and the exclusive intention lock of a table
-- that nobody has locked, and unlocks it once: its lock set has not the table any more, yet a
-- request of it is still granted in the queue.
pub lock_lock_unlock_lem :
    (t : LockTable) (txn : Transaction) (fd : ℕ)
    → is_shrinking txn.state ≡ false
    → t (table_id fd) ≡ none
    → ((lock_lock_unlock t txn fd).1.lock_set (table_id fd) ≡ false)
      × (any (own txn) (queue_of (lock_lock_unlock t txn fd).0 (table_id fd)) ≡ true)
unfolding lock_lock_unlock lock_is_on_table lock_ix_on_table any grant request
lock_lock_unlock_lem t txn fd st e =
    let id = table_id fd in
    let self = beq_refl txn.txn_id in
    let first = granted_lem is_exclusive intention_shared t txn fd st (rw (e, queue_of) refl) in
    let one = grant t txn id intention_shared in
    let queue : one.0 id ≡ some (request txn intention_shared ∷ []) =
      queue_of-grant t txn id intention_shared ∙ rw (e, queue_of) refl in
    let second =
      granted_lem against_ix intention_exclusive one.0 one.1 fd st
        (rw (queue, queue_of, self) refl) in
    let two = grant one.0 one.1 id intention_exclusive in
    let both : two.0 id
        ≡ some (request txn intention_shared ∷ request txn intention_exclusive ∷ []) =
      queue_of-grant one.0 one.1 id intention_exclusive ∙ rw (queue, queue_of) refl in
    rw (first, second)
      (unlock_two two.0 two.1 id (request txn intention_shared) (request txn intention_exclusive)
        both self (rw self refl))
