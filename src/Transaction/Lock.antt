-- ===== src/Transaction/Lock.antt =====
-- src/transaction/concurrency/lock_manager.h and lock_manager.cpp. The latch is held from the look
-- at the lock table to the end of each call.
pub mod Queues
pub mod Keeps
pub mod Compat
pub mod Grant
use rmdb.Prelude.{
  ℕ, Bool, true, false, not, ◌&&◌, ◌||◌, Option, none, some, List, [], ◌∷◌, ◌++◌, ◌==◌, update,
  remove, if◌then◌else◌,
}
use rmdb.Transaction.Types.{
  Rid, LockDataId, lock_data_id_eq, lock_data_id_Eq, table_id, record_id, Transaction,
  TransactionState, growing, shrinking, aborted,
}

pub data LockMode : Type 0 where
  shared exclusive intention_shared intention_exclusive s_ix : LockMode

abbrev pub is_shared : LockMode → Bool
is_shared shared = true
is_shared _ = false

abbrev pub is_exclusive : LockMode → Bool
is_exclusive exclusive = true
is_exclusive _ = false

abbrev is_intention_exclusive : LockMode → Bool
is_intention_exclusive intention_exclusive = true
is_intention_exclusive _ = false

abbrev is_s_ix : LockMode → Bool
is_s_ix s_ix = true
is_s_ix _ = false

pub record LockRequest : Type 0 where
  pub txn_id : ℕ
  pub lock_mode : LockMode
  pub granted : Bool

-- A request queue is its list of requests: the group lock mode is never set, and nobody waits.
abbrev pub LockTable : Type 0
LockTable = LockDataId → Option (List LockRequest)

abbrev pub is_shrinking : TransactionState → Bool
is_shrinking shrinking = true
is_shrinking _ = false

abbrev is_growing : TransactionState → Bool
is_growing growing = true
is_growing _ = false

-- The lock table, the transaction and the answer.
abbrev pub Outcome : Type 0
Outcome = LockTable × Transaction × Bool

-- `lock_table_[id]`: the queue, which is made if there is none.
abbrev pub queue_of : LockTable → LockDataId → List LockRequest
queue_of t id = elim (t id) [ none ↦ [] | some queue ↦ queue ]

-- Whether a request of the queue meets the test.
unfoldable pub any : (LockRequest → Bool) → List LockRequest → Bool
any test [] = false
any test (req ∷ queue) = if test req then true else any test queue

abbrev abort : Transaction → Transaction
abort txn = record txn { state = aborted }

-- The request is put at the end of the queue, granted, and its identity into the lock set.
unfoldable pub grant : LockTable → Transaction → LockDataId → LockMode → Outcome
grant t txn id mode = (
  update t id
      (queue_of t id ++ record { txn_id = txn.txn_id; lock_mode = mode; granted = true } ∷ []),
  record txn { lock_set = λ other. lock_data_id_eq id other || txn.lock_set other },
  true,
)

-- A queue that was looked up is in the table from then on.
abbrev pub touch : LockTable → LockDataId → LockTable
touch t id = update t id (queue_of t id)

abbrev pub of_other : Transaction → LockRequest → Bool
of_other txn req = req.granted && not (req.txn_id == txn.txn_id)

abbrev pub own : Transaction → LockRequest → Bool
own txn req = req.txn_id == txn.txn_id && req.granted

unfoldable pub lock_shared_on_record : LockTable → Transaction → Rid → ℕ → Outcome
unfolding any grant
lock_shared_on_record t txn rid tab_fd =
    let id = record_id tab_fd rid in
    if is_shrinking txn.state
    then (t, abort txn, false)
    else (if any (own txn) (queue_of t id)
        then (touch t id, txn, true)
        else (if any (λ req. of_other txn req && is_exclusive req.lock_mode) (queue_of t id)
            then (touch t id, abort txn, false)
            else grant t txn id shared))

-- The first loop of `lock_exclusive_on_record`: the answer that an own lock gives, if any does.
unfoldable pub own_answer : Transaction → List LockRequest → Option Bool
own_answer txn [] = none
own_answer txn (req ∷ queue) =
    if own txn req && is_exclusive req.lock_mode
    then some true
    else (if own txn req && is_shared req.lock_mode then some false else own_answer txn queue)

-- The rest of `lock_exclusive_on_record`.
unfoldable pub exclusive_rest : LockTable → Transaction → LockDataId → Option Bool → Outcome
unfolding any grant
exclusive_rest t txn id (some true) = (touch t id, txn, true)
exclusive_rest t txn id (some false) = (touch t id, abort txn, false)
exclusive_rest t txn id none =
    if any (of_other txn) (queue_of t id)
    then (touch t id, abort txn, false)
    else grant t txn id exclusive

unfoldable pub lock_exclusive_on_record : LockTable → Transaction → Rid → ℕ → Outcome
unfolding own_answer exclusive_rest
lock_exclusive_on_record t txn rid tab_fd =
    let id = record_id tab_fd rid in
    if is_shrinking txn.state
    then (t, abort txn, false)
    else exclusive_rest t txn id (own_answer txn (queue_of t id))

-- The four table locks differ in the modes that they conflict with, and in their own.
unfoldable pub lock_on_table : (LockMode → Bool) → LockMode → LockTable → Transaction → ℕ → Outcome
unfolding any grant
lock_on_table conflicts mode t txn tab_fd =
    let id = table_id tab_fd in
    if is_shrinking txn.state
    then (t, abort txn, false)
    else (if any (λ req. of_other txn req && conflicts req.lock_mode) (queue_of t id)
        then (touch t id, abort txn, false)
        else grant t txn id mode)

abbrev pub against_shared : LockMode → Bool
against_shared m = is_exclusive m || is_intention_exclusive m || is_s_ix m

abbrev pub against_ix : LockMode → Bool
against_ix m = is_exclusive m || is_shared m || is_s_ix m

unfoldable pub lock_shared_on_table : LockTable → Transaction → ℕ → Outcome
unfolding lock_on_table
lock_shared_on_table = lock_on_table against_shared shared

unfoldable pub lock_exclusive_on_table : LockTable → Transaction → ℕ → Outcome
unfolding lock_on_table
lock_exclusive_on_table = lock_on_table (λ _. true) exclusive

unfoldable pub lock_is_on_table : LockTable → Transaction → ℕ → Outcome
unfolding lock_on_table
lock_is_on_table = lock_on_table is_exclusive intention_shared

unfoldable pub lock_ix_on_table : LockTable → Transaction → ℕ → Outcome
unfolding lock_on_table
lock_ix_on_table = lock_on_table against_ix intention_exclusive

-- The queue without the first request of the transaction.
unfoldable pub erase_request : ℕ → List LockRequest → List LockRequest
erase_request id [] = []
erase_request id (req ∷ queue) = if req.txn_id == id then queue else req ∷ erase_request id queue

abbrev pub is_empty : List LockRequest → Bool
is_empty [] = true
is_empty (_ ∷ _) = false

unfoldable pub unlock : LockTable → Transaction → LockDataId → Outcome
unfolding any erase_request
unlock t txn id =
    let shrunk = record txn { state = if is_growing txn.state then shrinking else txn.state } in
    elim (t id) [
      | none ↦ (t, shrunk, false)
      | some queue ↦
          let released = record shrunk {
            lock_set = λ other. not (lock_data_id_eq id other) && txn.lock_set other;
          } in
          if any (λ req. req.txn_id == txn.txn_id) queue
          then (
            if is_empty (erase_request txn.txn_id queue)
                then remove t id
                else update t id (erase_request txn.txn_id queue),
            released,
            true,
          )
          else (t, released, false)
    ]
