-- ===== src/Transaction/Lock/Keeps.antt =====
-- Each call of the lock manager keeps the lock table compatible.
use rmdb.Prelude.{
  ℕ, ◌≡◌, inl, inr, refl, sym, ◌∙◌, subst₂, Bool, true, false, ◌&&◌, ◌||◌, Option, none, some, List,
  [], ◌∷◌, ◌++◌, ◌==◌, arith, Bool-cases, Option-cases, update, remove,
}
use rmdb.Transaction.Types.{
  Rid, LockDataId, row, lock_data_id_eq, lock_data_id_Eq, lock_data_id_eq_iff, table_id, record_id,
  Transaction,
}
use rmdb.Transaction.Lock.{
  LockMode, shared, exclusive, intention_shared, intention_exclusive, s_ix, is_shared, is_exclusive,
  LockRequest, LockTable, queue_of, any, grant, touch, of_other, own, is_shrinking, is_empty,
  lock_shared_on_record, own_answer, exclusive_rest, lock_exclusive_on_record, lock_on_table,
  erase_request, unlock,
}
use rmdb.Transaction.Lock.Queues.{
  compatible, All, IsRowMode, IsGood, IsCompatible, All-append, All-zip, All-map, AllFit-append,
  any-false, All-erase_request, AllFit-erase_request,
}

queue_of-IsGood : (t : LockTable) (id : LockDataId) → IsCompatible t → IsGood id (queue_of t id)
unfolding IsCompatible
queue_of-IsGood t id c = elim (Option-cases (t id)) [
  | inl absent ↦ rw (absent, queue_of) (record { fit = tt; row_modes = λ _. tt })
  | inr (queue, held) ↦ rw (held, queue_of) (c id queue held)
]

update-IsCompatible :
    (t : LockTable) (id : LockDataId) (queue : List LockRequest)
    → IsCompatible t
    → IsGood id queue
    → IsCompatible (update t id queue)
unfolding IsCompatible
update-IsCompatible t id queue c g other q h = elim (Bool-cases (lock_data_id_eq id other)) [
  | inl same ↦
      let e : queue ≡ q = ground arith in
      let e' : id ≡ other = (lock_data_id_eq_iff id other).0 same in subst₂ IsGood e' e g
  | inr new ↦ c other q (ground arith)
]

-- A grant whose mode is compatible with every request of another transaction.
grant-IsCompatible :
    (t : LockTable) (txn : Transaction) (id : LockDataId) (mode : LockMode)
    → IsCompatible t
    → All (λ x. of_other txn x ≡ true → compatible x.lock_mode mode ≡ true) (queue_of t id)
    → (id.type ≡ row → (is_shared mode || is_exclusive mode) ≡ true)
    → IsCompatible (grant t txn id mode).0
unfolding grant
grant-IsCompatible t txn id mode c fits rows =
    let g = queue_of-IsGood t id c in
    let new : LockRequest = record { txn_id = txn.txn_id; lock_mode = mode; granted = true } in
    update-IsCompatible t id (queue_of t id ++ new ∷ []) c (record {
      fit =
          AllFit-append (queue_of t id) new g.fit
            (All-map (λ x h a b ne. h (ground arith)) (queue_of t id) fits);
      row_modes = λ r. All-append IsRowMode (queue_of t id) new (g.row_modes r) (rows r);
    })

pub lock_on_table-IsCompatible :
    (conflicts : LockMode → Bool) (mode : LockMode) (t : LockTable) (txn : Transaction) (fd : ℕ)
    → ((m : LockMode) → conflicts m ≡ false → compatible m mode ≡ true)
    → IsCompatible t
    → IsCompatible (lock_on_table conflicts mode t txn fd).0
unfolding lock_on_table
lock_on_table-IsCompatible conflicts mode t txn fd matrix c =
    elim (Bool-cases (is_shrinking txn.state)) [
      | inl late ↦ rw (late, lock_on_table) c
      | inr early ↦
          elim (Bool-cases
            (any (λ req. of_other txn req && conflicts req.lock_mode) (queue_of t (table_id fd)))) [
              | inl busy ↦
                  rw (early, busy)
                    (update-IsCompatible t (table_id fd) (queue_of t (table_id fd)) c
                      (queue_of-IsGood t (table_id fd) c))
              | inr free ↦
                  rw (early, free)
                    (grant-IsCompatible t txn (table_id fd) mode c
                      (All-map (λ x h other. matrix x.lock_mode (ground arith))
                        (queue_of t (table_id fd)) (any-false _ _ free))
                      (λ r. cc r))
            ]
    ]

row_matrix :
    (m : LockMode)
    → (is_shared m || is_exclusive m) ≡ true
    → is_exclusive m ≡ false
    → compatible m shared ≡ true
unfolding compatible
row_matrix shared r h = refl
row_matrix exclusive r h = cc h
row_matrix intention_shared r h = refl
row_matrix intention_exclusive r h = cc r
row_matrix s_ix r h = cc r

touch-IsCompatible : (t : LockTable) (id : LockDataId) → IsCompatible t → IsCompatible (touch t id)
touch-IsCompatible t id c = update-IsCompatible t id (queue_of t id) c (queue_of-IsGood t id c)

pub lock_shared_on_record-IsCompatible :
    (t : LockTable) (txn : Transaction) (rid : Rid) (fd : ℕ)
    → IsCompatible t
    → IsCompatible (lock_shared_on_record t txn rid fd).0
unfolding lock_shared_on_record
lock_shared_on_record-IsCompatible t txn rid fd c = elim (Bool-cases (is_shrinking txn.state)) [
  | inl late ↦ rw (late, lock_shared_on_record) c
  | inr early ↦ elim (Bool-cases (any (own txn) (queue_of t id))) [
    | inl held ↦ rw (early, held) (touch-IsCompatible t id c)
    | inr none' ↦
        elim (Bool-cases
          (any (λ req. of_other txn req && is_exclusive req.lock_mode) (queue_of t id))) [
            | inl busy ↦ rw (early, none', busy) (touch-IsCompatible t id c)
            | inr free ↦
                rw (early, none', free)
                  (grant-IsCompatible t txn id shared c
                    (All-zip (λ x h m other. row_matrix x.lock_mode m (ground arith))
                      (queue_of t id) (any-false _ _ free)
                      ((queue_of-IsGood t id c).row_modes refl))
                    (λ _. refl))
          ]
  ]
]
  where
    id : LockDataId
    id = record_id fd rid

exclusive_rest-IsCompatible :
    (t : LockTable) (txn : Transaction) (id : LockDataId) (answer : Option Bool)
    → IsCompatible t
    → IsCompatible (exclusive_rest t txn id answer).0
unfolding exclusive_rest
exclusive_rest-IsCompatible t txn id (some true) c = touch-IsCompatible t id c
exclusive_rest-IsCompatible t txn id (some false) c = touch-IsCompatible t id c
exclusive_rest-IsCompatible t txn id none c =
    elim (Bool-cases (any (of_other txn) (queue_of t id))) [
      | inl busy ↦ rw busy (touch-IsCompatible t id c)
      | inr free ↦ rw free (
          grant-IsCompatible t txn id exclusive c
            (All-map (λ x h other. cc (sym h ∙ other)) (queue_of t id) (any-false _ _ free))
            (λ _. refl))
    ]

pub lock_exclusive_on_record-IsCompatible :
    (t : LockTable) (txn : Transaction) (rid : Rid) (fd : ℕ)
    → IsCompatible t
    → IsCompatible (lock_exclusive_on_record t txn rid fd).0
unfolding lock_exclusive_on_record
lock_exclusive_on_record-IsCompatible t txn rid fd c = elim (Bool-cases (is_shrinking txn.state)) [
  | inl late ↦ rw (late, lock_exclusive_on_record) c
  | inr early ↦
      rw (early, lock_exclusive_on_record)
        (exclusive_rest-IsCompatible t txn (record_id fd rid)
          (own_answer txn (queue_of t (record_id fd rid))) c)
]

remove-IsCompatible :
    (t : LockTable) (id : LockDataId) → IsCompatible t → IsCompatible (remove t id)
unfolding IsCompatible
remove-IsCompatible t id c other q h = c other q (ground arith)

erased-IsGood :
    (id : LockDataId) (txn_id : ℕ) (queue : List LockRequest)
    → IsGood id queue
    → IsGood id (erase_request txn_id queue)
erased-IsGood id txn_id queue g = record {
  fit = AllFit-erase_request txn_id queue g.fit;
  row_modes = λ r. All-erase_request IsRowMode txn_id queue (g.row_modes r);
}

pub unlock-IsCompatible :
    (t : LockTable) (txn : Transaction) (id : LockDataId)
    → IsCompatible t
    → IsCompatible (unlock t txn id).0
unfolding unlock
unlock-IsCompatible t txn id c = elim (Option-cases (t id)) [
  | inl absent ↦ rw (absent, unlock) c
  | inr (queue, held) ↦ elim (Bool-cases (any (λ req. req.txn_id == txn.txn_id) queue)) [
    | inr missing ↦ rw (held, unlock, missing) c
    | inl found ↦ elim (Bool-cases (is_empty (erase_request txn.txn_id queue))) [
      | inl last ↦ rw (held, unlock, found, last) (remove-IsCompatible t id c)
      | inr more ↦
          rw (held, unlock, found, more)
            (update-IsCompatible t id (erase_request txn.txn_id queue) c
              (erased-IsGood id txn.txn_id queue (unfold IsCompatible in c id queue held)))
    ]
  ]
]
