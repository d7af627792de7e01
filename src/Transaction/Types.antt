-- ===== src/Transaction/Types.antt =====
-- src/transaction/txn_defs.h, transaction.h and src/defs.h: record identities, lock identities and
-- the part of a transaction that the lock manager uses.
use rmdb.Prelude.{ℕ, ◌≡◌, ◌↔◌, Bool, true, false, ◌&&◌, ◌==◌, Eq, arith}
use rmdb.Prelude.Int.{ℤ, negsuc, ◌==ℤ◌, ==ℤ_iff}

pub record Rid : Type 0 where
  pub page_no : ℤ
  pub slot_no : ℤ

unfoldable pub rid_eq : Rid → Rid → Bool
rid_eq x y = x.page_no ==ℤ y.page_no && x.slot_no ==ℤ y.slot_no

pub data TransactionState : Type 0 where
  default growing shrinking committed aborted : TransactionState

pub data LockDataType : Type 0 where
  table row : LockDataType

abbrev pub lock_type_eq : LockDataType → LockDataType → Bool
lock_type_eq table table = true
lock_type_eq row row = true
lock_type_eq _ _ = false

pub record LockDataId : Type 0 where
  pub fd : ℕ
  pub rid : Rid
  pub type : LockDataType

-- The two constructors.
abbrev pub table_id : ℕ → LockDataId
table_id fd = record {
  fd = fd;
  rid = record { page_no = negsuc 0; slot_no = negsuc 0 };
  type = table;
}

abbrev pub record_id : ℕ → Rid → LockDataId
record_id fd rid = record { fd = fd; rid = rid; type = row }

-- `operator==`.
unfoldable pub lock_data_id_eq : LockDataId → LockDataId → Bool
unfolding rid_eq
lock_data_id_eq x y = lock_type_eq x.type y.type && x.fd == y.fd && rid_eq x.rid y.rid

pub lock_data_id_eq_iff : (x y : LockDataId) → (lock_data_id_eq x y ≡ true) ↔ (x ≡ y)
unfolding lock_data_id_eq
lock_data_id_eq_iff x y =
    ground (arith, ==ℤ_iff x.rid.page_no y.rid.page_no, ==ℤ_iff x.rid.slot_no y.rid.slot_no)

instance abbrev pub lock_data_id_Eq : Eq LockDataId
lock_data_id_Eq = record { beq = lock_data_id_eq; beq_iff = lock_data_id_eq_iff }

-- The lock set is the set of the locks for which it answers true.
pub record Transaction : Type 0 where
  pub txn_id : ℕ
  pub state : TransactionState
  pub lock_set : LockDataId → Bool
