-- ===== src/Record/MvccMap.antt =====
-- src/record/mvcc_map.h: which transactions wrote records of a file and have not ended yet. Slots of
-- the whole file are numbered by natural numbers.
use rmdb.Prelude.{ℕ, zero, suc, Bool, not, ◌&&◌, Option, none, some, if◌then◌else◌, nat_eq, update}
use rmdb.Prelude.{remove as erase}
use rmdb.Prelude.Int.{ℤ, pos, negsuc, ltb_ℤ, leb_ℤ, ◌==ℤ◌}

pub data RcInfo : Type 0 where
  success record_invisible locked_conflict : RcInfo

-- The fields that the code reads.
pub record HeapTupleFields : Type 0 where
  pub t_xmin : ℤ
  pub t_xmax : ℤ

-- `map_`
abbrev pub MvccMap : Type 0
MvccMap = ℕ → Option HeapTupleFields

abbrev pub neg : ℤ → ℤ
neg (pos zero) = pos zero
neg (pos (suc n)) = negsuc n
neg (negsuc n) = pos (suc n)

abbrev pub max_txn : ℤ
max_txn = pos 2147483647

unfoldable pub visit_record : MvccMap → ℕ → ℤ → Bool → RcInfo
visit_record m slot id is_readonly = elim (m slot) [
  | none ↦ RcInfo.success
  | some t ↦
      if ltb_ℤ (pos 0) t.t_xmin && ltb_ℤ (pos 0) t.t_xmax
      then (if leb_ℤ t.t_xmin id && leb_ℤ id t.t_xmax
          then RcInfo.success
          else RcInfo.record_invisible)
      else if ltb_ℤ t.t_xmin (pos 0)
      then (if neg t.t_xmin ==ℤ id then RcInfo.success else RcInfo.record_invisible)
      else if ltb_ℤ t.t_xmax (pos 0)
      then (if is_readonly
          then (if neg t.t_xmax ==ℤ id then RcInfo.success else RcInfo.record_invisible)
          else (if not (neg t.t_xmax ==ℤ id)
              then RcInfo.locked_conflict
              else RcInfo.record_invisible))
      else RcInfo.success
]

unfoldable pub insert_record : MvccMap → ℕ → ℤ → MvccMap
insert_record m slot id = update m slot (record { t_xmin = neg id; t_xmax = max_txn })

unfoldable pub delete_record : MvccMap → ℕ → ℤ → MvccMap × RcInfo
delete_record m slot id = elim (m slot) [
  | none ↦ (m, RcInfo.record_invisible)
  | some t ↦ (update m slot (record t { t_xmax = neg id }), RcInfo.success)
]

-- The entry is written before it is erased, which leaves no trace.
unfoldable pub commit_insert : MvccMap → ℕ → ℤ → MvccMap × RcInfo
commit_insert m slot id = elim (m slot) [
  | none ↦ (m, RcInfo.record_invisible)
  | some _ ↦ (erase m slot, RcInfo.success)
]

unfoldable pub commit_delete : MvccMap → ℕ → ℤ → MvccMap × RcInfo
commit_delete m slot id = elim (m slot) [
  | none ↦ (m, RcInfo.record_invisible)
  | some _ ↦ (erase m slot, RcInfo.success)
]
