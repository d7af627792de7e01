-- ===== src/Recovery/Lengths.antt =====
-- src/recovery/log_manager.h: the bytes of a log record are as many as its constructor counts.
use rmdb.Prelude.{ℕ, ◌+◌, ◌≡◌, List, [], ◌++◌, length, length-append}
use rmdb.Transaction.Types.{Rid}
use rmdb.Recovery.LogRecord.{LogHeader, InsertLogRecord, DeleteLogRecord, UpdateLogRecord}
use rmdb.Recovery.Parts.{int_bytes, header_bytes, value_bytes, name_bytes, rid_bytes}
use rmdb.Recovery.Serialize.{insert_log_len, delete_log_len, update_log_len}
use rmdb.Recovery.Agreement.{
  InsertFits, DeleteFits, UpdateFits, insert_bytes, delete_bytes, update_bytes,
}
use native.Mathlib.Omega.{arith}

-- The bytes of a part take their length, whatever follows.
length-header : (h : LogHeader) (more : List ℕ) → length (header_bytes h ++ more) ≡ 20 + length more
length-header h more = omega arith

length-value : (v more : List ℕ) → length (value_bytes v ++ more) ≡ 4 + length v + length more
length-value v more = omega (arith, length-append (v ++ []) more, length-append v [])

length-name : (v more : List ℕ) → length (name_bytes v ++ more) ≡ 8 + length v + length more
length-name v more = omega (arith, length-append (v ++ []) more, length-append v [])

length-rid : (rid : Rid) (more : List ℕ) → length (rid_bytes rid ++ more) ≡ 8 + length more
length-rid rid more = omega arith

pub length-insert :
    (r : InsertLogRecord) → InsertFits r → length (insert_bytes r) ≡ r.header.log_tot_len
unfolding insert_bytes insert_log_len
length-insert r fits =
    let n = name_bytes r.table_name ++ [] in
    let o = rid_bytes r.rid ++ n in
    let v = value_bytes r.insert_value ++ o in
    omega (
      arith,
      length-header r.header v,
      length-value r.insert_value o,
      length-rid r.rid n,
      length-name r.table_name [],
      fits.counted,
      fits.small,
    )

pub length-delete :
    (r : DeleteLogRecord) → DeleteFits r → length (delete_bytes r) ≡ r.header.log_tot_len
unfolding delete_bytes delete_log_len
length-delete r fits =
    let p = int_bytes r.first_free_page_no ++ (int_bytes r.num_pages ++ []) in
    let n = name_bytes r.table_name ++ p in
    let o = rid_bytes r.rid ++ n in
    let v = value_bytes r.delete_value ++ o in
    omega (
      arith,
      length-header r.header v,
      length-value r.delete_value o,
      length-rid r.rid n,
      length-name r.table_name p,
      fits.counted,
      fits.small,
    )

pub length-update :
    (r : UpdateLogRecord) → UpdateFits r → length (update_bytes r) ≡ r.header.log_tot_len
unfolding update_bytes update_log_len
length-update r fits =
    let p = int_bytes r.first_free_page_no ++ (int_bytes r.num_pages ++ []) in
    let n = name_bytes r.table_name ++ p in
    let o = rid_bytes r.rid ++ n in
    let w = value_bytes r.new_value ++ o in
    let v = value_bytes r.old_value ++ w in
    omega (
      arith,
      length-header r.header v,
      length-value r.old_value w,
      length-value r.new_value o,
      length-rid r.rid n,
      length-name r.table_name p,
      fits.counted,
      fits.small,
    )
