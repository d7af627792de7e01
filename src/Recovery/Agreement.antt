-- ===== src/Recovery/Agreement.antt =====
-- src/recovery/log_manager.h: the writer and the reader of each log record of a change agree on its bytes.
use rmdb.Prelude.{ℕ, ◌+◌, ◌<◌, ◌≡◌, List, [], ◌++◌, length}
use rmdb.Prelude.Bytes.{IsInt32}
use rmdb.Prelude.Bytes.Codecs.{
  Writes, Reads, Writes-int, Writes-end, Writes-bind, Reads-int, Reads-end, Reads-bind,
}
use rmdb.Recovery.LogRecord.{
  update, insert, delete, InsertLogRecord, DeleteLogRecord, UpdateLogRecord,
}
use rmdb.Recovery.Parts.{
  HeaderFits, RidFits, int_bytes, header_bytes, value_bytes, name_bytes, rid_bytes, Writes-header,
  Writes-value, Writes-name, Writes-rid, Reads-header, Reads-value, Reads-name, Reads-rid,
}
use rmdb.Recovery.Serialize.{
  insert_log_len, delete_log_len, update_log_len, write_insert, read_insert, write_delete,
  read_delete, write_update, read_update,
}
use native.Mathlib.Omega.{arith}

-- Members within their width, the type and the length that the constructor sets, and sizes far from 2 ^ 31.
pub record InsertFits (r : InsertLogRecord) : Type 0 where
  pub header : HeaderFits r.header
  pub typed : r.header.log_type ≡ insert
  pub counted : r.header.log_tot_len ≡ insert_log_len r.insert_value r.table_name
  pub small : length r.insert_value + length r.table_name < 1000000000
  pub rid : RidFits r.rid

pub record DeleteFits (r : DeleteLogRecord) : Type 0 where
  pub header : HeaderFits r.header
  pub typed : r.header.log_type ≡ delete
  pub counted : r.header.log_tot_len ≡ delete_log_len r.delete_value r.table_name
  pub small : length r.delete_value + length r.table_name < 1000000000
  pub rid : RidFits r.rid
  pub first_free_page_no : IsInt32 r.first_free_page_no
  pub num_pages : IsInt32 r.num_pages

pub record UpdateFits (r : UpdateLogRecord) : Type 0 where
  pub header : HeaderFits r.header
  pub typed : r.header.log_type ≡ update
  pub counted : r.header.log_tot_len ≡ update_log_len r.old_value r.new_value r.table_name
  pub small : length r.old_value + length r.new_value + length r.table_name < 1000000000
  pub rid : RidFits r.rid
  pub first_free_page_no : IsInt32 r.first_free_page_no
  pub num_pages : IsInt32 r.num_pages

unfoldable pub insert_bytes : InsertLogRecord → List ℕ
insert_bytes r =
    header_bytes r.header
    ++ (value_bytes r.insert_value ++ (rid_bytes r.rid ++ (name_bytes r.table_name ++ [])))

unfoldable pub delete_bytes : DeleteLogRecord → List ℕ
delete_bytes r =
    header_bytes r.header
    ++ (value_bytes r.delete_value
        ++ (rid_bytes r.rid
            ++ (name_bytes r.table_name
                ++ (int_bytes r.first_free_page_no ++ (int_bytes r.num_pages ++ [])))))

unfoldable pub update_bytes : UpdateLogRecord → List ℕ
update_bytes r =
    header_bytes r.header
    ++ (value_bytes r.old_value
        ++ (value_bytes r.new_value
            ++ (rid_bytes r.rid
                ++ (name_bytes r.table_name
                    ++ (int_bytes r.first_free_page_no ++ (int_bytes r.num_pages ++ []))))))

pub Writes-insert : (r : InsertLogRecord) → Writes (write_insert r) (insert_bytes r)
unfolding write_insert insert_bytes
Writes-insert r = Writes-bind _ _ _ _ (Writes-header r.header) (
    Writes-bind _ _ _ _ (Writes-value r.insert_value) (
      Writes-bind _ _ _ _ (Writes-rid r.rid)
        (Writes-bind _ _ _ _ (Writes-name r.table_name) Writes-end)))

pub Reads-insert : (r : InsertLogRecord) → InsertFits r → Reads read_insert (insert_bytes r) r
unfolding read_insert insert_bytes
Reads-insert r fits = Reads-bind _ _ _ _ _ _ (Reads-header r.header fits.header) (
    Reads-bind _ _ _ _ _ _ (Reads-value r.insert_value (omega (arith, fits.small))) (
      Reads-bind _ _ _ _ _ _ (Reads-rid r.rid fits.rid) (
        Reads-bind _ _ _ _ _ _ (Reads-name r.table_name (omega (arith, fits.small)))
          (Reads-end r))))

pub Writes-delete : (r : DeleteLogRecord) → Writes (write_delete r) (delete_bytes r)
unfolding write_delete delete_bytes
Writes-delete r = Writes-bind _ _ _ _ (Writes-header r.header) (
    Writes-bind _ _ _ _ (Writes-value r.delete_value) (
      Writes-bind _ _ _ _ (Writes-rid r.rid) (
        Writes-bind _ _ _ _ (Writes-name r.table_name) (
          Writes-bind _ _ _ _ (Writes-int r.first_free_page_no)
            (Writes-bind _ _ _ _ (Writes-int r.num_pages) Writes-end)))))

pub Reads-delete : (r : DeleteLogRecord) → DeleteFits r → Reads read_delete (delete_bytes r) r
unfolding read_delete delete_bytes
Reads-delete r fits = Reads-bind _ _ _ _ _ _ (Reads-header r.header fits.header) (
    Reads-bind _ _ _ _ _ _ (Reads-value r.delete_value (omega (arith, fits.small))) (
      Reads-bind _ _ _ _ _ _ (Reads-rid r.rid fits.rid) (
        Reads-bind _ _ _ _ _ _ (Reads-name r.table_name (omega (arith, fits.small))) (
          Reads-bind _ _ _ _ _ _ (Reads-int r.first_free_page_no fits.first_free_page_no)
            (Reads-bind _ _ _ _ _ _ (Reads-int r.num_pages fits.num_pages) (Reads-end r))))))

pub Writes-update : (r : UpdateLogRecord) → Writes (write_update r) (update_bytes r)
unfolding write_update update_bytes
Writes-update r = Writes-bind _ _ _ _ (Writes-header r.header) (
    Writes-bind _ _ _ _ (Writes-value r.old_value) (
      Writes-bind _ _ _ _ (Writes-value r.new_value) (
        Writes-bind _ _ _ _ (Writes-rid r.rid) (
          Writes-bind _ _ _ _ (Writes-name r.table_name) (
            Writes-bind _ _ _ _ (Writes-int r.first_free_page_no)
              (Writes-bind _ _ _ _ (Writes-int r.num_pages) Writes-end))))))

pub Reads-update : (r : UpdateLogRecord) → UpdateFits r → Reads read_update (update_bytes r) r
unfolding read_update update_bytes
Reads-update r fits = Reads-bind _ _ _ _ _ _ (Reads-header r.header fits.header) (
    Reads-bind _ _ _ _ _ _ (Reads-value r.old_value (omega (arith, fits.small))) (
      Reads-bind _ _ _ _ _ _ (Reads-value r.new_value (omega (arith, fits.small))) (
        Reads-bind _ _ _ _ _ _ (Reads-rid r.rid fits.rid) (
          Reads-bind _ _ _ _ _ _ (Reads-name r.table_name (omega (arith, fits.small))) (
            Reads-bind _ _ _ _ _ _ (Reads-int r.first_free_page_no fits.first_free_page_no)
              (Reads-bind _ _ _ _ _ _ (Reads-int r.num_pages fits.num_pages) (Reads-end r)))))))
