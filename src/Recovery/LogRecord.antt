-- ===== src/Recovery/LogRecord.antt =====
-- src/recovery/log_manager.h: log records and their bytes. A record of a table (RmRecord) is its bytes,
-- its size their number, and so is the name of a table.
use rmdb.Prelude.{ℕ, Option, none, some, List, length, if◌then◌else◌, ◌>>=◌}
use rmdb.Prelude.Int.{ℤ, pos, negsuc, ◌==ℤ◌}
use rmdb.Prelude.Bytes.{Cursor, bytes_of, write_bytes, read_bytes, write_int, read_int}
use rmdb.Prelude.Bytes.Codecs.{read_raw}
use rmdb.Transaction.Types.{Rid}

pub data LogType : Type 0 where
  update insert delete begin commit abort checkpoint : LogType

-- The members that all log records have; `log_tot_len_` is without a sign.
pub record LogHeader : Type 0 where
  pub log_type : LogType
  pub lsn : ℤ
  pub log_tot_len : ℕ
  pub log_tid : ℤ
  pub prev_lsn : ℤ

pub record InsertLogRecord : Type 0 where
  pub header : LogHeader
  pub insert_value : List ℕ
  pub rid : Rid
  pub table_name : List ℕ

pub record DeleteLogRecord : Type 0 where
  pub header : LogHeader
  pub delete_value : List ℕ
  pub rid : Rid
  pub table_name : List ℕ
  pub first_free_page_no : ℤ
  pub num_pages : ℤ

pub record UpdateLogRecord : Type 0 where
  pub header : LogHeader
  pub old_value : List ℕ
  pub new_value : List ℕ
  pub rid : Rid
  pub table_name : List ℕ
  pub first_free_page_no : ℤ
  pub num_pages : ℤ

-- The number that stands for an enumerator, and back.
unfoldable pub type_code : LogType → ℤ
type_code update = pos 0
type_code insert = pos 1
type_code delete = pos 2
type_code begin = pos 3
type_code commit = pos 4
type_code abort = pos 5
type_code checkpoint = pos 6

unfoldable pub log_type_of : ℤ → Option LogType
log_type_of v =
    if v ==ℤ pos 0
    then some update
    else (if v ==ℤ pos 1
        then some insert
        else (if v ==ℤ pos 2
            then some delete
            else (if v ==ℤ pos 3
                then some begin
                else (if v ==ℤ pos 4
                    then some commit
                    else (if v ==ℤ pos 5
                        then some abort
                        else (if v ==ℤ pos 6 then some checkpoint else none))))))

-- The offsets of the members are those of numbers in a row, and `OFFSET_LOG_DATA` is behind the last.
unfoldable pub write_header : LogHeader → Cursor → Option Cursor
write_header h c = do
  c ← write_int (type_code h.log_type) c
  c ← write_int h.lsn c
  c ← write_bytes (bytes_of 4 h.log_tot_len) c
  c ← write_int h.log_tid c
  c ← write_int h.prev_lsn c
  some c

unfoldable pub read_log_type : Cursor → Option (LogType × Cursor)
read_log_type c = do (code, c) ← read_int c; log_type ← log_type_of code; some (log_type, c)

unfoldable pub read_header : Cursor → Option (LogHeader × Cursor)
read_header c = do
  (log_type, c) ← read_log_type c
  (lsn, c) ← read_int c
  (log_tot_len, c) ← read_bytes 4 c
  (log_tid, c) ← read_int c
  (prev_lsn, c) ← read_int c
  some (
    record {
      log_type = log_type;
      lsn = lsn;
      log_tot_len = log_tot_len;
      log_tid = log_tid;
      prev_lsn = prev_lsn;
    },
    c,
  )

-- The size of a record and its bytes; an array of a negative size is a thrown error.
unfoldable pub write_value : List ℕ → Cursor → Option Cursor
write_value value c = do c ← write_int (pos (length value)) c; c ← write_bytes value c; some c

unfoldable pub read_sized : ℤ → Cursor → Option (List ℕ × Cursor)
read_sized (pos n) c = read_raw n c
read_sized (negsuc n) c = none

unfoldable pub read_value : Cursor → Option (List ℕ × Cursor)
read_value c = do (size, c) ← read_int c; (value, c) ← read_sized size c; some (value, c)

unfoldable pub write_rid : Rid → Cursor → Option Cursor
write_rid rid c = do c ← write_int rid.page_no c; c ← write_int rid.slot_no c; some c

unfoldable pub read_rid : Cursor → Option (Rid × Cursor)
read_rid c = do
  (page_no, c) ← read_int c
  (slot_no, c) ← read_int c
  some (record { page_no = page_no; slot_no = slot_no }, c)

-- The size of a name is a `size_t`.
unfoldable pub write_name : List ℕ → Cursor → Option Cursor
write_name name c = do c ← write_bytes (bytes_of 8 (length name)) c; c ← write_bytes name c; some c

unfoldable pub read_name : Cursor → Option (List ℕ × Cursor)
read_name c = do (size, c) ← read_bytes 8 c; (name, c) ← read_raw size c; some (name, c)
