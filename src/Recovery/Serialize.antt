-- ===== src/Recovery/Serialize.antt =====
-- src/recovery/log_manager.h: the log records of changes in a buffer. `none` is an access past the
-- buffer's end, or an array of a negative size.
use rmdb.Prelude.{ℕ, ◌+◌, ◌*◌, ◌%◌, length, Option, none, some, List, [], ◌>>=◌}
use rmdb.Prelude.Bytes.{Cursor, cursor, buffer_of, write_int, read_int}
use rmdb.Recovery.LogRecord.{
  LogType, update, insert, delete, read_log_type, InsertLogRecord, DeleteLogRecord, UpdateLogRecord,
  write_header, read_header, write_value, read_value, write_rid, read_rid, write_name, read_name,
}

unfoldable pub write_insert : InsertLogRecord → Cursor → Option Cursor
write_insert r c = do
  c ← write_header r.header c
  c ← write_value r.insert_value c
  c ← write_rid r.rid c
  c ← write_name r.table_name c
  some c

unfoldable pub read_insert : Cursor → Option (InsertLogRecord × Cursor)
read_insert c = do
  (header, c) ← read_header c
  (insert_value, c) ← read_value c
  (rid, c) ← read_rid c
  (table_name, c) ← read_name c
  some (
    record { header = header; insert_value = insert_value; rid = rid; table_name = table_name },
    c,
  )

unfoldable pub write_delete : DeleteLogRecord → Cursor → Option Cursor
write_delete r c = do
  c ← write_header r.header c
  c ← write_value r.delete_value c
  c ← write_rid r.rid c
  c ← write_name r.table_name c
  c ← write_int r.first_free_page_no c
  c ← write_int r.num_pages c
  some c

unfoldable pub read_delete : Cursor → Option (DeleteLogRecord × Cursor)
read_delete c = do
  (header, c) ← read_header c
  (delete_value, c) ← read_value c
  (rid, c) ← read_rid c
  (table_name, c) ← read_name c
  (first_free_page_no, c) ← read_int c
  (num_pages, c) ← read_int c
  some (
    record {
      header = header;
      delete_value = delete_value;
      rid = rid;
      table_name = table_name;
      first_free_page_no = first_free_page_no;
      num_pages = num_pages;
    },
    c,
  )

unfoldable pub write_update : UpdateLogRecord → Cursor → Option Cursor
write_update r c = do
  c ← write_header r.header c
  c ← write_value r.old_value c
  c ← write_value r.new_value c
  c ← write_rid r.rid c
  c ← write_name r.table_name c
  c ← write_int r.first_free_page_no c
  c ← write_int r.num_pages c
  some c

unfoldable pub read_update : Cursor → Option (UpdateLogRecord × Cursor)
read_update c = do
  (header, c) ← read_header c
  (old_value, c) ← read_value c
  (new_value, c) ← read_value c
  (rid, c) ← read_rid c
  (table_name, c) ← read_name c
  (first_free_page_no, c) ← read_int c
  (num_pages, c) ← read_int c
  some (
    record {
      header = header;
      old_value = old_value;
      new_value = new_value;
      rid = rid;
      table_name = table_name;
      first_free_page_no = first_free_page_no;
      num_pages = num_pages;
    },
    c,
  )

-- `serialize` and `deserialize` start at the front of the buffer.
unfoldable pub serialize_with : (Cursor → Option Cursor) → List ℕ → Option (List ℕ)
serialize_with write dest = do c ← write (cursor [] dest); some (buffer_of c)

unfoldable pub deserialize_with : {A : Type 0} → (Cursor → Option (A × Cursor)) → List ℕ → Option A
deserialize_with read src = do (r, c) ← read (cursor [] src); some r

-- The sizes that the constructors count; the sum is one of `uint32_t`.
unfoldable pub insert_log_len : List ℕ → List ℕ → ℕ
insert_log_len value name = (20 + 4 + length value + 8 + (8 + length name)) % 4294967296

unfoldable pub delete_log_len : List ℕ → List ℕ → ℕ
delete_log_len value name = (20 + 4 + length value + 8 + (8 + length name) + 4 + 4) % 4294967296

unfoldable pub update_log_len : List ℕ → List ℕ → List ℕ → ℕ
update_log_len old new name =
    (20 + 4 * 2 + (length old + length new) + 8 + (8 + length name) + 4 + 4) % 4294967296

pub data LogRecord : Type 0 where
  insert_log : InsertLogRecord → LogRecord
  delete_log : DeleteLogRecord → LogRecord
  update_log : UpdateLogRecord → LogRecord

unfoldable pub serialize : LogRecord → List ℕ → Option (List ℕ)
serialize (insert_log r) dest = serialize_with (write_insert r) dest
serialize (delete_log r) dest = serialize_with (write_delete r) dest
serialize (update_log r) dest = serialize_with (write_update r) dest

-- The cases of the recovery for the types of changes. `none` too for the other types.
unfoldable pub deserialize_as : LogType → List ℕ → Option LogRecord
deserialize_as insert src = deserialize_with read_insert src >>= λ r. some (insert_log r)
deserialize_as delete src = deserialize_with read_delete src >>= λ r. some (delete_log r)
deserialize_as update src = deserialize_with read_update src >>= λ r. some (update_log r)
deserialize_as t src = none

-- The type stands in front.
unfoldable pub deserialize : List ℕ → Option LogRecord
deserialize src = do (log_type, c) ← read_log_type (cursor [] src); deserialize_as log_type src
