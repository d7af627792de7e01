-- ===== src/Recovery/RoundTrip.antt =====
-- src/recovery/log_manager.h: a log record of a change that is written and read back.
use rmdb.Prelude.{ℕ, ◌≡◌, sym, ap, ◌∙◌, Option, some, List, [], ◌++◌, length, ◌>>=◌}
use rmdb.Prelude.Bytes.{Cursor, buffer_of}
use rmdb.Prelude.Bytes.Codecs.{Writes, Reads}
use rmdb.Recovery.LogRecord.{
  LogType, update, insert, delete, LogHeader, InsertLogRecord, DeleteLogRecord, UpdateLogRecord,
}
use rmdb.Recovery.Parts.{
  int_bytes, header_bytes, value_bytes, name_bytes, rid_bytes, Reads-log_type,
}
use rmdb.Recovery.Serialize.{
  LogRecord, insert_log, delete_log, update_log, serialize, deserialize, deserialize_as,
  serialize_with, deserialize_with, write_insert, read_insert, write_delete, read_delete,
  write_update, read_update,
}
use rmdb.Recovery.Agreement.{
  InsertFits, DeleteFits, UpdateFits, insert_bytes, delete_bytes, update_bytes, Writes-insert,
  Reads-insert, Writes-delete, Reads-delete, Writes-update, Reads-update,
}
use rmdb.Recovery.Lengths.{length-insert, length-delete, length-update}

-- In bytes that start with a header the type is in front.
known :
    (h : LogHeader) (t : LogType) (more rest : List ℕ)
    → h.log_type ≡ t
    → deserialize ((header_bytes h ++ more) ++ rest)
      ≡ deserialize_as t ((header_bytes h ++ more) ++ rest)
unfolding Reads deserialize
known h t more rest e =
    let src = (header_bytes h ++ more) ++ rest in
    ap (λ m. m >>= λ (u, c). deserialize_as u src) (Reads-log_type h.log_type [] _)
    ∙ ap (λ u. deserialize_as u src) e

through :
    {A : Type 0} (w : Cursor → Option Cursor) (r : Cursor → Option (A × Cursor)) (bs : List ℕ)
    (a : A)
    → Writes w bs
    → Reads r bs a
    → (dest rest : List ℕ) → length dest ≡ length bs
    → (serialize_with w (dest ++ rest) ≡ some (bs ++ rest))
      × (deserialize_with r (bs ++ rest) ≡ some a)
unfolding serialize_with deserialize_with Writes Reads
through w r bs a f g dest rest e = (
  ap (λ m. m >>= λ c. some (buffer_of c)) (f dest [] rest e),
  ap (λ m. m >>= λ (x, c). some x) (g [] rest),
)

known-insert :
    (r : InsertLogRecord) (rest : List ℕ)
    → r.header.log_type ≡ insert
    → deserialize (insert_bytes r ++ rest) ≡ deserialize_as insert (insert_bytes r ++ rest)
unfolding insert_bytes
known-insert r rest e =
    known r.header insert
      (value_bytes r.insert_value ++ (rid_bytes r.rid ++ (name_bytes r.table_name ++ []))) rest e

known-delete :
    (r : DeleteLogRecord) (rest : List ℕ)
    → r.header.log_type ≡ delete
    → deserialize (delete_bytes r ++ rest) ≡ deserialize_as delete (delete_bytes r ++ rest)
unfolding delete_bytes
known-delete r rest e =
    known r.header delete
      (value_bytes r.delete_value
        ++ (rid_bytes r.rid
            ++ (name_bytes r.table_name
                ++ (int_bytes r.first_free_page_no ++ (int_bytes r.num_pages ++ [])))))
      rest e

known-update :
    (r : UpdateLogRecord) (rest : List ℕ)
    → r.header.log_type ≡ update
    → deserialize (update_bytes r ++ rest) ≡ deserialize_as update (update_bytes r ++ rest)
unfolding update_bytes
known-update r rest e =
    known r.header update
      (value_bytes r.old_value
        ++ (value_bytes r.new_value
            ++ (rid_bytes r.rid
                ++ (name_bytes r.table_name
                    ++ (int_bytes r.first_free_page_no ++ (int_bytes r.num_pages ++ []))))))
      rest e

abbrev pub Fits : LogRecord → Type 0
Fits (insert_log r) = InsertFits r
Fits (delete_log r) = DeleteFits r
Fits (update_log r) = UpdateFits r

abbrev pub log_tot_len_of : LogRecord → ℕ
log_tot_len_of (insert_log r) = r.header.log_tot_len
log_tot_len_of (delete_log r) = r.header.log_tot_len
log_tot_len_of (update_log r) = r.header.log_tot_len

-- A log record of a change, with the type and the length that its constructor sets and all members
-- within their width, is written into a buffer of exactly its length without touching what follows, and the
-- recovery, which looks at the type first, reads the same record from there.
pub deserialize-serialize_log :
    (log : LogRecord) (dest rest : List ℕ)
    → Fits log
    → length dest ≡ log_tot_len_of log
    → (bytes : List ℕ) × (length bytes ≡ log_tot_len_of log)
      × (serialize log (dest ++ rest) ≡ some (bytes ++ rest))
      × (deserialize (bytes ++ rest) ≡ some log)
unfolding serialize deserialize_as
deserialize-serialize_log (insert_log r) dest rest fits e =
    let size = length-insert r fits in
    let (written, read) =
      through (write_insert r) read_insert (insert_bytes r) r (Writes-insert r)
        (Reads-insert r fits) dest rest (e ∙ sym size) in
    (
      insert_bytes r,
      size,
      written,
      known-insert r rest fits.typed ∙ ap (λ m. m >>= λ x. some (insert_log x)) read,
    )
deserialize-serialize_log (delete_log r) dest rest fits e =
    let size = length-delete r fits in
    let (written, read) =
      through (write_delete r) read_delete (delete_bytes r) r (Writes-delete r)
        (Reads-delete r fits) dest rest (e ∙ sym size) in
    (
      delete_bytes r,
      size,
      written,
      known-delete r rest fits.typed ∙ ap (λ m. m >>= λ x. some (delete_log x)) read,
    )
deserialize-serialize_log (update_log r) dest rest fits e =
    let size = length-update r fits in
    let (written, read) =
      through (write_update r) read_update (update_bytes r) r (Writes-update r)
        (Reads-update r fits) dest rest (e ∙ sym size) in
    (
      update_bytes r,
      size,
      written,
      known-update r rest fits.typed ∙ ap (λ m. m >>= λ x. some (update_log x)) read,
    )
