-- ===== src/Recovery/Parts.antt =====
-- src/recovery/log_manager.h: what is written and what is read of each part of a log record agree.
use rmdb.Prelude.{ℕ, ◌<◌, ◌≡◌, refl, ap, ◌∙◌, some, List, [], ◌++◌, length, ◌>>=◌}
use rmdb.Prelude.Int.{ℤ, pos}
use rmdb.Prelude.Bytes.{cursor, bytes_of, to_word, IsInt32}
use rmdb.Prelude.Bytes.Codecs.{
  Writes, Reads, Writes-bytes, Writes-int, Writes-end, Writes-bind, Reads-bytes, Reads-int,
  Reads-raw, Reads-end, Reads-bind,
}
use rmdb.Transaction.Types.{Rid}
use rmdb.Recovery.LogRecord.{
  LogType, update, insert, delete, begin, commit, abort, checkpoint, LogHeader, type_code,
  log_type_of, read_log_type, write_header, read_header, write_value, read_value, read_sized,
  write_rid, read_rid, write_name, read_name,
}
use native.Mathlib.Omega.{arith}

-- The members of a header fit in their 32 bits.
pub record HeaderFits (h : LogHeader) : Type 0 where
  pub lsn : IsInt32 h.lsn
  pub log_tot_len : h.log_tot_len < 4294967296
  pub log_tid : IsInt32 h.log_tid
  pub prev_lsn : IsInt32 h.prev_lsn

pub record RidFits (rid : Rid) : Type 0 where
  pub page_no : IsInt32 rid.page_no
  pub slot_no : IsInt32 rid.slot_no

abbrev pub int_bytes : ℤ → List ℕ
int_bytes v = bytes_of 4 (to_word v)

abbrev pub header_bytes : LogHeader → List ℕ
header_bytes h =
    int_bytes (type_code h.log_type)
    ++ (int_bytes h.lsn
        ++ (bytes_of 4 h.log_tot_len ++ (int_bytes h.log_tid ++ (int_bytes h.prev_lsn ++ []))))

abbrev pub value_bytes : List ℕ → List ℕ
value_bytes value = int_bytes (pos (length value)) ++ (value ++ [])

abbrev pub name_bytes : List ℕ → List ℕ
name_bytes name = bytes_of 8 (length name) ++ (name ++ [])

abbrev pub rid_bytes : Rid → List ℕ
rid_bytes rid = int_bytes rid.page_no ++ (int_bytes rid.slot_no ++ [])

pub Writes-header : (h : LogHeader) → Writes (write_header h) (header_bytes h)
unfolding write_header
Writes-header h = Writes-bind _ _ _ _ (Writes-int (type_code h.log_type)) (
    Writes-bind _ _ _ _ (Writes-int h.lsn) (
      Writes-bind _ _ _ _ (Writes-bytes (bytes_of 4 h.log_tot_len)) (
        Writes-bind _ _ _ _ (Writes-int h.log_tid)
          (Writes-bind _ _ _ _ (Writes-int h.prev_lsn) Writes-end))))

pub Writes-value : (value : List ℕ) → Writes (write_value value) (value_bytes value)
unfolding write_value
Writes-value value =
    Writes-bind _ _ _ _ (Writes-int (pos (length value)))
      (Writes-bind _ _ _ _ (Writes-bytes value) Writes-end)

pub Writes-name : (name : List ℕ) → Writes (write_name name) (name_bytes name)
unfolding write_name
Writes-name name =
    Writes-bind _ _ _ _ (Writes-bytes (bytes_of 8 (length name)))
      (Writes-bind _ _ _ _ (Writes-bytes name) Writes-end)

pub Writes-rid : (rid : Rid) → Writes (write_rid rid) (rid_bytes rid)
unfolding write_rid
Writes-rid rid =
    Writes-bind _ _ _ _ (Writes-int rid.page_no)
      (Writes-bind _ _ _ _ (Writes-int rid.slot_no) Writes-end)

type_code-back : (t : LogType) → log_type_of (type_code t) ≡ some t
unfolding type_code log_type_of
type_code-back update = refl
type_code-back insert = refl
type_code-back delete = refl
type_code-back begin = refl
type_code-back commit = refl
type_code-back abort = refl
type_code-back checkpoint = refl

type_code-IsInt32 : (t : LogType) → IsInt32 (type_code t)
unfolding type_code
type_code-IsInt32 update = omega arith
type_code-IsInt32 insert = omega arith
type_code-IsInt32 delete = omega arith
type_code-IsInt32 begin = omega arith
type_code-IsInt32 commit = omega arith
type_code-IsInt32 abort = omega arith
type_code-IsInt32 checkpoint = omega arith

pub Reads-log_type : (t : LogType) → Reads read_log_type (int_bytes (type_code t)) t
unfolding Reads read_log_type
Reads-log_type t pre rest =
    let v : ℤ = type_code t in
    ap (λ m. m >>= λ (code, c). log_type_of code >>= λ u. some (u, c))
      (Reads-int v (type_code-IsInt32 t) pre rest)
    ∙ ap (λ m. m >>= λ u. some (u, cursor (pre ++ int_bytes v) rest)) (type_code-back t)

pub Reads-header : (h : LogHeader) → HeaderFits h → Reads read_header (header_bytes h) h
unfolding read_header
Reads-header h fits = Reads-bind _ _ _ _ _ _ (Reads-log_type h.log_type) (
    Reads-bind _ _ _ _ _ _ (Reads-int h.lsn fits.lsn) (
      Reads-bind _ _ _ _ _ _ (Reads-bytes 4 h.log_tot_len fits.log_tot_len) (
        Reads-bind _ _ _ _ _ _ (Reads-int h.log_tid fits.log_tid)
          (Reads-bind _ _ _ _ _ _ (Reads-int h.prev_lsn fits.prev_lsn) (Reads-end h)))))

pub Reads-value :
    (value : List ℕ) → length value < 2147483648 → Reads read_value (value_bytes value) value
unfolding read_value read_sized
Reads-value value h =
    Reads-bind _ _ _ _ _ _ (Reads-int (pos (length value)) h)
      (Reads-bind _ _ _ _ _ _ (Reads-raw value) (Reads-end value))

pub Reads-name :
    (name : List ℕ) → length name < 18446744073709551616 → Reads read_name (name_bytes name) name
unfolding read_name
Reads-name name h =
    Reads-bind _ _ _ _ _ _ (Reads-bytes 8 (length name) h)
      (Reads-bind _ _ _ _ _ _ (Reads-raw name) (Reads-end name))

pub Reads-rid : (rid : Rid) → RidFits rid → Reads read_rid (rid_bytes rid) rid
unfolding read_rid
Reads-rid rid fits =
    Reads-bind _ _ _ _ _ _ (Reads-int rid.page_no fits.page_no)
      (Reads-bind _ _ _ _ _ _ (Reads-int rid.slot_no fits.slot_no) (Reads-end rid))
