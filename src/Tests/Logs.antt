-- ===== src/Tests/Logs.antt =====
-- The round trip of log records at a concrete record.
use rmdb.Prelude.{ℕ, ◌≡◌, refl, some, List, [], ◌∷◌, ◌++◌, length, replicate, arith}
use rmdb.Prelude.Int.{pos, negsuc}
use rmdb.Recovery.LogRecord.{DeleteLogRecord, delete}
use rmdb.Recovery.Agreement.{DeleteFits}
use rmdb.Recovery.Serialize.{delete_log, serialize, deserialize, delete_log_len}
use rmdb.Recovery.RoundTrip.{deserialize-serialize_log}

-- A deleted record of three bytes of the table `ab`, logged by transaction 4.
abbrev deletion : DeleteLogRecord
deletion = record {
  header = record {
    log_type = delete;
    lsn = pos 17;
    log_tot_len = 53;
    log_tid = pos 4;
    prev_lsn = negsuc 0;
  };
  delete_value = 7 ∷ 8 ∷ 9 ∷ [];
  rid = record { page_no = pos 1; slot_no = pos 2 };
  table_name = 97 ∷ 98 ∷ [];
  first_free_page_no = negsuc 0;
  num_pages = pos 3;
}

deletion-DeleteFits : DeleteFits deletion
unfolding delete_log_len
deletion-DeleteFits = record {
  header = record {
    lsn = omega arith;
    log_tot_len = omega arith;
    log_tid = omega arith;
    prev_lsn = omega arith;
  };
  typed = refl;
  counted = refl;
  small = omega arith;
  rid = record { page_no = omega arith; slot_no = omega arith };
  first_free_page_no = omega arith;
  num_pages = omega arith;
}

deserialize-serialize_log_example :
    (bytes : List ℕ) × (length bytes ≡ 53)
    × (serialize (delete_log deletion) (replicate 53 0 ++ (1 ∷ [])) ≡ some (bytes ++ (1 ∷ [])))
    × (deserialize (bytes ++ (1 ∷ [])) ≡ some (delete_log deletion))
deserialize-serialize_log_example =
    deserialize-serialize_log (delete_log deletion) (replicate 53 0) (1 ∷ []) deletion-DeleteFits
      refl
