-- ===== src/Record/Scan.antt =====
-- src/record/rm_scan.cpp: the scan over the records of a file. The end of a scan is page -1.
pub mod Order
use rmdb.Prelude.{ℕ, zero, suc, ◌+◌, ◌-◌, Bool, true, Option, none, some, if◌then◌else◌, ltb, ◌>>=◌}
use rmdb.Prelude.Int.{ℤ, pos, negsuc, ◌==ℤ◌}
use rmdb.Transaction.Types.{Rid}
use rmdb.Record.Bitmap.{next_bit}
use rmdb.Record.FileHandle.{RmFileHandle, no_page, fetch_page_handle}

-- The loop over pages, from a page and behind a slot of it; `rounds` is the number of pages that are left.
unfoldable pub next_from_page : ℕ → RmFileHandle → ℕ → ℤ → Option Rid
unfolding fetch_page_handle
next_from_page zero h p slot = some (record { page_no = no_page; slot_no = slot })
next_from_page (suc rounds) h p slot = do
  let rest = next_from_page rounds h (p + 1) no_page
  page ← fetch_page_handle h (pos p)
  let found = next_bit true page.bitmap h.num_records_per_page slot
  if ltb found h.num_records_per_page
      then some (record { page_no = pos p; slot_no = pos found })
      else rest

unfoldable pub next : RmFileHandle → Rid → Option Rid
unfolding next_from_page
next h rid = elim rid.page_no [
  | pos p ↦ next_from_page (h.num_pages - p) h p rid.slot_no
  | negsuc _ ↦ none
]

-- The constructor's position, on the page behind the file's header.
unfoldable pub start : RmFileHandle → Option Rid
unfolding next
start h = next h (record { page_no = pos 1; slot_no = no_page })

abbrev pub is_end : Rid → Bool
is_end rid = rid.page_no ==ℤ no_page
