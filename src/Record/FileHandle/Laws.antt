-- ===== src/Record/FileHandle/Laws.antt =====
-- What reads find after a record was inserted, deleted or updated.
use rmdb.Prelude.{
  ℕ, ◌*◌, ◌<◌, ◌≤◌, ◌≡◌, refl, ◌&&◌, Option, none, some, List, length, if◌then◌else◌, ◌==◌, arith,
  ==_iff, nat_eq,
}
use rmdb.Prelude.Int.{ℤ, pos}
use rmdb.Transaction.Types.{Rid}
use rmdb.Record.Bitmap.{get_bucket, is_set}
use rmdb.Record.Bitmap.Laws.{AllBytes, is_set-set, is_set-reset}
use rmdb.Record.Bitmap.Counts.{count_set}
use rmdb.Record.FileHandle.{
  RmPage, LogRecord, Context, RmFileHandle, no_page, fetch_page_handle, write_page, log, track,
  stored, get_record, place_record,
}
use rmdb.Record.FileHandle.Changes.{cleared}
use rmdb.Record.MvccMap.{MvccMap}

-- A record page for n records: its bitmap is bytes enough for them, and says how many there are.
pub record IsFilePage (n : ℕ) (page : RmPage) : Type 0 where
  pub bytes : AllBytes page.bitmap
  pub wide : n ≤ 8 * length page.bitmap
  pub counted : count_set page.bitmap n ≡ page.num_records

abbrev pub at : ℕ → ℕ → Rid
at p slot = record { page_no = pos p; slot_no = pos slot }

-- What a page holds at a slot.
abbrev pub held : RmPage → ℕ → Option (List ℕ)
held page j = if is_set page.bitmap j then some (page.slots j) else none

pub get_record-held :
    (h : RmFileHandle) (p j : ℕ) (page : RmPage)
    → p < h.num_pages
    → h.pages p ≡ some page
    → get_record h (at p j) ≡ held page j
unfolding get_record fetch_page_handle
get_record-held h p j page lt here = ground arith

-- A read depends on the pages and their number alone.
pub get_record-same :
    (h g : RmFileHandle) (p j : ℕ)
    → g.pages p ≡ h.pages p
    → g.num_pages ≡ h.num_pages
    → get_record g (at p j) ≡ get_record h (at p j)
unfolding get_record fetch_page_handle
get_record-same h g p j a b = ground arith

pub get_record-write_page :
    (h : RmFileHandle) (p q j : ℕ) (page : RmPage)
    → p < h.num_pages
    → get_record (write_page h p page) (at q j)
      ≡ (if p == q then held page j else get_record h (at q j))
unfolding get_record fetch_page_handle write_page
get_record-write_page h p q j page lt = ground (arith, ==_iff p q)

held-stored :
    (page : RmPage) (slot j : ℕ) (buf : List ℕ)
    → AllBytes page.bitmap
    → get_bucket slot < length page.bitmap
    → held (stored page slot buf) j ≡ (if slot == j then some buf else held page j)
held-stored page slot j buf bytes wide = ground (arith, is_set-set page.bitmap slot j bytes wide)

pub held-cleared :
    (page : RmPage) (slot j : ℕ)
    → AllBytes page.bitmap
    → get_bucket slot < length page.bitmap
    → held (cleared page slot) j ≡ (if slot == j then none else held page j)
held-cleared page slot j bytes wide = ground (arith, is_set-reset page.bitmap slot j bytes wide)

pub place_record-get_record :
    (h : RmFileHandle) (p slot q j : ℕ) (page : RmPage) (buf : List ℕ)
    → p < h.num_pages
    → h.pages p ≡ some page
    → AllBytes page.bitmap
    → get_bucket slot < length page.bitmap
    → get_record (place_record h p page slot buf) (at q j)
      ≡ (if (p == q) && (slot == j) then some buf else get_record h (at q j))
unfolding place_record
place_record-get_record h p slot q j page buf lt here bytes wide =
    let s = stored page slot buf in
    let head = record h { first_free_page_no = page.next_free_page_no } in
    ground (
      arith,
      get_record-write_page h p q j s lt,
      get_record-write_page head p q j (record s { next_free_page_no = no_page }) lt,
      get_record-same h head q j refl refl,
      held-stored page slot j buf bytes wide,
      get_record-held h p j page lt here,
      ==_iff p q,
    )

-- The log and the map of transactions are not read.
pub get_record-track :
    (c : Context) (entry : LogRecord) (change : MvccMap → ℤ → MvccMap) (h : RmFileHandle) (q j : ℕ)
    → get_record (track c change (log c entry h)) (at q j) ≡ get_record h (at q j)
unfolding get_record fetch_page_handle
get_record-track c entry change h q j = ground arith
