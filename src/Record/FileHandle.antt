-- ===== src/Record/FileHandle.antt =====
-- src/record/rm_file_handle.h and rm_file_handle.cpp: the pages of a table's file and the records on
-- them. A page is what a handle of it shows, and its pins and dirty flags are left aside.
pub mod Changes
pub mod Laws
pub mod Insertion
pub mod Deletion
pub mod Visibility
use rmdb.Prelude.{
  ℕ, zero, suc, ◌+◌, ◌-◌, ◌*◌, ◌≡◌, Bool, true, false, Option, none, some, List, [], ◌∷◌, ◌++◌,
  length, if◌then◌else◌, ◌==◌, ltb, leb, nat_eq, Eq, update, ◌>>=◌, map,
}
use rmdb.Prelude.Int.{ℤ, pos, negsuc, ltb_ℤ, ◌==ℤ◌}
use rmdb.Transaction.Types.{Rid}
use rmdb.Record.Bitmap.{init, set, reset, is_set, first_bit}
use rmdb.Record.MvccMap.{MvccMap, RcInfo, visit_record, commit_insert, commit_delete}
use rmdb.Record.MvccMap.{insert_record as track_insert, delete_record as track_delete}

-- A record page: `RmPageHdr`, the bitmap and the slots. A slot beyond the page's last one is what
-- stands there in memory.
pub record RmPage : Type 0 where
  pub next_free_page_no : ℤ
  pub num_records : ℕ
  pub bitmap : List ℕ
  pub slots : ℕ → List ℕ

-- What a change hands to the log manager: the transaction, the place, the bytes before and after.
pub data LogRecord : Type 0 where
  insert_log : ℤ → Rid → List ℕ → LogRecord
  delete_log : ℤ → Rid → List ℕ → LogRecord
  update_log : ℤ → Rid → (old_bytes new_bytes : List ℕ) → LogRecord

-- The transaction, if there is one, and whether there is a log manager.
pub record Context : Type 0 where
  pub txn : Option ℤ
  pub has_log : Bool

pub record RmFileHandle : Type 0 where
  pub pages : ℕ → Option RmPage
  pub next_page : ℕ
  pub num_pages : ℕ
  pub num_records_per_page : ℕ
  pub first_free_page_no : ℤ
  pub bitmap_size : ℕ
  pub mvcc_map : MvccMap
  pub log_buffer : List LogRecord

abbrev pub no_page : ℤ
no_page = negsuc 0

-- A negative slot number is refused where the code would read before the page.
abbrev pub to_index : ℤ → Option ℕ
to_index (pos n) = some n
to_index (negsuc n) = none

-- `none` is the thrown `RecordNotFoundError`.
unfoldable pub fetch_page_handle : RmFileHandle → ℤ → Option RmPage
fetch_page_handle h (pos p) = if ltb p h.num_pages then h.pages p else none
fetch_page_handle h (negsuc p) = none

unfoldable pub write_page : RmFileHandle → ℕ → RmPage → RmFileHandle
write_page h p page = record h { pages = update h.pages p page }

unfoldable pub create_new_page_handle : RmFileHandle → RmFileHandle × ℤ
unfolding write_page
create_new_page_handle h =
    let p = h.next_page in
    let page : RmPage = record {
      next_free_page_no = h.first_free_page_no;
      num_records = 0;
      bitmap = init h.bitmap_size;
      slots = λ _. [];
    } in
    (
      write_page
          (record h {
            next_page = p + 1;
            first_free_page_no = pos p;
            num_pages = if ltb h.num_pages (p + 1) then p + 1 else h.num_pages;
          })
          p page,
      pos p,
    )

unfoldable pub create_page_handle : RmFileHandle → RmFileHandle × ℤ
unfolding create_new_page_handle
create_page_handle h =
    if h.first_free_page_no ==ℤ no_page then create_new_page_handle h else (h, h.first_free_page_no)

-- The number of a place in the whole file, under which its transaction is kept.
abbrev pub slot_number : RmFileHandle → ℕ → ℕ → ℕ
slot_number h p slot = p * h.num_records_per_page + slot

abbrev pub txn_id : Context → ℤ
txn_id c = elim c.txn [ none ↦ negsuc 0 | some id ↦ id ]

abbrev pub log : Context → LogRecord → RmFileHandle → RmFileHandle
log c entry h = if c.has_log then record h { log_buffer = h.log_buffer ++ (entry ∷ []) } else h

abbrev pub track : Context → (MvccMap → ℤ → MvccMap) → RmFileHandle → RmFileHandle
track c change h = elim c.txn [ none ↦ h | some id ↦ record h { mvcc_map = change h.mvcc_map id } ]

unfoldable pub is_record : RmFileHandle → Rid → Option Bool
unfolding fetch_page_handle
is_record h rid = do
  page ← fetch_page_handle h rid.page_no
  slot ← to_index rid.slot_no
  some (is_set page.bitmap slot)

unfoldable pub get_record : RmFileHandle → Rid → Option (List ℕ)
unfolding fetch_page_handle
get_record h rid = do
  page ← fetch_page_handle h rid.page_no
  slot ← to_index rid.slot_no
  if is_set page.bitmap slot then some (page.slots slot) else none

-- The record in its slot, and the page with it. The memory behind the last slot stands in `slots` too; that
-- a write there reaches what lies behind the page is not modelled.
abbrev pub stored : RmPage → ℕ → List ℕ → RmPage
stored page slot buf = record page {
  num_records = page.num_records + 1;
  bitmap = set page.bitmap slot;
  slots = λ j. if slot == j then buf else page.slots j;
}

-- The insertion into a slot; a page that is then full leaves the head of the list of free pages.
unfoldable pub place_record : RmFileHandle → ℕ → RmPage → ℕ → List ℕ → RmFileHandle
unfolding write_page
place_record h p page slot buf =
    if page.num_records + 1 == h.num_records_per_page
    then write_page (record h { first_free_page_no = page.next_free_page_no }) p
        (record (stored page slot buf) { next_free_page_no = no_page })
    else write_page h p (stored page slot buf)

-- The slot that `first_bit` finds, and the page; another page where it answers -1.
unfoldable pub free_slot : RmFileHandle → Option (RmFileHandle × ℕ × RmPage × ℕ)
unfolding create_page_handle create_new_page_handle fetch_page_handle
free_slot h = do
  let found = create_page_handle h
  page ← fetch_page_handle found.0 found.1
  p ← to_index found.1
  let slot = first_bit false page.bitmap h.num_records_per_page
  if pos slot ==ℤ negsuc 0
      then (do
        let created = create_new_page_handle found.0
        new_page ← fetch_page_handle created.0 created.1
        q ← to_index created.1
        let new_slot = first_bit false new_page.bitmap h.num_records_per_page
        if pos new_slot ==ℤ negsuc 0 then none else some (created.0, q, new_page, new_slot))
      else some (found.0, p, page, slot)

unfoldable pub insert_record : RmFileHandle → List ℕ → Context → Option (RmFileHandle × Rid)
unfolding free_slot place_record track_insert
insert_record h buf c = do
  (found, p, page, slot) ← free_slot h
  let rid : Rid = record { page_no = pos p; slot_no = pos slot }
  let logged = log c (insert_log (txn_id c) rid buf) (place_record found p page slot buf)
  some (track c (λ m. track_insert m (slot_number h p slot)) logged, rid)
