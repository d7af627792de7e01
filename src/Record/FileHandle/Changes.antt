-- ===== src/Record/FileHandle/Changes.antt =====
-- src/record/rm_file_handle.cpp: insertion at a given place and of a batch, deletion and update;
-- rm_file_handle.h: `visit` and `commit_mvcc`.
use rmdb.Prelude.{
  ℕ, zero, suc, ◌+◌, ◌-◌, Bool, true, false, ◌&&◌, Option, none, some, List, [], ◌∷◌, ◌++◌, length,
  map, if◌then◌else◌, ◌==◌, leb, ◌>>=◌,
}
use rmdb.Prelude.Int.{ℤ, pos, ◌==ℤ◌}
use rmdb.Transaction.Types.{Rid}
use rmdb.Record.Bitmap.{reset, is_set}
use rmdb.Record.MvccMap.{RcInfo, visit_record, commit_insert, commit_delete}
use rmdb.Record.MvccMap.{insert_record as track_insert, delete_record as track_delete}
use rmdb.Record.FileHandle.{
  RmPage, insert_log, delete_log, update_log, Context, RmFileHandle, no_page, to_index,
  fetch_page_handle, write_page, create_page_handle, slot_number, txn_id, log, track, stored,
}

-- The overload of `insert_record` for a given place; only the head of the list of free pages leaves it.
unfoldable pub insert_record_at : RmFileHandle → Rid → List ℕ → Option RmFileHandle
unfolding fetch_page_handle write_page
insert_record_at h rid buf = do
  page ← fetch_page_handle h rid.page_no
  p ← to_index rid.page_no
  slot ← to_index rid.slot_no
  if is_set page.bitmap slot
      then none
      else if (page.num_records + 1 == h.num_records_per_page)
          && (h.first_free_page_no ==ℤ rid.page_no)
      then some (
          write_page (record h { first_free_page_no = page.next_free_page_no }) p
            (record (stored page slot buf) { next_free_page_no = no_page }))
      else some (write_page h p (stored page slot buf))

-- A page that was full becomes the head of the list of free pages, if it is not.
unfoldable pub release_page_handle : RmFileHandle → ℕ → RmPage → RmFileHandle
unfolding write_page
release_page_handle h p page =
    if h.first_free_page_no ==ℤ pos p
    then write_page h p page
    else write_page (record h { first_free_page_no = pos p }) p
        (record page { next_free_page_no = h.first_free_page_no })

-- The page without the record.
abbrev pub cleared : RmPage → ℕ → RmPage
cleared page slot = record page {
  num_records = page.num_records - 1;
  bitmap = reset page.bitmap slot;
}

unfoldable pub delete_record : RmFileHandle → Rid → Context → Option RmFileHandle
unfolding fetch_page_handle write_page release_page_handle track_delete
delete_record h rid c = do
  page ← fetch_page_handle h rid.page_no
  p ← to_index rid.page_no
  slot ← to_index rid.slot_no
  if is_set page.bitmap slot
      then (do
        let logged = log c (delete_log (txn_id c) rid (page.slots slot)) h
        let released =
            if page.num_records == h.num_records_per_page
            then release_page_handle logged p (cleared page slot)
            else write_page logged p (cleared page slot)
        some (track c (λ m id. (track_delete m (slot_number h p slot) id).0) released))
      else none

unfoldable pub update_record : RmFileHandle → Rid → List ℕ → Context → Option RmFileHandle
unfolding fetch_page_handle write_page track_insert
update_record h rid buf c = do
  page ← fetch_page_handle h rid.page_no
  p ← to_index rid.page_no
  slot ← to_index rid.slot_no
  if is_set page.bitmap slot
      then (do
        let logged = log c (update_log (txn_id c) rid (page.slots slot) buf) h
        let written =
            write_page logged p
              (record page { slots = λ j. if slot == j then buf else page.slots j })
        some (track c (λ m. track_insert m (slot_number h p slot)) written))
      else none

-- The loop over the slots of a page: the page, the records that are left, and the slots that it took.
unfoldable pub fill_page : ℕ → ℕ → ℕ → RmPage → List (List ℕ) → RmPage × List (List ℕ) × List ℕ
fill_page zero i batch page bufs = (page, bufs, [])
fill_page (suc rounds) i batch page [] = (page, [], [])
fill_page (suc rounds) i zero page (buf ∷ bufs) = (page, buf ∷ bufs, [])
fill_page (suc rounds) i (suc batch) page (buf ∷ bufs) =
    let skip = fill_page rounds (i + 1) (suc batch) page (buf ∷ bufs) in
    let take = fill_page rounds (i + 1) batch (stored page i buf) bufs in
    if is_set page.bitmap i then skip else (take.0, take.1, i ∷ take.2)

abbrev pub min : ℕ → ℕ → ℕ
min a b = if leb a b then a else b

-- The loop over pages; each round fills a page, or takes a full one off the list of free pages.
unfoldable pub insert_batch_from :
    ℕ → RmFileHandle → List (List ℕ) → Option (RmFileHandle × List Rid)
unfolding create_page_handle fetch_page_handle write_page fill_page
insert_batch_from fuel h [] = some (h, [])
insert_batch_from zero h (buf ∷ bufs) = none
insert_batch_from (suc fuel) h (buf ∷ bufs) = do
  let found = create_page_handle h
  page ← fetch_page_handle found.0 found.1
  p ← to_index found.1
  let n = h.num_records_per_page
  let filled = fill_page n 0 (min (n - page.num_records) (length (buf ∷ bufs))) page (buf ∷ bufs)
  let kept =
      if filled.0.num_records == n
      then write_page (record found.0 { first_free_page_no = filled.0.next_free_page_no }) p
          (record filled.0 { next_free_page_no = no_page })
      else write_page found.0 p filled.0
  others ← insert_batch_from fuel kept filled.1
  some (others.0, map (λ slot. record { page_no = pos p; slot_no = pos slot }) filled.2 ++ others.1)

-- The log records of a batch are handed over when all records are in.
abbrev pub log_all : Context → List Rid → List (List ℕ) → RmFileHandle → RmFileHandle
log_all c [] bufs h = h
log_all c (rid ∷ rids) [] h = h
log_all c (rid ∷ rids) (buf ∷ bufs) h =
    log_all c rids bufs (log c (insert_log (txn_id c) rid buf) h)

unfoldable pub insert_records_batch :
    ℕ → RmFileHandle → List (List ℕ) → Context → Option (RmFileHandle × List Rid)
unfolding insert_batch_from
insert_records_batch fuel h bufs c = do
  inserted ← insert_batch_from fuel h bufs
  elim c.txn [
    | none ↦ some inserted
    | some id ↦ some (log_all c inserted.1 bufs inserted.0, inserted.1)
  ]

-- Whether the transaction may see the record at a place.
unfoldable pub visit : RmFileHandle → ℕ → ℕ → ℤ → Bool
unfolding visit_record
visit h p slot id = elim (visit_record h.mvcc_map (slot_number h p slot) id false) [
  | RcInfo.success ↦ true
  | RcInfo.record_invisible ↦ false
  | RcInfo.locked_conflict ↦ false
]

-- 0 is an insertion, 1 a deletion, 2 an update.
unfoldable pub commit_mvcc : RmFileHandle → ℕ → ℕ → ℕ → ℤ → RmFileHandle
unfolding commit_insert commit_delete
commit_mvcc h type p slot id =
    let place = slot_number h p slot in
    record h {
      mvcc_map =
          if type == 1
          then (commit_delete h.mvcc_map place id).0
          else (commit_insert h.mvcc_map place id).0;
    }
