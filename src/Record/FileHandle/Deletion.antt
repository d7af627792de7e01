-- ===== src/Record/FileHandle/Deletion.antt =====
-- `delete_record` and `update_record`: what reads find afterwards, and the page that a deletion leaves.
use rmdb.Prelude.{
  ℕ, ◌<◌, ◌≡◌, refl, sym, ap, subst, ◌∙◌, true, ◌&&◌, none, some, List, length, if◌then◌else◌, ◌==◌,
  ◌+◌, inl, inr, Bool-cases, arith, ==_iff,
}
use rmdb.Prelude.Int.{ℤ, pos, ◌==ℤ◌}
use rmdb.Record.Bitmap.{get_bucket, is_set}
use rmdb.Record.Bitmap.Counts.{count_set-reset, reset-AllBytes, length-reset_bit}
use rmdb.Record.FileHandle.{
  RmPage, LogRecord, delete_log, update_log, Context, RmFileHandle, fetch_page_handle, write_page,
  slot_number, txn_id, log, track, get_record,
}
use rmdb.Record.FileHandle.Changes.{cleared, delete_record, update_record, release_page_handle}
use rmdb.Record.FileHandle.Laws.{
  IsFilePage, at, held, get_record-held, get_record-same, get_record-write_page, held-cleared,
}
use rmdb.Record.MvccMap.{MvccMap}
use rmdb.Record.MvccMap.{insert_record as track_insert, delete_record as track_delete}

-- A record stands at the place.
pub record IsRecordAt (h : RmFileHandle) (p : ℕ) (page : RmPage) (slot : ℕ) : Type 0 where
  pub known : p < h.num_pages
  pub here : h.pages p ≡ some page
  pub on_page : IsFilePage h.num_records_per_page page
  pub inside : slot < h.num_records_per_page
  pub on : is_set page.bitmap slot ≡ true

-- The page without the record, put back, and the list of free pages with it.
put_back : RmFileHandle → ℕ → RmPage → RmPage → RmFileHandle
put_back h p page less =
    if page.num_records == h.num_records_per_page
    then release_page_handle h p less
    else write_page h p less

get_record-put_back :
    (h : RmFileHandle) (p q j : ℕ) (page less : RmPage)
    → p < h.num_pages
    → get_record (put_back h p page less) (at q j)
      ≡ (if p == q then held less j else get_record h (at q j))
unfolding put_back release_page_handle
get_record-put_back h p q j page less known =
    let head = record h { first_free_page_no = pos p } in
    ground (
      arith,
      get_record-write_page h p q j less known,
      get_record-write_page head p q j (record less { next_free_page_no = h.first_free_page_no })
          known,
      get_record-same h head q j refl refl,
    )

log_lem :
    (c : Context) (entry : LogRecord) (h : RmFileHandle) (q j : ℕ)
    → ((log c entry h).num_pages ≡ h.num_pages)
      × (get_record (log c entry h) (at q j) ≡ get_record h (at q j))
unfolding get_record fetch_page_handle
log_lem c entry h q j = ground arith

get_record-only_track :
    (c : Context) (change : MvccMap → ℤ → MvccMap) (h : RmFileHandle) (q j : ℕ)
    → get_record (track c change h) (at q j) ≡ get_record h (at q j)
unfolding get_record fetch_page_handle
get_record-only_track c change h q j = ground arith

delete_record-steps :
    (h : RmFileHandle) (p slot : ℕ) (page : RmPage) (c : Context)
    → fetch_page_handle h (pos p) ≡ some page
    → is_set page.bitmap slot ≡ true
    → delete_record h (at p slot) c
      ≡ some (
          track c
            (λ m id. (track_delete m (slot_number h p slot) id).0)
            (put_back
              (log c (delete_log (txn_id c) (at p slot) (page.slots slot)) h)
              p
              page
              (cleared page slot)))
unfolding delete_record put_back
delete_record-steps h p slot page c here on = ground arith

-- The page that is put back has one record less than the page before.
cleared-IsFilePage :
    (n slot : ℕ) (page : RmPage)
    → IsFilePage n page
    → slot < n
    → is_set page.bitmap slot ≡ true
    → IsFilePage n (cleared page slot) × ((cleared page slot).num_records + 1 ≡ page.num_records)
cleared-IsFilePage n slot page w inside on =
    let fewer = count_set-reset page.bitmap slot n w.bytes w.wide inside on in
    (
      record {
        bytes = reset-AllBytes page.bitmap slot w.bytes;
        wide = omega (arith, w.wide, length-reset_bit page.bitmap slot);
        counted = omega (arith, w.counted, fewer);
      },
      omega (arith, w.counted, fewer),
    )

put_back-pages :
    (h : RmFileHandle) (p slot : ℕ) (page : RmPage)
    → IsFilePage h.num_records_per_page page
    → slot < h.num_records_per_page
    → is_set page.bitmap slot ≡ true
    → (left : RmPage) × ((put_back h p page (cleared page slot)).pages p ≡ some left)
      × IsFilePage h.num_records_per_page left
      × (left.num_records + 1 ≡ page.num_records)
unfolding put_back release_page_handle write_page
put_back-pages h p slot page w inside on =
    let (fits, fewer) = cleared-IsFilePage h.num_records_per_page slot page w inside on in
    elim (Bool-cases (page.num_records == h.num_records_per_page)) [
      | inl full ↦ elim (Bool-cases (h.first_free_page_no ==ℤ pos p)) [
        | inl head ↦
            (cleared page slot, rw (full, release_page_handle, head) (ground arith), fits, fewer)
        | inr behind ↦ (
          record (cleared page slot) { next_free_page_no = h.first_free_page_no },
          rw (full, release_page_handle, behind) (ground arith),
          record { bytes = fits.bytes; wide = fits.wide; counted = fits.counted },
          fewer,
        )
      ]
      | inr room ↦ (cleared page slot, rw room (ground arith), fits, fewer)
    ]

track_pages :
    (c : Context) (change : MvccMap → ℤ → MvccMap) (h : RmFileHandle)
    → (track c change h).pages ≡ h.pages
track_pages c change h = ground arith

-- Deleting a record succeeds. A read of its place then fails, and a read of any other place gives what it
-- gave before. The page of the record is in the file afterwards as a record page, with one record less.
pub delete_record-get_record :
    (h : RmFileHandle) (p slot : ℕ) (page : RmPage) (c : Context)
    → IsRecordAt h p page slot
    → (g : RmFileHandle) × (delete_record h (at p slot) c ≡ some g)
      × ((q j : ℕ)
          → get_record g (at q j)
            ≡ (if (p == q) && (slot == j) then none else get_record h (at q j)))
      × ((left : RmPage) × (g.pages p ≡ some left)
          × IsFilePage h.num_records_per_page left
          × (left.num_records + 1 ≡ page.num_records))
unfolding fetch_page_handle get_bucket
delete_record-get_record h p slot page c r =
    let n = h.num_records_per_page in
    let entry = delete_log (txn_id c) (at p slot) (page.slots slot) in
    let logged = log c entry h in
    let change = λ (m : MvccMap) (id : ℤ). (track_delete m (slot_number h p slot) id).0 in
    let same : logged.num_records_per_page ≡ n = ground arith in
    let w = r.on_page in
    let wide : get_bucket slot < length page.bitmap = ground (arith, w.wide, r.inside) in
    (
      _,
      delete_record-steps h p slot page c (ground (arith, r.known, r.here)) r.on,
      λ q j.
          get_record-only_track c change (put_back logged p page (cleared page slot)) q j
          ∙ ground (
            arith,
            get_record-put_back logged p q j page (cleared page slot)
                (omega (arith, (log_lem c entry h q j).0, r.known)),
            log_lem c entry h q j,
            held-cleared page slot j w.bytes wide,
            get_record-held h p j page r.known r.here,
            ==_iff p q,
          ),
      let (left, there, fits, fewer) =
            put_back-pages logged p slot page (subst (λ k. IsFilePage k page) (sym same) w)
              (ground (arith, same, r.inside)) r.on in
          (
            left,
            ap (λ pages. pages p)
                  (track_pages c change (put_back logged p page (cleared page slot)))
                ∙ there,
            subst (λ k. IsFilePage k left) same fits,
            fewer,
          ),
    )

update_record-steps :
    (h : RmFileHandle) (p slot : ℕ) (page : RmPage) (buf : List ℕ) (c : Context)
    → fetch_page_handle h (pos p) ≡ some page
    → is_set page.bitmap slot ≡ true
    → update_record h (at p slot) buf c
      ≡ some (
          track c
            (λ m. track_insert m (slot_number h p slot))
            (write_page
              (log c (update_log (txn_id c) (at p slot) (page.slots slot) buf) h)
              p
              (record page { slots = λ j. if slot == j then buf else page.slots j })))
unfolding update_record
update_record-steps h p slot page buf c here on = ground arith

-- Updating a record succeeds. A read of its place then gives the new bytes, and a read of any other place
-- gives what it gave before.
pub update_record-get_record :
    (h : RmFileHandle) (p slot : ℕ) (page : RmPage) (buf : List ℕ) (c : Context)
    → IsRecordAt h p page slot
    → (g : RmFileHandle) × (update_record h (at p slot) buf c ≡ some g)
      × ((q j : ℕ)
          → get_record g (at q j)
            ≡ (if (p == q) && (slot == j) then some buf else get_record h (at q j)))
unfolding fetch_page_handle
update_record-get_record h p slot page buf c r =
    let entry = update_log (txn_id c) (at p slot) (page.slots slot) buf in
    let logged = log c entry h in
    let changed : RmPage = record page { slots = λ j. if slot == j then buf else page.slots j } in
    (
      _,
      update_record-steps h p slot page buf c (ground (arith, r.known, r.here)) r.on,
      λ q j.
          get_record-only_track c (λ m. track_insert m (slot_number h p slot))
            (write_page logged p changed) q j
          ∙ ground (
            arith,
            get_record-write_page logged p q j changed
                (omega (arith, (log_lem c entry h q j).0, r.known)),
            log_lem c entry h q j,
            get_record-held h p j page r.known r.here,
            r.on,
            ==_iff p q,
            ==_iff slot j,
          ),
    )
