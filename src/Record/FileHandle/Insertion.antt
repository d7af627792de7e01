-- ===== src/Record/FileHandle/Insertion.antt =====
-- `insert_record`: that it finds a free slot, and what reads find afterwards.
use rmdb.Prelude.{
  ℕ, ◌*◌, ◌<◌, ◌≤◌, ◌≡◌, inl, inr, refl, sym, ap, ◌∙◌, false, ◌&&◌, Option, none, some, List, [],
  length, if◌then◌else◌, ◌==◌, ltb, arith, ==_iff, Bool-cases, nat_eq,
}
use rmdb.Prelude.Int.{pos}
use rmdb.Record.Bitmap.{get_bucket, init, is_set, first_bit}
use rmdb.Record.Bitmap.Laws.{AllBytes}
use rmdb.Record.Bitmap.Counts.{
  count_set-all, first_bit-IsNext, init-clear, init-AllBytes, length-init, count_set-init,
}
use rmdb.Record.FileHandle.{
  RmPage, insert_log, Context, RmFileHandle, no_page, fetch_page_handle, write_page,
  create_page_handle, create_new_page_handle, slot_number, txn_id, get_record, place_record,
  free_slot, insert_record,
}
use rmdb.Record.FileHandle.Laws.{
  IsFilePage, at, get_record-held, place_record-get_record, get_record-track,
}
use rmdb.Record.MvccMap.{insert_record as track_insert}

-- There is room: the head of the list of free pages is a page that is not full, or there is none and a
-- new page has room for a record. Page numbers are given out in order.
pub data HasRoom (h : RmFileHandle) : Type 0 where
  on_page :
      (p : ℕ) (page : RmPage)
      → h.first_free_page_no ≡ pos p
      → p < h.num_pages
      → h.pages p ≡ some page
      → IsFilePage h.num_records_per_page page
      → page.num_records < h.num_records_per_page
      → HasRoom h
  on_new_page :
      h.first_free_page_no ≡ no_page
      → h.next_page ≡ h.num_pages
      → 0 < h.num_records_per_page
      → h.num_records_per_page ≤ 8 * h.bitmap_size
      → HasRoom h

-- A page whose number of records is less than its capacity has a clear position, and `first_bit` finds it.
first_bit-clear :
    (n : ℕ) (page : RmPage)
    → IsFilePage n page
    → page.num_records < n
    → (first_bit false page.bitmap n < n)
      × (is_set page.bitmap (first_bit false page.bitmap n) ≡ false)
first_bit-clear n page w lt =
    let s = first_bit-IsNext false page.bitmap n in
    let r = first_bit false page.bitmap n in
    elim (Bool-cases (ltb r n)) [
      | inl found ↦ (ground arith, ground (arith, s.found))
      | inr full ↦
          let all = count_set-all page.bitmap n (λ j jn. ground (arith, s.skipped j, s.to)) in
          absurd (ground (arith, all, w.counted))
    ]

-- Where a record will go.
pub record IsFreeSlot (h g : RmFileHandle) (p : ℕ) (page : RmPage) (slot : ℕ) : Type 0 where
  pub known : p < g.num_pages
  pub here : g.pages p ≡ some page
  pub bytes : AllBytes page.bitmap
  pub inside : slot < h.num_records_per_page
  pub wide : get_bucket slot < length page.bitmap
  pub clear : is_set page.bitmap slot ≡ false
  pub same : (q j : ℕ) → get_record g (at q j) ≡ get_record h (at q j)

blank_page : RmFileHandle → RmPage
blank_page h = record {
  next_free_page_no = h.first_free_page_no;
  num_records = 0;
  bitmap = init h.bitmap_size;
  slots = λ _. [];
}

blank_page-IsFilePage :
    (h : RmFileHandle)
    → h.num_records_per_page ≤ 8 * h.bitmap_size
    → IsFilePage h.num_records_per_page (blank_page h)
unfolding blank_page
blank_page-IsFilePage h wide = record {
  bytes = init-AllBytes h.bitmap_size;
  wide = omega (arith, length-init h.bitmap_size);
  counted = count_set-init h.bitmap_size h.num_records_per_page;
}

-- A new page has no record, and the others are as they were.
create_new_page_handle-get_record :
    (h : RmFileHandle) (q j : ℕ)
    → h.next_page ≡ h.num_pages
    → get_record (create_new_page_handle h).0 (at q j) ≡ get_record h (at q j)
unfolding get_record fetch_page_handle create_new_page_handle write_page
create_new_page_handle-get_record h q j last =
    ground (arith, init-clear h.bitmap_size j, ==_iff h.next_page q)

create_new_page_handle-here :
    (h : RmFileHandle)
    → h.next_page ≡ h.num_pages
    → ((create_new_page_handle h).0.pages h.next_page ≡ some (blank_page h))
      × (h.next_page < (create_new_page_handle h).0.num_pages)
      × ((create_new_page_handle h).1 ≡ pos h.next_page)
unfolding create_new_page_handle write_page blank_page
create_new_page_handle-here h last = (ground arith, ground arith, refl)

-- `first_bit` never answers -1, so the slot is what it finds on the first page.
free_slot-found :
    (h g : RmFileHandle) (p : ℕ) (page : RmPage)
    → create_page_handle h ≡ (g, pos p)
    → fetch_page_handle g (pos p) ≡ some page
    → free_slot h ≡ some (g, p, page, first_bit false page.bitmap h.num_records_per_page)
unfolding free_slot
free_slot-found h g p page made here = ground arith

pub free_slot-IsFreeSlot :
    (h : RmFileHandle)
    → HasRoom h
    → (g : RmFileHandle) × (p : ℕ) × (page : RmPage) × (slot : ℕ) × (free_slot h
        ≡ some (g, p, page, slot))
      × IsFreeSlot h g p page slot
      × (g.num_records_per_page ≡ h.num_records_per_page)
      × (g.mvcc_map ≡ h.mvcc_map)
unfolding create_page_handle create_new_page_handle write_page fetch_page_handle get_bucket
free_slot-IsFreeSlot h (on_page p page head known here w room) =
    let slot = first_bit false page.bitmap h.num_records_per_page in
    let s = first_bit-clear h.num_records_per_page page w room in
    (
      h,
      p,
      page,
      slot,
      free_slot-found h h p page (ground arith) (ground arith),
      record {
        known = known;
        here = here;
        bytes = w.bytes;
        inside = s.0;
        wide = ground (arith, w.wide, s.0);
        clear = s.1;
        same = λ q j. refl;
      },
      refl,
      refl,
    )
free_slot-IsFreeSlot h (on_new_page head last some_room wide) =
    let g = (create_new_page_handle h).0 in
    let page = blank_page h in
    let n = h.num_records_per_page in
    let slot = first_bit false page.bitmap n in
    let w = blank_page-IsFilePage h wide in
    let s = first_bit-clear n page w (unfold blank_page in ground arith) in
    let made = create_new_page_handle-here h last in
    (
      g,
      h.next_page,
      page,
      slot,
      free_slot-found h g h.next_page page (ground (arith, made.2))
          (ground (arith, made.0, made.1)),
      record {
        known = made.1;
        here = made.0;
        bytes = w.bytes;
        inside = s.0;
        wide = ground (arith, w.wide, s.0);
        clear = s.1;
        same = λ q j. create_new_page_handle-get_record h q j last;
      },
      refl,
      refl,
    )

-- Where there is room, `insert_record` succeeds: it takes a place that held no record, a read of that place
-- then gives the record, and a read of any other place gives what it gave before.
pub insert_record-get_record :
    (h : RmFileHandle) (buf : List ℕ) (c : Context)
    → HasRoom h
    → (g : RmFileHandle) × (p : ℕ) × (slot : ℕ) × (insert_record h buf c ≡ some (g, at p slot))
      × (slot < h.num_records_per_page)
      × (get_record h (at p slot) ≡ none)
      × ((q j : ℕ)
          → get_record g (at q j)
            ≡ (if (p == q) && (slot == j) then some buf else get_record h (at q j)))
unfolding insert_record
insert_record-get_record h buf c room =
    let (f, p, page, slot, found, s, _, _) = free_slot-IsFreeSlot h room in
    let placed = place_record f p page slot buf in
    let entry = insert_log (txn_id c) (at p slot) buf in
    (
      _,
      p,
      slot,
      rw found refl,
      s.inside,
      sym (s.same p slot) ∙ ground (arith, get_record-held f p slot page s.known s.here, s.clear),
      λ q j.
          get_record-track c entry (λ m. track_insert m (slot_number h p slot)) placed q j
          ∙ (place_record-get_record f p slot q j page buf s.known s.here s.bytes s.wide
              ∙ ap (λ (r : Option (List ℕ)). if (p == q) && (slot == j) then some buf else r)
                  (s.same q j)),
    )
