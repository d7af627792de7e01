-- ===== src/Tests/Records.antt =====
-- The theorems on record files at concrete inputs.
use rmdb.Prelude.{
  ℕ, ◌+◌, ◌*◌, ◌<◌, ◌≤◌, ◌≡◌, refl, true, false, ◌&&◌, ◌||◌, none, some, [], ◌∷◌, if◌then◌else◌,
  ◌==◌, arith,
}
use rmdb.Prelude.Int.{ℤ, pos, ◌==ℤ◌}
use rmdb.Transaction.Types.{Rid}
use rmdb.Record.Bitmap.{is_set, get_bucket, get_bit, after}
use rmdb.Record.Bitmap.Counts.{count_set}
use rmdb.Record.FileHandle.{RmPage, Context, RmFileHandle, no_page, get_record, insert_record}
use rmdb.Record.FileHandle.Changes.{delete_record, update_record, visit, commit_mvcc}
use rmdb.Record.FileHandle.Laws.{IsFilePage, at}
use rmdb.Record.FileHandle.Insertion.{HasRoom, on_page, insert_record-get_record}
use rmdb.Record.FileHandle.Deletion.{IsRecordAt, delete_record-get_record, update_record-get_record}
use rmdb.Record.FileHandle.Visibility.{insert_record-visit}
use rmdb.Record.Scan.{next}
use rmdb.Record.Scan.Order.{IsFirst, next-IsFirst}
use rmdb.Record.Layout.{
  create_file, IsLaidOut, create_file-IsLaidOut, btree_order_of, btree_order_of-fits, page_size,
  ix_page_hdr_size, rid_size,
}

-- A page with room for three records, the first two of them taken.
abbrev two_of_three : RmPage
two_of_three = record {
  next_free_page_no = no_page;
  num_records = 2;
  bitmap = 0xc0 ∷ [];
  slots = λ j. if j == 0 then 10 ∷ [] else 11 ∷ [];
}

-- The same page with all three taken.
abbrev three_of_three : RmPage
three_of_three = record two_of_three { num_records = 3; bitmap = 0xe0 ∷ [] }

abbrev file : RmPage → RmFileHandle
file page = record {
  pages = λ p. if p == 1 then some page else none;
  next_page = 2;
  num_pages = 2;
  num_records_per_page = 3;
  first_free_page_no = pos 1;
  bitmap_size = 1;
  mvcc_map = λ _. none;
  log_buffer = [];
}

abbrev by_four : Context
by_four = record { txn = some (pos 4); has_log = true }

two_of_three-IsFilePage : IsFilePage 3 two_of_three
unfolding count_set is_set get_bucket get_bit
two_of_three-IsFilePage = record { bytes = omega arith; wide = omega arith; counted = refl }

file-HasRoom : HasRoom (file two_of_three)
file-HasRoom = on_page 1 two_of_three refl (omega arith) refl two_of_three-IsFilePage (omega arith)

first-IsRecordAt : IsRecordAt (file two_of_three) 1 two_of_three 0
unfolding is_set get_bucket get_bit
first-IsRecordAt = record {
  known = omega arith;
  here = refl;
  on_page = two_of_three-IsFilePage;
  inside = omega arith;
  on = refl;
}

insert_record-get_record_example :
    (g : RmFileHandle) × (p : ℕ) × (slot : ℕ) × (insert_record (file two_of_three) (12 ∷ []) by_four
      ≡ some (g, at p slot))
    × (slot < 3)
    × (get_record (file two_of_three) (at p slot) ≡ none)
    × ((q j : ℕ)
        → get_record g (at q j) ≡ (
            if (p == q) && (slot == j)
            then some (12 ∷ [])
            else get_record (file two_of_three) (at q j)))
insert_record-get_record_example =
    insert_record-get_record (file two_of_three) (12 ∷ []) by_four file-HasRoom

delete_record-get_record_example :
    (g : RmFileHandle) × (delete_record (file two_of_three) (at 1 0) by_four ≡ some g)
    × ((q j : ℕ)
        → get_record g (at q j)
          ≡ (if (1 == q) && (0 == j) then none else get_record (file two_of_three) (at q j)))
    × ((left : RmPage) × (g.pages 1 ≡ some left) × IsFilePage 3 left × (left.num_records + 1 ≡ 2))
delete_record-get_record_example =
    delete_record-get_record (file two_of_three) 1 0 two_of_three by_four first-IsRecordAt

update_record-get_record_example :
    (g : RmFileHandle) × (update_record (file two_of_three) (at 1 0) (12 ∷ []) by_four ≡ some g)
    × ((q j : ℕ)
        → get_record g (at q j) ≡ (
            if (1 == q) && (0 == j)
            then some (12 ∷ [])
            else get_record (file two_of_three) (at q j)))
update_record-get_record_example =
    update_record-get_record (file two_of_three) 1 0 two_of_three (12 ∷ []) by_four first-IsRecordAt

insert_record-visit_example :
    (g : RmFileHandle) × (p : ℕ) × (slot : ℕ) × (insert_record (file two_of_three) (12 ∷ []) by_four
      ≡ some (g, at p slot))
    × ((id : ℤ) → visit g p slot id ≡ ((4 == 0) || (pos 4 ==ℤ id)))
    × ((type : ℕ) (id : ℤ) → visit (commit_mvcc g type p slot (pos 4)) p slot id ≡ true)
    × ((q j : ℕ) (id : ℤ)
        → j < 3
        → (p == q) && (slot == j) ≡ false
        → visit g q j id ≡ visit (file two_of_three) q j id)
insert_record-visit_example =
    insert_record-visit (file two_of_three) (12 ∷ []) by_four 4 file-HasRoom refl

file_pages : (q : ℕ) → 1 ≤ q → q < 2 → (page : RmPage) × ((file two_of_three).pages q ≡ some page)
file_pages q a b = (two_of_three, ground arith)

next-IsFirst_example :
    (rid : Rid) × (next (file two_of_three) (record { page_no = pos 1; slot_no = pos 0 })
      ≡ some rid)
    × IsFirst (file two_of_three) 1 (after (pos 0)) rid
next-IsFirst_example =
    next-IsFirst (file two_of_three) 1 (pos 0) (omega arith) (omega arith) file_pages

create_file-IsLaidOut_example :
    IsLaidOut (record { record_size = 100; num_records_per_page = 40; bitmap_size = 5 })
create_file-IsLaidOut_example =
    create_file-IsLaidOut 100
      (record { record_size = 100; num_records_per_page = 40; bitmap_size = 5 })
      (unfold create_file in refl)

btree_order_of-fits_example :
    (ix_page_hdr_size + (338 + 1) * 4 + (338 + 1) * rid_size ≤ page_size) × (2 < 338)
btree_order_of-fits_example = btree_order_of-fits 4 338 (unfold btree_order_of in refl)
