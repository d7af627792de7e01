-- ===== src/Record/Layout.antt =====
-- src/record/rm_manager.h, `create_file`: how many records a page has room for; src/index/ix_manager.h,
-- `create_index`: how many keys a node has room for. Sizes are those of the structs in bytes.
use rmdb.Prelude.{
  ℕ, ◌+◌, ◌-◌, ◌*◌, ◌/◌, ◌<◌, ◌≤◌, ◌≡◌, refl, sym, subst, Option, none, some, ◌||◌, ltb,
  if◌then◌else◌, arith,
}
use native.Mathlib.Nat.{div-mul-le_self, le-div_iff_mul-le, mul-add}
use rmdb.Record.Bitmap.{bitmap_width}

abbrev pub page_size : ℕ
page_size = 4096

-- `sizeof(RmFileHdr)`: six numbers and a flag, padded; `sizeof(RmPageHdr)`; `OFFSET_PAGE_HDR`.
abbrev pub file_hdr_size : ℕ
file_hdr_size = 28

abbrev pub page_hdr_size : ℕ
page_hdr_size = 8

abbrev pub offset_page_hdr : ℕ
offset_page_hdr = 4

abbrev pub max_record_size : ℕ
max_record_size = 512

-- `file_hdr` of a new file.
pub record Layout : Type 0 where
  pub record_size : ℕ
  pub num_records_per_page : ℕ
  pub bitmap_size : ℕ

-- `none` is the thrown `InvalidRecordSizeError`.
unfoldable pub create_file : ℕ → Option Layout
create_file record_size =
    if ltb record_size 1 || ltb max_record_size record_size
    then none
    else let n =
        (bitmap_width * (page_size - 1 - file_hdr_size) + 1) / (1 + record_size * bitmap_width) in
      some (record {
        record_size = record_size;
        num_records_per_page = n;
        bitmap_size = (n + bitmap_width - 1) / bitmap_width;
      })

expand : (n s : ℕ) → n * (1 + s * 8) ≡ n + 8 * (n * s)
expand n s = omega arith

-- What a number of records per page satisfies.
capacity-le : (n s total : ℕ) → n ≡ total / (1 + s * 8) → n + 8 * (n * s) ≤ total
capacity-le n s total e =
    let bound = div-mul-le_self total (1 + s * 8) in
    let product : n * (1 + s * 8) ≤ total = subst (λ x. x * (1 + s * 8) ≤ total) (sym e) bound in
    omega (arith, product, expand n s)

-- What it means that a page is laid out well.
pub record IsLaidOut (l : Layout) : Type 0 where
  pub fits :
      offset_page_hdr + page_hdr_size + l.bitmap_size + l.num_records_per_page * l.record_size
      ≤ page_size
  pub room : 7 ≤ l.num_records_per_page
  pub covered : l.num_records_per_page ≤ bitmap_width * l.bitmap_size
  pub tight : bitmap_width * l.bitmap_size < l.num_records_per_page + bitmap_width

-- A page of a new file has room for at least seven records, and its header, its bitmap and all slots lie in it;
-- the bitmap has a bit for each slot, and less than a byte more.
pub create_file-IsLaidOut :
    (record_size : ℕ) (l : Layout) → create_file record_size ≡ some l → IsLaidOut l
unfolding create_file
create_file-IsLaidOut record_size l e =
    let n : ℕ = 32537 / (1 + record_size * 8) in
    let small : record_size ≤ 512 = ground arith in
    let same : l ≡ record {
      record_size = record_size;
      num_records_per_page = n;
      bitmap_size = (n + 7) / 8;
    } =
      ground arith in
    let cap = capacity-le n record_size 32537 refl in
    let room : 7 ≤ n =
      (le-div_iff_mul-le {k = 1 + record_size * 8} {x = 7} {y = 32537} (omega arith)).1
        (omega arith) in
    subst IsLaidOut (sym same)
      (record { fits = omega arith; room = room; covered = omega arith; tight = omega arith })

-- `sizeof(IxPageHdr)`: five numbers and a flag, padded; `sizeof(Rid)`.
abbrev pub ix_page_hdr_size : ℕ
ix_page_hdr_size = 24

abbrev pub rid_size : ℕ
rid_size = 8

abbrev pub max_col_len : ℕ
max_col_len = 512

-- `btree_order` for a total length of the columns; `none` is the thrown `InvalidColLengthError`.
unfoldable pub btree_order_of : ℕ → Option ℕ
btree_order_of col_tot_len =
    if ltb max_col_len col_tot_len
    then none
    else some ((page_size - ix_page_hdr_size) / (col_tot_len + rid_size) - 1)

-- A node that is full, with one more entry than its order, lies in its page; and the order is more than two,
-- as the code asserts.
pub btree_order_of-fits :
    (col_tot_len order : ℕ)
    → btree_order_of col_tot_len ≡ some order
    → (ix_page_hdr_size + (order + 1) * col_tot_len + (order + 1) * rid_size ≤ page_size)
      × (2 < order)
unfolding btree_order_of
btree_order_of-fits col_tot_len order e =
    let n : ℕ = 4072 / (col_tot_len + 8) in
    let small : col_tot_len ≤ 512 = ground arith in
    let same : order ≡ n - 1 = ground arith in
    let product = div-mul-le_self 4072 (col_tot_len + 8) in
    let room : 7 ≤ n =
      (le-div_iff_mul-le {k = col_tot_len + 8} {x = 7} {y = 4072} (omega arith)).1 (omega arith) in
    let more : order + 1 ≡ n = omega (arith, same, room) in
    (
      subst (λ m. 24 + m * col_tot_len + m * 8 ≤ 4096) (sym more)
          (omega (arith, product, mul-add n col_tot_len 8)),
      omega arith,
    )
