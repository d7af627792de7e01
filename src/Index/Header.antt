-- ===== src/Index/Header.antt =====
-- src/index/ix_defs.h: the header of an index file, and its bytes in the file's first page.
pub mod Writing
pub mod Reading
pub mod RoundTrip
use rmdb.Prelude.{
  ℕ, zero, suc, ◌+◌, ◌*◌, ◌%◌, Option, none, some, List, [], ◌∷◌, ◌++◌, length, ◌==◌, if◌then◌else◌,
  ◌>>=◌,
}
use rmdb.Prelude.Int.{ℤ, pos, negsuc, pos_part, ◌==ℤ◌}
use rmdb.Prelude.Bytes.{
  Cursor, cursor, offset_of, buffer_of, to_word, to_int, write_int, write_ints, read_int, read_ints,
}

pub data ColType : Type 0 where
  type_int : ColType
  type_float : ColType
  type_string : ColType

pub record IxFileHdr : Type 0 where
  pub first_free_page_no : ℤ
  pub num_pages : ℤ
  pub root_page : ℤ
  pub col_num : ℤ
  pub col_types : List ColType
  pub col_lens : List ℤ
  pub col_tot_len : ℤ
  pub btree_order : ℤ
  pub keys_size : ℤ
  pub first_leaf : ℤ
  pub last_leaf : ℤ
  pub tot_len : ℤ

-- The number that stands for an enumerator, and back.
unfoldable pub code_of : ColType → ℤ
code_of type_int = pos 0
code_of type_float = pos 1
code_of type_string = pos 2

unfoldable pub col_type_of : ℤ → Option ColType
col_type_of v =
    if v ==ℤ pos 0
    then some type_int
    else (if v ==ℤ pos 1 then some type_float else (if v ==ℤ pos 2 then some type_string else none))

-- The sum is one of `size_t`, and the result is put into an `int`: both count modulo 2 ^ 32 here.
unfoldable pub update_tot_len : IxFileHdr → IxFileHdr
update_tot_len h = record h {
  tot_len = to_int ((4 * 4 + 4 * 6 + (4 + 4) * to_word h.col_num) % 4294967296);
}

-- The loops over the columns; `none` is an index past the end of the vector.
unfoldable pub write_col_types : ℕ → List ColType → Cursor → Option Cursor
write_col_types zero types c = some c
write_col_types (suc n) [] c = none
write_col_types (suc n) (t ∷ types) c = write_int (code_of t) c >>= λ d. write_col_types n types d

unfoldable pub write_col_lens : ℕ → List ℤ → Cursor → Option Cursor
write_col_lens zero lens c = some c
write_col_lens (suc n) [] c = none
write_col_lens (suc n) (len ∷ lens) c = write_int len c >>= λ d. write_col_lens n lens d

-- `assert(offset == tot_len_)`
unfoldable pub assert_offset {ℓ} : {A : Type ℓ} → Cursor → ℤ → A → Option A
assert_offset c tot_len a = if pos (offset_of c) ==ℤ tot_len then some a else none

-- One `memcpy` for each number, in this order. `none` is a write past the end of `dest`, a missing
-- column, or the assertion.
unfoldable pub serialize : IxFileHdr → List ℕ → Option (List ℕ)
serialize h dest = do
  a ←
      write_ints (h.tot_len ∷ h.first_free_page_no ∷ h.num_pages ∷ h.root_page ∷ h.col_num ∷ [])
        (cursor [] dest)
  b ← write_col_types (pos_part h.col_num) h.col_types a
  c ← write_col_lens (pos_part h.col_num) h.col_lens b
  d ← write_ints (h.col_tot_len ∷ h.btree_order ∷ h.keys_size ∷ h.first_leaf ∷ h.last_leaf ∷ []) c
  assert_offset d h.tot_len (buffer_of d)

unfoldable pub read_col_types : ℕ → Cursor → Option (List ColType × Cursor)
read_col_types zero c = some ([], c)
read_col_types (suc n) c = do
  (v, d) ← read_int c
  t ← col_type_of v
  (types, e) ← read_col_types n d
  some (t ∷ types, e)

-- The columns are pushed behind those that the object has. `none` is a read past the end of `src`, a
-- number that stands for no type, or the assertion.
unfoldable pub deserialize : IxFileHdr → List ℕ → Option IxFileHdr
deserialize h src = do
  (tot_len, c) ← read_int (cursor [] src)
  (first_free_page_no, c) ← read_int c
  (num_pages, c) ← read_int c
  (root_page, c) ← read_int c
  (col_num, c) ← read_int c
  (col_types, c) ← read_col_types (pos_part col_num) c
  (col_lens, c) ← read_ints (pos_part col_num) c
  (col_tot_len, c) ← read_int c
  (btree_order, c) ← read_int c
  (keys_size, c) ← read_int c
  (first_leaf, c) ← read_int c
  (last_leaf, c) ← read_int c
  assert_offset c tot_len (record {
    first_free_page_no = first_free_page_no;
    num_pages = num_pages;
    root_page = root_page;
    col_num = col_num;
    col_types = h.col_types ++ col_types;
    col_lens = h.col_lens ++ col_lens;
    col_tot_len = col_tot_len;
    btree_order = btree_order;
    keys_size = keys_size;
    first_leaf = first_leaf;
    last_leaf = last_leaf;
    tot_len = tot_len;
  })
