-- ===== src/Index/Header/Writing.antt =====
-- src/index/ix_defs.h: the bytes that serialize writes.
use rmdb.Prelude.{
  ℕ, ◌+◌, ◌*◌, ◌≡◌, refl, sym, ap, ◌∙◌, Option, some, List, [], ◌∷◌, ◌++◌, length, length-append,
  length-map, map, ◌>>=◌, ◌<◌, fun_ext,
}
use rmdb.Prelude.Int.{ℤ, pos, pos_part, ==ℤ_iff}
use rmdb.Prelude.Bytes.{
  Cursor, cursor, buffer_of, offset_of, IsInt32, AllInt32, encode, write_int, write_ints,
}
use rmdb.Index.Header.{
  ColType, type_int, type_float, type_string, IxFileHdr, code_of, col_type_of, write_col_types,
  write_col_lens, serialize, assert_offset,
}
use rmdb.Prelude.Bytes.Ints.{write_ints_lem, write_ints-join, length-encode}
use native.Mathlib.Omega.{arith}

pub code-back : (t : ColType) → col_type_of (code_of t) ≡ some t
unfolding code_of col_type_of
code-back type_int = refl
code-back type_float = refl
code-back type_string = refl

pub code_of-IsInt32 : (t : ColType) → IsInt32 (code_of t)
unfolding code_of
code_of-IsInt32 type_int = omega arith
code_of-IsInt32 type_float = omega arith
code_of-IsInt32 type_string = omega arith

write_col_types_lem :
    (ts : List ColType) (c : Cursor)
    → write_col_types (length ts) ts c ≡ write_ints (map code_of ts) c
unfolding write_col_types
write_col_types_lem [] c = refl
write_col_types_lem (t ∷ ts) c =
    ap (λ f. write_int (code_of t) c >>= f) (fun_ext (λ d. write_col_types_lem ts d))

write_col_lens_lem : (vs : List ℤ) (c : Cursor) → write_col_lens (length vs) vs c ≡ write_ints vs c
unfolding write_col_lens
write_col_lens_lem [] c = refl
write_col_lens_lem (v ∷ vs) c =
    ap (λ f. write_int v c >>= f) (fun_ext (λ d. write_col_lens_lem vs d))

-- The numbers of a header, in the order of their writing.
unfoldable pub numbers : IxFileHdr → List ℤ
numbers h =
    (h.tot_len ∷ h.first_free_page_no ∷ h.num_pages ∷ h.root_page ∷ h.col_num ∷ [])
    ++ (map code_of h.col_types
        ++ (h.col_lens
            ++ (h.col_tot_len ∷ h.btree_order ∷ h.keys_size ∷ h.first_leaf ∷ h.last_leaf ∷ [])))

-- What `update_tot_len` makes of a header with few columns.
pub record IsStored (h : IxFileHdr) : Type 0 where
  pub numbered : h.col_num ≡ pos (length h.col_types)
  pub lens : length h.col_lens ≡ length h.col_types
  pub few : length h.col_types < 1000000
  pub in_range : AllInt32 (
      h.first_free_page_no ∷ h.num_pages ∷ h.root_page ∷ h.col_tot_len ∷ h.btree_order ∷ h.keys_size
      ∷ h.first_leaf ∷ h.last_leaf ∷ [])
  pub lens_in_range : AllInt32 h.col_lens

length-numbers : (h : IxFileHdr) → IsStored h → 4 * length (numbers h) ≡ 40 + 8 * length h.col_types
unfolding numbers
length-numbers h s =
    let back : List ℤ =
      h.col_tot_len ∷ h.btree_order ∷ h.keys_size ∷ h.first_leaf ∷ h.last_leaf ∷ [] in
    let codes = length-append (map code_of h.col_types) (h.col_lens ++ back) in
    let lens = length-append h.col_lens back in
    omega (arith, codes, lens, length-map h.col_types code_of, s.lens)

serialize-numbers :
    (h : IxFileHdr) (dest : List ℕ)
    → pos_part h.col_num ≡ length h.col_types
    → length h.col_lens ≡ length h.col_types
    → serialize h dest
      ≡ (write_ints (numbers h) (cursor [] dest) >>= λ d. assert_offset d h.tot_len (buffer_of d))
unfolding serialize numbers
serialize-numbers h dest e lens =
    let k : Cursor → Option (List ℕ) = λ d. assert_offset d h.tot_len (buffer_of d) in
    let back : List ℤ =
      h.col_tot_len ∷ h.btree_order ∷ h.keys_size ∷ h.first_leaf ∷ h.last_leaf ∷ [] in
    let types : (a : Cursor)
        → write_col_types (pos_part h.col_num) h.col_types a
          ≡ write_ints (map code_of h.col_types) a =
      λ a. ap (λ n. write_col_types n h.col_types a) e ∙ write_col_types_lem h.col_types a in
    let lengths : (b : Cursor)
        → write_col_lens (pos_part h.col_num) h.col_lens b ≡ write_ints h.col_lens b =
      λ b.
        ap (λ n. write_col_lens n h.col_lens b) (e ∙ sym lens) ∙ write_col_lens_lem h.col_lens b in
    write_ints-join (h.tot_len ∷ h.first_free_page_no ∷ h.num_pages ∷ h.root_page ∷ h.col_num ∷ [])
      (map code_of h.col_types ++ (h.col_lens ++ back)) k _
      (λ a.
        ap
          (λ m. m >>= λ b.
            write_col_lens (pos_part h.col_num) h.col_lens b >>= λ c. write_ints back c >>= k)
          (types a)
        ∙ write_ints-join (map code_of h.col_types) (h.col_lens ++ back) k _
            (λ b.
              ap (λ m. m >>= λ c. write_ints back c >>= k) (lengths b)
              ∙ write_ints-join h.col_lens back k _ (λ c. refl) b)
            a)
      (cursor [] dest)

pub assert_offset_lem {ℓ} :
    {A : Type ℓ} (c : Cursor) (tot_len : ℤ) (a : A)
    → pos (offset_of c) ≡ tot_len
    → assert_offset c tot_len a ≡ some a
unfolding assert_offset
assert_offset_lem c tot_len a e = rw ((==ℤ_iff (pos (offset_of c)) tot_len).1 e) refl

pub serialize_lem :
    (h : IxFileHdr) (gone rest : List ℕ)
    → IsStored h
    → h.tot_len ≡ pos (40 + 8 * length h.col_types)
    → length gone ≡ 40 + 8 * length h.col_types
    → serialize h (gone ++ rest) ≡ some (encode (numbers h) ++ rest)
serialize_lem h gone rest s t e =
    let size : 4 * length (numbers h) ≡ 40 + 8 * length h.col_types = length-numbers h s in
    serialize-numbers h (gone ++ rest) (ap pos_part s.numbered) s.lens
    ∙ ap (λ m. m >>= λ d. assert_offset d h.tot_len (buffer_of d))
        (write_ints_lem (numbers h) gone [] rest (e ∙ sym size))
    ∙ assert_offset_lem (cursor (encode (numbers h)) rest) h.tot_len _
        (ap pos (length-encode (numbers h) ∙ size) ∙ sym t)
