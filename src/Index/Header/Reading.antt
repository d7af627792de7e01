-- ===== src/Index/Header/Reading.antt =====
-- src/index/ix_defs.h: what deserialize makes of those bytes.
use rmdb.Prelude.{
  ℕ, ◌+◌, ◌*◌, ◌≡◌, refl, sym, ap, ap₂, subst, ◌∙◌, Option, some, List, [], ◌∷◌, ◌++◌, length,
  length-append, length-map, map, ◌>>=◌,
}
use rmdb.Prelude.Int.{ℤ, pos, pos_part}
use rmdb.Prelude.Bytes.{
  Cursor, cursor, bytes_of, append_nil, append_assoc, to_word, IsInt32, encode,
}
use rmdb.Index.Header.{ColType, IxFileHdr, code_of, read_col_types, deserialize}
use rmdb.Prelude.Bytes.Ints.{
  length-encode, encode-append, read_int-bind, read_ints-bind, length-write_five,
}
use rmdb.Index.Header.Writing.{numbers, IsStored, code-back, code_of-IsInt32, assert_offset_lem}
use native.Mathlib.Omega.{arith}

read_col_types_lem :
    (ts : List ColType) (pre rest : List ℕ)
    → read_col_types (length ts) (cursor pre (encode (map code_of ts) ++ rest))
      ≡ some (ts, cursor (pre ++ encode (map code_of ts)) rest)
unfolding read_col_types
read_col_types_lem [] pre rest = ap (λ p. some ([], cursor p rest)) (sym (append_nil pre))
read_col_types_lem (t ∷ ts) pre rest =
    let v : ℤ = code_of t in
    let before : List ℕ = pre ++ bytes_of 4 (to_word v) in
    let more : Cursor = cursor before (encode (map code_of ts) ++ rest) in
    read_int-bind v pre (encode (map code_of ts) ++ rest) _ (code_of-IsInt32 t)
    ∙ ap (λ m. m >>= λ u. read_col_types (length ts) more >>= λ (us, e). some (u ∷ us, e))
        (code-back t)
    ∙ ap (λ m. m >>= λ (us, e). some (t ∷ us, e)) (read_col_types_lem ts before rest)
    ∙ ap (λ p. some (t ∷ ts, cursor p rest))
        (append_assoc pre (bytes_of 4 (to_word v)) (encode (map code_of ts)))

read_col_types-bind {ℓ} :
    {B : Type ℓ} (n : ℕ) (ts : List ColType) (pre rest : List ℕ)
    (k : List ColType × Cursor → Option B)
    → n ≡ length ts
    → (read_col_types n (cursor pre (encode (map code_of ts) ++ rest)) >>= k)
      ≡ k (ts, cursor (pre ++ encode (map code_of ts)) rest)
read_col_types-bind n ts pre rest k e =
    ap (λ m. read_col_types m (cursor pre (encode (map code_of ts) ++ rest)) >>= k) e
    ∙ ap (λ m. m >>= k) (read_col_types_lem ts pre rest)

-- The place behind the lengths of the columns, and five numbers farther.
offset_of_columns :
    (front : List ℕ) (h : IxFileHdr)
    → IsStored h
    → length front ≡ 20
    → 20 + length ((front ++ encode (map code_of h.col_types)) ++ encode h.col_lens)
      ≡ 40 + 8 * length h.col_types
offset_of_columns front h s e =
    let codes : List ℕ = encode (map code_of h.col_types) in
    let a = length-append (front ++ codes) (encode h.col_lens) in
    let b = length-append front codes in
    omega (
      arith,
      a,
      b,
      e,
      length-encode (map code_of h.col_types),
      length-encode h.col_lens,
      length-map h.col_types code_of,
      s.lens,
    )

pub deserialize_lem :
    (blank h : IxFileHdr) (rest : List ℕ)
    → blank.col_types ≡ []
    → blank.col_lens ≡ []
    → IsStored h
    → h.tot_len ≡ pos (40 + 8 * length h.col_types)
    → deserialize blank (encode (numbers h) ++ rest) ≡ some h
unfolding deserialize numbers
deserialize_lem blank h rest no_types no_lens s t =
    let codes : List ℤ = map code_of h.col_types in
    let back : List ℤ =
      h.col_tot_len ∷ h.btree_order ∷ h.keys_size ∷ h.first_leaf ∷ h.last_leaf ∷ [] in
    let front : List ℤ =
      h.tot_len ∷ h.first_free_page_no ∷ h.num_pages ∷ h.root_page ∷ h.col_num ∷ [] in
    let tail : List ℕ = encode codes ++ (encode h.col_lens ++ (encode back ++ rest)) in
    let split : encode (codes ++ (h.col_lens ++ back)) ++ rest ≡ tail =
      encode-append codes (h.col_lens ++ back) rest
      ∙ ap (λ xs. encode codes ++ xs) (encode-append h.col_lens back rest) in
    let columns : pos_part h.col_num ≡ length h.col_types = ap pos_part s.numbered in
    let r = s.in_range.1.1.1 in
    ap (λ xs. deserialize blank (encode front ++ xs)) split
    ∙ read_int-bind h.tot_len [] _ _ (subst IsInt32 (sym t) (omega (arith, s.few)))
    ∙ read_int-bind h.first_free_page_no _ _ _ s.in_range.0
    ∙ read_int-bind h.num_pages _ _ _ s.in_range.1.0
    ∙ read_int-bind h.root_page _ _ _ s.in_range.1.1.0
    ∙ read_int-bind h.col_num _ _ _ (subst IsInt32 (sym s.numbered) (omega (arith, s.few)))
    ∙ read_col_types-bind (pos_part h.col_num) h.col_types (encode front) _ _ columns
    ∙ read_ints-bind (pos_part h.col_num) h.col_lens (encode front ++ encode codes) _ _
        s.lens_in_range (columns ∙ sym s.lens)
    ∙ read_int-bind h.col_tot_len _ _ _ r.0
    ∙ read_int-bind h.btree_order _ _ _ r.1.0
    ∙ read_int-bind h.keys_size _ _ _ r.1.1.0
    ∙ read_int-bind h.first_leaf _ _ _ r.1.1.1.0
    ∙ read_int-bind h.last_leaf _ _ _ r.1.1.1.1.0
    ∙ assert_offset_lem _ h.tot_len _ (
        ap pos (
          length-write_five ((encode front ++ encode codes) ++ encode h.col_lens) h.col_tot_len
            h.btree_order h.keys_size h.first_leaf h.last_leaf
          ∙ offset_of_columns (encode front) h s refl)
        ∙ sym t)
    ∙ ap₂ (λ types lens. some (record h { col_types = types; col_lens = lens }))
        (ap (λ xs. xs ++ h.col_types) no_types) (ap (λ xs. xs ++ h.col_lens) no_lens)
