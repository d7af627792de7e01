-- ===== src/Index/Header/RoundTrip.antt =====
-- src/index/ix_defs.h: a header that is written and read back.
use rmdb.Prelude.{
  ℕ, ◌+◌, ◌*◌, ◌%◌, ◌≡◌, refl, sym, ap, subst, ◌∙◌, some, List, [], ◌++◌, length, ◌>>=◌, ◌<◌,
}
use rmdb.Prelude.Int.{pos}
use rmdb.Prelude.Bytes.{to_word, to_int}
use rmdb.Index.Header.{IxFileHdr, update_tot_len, serialize, deserialize}
use rmdb.Index.Header.Writing.{IsStored, serialize_lem}
use rmdb.Index.Header.Reading.{deserialize_lem}
use native.Mathlib.Omega.{arith}

tot_len_lem :
    (h : IxFileHdr)
    → IsStored h
    → update_tot_len h ≡ record h { tot_len = pos (40 + 8 * length h.col_types) }
unfolding update_tot_len
tot_len_lem h s =
    let plain : (n : ℕ)
        → n < 1000000
        → to_int ((40 + 8 * (n % 4294967296)) % 4294967296) ≡ pos (40 + 8 * n) =
      λ n few. ground arith in
    ap (λ t. record h { tot_len = t })
      (ap (λ c. to_int ((40 + 8 * to_word c) % 4294967296)) s.numbered
        ∙ plain (length h.col_types) s.few)

-- A header whose members are numbers of 32 bits and whose columns are as many as it says is written into any
-- buffer with room for it, once `update_tot_len` has counted its length, and a new object that reads the
-- buffer gets the same header; bytes behind it do not matter.
pub deserialize-serialize :
    (blank h : IxFileHdr) (dest rest : List ℕ)
    → blank.col_types ≡ []
    → blank.col_lens ≡ []
    → IsStored h
    → length dest ≡ 40 + 8 * length h.col_types
    → (serialize (update_tot_len h) (dest ++ rest) >>= deserialize blank) ≡ some (update_tot_len h)
deserialize-serialize blank h dest rest no_types no_lens s e =
    let n : ℕ = length h.col_types in
    let g : IxFileHdr = record h { tot_len = pos (40 + 8 * n) } in
    let stored : IsStored g = record {
      numbered = s.numbered;
      lens = s.lens;
      few = s.few;
      in_range = s.in_range;
      lens_in_range = s.lens_in_range;
    } in
    subst (λ u. (serialize u (dest ++ rest) >>= deserialize blank) ≡ some u) (sym (tot_len_lem h s))
      (ap (λ m. m >>= deserialize blank) (serialize_lem g dest rest stored refl e)
        ∙ deserialize_lem blank g rest no_types no_lens stored refl)
