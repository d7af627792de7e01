-- ===== src/Prelude/Bytes/Ints.antt =====
-- Sequences of integers in memory: what is written and read in a row.
use rmdb.Prelude.{
  ℕ, ◌+◌, ◌*◌, ◌≡◌, refl, sym, ap, ◌∙◌, Option, some, List, [], ◌∷◌, ◌++◌, length, length-append,
  ◌>>=◌, bind_assoc, fun_ext,
}
use rmdb.Prelude.Int.{ℤ}
use rmdb.Prelude.Bytes.{
  Cursor, cursor, bytes_of, append_nil, append_assoc, to_word, IsInt32, AllInt32, encode, write_int,
  write_ints, read_int, read_ints, write_int_lem, read_int_lem,
}
use native.Mathlib.Omega.{arith}

pub write_ints_lem :
    (vs : List ℤ) (gone pre rest : List ℕ)
    → length gone ≡ 4 * length vs
    → write_ints vs (cursor pre (gone ++ rest)) ≡ some (cursor (pre ++ encode vs) rest)
unfolding write_int
write_ints_lem [] [] pre rest e = ap (λ p. some (cursor p rest)) (sym (append_nil pre))
write_ints_lem [] (x ∷ gone) pre rest e = absurd (omega (arith, e))
write_ints_lem (v ∷ vs) [] pre rest e = absurd (omega (arith, e))
write_ints_lem (v ∷ vs) (a ∷ []) pre rest e = absurd (omega (arith, e))
write_ints_lem (v ∷ vs) (a ∷ b ∷ []) pre rest e = absurd (omega (arith, e))
write_ints_lem (v ∷ vs) (a ∷ b ∷ c ∷ []) pre rest e = absurd (omega (arith, e))
write_ints_lem (v ∷ vs) (a ∷ b ∷ c ∷ d ∷ gone) pre rest e =
    ap (λ m. m >>= λ k. write_ints vs k)
      (write_int_lem v (a ∷ b ∷ c ∷ d ∷ []) pre (gone ++ rest) refl)
    ∙ write_ints_lem vs gone (pre ++ bytes_of 4 (to_word v)) rest (omega (arith, e))
    ∙ ap (λ p. some (cursor p rest)) (append_assoc pre (bytes_of 4 (to_word v)) (encode vs))

write_ints-append :
    (vs ws : List ℤ) (c : Cursor)
    → (write_ints vs c >>= λ d. write_ints ws d) ≡ write_ints (vs ++ ws) c
write_ints-append [] ws c = refl
write_ints-append (v ∷ vs) ws c =
    bind_assoc (write_int v c) (λ d. write_ints vs d) (λ d. write_ints ws d)
    ∙ ap (λ f. write_int v c >>= f) (fun_ext (λ d. write_ints-append vs ws d))

pub write_ints-join {ℓ} :
    {B : Type ℓ} (vs ws : List ℤ) (k f : Cursor → Option B)
    → ((d : Cursor) → f d ≡ (write_ints ws d >>= k))
    → (c : Cursor) → (write_ints vs c >>= f) ≡ (write_ints (vs ++ ws) c >>= k)
write_ints-join vs ws k f h c =
    ap (λ g. write_ints vs c >>= g) (fun_ext h)
    ∙ sym (bind_assoc (write_ints vs c) (λ d. write_ints ws d) k)
    ∙ ap (λ m. m >>= k) (write_ints-append vs ws c)

pub length-encode : (vs : List ℤ) → length (encode vs) ≡ 4 * length vs
length-encode [] = refl
length-encode (v ∷ vs) = omega (arith, length-encode vs)

pub encode-append :
    (vs ws : List ℤ) (rest : List ℕ) → encode (vs ++ ws) ++ rest ≡ encode vs ++ (encode ws ++ rest)
encode-append [] ws rest = refl
encode-append (v ∷ vs) ws rest = ap (λ xs. bytes_of 4 (to_word v) ++ xs) (encode-append vs ws rest)

pub read_int-bind {ℓ} :
    {B : Type ℓ} (v : ℤ) (pre rest : List ℕ) (k : ℤ × Cursor → Option B)
    → IsInt32 v
    → (read_int (cursor pre (bytes_of 4 (to_word v) ++ rest)) >>= k)
      ≡ k (v, cursor (pre ++ bytes_of 4 (to_word v)) rest)
read_int-bind v pre rest k h = ap (λ m. m >>= k) (read_int_lem v pre rest h)

pub read_ints_lem :
    (vs : List ℤ) (pre rest : List ℕ)
    → AllInt32 vs
    → read_ints (length vs) (cursor pre (encode vs ++ rest))
      ≡ some (vs, cursor (pre ++ encode vs) rest)
read_ints_lem [] pre rest h = ap (λ p. some ([], cursor p rest)) (sym (append_nil pre))
read_ints_lem (v ∷ vs) pre rest h =
    let k : List ℤ × Cursor → Option (List ℤ × Cursor) = λ (ws, e). some (v ∷ ws, e) in
    read_int-bind v pre (encode vs ++ rest) _ h.0
    ∙ ap (λ m. m >>= k) (read_ints_lem vs (pre ++ bytes_of 4 (to_word v)) rest h.1)
    ∙ ap (λ p. some (v ∷ vs, cursor p rest)) (append_assoc pre (bytes_of 4 (to_word v)) (encode vs))

pub read_ints-bind {ℓ} :
    {B : Type ℓ} (n : ℕ) (vs : List ℤ) (pre rest : List ℕ) (k : List ℤ × Cursor → Option B)
    → AllInt32 vs
    → n ≡ length vs
    → (read_ints n (cursor pre (encode vs ++ rest)) >>= k) ≡ k (vs, cursor (pre ++ encode vs) rest)
read_ints-bind n vs pre rest k h e =
    ap (λ m. read_ints m (cursor pre (encode vs ++ rest)) >>= k) e
    ∙ ap (λ m. m >>= k) (read_ints_lem vs pre rest h)

length-write : (pre : List ℕ) (v : ℤ) → length (pre ++ bytes_of 4 (to_word v)) ≡ 4 + length pre
length-write pre v = omega (arith, length-append pre (bytes_of 4 (to_word v)))

pub length-write_five :
    (pre : List ℕ) (a b c d e : ℤ)
    → length (
        ((((pre ++ bytes_of 4 (to_word a)) ++ bytes_of 4 (to_word b)) ++ bytes_of 4 (to_word c))
          ++ bytes_of 4 (to_word d))
        ++ bytes_of 4 (to_word e))
      ≡ 20 + length pre
length-write_five pre a b c d e =
    let p1 = pre ++ bytes_of 4 (to_word a) in
    let p2 = p1 ++ bytes_of 4 (to_word b) in
    let p3 = p2 ++ bytes_of 4 (to_word c) in
    let p4 = p3 ++ bytes_of 4 (to_word d) in
    omega (
      arith,
      length-write pre a,
      length-write p1 b,
      length-write p2 c,
      length-write p3 d,
      length-write p4 e,
    )
