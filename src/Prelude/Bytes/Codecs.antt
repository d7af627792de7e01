-- ===== src/Prelude/Bytes/Codecs.antt =====
-- A writer and a reader that agree on the bytes of a value.
use rmdb.Prelude.{
  ℕ, zero, suc, ◌+◌, ◌<◌, ◌≡◌, refl, sym, ap, ◌∙◌, Option, none, some, List, [], ◌∷◌, ◌++◌, length,
  length-append, ◌>>=◌,
}
use rmdb.Prelude.Int.{ℤ}
use rmdb.Prelude.Bytes.{
  Cursor, cursor, bytes_of, to_word, IsInt32, capacity, append_assoc, append_nil, append-snoc,
  write_bytes, read_bytes, write_int, read_int, write_bytes_lem, read_bytes_lem, read_int_lem,
}
use native.Mathlib.Omega.{arith}

-- The writer puts these bytes over as many others.
unfoldable pub Writes : (Cursor → Option Cursor) → List ℕ → Type 0
Writes w bs =
    (gone pre rest : List ℕ)
    → length gone ≡ length bs
    → w (cursor pre (gone ++ rest)) ≡ some (cursor (pre ++ bs) rest)

-- The reader takes these bytes for the value.
unfoldable pub Reads : {A : Type 0} → (Cursor → Option (A × Cursor)) → List ℕ → A → Type 0
Reads r bs a = (pre rest : List ℕ) → r (cursor pre (bs ++ rest)) ≡ some (a, cursor (pre ++ bs) rest)

-- As many bytes as there are.
unfoldable pub read_raw : ℕ → Cursor → Option (List ℕ × Cursor)
read_raw zero c = some ([], c)
read_raw (suc n) (cursor before []) = none
read_raw (suc n) (cursor before (b ∷ bs)) = do
  (xs, c) ← read_raw n (cursor (before ++ (b ∷ [])) bs)
  some (b ∷ xs, c)

pub Writes-bytes : (bs : List ℕ) → Writes (write_bytes bs) bs
unfolding Writes
Writes-bytes bs = write_bytes_lem bs

pub Writes-int : (v : ℤ) → Writes (write_int v) (bytes_of 4 (to_word v))
unfolding Writes write_int
Writes-int v = write_bytes_lem (bytes_of 4 (to_word v))

pub Writes-end : Writes some []
unfolding Writes
Writes-end [] pre rest e = ap (λ p. some (cursor p rest)) (sym (append_nil pre))
Writes-end (x ∷ gone) pre rest e = absurd (omega (arith, e))

split_at :
    (gone : List ℕ) (m n : ℕ)
    → length gone ≡ m + n
    → (xs ys : List ℕ) × (gone ≡ xs ++ ys) × (length xs ≡ m) × (length ys ≡ n)
split_at gone zero n e = ([], gone, refl, refl, omega (arith, e))
split_at [] (suc m) n e = absurd (omega (arith, e))
split_at (x ∷ gone) (suc m) n e =
    let (xs, ys, same, a, b) = split_at gone m n (omega (arith, e)) in
    (x ∷ xs, ys, ap (λ zs. x ∷ zs) same, ap suc a, b)

pub Writes-bind :
    (w v : Cursor → Option Cursor) (bs cs : List ℕ)
    → Writes w bs
    → Writes v cs
    → Writes (λ c. w c >>= v) (bs ++ cs)
unfolding Writes
Writes-bind w v bs cs f g gone pre rest e =
    let (xs, ys, same, a, b) = split_at gone (length bs) (length cs) (e ∙ length-append bs cs) in
    ap (λ zs. w (cursor pre zs) >>= v) (ap (λ zs. zs ++ rest) same ∙ append_assoc xs ys rest)
    ∙ ap (λ m. m >>= v) (f xs pre (ys ++ rest) a)
    ∙ g ys (pre ++ bs) rest b
    ∙ ap (λ p. some (cursor p rest)) (append_assoc pre bs cs)

pub Reads-bytes : (k w : ℕ) → w < capacity k → Reads (read_bytes k) (bytes_of k w) w
unfolding Reads
Reads-bytes k w h pre rest = read_bytes_lem k w pre rest h

pub Reads-int : (v : ℤ) → IsInt32 v → Reads read_int (bytes_of 4 (to_word v)) v
unfolding Reads
Reads-int v h pre rest = read_int_lem v pre rest h

pub Reads-raw : (bs : List ℕ) → Reads (read_raw (length bs)) bs bs
unfolding Reads read_raw
Reads-raw [] pre rest = ap (λ p. some ([], cursor p rest)) (sym (append_nil pre))
Reads-raw (b ∷ bs) pre rest =
    ap (λ m. m >>= λ (xs, c). some (b ∷ xs, c)) (Reads-raw bs (pre ++ (b ∷ [])) rest)
    ∙ ap (λ p. some (b ∷ bs, cursor p rest)) (append-snoc pre b bs)

pub Reads-end : {A : Type 0} (a : A) → Reads (λ c. some (a, c)) [] a
unfolding Reads
Reads-end a pre rest = ap (λ p. some (a, cursor p rest)) (sym (append_nil pre))

pub Reads-bind :
    {A B : Type 0} (r : Cursor → Option (A × Cursor)) (k : A × Cursor → Option (B × Cursor))
    (bs cs : List ℕ) (a : A) (b : B)
    → Reads r bs a
    → Reads (λ c. k (a, c)) cs b
    → Reads (λ c. r c >>= k) (bs ++ cs) b
unfolding Reads
Reads-bind r k bs cs a b f g pre rest =
    ap (λ xs. r (cursor pre xs) >>= k) (append_assoc bs cs rest)
    ∙ ap (λ m. m >>= k) (f pre (cs ++ rest))
    ∙ g (pre ++ bs) rest
    ∙ ap (λ p. some (b, cursor p rest)) (append_assoc pre bs cs)
