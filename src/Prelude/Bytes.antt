-- ===== src/Prelude/Bytes.antt =====
-- Numbers in memory: a 32-bit integer is four bytes, the lowest first, and its sign is in the two's
-- complement. A pointer that goes through a buffer is the bytes before it and those from it on.
pub mod Ints
pub mod Codecs
use rmdb.Prelude.{
  ℕ, zero, suc, ◌+◌, ◌-◌, ◌*◌, ◌/◌, ◌%◌, ◌<◌, ◌≤◌, ◌≡◌, refl, sym, ap, ap₂, ◌∙◌, Option, none, some,
  List, [], ◌∷◌, ◌++◌, length, ltb, if◌then◌else◌, ◌>>=◌,
}
use rmdb.Prelude.Int.{ℤ, pos, negsuc}
use native.Mathlib.Omega.{arith}

-- The integer modulo 2 ^ 32.
abbrev pub to_word : ℤ → ℕ
to_word (pos n) = n % 4294967296
to_word (negsuc n) = 4294967295 - n % 4294967296

abbrev pub to_int : ℕ → ℤ
to_int w = if ltb w 2147483648 then pos w else negsuc (4294967295 - w)

-- `INT_MIN ≤ v ≤ INT_MAX`.
abbrev pub IsInt32 : ℤ → Type 0
IsInt32 (pos n) = n < 2147483648
IsInt32 (negsuc n) = n < 2147483648

pub to_int-to_word : (v : ℤ) → IsInt32 v → to_int (to_word v) ≡ v
to_int-to_word (pos n) h = ground arith
to_int-to_word (negsuc n) h = ground arith

abbrev pub bytes_of : ℕ → ℕ → List ℕ
bytes_of zero w = []
bytes_of (suc k) w = w % 256 ∷ bytes_of k (w / 256)

abbrev pub capacity : ℕ → ℕ
capacity zero = 1
capacity (suc k) = 256 * capacity k

-- What stands before the pointer, and what from it on.
pub data Cursor : Type 0 where
  cursor : List ℕ → List ℕ → Cursor

abbrev pub offset_of : Cursor → ℕ
offset_of (cursor before behind) = length before

abbrev pub buffer_of : Cursor → List ℕ
buffer_of (cursor before behind) = before ++ behind

-- `none` is an access past the end of the buffer.
unfoldable pub write_bytes : List ℕ → Cursor → Option Cursor
write_bytes [] c = some c
write_bytes (b ∷ bs) (cursor before []) = none
write_bytes (b ∷ bs) (cursor before (x ∷ xs)) = write_bytes bs (cursor (before ++ (b ∷ [])) xs)

unfoldable pub read_bytes : ℕ → Cursor → Option (ℕ × Cursor)
read_bytes zero c = some (0, c)
read_bytes (suc k) (cursor before []) = none
read_bytes (suc k) (cursor before (b ∷ bs)) = do
  (w, c) ← read_bytes k (cursor (before ++ (b ∷ [])) bs)
  some (b + 256 * w, c)

-- What is written and what is read next go together.
pub append-snoc : (xs : List ℕ) (b : ℕ) (ys : List ℕ) → (xs ++ (b ∷ [])) ++ ys ≡ xs ++ (b ∷ ys)
append-snoc [] b ys = refl
append-snoc (x ∷ xs) b ys = ap (λ zs. x ∷ zs) (append-snoc xs b ys)

pub append_assoc : (xs ys zs : List ℕ) → (xs ++ ys) ++ zs ≡ xs ++ (ys ++ zs)
append_assoc [] ys zs = refl
append_assoc (x ∷ xs) ys zs = ap (λ ws. x ∷ ws) (append_assoc xs ys zs)

pub append_nil : (xs : List ℕ) → xs ++ [] ≡ xs
append_nil [] = refl
append_nil (x ∷ xs) = ap (λ zs. x ∷ zs) (append_nil xs)

pub write_bytes_lem :
    (bs gone pre rest : List ℕ)
    → length gone ≡ length bs
    → write_bytes bs (cursor pre (gone ++ rest)) ≡ some (cursor (pre ++ bs) rest)
unfolding write_bytes
write_bytes_lem [] [] pre rest e = ap (λ p. some (cursor p rest)) (sym (append_nil pre))
write_bytes_lem [] (x ∷ gone) pre rest e = absurd (omega (arith, e))
write_bytes_lem (b ∷ bs) [] pre rest e = absurd (omega (arith, e))
write_bytes_lem (b ∷ bs) (x ∷ gone) pre rest e =
    write_bytes_lem bs gone (pre ++ (b ∷ [])) rest (omega (arith, e))
    ∙ ap (λ p. some (cursor p rest)) (append-snoc pre b bs)

pub read_bytes_lem :
    (k w : ℕ) (pre rest : List ℕ)
    → w < capacity k
    → read_bytes k (cursor pre (bytes_of k w ++ rest)) ≡ some (w, cursor (pre ++ bytes_of k w) rest)
unfolding read_bytes
read_bytes_lem zero w pre rest h =
    ap₂ (λ v p. some (v, cursor p rest)) (omega (arith, h)) (sym (append_nil pre))
read_bytes_lem (suc k) w pre rest h =
    ap (λ r. r >>= λ (v, c). some (w % 256 + 256 * v, c))
      (read_bytes_lem k (w / 256) (pre ++ (w % 256 ∷ [])) rest (omega (arith, h)))
    ∙ ap₂ (λ v p. some (v, cursor p rest)) (omega arith)
        (append-snoc pre (w % 256) (bytes_of k (w / 256)))

unfoldable pub write_int : ℤ → Cursor → Option Cursor
write_int v c = write_bytes (bytes_of 4 (to_word v)) c

unfoldable pub read_int : Cursor → Option (ℤ × Cursor)
read_int c = do (w, rest) ← read_bytes 4 c; some (to_int w, rest)

abbrev pub write_ints : List ℤ → Cursor → Option Cursor
write_ints [] c = some c
write_ints (v ∷ vs) c = write_int v c >>= λ d. write_ints vs d

abbrev pub encode : List ℤ → List ℕ
encode [] = []
encode (v ∷ vs) = bytes_of 4 (to_word v) ++ encode vs

abbrev pub AllInt32 : List ℤ → Type 0
AllInt32 [] = Unit {0}
AllInt32 (v ∷ vs) = IsInt32 v × AllInt32 vs

abbrev pub read_ints : ℕ → Cursor → Option (List ℤ × Cursor)
read_ints zero c = some ([], c)
read_ints (suc n) c = do (v, d) ← read_int c; (vs, e) ← read_ints n d; some (v ∷ vs, e)

to_word-bound : (v : ℤ) → to_word v < 4294967296
to_word-bound (pos n) = omega arith
to_word-bound (negsuc n) = omega arith

pub write_int_lem :
    (v : ℤ) (gone pre rest : List ℕ)
    → length gone ≡ 4
    → write_int v (cursor pre (gone ++ rest)) ≡ some (cursor (pre ++ bytes_of 4 (to_word v)) rest)
unfolding write_int
write_int_lem v gone pre rest e = write_bytes_lem (bytes_of 4 (to_word v)) gone pre rest e

pub read_int_lem :
    (v : ℤ) (pre rest : List ℕ)
    → IsInt32 v
    → read_int (cursor pre (bytes_of 4 (to_word v) ++ rest))
      ≡ some (v, cursor (pre ++ bytes_of 4 (to_word v)) rest)
unfolding read_int
read_int_lem v pre rest h =
    ap (λ r. r >>= λ (w, c). some (to_int w, c))
      (read_bytes_lem 4 (to_word v) pre rest (to_word-bound v))
    ∙ ap (λ u. some (u, cursor (pre ++ bytes_of 4 (to_word v)) rest)) (to_int-to_word v h)
