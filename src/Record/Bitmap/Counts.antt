-- ===== src/Record/Bitmap/Counts.antt =====
-- The number of set positions of a bitmap, and that `set` and `reset` keep its bytes bytes.
use Prim.Native.Nat.{bit_and, bit_or}
use rmdb.Prelude.{
  not, Bool, ap, ℕ, zero, suc, ◌+◌, ◌-◌, ◌*◌, ◌/◌, ◌%◌, ◌^◌, ◌<◌, ◌≤◌, ◌≡◌, refl, ◌∙◌, true, false,
  List, [], ◌∷◌, ◌==◌, ltb, ltb→lt, length, length-set, length-replicate, replicate, get_or,
  if◌then◌else◌, arith, ==_iff, Bool-cases, inl, inr,
}
use rmdb.Prelude.Int.{negsuc}
use rmdb.Prelude.{set as set_byte}
use rmdb.Record.Bitmap.{get_bucket, get_bit, set, reset, is_set, init, first_bit}
use rmdb.Record.Bitmap.Laws.{
  IsNext, next_bit-IsNext, AllBytes, check_upto, check_upto-at, get_or-lt, is_set-set, is_set-reset,
}

or_table : check_upto (λ b. check_upto (λ k. ltb (bit_or b (128 / 2 ^ k)) 256) 8) 256 ≡ true
unfolding check_upto
or_table = refl

and_table : check_upto (λ b. check_upto (λ k. ltb (bit_and b (255 - 128 / 2 ^ k)) 256) 8) 256 ≡ true
unfolding check_upto
and_table = refl

set_byte-AllBytes : (bs : List ℕ) (i b : ℕ) → AllBytes bs → b < 256 → AllBytes (set_byte bs i b)
set_byte-AllBytes [] i b all h = tt
set_byte-AllBytes (c ∷ bs) zero b all h = (h, all.1)
set_byte-AllBytes (c ∷ bs) (suc i) b all h = (all.0, set_byte-AllBytes bs i b all.1 h)

pub set-AllBytes : (bm : List ℕ) (p : ℕ) → AllBytes bm → AllBytes (set bm p)
unfolding set get_bucket get_bit
set-AllBytes bm p all = set_byte-AllBytes bm (p / 8) _ all (
    ltb→lt _ _ (
      check_upto-at _ 8
        (check_upto-at _ 256 or_table (get_or bm (p / 8) 0) (get_or-lt bm (p / 8) all)) (p % 8)
        (omega arith)))

pub reset-AllBytes : (bm : List ℕ) (p : ℕ) → AllBytes bm → AllBytes (reset bm p)
unfolding reset get_bucket get_bit
reset-AllBytes bm p all = set_byte-AllBytes bm (p / 8) _ all (
    ltb→lt _ _ (
      check_upto-at _ 8
        (check_upto-at _ 256 and_table (get_or bm (p / 8) 0) (get_or-lt bm (p / 8) all)) (p % 8)
        (omega arith)))

pub length-set_bit : (bm : List ℕ) (p : ℕ) → length (set bm p) ≡ length bm
unfolding set
length-set_bit bm p = length-set bm _ _

pub length-reset_bit : (bm : List ℕ) (p : ℕ) → length (reset bm p) ≡ length bm
unfolding reset
length-reset_bit bm p = length-set bm _ _

-- How many of the first n positions are set.
unfoldable pub count_set : List ℕ → ℕ → ℕ
count_set bm zero = 0
count_set bm (suc n) = if is_set bm n then count_set bm n + 1 else count_set bm n

count_set-same :
    (bm cm : List ℕ) (n : ℕ)
    → ((j : ℕ) → j < n → is_set bm j ≡ is_set cm j)
    → count_set bm n ≡ count_set cm n
unfolding count_set
count_set-same bm cm zero h = refl
count_set-same bm cm (suc n) h =
    ground (arith, count_set-same bm cm n (λ j lt. h j (omega arith)), h n (omega arith))

-- One more position that is set.
count_set-one_more :
    (bm cm : List ℕ) (p n : ℕ)
    → p < n
    → is_set bm p ≡ false
    → ((j : ℕ) → is_set cm j ≡ (if p == j then true else is_set bm j))
    → count_set cm n ≡ count_set bm n + 1
unfolding count_set
count_set-one_more bm cm p zero lt clear h = absurd (omega arith)
count_set-one_more bm cm p (suc n) lt clear h = elim (Bool-cases (p == n)) [
  | inl last ↦
      let e : p ≡ n = ground arith in
      let below = count_set-same cm bm n (λ j jn. ground (arith, h j, e)) in
      ground (arith, below, h n, clear, e)
  | inr before ↦ ground (arith, count_set-one_more bm cm p n (ground arith) clear h, h n)
]

-- In a bitmap that holds the position, setting a clear bit adds one to the number of set positions, and
-- clearing a set bit takes one away.
pub count_set-set :
    (bm : List ℕ) (p n : ℕ)
    → AllBytes bm
    → n ≤ 8 * length bm
    → p < n
    → is_set bm p ≡ false
    → count_set (set bm p) n ≡ count_set bm n + 1
unfolding get_bucket
count_set-set bm p n all wide lt clear =
    count_set-one_more bm (set bm p) p n lt clear (λ j. is_set-set bm p j all (omega arith))

pub count_set-reset :
    (bm : List ℕ) (p n : ℕ)
    → AllBytes bm
    → n ≤ 8 * length bm
    → p < n
    → is_set bm p ≡ true
    → count_set bm n ≡ count_set (reset bm p) n + 1
unfolding get_bucket
count_set-reset bm p n all wide lt on =
    count_set-one_more (reset bm p) bm p n lt (is_set-reset bm p p all (omega arith) ∙ ground arith)
      (λ j. ground (arith, is_set-reset bm p j all (omega arith), on, ==_iff p j))

-- A bitmap with all positions set has as many set positions.
pub count_set-all :
    (bm : List ℕ) (n : ℕ) → ((j : ℕ) → j < n → is_set bm j ≡ true) → count_set bm n ≡ n
unfolding count_set
count_set-all bm zero h = refl
count_set-all bm (suc n) h =
    ground (arith, count_set-all bm n (λ j lt. h j (omega arith)), h n (omega arith))

get_or-zero : (size i : ℕ) → ◌≡◌ {A = ℕ} (get_or (replicate size 0) i 0) 0
get_or-zero zero i = refl
get_or-zero (suc size) zero = refl
get_or-zero (suc size) (suc i) = get_or-zero size i

zero_table : check_upto (λ k. bit_and 0 (128 / 2 ^ k) == 0) 8 ≡ true
unfolding check_upto
zero_table = refl

-- A new bitmap has all positions clear.
pub init-clear : (size j : ℕ) → is_set (init size) j ≡ false
unfolding is_set init get_bucket get_bit
init-clear size j =
    let none_set = check_upto-at _ 8 zero_table (j % 8) (omega arith) in
    rw (get_or-zero size (j / 8)) (ap not none_set)

pub init-AllBytes : (size : ℕ) → AllBytes (init size)
unfolding init
init-AllBytes zero = tt
init-AllBytes (suc size) = (omega arith, init-AllBytes size)

pub length-init : (size : ℕ) → length (init size) ≡ size
unfolding init
length-init size = length-replicate size 0

-- `first_bit` returns the first position with the bit, and n where there is none.
pub first_bit-IsNext : (bit : Bool) (bm : List ℕ) (n : ℕ) → IsNext bit bm 0 n (first_bit bit bm n)
unfolding first_bit
first_bit-IsNext bit bm n = next_bit-IsNext bit bm n (negsuc 0) (omega arith)

pub count_set-init : (size n : ℕ) → ◌≡◌ {A = ℕ} (count_set (init size) n) 0
unfolding count_set
count_set-init size zero = refl
count_set-init size (suc n) = ground (arith, count_set-init size n, init-clear size n)

count_set-le : (bm : List ℕ) (n : ℕ) → count_set bm n ≤ n
unfolding count_set
count_set-le bm zero = omega arith
count_set-le bm (suc n) = ground (arith, count_set-le bm n)

pub count_set-clear : (bm : List ℕ) (p n : ℕ) → p < n → is_set bm p ≡ false → count_set bm n < n
unfolding count_set
count_set-clear bm p zero lt clear = absurd (omega arith)
count_set-clear bm p (suc n) lt clear = elim (Bool-cases (p == n)) [
  | inl last ↦
      let e : p ≡ n = ground arith in ground (arith, ap (is_set bm) e, clear, count_set-le bm n)
  | inr before ↦ ground (arith, count_set-clear bm p n (ground arith) clear)
]
