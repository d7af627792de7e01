-- ===== src/Record/Bitmap/Laws.antt =====
-- The bitmap seen as a set of positions, and the scan for the next bit.
use Prim.Native.Nat.{bit_and, bit_or}
use rmdb.Prelude.Int.{ℤ}
use mathlib.Core.Bool.{false≢true}
use rmdb.Prelude.{
  le→leb, subst, sym, ℕ, zero, suc, ◌+◌, ◌-◌, ◌/◌, ◌%◌, ◌^◌, ◌<◌, ◌≤◌, ◌≡◌, refl, Bool, true, false,
  not, List, [], ◌∷◌, ◌==◌, length, get_or, get_or-set, if◌then◌else◌, arith, ==_iff, Bool-cases,
  inl, inr,
}
use rmdb.Record.Bitmap.{
  get_bucket, get_bit, set, reset, is_set, same_bit, next_from, next_bit, after,
}

-- Bytes.
abbrev pub AllBytes : List ℕ → Type 0
AllBytes [] = Unit {0}
AllBytes (b ∷ bs) = (b < 256) × AllBytes bs

same_bit-eq : (a b : Bool) → same_bit a b ≡ true → a ≡ b
same_bit-eq true b h = sym h
same_bit-eq false true h = absurd (false≢true h)
same_bit-eq false false h = refl

-- Whether a table of answers holds at each index under its bound.
unfoldable pub check_upto : (ℕ → Bool) → ℕ → Bool
check_upto entry zero = true
check_upto entry (suc bound) = if entry bound then check_upto entry bound else false

pub check_upto-at :
    (entry : ℕ → Bool) (bound : ℕ)
    → check_upto entry bound ≡ true
    → (i : ℕ) → i < bound
    → entry i ≡ true
unfolding check_upto
check_upto-at entry zero whole i below = absurd (omega arith)
check_upto-at entry (suc bound) whole i below = elim (Bool-cases (i == bound)) [
  | inl last ↦ ground arith
  | inr before ↦ check_upto-at entry bound (ground arith) i (ground arith)
]

byte_test : ℕ → ℕ → Bool
byte_test b k = not (bit_and b (128 / 2 ^ k) == 0)

set_ok : ℕ → ℕ → ℕ → Bool
unfolding byte_test
set_ok b k j =
    same_bit (byte_test (bit_or b (128 / 2 ^ k)) j) (if k == j then true else byte_test b j)

reset_ok : ℕ → ℕ → ℕ → Bool
unfolding byte_test
reset_ok b k j =
    same_bit (byte_test (bit_and b (255 - 128 / 2 ^ k)) j) (if k == j then false else byte_test b j)

set_table : check_upto (λ b. check_upto (λ k. check_upto (λ j. set_ok b k j) 8) 8) 256 ≡ true
unfolding check_upto set_ok
set_table = refl

reset_table : check_upto (λ b. check_upto (λ k. check_upto (λ j. reset_ok b k j) 8) 8) 256 ≡ true
unfolding check_upto reset_ok
reset_table = refl

byte_test-set :
    (b k j : ℕ)
    → b < 256
    → k < 8
    → j < 8
    → byte_test (bit_or b (128 / 2 ^ k)) j ≡ (if k == j then true else byte_test b j)
unfolding set_ok
byte_test-set b k j hb hk hj =
    same_bit-eq _ _
      (check_upto-at _ 8 (check_upto-at _ 8 (check_upto-at _ 256 set_table b hb) k hk) j hj)

byte_test-reset :
    (b k j : ℕ)
    → b < 256
    → k < 8
    → j < 8
    → byte_test (bit_and b (255 - 128 / 2 ^ k)) j ≡ (if k == j then false else byte_test b j)
unfolding reset_ok
byte_test-reset b k j hb hk hj =
    same_bit-eq _ _
      (check_upto-at _ 8 (check_upto-at _ 8 (check_upto-at _ 256 reset_table b hb) k hk) j hj)

pub get_or-lt : (bs : List ℕ) (i : ℕ) → AllBytes bs → get_or bs i 0 < 256
get_or-lt [] i h = omega arith
get_or-lt (b ∷ bs) zero h = h.0
get_or-lt (b ∷ bs) (suc i) h = get_or-lt bs i h.1

same_position : (p q : ℕ) → p / 8 ≡ q / 8 → (p % 8 == q % 8) ≡ (p == q)
same_position p q h = ground arith

is_set-byte : (bm : List ℕ) (q : ℕ) → is_set bm q ≡ byte_test (get_or bm (q / 8) 0) (q % 8)
unfolding is_set byte_test get_bucket get_bit
is_set-byte bm q = refl

-- In a bitmap of bytes that holds the position, `set` turns exactly that position on.
pub is_set-set :
    (bm : List ℕ) (p q : ℕ)
    → AllBytes bm
    → get_bucket p < length bm
    → is_set (set bm p) q ≡ (if p == q then true else is_set bm q)
unfolding set get_bucket get_bit
is_set-set bm p q bytes h =
    rw
      (
        is_set-byte (set bm p) q,
        is_set-byte bm q,
        set,
        get_or-set bm (p / 8) (q / 8) (bit_or (get_or bm (p / 8) 0) (128 / 2 ^ (p % 8))) 0 h,
      )
      (ground (
        arith,
        byte_test-set (get_or bm (p / 8) 0) (p % 8) (q % 8) (get_or-lt bm (p / 8) bytes)
            (omega arith) (omega arith),
      ))

-- In a bitmap of bytes that holds the position, `reset` turns exactly that position off.
pub is_set-reset :
    (bm : List ℕ) (p q : ℕ)
    → AllBytes bm
    → get_bucket p < length bm
    → is_set (reset bm p) q ≡ (if p == q then false else is_set bm q)
unfolding reset get_bucket get_bit
is_set-reset bm p q bytes h =
    rw
      (
        is_set-byte (reset bm p) q,
        is_set-byte bm q,
        reset,
        get_or-set bm (p / 8) (q / 8) (bit_and (get_or bm (p / 8) 0) (255 - 128 / 2 ^ (p % 8))) 0 h,
      )
      (ground (
        arith,
        byte_test-reset (get_or bm (p / 8) 0) (p % 8) (q % 8) (get_or-lt bm (p / 8) bytes)
            (omega arith) (omega arith),
      ))

-- The scan stops in its range, passes over no position with the bit, and stops at the end of the
-- range or at a position with the bit.
pub record IsNext (bit : Bool) (bm : List ℕ) (i max_n r : ℕ) : Type 0 where
  pub from : i ≤ r
  pub to : r ≤ max_n
  pub skipped : (j : ℕ) → i ≤ j → j < r → same_bit (is_set bm j) bit ≡ false
  pub found : r < max_n → same_bit (is_set bm r) bit ≡ true

IsNext-later :
    (bit : Bool) (bm : List ℕ) (i rounds : ℕ) {m r : ℕ}
    → same_bit (is_set bm i) bit ≡ false
    → IsNext bit bm (i + 1) m r
    → m ≡ i + rounds
    → IsNext bit bm i (i + rounds) r
IsNext-later bit bm i rounds {m} {r} miss n e' = record {
  from = omega (arith, n.from);
  to = omega (arith, n.to);
  skipped = λ j a b. elim (Bool-cases (i == j)) [
    | inl e ↦ rw (← (==_iff i j).0 e) miss
    | inr e ↦ n.skipped j (ground arith) b
  ];
  found = λ h. n.found (omega arith);
}

next_from-IsNext :
    (bit : Bool) (bm : List ℕ) (rounds i : ℕ)
    → IsNext bit bm i (i + rounds) (next_from bit bm rounds i)
unfolding next_from
next_from-IsNext bit bm zero i = record {
  from = omega arith;
  to = omega arith;
  skipped = λ j a b. absurd (omega arith);
  found = λ h. absurd (omega arith);
}
next_from-IsNext bit bm (suc rounds) i = elim (Bool-cases (same_bit (is_set bm i) bit)) [
  | inl yes' ↦ rw yes' (record {
    from = omega arith;
    to = omega arith;
    skipped = λ j a b. absurd (omega arith);
    found = λ _. yes';
  })
  | inr no' ↦ rw no' (
      IsNext-later bit bm i (suc rounds) no' (next_from-IsNext bit bm rounds (i + 1)) (omega arith))
]

-- Where `curr + 1` is at most `max_n`, `next_bit` returns the first position of `[curr + 1,
-- max_n)` whose bit is the one asked for, and `max_n` where there is none.
pub next_bit-IsNext :
    (bit : Bool) (bm : List ℕ) (max_n : ℕ) (curr : ℤ)
    → after curr ≤ max_n
    → IsNext bit bm (after curr) max_n (next_bit bit bm max_n curr)
unfolding next_bit
next_bit-IsNext bit bm max_n curr h = rw (le→leb (after curr) max_n h) (
    subst (λ m. IsNext bit bm (after curr) m (next_from bit bm (max_n - after curr) (after curr)))
      (omega arith) (next_from-IsNext bit bm (max_n - after curr) (after curr)))
