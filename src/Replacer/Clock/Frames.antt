-- ===== src/Replacer/Clock/Frames.antt =====
-- The status flags of the frames, and how many frames are in the replacer.
use rmdb.Prelude.{
  ℕ, zero, suc, ◌+◌, ◌<◌, ◌≡◌, refl, Bool, true, false, List, [], ◌∷◌, length, get_or, set,
  replicate, arith, Bool-cases, inl, inr, if◌then◌else◌,
}

pub record Frame : Type 0 where
  pub in_replacer : Bool
  pub ref : Bool

abbrev pub off : Frame
off = record { in_replacer = false; ref = false }

-- The flags at an index; an index out of range reads as a frame that is off.
abbrev pub in_at : List Frame → ℕ → Bool
in_at frames f = (get_or frames f off).in_replacer

abbrev pub ref_at : List Frame → ℕ → Bool
ref_at frames f = (get_or frames f off).ref

abbrev pub as_number : Bool → ℕ
as_number b = if b then 1 else 0

unfoldable pub count_in : List Frame → ℕ
count_in [] = 0
count_in (x ∷ xs) = as_number x.in_replacer + count_in xs

pub count_in-set :
    (xs : List Frame) (i : ℕ) (v : Frame)
    → i < length xs
    → count_in (set xs i v) + as_number (in_at xs i) ≡ count_in xs + as_number v.in_replacer
unfolding count_in
count_in-set [] i v h = absurd (omega arith)
count_in-set (x ∷ xs) zero v h = omega arith
count_in-set (x ∷ xs) (suc i) v h = omega (arith, count_in-set xs i v (omega arith))

pub count_in-replicate : (n : ℕ) → count_in (replicate n off) ≡ 0
unfolding count_in
count_in-replicate zero = refl
count_in-replicate (suc n) = omega (arith, count_in-replicate n)

pub in_at-count_in : (xs : List Frame) (i : ℕ) → in_at xs i ≡ true → 0 < count_in xs
unfolding count_in
in_at-count_in [] i h = ground arith
in_at-count_in (x ∷ xs) zero h = ground arith
in_at-count_in (x ∷ xs) (suc i) h = omega (arith, in_at-count_in xs i h)

pub in_at-lt : (xs : List Frame) (i : ℕ) → in_at xs i ≡ true → i < length xs
in_at-lt [] i h = ground arith
in_at-lt (x ∷ xs) zero h = omega arith
in_at-lt (x ∷ xs) (suc i) h = omega (arith, in_at-lt xs i h)

-- Where the count is positive some frame is in the replacer.
pub some_in : (xs : List Frame) → 0 < count_in xs → (i : ℕ) × (in_at xs i ≡ true)
unfolding count_in
some_in [] h = absurd (omega arith)
some_in (x ∷ xs) h = elim (Bool-cases x.in_replacer) [
  | inl here ↦ (0, here)
  | inr not_here ↦ let (i, found) = some_in xs (ground arith) in (suc i, found)
]
