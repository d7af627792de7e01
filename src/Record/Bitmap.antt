-- ===== src/Record/Bitmap.antt =====
-- src/record/bitmap.h: the slot bitmap of a record page. A bitmap is the list of its bytes.
pub mod Laws
pub mod Counts
use Prim.Native.Nat.{bit_and, bit_or}
use rmdb.Prelude.Int.{ℤ, pos, negsuc}
use rmdb.Prelude.{
  ℕ, zero, suc, ◌+◌, ◌-◌, ◌/◌, ◌%◌, ◌^◌, ◌≡◌, Bool, true, false, not, List, ◌==◌, leb, get_or,
  replicate, if◌then◌else◌,
}
use rmdb.Prelude.{set as set_byte}

abbrev pub bitmap_width : ℕ
bitmap_width = 8

abbrev pub bitmap_highest_bit : ℕ
bitmap_highest_bit = 0x80

unfoldable pub get_bucket : ℕ → ℕ
get_bucket p = p / bitmap_width

-- `BITMAP_HIGHEST_BIT >> (pos % BITMAP_WIDTH)`, as the byte that the `char` holds.
unfoldable pub get_bit : ℕ → ℕ
get_bit p = bitmap_highest_bit / 2 ^ (p % bitmap_width)

pub init : ℕ → List ℕ
init size = replicate size 0

pub set : List ℕ → ℕ → List ℕ
set bm p = set_byte bm (get_bucket p) (bit_or (get_or bm (get_bucket p) 0) (get_bit p))

pub reset : List ℕ → ℕ → List ℕ
reset bm p = set_byte bm (get_bucket p) (bit_and (get_or bm (get_bucket p) 0) (255 - get_bit p))

unfoldable pub is_set : List ℕ → ℕ → Bool
is_set bm p = not (bit_and (get_or bm (get_bucket p) 0) (get_bit p) == 0)

abbrev pub same_bit : Bool → Bool → Bool
same_bit true b = b
same_bit false b = not b

-- The loop of `next_bit` from `i`, with the rounds that are left: `i + rounds` is `max_n`.
pub next_from : Bool → List ℕ → ℕ → ℕ → ℕ
next_from bit bm zero i = i
next_from bit bm (suc rounds) i =
    let rest = next_from bit bm rounds (i + 1) in if same_bit (is_set bm i) bit then i else rest

-- `curr + 1`, where the callers pass -1 or a slot number.
abbrev pub after : ℤ → ℕ
after (pos curr) = curr + 1
after (negsuc _) = 0

-- Where the range is empty the loop makes no round and `max_n` is returned.
pub next_bit : Bool → List ℕ → ℕ → ℤ → ℕ
unfolding next_from
next_bit bit bm max_n curr =
    if leb (after curr) max_n then next_from bit bm (max_n - after curr) (after curr) else max_n

pub first_bit : Bool → List ℕ → ℕ → ℕ
unfolding next_bit
first_bit bit bm max_n = next_bit bit bm max_n (negsuc 0)
