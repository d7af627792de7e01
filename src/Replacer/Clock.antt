-- ===== src/Replacer/Clock.antt =====
-- src/replacer/clock_replacer.h: the CLOCK replacer. The mutex is held for the whole of each call.
pub mod Frames
pub mod Sweep
pub mod Laws
pub use Frames.{Frame, off, in_at, ref_at, count_in}
use rmdb.Prelude.{
  ℕ, zero, suc, ◌+◌, ◌-◌, ◌*◌, ◌%◌, Bool, true, false, not, ◌&&◌, List, Option, none, some, ◌==◌,
  leb, set, replicate, if◌then◌else◌,
}

-- `capacity` is the member `size`, and `count` the member `size_`.
pub record Clock : Type 0 where
  pub frames : List Frame
  pub clock_hand : ℕ
  pub capacity : ℕ
  pub count : ℕ

unfoldable pub init : ℕ → Clock
init num = record { frames = replicate num off; clock_hand = 0; capacity = num; count = 0 }

abbrev pub advance : Clock → Clock
advance c = record c { clock_hand = (c.clock_hand + 1) % c.capacity }

-- The frame under the hand is evicted.
pub take_frame : Clock → Clock
take_frame c = advance (record c {
  frames =
      set c.frames c.clock_hand
        (record { in_replacer = false; ref = ref_at c.frames c.clock_hand });
  count = c.count - 1;
})

-- The frame under the hand is passed over; its reference bit is cleared if it is in the replacer.
pub pass_frame : Clock → Clock
pass_frame c = advance (record c {
  frames =
      if in_at c.frames c.clock_hand && ref_at c.frames c.clock_hand
      then set c.frames c.clock_hand (record { in_replacer = true; ref = false })
      else c.frames;
})

-- The `while` loop of `victim`, with the rounds that are left.
unfoldable pub sweep : ℕ → Clock → Clock × Option ℕ
unfolding take_frame pass_frame
sweep zero c = (c, none)
sweep (suc rounds) c =
    let rest = sweep rounds (pass_frame c) in
    if in_at c.frames c.clock_hand && not (ref_at c.frames c.clock_hand)
    then (take_frame c, some c.clock_hand)
    else rest

unfoldable pub victim : Clock → Clock × Option ℕ
unfolding sweep
victim c = let swept = sweep (c.capacity * 2) c in if c.count == 0 then (c, none) else swept

unfoldable pub pin : Clock → ℕ → Clock
pin c frame_id =
    if leb c.capacity frame_id
    then c
    else (if in_at c.frames frame_id
        then record c { frames = set c.frames frame_id off; count = c.count - 1 }
        else c)

unfoldable pub unpin : Clock → ℕ → Clock
unpin c frame_id = if leb c.capacity frame_id then c else record c {
  frames = set c.frames frame_id (record { in_replacer = true; ref = true });
  count = if in_at c.frames frame_id then c.count else c.count + 1;
}

unfoldable pub size : Clock → ℕ
size c = c.count
