-- ===== src/Tests/Pool.antt =====
-- The theorems on pools, replacers and bitmaps at concrete inputs: a pool of two frames over files
-- in memory, replacers of two frames, bitmaps of two bytes.
use rmdb.Prelude.{
  ℕ, ◌<◌, ◌≤◌, ◌≡◌, refl, sym, ap, subst, true, false, Option, some, List, [], ◌∷◌, if◌then◌else◌,
  contains, arith,
}
use mathlib.Core.Option.{some-injective}
use rmdb.Prelude.Int.{pos}
use rmdb.Record.Bitmap
use rmdb.Record.Bitmap.Laws as BitmapLaws
use rmdb.Replacer.{Replacer, Evicts}
use rmdb.Replacer.Clock
use rmdb.Replacer.Clock.Frames.{off, in_at, ref_at, count_in}
use rmdb.Replacer.Clock.Sweep as ClockSweep
use rmdb.Replacer.Clock.Laws as ClockLaws
use rmdb.Replacer.Lru
use rmdb.Replacer.Lru.Laws as LruLaws
use rmdb.Storage.Page.{PageId, page_id_eq}
use rmdb.Storage.Disk.{Files, Disk, read_page, allocate_page}
use rmdb.Storage.BufferPool.Defs.{BufferPool, init, fetch_page, new_page, delete_page, unpin_page}
use rmdb.Storage.BufferPool.Invariant.{Inv, IsAllocated}
use rmdb.Storage.BufferPool.Load.{Keeps, Serves}
use rmdb.Storage.BufferPool.Fetch.{fetch_page-Keeps, fetch_page-Serves}
use rmdb.Storage.BufferPool.Fresh.{IsFresh, new_page-Keeps, new_page-IsFresh}
use rmdb.Storage.BufferPool.Delete.{delete_page_stale}
use rmdb.Storage.BufferPool.History.{Call, unpins, fetches, step, start, call, init-Inv, Reach-Inv}

-- Files in memory: every page of an absent file reads as nothing.
abbrev memory : Files
memory = record {
  State = PageId → Option (List ℕ);
  pread = λ s i. s i;
  pwrite = λ s i bytes. some (λ j. if page_id_eq i j then some bytes else s j);
  pread-pwrite = λ s t i j bytes h.
      ap (λ (m : PageId → Option (List ℕ)). m j)
        (sym (some-injective (λ j. if page_id_eq i j then some bytes else s j) t h));
}

abbrev one_byte : Disk memory
one_byte = record { files = λ _. some (7 ∷ []); fd2pageno = λ _. 5 }

abbrev two_frames : Replacer
two_frames = LruLaws.lru_replacer 2

abbrev pool : BufferPool two_frames memory
pool = init one_byte (λ _. 0)

abbrev first_page : PageId
first_page = record { fd = 3; page_no = pos 0 }

first_lt : 0 < pool.disk.fd2pageno 3
unfolding init
first_lt = omega arith

abbrev page_of : Call → PageId
page_of (fetches i) = i
page_of _ = first_page

abbrev first_allocated : IsAllocated pool.disk first_page
first_allocated = (0, refl, first_lt)

Reach-Inv_example : Inv (step (unpins first_page true) (step (fetches first_page) pool))
Reach-Inv_example = Reach-Inv (
    call (unpins first_page true)
      (call (fetches first_page) start
        (λ i h. subst (IsAllocated pool.disk) (ap page_of h) first_allocated))
      (λ i h. cc h))

fetch_page-Keeps_example : Keeps pool (fetch_page pool first_page).0
fetch_page-Keeps_example =
    fetch_page-Keeps pool (init-Inv one_byte (λ _. 0)) first_page first_allocated

fetch_page-Serves_example : Serves pool (fetch_page pool first_page).0 first_page 0
unfolding fetch_page init read_page
fetch_page-Serves_example =
    fetch_page-Serves pool (init-Inv one_byte (λ _. 0)) first_page first_allocated 0
      (λ j g held idle clean. cc held) refl

new_page-Keeps_example : Keeps pool (new_page pool 3).0
new_page-Keeps_example = new_page-Keeps pool (init-Inv one_byte (λ _. 0)) 3

new_page-IsFresh_example : IsFresh pool (new_page pool 3).0 3 (record { fd = 3; page_no = pos 5 }) 0
unfolding new_page init allocate_page
new_page-IsFresh_example =
    new_page-IsFresh pool (init-Inv one_byte (λ _. 0)) 3 (record { fd = 3; page_no = pos 5 }) 0 refl

abbrev served : BufferPool two_frames memory
served = (unpin_page (fetch_page pool first_page).0 first_page false).0

delete_page_stale_example :
    ((delete_page served first_page).0.page_table first_page ≡ some 0)
    × (contains (delete_page served first_page).0.free_list 0 ≡ true)
unfolding fetch_page unpin_page delete_page init read_page page_id_eq
delete_page_stale_example = delete_page_stale served first_page 0 refl refl

next_bit-IsNext_example :
    BitmapLaws.IsNext true
      (1 ∷ 64 ∷ [])
      (Bitmap.after (pos 7))
      16
      (Bitmap.next_bit true (1 ∷ 64 ∷ []) 16 (pos 7))
next_bit-IsNext_example = BitmapLaws.next_bit-IsNext true (1 ∷ 64 ∷ []) 16 (pos 7) (omega arith)

abbrev clock : Clock.Clock
clock = record {
  frames = off ∷ record { in_replacer = true; ref = false } ∷ [];
  clock_hand = 0;
  capacity = 2;
  count = 1;
}

clock-IsValid : ClockSweep.IsValid clock
unfolding count_in
clock-IsValid = record { sized = refl; on_frame = λ h. omega arith; counted = refl }

victim_effect_example :
    ClockSweep.IsValid (Clock.victim clock).0
    × Evicts (in_at clock.frames) (in_at (Clock.victim clock).0.frames) (Clock.victim clock).1
victim_effect_example = ClockLaws.victim_effect clock clock-IsValid

victim_second_chance_example :
    (g : ℕ) × ((Clock.victim clock).1 ≡ some g)
    × (in_at clock.frames g ≡ true)
    × (ref_at clock.frames g ≡ false)
    × (ClockSweep.distance clock g ≤ ClockSweep.distance clock 1)
victim_second_chance_example = ClockLaws.victim_second_chance clock clock-IsValid 1 refl refl

abbrev calls : List LruLaws.Call
calls = LruLaws.unpins 1 ∷ LruLaws.unpins 0 ∷ LruLaws.victims ∷ []

run-init-refines_example :
    (LruLaws.view (LruLaws.run calls (Lru.init 2)).0, (LruLaws.run calls (Lru.init 2)).1)
    ≡ LruLaws.run_spec calls []
run-init-refines_example = LruLaws.run-init-refines 2 calls
