-- ===== src/Storage/BufferPool/History.antt =====
-- The constructor, all calls together, and what holds after any history of them.
use rmdb.Prelude.{
  ℕ, suc, zero, ◌+◌, ◌≤◌, ◌<◌, ◌≡◌, inl, inr, refl, sym, ◌∙◌, Bool, true, ◌==◌, contains,
  IsDistinct, List, arith, Bool-cases,
}
use rmdb.Replacer.{Replacer}
use rmdb.Storage.Page
use rmdb.Storage.Page.{PageId, Page, page_id_eq, page_id_eq_iff, zero_bytes, invalid_page_id}
use rmdb.Storage.Disk.{Files, Disk}
use rmdb.Storage.BufferPool.Defs.{
  BufferPool, fetch_page, unpin_page, flush_page, new_page, flush_all_pages, mark_dirty, set_bytes,
  init, frames_from,
}
use rmdb.Storage.BufferPool.Invariant.{Inv, IsAllocated}
use rmdb.Storage.BufferPool.Moves.{touch-Inv}
use rmdb.Storage.BufferPool.Fresh.{new_page-Keeps}
use rmdb.Storage.BufferPool.Fetch.{fetch_page-Keeps}
use rmdb.Storage.BufferPool.Calls.{unpin_page-Inv, flush_page-Inv, flush_from-Inv}

-- The constructor: every frame is free, and none is in the replacer.
frames_from-contains :
    (i rounds f : ℕ) → contains (frames_from i rounds) f ≡ true → (i ≤ f) × (f < i + rounds)
unfolding frames_from
frames_from-contains i zero f h = absurd (ground arith)
frames_from-contains i (suc rounds) f h = elim (Bool-cases (i == f)) [
  | inl same ↦ ground arith
  | inr other ↦
      let (a, b) = frames_from-contains (i + 1) rounds f (ground arith) in
      (omega arith, omega arith)
]

frames_from-IsDistinct : (i rounds : ℕ) → IsDistinct (frames_from i rounds)
unfolding frames_from
frames_from-IsDistinct i zero = tt
frames_from-IsDistinct i (suc rounds) = (
  elim (Bool-cases (contains (frames_from (i + 1) rounds) i)) [
    | inl later ↦ absurd (omega (arith, (frames_from-contains (i + 1) rounds i later).0))
    | inr absent ↦ absent
  ],
  frames_from-IsDistinct (i + 1) rounds,
)

-- The calls, but `delete_page`, and the writes of clients to the bytes of a frame.
pub data Call : Type 0 where
  fetches flushes : PageId → Call
  unpins : PageId → Bool → Call
  news flushes_all marks : ℕ → Call
  writes : ℕ → List ℕ → Call

module _ {R : Replacer} {F : Files} where
  pub init-Inv : (d : Disk F) (fd : ℕ → ℕ) → Inv {R = R} (init d fd)
  unfolding init Page.new_page
  init-Inv d fd = record {
    valid = R.initial-IsValid;
    mapped = λ i f h. cc h;
    free = λ f h.
        (omega (arith, (frames_from-contains 0 R.capacity f h).1), refl, refl, R.members-initial f);
    distinct = frames_from-IsDistinct 0 R.capacity;
    evictable = λ f h. cc (sym (R.members-initial f) ∙ h);
  }

  pub step : Call → BufferPool R F → BufferPool R F
  step (fetches i) p = (fetch_page p i).0
  step (flushes i) p = (flush_page p i).0
  step (unpins i dirty) p = (unpin_page p i dirty).0
  step (news fd) p = (new_page p fd).0
  step (flushes_all fd) p = (flush_all_pages p fd).0
  step (marks f) p = mark_dirty p f
  step (writes f bytes) p = set_bytes p f bytes

  -- A history of calls in which only allocated pages are fetched.
  pub data Reach (d : Disk F) (fd : ℕ → ℕ) : BufferPool R F → Type 0 where
    start : Reach d fd (init d fd)
    call :
        (c : Call) {p : BufferPool R F}
        → Reach d fd p
        → ((i : PageId) → c ≡ fetches i → IsAllocated p.disk i)
        → Reach d fd (step c p)

  step-Inv :
      (c : Call) (p : BufferPool R F)
      → ((i : PageId) → c ≡ fetches i → IsAllocated p.disk i)
      → Inv p
      → Inv (step c p)
  unfolding step flush_all_pages mark_dirty set_bytes
  step-Inv (fetches i) p ok' v = (fetch_page-Keeps p v i (ok' i refl)).inv
  step-Inv (flushes i) p ok' v = flush_page-Inv p v i
  step-Inv (unpins i dirty) p ok' v = unpin_page-Inv p v i dirty
  step-Inv (news fd) p ok' v = (new_page-Keeps p v fd).inv
  step-Inv (flushes_all fd) p ok' v = flush_from-Inv R.capacity 0 p fd v
  step-Inv (marks f) p ok' v = touch-Inv p v f (record (p.pages f) { is_dirty = true }) refl refl
  step-Inv (writes f bytes) p ok' v =
      touch-Inv p v f (record (p.pages f) { bytes = bytes }) refl refl

  -- The invariant of frames, page table, free list and replacer holds after any history of calls
  -- but `delete_page`, and of writes to frames, from a new pool in which only pages whose numbers
  -- were allocated are fetched, whatever the disk answers.
  pub Reach-Inv : {d : Disk F} {fd : ℕ → ℕ} {p : BufferPool R F} → Reach d fd p → Inv p
  Reach-Inv {d} {fd} start = init-Inv d fd
  Reach-Inv (call c {p} r ok') = step-Inv c p ok' (Reach-Inv r)
