-- ===== src/Storage/BufferPool/Fresh.antt =====
-- `new_page`.
use native.Mathlib.Nat.{le_refl}
use rmdb.Prelude.{
  ℕ, ◌≡◌, inl, inr, refl, sym, ap, ◌∙◌, false, Option, none, some, ◌==◌, ==_iff, arith,
  Option-cases, subst₂,
}
use rmdb.Prelude.Int.{pos}
use rmdb.Replacer.{Replacer}
use rmdb.Storage.Page.{PageId, zero_bytes}
use rmdb.Storage.Disk.{Files, Disk, allocate_page}
use rmdb.Storage.BufferPool.Defs.{
  BufferPool, Reply, ok, io_error, find_victim_page, update_page, pin_frame, fresh_page, new_page,
}
use rmdb.Storage.BufferPool.Invariant.{Inv, IsDetached, IsAllocated, find_victim_page-Detaches}
use rmdb.Storage.BufferPool.Moves.{disk-Inv, pin_frame-Inv}
use rmdb.Storage.BufferPool.Update.{Renamed, update_page-Renamed}
use rmdb.Storage.BufferPool.Content.{Renamed-KeepsPinned}
use rmdb.Storage.BufferPool.Load.{Keeps}
use rmdb.Storage.BufferPool.Fetch.{Keeps-Victim}

module _ {R : Replacer} {F : Files} where
  -- What a new page is: a page number that no earlier page has, in the frame that is answered,
  -- pinned once, all zeros.
  pub record IsFresh (p q : BufferPool R F) (fd : ℕ) (i : PageId) (f : ℕ) : Type 0 where
    pub in_file : i.fd ≡ fd
    pub number : i.page_no ≡ pos (p.disk.fd2pageno fd)
    pub absent : p.page_table i ≡ none
    pub allocated : IsAllocated q.disk i
    pub leads : q.page_table i ≡ some f
    pub pinned : (q.pages f).pin_count ≡ 1
    pub blank : (q.pages f).bytes ≡ zero_bytes

  module _ (p : BufferPool R F) (v : Inv p) (fd : ℕ) where
    next_id : PageId
    next_id = record { fd = fd; page_no = pos (p.disk.fd2pageno fd) }

    counted : BufferPool R F
    counted = record p { disk = (allocate_page p.disk fd).0 }

    counted-Inv : Inv counted
    unfolding counted allocate_page
    counted-Inv = disk-Inv p v (allocate_page p.disk fd).0 (λ g. ground arith)

    next_id-absent : p.page_table next_id ≡ none
    unfolding next_id
    next_id-absent = elim (Option-cases (p.page_table next_id)) [
      | inl absent ↦ absent
      | inr (g, held) ↦ let (_, _, (n, e, lt)) = v.mapped next_id g held in absurd (ground arith)
    ]

    next_id-IsAllocated : IsAllocated counted.disk next_id
    unfolding counted allocate_page next_id
    next_id-IsAllocated = (p.disk.fd2pageno fd, refl, ground arith)

    module _ (f : ℕ) (d : IsDetached p f) where
      counted-IsDetached : IsDetached counted f
      unfolding counted
      counted-IsDetached = record {
        in_pool = d.in_pool;
        unpinned = d.unpinned;
        not_free = d.not_free;
        not_member = d.not_member;
        owned = d.owned;
      }

      absent' : counted.page_table next_id ≡ none
      unfolding counted
      absent' = next_id-absent

      fresh_page_fails :
          update_page counted f next_id ≡ none → fresh_page p f fd ≡ (counted, io_error)
      unfolding fresh_page allocate_page counted next_id
      fresh_page_fails e = rw (e, fresh_page)

      fresh_page_gives :
          (q : BufferPool R F)
          → update_page counted f next_id ≡ some q
          → fresh_page p f fd ≡ (pin_frame q f 1, ok (some (next_id, f)))
      unfolding fresh_page allocate_page counted next_id
      fresh_page_gives q e = rw (e, fresh_page)

      module _ (q : BufferPool R F) (r : Renamed counted q f next_id) where
        given-Keeps : Keeps p (pin_frame q f 1)
        unfolding pin_frame counted
        given-Keeps = record {
          inv = pin_frame-Inv q r.inv next_id f 1 r.leads;
          pinned = λ j g held pinned.
              let other : (f == g) ≡ false = ground (arith, d.unpinned, (==_iff f g).0) in
              let (a, b, c, e) =
                Renamed-KeepsPinned counted q f next_id counted-Inv counted-IsDetached absent'
                  next_id-IsAllocated r j g held pinned in
              (a, ground arith, ground arith, ground arith);
        }

        given-IsFresh : IsFresh p (pin_frame q f 1) fd next_id f
        unfolding pin_frame counted next_id
        given-IsFresh = record {
          in_file = refl;
          number = refl;
          absent = next_id-absent;
          allocated =
              (next_id-IsAllocated.0, next_id-IsAllocated.1, rw r.allocation next_id-IsAllocated.2);
          leads = r.leads;
          pinned = ground arith;
          blank = ground (arith, r.blank);
        }

      fresh_page-Keeps : Keeps p (fresh_page p f fd).0
      unfolding counted
      fresh_page-Keeps = elim (Option-cases (update_page counted f next_id)) [
        | inl e ↦ rw (fresh_page_fails e) (record {
          inv = counted-Inv;
          pinned = λ j g held pinned. (held, refl, refl, le_refl _);
        })
        | inr (q, e) ↦ rw (fresh_page_gives q e) (
            given-Keeps q (
              update_page-Renamed counted f next_id counted-Inv counted-IsDetached absent'
                next_id-IsAllocated q e))
      ]

      fresh_page-IsFresh :
          (i : PageId) (g : ℕ)
          → (fresh_page p f fd).1 ≡ ok (some (i, g))
          → IsFresh p (fresh_page p f fd).0 fd i g
      fresh_page-IsFresh i g given = elim (Option-cases (update_page counted f next_id)) [
        | inl e ↦ cc (fresh_page_fails e)
        | inr (q, e) ↦
            let r =
              update_page-Renamed counted f next_id counted-Inv counted-IsDetached absent'
                next_id-IsAllocated q e in
            let frame : f ≡ g = cc (fresh_page_gives q e) in
            let page : next_id ≡ i = cc (fresh_page_gives q e) in
            rw (fresh_page_gives q e) (
              subst₂ (λ (a : PageId) (b : ℕ). IsFresh p (pin_frame q f 1) fd a b) page frame
                (given-IsFresh q r))
      ]

  module _ (p : BufferPool R F) (v : Inv p) (fd : ℕ) where
    new_page_full :
        (find_victim_page p).1 ≡ none → new_page p fd ≡ ((find_victim_page p).0, ok none)
    unfolding new_page
    new_page_full full = rw (new_page, full)

    new_page_takes :
        (f : ℕ)
        → (find_victim_page p).1 ≡ some f
        → new_page p fd ≡ fresh_page (find_victim_page p).0 f fd
    unfolding new_page
    new_page_takes f found = rw (new_page, found)

    -- In a pool with the invariant, `new_page` keeps the invariant, and every pinned page in its
    -- frame with its bytes and no fewer pins, also where it finds no frame or the disk fails.
    pub new_page-Keeps : Keeps p (new_page p fd).0
    new_page-Keeps =
        let (w, pages, table, disk, detached) = find_victim_page-Detaches p v in
        let q = (find_victim_page p).0 in
        Keeps-Victim p q (new_page p fd).0 (pages, table, disk)
          (elim (Option-cases (find_victim_page p).1) [
            | inl full ↦
                rw (new_page_full full)
                  (record { inv = w; pinned = λ j g held pinned. (held, refl, refl, le_refl _) })
            | inr (f, found) ↦
                rw (new_page_takes f found) (fresh_page-Keeps q w fd f (detached f found))
          ])

    -- In a pool with the invariant, a page that `new_page` answers has the next page number of the
    -- file, which no page in the pool has, and stands in the frame that is answered, pinned once,
    -- all zeros.
    pub new_page-IsFresh :
        (i : PageId) (g : ℕ)
        → (new_page p fd).1 ≡ ok (some (i, g))
        → IsFresh p (new_page p fd).0 fd i g
    new_page-IsFresh i g given =
        let (w, pages, table, disk, detached) = find_victim_page-Detaches p v in
        let q = (find_victim_page p).0 in
        elim (Option-cases (find_victim_page p).1) [
          | inl full ↦ cc (new_page_full full)
          | inr (f, found) ↦
              let r : IsFresh q (new_page p fd).0 fd i g = rw (new_page_takes f found) (
                fresh_page-IsFresh q w fd f (detached f found) i g (
                  ap (λ (x : BufferPool R F × Reply (Option (PageId × ℕ))). x.1)
                    (sym (new_page_takes f found))
                  ∙ given)) in
              record {
                in_file = r.in_file;
                number = r.number ∙ ap (λ (d : Disk F). pos (d.fd2pageno fd)) disk;
                absent = ap (λ (m : PageId → Option ℕ). m i) (sym table) ∙ r.absent;
                allocated = r.allocated;
                leads = r.leads;
                pinned = r.pinned;
                blank = r.blank;
              }
        ]
