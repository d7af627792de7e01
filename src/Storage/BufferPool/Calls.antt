-- ===== src/Storage/BufferPool/Calls.antt =====
-- The other calls of the buffer pool, and all calls together.
use native.Mathlib.Nat.{le_of_eq}
use rmdb.Prelude.{
  ℕ, suc, zero, ◌+◌, ◌<◌, ◌≡◌, inl, inr, refl, sym, ap, ◌∙◌, Bool, false, not, ◌&&◌, some, ◌==◌,
  ==_iff, arith, Bool-cases, Option-cases, subst,
}
use rmdb.Prelude.Int.{◌==ℤ◌}
use rmdb.Replacer.{Replacer}
use rmdb.Storage.Page.{PageId, invalid_page_id}
use rmdb.Storage.Disk.{Files, Disk, write_page, write_page-fd2pageno}
use rmdb.Storage.BufferPool.Defs.{
  BufferPool, mark_clean, write_back, unpin_frame, unpin_page, flush_frame, flush_page, flush_from,
}
use rmdb.Storage.BufferPool.Invariant.{Inv}
use rmdb.Storage.BufferPool.Moves.{touch-Inv, disk-Inv, mapped-not_free}

module _ {R : Replacer} {F : Files} where
  module _ (p : BufferPool R F) (v : Inv p) where
    written-Inv :
        (d : Disk F) (f : ℕ) (i : PageId)
        → write_page p.disk i (p.pages f).bytes ≡ some d
        → Inv (mark_clean (record p { disk = d }) f)
    unfolding mark_clean
    written-Inv d f i h =
        touch-Inv (record p { disk = d })
          (disk-Inv p v d (λ fd.
            le_of_eq (
              ap (λ (a : ℕ → ℕ). a fd)
                (sym (write_page-fd2pageno p.disk d i (p.pages f).bytes h)))))
          f (record (p.pages f) { is_dirty = false }) refl refl

    unpin_frame-Inv :
        (i : PageId) (f : ℕ)
        → p.page_table i ≡ some f
        → 0 < (p.pages f).pin_count
        → (dirty : Bool) → Inv (unpin_frame p f dirty)
    unfolding unpin_frame
    unpin_frame-Inv i f h pinned dirty = elim (Bool-cases ((p.pages f).pin_count == 1)) [
      | inl last ↦
          rw (last, unpin_frame)
            (record {
              valid = R.unpin-IsValid p.replacer f v.valid;
              mapped = λ j g m. (
                (v.mapped j g m).0,
                ground (arith, (v.mapped j g m).1, (==_iff f g).0),
                (v.mapped j g m).2,
              );
              free = λ g m.
                  let other : (f == g) ≡ false =
                    ground (arith, mapped-not_free p v i f h, (==_iff f g).0) in
                  let (within, unpinned, unnamed, absent) = v.free g m in
                  (
                    within,
                    ground arith,
                    ground arith,
                    ground (arith, R.members-unpin p.replacer f g v.valid (v.mapped i f h).0),
                  );
              distinct = v.distinct;
              evictable = λ g m. elim (Bool-cases (f == g)) [
                | inl same ↦
                    let e : f ≡ g = (==_iff f g).0 same in
                    let named : (p.pages f).id ≡ i = (v.mapped i f h).1 in
                    (
                      rw (← e) (v.mapped i f h).0,
                      ground arith,
                      ap p.page_table (ground arith) ∙ h ∙ ap some e,
                    )
                | inr other ↦
                    let (within, unpinned, held) =
                      v.evictable g (
                        ground
                          (arith, R.members-unpin p.replacer f g v.valid (v.mapped i f h).0)) in
                    (within, ground arith, ground arith)
              ];
            })
      | inr more ↦
          rw (more, unpin_frame)
            (record {
              valid = v.valid;
              mapped = λ j g m. (
                (v.mapped j g m).0,
                ground (arith, (v.mapped j g m).1, (==_iff f g).0),
                (v.mapped j g m).2,
              );
              free = λ g m.
                  let other : (f == g) ≡ false =
                    ground (arith, mapped-not_free p v i f h, (==_iff f g).0) in
                  let (within, unpinned, unnamed, absent) = v.free g m in
                  (within, ground arith, ground arith, absent);
              distinct = v.distinct;
              evictable = λ g m.
                  let (within, unpinned, held) = v.evictable g m in
                  let other : (f == g) ≡ false = ground (arith, (==_iff f g).0) in
                  (within, ground arith, ground arith);
            })
    ]

    pub unpin_page-Inv : (i : PageId) (dirty : Bool) → Inv (unpin_page p i dirty).0
    unfolding unpin_page
    unpin_page-Inv i dirty = elim (Option-cases (p.page_table i)) [
      | inl absent ↦ rw (absent, unpin_page) v
      | inr (f, held) ↦ elim (Bool-cases ((p.pages f).pin_count == 0)) [
        | inl idle ↦ rw (held, unpin_page, idle) v
        | inr busy ↦ rw (held, unpin_page, busy) (unpin_frame-Inv i f held (ground arith) dirty)
      ]
    ]

    pub flush_page-Inv : (i : PageId) → Inv (flush_page p i).0
    unfolding flush_page flush_frame
    flush_page-Inv i = elim (Option-cases (p.page_table i)) [
      | inl absent ↦ rw (absent, flush_page) v
      | inr (f, held) ↦ elim (Bool-cases (i.page_no ==ℤ invalid_page_id)) [
        | inl invalid ↦ rw (held, flush_page, invalid) v
        | inr valid ↦ elim (Option-cases (write_page p.disk i (p.pages f).bytes)) [
          | inl fails ↦ rw (held, flush_page, valid, flush_frame, fails) v
          | inr (d, written) ↦
              rw (held, flush_page, valid, flush_frame, written) (written-Inv d f i written)
        ]
      ]
    ]

    -- The loop that writes the frames back.
    write_back-Inv : (f : ℕ) (q : BufferPool R F) → write_back p f ≡ some q → Inv q
    unfolding write_back
    write_back-Inv f q h =
        elim (Option-cases (write_page p.disk (p.pages f).id (p.pages f).bytes)) [
          | inl fails ↦ absurd (ground arith)
          | inr (d, written) ↦ subst Inv (ground arith) (written-Inv d f (p.pages f).id written)
        ]

  pub flush_from-Inv :
      (rounds k : ℕ) (p : BufferPool R F) (fd : ℕ) → Inv p → Inv (flush_from rounds k p fd).0
  unfolding flush_from
  flush_from-Inv zero k p fd v = v
  flush_from-Inv (suc rounds) k p fd v =
      elim (Bool-cases
        ((fd == (p.pages k).id.fd) && not ((p.pages k).id.page_no ==ℤ invalid_page_id))) [
          | inr skip ↦ rw (skip, flush_from) (flush_from-Inv rounds (k + 1) p fd v)
          | inl mine ↦ elim (Option-cases (write_back p k)) [
            | inl fails ↦ rw (mine, flush_from, fails) v
            | inr (q, written) ↦
                rw (mine, flush_from, written)
                  (flush_from-Inv rounds (k + 1) q fd (write_back-Inv p v k q written))
          ]
        ]
