-- ===== src/Storage/BufferPool/Moves.antt =====
-- The moves that the calls are made of keep the pool's invariant.

use rmdb.Prelude.{
  ℕ, ◌≤◌, ◌≡◌, ◌⊎◌, inl, inr, refl, sym, ap, ◌∙◌, false, none, some, ◌==◌, ==_iff, if◌then◌else◌,
  contains, arith, Bool-cases, subst,
}
use rmdb.Prelude.Int.{pos}
use rmdb.Replacer.{Replacer}
use rmdb.Storage.Page.{PageId, Page, invalid_page_id, page_id_eq, page_id_eq_iff, page_id_Eq}
use rmdb.Storage.Disk.{Files, Disk}
use rmdb.Storage.BufferPool.Defs.{BufferPool, rename_frame, set_frame, pin_frame}
use rmdb.Storage.BufferPool.Invariant.{Inv, IsDetached, IsAllocated}

module _ {R : Replacer} {F : Files} (p : BufferPool R F) (v : Inv p) where
  -- A frame's bytes or dirty flag change.
  pub touch-Inv :
      (f : ℕ) (x : Page)
      → x.id ≡ (p.pages f).id
      → x.pin_count ≡ (p.pages f).pin_count
      → Inv (record p { pages = set_frame p.pages f x })
  touch-Inv f x same_id same_pin = record {
    valid = v.valid;
    mapped = λ i g h. ((v.mapped i g h).0, read_id g ∙ (v.mapped i g h).1, (v.mapped i g h).2);
    free = λ g h. (
      (v.free g h).0,
      read_pin g ∙ (v.free g h).1,
      ap (λ (i : PageId). i.page_no) (read_id g) ∙ (v.free g h).2,
      (v.free g h).3,
    );
    distinct = v.distinct;
    evictable = λ g h. (
      (v.evictable g h).0,
      read_pin g ∙ (v.evictable g h).1,
      ap p.page_table (read_id g) ∙ (v.evictable g h).2,
    );
  }
    where
      read_id : (g : ℕ) → (set_frame p.pages f x g).id ≡ (p.pages g).id
      read_id g = ground (arith, (==_iff f g).0)

      read_pin : (g : ℕ) → (set_frame p.pages f x g).pin_count ≡ (p.pages g).pin_count
      read_pin g = ground (arith, (==_iff f g).0)

  -- The disk changes, and no page number is taken back.
  pub disk-Inv :
      (d : Disk F) → ((fd : ℕ) → p.disk.fd2pageno fd ≤ d.fd2pageno fd) → Inv (record p { disk = d })
  disk-Inv d grows = record {
    valid = v.valid;
    mapped = λ i g h.
        let (n, e, lt) = (v.mapped i g h).2 in
        ((v.mapped i g h).0, (v.mapped i g h).1, (n, e, omega (arith, grows i.fd)));
    free = v.free;
    distinct = v.distinct;
    evictable = v.evictable;
  }

  -- A mapped frame is no free frame.
  pub mapped-not_free :
      (i : PageId) (f : ℕ) → p.page_table i ≡ some f → contains p.free_list f ≡ false
  mapped-not_free i f h = elim (Bool-cases (contains p.free_list f)) [
    | inl free ↦
        let (n, e, _) = (v.mapped i f h).2 in
        let no : invalid_page_id ≡ pos n =
          sym (v.free f free).2 ∙ ap (λ (j : PageId). j.page_no) (v.mapped i f h).1 ∙ e in
        cc no
    | inr busy ↦ busy
  ]

  pub pin_frame-Inv :
      (i : PageId) (f count : ℕ) → p.page_table i ≡ some f → Inv (pin_frame p f count)
  unfolding pin_frame
  pin_frame-Inv i f count h = record {
    valid = R.pin-IsValid p.replacer f v.valid;
    mapped = λ j g m. (
      (v.mapped j g m).0,
      ground (arith, (v.mapped j g m).1, (==_iff f g).0),
      (v.mapped j g m).2,
    );
    free = λ g m. (
      (v.free g m).0,
      ground (arith, (v.free g m).1, (==_iff f g).0, mapped-not_free i f h),
      ground (arith, (v.free g m).2, (==_iff f g).0),
      ground (arith, R.members-pin p.replacer f g v.valid, (v.free g m).3),
    );
    distinct = v.distinct;
    evictable = λ g m. elim (Bool-cases (f == g)) [
      | inl same ↦ absurd (ground (arith, R.members-pin p.replacer f g v.valid))
      | inr other ↦
          let (within, unpinned, held) =
            v.evictable g (ground (arith, R.members-pin p.replacer f g v.valid)) in
          (within, ground arith, ground arith)
    ];
  }

  module _ (f : ℕ) (i : PageId) (d : IsDetached p f) (absent : p.page_table i ≡ none) where
    -- What the page table holds after a frame was given to page `i`.
    pub page_table-rename_frame :
        (j : PageId)
        → (rename_frame p f i).page_table j ≡ (
            if page_id_eq i j
            then some f
            else if page_id_eq (p.pages f).id j
            then none
            else p.page_table j)
    unfolding rename_frame
    page_table-rename_frame j = refl

    -- Every mapping but the new one is an old one, to another frame.
    pub mapped-rename_frame :
        (j : PageId) (g : ℕ)
        → (rename_frame p f i).page_table j ≡ some g
        → ((i ≡ j) × (f ≡ g)) ⊎ ((p.page_table j ≡ some g) × ((f == g) ≡ false))
    unfolding rename_frame
    mapped-rename_frame j g h = elim (Bool-cases (page_id_eq i j)) [
      | inl same ↦ inl ((page_id_eq_iff i j).0 same, ground arith)
      | inr other ↦
          let old : p.page_table j ≡ some g = ground arith in
          inr (
            old,
            ground (arith, page_id_eq_iff (p.pages f).id j, (v.mapped j g old).1, (==_iff f g).0),
          )
    ]

    -- The detached frame's old page is mapped to no other frame.
    not_named :
        (j : PageId) (g : ℕ) → p.page_table j ≡ some g → (f == g) ≡ false → ¬ ((p.pages f).id ≡ j)
    not_named j g h other named = elim d.owned [
      | inl stale ↦
          let (n, e, _) = (v.mapped j g h).2 in
          let no : invalid_page_id ≡ pos n = sym stale ∙ ap (λ (k : PageId). k.page_no) named ∙ e in
          cc no
      | inr held ↦ let same : some f ≡ some g = sym held ∙ ap p.page_table named ∙ h in ground arith
    ]

    -- The other way round: a mapping to another frame stays.
    pub keeps-rename_frame :
        (j : PageId) (g : ℕ)
        → p.page_table j ≡ some g
        → (f == g) ≡ false
        → (rename_frame p f i).page_table j ≡ some g
    unfolding rename_frame
    keeps-rename_frame j g h other = elim (Bool-cases (page_id_eq i j)) [
      | inl same ↦ absurd (ground (arith, ap p.page_table ((page_id_eq_iff i j).0 same)))
      | inr new ↦ elim (Bool-cases (page_id_eq (p.pages f).id j)) [
        | inl named ↦ absurd (not_named j g h other ((page_id_eq_iff (p.pages f).id j).0 named))
        | inr free ↦ rw (new, free) h
      ]
    ]

    pub rename_frame-Inv : IsAllocated p.disk i → Inv (rename_frame p f i)
    unfolding rename_frame
    rename_frame-Inv allocated = record {
      valid = v.valid;
      mapped = λ j g h. elim (mapped-rename_frame j g h) [
        | inl (same, frame) ↦ (
          rw (← frame) d.in_pool,
          ground (arith, (==_iff f g).1),
          subst (IsAllocated p.disk) same allocated,
        )
        | inr (old, other) ↦
            let (within, named, known) = v.mapped j g old in (within, ground arith, known)
      ];
      free = λ g h.
          let other : (f == g) ≡ false = ground (arith, d.not_free, (==_iff f g).0) in
          let (within, unpinned, unnamed, absent') = v.free g h in
          (within, ground arith, ground arith, absent');
      distinct = v.distinct;
      evictable = λ g h.
          let other : (f == g) ≡ false = ground (arith, d.not_member, (==_iff f g).0) in
          let (within, unpinned, held) = v.evictable g h in
          (
            within,
            ground arith,
            ap (rename_frame p f i).page_table (ground arith)
                ∙ keeps-rename_frame (p.pages g).id g held other,
          );
    }
