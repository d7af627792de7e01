-- ===== src/Storage/BufferPool/Content.antt =====
-- The pages that clients see through the pool: what a frame holds, or else what is on disk.

use rmdb.Prelude.{
  ℕ, ◌≤◌, ◌<◌, ◌≡◌, inl, inr, sym, ap, ◌∙◌, false, Option, none, some, List, ◌==◌, ==_iff, arith,
  Bool-cases, Option-cases,
}
use rmdb.Prelude.Int.{◌==ℤ◌}
use rmdb.Replacer.{Replacer}
use rmdb.Storage.Page.{PageId, Page, invalid_page_id, page_id_eq, page_id_eq_iff}
use rmdb.Storage.Disk.{Files, read_page}
use rmdb.Storage.BufferPool.Defs.{BufferPool}
use rmdb.Storage.BufferPool.Invariant.{Inv, IsDetached, IsAllocated}
use rmdb.Storage.BufferPool.Update.{Renamed}

module _ {R : Replacer} {F : Files} where
  unfoldable pub content : BufferPool R F → PageId → Option (List ℕ)
  content p j = elim (p.page_table j) [
    | none ↦ read_page p.disk j
    | some g ↦ some (p.pages g).bytes
  ]

  pub content-held :
      (p : BufferPool R F) (j : PageId) (g : ℕ)
      → p.page_table j ≡ some g
      → content p j ≡ some (p.pages g).bytes
  unfolding content
  content-held p j g h = rw (h, content)

  pub content-absent :
      (p : BufferPool R F) (j : PageId) → p.page_table j ≡ none → content p j ≡ read_page p.disk j
  unfolding content
  content-absent p j h = rw (h, content)

  -- A frame that is neither pinned nor dirty holds what is on disk.
  abbrev pub IsCoherent : BufferPool R F → Type 0
  IsCoherent p =
      (j : PageId) (g : ℕ)
      → p.page_table j ≡ some g
      → (p.pages g).pin_count ≡ 0
      → (p.pages g).is_dirty ≡ false
      → read_page p.disk j ≡ some (p.pages g).bytes

  -- The pinned pages stay where they are, with their bytes, and stay pinned.
  abbrev pub KeepsPinned : BufferPool R F → BufferPool R F → Type 0
  KeepsPinned p q =
      (j : PageId) (g : ℕ)
      → p.page_table j ≡ some g
      → 0 < (p.pages g).pin_count
      → (q.page_table j ≡ some g)
        × ((q.pages g).id ≡ (p.pages g).id)
        × ((q.pages g).bytes ≡ (p.pages g).bytes)
        × ((p.pages g).pin_count ≤ (q.pages g).pin_count)

  module _ (p q : BufferPool R F) (f : ℕ) (i : PageId) (v : Inv p) (d : IsDetached p f)
      (absent : p.page_table i ≡ none) (allocated : IsAllocated p.disk i)
      (r : Renamed p q f i) where
    pub Renamed-KeepsPinned : KeepsPinned p q
    Renamed-KeepsPinned j g h pinned =
        let other : (f == g) ≡ false = ground (arith, d.unpinned, (==_iff f g).0) in
        let same : q.pages g ≡ p.pages g = r.others g other in
        (
          r.kept j g h other,
          ap (λ (x : Page). x.id) same,
          ap (λ (x : Page). x.bytes) same,
          omega (arith, ap (λ (x : Page). x.pin_count) same),
        )

    -- A page that this frame does not hold loses no bytes.
    not_saved : (j : PageId) → ¬ (p.page_table j ≡ some f) → read_page q.disk j ≡ read_page p.disk j
    not_saved j h = elim (Bool-cases (page_id_eq (p.pages f).id j)) [
      | inl named ↦ elim d.owned [
        | inl stale ↦ ground (arith, r.saved j, stale)
        | inr held ↦
            absurd (h (ap p.page_table (sym ((page_id_eq_iff (p.pages f).id j).0 named)) ∙ held))
      ]
      | inr other ↦ ground (arith, r.saved j)
    ]

    pub read-Renamed : read_page q.disk i ≡ read_page p.disk i
    read-Renamed = not_saved i (λ held. cc (sym absent ∙ held))

    -- The old page of the frame, once it is in no frame, is on disk.
    evicted :
        IsCoherent p
        → (j : PageId) → p.page_table j ≡ some f
        → read_page q.disk j ≡ some (p.pages f).bytes
    evicted coherent j h =
        let (_, named, (n, e, _)) = v.mapped j f h in
        let valid : ((p.pages f).id.page_no ==ℤ invalid_page_id) ≡ false =
          ground (arith, ap (λ (k : PageId). k.page_no) named) in
        ground
          (arith, r.saved j, coherent j f h d.unpinned, (page_id_eq_iff (p.pages f).id j).1 named)

    pub content-Renamed :
        IsCoherent p → (j : PageId) → page_id_eq i j ≡ false → content q j ≡ content p j
    unfolding content
    content-Renamed coherent j other = elim (Option-cases (q.page_table j)) [
      | inl gone ↦ content-absent q j gone ∙ elim (Option-cases (p.page_table j)) [
        | inl absent' ↦
            not_saved j (λ held. cc (sym absent' ∙ held)) ∙ sym (content-absent p j absent')
        | inr (g, held) ↦ elim (Bool-cases (f == g)) [
          | inl same ↦
              let e : f ≡ g = (==_iff f g).0 same in
              evicted coherent j (held ∙ ap some (sym e))
              ∙ sym (content-held p j f (held ∙ ap some (sym e)))
          | inr ne ↦ cc (sym gone ∙ r.kept j g held ne)
        ]
      ]
      | inr (g, now) ↦ content-held q j g now ∙ elim (r.known j g now) [
        | inl (same, _) ↦ absurd (ground (arith, (page_id_eq_iff i j).1 same))
        | inr (held, ne) ↦
            ap (λ (x : Page). some x.bytes) (r.others g ne) ∙ sym (content-held p j g held)
      ]
    ]

    -- The frames but `f` stay coherent.
    pub IsCoherent-Renamed :
        IsCoherent p
        → (j : PageId) (g : ℕ) → q.page_table j ≡ some g
        → (f == g) ≡ false
        → (q.pages g).pin_count ≡ 0
        → (q.pages g).is_dirty ≡ false
        → read_page q.disk j ≡ some (q.pages g).bytes
    IsCoherent-Renamed coherent j g h ne unpinned clean = elim (r.known j g h) [
      | inl (_, same) ↦ absurd (ground arith)
      | inr (held, _) ↦
          let same : q.pages g ≡ p.pages g = r.others g ne in
          not_saved j (λ here. absurd (ground arith))
          ∙ coherent j g held (ap (λ (x : Page). x.pin_count) (sym same) ∙ unpinned)
              (ap (λ (x : Page). x.is_dirty) (sym same) ∙ clean)
          ∙ ap (λ (x : Page). some x.bytes) (sym same)
    ]
