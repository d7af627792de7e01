-- ===== src/Storage/BufferPool/Fetch.antt =====
-- `fetch_page` on all its branches, through the choice of a victim.
use native.Mathlib.Nat.{le_refl}
use rmdb.Prelude.{
  ℕ, ◌+◌, ◌≡◌, inl, inr, refl, sym, ap, ◌∙◌, Option, none, some, arith, Option-cases, subst,
}
use rmdb.Replacer.{Replacer}
use rmdb.Storage.Page.{PageId, Page}
use rmdb.Storage.Disk.{Files, Disk, read_page}
use rmdb.Storage.BufferPool.Defs.{
  BufferPool, Reply, ok, find_victim_page, pin_frame, load_page, fetch_page,
}
use rmdb.Storage.BufferPool.Invariant.{Inv, IsAllocated, find_victim_page-Detaches}
use rmdb.Storage.BufferPool.Content.{content, IsCoherent}
use rmdb.Storage.BufferPool.Load.{
  Keeps, Serves, load_page-Keeps, load_page-Serves, hit-Keeps, hit-Serves,
}

module _ {R : Replacer} {F : Files} where
  abbrev pub Victim : BufferPool R F → BufferPool R F → Type 0
  Victim p q = (q.pages ≡ p.pages) × (q.page_table ≡ p.page_table) × (q.disk ≡ p.disk)

  content-Victim : (p q : BufferPool R F) → Victim p q → (j : PageId) → content q j ≡ content p j
  unfolding content
  content-Victim p q (pages, table, disk) j =
      λ k. elim (table k j) [ none ↦ read_page (disk k) j | some g ↦ some (pages k g).bytes ]

  pub Keeps-Victim : (p q x : BufferPool R F) → Victim p q → Keeps q x → Keeps p x
  Keeps-Victim p q x (pages, table, disk) k = record {
    inv = k.inv;
    pinned = λ j g h pinned.
        let same : q.pages g ≡ p.pages g = ap (λ (m : ℕ → Page). m g) pages in
        let (a, b, c, d) =
          k.pinned j g (ap (λ (m : PageId → Option ℕ). m j) table ∙ h)
            (omega (arith, ap (λ (y : Page). y.pin_count) same)) in
        (
          a,
          b ∙ ap (λ (y : Page). y.id) same,
          c ∙ ap (λ (y : Page). y.bytes) same,
          omega (arith, ap (λ (y : Page). y.pin_count) same),
        );
  }

  Serves-Victim :
      (p q x : BufferPool R F) (i : PageId) (f : ℕ) → Victim p q → Serves q x i f → Serves p x i f
  Serves-Victim p q x i f w s = record {
    leads = s.leads;
    pinned = s.pinned;
    bytes = sym (content-Victim p q w i) ∙ s.bytes;
    coherent = s.coherent;
    same = λ j. s.same j ∙ content-Victim p q w j;
  }

  IsCoherent-Victim : (p q : BufferPool R F) → Victim p q → IsCoherent p → IsCoherent q
  IsCoherent-Victim p q (pages, table, disk) coherent j g h unpinned clean =
      let same : q.pages g ≡ p.pages g = ap (λ (m : ℕ → Page). m g) pages in
      ap (λ (d : Disk F). read_page d j) disk
      ∙ coherent j g (ap (λ (m : PageId → Option ℕ). m j) (sym table) ∙ h)
          (ap (λ (y : Page). y.pin_count) (sym same) ∙ unpinned)
          (ap (λ (y : Page). y.is_dirty) (sym same) ∙ clean)
      ∙ ap (λ (y : Page). some y.bytes) (sym same)

  module _ (p : BufferPool R F) (v : Inv p) (i : PageId) (allocated : IsAllocated p.disk i) where
    fetch_page_full :
        p.page_table i ≡ none
        → (find_victim_page p).1 ≡ none
        → fetch_page p i ≡ ((find_victim_page p).0, ok none)
    unfolding fetch_page
    fetch_page_full absent full = rw (absent, fetch_page, full)

    fetch_page_loads :
        (f : ℕ)
        → p.page_table i ≡ none
        → (find_victim_page p).1 ≡ some f
        → fetch_page p i ≡ load_page (find_victim_page p).0 f i
    unfolding fetch_page
    fetch_page_loads f absent found = rw (absent, fetch_page, found)

    fetch_page_hits :
        (f : ℕ)
        → p.page_table i ≡ some f
        → fetch_page p i ≡ (pin_frame p f ((p.pages f).pin_count + 1), ok (some f))
    unfolding fetch_page
    fetch_page_hits f hit = rw (hit, fetch_page)

    -- In a pool with the invariant, `fetch_page` of an allocated page keeps the invariant, and
    -- every pinned page in its frame with its bytes and no fewer pins, also where it finds no
    -- frame or the disk fails.
    pub fetch_page-Keeps : Keeps p (fetch_page p i).0
    fetch_page-Keeps = elim (Option-cases (p.page_table i)) [
      | inr (f, hit) ↦ rw (fetch_page_hits f hit) (hit-Keeps p v i f hit)
      | inl absent ↦
          let (w, pages, table, disk, detached) = find_victim_page-Detaches p v in
          let q = (find_victim_page p).0 in
          Keeps-Victim p q (fetch_page p i).0 (pages, table, disk)
            (elim (Option-cases (find_victim_page p).1) [
              | inl full ↦
                  rw (fetch_page_full absent full)
                    (record { inv = w; pinned = λ j g held pinned. (held, refl, refl, le_refl _) })
              | inr (f, found) ↦ rw (fetch_page_loads f absent found) (
                  load_page-Keeps q w i (allocated.0, allocated.1, rw disk allocated.2) f
                    (detached f found) (ap (λ (m : PageId → Option ℕ). m i) table ∙ absent))
            ])
    ]

    -- In a pool with the invariant, whose unpinned clean pages agree with the disk, an allocated
    -- page that `fetch_page` serves is pinned in the frame that it answers, with the bytes that
    -- clients last saw; clients see the same bytes of every page as before, and unpinned clean
    -- pages still agree with the disk.
    pub fetch_page-Serves :
        (f : ℕ) → IsCoherent p → (fetch_page p i).1 ≡ ok (some f) → Serves p (fetch_page p i).0 i f
    fetch_page-Serves f coherent served = elim (Option-cases (p.page_table i)) [
      | inr (g, hit) ↦
          let same : g ≡ f = cc (fetch_page_hits g hit) in
          rw (fetch_page_hits g hit) (
            subst (Serves p (pin_frame p g ((p.pages g).pin_count + 1)) i) same
              (hit-Serves p v i g hit coherent))
      | inl absent ↦
          let (w, pages, table, disk, detached) = find_victim_page-Detaches p v in
          let q = (find_victim_page p).0 in
          elim (Option-cases (find_victim_page p).1) [
            | inl full ↦ cc (fetch_page_full absent full)
            | inr (g, found) ↦
                Serves-Victim p q (fetch_page p i).0 i f (pages, table, disk)
                  (rw (fetch_page_loads g absent found) (
                    load_page-Serves q w i (allocated.0, allocated.1, rw disk allocated.2) g f
                      (detached g found) (ap (λ (m : PageId → Option ℕ). m i) table ∙ absent)
                      (IsCoherent-Victim p q (pages, table, disk) coherent)
                      (ap (λ (x : BufferPool R F × Reply (Option ℕ)). x.1)
                          (sym (fetch_page_loads g absent found))
                        ∙ served)))
          ]
    ]
