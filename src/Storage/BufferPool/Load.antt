-- ===== src/Storage/BufferPool/Load.antt =====
-- The two ways in which `fetch_page` serves a page: it is in the pool, or it is read into a frame.
use native.Mathlib.Nat.{le_refl}
use rmdb.Prelude.{
  ℕ, ◌+◌, ◌<◌, ◌≡◌, inl, inr, refl, sym, ap, ◌∙◌, false, none, some, List, ◌==◌, ==_iff, arith,
  Bool-cases, Option-cases, subst,
}
use rmdb.Replacer.{Replacer}
use rmdb.Storage.Page.{PageId, Page, page_id_eq, page_id_eq_iff}
use rmdb.Storage.Disk.{Files, read_page}
use rmdb.Storage.BufferPool.Defs.{
  BufferPool, ok, io_error, update_page, pin_frame, set_bytes, load_page,
}
use rmdb.Storage.BufferPool.Invariant.{Inv, IsDetached, IsAllocated}
use rmdb.Storage.BufferPool.Moves.{touch-Inv, pin_frame-Inv}
use rmdb.Storage.BufferPool.Update.{Renamed, update_page-Renamed}
use rmdb.Storage.BufferPool.Content.{
  content, content-held, content-absent, IsCoherent, KeepsPinned, Renamed-KeepsPinned, read-Renamed,
  content-Renamed, IsCoherent-Renamed,
}

module _ {R : Replacer} {F : Files} where
  -- What a call keeps whatever its answer.
  pub record Keeps (p q : BufferPool R F) : Type 0 where
    pub inv : Inv q
    pub pinned : KeepsPinned p q

  -- What a served page is: in the frame that is answered, pinned, with the bytes that clients saw
  -- before; and clients see the same bytes of every page.
  pub record Serves (p q : BufferPool R F) (i : PageId) (f : ℕ) : Type 0 where
    pub leads : q.page_table i ≡ some f
    pub pinned : 0 < (q.pages f).pin_count
    pub bytes : content p i ≡ some (q.pages f).bytes
    pub coherent : IsCoherent q
    pub same : (j : PageId) → content q j ≡ content p j

  module _ (p : BufferPool R F) (v : Inv p) (i : PageId) (f : ℕ) where
    -- The page is in the pool.
    pub hit-Keeps : p.page_table i ≡ some f → Keeps p (pin_frame p f ((p.pages f).pin_count + 1))
    unfolding pin_frame
    hit-Keeps h = record {
      inv = pin_frame-Inv p v i f ((p.pages f).pin_count + 1) h;
      pinned =
          λ j g held pinned. (held, ground arith, ground arith, ground (arith, (==_iff f g).0));
    }

    pub hit-Serves :
        p.page_table i ≡ some f
        → IsCoherent p
        → Serves p (pin_frame p f ((p.pages f).pin_count + 1)) i f
    unfolding pin_frame content
    hit-Serves h coherent = record {
      leads = h;
      pinned = ground arith;
      bytes = content-held p i f h ∙ ground arith;
      coherent = λ j g held unpinned clean. ground (arith, coherent j g held);
      same = λ j. ground arith;
    }

    -- The page was read into a detached frame.
    loaded : BufferPool R F → List ℕ → BufferPool R F
    loaded u bytes = pin_frame (set_bytes u f bytes) f ((u.pages f).pin_count + 1)

    loaded-other :
        (u : BufferPool R F) (bytes : List ℕ) (g : ℕ)
        → (f == g) ≡ false
        → (loaded u bytes).pages g ≡ u.pages g
    unfolding loaded pin_frame set_bytes
    loaded-other u bytes g other = ground arith

    module _ (d : IsDetached p f) (absent : p.page_table i ≡ none)
        (allocated : IsAllocated p.disk i) (u : BufferPool R F) (bytes : List ℕ)
        (r : Renamed p u f i) where
      loaded-Keeps : Keeps p (loaded u bytes)
      unfolding loaded pin_frame set_bytes
      loaded-Keeps = record {
        inv =
            pin_frame-Inv (set_bytes u f bytes)
              (touch-Inv u r.inv f (record (u.pages f) { bytes = bytes }) refl refl) i f
              ((u.pages f).pin_count + 1) r.leads;
        pinned = λ j g held pinned.
            let other : (f == g) ≡ false = ground (arith, d.unpinned, (==_iff f g).0) in
            let same : (loaded u bytes).pages g ≡ p.pages g =
              loaded-other u bytes g other ∙ r.others g other in
            (
              r.kept j g held other,
              ap (λ (x : Page). x.id) same,
              ap (λ (x : Page). x.bytes) same,
              omega (arith, ap (λ (x : Page). x.pin_count) same),
            );
      }

      loaded-content :
          (j : PageId) → page_id_eq i j ≡ false → content (loaded u bytes) j ≡ content u j
      unfolding loaded pin_frame set_bytes content
      loaded-content j other = elim (Option-cases (u.page_table j)) [
        | inl gone ↦ rw (gone, content)
        | inr (g, held) ↦
            rw (held, content)
              (elim (r.known j g held) [
                | inl (same, _) ↦ absurd (ground (arith, (page_id_eq_iff i j).1 same))
                | inr (_, ne) ↦ ap (λ (x : Page). some x.bytes) (loaded-other u bytes g ne)
              ])
      ]

      loaded-Serves : IsCoherent p → read_page u.disk i ≡ some bytes → Serves p (loaded u bytes) i f
      unfolding loaded pin_frame set_bytes content
      loaded-Serves coherent read = record {
        leads = r.leads;
        pinned = ground arith;
        bytes =
            content-absent p i absent
            ∙ sym (read-Renamed p u f i v d absent allocated r)
            ∙ read
            ∙ ground arith;
        coherent = λ j g held unpinned clean. elim (Bool-cases (f == g)) [
          | inl here ↦ absurd (ground arith)
          | inr ne ↦
              let same : (loaded u bytes).pages g ≡ u.pages g = loaded-other u bytes g ne in
              IsCoherent-Renamed p u f i v d absent allocated r coherent j g held ne
                (ap (λ (x : Page). x.pin_count) (sym same) ∙ unpinned)
                (ap (λ (x : Page). x.is_dirty) (sym same) ∙ clean)
              ∙ ap (λ (x : Page). some x.bytes) (sym same)
        ];
        same = λ j. elim (Bool-cases (page_id_eq i j)) [
          | inl here ↦
              let e : i ≡ j = (page_id_eq_iff i j).0 here in
              subst (λ k. content (loaded u bytes) k ≡ content p k) e
                (content-held (loaded u bytes) i f r.leads
                  ∙ ground arith
                  ∙ sym read
                  ∙ read-Renamed p u f i v d absent allocated r
                  ∙ sym (content-absent p i absent))
          | inr other ↦
              loaded-content j other
              ∙ content-Renamed p u f i v d absent allocated r coherent j other
        ];
      }

  module _ (p : BufferPool R F) (v : Inv p) (i : PageId) (allocated : IsAllocated p.disk i) where
    module _ (f : ℕ) where
      load_page_fails : update_page p f i ≡ none → load_page p f i ≡ (p, io_error)
      unfolding load_page
      load_page_fails e = rw (e, load_page)

      load_page_short :
          (u : BufferPool R F)
          → update_page p f i ≡ some u
          → read_page u.disk i ≡ none
          → load_page p f i ≡ (u, io_error)
      unfolding load_page
      load_page_short u e short = rw (e, load_page, short)

      load_page_reads :
          (u : BufferPool R F) (bytes : List ℕ)
          → update_page p f i ≡ some u
          → read_page u.disk i ≡ some bytes
          → load_page p f i ≡ (loaded p v i f u bytes, ok (some f))
      unfolding load_page loaded
      load_page_reads u bytes e read = rw (e, load_page, read)

      pub load_page-Keeps : IsDetached p f → p.page_table i ≡ none → Keeps p (load_page p f i).0
      load_page-Keeps d absent = elim (Option-cases (update_page p f i)) [
        | inl e ↦
            rw (load_page_fails e)
              (record { inv = v; pinned = λ j g held pinned. (held, refl, refl, le_refl _) })
        | inr (u, e) ↦
            let r = update_page-Renamed p f i v d absent allocated u e in
            elim (Option-cases (read_page u.disk i)) [
              | inl short ↦ rw (load_page_short u e short) (record {
                inv = r.inv;
                pinned = Renamed-KeepsPinned p u f i v d absent allocated r;
              })
              | inr (bytes, read) ↦
                  rw (load_page_reads u bytes e read)
                    (loaded-Keeps p v i f d absent allocated u bytes r)
            ]
      ]

      pub load_page-Serves :
          (g : ℕ)
          → IsDetached p f
          → p.page_table i ≡ none
          → IsCoherent p
          → (load_page p f i).1 ≡ ok (some g)
          → Serves p (load_page p f i).0 i g
      load_page-Serves g d absent coherent served = elim (Option-cases (update_page p f i)) [
        | inl e ↦ cc (load_page_fails e)
        | inr (u, e) ↦
            let r = update_page-Renamed p f i v d absent allocated u e in
            elim (Option-cases (read_page u.disk i)) [
              | inl short ↦ cc (load_page_short u e short)
              | inr (bytes, read) ↦
                  let same : f ≡ g = cc (load_page_reads u bytes e read) in
                  rw (load_page_reads u bytes e read) (
                    subst (Serves p (loaded p v i f u bytes) i) same
                      (loaded-Serves p v i f d absent allocated u bytes r coherent read))
            ]
      ]
