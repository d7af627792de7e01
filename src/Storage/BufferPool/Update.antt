-- ===== src/Storage/BufferPool/Update.antt =====
-- `update_page`: what it makes of the pool when its write does not throw.
use native.Mathlib.Nat.{le_of_eq}
use mathlib.Core.Option.{some-injective}
use rmdb.Prelude.{
  subst, ℕ, ◌≡◌, ◌⊎◌, inl, inr, refl, sym, ap, ◌∙◌, true, false, ◌&&◌, none, some, ◌==◌,
  if◌then◌else◌, arith, Bool-cases, Option-cases,
}
use rmdb.Replacer.{Replacer}
use rmdb.Storage.Page.{PageId, zero_bytes, page_id_eq, page_id_eq_refl}
use rmdb.Storage.Disk.{
  Files, Disk, read_page, write_page, read_page-write_page, write_page-fd2pageno,
}
use rmdb.Storage.BufferPool.Defs.{BufferPool, rename_frame, mark_clean, needs_write, update_page}
use rmdb.Storage.BufferPool.Invariant.{Inv, IsDetached, IsAllocated}
use rmdb.Storage.BufferPool.Moves.{
  touch-Inv, disk-Inv, rename_frame-Inv, mapped-rename_frame, keeps-rename_frame,
}

module _ {R : Replacer} {F : Files} where
  -- Frame `f` went to page `i`; the dirty page that it held is on disk.
  pub record Renamed (p q : BufferPool R F) (f : ℕ) (i : PageId) : Type 0 where
    pub inv : Inv q
    pub leads : q.page_table i ≡ some f
    pub kept :
        (j : PageId) (g : ℕ) → p.page_table j ≡ some g → (f == g) ≡ false → q.page_table j ≡ some g
    pub known :
        (j : PageId) (g : ℕ)
        → q.page_table j ≡ some g
        → ((i ≡ j) × (f ≡ g)) ⊎ ((p.page_table j ≡ some g) × ((f == g) ≡ false))
    pub others : (g : ℕ) → (f == g) ≡ false → q.pages g ≡ p.pages g
    pub named : (q.pages f).id ≡ i
    pub unpinned : (q.pages f).pin_count ≡ 0
    pub blank : (q.pages f).bytes ≡ zero_bytes
    pub allocation : q.disk.fd2pageno ≡ p.disk.fd2pageno
    pub saved :
        (j : PageId)
        → read_page q.disk j ≡ (
            if page_id_eq (p.pages f).id j && needs_write (p.pages f)
            then some (p.pages f).bytes
            else read_page p.disk j)

  module _ (p : BufferPool R F) (f : ℕ) (i : PageId) (v : Inv p) (d : IsDetached p f)
      (absent : p.page_table i ≡ none) (allocated : IsAllocated p.disk i) where
    rename-Renamed : needs_write (p.pages f) ≡ false → Renamed p (rename_frame p f i) f i
    unfolding rename_frame
    rename-Renamed clean = record {
      inv = rename_frame-Inv p v f i d absent allocated;
      leads = ground (arith, page_id_eq_refl i);
      kept = keeps-rename_frame p v f i d absent;
      known = mapped-rename_frame p v f i d absent;
      others = λ g other. ground arith;
      named = ground arith;
      unpinned = ground (arith, d.unpinned);
      blank = ground arith;
      allocation = refl;
      saved = λ j. ground arith;
    }

  module _ (p : BufferPool R F) (f : ℕ) (i : PageId) (v : Inv p) (d : IsDetached p f)
      (absent : p.page_table i ≡ none) (allocated : IsAllocated p.disk i) where
    module _ (e : Disk F)
        (written : write_page p.disk (p.pages f).id (p.pages f).bytes ≡ some e) where
      same_allocation : e.fd2pageno ≡ p.disk.fd2pageno
      same_allocation = write_page-fd2pageno p.disk e (p.pages f).id (p.pages f).bytes written

      cleaned : BufferPool R F
      cleaned = mark_clean (record p { disk = e }) f

      cleaned-Inv : Inv cleaned
      unfolding cleaned mark_clean
      cleaned-Inv =
          touch-Inv (record p { disk = e })
            (disk-Inv p v e (λ fd. le_of_eq (ap (λ (a : ℕ → ℕ). a fd) (sym same_allocation)))) f
            (record (p.pages f) { is_dirty = false }) refl refl

      cleaned-IsDetached : IsDetached cleaned f
      unfolding cleaned mark_clean
      cleaned-IsDetached = record {
        in_pool = d.in_pool;
        unpinned = ground (arith, d.unpinned);
        not_free = d.not_free;
        not_member = d.not_member;
        owned = ground (arith, d.owned);
      }

      cleaned_rename : Renamed cleaned (rename_frame cleaned f i) f i
      unfolding cleaned mark_clean
      cleaned_rename =
          rename-Renamed cleaned f i cleaned-Inv cleaned-IsDetached absent
            (allocated.0, allocated.1, rw same_allocation allocated.2) (ground arith)

      written-Renamed : needs_write (p.pages f) ≡ true → Renamed p (rename_frame cleaned f i) f i
      unfolding cleaned mark_clean
      written-Renamed dirty = record {
        inv = cleaned_rename.inv;
        leads = cleaned_rename.leads;
        kept = cleaned_rename.kept;
        known = cleaned_rename.known;
        others = λ g other. cleaned_rename.others g other ∙ ground arith;
        named = cleaned_rename.named;
        unpinned = cleaned_rename.unpinned;
        blank = cleaned_rename.blank;
        allocation = cleaned_rename.allocation ∙ same_allocation;
        saved = λ j.
            cleaned_rename.saved j
            ∙ ground
                (arith, read_page-write_page p.disk e (p.pages f).id j (p.pages f).bytes written);
      }

    update_page_clean :
        needs_write (p.pages f) ≡ false → update_page p f i ≡ some (rename_frame p f i)
    unfolding update_page
    update_page_clean clean = rw (clean, update_page)

    update_page_dirty :
        (e : Disk F) (written : write_page p.disk (p.pages f).id (p.pages f).bytes ≡ some e)
        → needs_write (p.pages f) ≡ true
        → update_page p f i ≡ some (rename_frame (cleaned e written) f i)
    unfolding update_page cleaned
    update_page_dirty e written dirty = rw (dirty, update_page, written)

    update_page_fails :
        write_page p.disk (p.pages f).id (p.pages f).bytes ≡ none
        → needs_write (p.pages f) ≡ true
        → update_page p f i ≡ none
    unfolding update_page
    update_page_fails fails dirty = rw (dirty, update_page, fails)

    pub update_page-Renamed : (q : BufferPool R F) → update_page p f i ≡ some q → Renamed p q f i
    update_page-Renamed q h = elim (Bool-cases (needs_write (p.pages f))) [
      | inl dirty ↦ elim (Option-cases (write_page p.disk (p.pages f).id (p.pages f).bytes)) [
        | inl fails ↦ cc (sym h ∙ update_page_fails fails dirty)
        | inr (e, written) ↦
            subst (λ x. Renamed p x f i)
              (some-injective _ _ (sym (update_page_dirty e written dirty) ∙ h))
              (written-Renamed e written dirty)
      ]
      | inr clean ↦
          subst (λ x. Renamed p x f i) (some-injective _ _ (sym (update_page_clean clean) ∙ h))
            (rename-Renamed p f i v d absent allocated clean)
    ]
