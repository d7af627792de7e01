-- ===== src/Storage/BufferPool/Invariant.antt =====
-- What every call of the buffer pool keeps, and the state between the choice of a victim and its
-- new use.
use mathlib.Core.Option.{some-injective}
use mathlib.Core.Bool.{false≢true}
use rmdb.Prelude.{
  List-cases, subst, ℕ, ◌<◌, ◌≡◌, ◌⊎◌, inl, inr, refl, sym, ◌∙◌, true, false, Option, none, some,
  List, ◌∷◌, contains, IsDistinct, arith, Bool-cases,
}
use rmdb.Prelude.Int.{pos}
use rmdb.Replacer.{Replacer, Evicts}
use rmdb.Storage.Page.{PageId, invalid_page_id, page_id_Eq}
use rmdb.Storage.Disk.{Files, Disk}
use rmdb.Storage.BufferPool.Defs.{BufferPool, find_victim_page}

-- A page number that the disk manager has handed out.
abbrev pub IsAllocated : {F : Files} → Disk F → PageId → Type 0
IsAllocated d i = (n : ℕ) × (i.page_no ≡ pos n) × (n < d.fd2pageno i.fd)

module _ {R : Replacer} {F : Files} where
  pub record Inv (p : BufferPool R F) : Type 0 where
    pub valid : R.IsValid p.replacer
    -- The page table leads to frames that hold the page, and knows allocated pages only.
    pub mapped :
        (i : PageId) (f : ℕ)
        → p.page_table i ≡ some f
        → (f < R.capacity) × ((p.pages f).id ≡ i) × IsAllocated p.disk i
    -- A free frame is unpinned, holds no page, and is not in the replacer.
    pub free :
        (f : ℕ)
        → contains p.free_list f ≡ true
        → (f < R.capacity)
          × ((p.pages f).pin_count ≡ 0)
          × ((p.pages f).id.page_no ≡ invalid_page_id)
          × (R.members p.replacer f ≡ false)
    pub distinct : IsDistinct p.free_list
    -- A frame that may be evicted is unpinned, and the page table leads to it.
    pub evictable :
        (f : ℕ)
        → R.members p.replacer f ≡ true
        → (f < R.capacity) × ((p.pages f).pin_count ≡ 0) × (p.page_table (p.pages f).id ≡ some f)

  -- A frame that was taken off the free list or out of the replacer, and has no new page yet.
  pub record IsDetached (p : BufferPool R F) (f : ℕ) : Type 0 where
    pub in_pool : f < R.capacity
    pub unpinned : (p.pages f).pin_count ≡ 0
    pub not_free : contains p.free_list f ≡ false
    pub not_member : R.members p.replacer f ≡ false
    pub owned : ((p.pages f).id.page_no ≡ invalid_page_id) ⊎ (p.page_table (p.pages f).id ≡ some f)

  -- The answer of `find_victim_page`: the rest of the pool is as before.
  abbrev pub Detaches : BufferPool R F → BufferPool R F × Option ℕ → Type 0
  Detaches p (q, r) =
      Inv q
      × (q.pages ≡ p.pages)
      × (q.page_table ≡ p.page_table)
      × (q.disk ≡ p.disk)
      × ((f : ℕ) → r ≡ some f → IsDetached q f)

  pop_free :
      (p : BufferPool R F) (f : ℕ) (rest : List ℕ)
      → Inv p
      → p.free_list ≡ f ∷ rest
      → Inv (record p { free_list = rest }) × IsDetached (record p { free_list = rest }) f
  pop_free p f rest v e = (
    record {
      valid = v.valid;
      mapped = v.mapped;
      free = λ g h. v.free g (rw e (ground arith));
      distinct = d.1;
      evictable = v.evictable;
    },
    record {
      in_pool = freed.0;
      unpinned = freed.1;
      not_free = d.0;
      not_member = freed.3;
      owned = inl freed.2;
    },
  )
    where
      d : IsDistinct (f ∷ rest)
      d = rw e at v.distinct

      freed :
          (f < R.capacity)
          × ((p.pages f).pin_count ≡ 0)
          × ((p.pages f).id.page_no ≡ invalid_page_id)
          × (R.members p.replacer f ≡ false)
      freed = v.free f (rw e (ground arith))

  evict :
      (p : BufferPool R F) (r : R.State) (a : Option ℕ)
      → Inv p
      → R.IsValid r
      → Evicts (R.members p.replacer) (R.members r) a
      → Inv (record p { replacer = r })
        × ((f : ℕ) → a ≡ some f → IsDetached (record p { replacer = r }) f)
  evict p r none v w l = (
    record {
      valid = w;
      mapped = v.mapped;
      free = λ g h. ((v.free g h).0, (v.free g h).1, (v.free g h).2, (l g).1);
      distinct = v.distinct;
      evictable = λ g h. absurd (false≢true (sym (l g).1 ∙ h));
    },
    λ f e. cc,
  )
  evict p r (some f) v w l =
      (kept, λ g e. subst (IsDetached (record p { replacer = r })) (some-injective f g e) detached)
    where
      stays : (g : ℕ) → R.members r g ≡ true → (R.members p.replacer g ≡ true)
      stays g h = ground (arith, l.1 g)

      kept : Inv (record p { replacer = r })
      kept = record {
        valid = w;
        mapped = v.mapped;
        free = λ g h.
            ((v.free g h).0, (v.free g h).1, (v.free g h).2, ground (arith, l.1 g, (v.free g h).3));
        distinct = v.distinct;
        evictable = λ g h. v.evictable g (stays g h);
      }

      not_free' : contains p.free_list f ≡ false
      not_free' = elim (Bool-cases (contains p.free_list f)) [
        | inl h ↦ absurd (false≢true (sym (v.free f h).3 ∙ l.0))
        | inr h ↦ h
      ]

      detached : IsDetached (record p { replacer = r }) f
      detached = record {
        in_pool = (v.evictable f l.0).0;
        unpinned = (v.evictable f l.0).1;
        not_free = not_free';
        not_member = ground (arith, l.1 f);
        owned = inr (v.evictable f l.0).2;
      }

  pub find_victim_page-Detaches : (p : BufferPool R F) → Inv p → Detaches p (find_victim_page p)
  unfolding find_victim_page
  find_victim_page-Detaches p v = elim (List-cases p.free_list) [
    | inl e ↦
        let (w, d) =
          evict p (R.victim p.replacer).0 (R.victim p.replacer).1 v
            (R.victim-IsValid p.replacer v.valid) (R.victim-Evicts p.replacer v.valid) in
        rw (e, find_victim_page) (w, refl, refl, refl, d)
    | inr (f, rest, e) ↦
        let (w, d) = pop_free p f rest v e in
        rw (e, find_victim_page)
          (
            w,
            refl,
            refl,
            refl,
            λ g h. subst (IsDetached (record p { free_list = rest })) (some-injective f g h) d,
          )
  ]
