-- ===== src/Storage/BufferPool/Delete.antt =====
-- `delete_page`, whose `update_page` enters the deleted page in the page table again.
use rmdb.Prelude.{
  ℕ, ◌≡◌, true, false, none, some, List, [], ◌∷◌, ◌++◌, ◌==◌, inl, inr, contains, arith, Bool-cases,
  Option-cases,
}
use rmdb.Replacer.{Replacer}
use rmdb.Storage.Page.{PageId, page_id_eq_refl}
use rmdb.Storage.Disk.{Files}
use rmdb.Storage.BufferPool.Defs.{BufferPool, ok, io_error, rename_frame, update_page, delete_page}

contains-append : (xs : List ℕ) (f : ℕ) → contains (xs ++ f ∷ []) f ≡ true
contains-append [] f = ground arith
contains-append (x ∷ xs) f = ground (arith, contains-append xs f)

module _ {R : Replacer} {F : Files} where
  update_page-leads :
      (p q : BufferPool R F) (f : ℕ) (i : PageId)
      → update_page p f i ≡ some q
      → q.page_table i ≡ some f
  unfolding update_page rename_frame
  update_page-leads p q f i h = ground (arith, page_id_eq_refl i)

  delete_page_done :
      (p q : BufferPool R F) (i : PageId) (f : ℕ)
      → p.page_table i ≡ some f
      → ((p.pages f).pin_count == 0) ≡ true
      → update_page p f i ≡ some q
      → delete_page p i ≡ (record q { free_list = q.free_list ++ f ∷ [] }, ok true)
  unfolding delete_page
  delete_page_done p q i f held idle e = rw (held, delete_page, idle, e)

  delete_page_fails :
      (p : BufferPool R F) (i : PageId) (f : ℕ)
      → p.page_table i ≡ some f
      → ((p.pages f).pin_count == 0) ≡ true
      → update_page p f i ≡ none
      → delete_page p i ≡ (p, io_error)
  unfolding delete_page
  delete_page_fails p i f held idle e = rw (held, delete_page, idle, e)

  delete_page_refuses :
      (p : BufferPool R F) (i : PageId) (f : ℕ)
      → p.page_table i ≡ some f
      → ((p.pages f).pin_count == 0) ≡ false
      → delete_page p i ≡ (p, ok false)
  unfolding delete_page
  delete_page_refuses p i f held busy = rw (held, delete_page, busy)

  -- After `delete_page` reports that it deleted a page that the page table knew, the page table
  -- still leads to the page's frame, which stands on the free list as well.
  pub delete_page_stale :
      (p : BufferPool R F) (i : PageId) (f : ℕ)
      → p.page_table i ≡ some f
      → (delete_page p i).1 ≡ ok true
      → ((delete_page p i).0.page_table i ≡ some f)
        × (contains (delete_page p i).0.free_list f ≡ true)
  delete_page_stale p i f held deleted = elim (Bool-cases ((p.pages f).pin_count == 0)) [
    | inr busy ↦ cc (delete_page_refuses p i f held busy)
    | inl idle ↦ elim (Option-cases (update_page p f i)) [
      | inl e ↦ cc (delete_page_fails p i f held idle e)
      | inr (q, e) ↦
          rw (delete_page_done p q i f held idle e)
            (update_page-leads p q f i e, contains-append q.free_list f)
    ]
  ]
