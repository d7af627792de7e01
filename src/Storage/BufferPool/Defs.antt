-- ===== src/Storage/BufferPool/Defs.antt =====
-- The buffer pool and its operations, over any replacer and any files.
use rmdb.Prelude.{
  ℕ, suc, zero, ◌+◌, ◌-◌, Bool, true, false, not, ◌&&◌, ◌||◌, Option, none, some, List, [], ◌∷◌,
  ◌++◌, ◌==◌, if◌then◌else◌, update, remove,
}
use rmdb.Prelude.Int.{pos, ◌==ℤ◌}
use rmdb.Replacer.{Replacer}
use rmdb.Storage.Page
use rmdb.Storage.Page.{PageId, Page, invalid_page_id, zero_bytes, page_id_Eq}
use rmdb.Storage.Disk.{Files, Disk, read_page, write_page, allocate_page}

-- The answer of a call that reads or writes the disk. `io_error` is the thrown `InternalError`.
pub data Reply {ℓ} (A : Type ℓ) : Type ℓ where
  ok : A → Reply A
  io_error : Reply A

-- `pages` is the array of frames; a frame number stands for the `Page *` that points at it.
pub record BufferPool (R : Replacer) (F : Files) : Type 0 where
  pub pages : ℕ → Page
  pub page_table : PageId → Option ℕ
  pub free_list : List ℕ
  pub disk : Disk F
  pub replacer : R.State

-- A write to one frame.
abbrev pub set_frame : (ℕ → Page) → ℕ → Page → ℕ → Page
set_frame pages f x g = if f == g then x else pages g

abbrev pub needs_write : Page → Bool
needs_write page = page.is_dirty && not (page.id.page_no ==ℤ invalid_page_id)

-- The frame numbers from 0 up, as the constructor puts them on the free list.
unfoldable pub frames_from : ℕ → ℕ → List ℕ
frames_from i zero = []
frames_from i (suc rounds) = i ∷ frames_from (i + 1) rounds

module _ {R : Replacer} {F : Files} where
  -- The constructor, over the files of the disk manager. `fd` is what the frames' identities hold
  -- before they are set.
  unfoldable pub init : Disk F → (ℕ → ℕ) → BufferPool R F
  unfolding frames_from Page.new_page
  init d fd = record {
    pages = λ f. Page.new_page (fd f);
    page_table = λ _. none;
    free_list = frames_from 0 R.capacity;
    disk = d;
    replacer = R.initial;
  }

  unfoldable pub find_victim_page : BufferPool R F → BufferPool R F × Option ℕ
  find_victim_page p = elim p.free_list [
    | [] ↦ let (r, f) = R.victim p.replacer in (record p { replacer = r }, f)
    | f ∷ rest ↦ (record p { free_list = rest }, some f)
  ]

  -- The frame is given to the new page, with zeros for its bytes.
  unfoldable pub rename_frame : BufferPool R F → ℕ → PageId → BufferPool R F
  rename_frame p f new_page_id = record p {
    page_table = update (remove p.page_table (p.pages f).id) new_page_id f;
    pages = set_frame p.pages f (record (p.pages f) { bytes = zero_bytes; id = new_page_id });
  }

  unfoldable pub mark_clean : BufferPool R F → ℕ → BufferPool R F
  mark_clean p f = record p {
    pages = set_frame p.pages f (record (p.pages f) { is_dirty = false });
  }

  -- A write of a frame's bytes to its page on disk; `none` if the write throws.
  unfoldable pub write_back : BufferPool R F → ℕ → Option (BufferPool R F)
  unfolding mark_clean
  write_back p f = elim (write_page p.disk (p.pages f).id (p.pages f).bytes) [
    | none ↦ none
    | some d ↦ some (mark_clean (record p { disk = d }) f)
  ]

  unfoldable pub update_page : BufferPool R F → ℕ → PageId → Option (BufferPool R F)
  unfolding write_back rename_frame
  update_page p f new_page_id = elim (if needs_write (p.pages f) then write_back p f else some p) [
    | none ↦ none
    | some q ↦ some (rename_frame q f new_page_id)
  ]

  unfoldable pub pin_frame : BufferPool R F → ℕ → ℕ → BufferPool R F
  pin_frame p f count = record p {
    replacer = R.pin p.replacer f;
    pages = set_frame p.pages f (record (p.pages f) { pin_count = count });
  }

  unfoldable pub set_bytes : BufferPool R F → ℕ → List ℕ → BufferPool R F
  set_bytes p f bytes = record p {
    pages = set_frame p.pages f (record (p.pages f) { bytes = bytes });
  }

  unfoldable pub mark_dirty : BufferPool R F → ℕ → BufferPool R F
  mark_dirty p f = record p { pages = set_frame p.pages f (record (p.pages f) { is_dirty = true }) }

  -- The miss of `fetch_page`, from the victim on. What a failed read leaves in the frame's bytes
  -- is not modelled: they stay zero.
  unfoldable pub load_page : BufferPool R F → ℕ → PageId → BufferPool R F × Reply (Option ℕ)
  unfolding update_page pin_frame set_bytes
  load_page p f page_id = elim (update_page p f page_id) [
    | none ↦ (p, io_error)
    | some q ↦ elim (read_page q.disk page_id) [
      | none ↦ (q, io_error)
      | some bytes ↦ (pin_frame (set_bytes q f bytes) f ((q.pages f).pin_count + 1), ok (some f))
    ]
  ]

  unfoldable pub fetch_page : BufferPool R F → PageId → BufferPool R F × Reply (Option ℕ)
  unfolding find_victim_page load_page pin_frame
  fetch_page p page_id = elim (p.page_table page_id) [
    | some f ↦ (pin_frame p f ((p.pages f).pin_count + 1), ok (some f))
    | none ↦
        let (q, victim) = find_victim_page p in
        elim victim [ none ↦ (q, ok none) | some f ↦ load_page q f page_id ]
  ]

  unfoldable pub unpin_frame : BufferPool R F → ℕ → Bool → BufferPool R F
  unpin_frame p f is_dirty = record p {
    pages = set_frame p.pages f (record (p.pages f) {
      pin_count = (p.pages f).pin_count - 1;
      is_dirty = (p.pages f).is_dirty || is_dirty;
    });
    replacer = if (p.pages f).pin_count == 1 then R.unpin p.replacer f else p.replacer;
  }

  unfoldable pub unpin_page : BufferPool R F → PageId → Bool → BufferPool R F × Bool
  unfolding unpin_frame
  unpin_page p page_id is_dirty = elim (p.page_table page_id) [
    | none ↦ (p, false)
    | some f ↦ if (p.pages f).pin_count == 0 then (p, false) else (unpin_frame p f is_dirty, true)
  ]

  -- The page is written under the identity that is asked for.
  unfoldable pub flush_frame : BufferPool R F → ℕ → PageId → BufferPool R F × Reply Bool
  unfolding mark_clean
  flush_frame p f page_id = elim (write_page p.disk page_id (p.pages f).bytes) [
    | none ↦ (p, io_error)
    | some d ↦ (mark_clean (record p { disk = d }) f, ok true)
  ]

  unfoldable pub flush_page : BufferPool R F → PageId → BufferPool R F × Reply Bool
  unfolding flush_frame
  flush_page p page_id = elim (p.page_table page_id) [
    | none ↦ (p, ok false)
    | some f ↦
        if page_id.page_no ==ℤ invalid_page_id then (p, ok false) else flush_frame p f page_id
  ]

  -- The victim's frame under a page number that is allocated for it.
  unfoldable pub fresh_page : BufferPool R F → ℕ → ℕ → BufferPool R F × Reply (Option (PageId × ℕ))
  unfolding update_page pin_frame
  fresh_page p f fd =
      let (d, n) = allocate_page p.disk fd in
      let page_id : PageId = record { fd = fd; page_no = pos n } in
      elim (update_page (record p { disk = d }) f page_id) [
        | none ↦ (record p { disk = d }, io_error)
        | some q ↦ (pin_frame q f 1, ok (some (page_id, f)))
      ]

  -- `new_page` takes the file from the identity that it is handed, and answers the new identity.
  unfoldable pub new_page : BufferPool R F → ℕ → BufferPool R F × Reply (Option (PageId × ℕ))
  unfolding find_victim_page fresh_page
  new_page p fd =
      let (q, victim) = find_victim_page p in
      elim victim [ none ↦ (q, ok none) | some f ↦ fresh_page q f fd ]

  -- `deallocate_page` does nothing, and the identity that is made invalid is the local copy.
  unfoldable pub delete_page : BufferPool R F → PageId → BufferPool R F × Reply Bool
  unfolding update_page
  delete_page p page_id = elim (p.page_table page_id) [
    | none ↦ (p, ok true)
    | some f ↦
        if not ((p.pages f).pin_count == 0) then (p, ok false) else elim (update_page p f page_id) [
          | none ↦ (p, io_error)
          | some q ↦ (record q { free_list = q.free_list ++ f ∷ [] }, ok true)
        ]
  ]

  -- The loop of `flush_all_pages` over the frames from `i`, with the frames that are left.
  unfoldable pub flush_from : ℕ → ℕ → BufferPool R F → ℕ → BufferPool R F × Reply (Unit {0})
  unfolding write_back
  flush_from zero i p fd = (p, ok tt)
  flush_from (suc rounds) i p fd =
      elim (if (fd == (p.pages i).id.fd) && not ((p.pages i).id.page_no ==ℤ invalid_page_id)
        then write_back p i
        else some p) [ none ↦ (p, io_error) | some q ↦ flush_from rounds (i + 1) q fd ]

  -- The final `fsync` changes nothing that the model sees.
  unfoldable pub flush_all_pages : BufferPool R F → ℕ → BufferPool R F × Reply (Unit {0})
  unfolding flush_from
  flush_all_pages p fd = flush_from R.capacity 0 p fd
