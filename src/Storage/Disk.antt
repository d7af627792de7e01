-- ===== src/Storage/Disk.antt =====
-- src/storage/disk_manager.cpp: page reads and writes, and the allocation of page numbers.
use rmdb.Prelude.{
  ℕ, ◌+◌, ◌≡◌, Option, none, some, List, ◌==◌, if◌then◌else◌, Option-cases, inl, inr, arith,
}
use rmdb.Storage.Page.{PageId, page_id_eq}

-- The operating system's files: `pread` and `pwrite` of a whole page at its offset. `none` is a
-- short count. A page that was written reads back, and other pages are left alone.
pub record Files : Type 1 where
  pub State : Type 0
  pub pread : State → PageId → Option (List ℕ)
  pub pwrite : State → PageId → List ℕ → Option State
  pub pread-pwrite :
      (s t : State) (i j : PageId) (bytes : List ℕ)
      → pwrite s i bytes ≡ some t
      → pread t j ≡ (if page_id_eq i j then some bytes else pread s j)

module _ (F : Files) where
  -- The members of `DiskManager` that page traffic uses: the files, and fd2pageno_.
  pub record Disk : Type 0 where
    pub files : F.State
    pub fd2pageno : ℕ → ℕ

module _ {F : Files} where
  -- `none` is the thrown `InternalError`.
  unfoldable pub read_page : Disk F → PageId → Option (List ℕ)
  read_page d i = F.pread d.files i

  unfoldable pub write_page : Disk F → PageId → List ℕ → Option (Disk F)
  write_page d i bytes = elim (F.pwrite d.files i bytes) [
    | none ↦ none
    | some s ↦ some (record d { files = s })
  ]

  unfoldable pub set_fd2pageno : Disk F → ℕ → ℕ → Disk F
  set_fd2pageno d fd start = record d { fd2pageno = λ g. if fd == g then start else d.fd2pageno g }

  -- The next page number of the file, which is then counted up.
  unfoldable pub allocate_page : Disk F → ℕ → Disk F × ℕ
  unfolding set_fd2pageno
  allocate_page d fd = (set_fd2pageno d fd (d.fd2pageno fd + 1), d.fd2pageno fd)

  pub read_page-write_page :
      (d e : Disk F) (i j : PageId) (bytes : List ℕ)
      → write_page d i bytes ≡ some e
      → read_page e j ≡ (if page_id_eq i j then some bytes else read_page d j)
  unfolding write_page read_page
  read_page-write_page d e i j bytes h = elim (Option-cases (F.pwrite d.files i bytes)) [
    | inl short ↦ absurd (ground arith)
    | inr (s, written) ↦
        let same : e.files ≡ s = ground arith in
        rw same (F.pread-pwrite d.files s i j bytes written)
  ]

  pub write_page-fd2pageno :
      (d e : Disk F) (i : PageId) (bytes : List ℕ)
      → write_page d i bytes ≡ some e
      → e.fd2pageno ≡ d.fd2pageno
  unfolding write_page
  write_page-fd2pageno d e i bytes h = elim (Option-cases (F.pwrite d.files i bytes)) [
    | inl short ↦ absurd (ground arith)
    | inr (s, written) ↦ ground arith
  ]
