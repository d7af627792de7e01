-- ===== src/Storage/Page.antt =====
-- src/storage/page.h: page identities and pages.
use rmdb.Prelude.{
  ℕ, ◌≡◌, ◌↔◌, refl, Bool, true, false, ◌&&◌, ◌||◌, List, replicate, ◌==◌, ltb, Eq, arith,
}
use rmdb.Prelude.Int.{ℤ, negsuc, ◌==ℤ◌, ==ℤ_iff, ltb_ℤ}

pub record PageId : Type 0 where
  pub fd : ℕ
  pub page_no : ℤ

abbrev pub invalid_page_id : ℤ
invalid_page_id = negsuc 0

abbrev pub page_size : ℕ
page_size = 4096

-- `operator==`.
unfoldable pub page_id_eq : PageId → PageId → Bool
page_id_eq x y = x.fd == y.fd && x.page_no ==ℤ y.page_no

pub page_id_eq_iff : (x y : PageId) → (page_id_eq x y ≡ true) ↔ (x ≡ y)
unfolding page_id_eq
page_id_eq_iff x y = ground (arith, ==ℤ_iff x.page_no y.page_no)

pub page_id_eq_refl : (x : PageId) → page_id_eq x x ≡ true
page_id_eq_refl x = (page_id_eq_iff x x).1 refl

instance abbrev pub page_id_Eq : Eq PageId
page_id_Eq = record { beq = page_id_eq; beq_iff = page_id_eq_iff }

-- `operator<`.
unfoldable pub page_id_lt : PageId → PageId → Bool
page_id_lt x y = ltb x.fd y.fd || ltb_ℤ x.page_no y.page_no

pub record Page : Type 0 where
  pub id : PageId
  pub bytes : List ℕ
  pub is_dirty : Bool
  pub pin_count : ℕ

-- The bytes after `reset_memory`.
unfoldable pub zero_bytes : List ℕ
zero_bytes = replicate page_size 0

-- `Page()`: the file descriptor of a fresh page is not initialised.
unfoldable pub new_page : ℕ → Page
new_page fd = record {
  id = record { fd = fd; page_no = invalid_page_id };
  bytes = zero_bytes;
  is_dirty = false;
  pin_count = 0;
}

-- `operator<` is no order on page identities: of two pages, the one with the smaller file and the
-- larger page number comes before the other, and the other before it.
pub page_id_lt_cyclic :
    (f g : ℕ) (m n : ℤ)
    → ltb f g ≡ true
    → ltb_ℤ n m ≡ true
    → let x : PageId = record { fd = f; page_no = m } in
      let y : PageId = record { fd = g; page_no = n } in
      (page_id_lt x y ≡ true) × (page_id_lt y x ≡ true)
unfolding page_id_lt
page_id_lt_cyclic f g m n h k = ground arith
