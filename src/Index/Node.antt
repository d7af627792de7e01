-- ===== src/Index/Node.antt =====
-- src/index/ix_index_handle.h and ix_index_handle.cpp: a node of the tree, and what happens inside
-- it. The first `num_key` keys and rids of the page are the list of entries; what the page holds
-- after them is not read. An entry of an inner node has its child's page number in the rid.
pub mod Search
pub mod Laws
pub mod Removal
pub mod Updates
use rmdb.Prelude.{
  ℕ, zero, suc, ◌+◌, ◌-◌, ◌/◌, Bool, true, false, not, ◌&&◌, Option, none, some, List, [], ◌∷◌,
  ◌++◌, length, get_elem?, ltb, leb, if◌then◌else◌, ◌==◌,
}
use rmdb.Prelude.Int.{ℤ, pos, negsuc, ◌==ℤ◌}
use rmdb.Transaction.Types.{Rid}
use rmdb.Index.Order.{KeyOrder, is_lt, is_gt, is_eq}

-- The first n, and all but the first n, elements.
abbrev pub take {ℓ} : {A : Type ℓ} → ℕ → List A → List A
take zero xs = []
take (suc n) [] = []
take (suc n) (x ∷ xs) = x ∷ take n xs

abbrev pub drop {ℓ} : {A : Type ℓ} → ℕ → List A → List A
drop zero xs = xs
drop (suc n) [] = []
drop (suc n) (x ∷ xs) = drop n xs

-- `operation` of the tree that a node is visited for.
pub data Operation : Type 0 where
  find insert_op delete_op : Operation

-- The live entries of a node.
abbrev pub Entries : Type 0 → Type 0
Entries K = List (K × Rid)

-- `page_hdr`, with the entries.
pub record Node (K : Type 0) : Type 0 where
  pub parent : ℤ
  pub is_leaf : Bool
  pub prev_leaf : ℤ
  pub next_leaf : ℤ
  pub entries : Entries K

abbrev pub no_page : ℤ
no_page = negsuc 0

abbrev pub get_max_size : ℕ → ℕ
get_max_size btree_order = btree_order + 1

abbrev pub get_min_size : ℕ → ℕ
get_min_size btree_order = get_max_size btree_order / 2

-- The loop of the two searches over `[l, r)`: `stop` says that the key at the middle ends the range.
unfoldable pub bisect : (ℕ → Bool) → ℕ → ℕ → ℕ → ℕ
bisect stop zero l r = l
bisect stop (suc rounds) l r =
    let mid = (l + r) / 2 in
    let rest = bisect stop rounds (if stop mid then l else mid + 1) (if stop mid then mid else r) in
    if ltb l r then rest else l

module _ {K : Type 0} where
  -- A test of the key at a position.
  abbrev pub key_test : (K → Bool) → Entries K → ℕ → Bool
  key_test test entries i = elim (get_elem? entries i) [ none ↦ false | some (k, _) ↦ test k ]

  abbrev pub value_at : Entries K → ℕ → Option ℤ
  value_at entries i = elim (get_elem? entries i) [ none ↦ none | some (_, rid) ↦ some rid.page_no ]

  -- `none` is the thrown `IndexEntryNotFoundError`.
  unfoldable pub insert_pairs : ℕ → Entries K → Entries K → Option (Entries K)
  insert_pairs i pairs entries =
      if ltb (length entries) i then none else some (take i entries ++ (pairs ++ drop i entries))

  unfoldable pub erase_pair : ℕ → Entries K → Option (Entries K)
  erase_pair i entries =
      if ltb i (length entries) then some (take i entries ++ drop (i + 1) entries) else none

  unfoldable pub set_key : ℕ → K → Entries K → Entries K
  set_key i key [] = []
  set_key zero key ((_, rid) ∷ rest) = (key, rid) ∷ rest
  set_key (suc i) key (entry ∷ rest) = entry ∷ set_key i key rest

  -- The index of the child in its parent; the size if it is not there, which the code asserts away.
  unfoldable pub find_child : ℤ → Entries K → ℕ
  find_child page_no [] = 0
  find_child page_no ((_, rid) ∷ rest) =
      if rid.page_no ==ℤ page_no then 0 else find_child page_no rest + 1

  unfoldable pub is_safe : ℕ → Node K → Operation → Bool
  is_safe btree_order node insert_op = ltb (length node.entries + 1) (get_max_size btree_order)
  is_safe btree_order node delete_op =
      ltb (if node.parent ==ℤ no_page then 2 else get_min_size btree_order) (length node.entries)
  is_safe btree_order node find = true

module _ {K : Type 0} (o : KeyOrder K) where
  unfoldable pub lower_bound : Entries K → K → ℕ
  unfolding bisect
  lower_bound entries target =
      bisect (key_test (λ k. not (is_gt (o.compare target k))) entries) (length entries) 0
        (length entries)

  unfoldable pub upper_bound : Entries K → K → ℕ
  unfolding bisect
  upper_bound entries target =
      bisect (key_test (λ k. is_lt (o.compare target k)) entries) (length entries) 0
        (length entries)

  -- Whether the key at the position is there and equal to the target.
  abbrev pub found_at : Entries K → K → ℕ → Bool
  found_at entries target i = key_test (λ k. is_eq (o.compare target k)) entries i

  unfoldable pub leaf_lookup : Entries K → K → Option Rid
  unfolding lower_bound
  leaf_lookup entries target = elim (get_elem? entries (lower_bound entries target)) [
    | none ↦ none
    | some (k, rid) ↦ if is_eq (o.compare target k) then some rid else none
  ]

  unfoldable pub internal_lookup : Entries K → K → Option ℤ
  unfolding upper_bound
  internal_lookup entries target =
      let i = upper_bound entries target in
      if i == 0 then value_at entries 0 else value_at entries (i - 1)

  -- The entries, their number, and where the new one stands: -1 if the key was there.
  unfoldable pub insert : Entries K → K → Rid → Option (Entries K × ℕ × ℤ)
  unfolding lower_bound insert_pairs
  insert entries key value =
      let i = lower_bound entries key in
      if found_at entries key i
      then some (entries, length entries, negsuc 0)
      else elim (insert_pairs i ((key, value) ∷ []) entries) [
        | none ↦ none
        | some more ↦ some (more, length more, pos i)
      ]

  unfoldable pub remove : Entries K → K → Option (Entries K × ℕ × ℕ)
  unfolding lower_bound erase_pair
  remove entries key =
      let i = lower_bound entries key in
      if found_at entries key i
      then elim (erase_pair i entries) [ none ↦ none | some fewer ↦ some (fewer, length fewer, i) ]
      else some (entries, length entries, i)
