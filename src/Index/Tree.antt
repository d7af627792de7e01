-- ===== src/Index/Tree.antt =====
-- src/index/ix_index_handle.cpp: the tree as pages that hold nodes, and the descent to a leaf. A
-- handle of a node is its page number, so that two handles of one page see the same node.
pub mod Insertion
pub mod Deletion
pub mod Scan
pub mod Shape
pub mod Halves
pub mod Growth
pub mod RootLeaf
pub mod FirstSplit
pub mod Emptied
use rmdb.Prelude.{
  ℕ, zero, suc, ◌+◌, ◌≡◌, refl, Bool, true, false, not, Option, none, some, List, [], ◌∷◌, length,
  ltb, if◌then◌else◌, ◌==◌, get_elem?, Eq, nat_eq, update, ◌>>=◌,
}
use rmdb.Prelude.Int.{ℤ, pos, negsuc, ltb_ℤ, ◌==ℤ◌}
use rmdb.Transaction.Types.{Rid}
use rmdb.Index.Order.{KeyOrder, is_eq}
use rmdb.Index.Node.{
  Node, Entries, Operation, no_page, value_at, internal_lookup, leaf_lookup, lower_bound, found_at,
  find_child, set_key,
}

-- The pages of the index's file, the next page number that the disk manager gives out, the members
-- of `file_hdr_` that operations use, and the transaction's set of deleted index pages.
pub record IndexHandle (K : Type 0) : Type 0 where
  pub nodes : ℕ → Option (Node K)
  pub next_page : ℕ
  pub root_page : ℤ
  pub num_pages : ℤ
  pub first_leaf : ℤ
  pub last_leaf : ℤ
  pub btree_order : ℕ
  pub deleted_pages : List ℤ

abbrev pub leaf_header_page : ℤ
leaf_header_page = pos 1

abbrev pub init_root_page : ℤ
init_root_page = pos 2

-- One less.
abbrev pub pred : ℤ → ℤ
pred (pos zero) = negsuc 0
pred (pos (suc n)) = pos n
pred (negsuc n) = negsuc (suc n)

module _ {K : Type 0} where
  -- `none` is the thrown `runtime_error`.
  unfoldable pub fetch_node : IndexHandle K → ℤ → Option (Node K)
  fetch_node h (pos p) = h.nodes p
  fetch_node h (negsuc n) = none

  -- What is written through the handle of a page.
  unfoldable pub write_node : IndexHandle K → ℤ → Node K → IndexHandle K
  write_node h (pos p) node = record h { nodes = update h.nodes p node }
  write_node h (negsuc n) node = h

  abbrev pub zeroed : Node K
  zeroed = record {
    parent = pos 0;
    is_leaf = false;
    prev_leaf = pos 0;
    next_leaf = pos 0;
    entries = [];
  }

  unfoldable pub create_node : IndexHandle K → IndexHandle K × ℤ
  unfolding write_node
  create_node h =
      let numbered = record h {
        next_page = h.next_page + 1;
        num_pages =
            if ltb_ℤ h.num_pages (pos (h.next_page + 1))
            then pos (h.next_page + 1)
            else h.num_pages;
      } in
      (write_node numbered (pos h.next_page) zeroed, pos h.next_page)

  unfoldable pub release_node_handle : IndexHandle K → IndexHandle K
  release_node_handle h = record h { num_pages = pred h.num_pages }

  unfoldable pub maintain_child : IndexHandle K → ℤ → ℕ → Option (IndexHandle K)
  unfolding fetch_node write_node
  maintain_child h page child_idx = do
    node ← fetch_node h page
    if node.is_leaf then some h else (do
      child_page ← value_at node.entries child_idx
      child ← fetch_node h child_page
      some (write_node h child_page (record child { parent = page })))

  -- `maintain_child` for the positions from the given one on.
  unfoldable pub maintain_children : ℕ → ℕ → IndexHandle K → ℤ → Option (IndexHandle K)
  unfolding maintain_child
  maintain_children zero i h page = some h
  maintain_children (suc n) i h page = do
    moved ← maintain_child h page i
    maintain_children n (i + 1) moved page

module _ {K : Type 0} (o : KeyOrder K) where
  -- The loop goes down one level each round; `fuel` bounds the levels.
  unfoldable pub descend : ℕ → IndexHandle K → K → Bool → ℤ → Option ℤ
  unfolding fetch_node internal_lookup
  descend zero h key find_first page = none
  descend (suc fuel) h key find_first page = do
    node ← fetch_node h page
    let rest = descend fuel h key find_first
    elim node.is_leaf [
      | true ↦ some page
      | false ↦
          (if find_first then value_at node.entries 0 else internal_lookup o node.entries key)
          >>= rest
    ]

  unfoldable pub find_leaf_page : ℕ → IndexHandle K → K → Bool → Option ℤ
  unfolding descend
  find_leaf_page fuel h key find_first = descend fuel h key find_first h.root_page

  -- `some none` is the answer that the key is not there.
  unfoldable pub get_value : ℕ → IndexHandle K → K → Option (Option Rid)
  unfolding find_leaf_page fetch_node leaf_lookup
  get_value fuel h key = do
    page ← find_leaf_page fuel h key false
    leaf ← fetch_node h page
    some (leaf_lookup o leaf.entries key)

  -- Whether the key is new, and the rid that it has where it is not.
  unfoldable pub is_unique : ℕ → IndexHandle K → K → Option (Bool × Option Rid)
  unfolding find_leaf_page fetch_node lower_bound
  is_unique fuel h key = do
    page ← find_leaf_page fuel h key false
    leaf ← fetch_node h page
    some (elim (get_elem? leaf.entries (lower_bound o leaf.entries key)) [
      | none ↦ (true, none)
      | some (k, rid) ↦ if not (is_eq (o.compare key k)) then (true, none) else (false, some rid)
    ])

module _ {K : Type 0} (same_bytes : K → K → Bool) where
  -- The loop from a node towards the root. It ends where the parent has the key already.
  unfoldable pub maintain_parent_from : ℕ → IndexHandle K → ℤ → Option (IndexHandle K)
  unfolding fetch_node write_node find_child
  maintain_parent_from zero h page = none
  maintain_parent_from (suc fuel) h page = do
    curr ← fetch_node h page
    let rest = maintain_parent_from fuel
    elim (curr.parent ==ℤ no_page) [
      | true ↦ some h
      | false ↦ do
        parent ← fetch_node h curr.parent
        let rank = find_child page parent.entries
        elim (get_elem? parent.entries rank) [
          | none ↦ some h
          | some (parent_key, _) ↦ elim (get_elem? curr.entries 0) [
            | none ↦ none
            | some (child_key, _) ↦ elim (same_bytes parent_key child_key) [
              | true ↦ some h
              | false ↦
                  rest
                    (write_node h curr.parent
                      (record parent { entries = set_key rank child_key parent.entries }))
                    curr.parent
            ]
          ]
        ]
    ]

  unfoldable pub maintain_parent : ℕ → IndexHandle K → ℤ → Option (IndexHandle K)
  unfolding fetch_node maintain_parent_from
  maintain_parent fuel h page = do
    node ← fetch_node h page
    if length node.entries == 0 then some h else maintain_parent_from fuel h page

-- The file that `create_index` of ix_manager.h writes: the head of the ring of leaves and an empty root.
unfoldable pub create_index : {K : Type 0} → ℕ → IndexHandle K
unfolding write_node
create_index {K} btree_order =
    let no_nodes : IndexHandle K = record {
      nodes = λ _. none;
      next_page = 3;
      root_page = init_root_page;
      num_pages = pos 3;
      first_leaf = init_root_page;
      last_leaf = init_root_page;
      btree_order = btree_order;
      deleted_pages = [];
    } in
    let head : Node K = record {
      parent = no_page;
      is_leaf = true;
      prev_leaf = init_root_page;
      next_leaf = init_root_page;
      entries = [];
    } in
    let root : Node K = record {
      parent = no_page;
      is_leaf = true;
      prev_leaf = leaf_header_page;
      next_leaf = leaf_header_page;
      entries = [];
    } in
    write_node (write_node no_nodes leaf_header_page head) init_root_page root
