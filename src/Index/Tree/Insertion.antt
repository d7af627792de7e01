-- ===== src/Index/Tree/Insertion.antt =====
-- src/index/ix_index_handle.cpp: `split`, `insert_into_parent` and `insert_entry`.
use rmdb.Prelude.{
  ℕ, zero, suc, ◌+◌, Bool, true, false, Option, none, some, [], ◌∷◌, length, if◌then◌else◌, ◌==◌,
  get_elem?, ◌>>=◌,
}
use rmdb.Prelude.Int.{ℤ, pos, negsuc, ◌==ℤ◌}
use rmdb.Transaction.Types.{Rid}
use rmdb.Index.Order.{KeyOrder}
use rmdb.Index.Node.{
  Node, no_page, take, drop, get_max_size, get_min_size, insert_pairs, insert, lower_bound,
  found_at, find_child,
}
use rmdb.Index.Tree.{
  IndexHandle, fetch_node, write_node, create_node, maintain_children, find_leaf_page,
  maintain_parent,
}

module _ {K : Type 0} where
  -- The new leaf between a leaf and the one after it.
  unfoldable pub link_sibling : IndexHandle K → ℤ → ℤ → Option (IndexHandle K)
  unfolding fetch_node write_node
  link_sibling h page new_page = do
    node ← fetch_node h page
    sibling ← fetch_node h new_page
    let linked =
        write_node h new_page (record sibling { prev_leaf = page; next_leaf = node.next_leaf })
    let left = write_node linked page (record node { next_leaf = new_page })
    next ← fetch_node left node.next_leaf
    some (write_node left node.next_leaf (record next { prev_leaf = new_page }))

  -- The upper half of the entries to the new node.
  unfoldable pub move_upper_half : IndexHandle K → ℤ → ℤ → Option (IndexHandle K)
  unfolding fetch_node write_node insert_pairs
  move_upper_half h page new_page = do
    node ← fetch_node h page
    sibling ← fetch_node h new_page
    let split_point = get_min_size h.btree_order
    upper ← insert_pairs 0 (drop split_point node.entries) []
    let filled =
        write_node h new_page
          (record sibling { parent = node.parent; is_leaf = node.is_leaf; entries = upper })
    some (write_node filled page (record node { entries = take split_point node.entries }))

  -- The page of the new right sibling.
  unfoldable pub split : IndexHandle K → ℤ → Option (IndexHandle K × ℤ)
  unfolding fetch_node create_node link_sibling move_upper_half maintain_children
  split h page = do
    let created = create_node h
    node ← fetch_node created.0 page
    linked ← if node.is_leaf then link_sibling created.0 page created.1 else some created.0
    moved ← move_upper_half linked page created.1
    sibling ← fetch_node moved created.1
    settled ←
        (if sibling.is_leaf
          then some moved
          else maintain_children (length sibling.entries) 0 moved created.1)
    some (settled, created.1)

  -- An inner node's entry for a child.
  abbrev pub child_entry : K → ℤ → K × Rid
  child_entry key page = (key, record { page_no = page; slot_no = negsuc 0 })

  unfoldable pub new_root : IndexHandle K → ℤ → K → ℤ → Option (IndexHandle K)
  unfolding fetch_node write_node create_node insert_pairs
  new_root h old_page key new_page = do
    let created = create_node h
    old ← fetch_node created.0 old_page
    new ← fetch_node created.0 new_page
    first ← get_elem? old.entries 0
    one ← insert_pairs 0 (child_entry first.0 old_page ∷ []) []
    both ← insert_pairs 1 (child_entry key new_page ∷ []) one
    let root : Node K = record {
      parent = no_page;
      is_leaf = false;
      prev_leaf = no_page;
      next_leaf = no_page;
      entries = both;
    }
    let rooted = write_node created.0 created.1 root
    let left = write_node rooted old_page (record old { parent = created.1 })
    let right = write_node left new_page (record new { parent = created.1 })
    some (record right { root_page = created.1 })

  -- `fuel` bounds the levels above the node.
  unfoldable pub insert_into_parent : ℕ → IndexHandle K → ℤ → K → ℤ → Option (IndexHandle K)
  unfolding fetch_node write_node insert_pairs find_child split new_root
  insert_into_parent zero h old_page key new_page = none
  insert_into_parent (suc fuel) h old_page key new_page = do
    old ← fetch_node h old_page
    let rest = insert_into_parent fuel
    elim (old.parent ==ℤ no_page) [
      | true ↦ new_root h old_page key new_page
      | false ↦ do
        parent ← fetch_node h old.parent
        more ←
            insert_pairs (find_child old_page parent.entries + 1) (child_entry key new_page ∷ [])
              parent.entries
        let inserted = write_node h old.parent (record parent { entries = more })
        elim (length more == get_max_size h.btree_order) [
          | false ↦ some inserted
          | true ↦ do
            halves ← split inserted old.parent
            sibling ← fetch_node (halves.0) (halves.1)
            first ← get_elem? sibling.entries 0
            rest (halves.0) old.parent (first.0) (halves.1)
        ]
    ]

module _ {K : Type 0} (o : KeyOrder K) where
  -- The part of `insert_entry` for a full leaf.
  unfoldable pub split_leaf : ℕ → IndexHandle K → ℤ → K → Option (IndexHandle K × ℤ)
  unfolding fetch_node split insert_into_parent lower_bound
  split_leaf fuel h page key = do
    halves ← split h page
    sibling ← fetch_node (halves.0) (halves.1)
    first ← get_elem? sibling.entries 0
    let counted =
        if page ==ℤ h.last_leaf then record halves.0 { last_leaf = halves.1 } else halves.0
    above ← insert_into_parent fuel counted page (first.0) (halves.1)
    right ← fetch_node above (halves.1)
    some (
      above,
      if found_at o right.entries key (lower_bound o right.entries key) then halves.1 else page,
    )

module _ {K : Type 0} (o : KeyOrder K) (same_bytes : K → K → Bool) where
  -- The page of the leaf with the new entry; `no_page` if the key was there.
  unfoldable pub insert_entry : ℕ → IndexHandle K → K → Rid → Option (IndexHandle K × ℤ)
  unfolding fetch_node write_node find_leaf_page insert maintain_parent split_leaf
  insert_entry fuel h key value = do
    page ← find_leaf_page o fuel h key false
    leaf ← fetch_node h page
    inserted ← insert o leaf.entries key value
    let written = write_node h page (record leaf { entries = inserted.0 })
    if inserted.1 == length leaf.entries then some (written, no_page) else (do
      settled ←
          if inserted.2 ==ℤ pos 0
          then maintain_parent same_bytes fuel written page
          else some written
      if inserted.1 == get_max_size h.btree_order
          then split_leaf o fuel settled page key
          else some (settled, page))
