-- ===== src/Index/Tree/Deletion.antt =====
-- src/index/ix_index_handle.cpp: `adjust_root`, `redistribute`, `erase_leaf`, `coalesce`,
-- `coalesce_or_redistribute` and `delete_entry`. The transaction is there, and notes deleted pages.
use rmdb.Prelude.{
  ℕ, zero, suc, ◌+◌, ◌-◌, ◌*◌, Bool, true, false, not, ◌&&◌, ◌||◌, Option, none, some, [], ◌∷◌,
  length, ltb, leb, if◌then◌else◌, ◌==◌, get_elem?, ◌>>=◌,
}
use rmdb.Prelude.Int.{ℤ, ◌==ℤ◌}
use rmdb.Index.Order.{KeyOrder}
use rmdb.Index.Node.{
  Node, no_page, value_at, get_min_size, insert_pairs, erase_pair, remove, find_child, set_key,
}
use rmdb.Index.Tree.{
  IndexHandle, init_root_page, fetch_node, write_node, release_node_handle, maintain_child,
  maintain_children, find_leaf_page, maintain_parent,
}

module _ {K : Type 0} where
  -- The state of a tree whose root has no entry left.
  unfoldable pub reset_root : IndexHandle K → IndexHandle K
  reset_root h = record h { root_page = init_root_page; first_leaf = no_page; last_leaf = no_page }

  -- The root's only child becomes the root.
  unfoldable pub lower_root : IndexHandle K → ℤ → Node K → Option (IndexHandle K)
  unfolding fetch_node write_node erase_pair release_node_handle
  lower_root h page node = do
    child_page ← value_at node.entries 0
    rest ← erase_pair 0 node.entries
    let emptied = write_node h page (record node { entries = rest })
    let rooted = record emptied { root_page = child_page }
    child ← fetch_node rooted child_page
    some (release_node_handle (write_node rooted child_page (record child { parent = no_page })))

  -- Whether the old root should be deleted.
  unfoldable pub adjust_root : IndexHandle K → ℤ → Option (IndexHandle K × Bool)
  unfolding fetch_node reset_root lower_root
  adjust_root h page = do
    node ← fetch_node h page
    if length node.entries == 0
        then some (reset_root h, true)
        else (if not node.is_leaf && (length node.entries == 1)
            then (lower_root h page node >>= λ lowered. some (lowered, true))
            else some (h, false))

  -- The neighbour on the right gives its first entry.
  unfoldable pub take_first :
      IndexHandle K → (neighbor_page page parent_page : ℤ) → ℕ → Option (IndexHandle K)
  unfolding fetch_node write_node insert_pairs erase_pair set_key maintain_child
  take_first h neighbor_page page parent_page index = do
    neighbor ← fetch_node h neighbor_page
    node ← fetch_node h page
    given ← get_elem? neighbor.entries 0
    more ← insert_pairs (length node.entries) (given ∷ []) node.entries
    fewer ← erase_pair 0 neighbor.entries
    let filled = write_node h page (record node { entries = more })
    let emptied = write_node filled neighbor_page (record neighbor { entries = fewer })
    parent ← fetch_node emptied parent_page
    first ← get_elem? fewer 0
    let keyed =
        write_node emptied parent_page
          (record parent { entries = set_key (index + 1) first.0 parent.entries })
    if node.is_leaf then some keyed else maintain_child keyed page (length more - 1)

  -- The neighbour on the left gives its last entry.
  unfoldable pub take_last :
      IndexHandle K → (neighbor_page page parent_page : ℤ) → ℕ → Option (IndexHandle K)
  unfolding fetch_node write_node insert_pairs erase_pair set_key maintain_child
  take_last h neighbor_page page parent_page index = do
    neighbor ← fetch_node h neighbor_page
    node ← fetch_node h page
    given ← get_elem? neighbor.entries (length neighbor.entries - 1)
    more ← insert_pairs 0 (given ∷ []) node.entries
    fewer ← erase_pair (length neighbor.entries - 1) neighbor.entries
    let filled = write_node h page (record node { entries = more })
    let emptied = write_node filled neighbor_page (record neighbor { entries = fewer })
    parent ← fetch_node emptied parent_page
    let keyed =
        write_node emptied parent_page
          (record parent { entries = set_key index given.0 parent.entries })
    maintain_child keyed page 0

  unfoldable pub redistribute :
      IndexHandle K → (neighbor_page page parent_page : ℤ) → ℕ → Option (IndexHandle K)
  unfolding take_first take_last
  redistribute h neighbor_page page parent_page index =
      if index == 0
      then take_first h neighbor_page page parent_page index
      else take_last h neighbor_page page parent_page index

  -- The neighbours of a leaf are linked to one another.
  unfoldable pub erase_leaf : IndexHandle K → ℤ → Option (IndexHandle K)
  unfolding fetch_node write_node
  erase_leaf h page = do
    leaf ← fetch_node h page
    before ←
        (if leaf.prev_leaf ==ℤ no_page
          then some (record h { first_leaf = leaf.next_leaf })
          else (fetch_node h leaf.prev_leaf >>= λ prev.
              some (write_node h leaf.prev_leaf (record prev { next_leaf = leaf.next_leaf }))))
    if leaf.next_leaf ==ℤ no_page
        then some (record before { last_leaf = leaf.prev_leaf })
        else (fetch_node before leaf.next_leaf >>= λ next.
            some (write_node before leaf.next_leaf (record next { prev_leaf = leaf.prev_leaf })))

  -- `page` is on the right of `left_page`; its entries go there, and it leaves the tree.
  unfoldable pub merge :
      IndexHandle K → (left_page page parent_page : ℤ) → ℕ → Option (IndexHandle K)
  unfolding fetch_node write_node insert_pairs erase_pair maintain_children erase_leaf
      release_node_handle
  merge h left_page page parent_page index = do
    left ← fetch_node h left_page
    node ← fetch_node h page
    all_entries ← insert_pairs (length left.entries) node.entries left.entries
    let moved = write_node h left_page (record left { entries = all_entries })
    settled ←
        (if node.is_leaf
          then (erase_leaf moved page >>= λ erased. some (
              if page ==ℤ erased.last_leaf
              then record erased { last_leaf = left_page }
              else erased))
          else maintain_children (length node.entries) (length left.entries) moved left_page)
    let released =
        release_node_handle (record settled { deleted_pages = page ∷ settled.deleted_pages })
    parent ← fetch_node released parent_page
    fewer ← erase_pair index parent.entries
    some (write_node released parent_page (record parent { entries = fewer }))

  -- `again` is `coalesce_or_redistribute` one level further up.
  unfoldable pub coalesce :
      (IndexHandle K → ℤ → Option (IndexHandle K × Bool))
      → IndexHandle K
      → (neighbor_page page parent_page : ℤ) → ℕ
      → Option (IndexHandle K × Bool)
  unfolding fetch_node merge adjust_root
  coalesce again h neighbor_page page parent_page index = do
    merged ←
        (if index == 0
          then merge h page neighbor_page parent_page 1
          else merge h neighbor_page page parent_page index)
    parent ← fetch_node merged parent_page
    if (length parent.entries == 0) && (parent.parent ==ℤ no_page)
        then adjust_root merged parent_page
        else (if ltb (length parent.entries) (get_min_size h.btree_order)
              && not (parent.parent ==ℤ no_page)
            then again merged parent_page
            else some (merged, false))

  -- Whether the node should be deleted; `fuel` bounds the levels above it.
  unfoldable pub coalesce_or_redistribute : ℕ → IndexHandle K → ℤ → Option (IndexHandle K × Bool)
  unfolding fetch_node adjust_root redistribute coalesce find_child
  coalesce_or_redistribute zero h page = none
  coalesce_or_redistribute (suc fuel) h page = do
    node ← fetch_node h page
    let rest = coalesce_or_redistribute fuel
    elim (node.parent ==ℤ no_page) [
      | true ↦ adjust_root h page
      | false ↦ elim (leb (get_min_size h.btree_order) (length node.entries)) [
        | true ↦ some (h, false)
        | false ↦ do
          parent ← fetch_node h node.parent
          let index = find_child page parent.entries
          let neighbor_index = if index == 0 then 1 else index - 1
          elim (leb (length parent.entries) index || leb (length parent.entries) neighbor_index) [
            | true ↦ some (h, false)
            | false ↦ do
              neighbor_page ← value_at parent.entries neighbor_index
              neighbor ← fetch_node h neighbor_page
              elim (leb (get_min_size h.btree_order * 2)
                  (length node.entries + length neighbor.entries)) [
                    | true ↦ redistribute h neighbor_page page node.parent index >>= λ shared.
                        some (shared, false)
                    | false ↦ coalesce rest h neighbor_page page node.parent index >>= λ joined.
                        some (joined.0, true)
                  ]
          ]
      ]
    ]

module _ {K : Type 0} (o : KeyOrder K) (same_bytes : K → K → Bool) where
  -- Whether there was an entry to delete.
  unfoldable pub delete_entry : ℕ → IndexHandle K → K → Option (IndexHandle K × Bool)
  unfolding fetch_node write_node find_leaf_page remove maintain_parent coalesce_or_redistribute
  delete_entry fuel h key = if h.root_page ==ℤ no_page then some (h, false) else (do
    page ← find_leaf_page o fuel h key false
    leaf ← fetch_node h page
    removed ← remove o leaf.entries key
    let written = write_node h page (record leaf { entries = removed.0 })
    if removed.1 == length leaf.entries then some (written, false) else (do
      settled ←
          (if (removed.2 == 0) && ltb 0 removed.1
            then maintain_parent same_bytes fuel written page
            else some written)
      balanced ← coalesce_or_redistribute fuel settled page
      some (
        if balanced.1
            then record balanced.0 { deleted_pages = page ∷ balanced.0.deleted_pages }
            else balanced.0,
        true,
      )))
