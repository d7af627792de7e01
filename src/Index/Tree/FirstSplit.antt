-- ===== src/Index/Tree/FirstSplit.antt =====
-- `insert_entry` in a tree that is one leaf, and what `get_value` finds afterwards.
use rmdb.Prelude.{
  ℕ, suc, ◌<◌, ◌≤◌, ◌≡◌, inl, inr, refl, ap, ◌∙◌, Bool, true, false, none, some, length,
  if◌then◌else◌, ◌==◌, arith, Bool-cases,
}
use rmdb.Prelude.Int.{ℤ, pos}
use rmdb.Transaction.Types.{Rid}
use rmdb.Index.Order.{KeyOrder, same}
use rmdb.Index.Node.{Node, Entries, no_page, get_max_size, insert, lower_bound}
use rmdb.Index.Node.Search.{IsSorted}
use rmdb.Index.Node.Laws.{lookup, put, insert-put, put-IsSorted, lookup-put}
use rmdb.Index.Tree.{IndexHandle, fetch_node, write_node, get_value}
use rmdb.Index.Tree.Insertion.{insert_entry}
use rmdb.Index.Tree.Shape.{IsTree, get_value-lookup}
use rmdb.Index.Tree.Growth.{length-put}
use rmdb.Index.Tree.RootLeaf.{
  split_leaf-IsTree, insert_entry-steps, maintain_parent-root, find_leaf_page-root,
}

-- The tree is the leaf on page p, which is next to page n in the ring, and has room.
pub record IsRootLeaf {K : Type 0} (o : KeyOrder K) (h : IndexHandle K) (p n : ℕ)
    (node next : Node K) : Type 0 where
  pub root : h.root_page ≡ pos p
  pub fetched : fetch_node h (pos p) ≡ some node
  pub fetched_next : fetch_node h (pos n) ≡ some next
  pub leaf : node.is_leaf ≡ true
  pub orphan : node.parent ≡ no_page
  pub ring : node.next_leaf ≡ pos n
  pub apart : (p == n) ≡ false
  pub fresh : p < h.next_page
  pub fresh_next : n < h.next_page
  pub sorted : IsSorted o node.entries
  pub order_pos : 1 ≤ h.btree_order
  pub room : length node.entries < get_max_size h.btree_order

module _ {K : Type 0} (o : KeyOrder K) (same_bytes : K → K → Bool) where
  -- The leaf with its new entry is as it was otherwise.
  written_pages :
      (h : IndexHandle K) (p n : ℕ) (node next : Node K) (more : Entries K)
      → IsRootLeaf o h p n node next
      → (fetch_node (write_node h (pos p) (record node { entries = more })) (pos p)
          ≡ some (record node { entries = more }))
        × (fetch_node (write_node h (pos p) (record node { entries = more })) (pos n) ≡ some next)
        × ((write_node h (pos p) (record node { entries = more })).root_page ≡ pos p)
        × ((write_node h (pos p) (record node { entries = more })).next_page ≡ h.next_page)
        × ((write_node h (pos p) (record node { entries = more })).btree_order ≡ h.btree_order)
  unfolding fetch_node write_node
  written_pages h p n node next more r =
      (ground arith, ground (arith, r.fetched_next, r.apart), r.root, refl, refl)

  -- A new key in a tree that is one leaf with room goes to the leaf, which is split under a new root where
  -- that fills it. The tree then holds its entries and the new one, and its height is at most one.
  pub insert_entry-put :
      (fuel : ℕ) (h : IndexHandle K) (p n : ℕ) (node next : Node K) (key : K) (value : Rid)
      → IsRootLeaf o h p n node next
      → lookup o node.entries key ≡ none
      → (g : IndexHandle K) × (page : ℤ) × (height : ℕ) × (insert_entry o same_bytes
            (suc fuel)
            h
            key
            value
          ≡ some (g, page))
        × (height ≤ 1)
        × IsTree o g height g.root_page (put o node.entries key value)
  insert_entry-put fuel h p n node next key value r miss =
      let more = put o node.entries key value in
      let leaf : Node K = record node { entries = more } in
      let written = write_node h (pos p) leaf in
      let w = written_pages h p n node next more r in
      let sorted = put-IsSorted o node.entries key value r.sorted miss in
      let longer = length-put o node.entries key value in
      let inserted : insert o node.entries key value
          ≡ some (more, length more, pos (lower_bound o node.entries key)) =
        insert-put o node.entries key value r.sorted ∙ rw miss refl in
      let steps =
        insert_entry-steps o same_bytes (suc fuel) h (pos p) key value node more _
          (find_leaf_page-root o fuel h (pos p) key node r.root r.fetched r.leaf) r.fetched inserted
          (rw longer (ground arith))
          (maintain_parent-root same_bytes fuel written (pos p) leaf w.0 r.orphan) in
      elim (Bool-cases (length more == get_max_size h.btree_order)) [
        | inr room ↦ (
          written,
          pos p,
          0,
          steps ∙ rw room refl,
          omega arith,
          (leaf, ap (fetch_node written) w.2 ∙ w.0, r.leaf, refl, sorted),
        )
        | inl full ↦
            let (g, page, done, tree) =
              split_leaf-IsTree o fuel written p n leaf next key w.0 w.1 r.leaf r.orphan r.ring
                r.apart (omega (arith, w.3, r.fresh)) (omega (arith, w.3, r.fresh_next)) sorted
                (omega (arith, w.4, r.order_pos)) (ground (arith, ap get_max_size w.4)) in
            (g, page, 1, steps ∙ (rw full done), omega arith, tree)
      ]

  -- After a new key was inserted into a tree that is one leaf with room, `get_value` answers with its rid for
  -- an equal key, and as before for all others, whether the leaf was split or not.
  pub get_value-insert_entry :
      (fuel : ℕ) (h : IndexHandle K) (p n : ℕ) (node next : Node K) (key : K) (value : Rid)
      → IsRootLeaf o h p n node next
      → lookup o node.entries key ≡ none
      → (g : IndexHandle K) × (page : ℤ) × (insert_entry o same_bytes (suc fuel) h key value
          ≡ some (g, page))
        × ((q : K)
            → get_value o (suc (suc fuel)) g q
              ≡ (if same o q key then some (some value) else get_value o (suc (suc fuel)) h q))
  get_value-insert_entry fuel h p n node next key value r miss =
      let (g, page, height, done, low, tree) =
        insert_entry-put fuel h p n node next key value r miss in
      let before = λ (q : K).
        get_value-lookup o h 0 (suc (suc fuel)) q node.entries (omega arith)
          (node, ap (fetch_node h) r.root ∙ r.fetched, r.leaf, refl, r.sorted) in
      (
        g,
        page,
        done,
        λ q.
            get_value-lookup o g height (suc (suc fuel)) q (put o node.entries key value)
              (omega arith) tree
            ∙ ground (arith, lookup-put o node.entries key q value miss, before q),
      )
