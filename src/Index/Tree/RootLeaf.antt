-- ===== src/Index/Tree/RootLeaf.antt =====
-- What `insert_entry` does to a tree that is one leaf, up to its first split.
use rmdb.Prelude.{
  ℕ, zero, suc, ◌+◌, ◌-◌, ◌<◌, ◌≤◌, ◌≡◌, refl, sym, ap, ap₂, subst, ◌∙◌, Bool, true, false, some,
  [], ◌∷◌, ◌++◌, length, get_elem?, if◌then◌else◌, ◌==◌, arith,
}
use rmdb.Prelude.Int.{ℤ, pos, ◌==ℤ◌}
use rmdb.Transaction.Types.{Rid}
use rmdb.Index.Order.{KeyOrder}
use rmdb.Index.Node.{
  Node, Entries, no_page, take, drop, get_max_size, get_min_size, insert, lower_bound, found_at,
}
use rmdb.Index.Node.Search.{IsSorted}
use rmdb.Index.Tree.{
  IndexHandle, fetch_node, write_node, find_leaf_page, descend, maintain_parent,
  maintain_parent_from,
}
use rmdb.Index.Tree.Insertion.{split, new_root, insert_into_parent, split_leaf, insert_entry}
use rmdb.Index.Tree.Shape.{AllBelow, IsTree}
use rmdb.Index.Tree.Halves.{IsSplit, split-IsSplit}
use rmdb.Index.Tree.Growth.{
  rooted, new_root-rooted, rooted-pages, two_leaves-IsTree, halves-apart, drop-IsSorted,
  take-IsSorted,
}

module _ {K : Type 0} where
  -- The steps of `split_leaf`.
  split_leaf-steps :
      (o : KeyOrder K) (fuel : ℕ) (h after above_it : IndexHandle K) (page new_page : ℤ)
      (key k1 : K) (rid1 : Rid) (sibling right : Node K)
      → split h page ≡ some (after, new_page)
      → fetch_node after new_page ≡ some sibling
      → get_elem? sibling.entries 0 ≡ some (k1, rid1)
      → insert_into_parent fuel
          (if page ==ℤ h.last_leaf then record after { last_leaf = new_page } else after)
          page
          k1
          new_page
        ≡ some above_it
      → fetch_node above_it new_page ≡ some right
      → split_leaf o fuel h page key
        ≡ some (
          above_it,
          if found_at o right.entries key (lower_bound o right.entries key) then new_page else page,
        )
  unfolding split_leaf
  split_leaf-steps o fuel h after above_it page new_page key k1 rid1 sibling right a b c d e =
      ground arith

  insert_into_parent-new_root :
      (fuel : ℕ) (h : IndexHandle K) (page new_page : ℤ) (key : K) (node : Node K)
      → fetch_node h page ≡ some node
      → node.parent ≡ no_page
      → insert_into_parent (suc fuel) h page key new_page ≡ new_root h page key new_page
  unfolding insert_into_parent
  insert_into_parent-new_root fuel h page new_page key node a b = ground arith

  -- The steps of `insert_entry` for a new key whose leaf is the root.
  pub insert_entry-steps :
      (o : KeyOrder K) (same_bytes : K → K → Bool) (fuel : ℕ) (h : IndexHandle K) (page : ℤ)
      (key : K) (value : Rid) (leaf : Node K) (more : Entries K) (place : ℤ)
      → find_leaf_page o fuel h key false ≡ some page
      → fetch_node h page ≡ some leaf
      → insert o leaf.entries key value ≡ some (more, length more, place)
      → (length more == length leaf.entries) ≡ false
      → maintain_parent same_bytes fuel (write_node h page (record leaf { entries = more })) page
        ≡ some (write_node h page (record leaf { entries = more }))
      → insert_entry o same_bytes fuel h key value ≡ (
          if length more == get_max_size h.btree_order
          then split_leaf o fuel (write_node h page (record leaf { entries = more })) page key
          else some (write_node h page (record leaf { entries = more }), page))
  unfolding insert_entry
  insert_entry-steps o same_bytes fuel h page key value leaf more place a b c d e = ground arith

  pub maintain_parent-root :
      (same_bytes : K → K → Bool) (fuel : ℕ) (h : IndexHandle K) (page : ℤ) (node : Node K)
      → fetch_node h page ≡ some node
      → node.parent ≡ no_page
      → maintain_parent same_bytes (suc fuel) h page ≡ some h
  unfolding maintain_parent maintain_parent_from
  maintain_parent-root same_bytes fuel h page node a b = ground arith

  pub find_leaf_page-root :
      (o : KeyOrder K) (fuel : ℕ) (h : IndexHandle K) (page : ℤ) (key : K) (node : Node K)
      → h.root_page ≡ page
      → fetch_node h page ≡ some node
      → node.is_leaf ≡ true
      → find_leaf_page o (suc fuel) h key false ≡ some page
  unfolding find_leaf_page descend
  find_leaf_page-root o fuel h page key node a b c = ground arith

module _ {K : Type 0} (o : KeyOrder K) where
  length-take-le : (n : ℕ) (entries : Entries K) → n ≤ length entries → length (take n entries) ≡ n
  length-take-le zero entries h = refl
  length-take-le (suc n) [] h = absurd (omega arith)
  length-take-le (suc n) (entry ∷ rest) h = ap suc (length-take-le n rest (omega arith))

  length-drop : (n : ℕ) (entries : Entries K) → length (drop n entries) ≡ length entries - n
  length-drop zero entries = omega arith
  length-drop (suc n) [] = omega arith
  length-drop (suc n) (entry ∷ rest) = omega (arith, length-drop n rest)

  nonempty :
      (entries : Entries K)
      → 1 ≤ length entries
      → (k : K) × (rid : Rid) × (rest : Entries K) × (entries ≡ (k, rid) ∷ rest)
  nonempty [] h = absurd (omega arith)
  nonempty ((k, rid) ∷ rest) h = (k, rid, rest, refl)

  counted : Bool → IndexHandle K → ℤ → IndexHandle K
  counted b h last = if b then record h { last_leaf = last } else h

  fetch_counted :
      (b : Bool) (h : IndexHandle K) (last : ℤ) (j : ℕ)
      → (fetch_node (counted b h last) (pos j) ≡ fetch_node h (pos j))
        × ((counted b h last).next_page ≡ h.next_page)
  unfolding counted fetch_node
  fetch_counted b h last j = ground arith

  -- The new root over the halves.
  root_over_halves :
      (fuel : ℕ) (h after : IndexHandle K) (p n : ℕ) (node next : Node K) (key k0 k1 : K)
      (rid0 rid1 : Rid) (lower upper : Entries K)
      → split h (pos p) ≡ some (after, pos h.next_page)
      → IsSplit h after p n node next
      → node.is_leaf ≡ true
      → node.parent ≡ no_page
      → p < h.next_page
      → IsSorted o node.entries
      → take (get_min_size h.btree_order) node.entries ≡ (k0, rid0) ∷ lower
      → drop (get_min_size h.btree_order) node.entries ≡ (k1, rid1) ∷ upper
      → (g : IndexHandle K) × (page : ℤ) × (split_leaf o (suc fuel) h (pos p) key ≡ some (g, page))
        × IsTree o g 1 g.root_page (((k0, rid0) ∷ lower) ++ ((k1, rid1) ∷ upper))
  unfolding counted
  root_over_halves fuel h after p n node next key k0 k1 rid0 rid1 lower upper done kept leaf orphan
        fresh sorted e0 e1 =
      let m = get_min_size h.btree_order in
      let q = h.next_page in
      let top = counted (pos p ==ℤ h.last_leaf) after (pos q) in
      let same = fetch_counted (pos p ==ℤ h.last_leaf) after (pos q) in
      let number : top.next_page ≡ q + 1 = (same p).1 ∙ kept.8 in
      let left : Node K = record node { next_leaf = pos q; entries = take m node.entries } in
      let right : Node K = record node { prev_leaf = pos p; entries = drop m node.entries } in
      let at_left : fetch_node top (pos p) ≡ some left = (same p).0 ∙ kept.0 in
      let at_right : fetch_node top (pos q) ≡ some right = (same q).0 ∙ kept.1 in
      let fresh_left : (top.next_page == p) ≡ false = rw number (ground arith) in
      let fresh_right : (top.next_page == q) ≡ false = rw number (ground arith) in
      let pages = rooted-pages top p q left right k0 k1 (ground arith) fresh_left fresh_right in
      let g = rooted top p q left right k0 k1 in
      (
        g,
        _,
        split_leaf-steps o (suc fuel) h after g (pos p) (pos q) key k1 rid1 right _ done kept.1
            (ap (λ (e : Entries K). get_elem? e 0) e1)
            (insert_into_parent-new_root fuel top (pos p) (pos q) k1 left at_left orphan
              ∙ new_root-rooted top p q left right k0 k1 rid0 lower at_left at_right e0 fresh_left
                  fresh_right)
            pages.2,
        subst (λ (r : ℤ). IsTree o g 1 r (((k0, rid0) ∷ lower) ++ ((k1, rid1) ∷ upper)))
            (sym pages.3)
            (two_leaves-IsTree o g top.next_page p q _ _ _ k0 k1 rid0 rid1 lower upper pages.0
              pages.1 pages.2 refl leaf leaf refl e0 e1
              (subst (IsSorted o) e0 (take-IsSorted o m node.entries sorted))
              (subst (IsSorted o) e1 (drop-IsSorted o m node.entries sorted))
              (subst (λ (e : Entries K). AllBelow o e k1) e0
                (halves-apart o m node.entries k1 rid1 upper sorted e1))),
      )

  -- A full leaf that is the root becomes two leaves under a new root.
  pub split_leaf-IsTree :
      (fuel : ℕ) (h : IndexHandle K) (p n : ℕ) (node next : Node K) (key : K)
      → fetch_node h (pos p) ≡ some node
      → fetch_node h (pos n) ≡ some next
      → node.is_leaf ≡ true
      → node.parent ≡ no_page
      → node.next_leaf ≡ pos n
      → (p == n) ≡ false
      → p < h.next_page
      → n < h.next_page
      → IsSorted o node.entries
      → 1 ≤ h.btree_order
      → length node.entries ≡ get_max_size h.btree_order
      → (g : IndexHandle K) × (page : ℤ) × (split_leaf o (suc fuel) h (pos p) key ≡ some (g, page))
        × IsTree o g 1 g.root_page node.entries
  split_leaf-IsTree fuel h p n node next key a b leaf orphan ring pn fresh fresh_next sorted order
        full =
      let m = get_min_size h.btree_order in
      let s = split-IsSplit h p n node next a b leaf ring pn (ground arith) (ground arith) in
      let (k0, rid0, lower, e0) =
        nonempty (take m node.entries) (ground (arith, length-take-le m node.entries)) in
      let (k1, rid1, upper, e1) =
        nonempty (drop m node.entries) (ground (arith, length-drop m node.entries)) in
      let (g, page, done, tree) =
        root_over_halves fuel h s.1.0 p n node next key k0 k1 rid0 rid1 lower upper s.1.1 s.1.2 leaf
          orphan fresh sorted e0 e1 in
      (g, page, done, subst (IsTree o g 1 g.root_page) (sym (ap₂ ◌++◌ e0 e1) ∙ s.0) tree)
