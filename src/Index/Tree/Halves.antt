-- ===== src/Index/Tree/Halves.antt =====
-- What `split` does to a leaf: where its entries go, and how the ring of leaves is linked.
use rmdb.Prelude.{
  ℕ, zero, suc, ◌+◌, ◌≡◌, refl, ap, ◌∙◌, true, false, some, [], ◌∷◌, ◌++◌, if◌then◌else◌, ◌==◌,
  arith,
}
use rmdb.Prelude.Int.{ℤ, pos}
use rmdb.Index.Node.{Node, Entries, take, drop, get_min_size, insert_pairs}
use rmdb.Index.Tree.{IndexHandle, fetch_node, write_node, create_node, zeroed}
use rmdb.Index.Tree.Insertion.{link_sibling, move_upper_half, split}

module _ {K : Type 0} where
  pub fetch_node-write_node :
      (h : IndexHandle K) (p q : ℕ) (node : Node K)
      → fetch_node (write_node h (pos p) node) (pos q)
        ≡ (if p == q then some node else fetch_node h (pos q))
  unfolding fetch_node write_node
  fetch_node-write_node h p q node = refl

  pub fetch_two :
      (h : IndexHandle K) (p q j : ℕ) (left right : Node K)
      → (p == j) ≡ false
      → (q == j) ≡ false
      → fetch_node (write_node (write_node h (pos p) left) (pos q) right) (pos j)
        ≡ fetch_node h (pos j)
  fetch_two h p q j left right pj qj =
      rw
        (
          fetch_node-write_node (write_node h (pos p) left) q j right,
          qj,
          fetch_node-write_node h p j left,
          pj,
        )
        refl

  linked : IndexHandle K → (p q n : ℕ) → (node sibling next : Node K) → IndexHandle K
  linked h p q n node sibling next =
      write_node
        (write_node (write_node h (pos q) (record sibling { prev_leaf = pos p; next_leaf = pos n }))
          (pos p) (record node { next_leaf = pos q }))
        (pos n) (record next { prev_leaf = pos q })

  link_sibling-linked :
      (h : IndexHandle K) (p q n : ℕ) (node sibling next : Node K)
      → fetch_node h (pos p) ≡ some node
      → fetch_node h (pos q) ≡ some sibling
      → fetch_node h (pos n) ≡ some next
      → node.next_leaf ≡ pos n
      → (p == n) ≡ false
      → (q == n) ≡ false
      → link_sibling h (pos p) (pos q) ≡ some (linked h p q n node sibling next)
  unfolding link_sibling linked
  link_sibling-linked h p q n node sibling next a b c d pn qn =
      let before =
        fetch_two h q p n (record sibling { prev_leaf = pos p; next_leaf = pos n })
          (record node { next_leaf = pos q }) qn pn
        ∙ c in
      rw (link_sibling, a, b, d, before) refl

  halved : IndexHandle K → (p q : ℕ) → (node sibling : Node K) → IndexHandle K
  halved h p q node sibling =
      write_node
        (write_node h (pos q) (record sibling {
          parent = node.parent;
          is_leaf = node.is_leaf;
          entries = drop (get_min_size h.btree_order) node.entries ++ [];
        }))
        (pos p) (record node { entries = take (get_min_size h.btree_order) node.entries })

  move_upper_half-halved :
      (h : IndexHandle K) (p q : ℕ) (node sibling : Node K)
      → fetch_node h (pos p) ≡ some node
      → fetch_node h (pos q) ≡ some sibling
      → move_upper_half h (pos p) (pos q) ≡ some (halved h p q node sibling)
  unfolding move_upper_half halved insert_pairs
  move_upper_half-halved h p q node sibling a b = rw (move_upper_half, a, b) refl

  pub fetch_created :
      (h : IndexHandle K) (j : ℕ)
      → (h.next_page == j) ≡ false
      → fetch_node (create_node h).0 (pos j) ≡ fetch_node h (pos j)
  unfolding create_node fetch_node write_node
  fetch_created h j qj = rw qj refl

  fetch_new : (h : IndexHandle K) → fetch_node (create_node h).0 (pos h.next_page) ≡ some zeroed
  unfolding create_node fetch_node write_node
  fetch_new h = ground arith

  -- The steps of `split` at a leaf, one after the other.
  split-steps :
      (h after_link moved : IndexHandle K) (page : ℤ) (node sibling : Node K)
      → fetch_node (create_node h).0 page ≡ some node
      → node.is_leaf ≡ true
      → link_sibling (create_node h).0 page (create_node h).1 ≡ some after_link
      → move_upper_half after_link page (create_node h).1 ≡ some moved
      → fetch_node moved (create_node h).1 ≡ some sibling
      → sibling.is_leaf ≡ true
      → split h page ≡ some (moved, (create_node h).1)
  unfolding split
  split-steps h after_link moved page node sibling a leaf b c d new_leaf = ground arith

  take-drop : (n : ℕ) (entries : Entries K) → take n entries ++ drop n entries ≡ entries
  take-drop zero entries = refl
  take-drop (suc n) [] = refl
  take-drop (suc n) (entry ∷ rest) = ap (◌∷◌ entry) (take-drop n rest)

  append_nil : (entries : Entries K) → entries ++ [] ≡ entries
  append_nil [] = refl
  append_nil (entry ∷ rest) = ap (◌∷◌ entry) (append_nil rest)

  -- What the pages hold after a leaf on page p was split: the lower half on it, the upper half on the
  -- new page, with the same parent; the new leaf stands between it and the leaf that was next.
  abbrev pub IsSplit : (before after : IndexHandle K) → (p n : ℕ) → (node next : Node K) → Type 0
  IsSplit before after p n node next =
      (fetch_node after (pos p)
        ≡ some (record node {
          next_leaf = pos before.next_page;
          entries = take (get_min_size before.btree_order) node.entries;
        }))
      × (fetch_node after (pos before.next_page)
          ≡ some (record node {
            prev_leaf = pos p;
            entries = drop (get_min_size before.btree_order) node.entries;
          }))
      × (fetch_node after (pos n) ≡ some (record next { prev_leaf = pos before.next_page }))
      × ((j : ℕ)
          → (p == j) ≡ false
          → (before.next_page == j) ≡ false
          → (n == j) ≡ false
          → fetch_node after (pos j) ≡ fetch_node before (pos j))
      × (after.root_page ≡ before.root_page)
      × (after.first_leaf ≡ before.first_leaf)
      × (after.last_leaf ≡ before.last_leaf)
      × (after.btree_order ≡ before.btree_order)
      × (after.next_page ≡ before.next_page + 1)

  linked-pages :
      (h : IndexHandle K) (p q n : ℕ) (node sibling next : Node K)
      → (p == n) ≡ false
      → (q == p) ≡ false
      → (q == n) ≡ false
      → (fetch_node (linked h p q n node sibling next) (pos p)
          ≡ some (record node { next_leaf = pos q }))
        × (fetch_node (linked h p q n node sibling next) (pos q)
            ≡ some (record sibling { prev_leaf = pos p; next_leaf = pos n }))
        × (fetch_node (linked h p q n node sibling next) (pos n)
            ≡ some (record next { prev_leaf = pos q }))
        × ((j : ℕ)
            → (p == j) ≡ false
            → (q == j) ≡ false
            → (n == j) ≡ false
            → fetch_node (linked h p q n node sibling next) (pos j) ≡ fetch_node h (pos j))
  unfolding linked fetch_node write_node
  linked-pages h p q n node sibling next pn qp qn =
      (ground arith, ground arith, ground arith, λ j pj qj nj. ground arith)

  halved-pages :
      (h : IndexHandle K) (p q : ℕ) (node sibling : Node K)
      → (q == p) ≡ false
      → (fetch_node (halved h p q node sibling) (pos p)
          ≡ some (record node { entries = take (get_min_size h.btree_order) node.entries }))
        × (fetch_node (halved h p q node sibling) (pos q)
            ≡ some (record sibling {
              parent = node.parent;
              is_leaf = node.is_leaf;
              entries = drop (get_min_size h.btree_order) node.entries ++ [];
            }))
        × ((j : ℕ)
            → (p == j) ≡ false
            → (q == j) ≡ false
            → fetch_node (halved h p q node sibling) (pos j) ≡ fetch_node h (pos j))
  unfolding halved fetch_node write_node
  halved-pages h p q node sibling qp = (ground arith, ground arith, λ j pj qj. ground arith)

  -- Splitting a leaf puts the lower half of its entries and the upper half on two leaves that are next
  -- to one another in the ring, and together hold what it held. The new leaf has the leaf's parent.
  -- The leaf, the one that is next to it, and the page number that is given out next are distinct.
  pub split-IsSplit :
      (h : IndexHandle K) (p n : ℕ) (node next : Node K)
      → fetch_node h (pos p) ≡ some node
      → fetch_node h (pos n) ≡ some next
      → node.is_leaf ≡ true
      → node.next_leaf ≡ pos n
      → (p == n) ≡ false
      → (h.next_page == p) ≡ false
      → (h.next_page == n) ≡ false
      → (take (get_min_size h.btree_order) node.entries
            ++ drop (get_min_size h.btree_order) node.entries
          ≡ node.entries)
        × ((after : IndexHandle K) × (split h (pos p) ≡ some (after, pos h.next_page))
            × IsSplit h after p n node next)
  unfolding create_node linked halved write_node
  split-IsSplit h p n node next a b leaf d pn qp qn =
      let q = h.next_page in
      let m = get_min_size h.btree_order in
      let created = (create_node h).0 in
      let at_p : fetch_node created (pos p) ≡ some node = fetch_created h p qp ∙ a in
      let at_n : fetch_node created (pos n) ≡ some next = fetch_created h n qn ∙ b in
      let left : Node K = record node { next_leaf = pos q } in
      let right : Node K = record zeroed { prev_leaf = pos p; next_leaf = pos n } in
      let after_link = linked created p q n node zeroed next in
      let moved = halved after_link p q left right in
      let l = linked-pages created p q n node zeroed next pn qp qn in
      let m' = halved-pages after_link p q left right qp in
      let same : record right {
        parent = node.parent;
        is_leaf = node.is_leaf;
        entries = drop m node.entries ++ [];
      }
          ≡ record node { prev_leaf = pos p; entries = drop m node.entries } =
        ground (arith, append_nil (drop m node.entries)) in
      (
        take-drop m node.entries,
        (
          moved,
          split-steps h after_link moved (pos p) node _ at_p leaf
              (link_sibling-linked created p q n node zeroed next at_p (fetch_new h) at_n d pn qn)
              (move_upper_half-halved after_link p q left right l.0 l.1) m'.1 leaf,
          (
            m'.0,
            m'.1 ∙ ap (λ (x : Node K). some x) same,
            m'.2 n pn qn ∙ l.2,
            λ j pj qj nj. m'.2 j pj qj ∙ (l.3 j pj qj nj ∙ fetch_created h j qj),
            refl,
            refl,
            refl,
            refl,
            refl,
          ),
        ),
      )
