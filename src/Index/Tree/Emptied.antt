-- ===== src/Index/Tree/Emptied.antt =====
-- A tree whose last entry was deleted: `adjust_root` unsets the first and the last leaf, and what later
-- insertions do about it.
use rmdb.Prelude.{
  ℕ, zero, suc, ◌+◌, ◌≡◌, inl, inr, refl, ap, ◌∙◌, Bool, true, false, Option, none, some, [], ◌∷◌,
  length, get_elem?, if◌then◌else◌, ◌==◌, arith, Bool-cases, Option-cases, Ensures, to_ensures,
  Ensures-bind, ensures_eq,
}
use rmdb.Prelude.Int.{ℤ, pos, negsuc, ◌==ℤ◌}
use rmdb.Transaction.Types.{Rid}
use rmdb.Index.Order.{KeyOrder, same}
use rmdb.Index.Node.{Node, no_page, set_key, find_child, insert_pairs, insert, get_max_size}
use rmdb.Index.Tree.{
  IndexHandle, fetch_node, write_node, create_node, maintain_child, maintain_children,
  maintain_parent, maintain_parent_from, find_leaf_page, get_value,
}
use rmdb.Index.Tree.Insertion.{
  child_entry, link_sibling, move_upper_half, split, new_root, insert_into_parent, split_leaf,
  insert_entry,
}
use rmdb.Index.Node.Laws.{lookup}
use rmdb.Index.Tree.Deletion.{reset_root, adjust_root}
use rmdb.Index.Tree.FirstSplit.{IsRootLeaf, get_value-insert_entry}
use rmdb.Index.Tree.Scan.{Iid, leaf_begin, leaf_end, scan_from}

-- The ends of the leaves stay as they are.
abbrev Keeps : {K : Type 0} → IndexHandle K → IndexHandle K → Type 0
Keeps h g = (g.first_leaf ≡ h.first_leaf) × (g.last_leaf ≡ h.last_leaf)

module _ {K : Type 0} where
  write_node-Keeps :
      (h : IndexHandle K) (page : ℤ) (node : Node K) → Keeps h (write_node h page node)
  unfolding write_node
  write_node-Keeps h (pos p) node = (refl, refl)
  write_node-Keeps h (negsuc p) node = (refl, refl)

  create_node-Keeps : (h : IndexHandle K) → Keeps h (create_node h).0
  unfolding create_node
  create_node-Keeps h = (refl, refl)

  maintain_child-Keeps :
      (h g : IndexHandle K) (page : ℤ) (i : ℕ) → maintain_child h page i ≡ some g → Keeps h g
  unfolding maintain_child write_node
  maintain_child-Keeps h g page i e = ground arith

  maintain_children-Keeps :
      (n i : ℕ) (h g : IndexHandle K) (page : ℤ) → maintain_children n i h page ≡ some g → Keeps h g
  unfolding maintain_children
  maintain_children-Keeps zero i h g page e = ground arith
  maintain_children-Keeps (suc n) i h g page e = elim (Option-cases (maintain_child h page i)) [
    | inl failed ↦ absurd (ground arith)
    | inr (m, moved) ↦
        let first = maintain_child-Keeps h m page i moved in
        let others = maintain_children-Keeps n (i + 1) m g page (ground arith) in
        (others.0 ∙ first.0, others.1 ∙ first.1)
  ]

  link_sibling-Keeps :
      (h g : IndexHandle K) (page new_page : ℤ) → link_sibling h page new_page ≡ some g → Keeps h g
  unfolding link_sibling write_node
  link_sibling-Keeps h g page new_page e = ground arith

  move_upper_half-Keeps :
      (h g : IndexHandle K) (page new_page : ℤ)
      → move_upper_half h page new_page ≡ some g
      → Keeps h g
  unfolding move_upper_half write_node
  move_upper_half-Keeps h g page new_page e = ground arith

  -- What `split` makes of its parts.
  split_parts :
      (h g : IndexHandle K) (page new_page : ℤ)
      → split h page ≡ some (g, new_page)
      → (node : Node K) × (sibling : Node K) × (after_link : IndexHandle K) × (moved : IndexHandle
          K)
        × ((if node.is_leaf
              then link_sibling (create_node h).0 page (create_node h).1
              else some (create_node h).0)
            ≡ some after_link)
        × (move_upper_half after_link page (create_node h).1 ≡ some moved)
        × ((if sibling.is_leaf
              then some moved
              else maintain_children (length sibling.entries) 0 moved (create_node h).1)
            ≡ some g)
  unfolding split
  split_parts h g page new_page e = elim (Option-cases (fetch_node (create_node h).0 page)) [
    | inl a ↦ absurd (ground arith)
    | inr (node, a) ↦
        elim (Option-cases (
          if node.is_leaf
          then link_sibling (create_node h).0 page (create_node h).1
          else some (create_node h).0)) [
            | inl b ↦ absurd (ground arith)
            | inr (after_link, b) ↦
                elim (Option-cases (move_upper_half after_link page (create_node h).1)) [
                  | inl c ↦ absurd (ground arith)
                  | inr (moved, c) ↦ elim (Option-cases (fetch_node moved (create_node h).1)) [
                    | inl d ↦ absurd (ground arith)
                    | inr (sibling, d) ↦ (node, sibling, after_link, moved, b, c, ground arith)
                  ]
                ]
          ]
  ]

  split-Keeps :
      (h g : IndexHandle K) (page new_page : ℤ) → split h page ≡ some (g, new_page) → Keeps h g
  split-Keeps h g page new_page e =
      let (node, sibling, after_link, moved, b, c, d) = split_parts h g page new_page e in
      let made = create_node-Keeps h in
      let one = link_sibling-Keeps (create_node h).0 after_link page (create_node h).1 in
      let two = move_upper_half-Keeps after_link moved page (create_node h).1 c in
      let three = maintain_children-Keeps (length sibling.entries) 0 moved g (create_node h).1 in
      ground (arith, made, one, two, three)

  new_root-Keeps :
      (h g : IndexHandle K) (page : ℤ) (key : K) (new_page : ℤ)
      → new_root h page key new_page ≡ some g
      → Keeps h g
  unfolding new_root write_node create_node
  new_root-Keeps h g page key new_page e = ground arith

  split-ends :
      (h : IndexHandle K) (page : ℤ) (r : IndexHandle K × ℤ)
      → split h page ≡ some r
      → (r.0.first_leaf ≡ h.first_leaf) × (r.0.last_leaf ≡ h.last_leaf)
  split-ends h page r e = split-Keeps h r.0 page r.1 e

  Keeps-then :
      (h m : IndexHandle K) (r : Option (IndexHandle K))
      → Keeps h m
      → Ensures (Keeps m) r
      → Ensures (Keeps h) r
  Keeps-then h m none a b = tt
  Keeps-then h m (some g) a b = (b.0 ∙ a.0, b.1 ∙ a.1)

  insert_into_parent-Keeps :
      (fuel : ℕ) (h : IndexHandle K) (page : ℤ) (key : K) (new_page : ℤ)
      → Ensures (Keeps h) (insert_into_parent fuel h page key new_page)
  unfolding insert_into_parent
  insert_into_parent-Keeps zero h page key new_page = tt
  insert_into_parent-Keeps (suc fuel) h page key new_page =
      Ensures-bind _ (fetch_node h page) _ λ old _. elim (Bool-cases (old.parent ==ℤ no_page)) [
        | inl top ↦ rw top (
            to_ensures (Keeps h) (new_root h page key new_page)
              (λ g. new_root-Keeps h g page key new_page))
        | inr inner ↦ rw inner (
            Ensures-bind _ (fetch_node h old.parent) _ λ parent _.
              Ensures-bind _
                (insert_pairs (find_child page parent.entries + 1) (child_entry key new_page ∷ [])
                  parent.entries)
                _
                λ more _.
                  let inserted = write_node h old.parent (record parent { entries = more }) in
                  let kept = write_node-Keeps h old.parent (record parent { entries = more }) in
                  elim (Bool-cases (length more == get_max_size h.btree_order)) [
                    | inr room ↦ rw room kept
                    | inl full ↦ rw full (
                        Ensures-bind _ (split inserted old.parent) _ λ halves d.
                          Ensures-bind _ (fetch_node halves.0 halves.1) _ λ sibling _.
                            Ensures-bind _ (get_elem? sibling.entries 0) _ λ first _.
                              let s = split-ends inserted old.parent halves d in
                              Keeps-then h halves.0 _ (s.0 ∙ kept.0, s.1 ∙ kept.1)
                                (insert_into_parent-Keeps fuel halves.0 old.parent first.0
                                  halves.1))
                  ])
      ]

module _ {K : Type 0} (o : KeyOrder K) (same_bytes : K → K → Bool) where
  maintain_parent_from-Keeps :
      (fuel : ℕ) (h : IndexHandle K) (page : ℤ)
      → Ensures (Keeps h) (maintain_parent_from same_bytes fuel h page)
  unfolding maintain_parent_from
  maintain_parent_from-Keeps zero h page = tt
  maintain_parent_from-Keeps (suc fuel) h page = Ensures-bind _ (fetch_node h page) _ λ curr _.
      elim (Bool-cases (curr.parent ==ℤ no_page)) [
        | inl top ↦ rw top (refl, refl)
        | inr inner ↦ rw inner (
            Ensures-bind _ (fetch_node h curr.parent) _ λ parent _.
              elim (Option-cases (get_elem? parent.entries (find_child page parent.entries))) [
                | inl a ↦ rw a (refl, refl)
                | inr (old, a) ↦ rw a (elim (Option-cases (get_elem? curr.entries 0)) [
                  | inl b ↦ rw b tt
                  | inr (new, b) ↦ rw b (elim (Bool-cases (same_bytes old.0 new.0)) [
                    | inl c ↦ rw c (refl, refl)
                    | inr c ↦
                        let changed = record parent {
                          entries = set_key (find_child page parent.entries) new.0 parent.entries;
                        } in
                        rw c (
                          Keeps-then h (write_node h curr.parent changed) _
                            (write_node-Keeps h curr.parent changed)
                            (maintain_parent_from-Keeps fuel (write_node h curr.parent changed)
                              curr.parent))
                  ])
                ])
              ])
      ]

  maintain_parent-Keeps :
      (fuel : ℕ) (h : IndexHandle K) (page : ℤ)
      → Ensures (Keeps h) (maintain_parent same_bytes fuel h page)
  unfolding maintain_parent
  maintain_parent-Keeps fuel h page = Ensures-bind _ (fetch_node h page) _ λ node _.
      elim (Bool-cases (length node.entries == 0)) [
        | inl empty ↦ rw empty (refl, refl)
        | inr some_left ↦ rw some_left (maintain_parent_from-Keeps fuel h page)
      ]

  -- Neither end of the leaves is set to a page where both are unset.
  abbrev Unset : IndexHandle K → Type 0
  Unset h = (h.first_leaf ≡ no_page) × (h.last_leaf ≡ no_page)

  Keeps-Unset : (h g : IndexHandle K) → Unset h → Keeps h g → Unset g
  Keeps-Unset h g u k = (k.0 ∙ u.0, k.1 ∙ u.1)

  Ensures-Unset :
      (h : IndexHandle K) (m : Option (IndexHandle K))
      → Unset h
      → Ensures (Keeps h) m
      → (g : IndexHandle K) → m ≡ some g
      → Unset g
  Ensures-Unset h m u k g e = Keeps-Unset h g u (ensures_eq (Keeps h) m g k e)

  settled_Unset :
      (place : ℤ) (fuel : ℕ) (h g : IndexHandle K) (page : ℤ)
      → Unset h
      → (if place ==ℤ pos 0 then maintain_parent same_bytes fuel h page else some h) ≡ some g
      → Unset g
  settled_Unset place fuel h g page u e = ground (
    arith,
    Ensures-Unset h (maintain_parent same_bytes fuel h page) u (maintain_parent-Keeps fuel h page)
        g,
  )

  split_leaf-Unset :
      (fuel : ℕ) (h : IndexHandle K) (page : ℤ) (key : K)
      → Unset h
      → Ensures (λ (r : IndexHandle K × ℤ). Unset r.0) (split_leaf o fuel h page key)
  unfolding split_leaf split fetch_node
  split_leaf-Unset fuel h (negsuc n) key u = tt
  split_leaf-Unset fuel h (pos p) key u = Ensures-bind _ (split h (pos p)) _ λ halves d.
      Ensures-bind _ (fetch_node halves.0 halves.1) _ λ sibling _.
        Ensures-bind _ (get_elem? sibling.entries 0) _ λ first _.
          let s : Unset halves.0 = Keeps-Unset h halves.0 u (split-ends h (pos p) halves d) in
          let other : (pos p ==ℤ h.last_leaf) ≡ false = ap (λ l. pos p ==ℤ l) u.1 ∙ ground arith in
          rw other (
            Ensures-bind _ (insert_into_parent fuel halves.0 (pos p) first.0 halves.1) _ λ above e.
              Ensures-bind _ (fetch_node above halves.1) _ λ right _.
                Ensures-Unset halves.0 (insert_into_parent fuel halves.0 (pos p) first.0 halves.1) s
                  (insert_into_parent-Keeps fuel halves.0 (pos p) first.0 halves.1) above e)

  insert_entry-Unset :
      (fuel : ℕ) (h : IndexHandle K) (key : K) (value : Rid)
      → Unset h
      → Ensures (λ (r : IndexHandle K × ℤ). Unset r.0) (insert_entry o same_bytes fuel h key value)
  unfolding insert_entry
  insert_entry-Unset fuel h key value u =
      Ensures-bind _ (find_leaf_page o fuel h key false) _ λ page _.
        Ensures-bind _ (fetch_node h page) _ λ leaf _.
          Ensures-bind _ (insert o leaf.entries key value) _ λ inserted _.
            let written = write_node h page (record leaf { entries = inserted.0 }) in
            let w : Unset written =
              Keeps-Unset h written u
                (write_node-Keeps h page (record leaf { entries = inserted.0 })) in
            elim (Bool-cases (inserted.1 == length leaf.entries)) [
              | inl there ↦ rw there w
              | inr new ↦ rw new (
                  Ensures-bind _
                    (if inserted.2 ==ℤ pos 0
                      then maintain_parent same_bytes fuel written page
                      else some written)
                    _
                    λ settled e.
                      let s = settled_Unset inserted.2 fuel written settled page w e in
                      elim (Bool-cases (inserted.1 == get_max_size h.btree_order)) [
                        | inl full ↦ rw full (split_leaf-Unset fuel settled page key s)
                        | inr room ↦ rw room s
                      ])
            ]

  reset_root-Unset : (h : IndexHandle K) → Unset (reset_root h)
  unfolding reset_root
  reset_root-Unset h = (refl, refl)

  lookup-nil : (key : K) → lookup o [] key ≡ none
  unfolding lookup
  lookup-nil key = refl

  reset_root-IsRootLeaf :
      (h : IndexHandle K) (n : ℕ) (node next : Node K)
      → IsRootLeaf o h 2 n node next
      → IsRootLeaf o (reset_root h) 2 n node next
  unfolding reset_root fetch_node
  reset_root-IsRootLeaf h n node next r = record {
    root = refl;
    fetched = r.fetched;
    fetched_next = r.fetched_next;
    leaf = r.leaf;
    orphan = r.orphan;
    ring = r.ring;
    apart = r.apart;
    fresh = r.fresh;
    fresh_next = r.fresh_next;
    sorted = r.sorted;
    order_pos = r.order_pos;
    room = r.room;
  }

  adjust_root-empty :
      (h : IndexHandle K) (page : ℤ) (node : Node K)
      → fetch_node h page ≡ some node
      → node.entries ≡ []
      → adjust_root h page ≡ some (reset_root h, true)
  unfolding adjust_root
  adjust_root-empty h page node fetched empty = rw (fetched, empty) refl

  -- Where both ends are unset a scan from `leaf_begin` to `leaf_end` ends at once.
  Unset-scan_from :
      (rounds : ℕ) (g : IndexHandle K)
      → Unset g
      → (end : Iid) × (leaf_begin g ≡ some end)
        × (leaf_end g ≡ some end)
        × (scan_from (suc rounds) g end end ≡ some [])
  unfolding leaf_begin leaf_end scan_from
  Unset-scan_from rounds g v =
      (record { page_no = no_page; slot_no = 0 }, ground arith, ground arith, refl)

  -- Let the tree be one leaf, on the page of a new tree's root, with no entry left. `adjust_root` resets the
  -- tree, a new key is inserted then without an error, and `get_value` finds its rid for an equal key and answers as
  -- before for others; but the ends of the leaves stay unset, and the scan from `leaf_begin` to
  -- `leaf_end` finds no entry.
  pub adjust_root-insert_entry-scan_from :
      (fuel rounds : ℕ) (h : IndexHandle K) (n : ℕ) (node next : Node K) (key : K) (value : Rid)
      → IsRootLeaf o h 2 n node next
      → node.entries ≡ []
      → (emptied g : IndexHandle K) × (page : ℤ) × (end : Iid) × (adjust_root h (pos 2)
          ≡ some (emptied, true))
        × (insert_entry o same_bytes (suc fuel) emptied key value ≡ some (g, page))
        × ((q : K)
            → get_value o (suc (suc fuel)) g q ≡ (
                if same o q key then some (some value) else get_value o (suc (suc fuel)) emptied q))
        × ((g.first_leaf ≡ no_page) × (g.last_leaf ≡ no_page))
        × (leaf_begin g ≡ some end)
        × (leaf_end g ≡ some end)
        × (scan_from (suc rounds) g end end ≡ some [])
  adjust_root-insert_entry-scan_from fuel rounds h n node next key value r empty =
      let emptied = reset_root h in
      let (g, page, done, found) =
        get_value-insert_entry o same_bytes fuel emptied 2 n node next key value
          (reset_root-IsRootLeaf h n node next r)
          (ap (λ es. lookup o es key) empty ∙ lookup-nil key) in
      let v : Unset g =
        ensures_eq (λ (x : IndexHandle K × ℤ). Unset x.0)
          (insert_entry o same_bytes (suc fuel) emptied key value) (g, page)
          (insert_entry-Unset (suc fuel) emptied key value (reset_root-Unset h)) done in
      let (end, first, last, nothing) = Unset-scan_from rounds g v in
      (
        emptied,
        g,
        page,
        end,
        adjust_root-empty h (pos 2) node r.fetched empty,
        done,
        found,
        v,
        first,
        last,
        nothing,
      )
