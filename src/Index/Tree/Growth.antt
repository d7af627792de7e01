-- ===== src/Index/Tree/Growth.antt =====
-- `insert_entry` in a tree that is one leaf: the leaf grows, or is split under a new root.
use rmdb.Prelude.{
  ℕ, zero, suc, ◌≡◌, refl, subst, ◌∙◌, true, false, some, [], ◌∷◌, ◌++◌, length, ◌==◌, arith,
}
use rmdb.Prelude.Int.{pos, negsuc}
use rmdb.Transaction.Types.{Rid}
use rmdb.Index.Order.{KeyOrder, below, exclusive, above-below}
use rmdb.Index.Node.{Node, Entries, no_page, take, drop, insert_pairs}
use rmdb.Index.Node.Search.{IsSorted, AllAfter}
use rmdb.Index.Node.Laws.{put}
use rmdb.Index.Tree.{IndexHandle, fetch_node, write_node, create_node}
use rmdb.Index.Tree.Insertion.{new_root}
use rmdb.Index.Tree.Shape.{AllBelow, AllFrom, IsTree}
use rmdb.Index.Tree.Halves.{fetch_created}

module _ {K : Type 0} (o : KeyOrder K) where
  irreflexive : (k : K) → below o k k ≡ false
  irreflexive k = ground (arith, above-below o k k, exclusive o k k)

  pub length-put :
      (entries : Entries K) (key : K) (value : Rid)
      → length (put o entries key value) ≡ suc (length entries)
  unfolding put
  length-put [] key value = refl
  length-put ((k, rid) ∷ rest) key value = ground (arith, length-put rest key value)

  AllAfter-drop :
      (k : K) (n : ℕ) (entries : Entries K) → AllAfter o k entries → AllAfter o k (drop n entries)
  AllAfter-drop k zero entries a = a
  AllAfter-drop k (suc n) [] a = tt
  AllAfter-drop k (suc n) ((j, rid) ∷ rest) a = AllAfter-drop k n rest a.1

  AllAfter-take :
      (k : K) (n : ℕ) (entries : Entries K) → AllAfter o k entries → AllAfter o k (take n entries)
  AllAfter-take k zero entries a = tt
  AllAfter-take k (suc n) [] a = tt
  AllAfter-take k (suc n) ((j, rid) ∷ rest) a = (a.0, AllAfter-take k n rest a.1)

  pub drop-IsSorted :
      (n : ℕ) (entries : Entries K) → IsSorted o entries → IsSorted o (drop n entries)
  drop-IsSorted zero entries s = s
  drop-IsSorted (suc n) [] s = tt
  drop-IsSorted (suc n) ((j, rid) ∷ rest) s = drop-IsSorted n rest s.1

  pub take-IsSorted :
      (n : ℕ) (entries : Entries K) → IsSorted o entries → IsSorted o (take n entries)
  take-IsSorted zero entries s = tt
  take-IsSorted (suc n) [] s = tt
  take-IsSorted (suc n) ((j, rid) ∷ rest) s = (AllAfter-take j n rest s.0, take-IsSorted n rest s.1)

  AllAfter-AllFrom : (k : K) (entries : Entries K) → AllAfter o k entries → AllFrom o k entries
  AllAfter-AllFrom k [] a = tt
  AllAfter-AllFrom k ((j, rid) ∷ rest) a =
      (ground (arith, a.0, above-below o k j, exclusive o k j), AllAfter-AllFrom k rest a.1)

  -- The first key of the upper half is above the lower half, and not above its own.
  pub halves-apart :
      (n : ℕ) (entries : Entries K) (k : K) (rid : Rid) (rest : Entries K)
      → IsSorted o entries
      → drop n entries ≡ (k, rid) ∷ rest
      → AllBelow o (take n entries) k
  halves-apart zero entries k rid rest s e = tt
  halves-apart (suc n) [] k rid rest s e = tt
  halves-apart (suc n) ((j, old) ∷ more) k rid rest s e =
      let after : AllAfter o j ((k, rid) ∷ rest) =
        subst (AllAfter o j) e (AllAfter-drop j n more s.0) in
      (after.0, halves-apart n more k rid rest s.1 e)

  upper-AllFrom :
      (k : K) (rid : Rid) (rest : Entries K)
      → IsSorted o ((k, rid) ∷ rest)
      → AllFrom o k ((k, rid) ∷ rest)
  upper-AllFrom k rid rest s = (irreflexive k, AllAfter-AllFrom k rest s.0)

  -- Two leaves under a root.
  pub two_leaves-IsTree :
      (h : IndexHandle K) (r p q : ℕ) (root left right : Node K) (k0 k1 : K) (rid0 rid1 : Rid)
      (lower upper : Entries K)
      → fetch_node h (pos r) ≡ some root
      → fetch_node h (pos p) ≡ some left
      → fetch_node h (pos q) ≡ some right
      → root.is_leaf ≡ false
      → left.is_leaf ≡ true
      → right.is_leaf ≡ true
      → root.entries
        ≡ (k0, record { page_no = pos p; slot_no = negsuc 0 })
          ∷ (k1, record { page_no = pos q; slot_no = negsuc 0 })
          ∷ []
      → left.entries ≡ (k0, rid0) ∷ lower
      → right.entries ≡ (k1, rid1) ∷ upper
      → IsSorted o ((k0, rid0) ∷ lower)
      → IsSorted o ((k1, rid1) ∷ upper)
      → AllBelow o ((k0, rid0) ∷ lower) k1
      → IsTree o h 1 (pos r) (((k0, rid0) ∷ lower) ++ ((k1, rid1) ∷ upper))
  two_leaves-IsTree h r p q root left right k0 k1 rid0 rid1 lower upper fr fp fq ir lp lq er ep eq
        sl su apart =
      (
        root,
        k0,
        record { page_no = pos p; slot_no = negsuc 0 },
        _,
        fr,
        ir,
        er,
        ((apart.0, tt), (tt, tt)),
        (
          (k0, rid0) ∷ lower,
          (k1, rid1) ∷ upper,
          refl,
          (left, fp, lp, ep, sl),
          apart,
          upper-AllFrom k1 rid1 upper su,
          (right, fq, lq, eq, su),
        ),
      )

module _ {K : Type 0} where
  abbrev pub root_over : ℕ → ℕ → K → K → Node K
  root_over p q k0 k1 = record {
    parent = no_page;
    is_leaf = false;
    prev_leaf = no_page;
    next_leaf = no_page;
    entries =
        (k0, record { page_no = pos p; slot_no = negsuc 0 })
        ∷ (k1, record { page_no = pos q; slot_no = negsuc 0 })
        ∷ [];
  }

  pub rooted : IndexHandle K → (p q : ℕ) → (left right : Node K) → K → K → IndexHandle K
  rooted h p q left right k0 k1 =
      let r = h.next_page in
      let top = write_node (create_node h).0 (pos r) (root_over p q k0 k1) in
      let one = write_node top (pos p) (record left { parent = pos r }) in
      record (write_node one (pos q) (record right { parent = pos r })) { root_page = pos r }

  pub new_root-rooted :
      (h : IndexHandle K) (p q : ℕ) (left right : Node K) (k0 k1 : K) (rid0 : Rid)
      (lower : Entries K)
      → fetch_node h (pos p) ≡ some left
      → fetch_node h (pos q) ≡ some right
      → left.entries ≡ (k0, rid0) ∷ lower
      → (h.next_page == p) ≡ false
      → (h.next_page == q) ≡ false
      → new_root h (pos p) k1 (pos q) ≡ some (rooted h p q left right k0 k1)
  unfolding new_root rooted create_node insert_pairs
  new_root-rooted h p q left right k0 k1 rid0 lower a b e rp rq =
      let at_p : fetch_node (create_node h).0 (pos p) ≡ some left = fetch_created h p rp ∙ a in
      let at_q : fetch_node (create_node h).0 (pos q) ≡ some right = fetch_created h q rq ∙ b in
      ground arith

  pub rooted-pages :
      (h : IndexHandle K) (p q : ℕ) (left right : Node K) (k0 k1 : K)
      → (p == q) ≡ false
      → (h.next_page == p) ≡ false
      → (h.next_page == q) ≡ false
      → (fetch_node (rooted h p q left right k0 k1) (pos h.next_page) ≡ some (root_over p q k0 k1))
        × (fetch_node (rooted h p q left right k0 k1) (pos p)
            ≡ some (record left { parent = pos h.next_page }))
        × (fetch_node (rooted h p q left right k0 k1) (pos q)
            ≡ some (record right { parent = pos h.next_page }))
        × ((rooted h p q left right k0 k1).root_page ≡ pos h.next_page)
  unfolding rooted fetch_node write_node create_node
  rooted-pages h p q left right k0 k1 pq rp rq = (ground arith, ground arith, ground arith, refl)
