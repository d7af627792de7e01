-- ===== src/Index/Tree/Shape.antt =====
-- The shape of a tree: which entries it holds, and that `get_value` finds them.
use rmdb.Prelude.{
  ℕ, zero, suc, ◌<◌, ◌≡◌, inl, inr, refl, sym, ap, ◌∙◌, true, false, Option, some, [], ◌∷◌, ◌++◌,
  arith, Bool-cases, ◌>>=◌,
}
use rmdb.Prelude.Int.{ℤ}
use rmdb.Transaction.Types.{Rid}
use rmdb.Index.Order.{KeyOrder, below, exclusive, above-below, lt_le_trans}
use rmdb.Index.Node.{Node, Entries, internal_lookup, leaf_lookup}
use rmdb.Index.Node.Search.{IsSorted}
use rmdb.Index.Node.Laws.{lookup, leaf_lookup-lookup}
use rmdb.Index.Node.Removal.{last_before, internal_lookup-last_before}
use rmdb.Index.Tree.{IndexHandle, fetch_node, descend, find_leaf_page, get_value}

module _ {K : Type 0} (o : KeyOrder K) where
  -- All keys are below the given one; all keys are at least the given one.
  abbrev pub AllBelow : Entries K → K → Type 0
  AllBelow [] k = Unit {0}
  AllBelow ((j, _) ∷ rest) k = (below o j k ≡ true) × AllBelow rest k

  abbrev pub AllFrom : K → Entries K → Type 0
  AllFrom k [] = Unit {0}
  AllFrom k ((j, _) ∷ rest) = (below o j k ≡ false) × AllFrom k rest

  -- The children of a node, from one of them on, with all that they hold: a key of the node is above
  -- what the children before it hold, and not above what is held from its child on.
  abbrev pub Forest : (ℤ → Entries K → Type 0) → Rid → Entries K → Entries K → Type 0
  Forest Child rid [] contents = Child rid.page_no contents
  Forest Child rid ((k, next) ∷ rest) contents =
      (left : Entries K) × (right : Entries K) × (contents ≡ left ++ right)
      × Child rid.page_no left
      × AllBelow left k
      × AllFrom k right
      × Forest Child next rest right

  -- A tree of the given height under a page, and what its leaves hold from left to right.
  abbrev pub IsTree : IndexHandle K → ℕ → ℤ → Entries K → Type 0
  IsTree h zero page contents =
      (node : Node K) × (fetch_node h page ≡ some node)
      × (node.is_leaf ≡ true)
      × (node.entries ≡ contents)
      × IsSorted o contents
  IsTree h (suc height) page contents =
      (node : Node K) × (k : K) × (rid : Rid) × (rest : Entries K) × (fetch_node h page ≡ some node)
      × (node.is_leaf ≡ false)
      × (node.entries ≡ (k, rid) ∷ rest)
      × IsSorted o ((k, rid) ∷ rest)
      × Forest (IsTree h height) rid rest contents

  lookup-left :
      (left right : Entries K) (k q : K)
      → below o q k ≡ true
      → AllFrom k right
      → lookup o (left ++ right) q ≡ lookup o left q
  unfolding lookup
  lookup-left [] [] k q lt from = refl
  lookup-left [] ((j, rid) ∷ right) k q lt from = ground (
    arith,
    lookup-left [] right k q lt from.1,
    lt_le_trans o q k j lt,
    above-below o k j,
    exclusive o q j,
    from.0,
  )
  lookup-left ((j, rid) ∷ left) right k q lt from =
      ground (arith, lookup-left left right k q lt from)

  lookup-right :
      (left right : Entries K) (k q : K)
      → below o q k ≡ false
      → AllBelow left k
      → lookup o (left ++ right) q ≡ lookup o right q
  unfolding lookup
  lookup-right [] right k q ge all = refl
  lookup-right ((j, rid) ∷ left) right k q ge all = ground (
    arith,
    lookup-right left right k q ge all.1,
    lt_le_trans o j k q all.0,
    above-below o k q,
    above-below o q j,
    exclusive o q j,
  )

  -- The child that holds the key, if any child does.
  Forest-lookup :
      (Child : ℤ → Entries K → Type 0) (answer : ℤ → Option (Option Rid)) (q : K)
      → ((page : ℤ) (contents : Entries K)
          → Child page contents
          → answer page ≡ some (lookup o contents q))
      → (rid : Rid) (rest contents : Entries K) → Forest Child rid rest contents
      → answer (last_before o rid rest q).page_no ≡ some (lookup o contents q)
  unfolding last_before
  Forest-lookup Child answer q each rid [] contents f = each rid.page_no contents f
  Forest-lookup Child answer q each rid ((k, next) ∷ rest) contents f =
      elim (Bool-cases (below o q k)) [
        | inl lt ↦
            rw (lt, last_before)
              (each rid.page_no f.0 f.3
                ∙ ap (λ (x : Option Rid). some x)
                    (sym
                      (ap (λ (c : Entries K). lookup o c q) f.2 ∙ lookup-left f.0 f.1 k q lt f.5)))
        | inr ge ↦
            rw (ge, last_before)
              (Forest-lookup Child answer q each next rest f.1 f.6
                ∙ ap (λ (x : Option Rid). some x)
                    (sym
                      (ap (λ (c : Entries K). lookup o c q) f.2 ∙ lookup-right f.0 f.1 k q ge f.4)))
      ]

  -- What the descent from a page finds in the leaf where it ends.
  found_below : ℕ → IndexHandle K → K → ℤ → Option (Option Rid)
  found_below fuel h key page = do
    leaf_page ← descend o fuel h key false page
    leaf ← fetch_node h leaf_page
    some (leaf_lookup o leaf.entries key)

  found_below-lookup :
      (h : IndexHandle K) (height fuel : ℕ) (key : K) (page : ℤ) (contents : Entries K)
      → height < fuel
      → IsTree h height page contents
      → found_below fuel h key page ≡ some (lookup o contents key)
  unfolding found_below descend
  found_below-lookup h height zero key page contents lt tree = absurd (omega arith)
  found_below-lookup h zero (suc fuel) key page contents lt (node, fetched, leaf, here, sorted) =
      rw (found_below, descend, fetched, leaf, fetched, here)
        (ap (λ (x : Option Rid). some x) (leaf_lookup-lookup o contents key sorted))
  found_below-lookup h (suc height) (suc fuel) key page contents lt
        (node, k, rid, rest, fetched, inner, here, sorted, forest) =
      let child =
        ap (λ (c : Entries K). internal_lookup o c key) here
        ∙ internal_lookup-last_before o k rid rest key sorted in
      rw (found_below, descend, fetched, inner, child)
        (Forest-lookup (IsTree h height) (found_below fuel h key) key
          (λ below_page held. found_below-lookup h height fuel key below_page held (omega arith))
          rid rest contents forest)

  -- In a tree whose height is less than the fuel, `get_value` answers with the rid of the key among all
  -- entries of its leaves, and answers that there is none exactly where no leaf holds the key. It does
  -- not fail.
  pub get_value-lookup :
      (h : IndexHandle K) (height fuel : ℕ) (key : K) (contents : Entries K)
      → height < fuel
      → IsTree h height h.root_page contents
      → get_value o fuel h key ≡ some (lookup o contents key)
  unfolding get_value find_leaf_page found_below
  get_value-lookup h height fuel key contents lt tree =
      found_below-lookup h height fuel key h.root_page contents lt tree
