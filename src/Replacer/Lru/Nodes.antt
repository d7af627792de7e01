-- ===== src/Replacer/Lru/Nodes.antt =====
-- The doubly linked list of the LRU replacer: a node keeps its identity while others come and go.
use rmdb.Prelude.{
  ℕ, ◌≤◌, ◌<◌, ◌≡◌, refl, ap, Option, none, some, List, [], ◌∷◌, ◌++◌, map, ◌==◌, if◌then◌else◌,
  arith, Bool-cases, inl, inr,
}

pub record Node : Type 0 where
  pub id : ℕ
  pub frame : ℕ

-- `LRUlist_.erase(iter)`.
unfoldable pub erase_node : ℕ → List Node → List Node
erase_node i [] = []
erase_node i (x ∷ xs) = if x.id == i then xs else x ∷ erase_node i xs

-- `back()` and `pop_back()`: the list without its last node, and that node.
unfoldable pub pop_back : List Node → Option (List Node × Node)
pop_back [] = none
pop_back (x ∷ xs) = elim (pop_back xs) [
  | none ↦ some ([], x)
  | some (rest, node) ↦ some (x ∷ rest, node)
]

-- The first node with a frame.
unfoldable pub node_of : ℕ → List Node → Option ℕ
node_of f [] = none
node_of f (x ∷ xs) = if x.frame == f then some x.id else node_of f xs

abbrev pub frames : List Node → List ℕ
frames = map (λ (x : Node). x.frame)

-- Identities fall from the front, below a bound, and no frame stands twice.
abbrev pub IsOrdered : ℕ → List Node → Type 0
IsOrdered n [] = Unit {0}
IsOrdered n (x ∷ xs) = (x.id < n) × (node_of x.frame xs ≡ none) × IsOrdered x.id xs

-- The view without identities.
unfoldable pub erase : ℕ → List ℕ → List ℕ
erase f [] = []
erase f (g ∷ gs) = if g == f then gs else g ∷ erase f gs

pub node_of-lt : (f n i : ℕ) (xs : List Node) → IsOrdered n xs → node_of f xs ≡ some i → i < n
unfolding node_of
node_of-lt f n i [] o e = cc
node_of-lt f n i (x ∷ xs) o e = ground (arith, node_of-lt f x.id i xs o.2)

pub IsOrdered-mono : (m n : ℕ) (xs : List Node) → m ≤ n → IsOrdered m xs → IsOrdered n xs
IsOrdered-mono m n [] h o = tt
IsOrdered-mono m n (x ∷ xs) h o = (omega arith, o.1, o.2)

module _ (f : ℕ) where
  pub frames-erase_node :
      (n i : ℕ) (xs : List Node)
      → IsOrdered n xs
      → node_of f xs ≡ some i
      → frames (erase_node i xs) ≡ erase f (frames xs)
  unfolding node_of erase_node erase
  frames-erase_node n i [] o e = cc
  frames-erase_node n i (x ∷ xs) o e =
      ground (arith, frames-erase_node x.id i xs o.2, node_of-lt f x.id i xs o.2)

  pub node_of-erase_node :
      (n i : ℕ) (xs : List Node) (q : ℕ)
      → IsOrdered n xs
      → node_of f xs ≡ some i
      → node_of q (erase_node i xs) ≡ (if f == q then none else node_of q xs)
  unfolding node_of erase_node
  node_of-erase_node n i [] q o e = cc
  node_of-erase_node n i (x ∷ xs) q o e =
      ground (arith, node_of-erase_node x.id i xs q o.2, node_of-lt f x.id i xs o.2)

  pub erase_node-IsOrdered :
      (n i : ℕ) (xs : List Node)
      → IsOrdered n xs
      → node_of f xs ≡ some i
      → IsOrdered n (erase_node i xs)
  unfolding node_of erase_node
  erase_node-IsOrdered n i [] o e = tt
  erase_node-IsOrdered n i (x ∷ xs) o e = elim (Bool-cases (x.id == i)) [
    | inl here ↦ rw here (IsOrdered-mono x.id n xs (omega arith) o.2)
    | inr later ↦
        let rest : node_of f xs ≡ some i = ground arith in
        rw later (
          o.0,
          ground (arith, node_of-erase_node x.id i xs x.frame o.2 rest),
          erase_node-IsOrdered x.id i xs o.2 rest,
        )
  ]

-- What `pop_back` takes off, seen with the identities and without.
abbrev pub PopsBack : ℕ → List Node → Option (List Node × Node) → Type 0
PopsBack n xs none = xs ≡ []
PopsBack n xs (some (rest, node)) =
    (frames xs ≡ frames rest ++ node.frame ∷ [])
    × IsOrdered n rest
    × (node_of node.frame xs ≡ some node.id)
    × ((q : ℕ) → node_of q rest ≡ (if node.frame == q then none else node_of q xs))

pub pop_back-PopsBack : (n : ℕ) (xs : List Node) → IsOrdered n xs → PopsBack n xs (pop_back xs)
unfolding pop_back node_of
pop_back-PopsBack n [] o = refl
pop_back-PopsBack n (x ∷ xs) o = grow (pop_back xs) (pop_back-PopsBack x.id xs o.2)
  where
    grow :
        (r : Option (List Node × Node))
        → PopsBack x.id xs r
        → PopsBack n
            (x ∷ xs)
            (elim r [ none ↦ some ([], x) | some (rest, node) ↦ some (x ∷ rest, node) ])
    grow none e =
        (ap (λ ys. x.frame ∷ frames ys) e, tt, ground arith, λ q. ground (arith, ap (node_of q) e))
    grow (some (rest, node)) p = (
      ap (◌∷◌ x.frame) p.0,
      (o.0, ground (arith, p.3 x.frame, o.1), p.1),
      ground (arith, p.2, o.1),
      λ q. ground (arith, p.3 q, p.2, o.1),
    )
