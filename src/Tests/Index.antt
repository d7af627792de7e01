-- ===== src/Tests/Index.antt =====
-- The theorems on the index at concrete inputs, with numbers for keys.
use Prim.Native.Nat.{compare}
use rmdb.Prelude.{
  ℕ, ◌≡◌, refl, Bool, true, false, Option, List, ltb, not, ◌&&◌, none, some, [], ◌∷◌, ◌++◌, length,
  replicate, ◌>>=◌, if◌then◌else◌, ◌==◌, arith,
}
use rmdb.Prelude.Int.{ℤ, pos}
use rmdb.Transaction.Types.{Rid}
use rmdb.Index.Order.{KeyOrder, is_lt, is_gt, same}
use rmdb.Index.Node.{Node, Entries, no_page, take, drop, get_min_size, lower_bound, insert, remove}
use rmdb.Index.Header
use rmdb.Index.Header.{IxFileHdr, update_tot_len, serialize, deserialize}
use rmdb.Index.Header.Writing.{IsStored}
use rmdb.Index.Header.RoundTrip.{deserialize-serialize}
use rmdb.Index.Keys.{ColType, type_int, type_float, type_string, Key, ix_compare}
use rmdb.Index.Keys.Preorder.{IsFloatOrder, HoldsNumbers, ix_compare-preorder}
use rmdb.Index.Node.Search.{IsSorted}
use rmdb.Index.Node.Laws.{lookup, is_some}
use rmdb.Index.Node.Updates.{insert-lookup, remove-lookup}
use rmdb.Index.Tree.{IndexHandle, init_root_page, fetch_node, get_value}
use rmdb.Index.Tree.Insertion.{split, insert_entry}
use rmdb.Index.Tree.Scan.{Iid, leaf_begin, leaf_end, scan_from}
use rmdb.Index.Tree.Shape.{IsTree, get_value-lookup}
use rmdb.Index.Tree.Halves.{IsSplit, split-IsSplit}
use rmdb.Index.Tree.FirstSplit.{IsRootLeaf, get_value-insert_entry}
use rmdb.Index.Tree.Emptied.{adjust_root-insert_entry-scan_from}
use rmdb.Index.Tree.Deletion.{adjust_root}

nat_flip : (a b : ℕ) → is_lt (compare b a) ≡ is_gt (compare a b)
nat_flip a b = ground arith

nat_trans :
    (a b c : ℕ)
    → is_gt (compare a b) ≡ false
    → is_gt (compare b c) ≡ false
    → is_gt (compare a c) ≡ false
nat_trans a b c h k = ground arith

abbrev nat_order : KeyOrder ℕ
nat_order = record { compare = compare; flip = nat_flip; trans = nat_trans }

abbrev rid_of : ℕ → Rid
rid_of n = record { page_no = pos n; slot_no = pos 0 }

abbrev few : Entries ℕ
few = (1, rid_of 11) ∷ (3, rid_of 13) ∷ (5, rid_of 15) ∷ []

few-IsSorted : IsSorted nat_order few
few-IsSorted = ((refl, (refl, tt)), ((refl, tt), (tt, tt)))

insert-lookup_example :
    (more : Entries ℕ) × (place : ℤ) × (insert nat_order few 4 (rid_of 14)
      ≡ some (more, length more, place))
    × IsSorted nat_order more
    × ((q : ℕ)
        → lookup nat_order more q ≡ (
            if same nat_order q 4 && not (is_some nat_order (lookup nat_order few 4))
            then some (rid_of 14)
            else lookup nat_order few q))
insert-lookup_example = insert-lookup nat_order few 4 (rid_of 14) few-IsSorted

remove-lookup_example :
    (fewer : Entries ℕ) × (remove nat_order few 3
      ≡ some (fewer, length fewer, lower_bound nat_order few 3))
    × IsSorted nat_order fewer
    × ((q : ℕ)
        → lookup nat_order fewer q ≡ (if same nat_order q 3 then none else lookup nat_order few q))
remove-lookup_example = remove-lookup nat_order few 3 few-IsSorted

-- The head of the ring of leaves, and a leaf on page 2.
abbrev head_leaf : Node ℕ
head_leaf = record {
  parent = no_page;
  is_leaf = true;
  prev_leaf = pos 2;
  next_leaf = pos 2;
  entries = [];
}

abbrev only_leaf : Entries ℕ → Node ℕ
only_leaf entries = record {
  parent = no_page;
  is_leaf = true;
  prev_leaf = pos 1;
  next_leaf = pos 1;
  entries = entries;
}

abbrev one_leaf : IndexHandle ℕ
one_leaf = record {
  nodes = λ p. if p == 1 then some head_leaf else if p == 2 then some (only_leaf few) else none;
  next_page = 3;
  root_page = init_root_page;
  num_pages = pos 3;
  first_leaf = pos 2;
  last_leaf = pos 2;
  btree_order = 3;
  deleted_pages = [];
}

one_leaf-IsRootLeaf : IsRootLeaf nat_order one_leaf 2 1 (only_leaf few) head_leaf
unfolding fetch_node
one_leaf-IsRootLeaf = record {
  root = refl;
  fetched = refl;
  fetched_next = refl;
  leaf = refl;
  orphan = refl;
  ring = refl;
  apart = refl;
  fresh = omega arith;
  fresh_next = omega arith;
  sorted = few-IsSorted;
  order_pos = omega arith;
  room = omega arith;
}

get_value-insert_entry_example :
    (g : IndexHandle ℕ) × (page : ℤ) × (insert_entry nat_order ◌==◌ 5 one_leaf 4 (rid_of 14)
      ≡ some (g, page))
    × ((q : ℕ)
        → get_value nat_order 6 g q ≡ (
            if same nat_order q 4
            then some (some (rid_of 14))
            else get_value nat_order 6 one_leaf q))
get_value-insert_entry_example =
    get_value-insert_entry nat_order ◌==◌ 4 one_leaf 2 1 (only_leaf few) head_leaf 4 (rid_of 14)
      one_leaf-IsRootLeaf (unfold lookup in refl)

split-IsSplit_example :
    (take (get_min_size 3) few ++ drop (get_min_size 3) few ≡ few)
    × ((after : IndexHandle ℕ) × (split one_leaf (pos 2) ≡ some (after, pos 3))
        × IsSplit one_leaf after 2 1 (only_leaf few) head_leaf)
split-IsSplit_example =
    split-IsSplit one_leaf 2 1 (only_leaf few) head_leaf (unfold fetch_node in refl)
      (unfold fetch_node in refl) refl refl refl refl refl

-- Two leaves under a root.
abbrev two_leaves : IndexHandle ℕ
two_leaves = record one_leaf {
  nodes = λ p.
      if p == 2
      then some (record (only_leaf ((1, rid_of 11) ∷ (3, rid_of 13) ∷ [])) {
        parent = pos 4;
        next_leaf = pos 3;
      })
      else if p == 3
      then some (record (only_leaf ((5, rid_of 15) ∷ [])) { parent = pos 4; prev_leaf = pos 2 })
      else if p == 4
      then some (record (only_leaf ((1, rid_of 2) ∷ (5, rid_of 3) ∷ [])) { is_leaf = false })
      else none;
  next_page = 5;
  root_page = pos 4;
}

two_leaves-IsTree : IsTree nat_order two_leaves 1 (pos 4) few
unfolding fetch_node
two_leaves-IsTree = (
  _,
  1,
  rid_of 2,
  (5, rid_of 3) ∷ [],
  refl,
  refl,
  refl,
  ((refl, tt), (tt, tt)),
  (
    (1, rid_of 11) ∷ (3, rid_of 13) ∷ [],
    (5, rid_of 15) ∷ [],
    refl,
    (_, refl, refl, refl, ((refl, tt), (tt, tt))),
    (refl, (refl, tt)),
    (refl, tt),
    (_, refl, refl, refl, (tt, tt)),
  ),
)

get_value-lookup_example : get_value nat_order 2 two_leaves 3 ≡ some (lookup nat_order few 3)
get_value-lookup_example =
    get_value-lookup nat_order two_leaves 1 2 3 few (omega arith) two_leaves-IsTree

-- A tree whose last entry was deleted, and what an insertion makes of it.
abbrev emptied : IndexHandle ℕ
emptied = record one_leaf {
  nodes = λ p. if p == 1 then some head_leaf else if p == 2 then some (only_leaf []) else none;
}

emptied-IsRootLeaf : IsRootLeaf nat_order emptied 2 1 (only_leaf []) head_leaf
unfolding fetch_node
emptied-IsRootLeaf = record {
  root = refl;
  fetched = refl;
  fetched_next = refl;
  leaf = refl;
  orphan = refl;
  ring = refl;
  apart = refl;
  fresh = omega arith;
  fresh_next = omega arith;
  sorted = tt;
  order_pos = omega arith;
  room = omega arith;
}

adjust_root-insert_entry-scan_from_example :
    (reset g : IndexHandle ℕ) × (page : ℤ) × (end : Iid) × (adjust_root emptied (pos 2)
      ≡ some (reset, true))
    × (insert_entry nat_order ◌==◌ 3 reset 7 (rid_of 17) ≡ some (g, page))
    × ((q : ℕ)
        → get_value nat_order 4 g q
          ≡ (if same nat_order q 7 then some (some (rid_of 17)) else get_value nat_order 4 reset q))
    × ((g.first_leaf ≡ no_page) × (g.last_leaf ≡ no_page))
    × (leaf_begin g ≡ some end)
    × (leaf_end g ≡ some end)
    × (scan_from 8 g end end ≡ some [])
adjust_root-insert_entry-scan_from_example =
    adjust_root-insert_entry-scan_from nat_order ◌==◌ 2 7 emptied 1 (only_leaf []) head_leaf 7
      (rid_of 17) emptied-IsRootLeaf refl

-- Floats that are numbers or not, and columns of a number, a float and two bytes.
abbrev float_less : Option ℕ → Option ℕ → Bool
float_less (some a) (some b) = ltb a b
float_less none b = false
float_less (some a) none = false

abbrev IsNumber : Option ℕ → Type 0
IsNumber none = ⊥
IsNumber (some a) = Unit

float_less-IsFloatOrder : IsFloatOrder float_less IsNumber
float_less-IsFloatOrder = record { asymmetric = asymmetric; steps = steps }
  where
    asymmetric : (a b : Option ℕ) → float_less a b ≡ true → float_less b a ≡ false
    asymmetric none none h = refl
    asymmetric none (some b) h = refl
    asymmetric (some a) none h = refl
    asymmetric (some a) (some b) h = ground arith

    steps :
        (a b c : Option ℕ)
        → IsNumber a
        → IsNumber b
        → IsNumber c
        → float_less b a ≡ false
        → float_less c b ≡ false
        → float_less c a ≡ false
    steps (some a) (some b) (some c) x y z p q = ground arith
    steps none b c x y z p q = absurd x
    steps (some a) none c x y z p q = absurd y
    steps (some a) (some b) none x y z p q = absurd z

abbrev three_columns : List ColType
three_columns = type_int ∷ type_float ∷ type_string 2 ∷ []

ix_compare-preorder_example :
    ((a b : Key float_less three_columns)
      → is_lt (ix_compare float_less three_columns b a)
        ≡ is_gt (ix_compare float_less three_columns a b))
    × ((a b c : Key float_less three_columns)
        → HoldsNumbers float_less IsNumber float_less-IsFloatOrder three_columns a
        → HoldsNumbers float_less IsNumber float_less-IsFloatOrder three_columns b
        → HoldsNumbers float_less IsNumber float_less-IsFloatOrder three_columns c
        → is_gt (ix_compare float_less three_columns a b) ≡ false
        → is_gt (ix_compare float_less three_columns b c) ≡ false
        → is_gt (ix_compare float_less three_columns a c) ≡ false)
ix_compare-preorder_example =
    ix_compare-preorder float_less IsNumber float_less-IsFloatOrder three_columns

-- The header of an index over a number and a string of eight bytes.
abbrev empty_header : IxFileHdr
empty_header = record {
  first_free_page_no = pos 0;
  num_pages = pos 0;
  root_page = pos 0;
  col_num = pos 0;
  col_types = [];
  col_lens = [];
  col_tot_len = pos 0;
  btree_order = pos 0;
  keys_size = pos 0;
  first_leaf = pos 0;
  last_leaf = pos 0;
  tot_len = pos 0;
}

abbrev two_columns : IxFileHdr
two_columns = record {
  first_free_page_no = no_page;
  num_pages = pos 3;
  root_page = pos 2;
  col_num = pos 2;
  col_types = Header.type_int ∷ Header.type_string ∷ [];
  col_lens = pos 4 ∷ pos 8 ∷ [];
  col_tot_len = pos 12;
  btree_order = pos 202;
  keys_size = pos 2436;
  first_leaf = pos 2;
  last_leaf = pos 4;
  tot_len = pos 0;
}

two_columns-IsStored : IsStored two_columns
two_columns-IsStored = record {
  numbered = refl;
  lens = refl;
  few = omega arith;
  in_range = (
    omega arith,
    (
      omega arith,
      (omega arith, (omega arith, (omega arith, (omega arith, (omega arith, (omega arith, tt)))))),
    ),
  );
  lens_in_range = (omega arith, (omega arith, tt));
}

deserialize-serialize_example :
    (serialize (update_tot_len two_columns) (replicate 56 0 ++ (1 ∷ 2 ∷ []))
      >>= deserialize empty_header)
    ≡ some (update_tot_len two_columns)
deserialize-serialize_example =
    deserialize-serialize empty_header two_columns (replicate 56 0) (1 ∷ 2 ∷ []) refl refl
      two_columns-IsStored refl
