-- ===== src/Index/Tree/Scan.antt =====
-- src/index/ix_index_handle.cpp: positions in the leaves, `lower_bound`, `upper_bound`, `leaf_begin`,
-- `leaf_end` and `get_rid`; src/index/ix_scan.cpp: `IxScan`. The cached leaf of a scan is the page
-- that the position names, so a scan is its position and its end.
use rmdb.Prelude.{
  ℕ, zero, suc, ◌+◌, Bool, true, false, not, ◌&&◌, ◌||◌, Option, none, some, List, [], ◌∷◌, length,
  leb, if◌then◌else◌, ◌==◌, get_elem?, ◌>>=◌,
}
use rmdb.Prelude.Int.{ℤ, pos, ltb_ℤ, ◌==ℤ◌}
use rmdb.Transaction.Types.{Rid}
use rmdb.Index.Order.{KeyOrder}
use rmdb.Index.Node.{Node, no_page, lower_bound, upper_bound}
use rmdb.Index.Tree.{IndexHandle, leaf_header_page, fetch_node, find_leaf_page}

pub record Iid : Type 0 where
  pub page_no : ℤ
  pub slot_no : ℕ

abbrev pub iid_eq : Iid → Iid → Bool
iid_eq i j = (i.page_no ==ℤ j.page_no) && (i.slot_no == j.slot_no)

module _ {K : Type 0} where
  -- Where a position in a leaf that is past its entries stands: in the next leaf, if there is one.
  unfoldable pub place_in_leaf : IndexHandle K → ℤ → Node K → ℕ → Iid
  place_in_leaf h page leaf i =
      if (i == length leaf.entries) && not (page ==ℤ h.last_leaf)
      then record { page_no = leaf.next_leaf; slot_no = 0 }
      else record { page_no = page; slot_no = i }

  unfoldable pub leaf_end : IndexHandle K → Option Iid
  unfolding fetch_node
  leaf_end h =
      if h.last_leaf ==ℤ no_page then some (record { page_no = no_page; slot_no = 0 }) else (do
        leaf ← fetch_node h h.last_leaf
        some (record { page_no = h.last_leaf; slot_no = length leaf.entries }))

  unfoldable pub leaf_begin : IndexHandle K → Option Iid
  unfolding leaf_end
  leaf_begin h =
      if h.first_leaf ==ℤ no_page
      then leaf_end h
      else some (record { page_no = h.first_leaf; slot_no = 0 })

  unfoldable pub get_rid : IndexHandle K → Iid → Option Rid
  unfolding fetch_node
  get_rid h iid = if ltb_ℤ iid.page_no (pos 0) then none else (do
    node ← fetch_node h iid.page_no
    entry ← (if node.is_leaf then get_elem? node.entries iid.slot_no else none)
    some entry.1)

  -- The position after a leaf: the start of the next one, or the end of the scan.
  unfoldable pub next_page_or_end : Node K → Iid → Iid
  next_page_or_end node end =
      if (node.next_leaf ==ℤ no_page) || (node.next_leaf ==ℤ leaf_header_page)
      then end
      else record { page_no = node.next_leaf; slot_no = 0 }

  -- `IxScan::next`; the asserted conditions are refused.
  unfoldable pub next : IndexHandle K → Iid → Iid → Option Iid
  unfolding fetch_node next_page_or_end
  next h end iid = if iid_eq iid end then none else (do
    node ← fetch_node h iid.page_no
    if node.is_leaf
        then some (
            if leb (length node.entries) (iid.slot_no + 1)
            then next_page_or_end node end
            else record iid { slot_no = iid.slot_no + 1 })
        else none)

  -- `IxScan::rid`
  unfoldable pub rid : IndexHandle K → Iid → Iid → Option Rid
  unfolding fetch_node
  rid h end iid = if iid_eq iid end then none else (do
    node ← fetch_node h iid.page_no
    entry ← (if node.is_leaf then get_elem? node.entries iid.slot_no else none)
    some entry.1)

  -- A client's loop, `for (; !scan.is_end(); scan.next()) use(scan.rid())`, for at most `fuel` rounds.
  unfoldable pub scan_from : ℕ → IndexHandle K → Iid → Iid → Option (List Rid)
  unfolding next rid
  scan_from zero h end iid = none
  scan_from (suc fuel) h end iid =
      let rest = scan_from fuel h end in
      elim (iid_eq iid end) [
        | true ↦ some []
        | false ↦ do
          found ← rid h end iid
          after ← next h end iid
          others ← rest after
          some (found ∷ others)
      ]

module _ {K : Type 0} (o : KeyOrder K) where
  unfoldable pub lower_bound_iid : ℕ → IndexHandle K → K → Option Iid
  unfolding fetch_node find_leaf_page lower_bound place_in_leaf
  lower_bound_iid fuel h key = do
    page ← find_leaf_page o fuel h key false
    leaf ← fetch_node h page
    some (place_in_leaf h page leaf (lower_bound o leaf.entries key))

  unfoldable pub upper_bound_iid : ℕ → IndexHandle K → K → Option Iid
  unfolding fetch_node find_leaf_page upper_bound place_in_leaf
  upper_bound_iid fuel h key = do
    page ← find_leaf_page o fuel h key false
    leaf ← fetch_node h page
    some (place_in_leaf h page leaf (upper_bound o leaf.entries key))
