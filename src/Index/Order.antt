-- ===== src/Index/Order.antt =====
-- What the index needs of `ix_compare` (src/index/ix_index_handle.h): a comparison of keys that is a
-- total preorder. The test `above a b` is `ix_compare(a, b) > 0`.
use Prim.Native.Nat.{Ordering}
use rmdb.Prelude.{◌≡◌, inl, inr, Bool, true, false, not, ◌&&◌, arith, Bool-cases}

abbrev pub is_lt : Ordering → Bool
is_lt Ordering.lt = true
is_lt _ = false

abbrev pub is_gt : Ordering → Bool
is_gt Ordering.gt = true
is_gt _ = false

abbrev pub is_eq : Ordering → Bool
is_eq Ordering.eq = true
is_eq _ = false

pub record KeyOrder (K : Type 0) : Type 0 where
  pub compare : K → K → Ordering
  pub flip : (a b : K) → is_lt (compare b a) ≡ is_gt (compare a b)
  pub trans :
      (a b c : K)
      → is_gt (compare a b) ≡ false
      → is_gt (compare b c) ≡ false
      → is_gt (compare a c) ≡ false

-- An ordering in terms of its tests.
pub gt_of : (x : Ordering) → is_gt x ≡ not (is_lt x) && not (is_eq x)
gt_of x = ground arith

module _ {K : Type 0} (o : KeyOrder K) where
  abbrev pub below : K → K → Bool
  below a b = is_lt (o.compare a b)

  -- `compare a b > 0`
  abbrev pub above : K → K → Bool
  above a b = is_gt (o.compare a b)

  abbrev pub same : K → K → Bool
  same a b = is_eq (o.compare a b)

  -- The three tests exclude one another.
  pub exclusive :
      (a b : K)
      → (above a b ≡ not (below a b) && not (same a b))
        × (same a b ≡ not (below a b) && not (above a b))
  exclusive a b = ground arith

  pub above-below : (a b : K) → above a b ≡ below b a
  above-below a b = ground (arith, o.flip a b)

  pub le_lt_trans : (a b c : K) → above a b ≡ false → below b c ≡ true → below a c ≡ true
  le_lt_trans a b c h k =
      ground (arith, o.trans c a b, o.flip a c, o.flip c a, o.flip b c, o.flip c b)

  pub lt_le_trans : (a b c : K) → below a b ≡ true → above b c ≡ false → below a c ≡ true
  lt_le_trans a b c h k =
      ground (arith, o.trans b c a, o.flip a c, o.flip c a, o.flip a b, o.flip b a)

  pub same_flip : (a b : K) → same a b ≡ same b a
  same_flip a b = ground (arith, o.flip a b, o.flip b a)

  -- Equal keys compare alike with any third.
  pub same_below : (a b c : K) → same a b ≡ true → below a c ≡ below b c
  same_below a b c h = elim (Bool-cases (below b c)) [
    | inl yes' ↦ ground (arith, le_lt_trans a b c, exclusive a b)
    | inr no' ↦ elim (Bool-cases (below a c)) [
      | inl q ↦ ground (arith, le_lt_trans b a c, exclusive b a, same_flip a b)
      | inr q ↦ ground arith
    ]
  ]

  pub same_above : (a b c : K) → same a b ≡ true → above a c ≡ above b c
  same_above a b c h = elim (Bool-cases (above b c)) [
    | inl yes' ↦
        ground
          (arith, lt_le_trans c b a, above-below b c, above-below a c, exclusive b a, same_flip a b)
    | inr no' ↦ elim (Bool-cases (above a c)) [
      | inl q ↦ ground (arith, lt_le_trans c a b, above-below a c, above-below b c, exclusive a b)
      | inr q ↦ ground arith
    ]
  ]

  pub same_same : (a b c : K) → same a b ≡ true → same a c ≡ same b c
  same_same a b c h =
      ground (arith, same_below a b c h, same_above a b c h, exclusive a c, exclusive b c)
