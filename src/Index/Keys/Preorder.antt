-- ===== src/Index/Keys/Preorder.antt =====
-- What the index relies on in `ix_compare` of src/index/ix_index_handle.h, from the laws of `<` on floats.
use Prim.Native.Nat.{compare, Ordering}
use rmdb.Prelude.{ℕ, zero, suc, ◌≡◌, refl, Bool, true, false, List, [], ◌∷◌, arith}
use rmdb.Prelude.Int.{ℤ, ltb_ℤ}
use rmdb.Index.Order.{KeyOrder, is_lt, is_gt}
use rmdb.Index.Keys.{
  ColType, type_int, type_float, type_string, three_way, then_compare, Bytes, memcmp, Value,
  compare_value, Key, ix_compare,
}

-- Two answers of comparisons, each the opposite of the other.
abbrev Opposite : Ordering → Ordering → Type 0
Opposite x y = (is_lt y ≡ is_gt x) × (is_lt x ≡ is_gt y)

Opposite-then :
    (x y u v : Ordering)
    → Opposite x y
    → Opposite u v
    → Opposite (then_compare x u) (then_compare y v)
Opposite-then x y u v h k = (ground (arith, h, k), ground (arith, h, k))

-- "Not above" goes over two steps.
abbrev Steps : Ordering → Ordering → Ordering → Type 0
Steps ab bc ac = is_gt ab ≡ false → is_gt bc ≡ false → is_gt ac ≡ false

Steps-then :
    (ab ba bc cb ac ca uv vw uw : Ordering)
    → Opposite ab ba
    → Opposite bc cb
    → Opposite ac ca
    → Steps ab bc ac
    → Steps bc ca ba
    → Steps ca ab cb
    → Steps uv vw uw
    → Steps (then_compare ab uv) (then_compare bc vw) (then_compare ac uw)
Steps-then ab ba bc cb ac ca uv vw uw f g h s t u v p q = ground (arith, f, g, h, s, t, u, v)

byte-Opposite : (a b : ℕ) → Opposite (compare a b) (compare b a)
byte-Opposite a b = (ground arith, ground arith)

byte-Steps : (a b c : ℕ) → Steps (compare a b) (compare b c) (compare a c)
byte-Steps a b c p q = ground arith

memcmp-Opposite : (n : ℕ) (a b : Bytes n) → Opposite (memcmp n a b) (memcmp n b a)
unfolding memcmp
memcmp-Opposite zero a b = (refl, refl)
memcmp-Opposite (suc n) a b =
    Opposite-then (compare (a.0) (b.0)) (compare (b.0) (a.0)) (memcmp n (a.1) (b.1))
      (memcmp n (b.1) (a.1)) (byte-Opposite (a.0) (b.0)) (memcmp-Opposite n (a.1) (b.1))

memcmp-Steps : (n : ℕ) (a b c : Bytes n) → Steps (memcmp n a b) (memcmp n b c) (memcmp n a c)
unfolding memcmp
memcmp-Steps zero a b c = λ p q. refl
memcmp-Steps (suc n) a b c =
    Steps-then (compare (a.0) (b.0)) (compare (b.0) (a.0)) (compare (b.0) (c.0))
      (compare (c.0) (b.0)) (compare (a.0) (c.0)) (compare (c.0) (a.0)) (memcmp n (a.1) (b.1))
      (memcmp n (b.1) (c.1)) (memcmp n (a.1) (c.1)) (byte-Opposite (a.0) (b.0))
      (byte-Opposite (b.0) (c.0)) (byte-Opposite (a.0) (c.0)) (byte-Steps (a.0) (b.0) (c.0))
      (byte-Steps (b.0) (c.0) (a.0)) (byte-Steps (c.0) (a.0) (b.0))
      (memcmp-Steps n (a.1) (b.1) (c.1))

-- The machine's `<`: never both ways round, and "not less" goes over two steps between floats that are
-- numbers.
pub record IsFloatOrder {F : Type 0} (less : F → F → Bool) (number : F → Type 0) : Type 0 where
  pub asymmetric : (a b : F) → less a b ≡ true → less b a ≡ false
  pub steps :
      (a b c : F)
      → number a
      → number b
      → number c
      → less b a ≡ false
      → less c b ≡ false
      → less c a ≡ false

module _ {A : Type 0} (less : A → A → Bool)
    (asymmetric : (a b : A) → less a b ≡ true → less b a ≡ false) where
  three_way-Opposite : (a b : A) → Opposite (three_way less a b) (three_way less b a)
  three_way-Opposite a b = (
    ground (arith, asymmetric a b, asymmetric b a),
    ground (arith, asymmetric a b, asymmetric b a),
  )

  three_way-Steps :
      (a b c : A)
      → (less b a ≡ false → less c b ≡ false → less c a ≡ false)
      → Steps (three_way less a b) (three_way less b c) (three_way less a c)
  three_way-Steps a b c h p q = ground (arith, h, asymmetric a b, asymmetric b c, asymmetric a c)

int_asymmetric : (a b : ℤ) → ltb_ℤ a b ≡ true → ltb_ℤ b a ≡ false
int_asymmetric a b h = ground arith

int_steps : (a b c : ℤ) → ltb_ℤ b a ≡ false → ltb_ℤ c b ≡ false → ltb_ℤ c a ≡ false
int_steps a b c p q = ground arith

module _ {F : Type 0} (less : F → F → Bool) (number : F → Type 0)
    (law : IsFloatOrder less number) where
  -- All floats of a key are numbers.
  pub Holds : (t : ColType) → Value less t → Type 0
  Holds type_float x = number x
  Holds type_int x = Unit
  Holds (type_string n) x = Unit

  pub HoldsNumbers : (types : List ColType) → Key less types → Type 0
  HoldsNumbers [] key = Unit
  HoldsNumbers (t ∷ types) key = Holds t (key.0) × HoldsNumbers types (key.1)

  compare_value-Opposite :
      (t : ColType) (a b : Value less t)
      → Opposite (compare_value less t a b) (compare_value less t b a)
  unfolding compare_value
  compare_value-Opposite type_int a b = three_way-Opposite ltb_ℤ int_asymmetric a b
  compare_value-Opposite type_float a b = three_way-Opposite less law.asymmetric a b
  compare_value-Opposite (type_string n) a b = memcmp-Opposite n a b

  compare_value-Steps :
      (t : ColType) (a b c : Value less t)
      → Holds t a
      → Holds t b
      → Holds t c
      → Steps (compare_value less t a b) (compare_value less t b c) (compare_value less t a c)
  unfolding compare_value Holds
  compare_value-Steps type_int a b c x y z =
      three_way-Steps ltb_ℤ int_asymmetric a b c (int_steps a b c)
  compare_value-Steps type_float a b c x y z =
      three_way-Steps less law.asymmetric a b c (law.steps a b c x y z)
  compare_value-Steps (type_string n) a b c x y z = memcmp-Steps n a b c

  ix_compare-Opposite :
      (types : List ColType) (a b : Key less types)
      → Opposite (ix_compare less types a b) (ix_compare less types b a)
  unfolding ix_compare
  ix_compare-Opposite [] a b = (refl, refl)
  ix_compare-Opposite (t ∷ types) a b =
      Opposite-then (compare_value less t (a.0) (b.0)) (compare_value less t (b.0) (a.0))
        (ix_compare less types (a.1) (b.1)) (ix_compare less types (b.1) (a.1))
        (compare_value-Opposite t (a.0) (b.0)) (ix_compare-Opposite types (a.1) (b.1))

  ix_compare-Steps :
      (types : List ColType) (a b c : Key less types)
      → HoldsNumbers types a
      → HoldsNumbers types b
      → HoldsNumbers types c
      → Steps (ix_compare less types a b) (ix_compare less types b c) (ix_compare less types a c)
  unfolding ix_compare HoldsNumbers
  ix_compare-Steps [] a b c x y z = λ p q. refl
  ix_compare-Steps (t ∷ types) a b c x y z =
      let v = λ (k l : Key less (t ∷ types)). compare_value less t (k.0) (l.0) in
      let r = λ (k l : Key less (t ∷ types)). ix_compare less types (k.1) (l.1) in
      let o = λ (k l : Key less (t ∷ types)). compare_value-Opposite t (k.0) (l.0) in
      Steps-then (v a b) (v b a) (v b c) (v c b) (v a c) (v c a) (r a b) (r b c) (r a c) (o a b)
        (o b c) (o a c) (compare_value-Steps t (a.0) (b.0) (c.0) (x.0) (y.0) (z.0))
        (compare_value-Steps t (b.0) (c.0) (a.0) (y.0) (z.0) (x.0))
        (compare_value-Steps t (c.0) (a.0) (b.0) (z.0) (x.0) (y.0))
        (ix_compare-Steps types (a.1) (b.1) (c.1) (x.1) (y.1) (z.1))

  -- Keys of any columns: a comparison turned round has the opposite answer, whatever the floats are; and
  -- between keys whose floats are all numbers, not being above goes over two steps.
  pub ix_compare-preorder :
      (types : List ColType)
      → ((a b : Key less types)
          → is_lt (ix_compare less types b a) ≡ is_gt (ix_compare less types a b))
        × ((a b c : Key less types)
            → HoldsNumbers types a
            → HoldsNumbers types b
            → HoldsNumbers types c
            → is_gt (ix_compare less types a b) ≡ false
            → is_gt (ix_compare less types b c) ≡ false
            → is_gt (ix_compare less types a c) ≡ false)
  ix_compare-preorder types =
      (λ a b. (ix_compare-Opposite types a b).0, λ a b c x y z. ix_compare-Steps types a b c x y z)

  -- So the index can work with such keys.
  pub number_keys :
      (types : List ColType) → KeyOrder ((key : Key less types) × HoldsNumbers types key)
  number_keys types = record {
    compare = λ a b. ix_compare less types (a.0) (b.0);
    flip = λ a b. (ix_compare-preorder types).0 (a.0) (b.0);
    trans = λ a b c. (ix_compare-preorder types).1 (a.0) (b.0) (c.0) (a.1) (b.1) (c.1);
  }
