-- ===== src/Index/Keys.antt =====
-- `ix_compare` of src/index/ix_index_handle.h: keys are compared column by column. A key is the tuple of
-- its columns' values, and a string column the tuple of its bytes. Floating-point numbers and the
-- machine's `<` on them are parameters.
pub mod Preorder
use Prim.Native.Nat.{compare, Ordering}
use rmdb.Prelude.{ℕ, zero, suc, ◌≡◌, refl, Bool, true, false, List, [], ◌∷◌, if◌then◌else◌, arith}
use rmdb.Prelude.Int.{ℤ, ltb_ℤ}
use rmdb.Index.Order.{KeyOrder, is_lt, is_gt, is_eq}

-- The types of columns; a string has a fixed number of bytes.
pub data ColType : Type 0 where
  type_int : ColType
  type_float : ColType
  type_string : ℕ → ColType

-- `(a < b) ? -1 : ((a > b) ? 1 : 0)`, where `a > b` is `b < a`.
abbrev pub three_way : {A : Type 0} → (A → A → Bool) → A → A → Ordering
three_way less a b =
    if less a b then Ordering.lt else (if less b a then Ordering.gt else Ordering.eq)

-- What `memcmp` and the loop over columns do: the first difference decides.
abbrev pub then_compare : Ordering → Ordering → Ordering
then_compare first rest = if is_eq first then rest else first

-- The bytes of a string column.
abbrev pub Bytes : ℕ → Type 0
Bytes zero = Unit
Bytes (suc n) = ℕ × Bytes n

unfoldable pub memcmp : (n : ℕ) → Bytes n → Bytes n → Ordering
memcmp zero a b = Ordering.eq
memcmp (suc n) a b = then_compare (compare (a.0) (b.0)) (memcmp n (a.1) (b.1))

module _ {F : Type 0} (less : F → F → Bool) where
  abbrev pub Value : ColType → Type 0
  Value type_int = ℤ
  Value type_float = F
  Value (type_string n) = Bytes n

  unfoldable pub compare_value : (t : ColType) → Value t → Value t → Ordering
  unfolding memcmp
  compare_value type_int a b = three_way ltb_ℤ a b
  compare_value type_float a b = three_way less a b
  compare_value (type_string n) a b = memcmp n a b

  abbrev pub Key : List ColType → Type 0
  Key [] = Unit
  Key (t ∷ types) = Value t × Key types

  unfoldable pub ix_compare : (types : List ColType) → Key types → Key types → Ordering
  unfolding compare_value
  ix_compare [] a b = Ordering.eq
  ix_compare (t ∷ types) a b =
      then_compare (compare_value t (a.0) (b.0)) (ix_compare types (a.1) (b.1))
