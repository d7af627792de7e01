-- ===== src/Index/Node/Removal.antt =====
-- Removal from a node against the plain map of Node/Laws, and the child that `internal_lookup` takes.
use native.Mathlib.Numerals.{add-one}
use rmdb.Prelude.{
  sym, ℕ, ◌+◌, ◌-◌, ◌≡◌, inl, inr, refl, ap, ◌∙◌, true, false, not, Option, none, some, [], ◌∷◌,
  length, if◌then◌else◌, ◌==◌, arith, Bool-cases,
}
use rmdb.Prelude.Int.{ℤ}
use rmdb.Transaction.Types.{Rid}
use rmdb.Index.Order.{lt_le_trans, KeyOrder, below, above, same, exclusive, same_flip, same_same}
use rmdb.Index.Node.{Entries, value_at, lower_bound, erase_pair, remove, internal_lookup}
use rmdb.Index.Node.Search.{prefix, AllAfter, IsSorted, lower_bound-prefix, upper_bound-prefix}
use rmdb.Index.Node.Laws.{lookup, drop_key, is_some, found_at-lookup, lookup-AllAfter}

module _ {K : Type 0} (o : KeyOrder K) where
  erase_at :
      (entries : Entries K) (key : K)
      → IsSorted o entries
      → is_some o (lookup o entries key) ≡ true
      → erase_pair (prefix (λ k. not (above o key k)) entries) entries
        ≡ some (drop_key o entries key)
  unfolding prefix lookup drop_key erase_pair
  erase_at [] key s hit = absurd (cc hit)
  erase_at ((k, rid) ∷ rest) key s hit = elim (Bool-cases (above o key k)) [
    | inl gt ↦
        let differ : same o key k ≡ false = ground (arith, exclusive o key k) in
        let ih = erase_at rest key s.1 (ground arith) in
        rw (gt, differ, prefix, add-one, drop_key) (ground arith)
    | inr le ↦ rw (le, prefix, drop_key) (ground (arith, lookup-AllAfter o key k rest le s.0))
  ]

  -- Removal from sorted entries drops the entry of the key, if there is one, and answers the number of
  -- entries that are left and the place of the key. It never fails.
  pub remove-drop_key :
      (entries : Entries K) (key : K)
      → IsSorted o entries
      → remove o entries key ≡ (
          if is_some o (lookup o entries key)
          then some
              (drop_key o entries key, length (drop_key o entries key), lower_bound o entries key)
          else some (entries, length entries, lower_bound o entries key))
  unfolding remove
  remove-drop_key entries key s = elim (Bool-cases (is_some o (lookup o entries key))) [
    | inr miss ↦ rw (remove, found_at-lookup o entries key s, miss) refl
    | inl hit ↦
        let erased : erase_pair (lower_bound o entries key) entries
            ≡ some (drop_key o entries key) =
          ap (λ n. erase_pair n entries) (lower_bound-prefix o key entries s)
          ∙ erase_at entries key s hit in
        rw (remove, found_at-lookup o entries key s, hit, erased) refl
  ]

  AllAfter-drop_key :
      (j key : K) (entries : Entries K)
      → AllAfter o j entries
      → AllAfter o j (drop_key o entries key)
  unfolding drop_key
  AllAfter-drop_key j key [] a = tt
  AllAfter-drop_key j key ((k, rid) ∷ rest) a = elim (Bool-cases (same o key k)) [
    | inl hit ↦ rw hit a.1
    | inr miss ↦ rw miss (a.0, AllAfter-drop_key j key rest a.1)
  ]

  -- Keys keep growing without one of them.
  pub drop_key-IsSorted :
      (entries : Entries K) (key : K) → IsSorted o entries → IsSorted o (drop_key o entries key)
  unfolding drop_key
  drop_key-IsSorted [] key s = tt
  drop_key-IsSorted ((k, rid) ∷ rest) key s = elim (Bool-cases (same o key k)) [
    | inl hit ↦ rw hit s.1
    | inr miss ↦ rw miss (AllAfter-drop_key k key rest s.0, drop_key-IsSorted rest key s.1)
  ]

  -- A lookup in sorted entries after the entry of a key was dropped.
  pub lookup-drop_key :
      (entries : Entries K) (key q : K)
      → IsSorted o entries
      → lookup o (drop_key o entries key) q ≡ (if same o q key then none else lookup o entries q)
  unfolding drop_key lookup
  lookup-drop_key [] key q s = ground arith
  lookup-drop_key ((k, rid) ∷ rest) key q s = ground (
    arith,
    lookup-drop_key rest key q s.1,
    lookup-AllAfter o q k rest,
    s.0,
    exclusive o q k,
    same_same o q key k,
    same_same o key k q,
    same_flip o q k,
    same_flip o q key,
    same_flip o key k,
  )

  -- The rid of the last entry whose key is not above the target, or the one given.
  unfoldable pub last_before : Rid → Entries K → K → Rid
  last_before rid [] q = rid
  last_before rid ((k, next) ∷ rest) q = if below o q k then rid else last_before next rest q

  value_at-last_before :
      (k : K) (rid : Rid) (rest : Entries K) (q : K)
      → value_at ((k, rid) ∷ rest) (prefix (λ j. below o q j) rest)
        ≡ some (last_before rid rest q).page_no
  unfolding prefix last_before
  value_at-last_before k rid [] q = refl
  value_at-last_before k rid ((l, next) ∷ rest) q = elim (Bool-cases (below o q l)) [
    | inl lt ↦ rw (lt, prefix, last_before) refl
    | inr ge ↦ rw (ge, prefix, last_before, add-one) (value_at-last_before l next rest q)
  ]

  abbrev before_or_first : Entries K → ℕ → Option ℤ
  before_or_first entries i = if i == 0 then value_at entries 0 else value_at entries (i - 1)

  before_or_first-add_one :
      (entries : Entries K) (n : ℕ) → before_or_first entries (n + 1) ≡ value_at entries n
  before_or_first-add_one entries n =
      let back : n + 1 - 1 ≡ n = omega arith in ground (arith, ap (value_at entries) back)

  prefix-first :
      (k : K) (rid : Rid) (rest : Entries K) (q : K)
      → prefix (λ j. below o q j) ((k, rid) ∷ rest)
        ≡ (if below o q k then 0 else prefix (λ j. below o q j) rest + 1)
  unfolding prefix
  prefix-first k rid rest q = refl

  last_before-below :
      (k : K) (rid : Rid) (rest : Entries K) (q : K)
      → below o q k ≡ true
      → AllAfter o k rest
      → last_before rid rest q ≡ rid
  unfolding last_before
  last_before-below k rid [] q lt a = refl
  last_before-below k rid ((l, next) ∷ rest) q lt a =
      ground (arith, lt_le_trans o q k l lt, exclusive o k l, a.0)

  -- The binary search of `internal_lookup` takes the child of the last entry whose key is not above the
  -- target, and the first child where there is none.
  pub internal_lookup-last_before :
      (k : K) (rid : Rid) (rest : Entries K) (q : K)
      → IsSorted o ((k, rid) ∷ rest)
      → internal_lookup o ((k, rid) ∷ rest) q ≡ some (last_before rid rest q).page_no
  unfolding internal_lookup
  internal_lookup-last_before k rid rest q s =
      let node = (k, rid) ∷ rest in
      ap (before_or_first node) (upper_bound-prefix o q node s ∙ prefix-first k rid rest q)
      ∙ elim (Bool-cases (below o q k)) [
        | inl lt ↦
            rw lt (ap (λ (r : Rid). some r.page_no) (sym (last_before-below k rid rest q lt s.0)))
        | inr ge ↦ rw ge (
            before_or_first-add_one node (prefix (λ j. below o q j) rest)
            ∙ value_at-last_before k rid rest q)
      ]
