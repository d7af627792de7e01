-- ===== src/Index/Node/Laws.antt =====
-- Lookup, insertion and removal inside a node, against a plain map that is scanned from the left.
use native.Mathlib.Numerals.{add-one}
use rmdb.Prelude.{
  ◌≡◌, inl, inr, refl, sym, ap, ◌∙◌, Bool, true, false, not, Option, none, some, [], ◌∷◌, ◌++◌,
  length, get_elem?, if◌then◌else◌, arith, Bool-cases,
}
use rmdb.Prelude.Int.{pos, negsuc}
use rmdb.Transaction.Types.{Rid}
use rmdb.Index.Order.{
  KeyOrder, below, above, same, exclusive, above-below, le_lt_trans, lt_le_trans, same_flip,
  same_same,
}
use rmdb.Index.Node.{Entries, take, drop, found_at, lower_bound, leaf_lookup, insert_pairs, insert}
use rmdb.Index.Node.Search.{prefix, prefix-le, AllAfter, IsSorted, lower_bound-prefix}

module _ {K : Type 0} (o : KeyOrder K) where
  -- The rid of the first entry whose key is equal to the target.
  unfoldable pub lookup : Entries K → K → Option Rid
  lookup [] q = none
  lookup ((k, rid) ∷ rest) q = if same o q k then some rid else lookup rest q

  -- A new entry in its place.
  unfoldable pub put : Entries K → K → Rid → Entries K
  put [] key value = (key, value) ∷ []
  put ((k, rid) ∷ rest) key value =
      if above o key k then (k, rid) ∷ put rest key value else (key, value) ∷ (k, rid) ∷ rest

  unfoldable pub drop_key : Entries K → K → Entries K
  drop_key [] key = []
  drop_key ((k, rid) ∷ rest) key = if same o key k then rest else (k, rid) ∷ drop_key rest key

  abbrev pub is_some : Option Rid → Bool
  is_some none = false
  is_some (some _) = true

  -- A key that is below all entries is not among them.
  pub lookup-AllAfter :
      (q : K) (k : K) (entries : Entries K)
      → above o q k ≡ false
      → AllAfter o k entries
      → lookup entries q ≡ none
  unfolding lookup
  lookup-AllAfter q k [] h a = refl
  lookup-AllAfter q k ((l, rid) ∷ rest) h a =
      let lt = le_lt_trans o q k l h a.0 in
      ground (arith, exclusive o q l, lookup-AllAfter q k rest h a.1)

  lookup_at : (entries : Entries K) (q : K) → Option Rid
  lookup_at entries q = elim (get_elem? entries (prefix (λ k. not (above o q k)) entries)) [
    | none ↦ none
    | some (k, rid) ↦ if same o q k then some rid else none
  ]

  lookup_at-lookup :
      (entries : Entries K) (q : K) → IsSorted o entries → lookup_at entries q ≡ lookup entries q
  unfolding lookup_at lookup prefix
  lookup_at-lookup [] q s = refl
  lookup_at-lookup ((k, rid) ∷ rest) q s = elim (Bool-cases (above o q k)) [
    | inl gt ↦
        rw (gt, lookup_at, prefix, add-one)
          (lookup_at-lookup rest q s.1 ∙ ground (arith, exclusive o q k))
    | inr le ↦ rw (le, lookup_at, prefix) (ground (arith, lookup-AllAfter q k rest le s.0))
  ]

  -- On sorted entries the binary search of `leaf_lookup` answers what a scan of all entries answers.
  pub leaf_lookup-lookup :
      (entries : Entries K) (q : K)
      → IsSorted o entries
      → leaf_lookup o entries q ≡ lookup entries q
  unfolding leaf_lookup lookup_at
  leaf_lookup-lookup entries q s =
      rw (leaf_lookup, lower_bound-prefix o q entries s) (lookup_at-lookup entries q s)

  found_at-prefix :
      (entries : Entries K) (q : K)
      → IsSorted o entries
      → found_at o entries q (prefix (λ k. not (above o q k)) entries) ≡ is_some (lookup entries q)
  unfolding lookup prefix
  found_at-prefix [] q s = refl
  found_at-prefix ((k, rid) ∷ rest) q s = elim (Bool-cases (above o q k)) [
    | inl gt ↦
        rw (gt, prefix, add-one) (found_at-prefix rest q s.1 ∙ ground (arith, exclusive o q k))
    | inr le ↦ rw (le, prefix) (ground (arith, lookup-AllAfter q k rest le s.0))
  ]

  pub found_at-lookup :
      (entries : Entries K) (q : K)
      → IsSorted o entries
      → found_at o entries q (lower_bound o entries q) ≡ is_some (lookup entries q)
  found_at-lookup entries q s =
      ap (found_at o entries q) (lower_bound-prefix o q entries s) ∙ found_at-prefix entries q s

  place-put :
      (entries : Entries K) (key : K) (value : Rid)
      → take (prefix (λ k. not (above o key k)) entries) entries
          ++ ((key, value) ∷ drop (prefix (λ k. not (above o key k)) entries) entries)
        ≡ put entries key value
  unfolding prefix put
  place-put [] key value = refl
  place-put ((k, rid) ∷ rest) key value = elim (Bool-cases (above o key k)) [
    | inl gt ↦ rw (gt, prefix, add-one) (ap (◌∷◌ (k, rid)) (place-put rest key value))
    | inr le ↦ rw (le, prefix) refl
  ]

  insert_pairs-put :
      (entries : Entries K) (key : K) (value : Rid)
      → IsSorted o entries
      → insert_pairs (lower_bound o entries key) ((key, value) ∷ []) entries
        ≡ some (put entries key value)
  unfolding insert_pairs
  insert_pairs-put entries key value s =
      let low = lower_bound-prefix o key entries s in
      ap (λ n. insert_pairs n ((key, value) ∷ []) entries) low
      ∙ ground (arith, prefix-le (λ k. not (above o key k)) entries, place-put entries key value)

  -- Insertion into sorted entries leaves them alone where the key is there; else it puts the new entry in
  -- its place, and answers that place. In both cases it answers the number of entries, and never fails.
  pub insert-put :
      (entries : Entries K) (key : K) (value : Rid)
      → IsSorted o entries
      → insert o entries key value ≡ (
          if is_some (lookup entries key)
          then some (entries, length entries, negsuc 0)
          else some (
            put entries key value,
            length (put entries key value),
            pos (lower_bound o entries key),
          ))
  unfolding insert
  insert-put entries key value s =
      rw (insert, found_at-lookup entries key s, insert_pairs-put entries key value s) refl

  AllAfter-put :
      (j key : K) (value : Rid) (entries : Entries K)
      → below o j key ≡ true
      → AllAfter o j entries
      → AllAfter o j (put entries key value)
  unfolding put
  AllAfter-put j key value [] lt a = (lt, tt)
  AllAfter-put j key value ((k, rid) ∷ rest) lt a = elim (Bool-cases (above o key k)) [
    | inl gt ↦ rw gt (a.0, AllAfter-put j key value rest lt a.1)
    | inr le ↦ rw le (lt, (a.0, a.1))
  ]

  pub AllAfter-below :
      (j k : K) (entries : Entries K)
      → below o j k ≡ true
      → AllAfter o k entries
      → AllAfter o j entries
  AllAfter-below j k [] lt a = tt
  AllAfter-below j k ((l, rid) ∷ rest) lt a =
      (lt_le_trans o j k l lt (ground (arith, exclusive o k l)), AllAfter-below j k rest lt a.1)

  -- A new entry keeps the keys growing.
  pub put-IsSorted :
      (entries : Entries K) (key : K) (value : Rid)
      → IsSorted o entries
      → lookup entries key ≡ none
      → IsSorted o (put entries key value)
  unfolding put lookup
  put-IsSorted [] key value s miss = (tt, tt)
  put-IsSorted ((k, rid) ∷ rest) key value s miss = elim (Bool-cases (above o key k)) [
    | inl gt ↦ rw gt (
      AllAfter-put k key value rest (sym (above-below o key k) ∙ gt) s.0,
      put-IsSorted rest key value s.1 (ground (arith, exclusive o key k)),
    )
    | inr le ↦
        let lt : below o key k ≡ true = ground (arith, exclusive o key k) in
        rw le ((lt, AllAfter-below key k rest lt s.0), (s.0, s.1))
  ]

  -- A lookup after a new entry was put.
  pub lookup-put :
      (entries : Entries K) (key q : K) (value : Rid)
      → lookup entries key ≡ none
      → lookup (put entries key value) q ≡ (if same o q key then some value else lookup entries q)
  unfolding put lookup
  lookup-put [] key q value miss = refl
  lookup-put ((k, rid) ∷ rest) key q value miss = ground (
    arith,
    lookup-put rest key q value,
    exclusive o key k,
    same_same o q key k,
    same_flip o q k,
    same_flip o q key,
    same_flip o key k,
  )
