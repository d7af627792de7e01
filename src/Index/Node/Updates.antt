-- ===== src/Index/Node/Updates.antt =====
-- A node as a map from keys to rids: what lookups find after `insert` and `remove`.
use rmdb.Prelude.{
  ◌≡◌, inl, inr, refl, ◌∙◌, true, false, not, ◌&&◌, Option, none, some, [], ◌∷◌, length,
  if◌then◌else◌, arith, Bool-cases,
}
use rmdb.Prelude.Int.{ℤ, pos, negsuc}
use rmdb.Transaction.Types.{Rid}
use rmdb.Index.Order.{KeyOrder, same, same_same}
use rmdb.Index.Node.{Entries, lower_bound, insert, remove}
use rmdb.Index.Node.Search.{IsSorted}
use rmdb.Index.Node.Laws.{lookup, put, drop_key, is_some, insert-put, put-IsSorted, lookup-put}
use rmdb.Index.Node.Removal.{remove-drop_key, drop_key-IsSorted, lookup-drop_key}

module _ {K : Type 0} (o : KeyOrder K) where
  -- Equal keys are found alike.
  lookup_same :
      (entries : Entries K) (q key : K)
      → same o q key ≡ true
      → lookup o entries q ≡ lookup o entries key
  unfolding lookup
  lookup_same [] q key e = refl
  lookup_same ((k, rid) ∷ rest) q key e =
      ground (arith, lookup_same rest q key e, same_same o q key k e)

  is_some-none : (r : Option Rid) → is_some o r ≡ false → r ≡ none
  is_some-none none h = refl
  is_some-none (some rid) h = absurd (ground arith)

  -- Inserting into sorted entries succeeds, and answers how many entries there are then. They are sorted, and
  -- a lookup of an equal key finds the new rid, if no equal key was there before; all other lookups find
  -- what they found before.
  pub insert-lookup :
      (entries : Entries K) (key : K) (value : Rid)
      → IsSorted o entries
      → (more : Entries K) × (place : ℤ) × (insert o entries key value
          ≡ some (more, length more, place))
        × IsSorted o more
        × ((q : K)
            → lookup o more q ≡ (
                if same o q key && not (is_some o (lookup o entries key))
                then some value
                else lookup o entries q))
  insert-lookup entries key value s = elim (Bool-cases (is_some o (lookup o entries key))) [
    | inl there ↦
        (entries, negsuc 0, insert-put o entries key value s ∙ rw there refl, s, λ q. ground arith)
    | inr new ↦
        let miss = is_some-none (lookup o entries key) new in
        (
          put o entries key value,
          pos (lower_bound o entries key),
          insert-put o entries key value s ∙ rw new refl,
          put-IsSorted o entries key value s miss,
          λ q. ground (arith, lookup-put o entries key q value miss, new),
        )
  ]

  -- Removing from sorted entries succeeds, and answers how many entries are left. They are sorted, and a
  -- lookup of an equal key finds nothing; all other lookups find what they found before.
  pub remove-lookup :
      (entries : Entries K) (key : K)
      → IsSorted o entries
      → (fewer : Entries K) × (remove o entries key
          ≡ some (fewer, length fewer, lower_bound o entries key))
        × IsSorted o fewer
        × ((q : K) → lookup o fewer q ≡ (if same o q key then none else lookup o entries q))
  remove-lookup entries key s = elim (Bool-cases (is_some o (lookup o entries key))) [
    | inl there ↦ (
      drop_key o entries key,
      remove-drop_key o entries key s ∙ rw there refl,
      drop_key-IsSorted o entries key s,
      λ q. lookup-drop_key o entries key q s,
    )
    | inr missing ↦
        let miss = is_some-none (lookup o entries key) missing in
        (
          entries,
          remove-drop_key o entries key s ∙ rw missing refl,
          s,
          λ q. ground (arith, lookup_same entries q key, miss),
        )
  ]
