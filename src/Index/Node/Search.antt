-- ===== src/Index/Node/Search.antt =====
-- The binary searches of a node against a scan from the left.
use rmdb.Prelude.{
  ℕ, zero, suc, ◌+◌, ◌/◌, ◌<◌, ◌≤◌, ◌≡◌, inl, inr, refl, sym, ◌∙◌, Bool, true, false, not, [], ◌∷◌,
  length, ltb, if◌then◌else◌, arith, Bool-cases,
}
use native.Mathlib.Numerals.{add-one}
use rmdb.Index.Order.{KeyOrder, below, above, exclusive, le_lt_trans, lt_le_trans}
use rmdb.Index.Node.{Entries, bisect, key_test, lower_bound, upper_bound}

-- The number of entries before the first whose key passes the test.
unfoldable pub prefix : {K : Type 0} → (K → Bool) → Entries K → ℕ
prefix test [] = 0
prefix test ((k, _) ∷ rest) = if test k then 0 else prefix test rest + 1

-- A test that holds of every position after one at which it holds.
abbrev pub IsMonotone : (ℕ → Bool) → ℕ → Type 0
IsMonotone stop n = (i j : ℕ) → i ≤ j → j < n → stop i ≡ true → stop j ≡ true

-- The position that splits the range.
abbrev pub Splits : (ℕ → Bool) → ℕ → ℕ → Type 0
Splits stop n r =
    (r ≤ n) × ((i : ℕ) → i < r → stop i ≡ false) × ((i : ℕ) → r ≤ i → i < n → stop i ≡ true)

module _ (stop : ℕ → Bool) (n : ℕ) (mono : IsMonotone stop n) where
  bisect-Splits :
      (rounds l r : ℕ)
      → l ≤ r
      → r ≤ n
      → r < l + suc rounds
      → ((i : ℕ) → i < l → stop i ≡ false)
      → ((i : ℕ) → r ≤ i → i < n → stop i ≡ true)
      → Splits stop n (bisect stop rounds l r)
  unfolding bisect
  bisect-Splits zero l r a b c below above = (omega arith, below, λ i p. above i (omega arith))
  bisect-Splits (suc rounds) l r a b c below above = elim (Bool-cases (ltb l r)) [
    | inr empty ↦ rw empty (omega arith, below, λ i p. above i (ground arith))
    | inl more ↦
        let mid : ℕ = (l + r) / 2 in
        elim (Bool-cases (stop mid)) [
          | inl yes' ↦
              rw (more, yes')
                (bisect-Splits rounds l mid (ground arith) (ground arith) (ground arith) below
                  (λ i p q. mono mid i p q yes'))
          | inr no' ↦
              rw (more, no')
                (bisect-Splits rounds (mid + 1) r (ground arith) b (ground arith)
                  (λ i p. elim (Bool-cases (stop i)) [
                    | inr miss ↦ miss
                    | inl hit ↦ absurd (cc (sym no' ∙ mono i mid (omega arith) (ground arith) hit))
                  ])
                  above)
        ]
  ]

  pub whole-Splits : Splits stop n (bisect stop n 0 n)
  whole-Splits =
      bisect-Splits n 0 n (omega arith) (omega arith) (omega arith) (λ i p. absurd (omega arith))
        (λ i p q. absurd (omega arith))

Splits-unique : (stop : ℕ → Bool) (n r s : ℕ) → Splits stop n r → Splits stop n s → r ≡ s
Splits-unique stop n r s p q = ground (arith, p.1 s, p.2 r, q.1 r, q.2 s)

-- Keys grow strictly.
abbrev pub AllAfter : {K : Type 0} → KeyOrder K → K → Entries K → Type 0
AllAfter o k [] = Unit {0}
AllAfter o k ((j, _) ∷ rest) = (below o k j ≡ true) × AllAfter o k rest

abbrev pub IsSorted : {K : Type 0} → KeyOrder K → Entries K → Type 0
IsSorted o [] = Unit {0}
IsSorted o ((k, _) ∷ rest) = AllAfter o k rest × IsSorted o rest

module _ {K : Type 0} (test : K → Bool) where
  pub prefix-le : (entries : Entries K) → prefix test entries ≤ length entries
  unfolding prefix
  prefix-le [] = omega arith
  prefix-le ((k, _) ∷ rest) = ground (arith, prefix-le rest)

  prefix-before :
      (entries : Entries K) (i : ℕ) → i < prefix test entries → key_test test entries i ≡ false
  unfolding prefix
  prefix-before [] i h = refl
  prefix-before ((k, _) ∷ rest) zero h = ground arith
  prefix-before ((k, _) ∷ rest) (suc i) h = ground (arith, prefix-before rest i)

  prefix-at :
      (entries : Entries K)
      → prefix test entries < length entries
      → key_test test entries (prefix test entries) ≡ true
  unfolding prefix
  prefix-at [] h = absurd (omega arith)
  prefix-at ((k, _) ∷ rest) h = elim (Bool-cases (test k)) [
    | inl hit ↦ rw (hit, prefix) hit
    | inr miss ↦ rw (miss, prefix, add-one) (prefix-at rest (ground arith))
  ]

module _ {K : Type 0} (o : KeyOrder K) (test : K → Bool)
    (up : (a b : K) → test a ≡ true → below o a b ≡ true → test b ≡ true) where
  after_test :
      (k : K) (entries : Entries K) (j : ℕ)
      → test k ≡ true
      → AllAfter o k entries
      → j < length entries
      → key_test test entries j ≡ true
  after_test k [] j t a h = absurd (omega arith)
  after_test k ((l, _) ∷ rest) zero t a h = up k l t a.0
  after_test k ((l, _) ∷ rest) (suc j) t a h = after_test k rest j t a.1 (omega arith)

  key_test-IsMonotone :
      (entries : Entries K)
      → IsSorted o entries
      → IsMonotone (key_test test entries) (length entries)
  key_test-IsMonotone [] s i j le h t = absurd (omega arith)
  key_test-IsMonotone ((k, _) ∷ rest) s zero zero le h t = t
  key_test-IsMonotone ((k, _) ∷ rest) s zero (suc j) le h t =
      after_test k rest j t s.0 (omega arith)
  key_test-IsMonotone ((k, _) ∷ rest) s (suc i) zero le h t = absurd (omega arith)
  key_test-IsMonotone ((k, _) ∷ rest) s (suc i) (suc j) le h t =
      key_test-IsMonotone rest s.1 i j (omega arith) (omega arith) t

  pub bisect-prefix :
      (entries : Entries K)
      → IsSorted o entries
      → bisect (key_test test entries) (length entries) 0 (length entries) ≡ prefix test entries
  bisect-prefix entries s =
      let mono = key_test-IsMonotone entries s in
      Splits-unique (key_test test entries) (length entries) _ (prefix test entries)
        (whole-Splits (key_test test entries) (length entries) mono)
        (
          prefix-le test entries,
          prefix-before test entries,
          λ i p q. mono (prefix test entries) i p q (prefix-at test entries (omega arith)),
        )

module _ {K : Type 0} (o : KeyOrder K) (target : K) where
  -- The search for the first key that is not below the target is the scan for it.
  pub lower_bound-prefix :
      (entries : Entries K)
      → IsSorted o entries
      → lower_bound o entries target ≡ prefix (λ k. not (above o target k)) entries
  unfolding lower_bound
  lower_bound-prefix =
      bisect-prefix o (λ k. not (above o target k))
        (λ a b t h. ground (arith, le_lt_trans o target a b, exclusive o target b))

  pub upper_bound-prefix :
      (entries : Entries K)
      → IsSorted o entries
      → upper_bound o entries target ≡ prefix (λ k. below o target k) entries
  unfolding upper_bound
  upper_bound-prefix =
      bisect-prefix o (λ k. below o target k)
        (λ a b t h. lt_le_trans o target a b t (ground (arith, exclusive o a b)))
