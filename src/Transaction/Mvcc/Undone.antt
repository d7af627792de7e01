-- ===== src/Transaction/Mvcc/Undone.antt =====
-- What rollback_transaction of src/transaction/mvcc_manager.h does to each chain.
use rmdb.Prelude.{
  ◌≡◌, inl, inr, refl, ap, ◌∙◌, Bool, true, false, not, ◌||◌, Option, none, some, List, [], ◌∷◌,
  if◌then◌else◌, arith, Bool-cases, Option-cases, Eq,
}
use rmdb.Prelude.Int.{ℤ, negsuc, ◌==ℤ◌}
use rmdb.Transaction.VersionChain.{TupleVersion, Chain, is_own}
use rmdb.Transaction.Mvcc.{rollback_chain, is_empty, Chains, rollback_key, rollback_transaction}

-- The versions that a rollback leaves: all that are another transaction's or have a time of creation.
abbrev pub stays : ℤ → TupleVersion → Bool
stays me v = not (v.txn_id ==ℤ me) || not (v.create_ts ==ℤ negsuc 0)

pub filter : (TupleVersion → Bool) → Chain → Chain
filter p [] = []
filter p (v ∷ rest) = if p v then v ∷ filter p rest else filter p rest

-- The chain of these versions, and no chain if there are none.
pub rolled_back : ℤ → Option Chain → Option Chain
rolled_back me none = none
rolled_back me (some chain) =
    if is_empty (filter (stays me) chain) then none else some (filter (stays me) chain)

rollback_chain-filter : (me : ℤ) (chain : Chain) → rollback_chain me chain ≡ filter (stays me) chain
unfolding rollback_chain filter
rollback_chain-filter me [] = refl
rollback_chain-filter me (v ∷ rest) =
    let others = rollback_chain-filter me rest in
    elim (Bool-cases (is_own me v)) [
      | inl own ↦ let goes : stays me v ≡ false = ground arith in rw (own, goes) others
      | inr other ↦
          let left : stays me v ≡ true = ground arith in rw (other, left) (ap (λ r. v ∷ r) others)
    ]

rolled_back_lem :
    (me : ℤ) (chain : Chain)
    → (if is_empty (rollback_chain me chain) then none else some (rollback_chain me chain))
      ≡ rolled_back me (some chain)
unfolding rolled_back
rolled_back_lem me chain =
    ap (λ (c : Chain). if is_empty c then none else some c) (rollback_chain-filter me chain)

filter-twice :
    (p : TupleVersion → Bool) (chain : Chain) → filter p (filter p chain) ≡ filter p chain
unfolding filter
filter-twice p [] = refl
filter-twice p (v ∷ rest) = elim (Bool-cases (p v)) [
  | inl left ↦ rw (left, filter, left) (ap (λ r. v ∷ r) (filter-twice p rest))
  | inr goes ↦ rw goes (filter-twice p rest)
]

rolled_back-twice :
    (me : ℤ) (c : Option Chain) → rolled_back me (rolled_back me c) ≡ rolled_back me c
unfolding rolled_back
rolled_back-twice me none = refl
rolled_back-twice me (some chain) = elim (Bool-cases (is_empty (filter (stays me) chain))) [
  | inl gone ↦ rw gone refl
  | inr kept ↦ rw (kept, rolled_back, filter-twice (stays me) chain, kept) refl
]

module _ {K : Type 0} ⦃e : Eq K⦄ where
  pub is_in : K → List K → Bool
  is_in k [] = false
  is_in k (key ∷ keys) = if e.beq key k then true else is_in k keys

  rollback_key_lem :
      (key : K) (me : ℤ) (chains : Chains K) (k : K)
      → rollback_key key me chains k ≡ (if e.beq key k then rolled_back me (chains k) else chains k)
  unfolding rollback_key rolled_back
  rollback_key_lem key me chains k = elim (Bool-cases (e.beq key k)) [
    | inl same ↦
        let at : chains key ≡ chains k = ap chains ((e.beq_iff key k).0 same) in
        elim (Option-cases (chains k)) [
          | inl absent ↦ rw (at ∙ absent, rollback_key, same, absent, rolled_back) refl
          | inr (chain, held) ↦
              let goal = rolled_back_lem me chain in
              elim (Bool-cases (is_empty (rollback_chain me chain))) [
                | inl gone ↦ rw (at ∙ held, rollback_key, held, gone, same) (rw gone at goal)
                | inr kept ↦ rw (at ∙ held, rollback_key, held, kept, same) (rw kept at goal)
              ]
        ]
    | inr other ↦ elim (Option-cases (chains key)) [
      | inl absent ↦ rw (absent, rollback_key, other) refl
      | inr (chain, held) ↦ elim (Bool-cases (is_empty (rollback_chain me chain))) [
        | inl gone ↦ rw (held, rollback_key, gone, other) refl
        | inr kept ↦ rw (held, rollback_key, kept, other) refl
      ]
    ]
  ]

  -- A rollback leaves, of every chain of the transaction's write set, the versions that are another
  -- transaction's or have a time of creation, in their order; it erases such a chain if none is left, and
  -- leaves every other chain as it is.
  pub rollback_transaction_lem :
      (keys : List K) (me : ℤ) (chains : Chains K) (k : K)
      → rollback_transaction keys me chains k
        ≡ (if is_in k keys then rolled_back me (chains k) else chains k)
  unfolding rollback_transaction is_in
  rollback_transaction_lem [] me chains k = refl
  rollback_transaction_lem (key ∷ keys) me chains k =
      let step = rollback_key_lem key me chains k in
      rollback_transaction_lem keys me (rollback_key key me chains) k
      ∙ elim (Bool-cases (e.beq key k)) [
        | inl same ↦ elim (Bool-cases (is_in k keys)) [
          | inl more ↦ rw (more, step, same) (rolled_back-twice me (chains k))
          | inr last ↦ rw (last, step, same) refl
        ]
        | inr other ↦ rw (step, other) refl
      ]
