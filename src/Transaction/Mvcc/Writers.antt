-- ===== src/Transaction/Mvcc/Writers.antt =====
-- Which transactions have uncommitted versions in a chain of src/transaction/mvcc_manager.h, after any
-- writes, commits and rollbacks.
use rmdb.Prelude.{
  ◌≡◌, inl, inr, refl, ap, ap₂, ◌∙◌, Bool, true, false, not, ◌&&◌, [], ◌∷◌, if◌then◌else◌, arith,
  Bool-cases,
}
use rmdb.Prelude.Int.{ℤ, ◌==ℤ◌, ==ℤ_iff}
use rmdb.Transaction.VersionChain.{
  invalid_timestamp, int32_max, TupleVersion, Chain, expire_at, is_own, commit_from,
}
use rmdb.Transaction.Mvcc.{rollback_chain}

abbrev pub is_uncommitted : TupleVersion → Bool
is_uncommitted v = v.create_ts ==ℤ invalid_timestamp

abbrev pub all_committed : Chain → Bool
all_committed [] = true
all_committed (v ∷ rest) = not (is_uncommitted v) && all_committed rest

-- The uncommitted versions stand in front, and all are of this transaction.
abbrev pub held_by : ℤ → Chain → Bool
held_by t [] = true
held_by t (v ∷ rest) =
    if is_uncommitted v then (v.txn_id ==ℤ t) && held_by t rest else all_committed rest

pub committed-held_by :
    (t : ℤ) (chain : Chain) → all_committed chain ≡ true → held_by t chain ≡ true
committed-held_by t [] h = refl
committed-held_by t (v ∷ rest) h = ground arith

-- The parts of the two tests, and how they are put together.
module _ (v : TupleVersion) (rest : Chain) where
  pub committed_parts :
      all_committed (v ∷ rest) ≡ true → (is_uncommitted v ≡ false) × (all_committed rest ≡ true)
  committed_parts h = (ground arith, ground arith)

  committed_cons :
      is_uncommitted v ≡ false → all_committed rest ≡ true → all_committed (v ∷ rest) ≡ true
  committed_cons a b = ground arith

  pub held_by_new :
      (t : ℤ)
      → held_by t (v ∷ rest) ≡ true
      → is_uncommitted v ≡ true
      → ((v.txn_id ==ℤ t) ≡ true) × (held_by t rest ≡ true)
  held_by_new t h a = (ground arith, ground arith)

  pub held_by_old :
      (t : ℤ) → held_by t (v ∷ rest) ≡ true → is_uncommitted v ≡ false → all_committed rest ≡ true
  held_by_old t h a = ground arith

  pub held_by_cons_new :
      (t : ℤ)
      → is_uncommitted v ≡ true
      → (v.txn_id ==ℤ t) ≡ true
      → held_by t rest ≡ true
      → held_by t (v ∷ rest) ≡ true
  held_by_cons_new t a b c = ground arith

  pub held_by_cons_old :
      (t : ℤ) → is_uncommitted v ≡ false → all_committed rest ≡ true → held_by t (v ∷ rest) ≡ true
  held_by_cons_old t a b = ground arith

-- A commit leaves the transaction of a version, and stamps those of its own that have no time.
commit_from-head :
    (me ts : ℤ) (newer : Bool) (v : TupleVersion) (rest : Chain)
    → (ts ==ℤ invalid_timestamp) ≡ false
    → (w : TupleVersion) × (commit_from me ts newer (v ∷ rest)
        ≡ w ∷ commit_from me ts (is_own me v) rest)
      × (w.txn_id ≡ v.txn_id)
      × (is_uncommitted w ≡ (is_uncommitted v && not (v.txn_id ==ℤ me)))
unfolding commit_from
commit_from-head me ts newer v rest h =
    let expires = newer && not (v.create_ts ==ℤ invalid_timestamp) && v.expire_ts ==ℤ int32_max in
    elim (Bool-cases expires) [
      | inl old ↦ elim (Bool-cases (is_own me v)) [
        | inl own ↦ (
          record (expire_at ts v) { create_ts = ts },
          rw (old, own) refl,
          refl,
          rw h (ground arith),
        )
        | inr other ↦ (expire_at ts v, rw (old, other) refl, refl, ground arith)
      ]
      | inr new ↦ elim (Bool-cases (is_own me v)) [
        | inl own ↦ (record v { create_ts = ts }, rw (new, own) refl, refl, rw h (ground arith))
        | inr other ↦ (v, rw (new, other) refl, refl, ground arith)
      ]
    ]

commit_from-all_committed :
    (me ts : ℤ) (newer : Bool) (chain : Chain)
    → (ts ==ℤ invalid_timestamp) ≡ false
    → all_committed chain ≡ true
    → all_committed (commit_from me ts newer chain) ≡ true
unfolding commit_from
commit_from-all_committed me ts newer [] h a = refl
commit_from-all_committed me ts newer (v ∷ rest) h a =
    let (w, same, txn, time) = commit_from-head me ts newer v rest h in
    let (done, others) = committed_parts v rest a in
    ap all_committed same
    ∙ committed_cons w (commit_from me ts (is_own me v) rest) (rw done at time)
        (commit_from-all_committed me ts (is_own me v) rest h others)

pub commit_from-mine :
    (me ts : ℤ) (newer : Bool) (chain : Chain)
    → (ts ==ℤ invalid_timestamp) ≡ false
    → held_by me chain ≡ true
    → all_committed (commit_from me ts newer chain) ≡ true
unfolding commit_from
commit_from-mine me ts newer [] h a = refl
commit_from-mine me ts newer (v ∷ rest) h a =
    let (w, same, txn, time) = commit_from-head me ts newer v rest h in
    ap all_committed same ∙ elim (Bool-cases (is_uncommitted v)) [
      | inl pending ↦
          let (mine, others) = held_by_new v rest me a pending in
          committed_cons w (commit_from me ts (is_own me v) rest)
            (time ∙ ap (λ x. is_uncommitted v && not x) mine ∙ ground arith)
            (commit_from-mine me ts (is_own me v) rest h others)
      | inr done ↦
          committed_cons w (commit_from me ts (is_own me v) rest) (rw done at time)
            (commit_from-all_committed me ts (is_own me v) rest h (held_by_old v rest me a done))
    ]

pub commit_from-others :
    (t me ts : ℤ) (newer : Bool) (chain : Chain)
    → (ts ==ℤ invalid_timestamp) ≡ false
    → (t ==ℤ me) ≡ false
    → held_by t chain ≡ true
    → held_by t (commit_from me ts newer chain) ≡ true
unfolding commit_from
commit_from-others t me ts newer [] h other a = refl
commit_from-others t me ts newer (v ∷ rest) h other a =
    let (w, same, txn, time) = commit_from-head me ts newer v rest h in
    ap (held_by t) same ∙ elim (Bool-cases (is_uncommitted v)) [
      | inl pending ↦
          let (theirs, others) = held_by_new v rest t a pending in
          let not_mine : (v.txn_id ==ℤ me) ≡ false =
            ap (λ x. x ==ℤ me) ((==ℤ_iff v.txn_id t).0 theirs) ∙ other in
          held_by_cons_new w (commit_from me ts (is_own me v) rest) t
            (time ∙ ap₂ (λ x y. x && not y) pending not_mine) (ap (λ x. x ==ℤ t) txn ∙ theirs)
            (commit_from-others t me ts (is_own me v) rest h other others)
      | inr done ↦
          held_by_cons_old w (commit_from me ts (is_own me v) rest) t (rw done at time)
            (commit_from-all_committed me ts (is_own me v) rest h (held_by_old v rest t a done))
    ]

rollback_chain-committed :
    (me : ℤ) (chain : Chain)
    → all_committed chain ≡ true
    → all_committed (rollback_chain me chain) ≡ true
unfolding rollback_chain
rollback_chain-committed me [] a = refl
rollback_chain-committed me (v ∷ rest) a =
    let (done, left) = committed_parts v rest a in
    let others = rollback_chain-committed me rest left in
    elim (Bool-cases (is_own me v)) [
      | inl own ↦ rw own others
      | inr other ↦ rw other (committed_cons v (rollback_chain me rest) done others)
    ]

pub rollback_chain-mine :
    (me : ℤ) (chain : Chain)
    → held_by me chain ≡ true
    → all_committed (rollback_chain me chain) ≡ true
unfolding rollback_chain
rollback_chain-mine me [] a = refl
rollback_chain-mine me (v ∷ rest) a = elim (Bool-cases (is_uncommitted v)) [
  | inl pending ↦
      let (mine, others) = held_by_new v rest me a pending in
      let own : is_own me v ≡ true = ap₂ (λ x y. x && y) mine pending in
      rw own (rollback_chain-mine me rest others)
  | inr done ↦
      let others = rollback_chain-committed me rest (held_by_old v rest me a done) in
      elim (Bool-cases (is_own me v)) [
        | inl own ↦ rw own others
        | inr other ↦ rw other (committed_cons v (rollback_chain me rest) done others)
      ]
]

pub rollback_chain-others :
    (t me : ℤ) (chain : Chain)
    → (t ==ℤ me) ≡ false
    → held_by t chain ≡ true
    → held_by t (rollback_chain me chain) ≡ true
unfolding rollback_chain
rollback_chain-others t me [] other a = refl
rollback_chain-others t me (v ∷ rest) other a = elim (Bool-cases (is_uncommitted v)) [
  | inl pending ↦
      let (theirs, others) = held_by_new v rest t a pending in
      let not_mine : (v.txn_id ==ℤ me) ≡ false =
        ap (λ x. x ==ℤ me) ((==ℤ_iff v.txn_id t).0 theirs) ∙ other in
      let other_own : is_own me v ≡ false = ap (λ x. x && is_uncommitted v) not_mine in
      rw other_own (
        held_by_cons_new v (rollback_chain me rest) t pending theirs
          (rollback_chain-others t me rest other others))
  | inr done ↦
      let others = rollback_chain-committed me rest (held_by_old v rest t a done) in
      elim (Bool-cases (is_own me v)) [
        | inl own ↦ rw own (committed-held_by t (rollback_chain me rest) others)
        | inr left ↦ rw left (held_by_cons_old v (rollback_chain me rest) t done others)
      ]
]
