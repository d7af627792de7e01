-- ===== src/Transaction/Mvcc/OneWriter.antt =====
-- After any writes, commits and rollbacks on a chain of src/transaction/mvcc_manager.h at most one
-- transaction has uncommitted versions in it.
use rmdb.Prelude.{
  ◌≡◌, inl, inr, refl, sym, ap, ◌∙◌, Bool, true, false, ◌||◌, List, [], ◌∷◌, arith, Bool-cases,
  Option-cases, ℕ,
}
use rmdb.Prelude.Int.{ℤ, ◌==ℤ◌, ==ℤ_iff}
use rmdb.Transaction.VersionChain.{
  invalid_timestamp, int32_max, TupleVersion, Chain, new_version, is_own, is_foreign,
  has_write_conflict, find_visible_version, find_version_for_delete, has_deleted, insert_version,
  update_version, delete_version, commit_from,
}
use rmdb.Transaction.Mvcc.{rollback_chain}
use rmdb.Transaction.Mvcc.Writers.{
  is_uncommitted, held_by, committed-held_by, held_by_new, held_by_old, held_by_cons_new,
  held_by_cons_old, commit_from-mine, commit_from-others, rollback_chain-mine,
  rollback_chain-others,
}

-- A call on a chain.
pub data Change : Type 0 where
  inserts : ℤ → List ℕ → Change
  updates : ℤ → ℤ → List ℕ → Change
  deletes : ℤ → ℤ → Change
  commits : ℤ → (ts : ℤ) → (ts ==ℤ invalid_timestamp) ≡ false → Change
  rolls_back : ℤ → Change

pub change : Change → Chain → Chain
change (inserts me d) chain = (insert_version chain d me).0
change (updates me read_ts d) chain = (update_version chain d me read_ts).0
change (deletes me read_ts) chain = (delete_version chain me read_ts).0
change (commits me ts _) chain = commit_from me ts false chain
change (rolls_back me) chain = rollback_chain me chain

pub run_changes : List Change → Chain → Chain
run_changes [] chain = chain
run_changes (c ∷ cs) chain = run_changes cs (change c chain)

-- At most one transaction has uncommitted versions, and they are the newest.
pub HasOneWriter : Chain → Type 0
HasOneWriter chain = (t : ℤ) × (held_by t chain ≡ true)

same_txn : (me : ℤ) → (me ==ℤ me) ≡ true
same_txn me = (==ℤ_iff me me).1 refl

-- A new version on a chain whose head is no other transaction's uncommitted one.
pushed :
    (t me : ℤ) (d : List ℕ) (gone : Bool) (chain : Chain)
    → held_by t chain ≡ true
    → has_write_conflict chain me ≡ false
    → HasOneWriter (record (new_version d me) { is_deleted = gone } ∷ chain)
unfolding has_write_conflict HasOneWriter
pushed t me d gone [] h free = (me, ground (arith, same_txn me))
pushed t me d gone (v ∷ rest) h free =
    let new : TupleVersion = record (new_version d me) { is_deleted = gone } in
    elim (Bool-cases (is_uncommitted v)) [
      | inl pending ↦
          let (theirs, others) = held_by_new v rest t h pending in
          let mine : (v.txn_id ==ℤ me) ≡ true = ground arith in
          let same : t ≡ me = sym ((==ℤ_iff v.txn_id t).0 theirs) ∙ (==ℤ_iff v.txn_id me).0 mine in
          (
            me,
            held_by_cons_new new (v ∷ rest) me refl (same_txn me)
                (ap (λ x. held_by x (v ∷ rest)) (sym same) ∙ h),
          )
      | inr done ↦ (
        me,
        held_by_cons_new new (v ∷ rest) me refl (same_txn me)
            (held_by_cons_old v rest me done (held_by_old v rest t h done)),
      )
    ]

insert_version-HasOneWriter :
    (me : ℤ) (d : List ℕ) (chain : Chain)
    → HasOneWriter chain
    → HasOneWriter (insert_version chain d me).0
unfolding HasOneWriter insert_version has_write_conflict
insert_version-HasOneWriter me d [] (t, h) = pushed t me d false [] h refl
insert_version-HasOneWriter me d (v ∷ rest) (t, h) = elim (Bool-cases (is_own me v)) [
  | inl own ↦ elim (Bool-cases v.is_deleted) [
    | inl gone ↦ (t, rw (own, gone) h)
    | inr live ↦ (t, rw (own, live) h)
  ]
  | inr other ↦ elim (Bool-cases (is_foreign me v)) [
    | inl foreign ↦ (t, rw (other, foreign) h)
    | inr free ↦ rw (other, free) (pushed t me d false (v ∷ rest) h free)
  ]
]

update_version-HasOneWriter :
    (me read_ts : ℤ) (d : List ℕ) (chain : Chain)
    → HasOneWriter chain
    → HasOneWriter (update_version chain d me read_ts).0
unfolding HasOneWriter update_version has_write_conflict
update_version-HasOneWriter me read_ts d [] (t, h) = pushed t me d false [] h refl
update_version-HasOneWriter me read_ts d (v ∷ rest) (t, h) = elim (Bool-cases (is_foreign me v)) [
  | inl foreign ↦ (t, rw foreign h)
  | inr free ↦ elim (Bool-cases (is_own me v)) [
    | inl own ↦ elim (Bool-cases v.is_deleted) [
      | inl gone ↦ (t, rw (free, own, gone) h)
      | inr live ↦ (t, rw (free, own, live) h)
    ]
    | inr other ↦ elim (Option-cases (find_visible_version (v ∷ rest) read_ts me)) [
      | inl missing ↦ (t, rw (free, other, missing) h)
      | inr (seen, found) ↦ elim (Bool-cases seen.is_deleted) [
        | inl gone ↦ (t, rw (free, other, found, gone) h)
        | inr live ↦ rw (free, other, found, live) (pushed t me d false (v ∷ rest) h free)
      ]
    ]
  ]
]

delete_version-HasOneWriter :
    (me read_ts : ℤ) (chain : Chain)
    → HasOneWriter chain
    → HasOneWriter (delete_version chain me read_ts).0
unfolding HasOneWriter delete_version
delete_version-HasOneWriter me read_ts chain (t, h) =
    elim (Bool-cases (has_write_conflict chain me)) [
      | inl conflict ↦ (t, rw conflict h)
      | inr free ↦ elim (Option-cases (find_version_for_delete chain read_ts me)) [
        | inl missing ↦ (t, rw (free, missing) h)
        | inr (seen, found) ↦ elim (Bool-cases (seen.is_deleted || has_deleted me chain)) [
          | inl gone ↦ (t, rw (free, found, gone) h)
          | inr live ↦ rw (free, found, live) (pushed t me seen.data_ true chain h free)
        ]
      ]
    ]

change-HasOneWriter :
    (c : Change) (chain : Chain) → HasOneWriter chain → HasOneWriter (change c chain)
unfolding HasOneWriter change
change-HasOneWriter (inserts me d) chain h = insert_version-HasOneWriter me d chain h
change-HasOneWriter (updates me read_ts d) chain h =
    update_version-HasOneWriter me read_ts d chain h
change-HasOneWriter (deletes me read_ts) chain h = delete_version-HasOneWriter me read_ts chain h
change-HasOneWriter (commits me ts valid) chain (t, h) = elim (Bool-cases (t ==ℤ me)) [
  | inl same ↦
      let mine = ap (λ x. held_by x chain) (sym ((==ℤ_iff t me).0 same)) ∙ h in
      (
        t,
        committed-held_by t (commit_from me ts false chain)
            (commit_from-mine me ts false chain valid mine),
      )
  | inr other ↦ (t, commit_from-others t me ts false chain valid other h)
]
change-HasOneWriter (rolls_back me) chain (t, h) = elim (Bool-cases (t ==ℤ me)) [
  | inl same ↦
      let mine = ap (λ x. held_by x chain) (sym ((==ℤ_iff t me).0 same)) ∙ h in
      (t, committed-held_by t (rollback_chain me chain) (rollback_chain-mine me chain mine))
  | inr other ↦ (t, rollback_chain-others t me chain other h)
]

run_changes-Keeps :
    (cs : List Change) (chain : Chain) → HasOneWriter chain → HasOneWriter (run_changes cs chain)
unfolding run_changes
run_changes-Keeps [] chain h = h
run_changes-Keeps (c ∷ cs) chain h =
    run_changes-Keeps cs (change c chain) (change-HasOneWriter c chain h)

-- After any inserts, updates, deletes, commits and rollbacks of any transactions on a new chain, commits at
-- times that are not the mark of a missing time, the versions without a time of creation are all of one
-- transaction, and stand before all others.
pub run_changes-HasOneWriter : (cs : List Change) → HasOneWriter (run_changes cs [])
unfolding HasOneWriter
run_changes-HasOneWriter cs = run_changes-Keeps cs [] (int32_max, refl)
