-- ===== src/Transaction/Mvcc/Rollback.antt =====
-- A rollback undoes what the transaction wrote: rollback_chain_versions and rollback_transaction of
-- src/transaction/mvcc_manager.h.
use rmdb.Prelude.{
  ℕ, ◌≡◌, inl, inr, refl, sym, ap, ◌∙◌, Bool, true, false, ◌||◌, some, List, [], ◌∷◌, if◌then◌else◌,
  arith, Bool-cases, Option-cases, Eq,
}
use rmdb.Prelude.Int.{ℤ, ◌==ℤ◌, ==ℤ_iff, ltb_ℤ}
use rmdb.Transaction.VersionChain.{
  invalid_timestamp, int32_max, TupleVersion, Chain, new_version, give, is_version_visible,
  max_iterations, find_visible_version, find_version_for_delete, is_foreign, is_own,
  has_write_conflict, has_deleted, insert_version, update_version, delete_version,
}
use rmdb.Transaction.VersionChain.Reads.{walk-give}
use rmdb.Transaction.Mvcc.{
  is_visible, reconstruct_verdict, rollback_chain, Chains, reconstruct_version,
}

-- The writes of a transaction on one chain.
pub data Write : Type 0 where
  inserts updates : List ℕ → Write
  deletes : Write

abbrev pub write : ℤ → ℤ → Write → Chain → Chain
write me read_ts (inserts d) chain = (insert_version chain d me).0
write me read_ts (updates d) chain = (update_version chain d me read_ts).0
write me read_ts deletes chain = (delete_version chain me read_ts).0

pub writes : ℤ → ℤ → List Write → Chain → Chain
writes me read_ts [] chain = chain
writes me read_ts (w ∷ ws) chain = writes me read_ts ws (write me read_ts w chain)

own_new : (d : List ℕ) (me : ℤ) → is_own me (new_version d me) ≡ true
own_new d me = rw ((==ℤ_iff me me).1 refl) refl

drop_own :
    (me : ℤ) (v : TupleVersion) (rest : Chain)
    → is_own me v ≡ true
    → rollback_chain me (v ∷ rest) ≡ rollback_chain me rest
unfolding rollback_chain
drop_own me v rest own = rw own refl

rollback_chain-insert_version :
    (chain : Chain) (d : List ℕ) (me : ℤ)
    → rollback_chain me (insert_version chain d me).0 ≡ rollback_chain me chain
unfolding insert_version
rollback_chain-insert_version [] d me = drop_own me (new_version d me) [] (own_new d me)
rollback_chain-insert_version (head ∷ rest) d me = elim (Bool-cases (is_own me head)) [
  | inl own ↦ elim (Bool-cases head.is_deleted) [
    | inl gone ↦
        let same : (insert_version (head ∷ rest) d me).0
            ≡ record head { data_ = d; is_deleted = false } ∷ rest =
          rw (own, gone) refl in
        ap (rollback_chain me) same
        ∙ drop_own me (record head { data_ = d; is_deleted = false }) rest own
        ∙ sym (drop_own me head rest own)
    | inr live ↦ rw (own, live) refl
  ]
  | inr other ↦ elim (Bool-cases (is_foreign me head)) [
    | inl foreign ↦ rw (other, foreign) refl
    | inr free ↦ rw (other, free) (drop_own me (new_version d me) (head ∷ rest) (own_new d me))
  ]
]

rollback_chain-update_version :
    (chain : Chain) (d : List ℕ) (me read_ts : ℤ)
    → rollback_chain me (update_version chain d me read_ts).0 ≡ rollback_chain me chain
unfolding update_version
rollback_chain-update_version [] d me read_ts = drop_own me (new_version d me) [] (own_new d me)
rollback_chain-update_version (head ∷ rest) d me read_ts = elim (Bool-cases (is_foreign me head)) [
  | inl foreign ↦ rw foreign refl
  | inr free ↦ elim (Bool-cases (is_own me head)) [
    | inl own ↦ elim (Bool-cases head.is_deleted) [
      | inl gone ↦ rw (free, own, gone) refl
      | inr live ↦
          let same : (update_version (head ∷ rest) d me read_ts).0
              ≡ record head { data_ = d } ∷ rest =
            rw (free, own, live) refl in
          ap (rollback_chain me) same
          ∙ drop_own me (record head { data_ = d }) rest own
          ∙ sym (drop_own me head rest own)
    ]
    | inr other ↦ elim (Option-cases (find_visible_version (head ∷ rest) read_ts me)) [
      | inl missing ↦ rw (free, other, missing, update_version) refl
      | inr (visible, found) ↦ elim (Bool-cases visible.is_deleted) [
        | inl gone ↦ rw (free, other, found, update_version, gone) refl
        | inr live ↦
            rw (free, other, found, update_version, live)
              (drop_own me (new_version d me) (head ∷ rest) (own_new d me))
      ]
    ]
  ]
]

rollback_chain-delete_version :
    (chain : Chain) (me read_ts : ℤ)
    → rollback_chain me (delete_version chain me read_ts).0 ≡ rollback_chain me chain
unfolding delete_version
rollback_chain-delete_version chain me read_ts = elim (Bool-cases (has_write_conflict chain me)) [
  | inl conflict ↦ rw conflict refl
  | inr free ↦ elim (Option-cases (find_version_for_delete chain read_ts me)) [
    | inl missing ↦ rw (free, missing, delete_version) refl
    | inr (visible, found) ↦ elim (Bool-cases (visible.is_deleted || has_deleted me chain)) [
      | inl gone ↦ rw (free, found, delete_version, gone) refl
      | inr live ↦
          rw (free, found, delete_version, live)
            (drop_own me (record (new_version visible.data_ me) { is_deleted = true }) chain
              (own_new visible.data_ me))
    ]
  ]
]

rollback_chain-write :
    (w : Write) (chain : Chain) (me read_ts : ℤ)
    → rollback_chain me (write me read_ts w chain) ≡ rollback_chain me chain
rollback_chain-write (inserts d) chain me read_ts = rollback_chain-insert_version chain d me
rollback_chain-write (updates d) chain me read_ts = rollback_chain-update_version chain d me read_ts
rollback_chain-write deletes chain me read_ts = rollback_chain-delete_version chain me read_ts

-- Whether the chain holds a version of the transaction that is not committed.
unfoldable pub has_own : ℤ → Chain → Bool
has_own me [] = false
has_own me (v ∷ rest) = if is_own me v then true else has_own me rest

rollback_chain-none :
    (chain : Chain) (me : ℤ) → has_own me chain ≡ false → rollback_chain me chain ≡ chain
unfolding rollback_chain has_own
rollback_chain-none [] me h = refl
rollback_chain-none (v ∷ rest) me h = elim (Bool-cases (is_own me v)) [
  | inl own ↦ absurd (ground arith)
  | inr other ↦ rw other (ap (λ r. v ∷ r) (rollback_chain-none rest me (ground arith)))
]

-- On a chain without uncommitted versions of the transaction, a rollback takes back any number of
-- its inserts, updates and deletes, whether they succeeded or not: the chain is what it was
-- before.
pub rollback_chain-writes :
    (ws : List Write) (chain : Chain) (me read_ts : ℤ)
    → has_own me chain ≡ false
    → rollback_chain me (writes me read_ts ws chain) ≡ chain
unfolding writes
rollback_chain-writes ws chain me read_ts h = kept ws chain ∙ rollback_chain-none chain me h
  where
    kept :
        (ws : List Write) (chain : Chain)
        → rollback_chain me (writes me read_ts ws chain) ≡ rollback_chain me chain
    kept [] chain = refl
    kept (w ∷ ws) chain =
        kept ws (write me read_ts w chain) ∙ rollback_chain-write w chain me read_ts

reconstruct_give :
    (target_ts me : ℤ) (v : TupleVersion)
    → reconstruct_verdict target_ts me v ≡ give
    → is_version_visible v me target_ts ≡ true
unfolding reconstruct_verdict is_version_visible
reconstruct_give target_ts me v h = ground arith

-- Any version that `reconstruct_version` copies is visible to the transaction at the time asked for.
pub reconstruct_version-is_version_visible :
    {K : Type 0} ⦃e : Eq K⦄ (chains : Chains K) (key : K) (target_ts me : ℤ) (v : TupleVersion)
    → reconstruct_version chains key target_ts me ≡ some v
    → is_version_visible v me target_ts ≡ true
unfolding reconstruct_version
reconstruct_version-is_version_visible chains key target_ts me v h =
    elim (Option-cases (chains key)) [
      | inl absent ↦ cc (rw (absent, reconstruct_version) at h)
      | inr (chain, held) ↦ reconstruct_give target_ts me v (
          walk-give (reconstruct_verdict target_ts me) max_iterations chain v
            (rw (held, reconstruct_version) at h))
    ]

-- The two tests of a version agree where its creation is not marked as rolled back, its expiry is
-- not the invalid timestamp, and the time of the read is less than the greatest timestamp.
pub is_visible-is_version_visible :
    (v : TupleVersion) (me read_ts : ℤ)
    → (v.create_ts ==ℤ int32_max) ≡ false
    → (v.expire_ts ==ℤ invalid_timestamp) ≡ false
    → ltb_ℤ read_ts int32_max ≡ true
    → is_visible v me read_ts ≡ is_version_visible v me read_ts
unfolding is_visible is_version_visible
is_visible-is_version_visible v me read_ts a b c = ground arith
