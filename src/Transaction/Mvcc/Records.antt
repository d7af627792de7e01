-- ===== src/Transaction/Mvcc/Records.antt =====
-- What a transaction reads of a record that it wrote, through the map of all chains of
-- src/transaction/mvcc_manager.h.
use rmdb.Prelude.{
  ℕ, ◌≡◌, inl, inr, refl, sym, ap, ◌∙◌, true, false, Option, none, some, List, [], ◌∷◌,
  if◌then◌else◌, Option-cases, Eq, update, beq_refl,
}
use rmdb.Prelude.Int.{ℤ}
use rmdb.Transaction.VersionChain.{
  Chain, add_version, find_visible_version, insert_version, update_version, delete_version,
}
use rmdb.Transaction.VersionChain.Reads.{bytes}
use rmdb.Transaction.VersionChain.Writes.{
  find_visible_version-insert_version, find_visible_version-update_version,
  find_visible_version-delete_version,
}
use rmdb.Transaction.Mvcc.{
  Chains, is_empty, initial_version, get_version_chain, get_or_create_version_chain, insert_record,
  update_record, delete_record, read_version,
}

empty_lem : (read_ts me : ℤ) → find_visible_version [] read_ts me ≡ none
unfolding find_visible_version
empty_lem read_ts me = refl

read_lem :
    (chain : Chain) (read_ts me : ℤ)
    → (if is_empty chain then none else find_visible_version chain read_ts me)
      ≡ find_visible_version chain read_ts me
read_lem [] read_ts me = sym (empty_lem read_ts me)
read_lem (v ∷ rest) read_ts me = refl

module _ {K : Type 0} ⦃e : Eq K⦄ where
  read_version-update :
      (m : Chains K) (key : K) (chain : Chain) (read_ts me : ℤ)
      → read_version (update m key chain) key me read_ts ≡ find_visible_version chain read_ts me
  unfolding read_version
  read_version-update m key chain read_ts me =
      rw (read_version, beq_refl key) (read_lem chain read_ts me)

  -- A record that the transaction has inserted reads back, through the map of chains.
  pub read_version-insert_record :
      (chains : Chains K) (key : K) (d : List ℕ) (me read_ts : ℤ)
      → (insert_record chains key d me).1 ≡ true
      → bytes (read_version (insert_record chains key d me).0 key me read_ts) ≡ some d
  unfolding insert_record
  read_version-insert_record chains key d me read_ts h =
      let (m, chain) = get_or_create_version_chain chains key in
      ap bytes (read_version-update m key (insert_version chain d me).0 read_ts me)
      ∙ find_visible_version-insert_version chain d me read_ts h

  -- A record that the transaction has updated reads back, through the map of chains.
  pub read_version-update_record :
      (chains : Chains K) (key : K) (d : List ℕ) (me read_ts : ℤ)
      → (update_record chains key d me read_ts).1 ≡ true
      → bytes (read_version (update_record chains key d me read_ts).0 key me read_ts) ≡ some d
  unfolding update_record
  read_version-update_record chains key d me read_ts h =
      let (m, chain) = get_or_create_version_chain chains key in
      ap bytes (read_version-update m key (update_version chain d me read_ts).0 read_ts me)
      ∙ find_visible_version-update_version chain d me read_ts h

  -- After a delete that succeeds, whether the record had a chain before or not, the deleting transaction
  -- itself reads nothing of the record, at any snapshot; and of no other record does any transaction read
  -- anything else than before.
  pub read_version-delete_record :
      (chains : Chains K) (key : K) (me read_ts : ℤ) (original : Option (List ℕ))
      → (delete_record chains key me read_ts original).1 ≡ true
      → ((at : ℤ) → read_version (delete_record chains key me read_ts original).0 key me at ≡ none)
        × ((other : K) (reader at : ℤ)
            → e.beq key other ≡ false
            → read_version (delete_record chains key me read_ts original).0 other reader at
              ≡ read_version chains other reader at)
  unfolding delete_record get_version_chain read_version
  read_version-delete_record chains key me read_ts original h = elim (Option-cases (chains key)) [
    | inr (chain, held) ↦
        rw (held, delete_record)
          (
            λ at.
                read_version-update chains key (delete_version chain me read_ts).0 at me
                ∙ find_visible_version-delete_version chain me read_ts at
                    (rw (held, delete_record) at h),
            λ other reader at apart. rw (read_version, apart) refl,
          )
    | inl absent ↦ elim (Option-cases original) [
      | inl missing ↦ cc (rw (absent, delete_record, missing) at h)
      | inr (d, given) ↦
          let chain = add_version [] (initial_version d) in
          rw (absent, delete_record, given)
            (
              λ at.
                  read_version-update chains key (delete_version chain me read_ts).0 at me
                  ∙ find_visible_version-delete_version chain me read_ts at
                      (rw (absent, delete_record, given) at h),
              λ other reader at apart. rw (read_version, apart) refl,
            )
    ]
  ]
