-- ===== src/Transaction/Mvcc.antt =====
-- src/transaction/mvcc_manager.h: the chains of all records, and what a commit and a rollback do to
-- those that a transaction wrote. A key stands for the string that `rid_to_key` makes; the write to
-- the storage at a commit is left out.
pub mod Rollback
pub mod Undone
pub mod Writers
pub mod OneWriter
pub mod Outcomes
pub mod Records
pub mod ReadSets
use rmdb.Prelude.{
  ℕ, zero, suc, ◌+◌, Bool, true, false, not, ◌&&◌, ◌||◌, Option, none, some, List, [], ◌∷◌,
  if◌then◌else◌, Eq, update, remove,
}
use rmdb.Prelude.Int.{ℤ, pos, ◌==ℤ◌, ltb_ℤ, leb_ℤ}
use rmdb.Transaction.VersionChain.{
  invalid_timestamp, int32_max, TupleVersion, Chain, Verdict, give, stop, skip, walk, new_version,
  add_version, insert_version, update_version, delete_version, max_iterations, find_visible_version,
  is_own, commit_from,
}

-- The body of the loop of `reconstruct_version`.
unfoldable pub reconstruct_verdict : ℤ → ℤ → TupleVersion → Verdict
reconstruct_verdict target_ts me v =
    if v.txn_id ==ℤ me
    then (if v.is_deleted then stop else give)
    else (if not (v.create_ts ==ℤ invalid_timestamp)
          && not (v.create_ts ==ℤ int32_max)
          && leb_ℤ v.create_ts target_ts
          && (v.expire_ts ==ℤ int32_max || ltb_ℤ target_ts v.expire_ts)
          && not v.is_deleted
        then give
        else skip)

-- `rollback_chain_versions`: the chain, and the number of versions that are dropped.
unfoldable pub rollback_chain : ℤ → Chain → Chain
rollback_chain me [] = []
rollback_chain me (v ∷ rest) =
    if is_own me v then rollback_chain me rest else v ∷ rollback_chain me rest

unfoldable pub rollback_count : ℤ → Chain → ℕ
rollback_count me [] = 0
rollback_count me (v ∷ rest) =
    if is_own me v then rollback_count me rest + 1 else rollback_count me rest

abbrev pub is_empty : Chain → Bool
is_empty [] = true
is_empty (_ ∷ _) = false

-- The first version of a record that was in the storage before, by transaction 0 at time 0.
abbrev pub initial_version : List ℕ → TupleVersion
initial_version d = record (new_version d (pos 0)) { create_ts = pos 0 }

-- `MVCCVisibility::is_visible` of src/transaction/mvcc_defs.h.
unfoldable pub is_visible : TupleVersion → ℤ → ℤ → Bool
is_visible v me read_ts =
    if v.txn_id ==ℤ me
    then not v.is_deleted
    else not (v.create_ts ==ℤ invalid_timestamp)
      && leb_ℤ v.create_ts read_ts
      && ltb_ℤ read_ts v.expire_ts
      && not v.is_deleted

-- `version_chains_`.
abbrev pub Chains : Type 0 → Type 0
Chains K = K → Option Chain

module _ {K : Type 0} ⦃e : Eq K⦄ where
  unfoldable pub get_version_chain : Chains K → K → Option Chain
  get_version_chain chains key = chains key

  unfoldable pub create_version_chain : Chains K → K → Chains K
  create_version_chain chains key = update chains key []

  -- The chains, and the one that was asked for.
  unfoldable pub get_or_create_version_chain : Chains K → K → Chains K × Chain
  unfolding get_version_chain create_version_chain
  get_or_create_version_chain chains key = elim (get_version_chain chains key) [
    | some chain ↦ (chains, chain)
    | none ↦ (create_version_chain chains key, [])
  ]

  -- `insert_version`, `update_version` and `delete_version` of the manager: the chain is found or
  -- made, and written in place.
  unfoldable pub insert_record : Chains K → K → List ℕ → ℤ → Chains K × Bool
  unfolding get_or_create_version_chain
  insert_record chains key d me =
      let (found, chain) = get_or_create_version_chain chains key in
      let (written, done) = insert_version chain d me in (update found key written, done)

  unfoldable pub update_record : Chains K → K → List ℕ → ℤ → ℤ → Chains K × Bool
  unfolding get_or_create_version_chain
  update_record chains key d me read_ts =
      let (found, chain) = get_or_create_version_chain chains key in
      let r = update_version chain d me read_ts in (update found key r.0, r.2)

  -- `original` is the record in the storage, if there is a storage that answers it. A record that
  -- has no chain gets its first version from there.
  unfoldable pub delete_record : Chains K → K → ℤ → ℤ → Option (List ℕ) → Chains K × Bool
  unfolding get_version_chain
  delete_record chains key me read_ts original = elim (get_version_chain chains key) [
    | some chain ↦ let r = delete_version chain me read_ts in (update chains key r.0, r.2)
    | none ↦ elim original [
      | none ↦ (chains, false)
      | some d ↦
          let r = delete_version (add_version [] (initial_version d)) me read_ts in
          (update chains key r.0, r.2)
    ]
  ]

  unfoldable pub read_version : Chains K → K → ℤ → ℤ → Option TupleVersion
  read_version chains key me read_ts = elim (chains key) [
    | none ↦ none
    | some chain ↦ if is_empty chain then none else find_visible_version chain read_ts me
  ]

  -- The version whose bytes `reconstruct_version` copies.
  unfoldable pub reconstruct_version : Chains K → K → ℤ → ℤ → Option TupleVersion
  unfolding reconstruct_verdict walk
  reconstruct_version chains key target_ts me = elim (chains key) [
    | none ↦ none
    | some chain ↦ walk (reconstruct_verdict target_ts me) max_iterations chain
  ]

  -- `commit_transaction`, with the keys of the write set.
  unfoldable pub commit_transaction : List K → ℤ → ℤ → Chains K → Chains K
  commit_transaction [] me ts chains = chains
  commit_transaction (key ∷ keys) me ts chains = commit_transaction keys me ts (elim (chains key) [
    | none ↦ chains
    | some chain ↦ update chains key (commit_from me ts false chain)
  ])

  -- One round of `rollback_transaction`. A chain that has become empty is erased at once, where the
  -- code erases these after the loop.
  unfoldable pub rollback_key : K → ℤ → Chains K → Chains K
  unfolding rollback_chain
  rollback_key key me chains = elim (chains key) [
    | none ↦ chains
    | some chain ↦
        if is_empty (rollback_chain me chain)
        then remove chains key
        else update chains key (rollback_chain me chain)
  ]

  -- `rollback_transaction`, with the keys of the write set.
  unfoldable pub rollback_transaction : List K → ℤ → Chains K → Chains K
  unfolding rollback_key
  rollback_transaction [] me chains = chains
  rollback_transaction (key ∷ keys) me chains =
      rollback_transaction keys me (rollback_key key me chains)
