-- ===== src/Transaction/VersionChain/Writes.antt =====
-- What the writes of a version chain do: insert_version, update_version, delete_version and
-- commit_chain_versions of src/transaction/mvcc_manager.h.
use rmdb.Prelude.{
  ℕ, ◌≡◌, inl, inr, refl, ap, ◌∙◌, Bool, true, false, ◌||◌, Option, none, some, List, [], ◌∷◌,
  if◌then◌else◌, arith, Bool-cases, Option-cases,
}
use rmdb.Prelude.Int.{ℤ, ◌==ℤ◌, ==ℤ_iff, ltb_ℤ, leb_ℤ}
use rmdb.Transaction.VersionChain.{
  invalid_timestamp, int32_max, TupleVersion, Chain, new_version, give, stop, visible_verdict,
  find_visible_version, find_version_for_delete, is_foreign, is_own, has_write_conflict,
  insert_version, update_version, has_deleted, delete_version, commit_from, committed_version,
}
use rmdb.Transaction.VersionChain.Reads.{bytes, find_visible_version-answer}

-- A transaction's own newest version decides its reads, whatever its snapshot.
own_give_lem :
    (v : TupleVersion) (read_ts me : ℤ)
    → (v.txn_id ==ℤ me) ≡ true
    → visible_verdict read_ts me v ≡ (if v.is_deleted then stop else give)
unfolding visible_verdict
own_give_lem v read_ts me mine = rw mine refl

own_head_lem :
    (v : TupleVersion) (rest : Chain) (read_ts me : ℤ)
    → (v.txn_id ==ℤ me) ≡ true
    → v.is_deleted ≡ false
    → find_visible_version (v ∷ rest) read_ts me ≡ some v
own_head_lem v rest read_ts me mine live =
    find_visible_version-answer read_ts me v rest give
      (own_give_lem v read_ts me mine ∙ rw live refl)

own_deleted_lem :
    (v : TupleVersion) (rest : Chain) (read_ts me : ℤ)
    → (v.txn_id ==ℤ me) ≡ true
    → v.is_deleted ≡ true
    → find_visible_version (v ∷ rest) read_ts me ≡ none
own_deleted_lem v rest read_ts me mine gone =
    find_visible_version-answer read_ts me v rest stop
      (own_give_lem v read_ts me mine ∙ rw gone refl)

same_txn : (me : ℤ) → (me ==ℤ me) ≡ true
same_txn me = (==ℤ_iff me me).1 refl

-- After an insert that succeeds, the transaction reads the bytes that it inserted.
pub find_visible_version-insert_version :
    (chain : Chain) (d : List ℕ) (me read_ts : ℤ)
    → (insert_version chain d me).1 ≡ true
    → bytes (find_visible_version (insert_version chain d me).0 read_ts me) ≡ some d
unfolding insert_version
find_visible_version-insert_version [] d me read_ts h =
    ap bytes (own_head_lem (new_version d me) [] read_ts me (same_txn me) refl)
find_visible_version-insert_version (head ∷ rest) d me read_ts h =
    elim (Bool-cases (is_own me head)) [
      | inl own ↦ elim (Bool-cases head.is_deleted) [
        | inl gone ↦
            rw (own, gone)
              (ap bytes (
                own_head_lem (record head { data_ = d; is_deleted = false }) rest read_ts me
                  (ground arith) refl))
        | inr live ↦ absurd (ground arith)
      ]
      | inr other ↦ elim (Bool-cases (is_foreign me head)) [
        | inl foreign ↦ absurd (ground arith)
        | inr free ↦
            rw (other, free)
              (ap bytes
                (own_head_lem (new_version d me) (head ∷ rest) read_ts me (same_txn me) refl))
      ]
    ]

-- After an update that succeeds, the transaction reads the bytes that it wrote.
pub find_visible_version-update_version :
    (chain : Chain) (d : List ℕ) (me read_ts : ℤ)
    → (update_version chain d me read_ts).2 ≡ true
    → bytes (find_visible_version (update_version chain d me read_ts).0 read_ts me) ≡ some d
unfolding update_version
find_visible_version-update_version [] d me read_ts h =
    ap bytes (own_head_lem (new_version d me) [] read_ts me (same_txn me) refl)
find_visible_version-update_version (head ∷ rest) d me read_ts h =
    let fresh =
      ap bytes (own_head_lem (new_version d me) (head ∷ rest) read_ts me (same_txn me) refl) in
    elim (Bool-cases (is_foreign me head)) [
      | inl foreign ↦ absurd (ground arith)
      | inr free ↦ elim (Bool-cases (is_own me head)) [
        | inl own ↦ elim (Bool-cases head.is_deleted) [
          | inl gone ↦ absurd (ground arith)
          | inr live ↦
              let e : update_version (head ∷ rest) d me read_ts
                  ≡ (record head { data_ = d } ∷ rest, none, true) =
                rw (free, own, live) refl in
              ap
                (λ (o : Chain × Option (Option TupleVersion) × Bool).
                  bytes (find_visible_version o.0 read_ts me))
                e
              ∙ ap bytes
                  (own_head_lem (record head { data_ = d }) rest read_ts me (ground arith) live)
        ]
        | inr other ↦ elim (Option-cases (find_visible_version (head ∷ rest) read_ts me)) [
          | inl missing ↦ cc (rw (free, other, missing, update_version) at h)
          | inr (visible, found) ↦ elim (Bool-cases visible.is_deleted) [
            | inl gone ↦ cc (rw (free, other, found, update_version, gone) at h)
            | inr live ↦ rw (free, other, found, update_version, live) fresh
          ]
        ]
      ]
    ]

-- After a delete that succeeds, the transaction reads nothing, at any snapshot.
pub find_visible_version-delete_version :
    (chain : Chain) (me read_ts later : ℤ)
    → (delete_version chain me read_ts).2 ≡ true
    → find_visible_version (delete_version chain me read_ts).0 later me ≡ none
unfolding delete_version
find_visible_version-delete_version chain me read_ts later h =
    elim (Bool-cases (has_write_conflict chain me)) [
      | inl conflict ↦ absurd (ground arith)
      | inr free ↦ elim (Option-cases (find_version_for_delete chain read_ts me)) [
        | inl missing ↦ absurd (ground arith)
        | inr (visible, found) ↦ elim (Bool-cases (visible.is_deleted || has_deleted me chain)) [
          | inl gone ↦ absurd (ground arith)
          | inr live ↦
              rw (free, found, live, delete_version)
                (own_deleted_lem (record (new_version visible.data_ me) { is_deleted = true }) chain
                  later me (same_txn me) refl)
        ]
      ]
    ]

-- The update is let through over a newer version that another transaction has committed, which its
-- snapshot does not see, as long as the snapshot sees some version.
pub update_version-lost :
    (head : TupleVersion) (rest : Chain) (d : List ℕ) (me read_ts : ℤ) (seen : TupleVersion)
    → (head.txn_id ==ℤ me) ≡ false
    → (head.create_ts ==ℤ invalid_timestamp) ≡ false
    → ltb_ℤ read_ts head.create_ts ≡ true
    → find_visible_version (head ∷ rest) read_ts me ≡ some seen
    → seen.is_deleted ≡ false
    → update_version (head ∷ rest) d me read_ts
      ≡ (new_version d me ∷ head ∷ rest, some (some seen), true)
unfolding update_version
update_version-lost head rest d me read_ts seen other done late found live =
    let foreign : is_foreign me head ≡ false = ground arith in
    let own : is_own me head ≡ false = ground arith in rw (foreign, own, found, live) refl

-- Of an update and a delete of one transaction, the delete newer, over versions that are none of
-- its uncommitted ones, the commit keeps the update for the storage, and not the delete.
pub committed_version-oldest :
    (d e : List ℕ) (rest : Chain) (me ts : ℤ)
    → committed_version me ts rest ≡ none
    → committed_version me ts
        (record (new_version d me) { is_deleted = true } ∷ new_version e me ∷ rest)
      ≡ some (record (new_version e me) { create_ts = ts })
unfolding committed_version
committed_version-oldest d e rest me ts h = rw (h, same_txn me) refl

committed_give_lem :
    (v : TupleVersion) (reader read_ts : ℤ)
    → (v.txn_id ==ℤ reader) ≡ false
    → v.is_deleted ≡ false
    → (v.create_ts ==ℤ invalid_timestamp) ≡ false
    → (v.create_ts ==ℤ int32_max) ≡ false
    → leb_ℤ v.create_ts read_ts ≡ true
    → (v.expire_ts ==ℤ int32_max) ≡ true
    → visible_verdict read_ts reader v ≡ give
unfolding visible_verdict
committed_give_lem v reader read_ts other live valid small early never =
    rw (other, live, valid, small, early, never) refl

-- After the commit, at a time that is not one of the two marks, of a transaction whose newest
-- version holds some bytes, another transaction whose snapshot is not before the commit reads
-- these bytes.
pub find_visible_version-commit_from :
    (d : List ℕ) (rest : Chain) (me ts reader read_ts : ℤ)
    → (me ==ℤ reader) ≡ false
    → (ts ==ℤ invalid_timestamp) ≡ false
    → (ts ==ℤ int32_max) ≡ false
    → leb_ℤ ts read_ts ≡ true
    → bytes
        (find_visible_version (commit_from me ts false (new_version d me ∷ rest)) read_ts reader)
      ≡ some d
unfolding commit_from
find_visible_version-commit_from d rest me ts reader read_ts other valid small early =
    let v : TupleVersion = record (new_version d me) { create_ts = ts } in
    let later = commit_from me ts true rest in
    rw (same_txn me) (
      ap bytes (
        find_visible_version-answer read_ts reader v later give
          (committed_give_lem v reader read_ts other refl valid small early refl)))
