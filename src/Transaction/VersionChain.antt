-- ===== src/Transaction/VersionChain.antt =====
-- src/transaction/mvcc_defs.h, and the part of src/transaction/mvcc_manager.h that works on the
-- version chain of one record. A chain is its list of versions, newest first: `prev` is the tail.
pub mod Reads
pub mod Writes
use rmdb.Prelude.{
  ℕ, zero, suc, Bool, true, false, not, ◌&&◌, ◌||◌, Option, none, some, List, [], ◌∷◌,
  if◌then◌else◌,
}
use rmdb.Prelude.Int.{ℤ, pos, negsuc, ◌==ℤ◌, ltb_ℤ, leb_ℤ}

abbrev pub invalid_timestamp : ℤ
invalid_timestamp = negsuc 0

abbrev pub int32_max : ℤ
int32_max = pos 2147483647

-- `data` holds the bytes, and their number is `size`.
pub record TupleVersion : Type 0 where
  pub data_ : List ℕ
  pub txn_id : ℤ
  pub create_ts : ℤ
  pub expire_ts : ℤ
  pub is_deleted : Bool

abbrev pub Chain : Type 0
Chain = List TupleVersion

-- The constructor.
abbrev pub new_version : List ℕ → ℤ → TupleVersion
new_version d txn_id = record {
  data_ = d;
  txn_id = txn_id;
  create_ts = invalid_timestamp;
  expire_ts = int32_max;
  is_deleted = false;
}

abbrev pub add_version : Chain → TupleVersion → Chain
add_version chain v = v ∷ chain

abbrev pub expire_at : ℤ → TupleVersion → TupleVersion
expire_at ts v = record v { expire_ts = ts }

-- The first step from a version to the one before it.
abbrev pub expire_head : ℤ → Chain → Chain
expire_head ts [] = []
expire_head ts (w ∷ rest) = (if w.expire_ts ==ℤ int32_max then expire_at ts w else w) ∷ rest

-- `commit_version` of the head. The repository itself commits chains by `commit_chain_versions`.
unfoldable pub commit_version : Chain → ℤ → Chain
commit_version [] ts = []
commit_version (v ∷ rest) ts = record v { create_ts = ts } ∷ expire_head ts rest

unfoldable pub is_version_visible : TupleVersion → ℤ → ℤ → Bool
is_version_visible v me read_ts =
    if v.txn_id ==ℤ me
    then not v.is_deleted
    else not v.is_deleted
      && not (v.create_ts ==ℤ invalid_timestamp)
      && not (v.create_ts ==ℤ int32_max)
      && not (ltb_ℤ read_ts v.create_ts)
      && not (
          not (v.expire_ts ==ℤ int32_max)
          && not (v.expire_ts ==ℤ invalid_timestamp)
          && leb_ℤ v.expire_ts read_ts)

-- What a loop over a chain does at a version: return it, return null, or go to the version before.
pub data Verdict : Type 0 where
  give stop skip : Verdict

abbrev pub answer : Verdict → TupleVersion → Option TupleVersion → Option TupleVersion
answer give v later = some v
answer stop v later = none
answer skip v later = later

-- The loop, with its bound on the iterations.
unfoldable pub walk : (TupleVersion → Verdict) → ℕ → Chain → Option TupleVersion
walk verdict zero chain = none
walk verdict (suc n) [] = none
walk verdict (suc n) (v ∷ rest) = answer (verdict v) v (walk verdict n rest)

abbrev pub max_iterations : ℕ
max_iterations = 1000

-- The body of the loop of `find_visible_version`.
unfoldable pub visible_verdict : ℤ → ℤ → TupleVersion → Verdict
visible_verdict read_ts me v =
    if v.txn_id ==ℤ me
    then (if v.is_deleted then stop else give)
    else (if v.is_deleted
        then (if v.create_ts ==ℤ invalid_timestamp
            then skip
            else (if ltb_ℤ read_ts v.create_ts then skip else stop))
        else (if v.create_ts ==ℤ invalid_timestamp
            then skip
            else (if v.create_ts ==ℤ int32_max
                then skip
                else (if leb_ℤ v.create_ts read_ts
                      && (v.expire_ts ==ℤ int32_max || ltb_ℤ read_ts v.expire_ts)
                    then give
                    else skip))))

unfoldable pub find_visible_version : Chain → ℤ → ℤ → Option TupleVersion
unfolding walk visible_verdict
find_visible_version chain read_ts me = walk (visible_verdict read_ts me) max_iterations chain

abbrev pub delete_verdict : ℤ → ℤ → TupleVersion → Verdict
delete_verdict read_ts me v =
    if not v.is_deleted && is_version_visible v me read_ts then give else skip

unfoldable pub find_version_for_delete : Chain → ℤ → ℤ → Option TupleVersion
unfolding walk is_version_visible
find_version_for_delete chain read_ts me = walk (delete_verdict read_ts me) max_iterations chain

-- Another transaction's version that is not committed.
abbrev pub is_foreign : ℤ → TupleVersion → Bool
is_foreign me v = not (v.txn_id ==ℤ me) && v.create_ts ==ℤ invalid_timestamp

-- The transaction's own version that is not committed.
abbrev pub is_own : ℤ → TupleVersion → Bool
is_own me v = v.txn_id ==ℤ me && v.create_ts ==ℤ invalid_timestamp

unfoldable pub has_write_conflict : Chain → ℤ → Bool
has_write_conflict [] me = false
has_write_conflict (head ∷ _) me = is_foreign me head

unfoldable pub insert_version : Chain → List ℕ → ℤ → Chain × Bool
insert_version [] d me = (add_version [] (new_version d me), true)
insert_version (head ∷ rest) d me =
    if is_own me head
    then (if head.is_deleted
        then (record head { data_ = d; is_deleted = false } ∷ rest, true)
        else (head ∷ rest, false))
    else (if is_foreign me head
        then (head ∷ rest, false)
        else (add_version (head ∷ rest) (new_version d me), true))

-- The chain, the old version of the undo record if one is added to the log, and the answer.
unfoldable pub update_version : Chain → List ℕ → ℤ → ℤ → Chain × Option (Option TupleVersion) × Bool
unfolding find_visible_version
update_version [] d me read_ts = (add_version [] (new_version d me), some none, true)
update_version (head ∷ rest) d me read_ts =
    if is_foreign me head
    then (head ∷ rest, none, false)
    else (if is_own me head
        then (if head.is_deleted
            then (head ∷ rest, none, false)
            else (record head { data_ = d } ∷ rest, none, true))
        else elim (find_visible_version (head ∷ rest) read_ts me) [
          | none ↦ (head ∷ rest, none, false)
          | some visible ↦
              if visible.is_deleted
              then (head ∷ rest, none, false)
              else (add_version (head ∷ rest) (new_version d me), some (some visible), true)
        ])

-- Whether the transaction has a deleting version in the chain.
unfoldable pub has_deleted : ℤ → Chain → Bool
has_deleted me [] = false
has_deleted me (v ∷ rest) = if v.txn_id ==ℤ me && v.is_deleted then true else has_deleted me rest

-- `delete_version` of a record that has a chain.
unfoldable pub delete_version : Chain → ℤ → ℤ → Chain × Option TupleVersion × Bool
unfolding has_write_conflict find_version_for_delete has_deleted
delete_version chain me read_ts =
    if has_write_conflict chain me
    then (chain, none, false)
    else elim (find_version_for_delete chain read_ts me) [
      | none ↦ (chain, none, false)
      | some visible ↦
          if visible.is_deleted || has_deleted me chain then (chain, none, false) else (
            add_version chain (record (new_version visible.data_ me) { is_deleted = true }),
            some visible,
            true,
          )
    ]

-- The loop of `commit_chain_versions`, from a version on; the flag says that the version after it
-- was committed in this loop.
unfoldable pub commit_from : ℤ → ℤ → Bool → Chain → Chain
commit_from me ts newer [] = []
commit_from me ts newer (v ∷ rest) =
    let expires = newer && not (v.create_ts ==ℤ invalid_timestamp) && v.expire_ts ==ℤ int32_max in
    let old = if expires then expire_at ts v else v in
    (if is_own me v then record old { create_ts = ts } else old)
    ∷ commit_from me ts (is_own me v) rest

-- The version that `commit_chain_versions` keeps for the storage: the last that its loop commits.
unfoldable pub committed_version : ℤ → ℤ → Chain → Option TupleVersion
committed_version me ts [] = none
committed_version me ts (v ∷ rest) =
    let later = committed_version me ts rest in
    elim later [
      | some w ↦ some w
      | none ↦ if is_own me v then some (record v { create_ts = ts }) else none
    ]
