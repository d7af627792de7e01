-- ===== src/Transaction/Mvcc/Outcomes.antt =====
-- What several writes and commits on one chain of src/transaction/mvcc_manager.h come to.
use rmdb.Prelude.{
  ◌≡◌, inl, inr, refl, sym, ap, ◌∙◌, Bool, true, false, Option, none, some, List, [], ◌∷◌,
  if◌then◌else◌, arith, Bool-cases, Option-cases, ℕ, ◌<◌, length,
}
use rmdb.Prelude.Int.{ℤ, ◌==ℤ◌, ==ℤ_iff, ltb_ℤ, leb_ℤ}
use rmdb.Transaction.VersionChain.{
  invalid_timestamp, int32_max, TupleVersion, Chain, new_version, is_own, is_foreign,
  find_visible_version, update_version, commit_from, commit_version, expire_head,
  is_version_visible, max_iterations,
}
use rmdb.Transaction.VersionChain.Reads.{
  bytes, find_visible_version-commit_version, find_visible_version-is_version_visible,
}
use rmdb.Transaction.VersionChain.Writes.{update_version-lost, find_visible_version-commit_from}
use rmdb.Transaction.Mvcc.Writers.{is_uncommitted, all_committed, committed_parts}

not_own : (me : ℤ) (v : TupleVersion) → is_uncommitted v ≡ false → is_own me v ≡ false
not_own me v h = ground arith

not_foreign : (me : ℤ) (v : TupleVersion) → is_uncommitted v ≡ false → is_foreign me v ≡ false
not_foreign me v h = ground arith

-- An update that succeeds on a chain of committed versions adds one.
update_version-adds :
    (chain : Chain) (d : List ℕ) (me read_ts : ℤ)
    → all_committed chain ≡ true
    → (update_version chain d me read_ts).2 ≡ true
    → (update_version chain d me read_ts).0 ≡ new_version d me ∷ chain
unfolding update_version
update_version-adds [] d me read_ts a h = refl
update_version-adds (v ∷ rest) d me read_ts a h =
    let done = (committed_parts v rest a).0 in
    let free = not_foreign me v done in
    let other = not_own me v done in
    elim (Option-cases (find_visible_version (v ∷ rest) read_ts me)) [
      | inl missing ↦ cc (rw (free, other, missing, update_version) at h)
      | inr (seen, found) ↦ elim (Bool-cases seen.is_deleted) [
        | inl gone ↦ cc (rw (free, other, found, update_version, gone) at h)
        | inr live ↦ rw (free, other, found, update_version, live) refl
      ]
    ]

commit_from-old :
    (me ts : ℤ) (chain : Chain) → all_committed chain ≡ true → commit_from me ts false chain ≡ chain
unfolding commit_from
commit_from-old me ts [] a = refl
commit_from-old me ts (v ∷ rest) a =
    let (done, others) = committed_parts v rest a in
    rw (not_own me v done) (ap (λ r. v ∷ r) (commit_from-old me ts rest others))

-- Where all other versions are committed, the commit of the newest is `commit_version`.
commit_from-commit_version :
    (d : List ℕ) (me ts : ℤ) (chain : Chain)
    → all_committed chain ≡ true
    → commit_from me ts false (new_version d me ∷ chain)
      ≡ commit_version (new_version d me ∷ chain) ts
unfolding commit_from commit_version
commit_from-commit_version d me ts [] a = rw ((==ℤ_iff me me).1 refl) refl
commit_from-commit_version d me ts (v ∷ rest) a =
    let (done, others) = committed_parts v rest a in
    rw ((==ℤ_iff me me).1 refl, not_own me v done, done)
      (ap
        (λ r.
          record (new_version d me) { create_ts = ts }
          ∷ (if v.expire_ts ==ℤ int32_max then record v { expire_ts = ts } else v)
          ∷ r)
        (commit_from-old me ts rest others))

commit_version-head :
    (v : TupleVersion) (chain : Chain) (ts : ℤ)
    → commit_version (v ∷ chain) ts ≡ record v { create_ts = ts } ∷ expire_head ts chain
unfolding commit_version
commit_version-head v chain ts = refl

bytes-some :
    (o : Option TupleVersion) (d : List ℕ) → bytes o ≡ some d → (v : TupleVersion) × (o ≡ some v)
bytes-some none d h = cc h
bytes-some (some v) d h = (v, refl)

visible_live :
    (v : TupleVersion) (me read_ts : ℤ)
    → is_version_visible v me read_ts ≡ true
    → v.is_deleted ≡ false
unfolding is_version_visible
visible_live v me read_ts h = elim (Bool-cases v.is_deleted) [
  | inl gone ↦ elim (Bool-cases (v.txn_id ==ℤ me)) [
    | inl mine ↦ cc (rw (mine, gone) at h)
    | inr other ↦ cc (rw (other, gone) at h)
  ]
  | inr live ↦ live
]

-- Updates get lost. Transaction b updates a record of which all versions are committed and which has fewer
-- than 1000, and commits at a time after the snapshot of another transaction a, which sees some version.
-- An update by a over that commit still succeeds; and when a commits, at a time that is not a mark, every
-- third transaction with a snapshot from then on reads the bytes of a.
pub update_version-overwrites :
    (chain : Chain) (d x : List ℕ) (a b read_a read_b ts : ℤ) (seen : TupleVersion)
    → all_committed chain ≡ true
    → length chain < max_iterations
    → (b ==ℤ a) ≡ false
    → (ts ==ℤ invalid_timestamp) ≡ false
    → ltb_ℤ read_a ts ≡ true
    → (update_version chain d b read_b).2 ≡ true
    → find_visible_version chain read_a a ≡ some seen
    → ((update_version (commit_from b ts false (update_version chain d b read_b).0) x a read_a).2
        ≡ true)
      × ((reader later_ts later : ℤ)
          → (a ==ℤ reader) ≡ false
          → (later_ts ==ℤ invalid_timestamp) ≡ false
          → (later_ts ==ℤ int32_max) ≡ false
          → leb_ℤ later_ts later ≡ true
          → bytes (
              find_visible_version
                (commit_from a later_ts false
                  (update_version
                    (commit_from b ts false (update_version chain d b read_b).0)
                    x
                    a
                    read_a).0)
                later
                reader)
            ≡ some x)
update_version-overwrites chain d x a b read_a read_b ts seen old short other valid late updated
      found =
    let v : TupleVersion = record (new_version d b) { create_ts = ts } in
    let rest = expire_head ts chain in
    let same : commit_from b ts false (update_version chain d b read_b).0 ≡ v ∷ rest =
      ap (commit_from b ts false) (update_version-adds chain d b read_b old updated)
      ∙ (commit_from-commit_version d b ts chain old
          ∙ commit_version-head (new_version d b) chain ts) in
    let read : bytes (find_visible_version (v ∷ rest) read_a a) ≡ some seen.data_ =
      ap (λ c. bytes (find_visible_version c read_a a))
        (sym (commit_version-head (new_version d b) chain ts))
      ∙ find_visible_version-commit_version chain (new_version d b) ts read_a a short other late
      ∙ ap bytes found in
    let (visible, sees) = bytes-some (find_visible_version (v ∷ rest) read_a a) seen.data_ read in
    let live =
      visible_live visible a read_a
        (find_visible_version-is_version_visible (v ∷ rest) read_a a visible sees) in
    let done = update_version-lost v rest x a read_a visible other valid late sees live in
    let all = ap (λ c. update_version c x a read_a) same ∙ done in
    (
      ap (λ (r : Chain × Option (Option TupleVersion) × Bool). r.2) all,
      λ reader later_ts later third ok small early.
          ap
            (λ (r : Chain × Option (Option TupleVersion) × Bool).
              bytes (find_visible_version (commit_from a later_ts false r.0) later reader))
            all
          ∙ find_visible_version-commit_from x (v ∷ rest) a later_ts reader later third ok small
              early,
    )
