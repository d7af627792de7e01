-- ===== src/Transaction/VersionChain/Reads.antt =====
-- What a read of a version chain answers: src/transaction/mvcc_defs.h.
use rmdb.Prelude.{
  ℕ, zero, suc, ◌<◌, ◌≡◌, ◌≢◌, ◌⊎◌, inl, inr, refl, sym, ap, subst, ◌∙◌, true, false, Option, none,
  some, List, [], ◌∷◌, arith, Bool-cases, length,
}
use mathlib.Core.Option.{some-injective}
use rmdb.Prelude.Int.{ℤ, ◌==ℤ◌, ltb_ℤ}
use rmdb.Transaction.VersionChain.{
  invalid_timestamp, int32_max, TupleVersion, Chain, add_version, expire_at, expire_head,
  commit_version, is_version_visible, Verdict, give, stop, skip, answer, walk, max_iterations,
  visible_verdict, find_visible_version,
}

give_lem :
    (read_ts me : ℤ) (v : TupleVersion)
    → visible_verdict read_ts me v ≡ give
    → is_version_visible v me read_ts ≡ true
unfolding visible_verdict is_version_visible
give_lem read_ts me v h = ground arith

Verdict-cases : (x : Verdict) → (x ≡ give) ⊎ (x ≡ stop) ⊎ (x ≡ skip)
Verdict-cases give = inl refl
Verdict-cases stop = inr (inl refl)
Verdict-cases skip = inr (inr refl)

walk-answer :
    (verdict : TupleVersion → Verdict) (n : ℕ) (v : TupleVersion) (rest : Chain) (x : Verdict)
    → verdict v ≡ x
    → walk verdict (suc n) (v ∷ rest) ≡ answer x v (walk verdict n rest)
unfolding walk
walk-answer verdict n v rest x e = ap (λ x. answer x v (walk verdict n rest)) e

none≢some : {v : TupleVersion} → none ≢ some v
none≢some h = cc h

pub walk-give :
    (verdict : TupleVersion → Verdict) (n : ℕ) (chain : Chain) (v : TupleVersion)
    → walk verdict n chain ≡ some v
    → verdict v ≡ give
walk-give verdict zero chain v h = absurd (none≢some {v = v} (unfold walk in h))
walk-give verdict (suc n) [] v h = absurd (none≢some {v = v} (unfold walk in h))
walk-give verdict (suc n) (w ∷ rest) v h = elim (Verdict-cases (verdict w)) [
  | inl e ↦
      subst (λ x. verdict x ≡ give)
        (some-injective w v (sym (walk-answer verdict n w rest give e) ∙ h)) e
  | inr (inl e) ↦ absurd (none≢some (sym (walk-answer verdict n w rest stop e) ∙ h))
  | inr (inr e) ↦ walk-give verdict n rest v (sym (walk-answer verdict n w rest skip e) ∙ h)
]

-- Any version that a read returns is visible to the reader by the separate test of a version.
pub find_visible_version-is_version_visible :
    (chain : Chain) (read_ts me : ℤ) (v : TupleVersion)
    → find_visible_version chain read_ts me ≡ some v
    → is_version_visible v me read_ts ≡ true
unfolding find_visible_version
find_visible_version-is_version_visible chain read_ts me v h =
    give_lem read_ts me v (walk-give (visible_verdict read_ts me) max_iterations chain v h)

-- A bound that the chain's length does not pass makes no difference.
walk-suc :
    (verdict : TupleVersion → Verdict) (n : ℕ) (chain : Chain)
    → length chain < suc n
    → walk verdict (suc n) chain ≡ walk verdict n chain
unfolding walk
walk-suc verdict zero [] h = refl
walk-suc verdict (suc n) [] h = refl
walk-suc verdict zero (v ∷ rest) h = absurd (omega arith)
walk-suc verdict (suc n) (v ∷ rest) h =
    ap (λ later. answer (verdict v) v later) (walk-suc verdict n rest (omega arith))

-- The bytes that a read answers with.
abbrev pub bytes : Option TupleVersion → Option (List ℕ)
bytes none = none
bytes (some v) = some v.data_

skip_lem :
    (read_ts me : ℤ) (v : TupleVersion)
    → (v.txn_id ==ℤ me) ≡ false
    → ((v.create_ts ==ℤ invalid_timestamp) ≡ true) ⊎ (ltb_ℤ read_ts v.create_ts ≡ true)
    → visible_verdict read_ts me v ≡ skip
unfolding visible_verdict
skip_lem read_ts me v other late = ground arith

walk-skip :
    (read_ts me : ℤ) (v : TupleVersion) (rest : Chain)
    → length rest < max_iterations
    → visible_verdict read_ts me v ≡ skip
    → find_visible_version (v ∷ rest) read_ts me ≡ find_visible_version rest read_ts me
unfolding find_visible_version
walk-skip read_ts me v rest short e =
    let verdict = visible_verdict read_ts me in
    walk-answer verdict 999 v rest skip e ∙ sym (walk-suc verdict 999 rest short)

-- What another transaction has added and not committed does not change a read of a chain within
-- the loop's bound.
pub find_visible_version-add_version :
    (chain : Chain) (v : TupleVersion) (read_ts me : ℤ)
    → length chain < max_iterations
    → (v.txn_id ==ℤ me) ≡ false
    → v.create_ts ≡ invalid_timestamp
    → find_visible_version (add_version chain v) read_ts me ≡ find_visible_version chain read_ts me
find_visible_version-add_version chain v read_ts me short other fresh =
    walk-skip read_ts me v chain short (skip_lem read_ts me v other (inl (rw fresh refl)))

-- The expiry that a later commit puts on a version does not change what a loop does there.
expire_lem :
    (read_ts me ts : ℤ) (v : TupleVersion)
    → ltb_ℤ read_ts ts ≡ true
    → (v.expire_ts ==ℤ int32_max) ≡ true
    → visible_verdict read_ts me (expire_at ts v) ≡ visible_verdict read_ts me v
unfolding visible_verdict
expire_lem read_ts me ts v late never = ground arith

pub find_visible_version-answer :
    (read_ts me : ℤ) (v : TupleVersion) (rest : Chain) (x : Verdict)
    → visible_verdict read_ts me v ≡ x
    → find_visible_version (v ∷ rest) read_ts me
      ≡ answer x v (walk (visible_verdict read_ts me) 999 rest)
unfolding find_visible_version
find_visible_version-answer read_ts me v rest x e =
    walk-answer (visible_verdict read_ts me) 999 v rest x e

bytes-answer :
    (ts : ℤ) (v : TupleVersion) (x : Verdict) (later : Option TupleVersion)
    → bytes (answer x (expire_at ts v) later) ≡ bytes (answer x v later)
bytes-answer ts v give later = refl
bytes-answer ts v stop later = refl
bytes-answer ts v skip later = refl

expired_lem :
    (read_ts me ts : ℤ) (v : TupleVersion) (rest : Chain)
    → ltb_ℤ read_ts ts ≡ true
    → (v.expire_ts ==ℤ int32_max) ≡ true
    → bytes (find_visible_version (expire_at ts v ∷ rest) read_ts me)
      ≡ bytes (find_visible_version (v ∷ rest) read_ts me)
expired_lem read_ts me ts v rest late never =
    let x = visible_verdict read_ts me v in
    let later = walk (visible_verdict read_ts me) 999 rest in
    ap bytes (
      find_visible_version-answer read_ts me (expire_at ts v) rest x
        (expire_lem read_ts me ts v late never))
    ∙ bytes-answer ts v x later
    ∙ ap bytes (sym (find_visible_version-answer read_ts me v rest x refl))

expire_head_lem :
    (read_ts me ts : ℤ) (chain : Chain)
    → ltb_ℤ read_ts ts ≡ true
    → bytes (find_visible_version (expire_head ts chain) read_ts me)
      ≡ bytes (find_visible_version chain read_ts me)
expire_head_lem read_ts me ts [] late = refl
expire_head_lem read_ts me ts (v ∷ rest) late = elim (Bool-cases (v.expire_ts ==ℤ int32_max)) [
  | inr shut ↦ rw shut refl
  | inl never ↦ rw never (expired_lem read_ts me ts v rest late never)
]

-- A read answers the same bytes after another transaction has added a version and committed it
-- later than the reader's snapshot, on a chain within the loop's bound.
pub find_visible_version-commit_version :
    (chain : Chain) (v : TupleVersion) (ts read_ts me : ℤ)
    → length chain < max_iterations
    → (v.txn_id ==ℤ me) ≡ false
    → ltb_ℤ read_ts ts ≡ true
    → bytes (find_visible_version (commit_version (add_version chain v) ts) read_ts me)
      ≡ bytes (find_visible_version chain read_ts me)
unfolding commit_version
find_visible_version-commit_version chain v ts read_ts me short other late =
    let committed : TupleVersion = record v { create_ts = ts } in
    ap bytes (
      walk-skip read_ts me committed (expire_head ts chain) (same_length chain short)
        (skip_lem read_ts me committed other (inr late)))
    ∙ expire_head_lem read_ts me ts chain late
  where
    same_length :
        (chain' : Chain)
        → length chain' < max_iterations
        → length (expire_head ts chain') < max_iterations
    same_length [] h = h
    same_length (w ∷ rest) h = h
