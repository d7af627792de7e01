-- ===== src/Transaction/Mvcc/ReadSets.antt =====
-- cleanup_read_sets of src/transaction/mvcc_manager.h: who has read which record.
use rmdb.Prelude.{
  ◌≡◌, inl, inr, refl, Bool, true, false, Option, none, some, List, [], ◌∷◌, if◌then◌else◌,
  Bool-cases, Option-cases,
}
use mathlib.Core.Option.{some-injective}
use rmdb.Prelude.Int.{ℤ, ◌==ℤ◌}

-- `read_sets_`: the transactions that have read a record, by the record's key.
abbrev pub ReadSets : Type 0 → Type 0
ReadSets K = K → Option (List ℤ)

unfoldable pub has_reader : ℤ → List ℤ → Bool
has_reader me [] = false
has_reader me (txn_id ∷ readers) = if txn_id ==ℤ me then true else has_reader me readers

unfoldable pub erase_reader : ℤ → List ℤ → List ℤ
erase_reader me [] = []
erase_reader me (txn_id ∷ readers) =
    if txn_id ==ℤ me then erase_reader me readers else txn_id ∷ erase_reader me readers

abbrev pub has_none : List ℤ → Bool
has_none [] = true
has_none (_ ∷ _) = false

unfoldable pub cleanup_read_sets : {K : Type 0} → ReadSets K → ℤ → ReadSets K
unfolding erase_reader
cleanup_read_sets sets me key = elim (sets key) [
  | none ↦ none
  | some readers ↦
      if has_none (erase_reader me readers) then none else some (erase_reader me readers)
]

has_reader-erase_reader :
    (me : ℤ) (readers : List ℤ) → has_reader me (erase_reader me readers) ≡ false
unfolding erase_reader has_reader
has_reader-erase_reader me [] = refl
has_reader-erase_reader me (txn_id ∷ readers) = elim (Bool-cases (txn_id ==ℤ me)) [
  | inl same ↦ rw same (has_reader-erase_reader me readers)
  | inr other ↦ rw (other, has_reader, other) (has_reader-erase_reader me readers)
]

-- A read set that is left after the clean-up of a transaction is not empty, and has not the
-- transaction.
pub cleanup_read_sets_lem :
    {K : Type 0} (sets : ReadSets K) (me : ℤ) (key : K) (left : List ℤ)
    → cleanup_read_sets sets me key ≡ some left
    → (has_none left ≡ false) × (has_reader me left ≡ false)
unfolding cleanup_read_sets
cleanup_read_sets_lem sets me key left h = elim (Option-cases (sets key)) [
  | inl absent ↦ cc (rw (absent, cleanup_read_sets) at h)
  | inr (readers, held) ↦ elim (Bool-cases (has_none (erase_reader me readers))) [
    | inl gone ↦ cc (rw (held, cleanup_read_sets, gone) at h)
    | inr kept ↦
        let same : erase_reader me readers ≡ left =
          some-injective _ _ (rw (held, cleanup_read_sets, kept) at h) in
        (rw (← same) kept, rw (← same) (has_reader-erase_reader me readers))
  ]
]
