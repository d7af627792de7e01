-- ===== src/Record/FileHandle/Visibility.antt =====
-- Who may see a record that was inserted, until its transaction ends.
use rmdb.Prelude.{
  ℕ, zero, suc, ◌+◌, ◌*◌, ◌/◌, ◌<◌, ◌≡◌, inl, inr, refl, sym, ap, ap₂, ◌∙◌, Bool, true, false, ◌&&◌,
  ◌||◌, Option, some, List, if◌then◌else◌, ◌==◌, arith, ==_iff, Bool-cases, Option-cases, nat_eq,
}
use native.Mathlib.Nat.{mul-add-div_right, div-eq_of_lt}
use rmdb.Prelude.Int.{ℤ, pos, ◌==ℤ◌}
use rmdb.Record.FileHandle.{
  RmPage, insert_log, Context, RmFileHandle, slot_number, txn_id, log, place_record, free_slot,
  insert_record, write_page,
}
use rmdb.Record.FileHandle.Changes.{visit, commit_mvcc}
use rmdb.Record.FileHandle.Laws.{at}
use rmdb.Record.FileHandle.Insertion.{HasRoom, free_slot-IsFreeSlot}
use rmdb.Record.MvccMap.{
  MvccMap, HeapTupleFields, neg, max_txn, RcInfo, visit_record, commit_insert, commit_delete,
}
use rmdb.Record.MvccMap.{insert_record as track_insert}

abbrev admits : RcInfo → Bool
admits RcInfo.success = true
admits _ = false

-- The answer depends on the entry of the place alone.
visit_record-entry :
    (m k : MvccMap) (place : ℕ) (id : ℤ) (reads : Bool)
    → m place ≡ k place
    → visit_record m place id reads ≡ visit_record k place id reads
unfolding visit_record
visit_record-entry m k place id reads e =
    ap (λ (x : Option HeapTupleFields). visit_record (λ _. x) place id reads) e

inserted_entry :
    (t place : ℕ) (id : ℤ) (reads : Bool)
    → admits (
        visit_record (λ _. some (record { t_xmin = neg (pos t); t_xmax = max_txn })) place id reads)
      ≡ ((t == 0) || (pos t ==ℤ id))
unfolding visit_record
inserted_entry zero place id reads = refl
inserted_entry (suc t) place id reads = ground arith

-- A record that a transaction inserted is seen by it alone, but that of transaction 0 by all.
visit_record-insert :
    (m : MvccMap) (place other : ℕ) (t : ℕ) (id : ℤ) (reads : Bool)
    → admits (visit_record (track_insert m place (pos t)) other id reads) ≡ (
        if place == other
        then (t == 0) || (pos t ==ℤ id)
        else admits (visit_record m other id reads))
unfolding track_insert
visit_record-insert m place other t id reads = elim (Bool-cases (place == other)) [
  | inl here ↦ rw here (
      ap admits (
        visit_record-entry (track_insert m place (pos t))
          (λ _. some (record { t_xmin = neg (pos t); t_xmax = max_txn })) other id reads
          (rw here refl))
      ∙ inserted_entry t other id reads)
  | inr elsewhere ↦ rw elsewhere (
      ap admits
        (visit_record-entry (track_insert m place (pos t)) m other id reads (rw elsewhere refl)))
]

-- After a commit all may see the record at its place.
commit-clear :
    (m : MvccMap) (place : ℕ) (by id : ℤ) (reads : Bool)
    → (admits (visit_record (commit_insert m place by).0 place id reads) ≡ true)
      × (admits (visit_record (commit_delete m place by).0 place id reads) ≡ true)
unfolding visit_record commit_insert commit_delete
commit-clear m place by id reads = elim (Option-cases (m place)) [
  | inl e ↦ (ground arith, ground arith)
  | inr (entry, e) ↦ (ground arith, ground arith)
]

visit-admits :
    (h : RmFileHandle) (p slot : ℕ) (id : ℤ)
    → visit h p slot id ≡ admits (visit_record h.mvcc_map (slot_number h p slot) id false)
unfolding visit
visit-admits h p slot id = ground arith

-- What `insert_record` does to the map.
insert_record-map :
    (h f : RmFileHandle) (p slot : ℕ) (page : RmPage) (buf : List ℕ) (c : Context) (t : ℤ)
    → free_slot h ≡ some (f, p, page, slot)
    → c.txn ≡ some t
    → f.num_records_per_page ≡ h.num_records_per_page
    → f.mvcc_map ≡ h.mvcc_map
    → (g : RmFileHandle) × (insert_record h buf c ≡ some (g, at p slot))
      × (g.mvcc_map ≡ track_insert h.mvcc_map (slot_number h p slot) t)
      × (g.num_records_per_page ≡ h.num_records_per_page)
unfolding insert_record place_record write_page
insert_record-map h f p slot page buf c t found by n m =
    let logged = log c (insert_log (txn_id c) (at p slot) buf) (place_record f p page slot buf) in
    let kept : logged.mvcc_map ≡ h.mvcc_map = ground arith in
    let order : logged.num_records_per_page ≡ h.num_records_per_page = ground arith in
    (
      record logged { mvcc_map = track_insert logged.mvcc_map (slot_number h p slot) t },
      ground arith,
      ap (λ x. track_insert x (slot_number h p slot) t) kept,
      order,
    )

-- Slots of a file have different numbers.
pub slot_number-injective :
    (h : RmFileHandle) (p j q k : ℕ)
    → j < h.num_records_per_page
    → k < h.num_records_per_page
    → slot_number h p j ≡ slot_number h q k
    → (p ≡ q) × (j ≡ k)
slot_number-injective h p j q k jn kn e =
    let n = h.num_records_per_page in
    let some_room : 0 < n = omega arith in
    let pq : p ≡ q = omega (
      arith,
      ap (λ x. x / n) e,
      mul-add-div_right some_room p j,
      mul-add-div_right some_room q k,
      div-eq_of_lt jn,
      div-eq_of_lt kn,
    ) in
    (pq, omega (arith, e, ap (λ x. x * n) pq))

-- Let a transaction whose number is not negative insert a record into a file with room. Until it commits,
-- as an insertion, a deletion or an update, it alone sees the record if its number is not 0, and every
-- transaction sees the record if its number is 0; after the commit all see it. Which transactions see the
-- records at other places does not change.
pub insert_record-visit :
    (h : RmFileHandle) (buf : List ℕ) (c : Context) (t : ℕ)
    → HasRoom h
    → c.txn ≡ some (pos t)
    → (g : RmFileHandle) × (p : ℕ) × (slot : ℕ) × (insert_record h buf c ≡ some (g, at p slot))
      × ((id : ℤ) → visit g p slot id ≡ ((t == 0) || (pos t ==ℤ id)))
      × ((type : ℕ) (id : ℤ) → visit (commit_mvcc g type p slot (pos t)) p slot id ≡ true)
      × ((q j : ℕ) (id : ℤ)
          → j < h.num_records_per_page
          → (p == q) && (slot == j) ≡ false
          → visit g q j id ≡ visit h q j id)
unfolding commit_mvcc
insert_record-visit h buf c t room by =
    let (f, p, page, slot, found, s, n, m) = free_slot-IsFreeSlot h room in
    let (g, done, tracked, order) = insert_record-map h f p slot page buf c (pos t) found by n m in
    let place = λ (q j : ℕ). ap (λ x. q * x + j) order in
    let seen = λ (q j : ℕ) (id : ℤ).
      visit-admits g q j id
      ∙ (ap₂ (λ (k : MvccMap) (x : ℕ). admits (visit_record k x id false)) tracked (place q j)
          ∙ visit_record-insert h.mvcc_map (slot_number h p slot) (slot_number h q j) t id false) in
    (
      g,
      p,
      slot,
      done,
      λ id. seen p slot id ∙ ground arith,
      λ type id.
          let cleared = commit-clear g.mvcc_map (slot_number g p slot) (pos t) id false in
          visit-admits (commit_mvcc g type p slot (pos t)) p slot id ∙ ground (arith, cleared),
      λ q j id jn other.
          let apart = slot_number-injective h p slot q j s.inside jn in
          seen q j id
          ∙ (ground (arith, apart, ==_iff p q, ==_iff slot j) ∙ sym (visit-admits h q j id)),
    )
