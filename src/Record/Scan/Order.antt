-- ===== src/Record/Scan/Order.antt =====
-- The scan steps from one record to the next in the order of pages and slots, and misses none.
use rmdb.Prelude.{
  ℕ, zero, suc, ◌+◌, ◌-◌, ◌<◌, ◌≤◌, ◌≡◌, ◌⊎◌, inl, inr, refl, subst, ◌∙◌, Bool, true, false, none,
  some, ◌==◌, ltb, arith, Bool-cases,
}
use rmdb.Prelude.Int.{ℤ, pos}
use rmdb.Transaction.Types.{Rid}
use rmdb.Record.Bitmap.{is_set, same_bit, next_bit, after}
use rmdb.Record.Bitmap.Laws.{next_bit-IsNext}
use rmdb.Record.FileHandle.{RmFileHandle, RmPage, no_page, fetch_page_handle}
use rmdb.Record.Scan.{next_from_page, next}

-- Whether a record stands at a place.
abbrev pub recorded : RmFileHandle → ℕ → ℕ → Bool
recorded h q j = elim (h.pages q) [ none ↦ false | some page ↦ is_set page.bitmap j ]

-- A place at or behind slot `from` of page p; a place before another.
abbrev pub IsBehind : (p from q j : ℕ) → Type 0
IsBehind p from q j = (p < q) ⊎ ((p ≡ q) × (from ≤ j))

abbrev pub IsBefore : (q j r k : ℕ) → Type 0
IsBefore q j r k = (q < r) ⊎ ((q ≡ r) × (j < k))

-- The answer is the first record from a place on, or the end where there is none.
pub data IsFirst (h : RmFileHandle) (p from : ℕ) : Rid → Type 0 where
  found_at :
      (r k : ℕ)
      → r < h.num_pages
      → k < h.num_records_per_page
      → IsBehind p from r k
      → recorded h r k ≡ true
      → ((q j : ℕ)
          → j < h.num_records_per_page
          → IsBehind p from q j
          → IsBefore q j r k
          → recorded h q j ≡ false)
      → IsFirst h p from (record { page_no = pos r; slot_no = pos k })
  ended :
      (slot : ℤ)
      → ((q j : ℕ)
          → q < h.num_pages
          → j < h.num_records_per_page
          → IsBehind p from q j
          → recorded h q j ≡ false)
      → IsFirst h p from (record { page_no = no_page; slot_no = slot })

IsBehind-next : (p q j : ℕ) → p < q → IsBehind (p + 1) 0 q j
IsBehind-next p q j a = elim (Bool-cases (q == p + 1)) [
  | inl e ↦ inr (ground arith, omega arith)
  | inr e ↦ inl (ground arith)
]

bit_of : (b c : Bool) → same_bit b true ≡ c → b ≡ c
bit_of true c e = e
bit_of false c e = e

recorded-here :
    (h : RmFileHandle) (p j : ℕ) (page : RmPage)
    → h.pages p ≡ some page
    → recorded h p j ≡ is_set page.bitmap j
recorded-here h p j page here = ground arith

-- A page with no record from a slot on, and then the pages after it.
IsFirst-skip :
    (h : RmFileHandle) (p from : ℕ) (rid : Rid)
    → ((j : ℕ) → from ≤ j → j < h.num_records_per_page → recorded h p j ≡ false)
    → IsFirst h (p + 1) 0 rid
    → IsFirst h p from rid
IsFirst-skip h p from rid empty (found_at r k lt kn behind on skipped) =
    found_at r k lt kn (inl (later behind)) on λ q j jn b before. elim b [
      | inl after_p ↦ skipped q j jn (IsBehind-next p q j after_p) before
      | inr (here, late) ↦ subst (λ x. recorded h x j ≡ false) here (empty j late jn)
    ]
  where
    later : IsBehind (p + 1) 0 r k → p < r
    later (inl a) = omega arith
    later (inr a) = omega (arith, a.0)
IsFirst-skip h p from rid empty (ended slot none_left) = ended slot λ q j qn jn b. elim b [
  | inl after_p ↦ none_left q j qn jn (IsBehind-next p q j after_p)
  | inr (here, late) ↦ subst (λ x. recorded h x j ≡ false) here (empty j late jn)
]

-- The places between two slots of one page.
same_page :
    (h : RmFileHandle) (p from k q j : ℕ) (page : RmPage)
    → h.pages p ≡ some page
    → IsBehind p from q j
    → IsBefore q j p k
    → ((i : ℕ) → from ≤ i → i < k → is_set page.bitmap i ≡ false)
    → recorded h q j ≡ false
same_page h p from k q j page here (inl a) (inl b) clear = absurd (omega arith)
same_page h p from k q j page here (inl a) (inr b) clear = absurd (omega (arith, b.0))
same_page h p from k q j page here (inr a) (inl b) clear = absurd (omega (arith, a.0))
same_page h p from k q j page here (inr a) (inr b) clear =
    subst (λ x. recorded h x j ≡ false) a.0 (recorded-here h p j page here ∙ clear j a.1 b.1)

abbrev HasPages : RmFileHandle → ℕ → Type 0
HasPages h p = (q : ℕ) → p ≤ q → q < h.num_pages → (page : RmPage) × (h.pages q ≡ some page)

next_from_page-IsFirst :
    (rounds : ℕ) (h : RmFileHandle) (p : ℕ) (slot : ℤ)
    → p + rounds ≡ h.num_pages
    → after slot ≤ h.num_records_per_page
    → HasPages h p
    → (rid : Rid) × (next_from_page rounds h p slot ≡ some rid) × IsFirst h p (after slot) rid
unfolding next_from_page fetch_page_handle
next_from_page-IsFirst zero h p slot len le pages =
    (_, refl, ended slot λ q j qn jn b. absurd (ground (arith, b)))
next_from_page-IsFirst (suc rounds) h p slot len le pages =
    let n = h.num_records_per_page in
    let (page, here) = pages p (omega arith) (omega arith) in
    let found = next_bit true page.bitmap n slot in
    let s = next_bit-IsNext true page.bitmap n slot le in
    let known : ltb p h.num_pages ≡ true = ground arith in
    elim (Bool-cases (ltb found n)) [
      | inl hit ↦ (
        _,
        rw (known, here, hit) refl,
        found_at p found (omega arith) (ground arith) (inr (refl, s.from))
            (recorded-here h p found page here ∙ bit_of _ true (s.found (ground arith)))
            (λ q j jn b before.
              same_page h p (after slot) found q j page here b before
                (λ i a c. bit_of _ false (s.skipped i a c))),
      )
      | inr miss ↦
          let (rid, done, first) =
            next_from_page-IsFirst rounds h (p + 1) no_page (omega arith) (omega arith)
              (λ q a b. pages q (omega arith) b) in
          (
            rid,
            rw (known, here, miss) done,
            IsFirst-skip h p (after slot) rid
                (λ j a b.
                  recorded-here h p j page here
                  ∙ bit_of _ false (s.skipped j a (ground (arith, s.to))))
                first,
          )
    ]

-- From a place of a file whose pages are all there, `next` goes to the first record behind that place, in the
-- order of pages and slots, and to the end exactly where there is none.
pub next-IsFirst :
    (h : RmFileHandle) (p : ℕ) (slot : ℤ)
    → p ≤ h.num_pages
    → after slot ≤ h.num_records_per_page
    → HasPages h p
    → (rid : Rid) × (next h (record { page_no = pos p; slot_no = slot }) ≡ some rid)
      × IsFirst h p (after slot) rid
unfolding next
next-IsFirst h p slot le inside pages =
    next_from_page-IsFirst (h.num_pages - p) h p slot (omega arith) inside pages
