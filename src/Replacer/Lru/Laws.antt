-- ===== src/Replacer/Lru/Laws.antt =====
-- The LRU replacer keeps its list and its hash in step, and behaves as a list of frames without
-- repetition in the order of their last `unpin`.
use rmdb.Prelude.{
  contains, ℕ, ◌≡◌, refl, sym, ap, ap₂, ◌∙◌, Bool, true, false, Option, none, some, List, [], ◌∷◌,
  ◌++◌, ◌==◌, if◌then◌else◌, arith, inl, inr, Option-cases, nat_eq,
}
use rmdb.Replacer.{Replacer, Evicts}
use rmdb.Replacer.Lru.{Lru, Node, pop_back, init, victim, pin, unpin, size}
use rmdb.Replacer.Lru.Nodes.{
  node_of, frames, IsOrdered, erase, frames-erase_node, node_of-erase_node, erase_node-IsOrdered,
  PopsBack, pop_back-PopsBack,
}

pub record IsValid (s : Lru) : Type 0 where
  pub ordered : IsOrdered s.next_node s.lru_list
  pub linked : (f : ℕ) → s.lru_hash f ≡ node_of f s.lru_list

-- The frames that can be evicted, most recently unpinned first.
abbrev pub view : Lru → List ℕ
view s = frames s.lru_list

-- The replacer's contract over such a list.
pub data Call : Type 0 where
  victims : Call
  pins unpins : ℕ → Call

abbrev pub last_off : List ℕ → List ℕ × Option ℕ
last_off [] = ([], none)
last_off (g ∷ []) = ([], some g)
last_off (g ∷ h ∷ gs) = let (rest, f) = last_off (h ∷ gs) in (g ∷ rest, f)

pub spec : Call → List ℕ → List ℕ × Option ℕ
unfolding erase
spec victims l = last_off l
spec (pins f) l = (erase f l, none)
spec (unpins f) l = (if contains l f then l else f ∷ l, none)

pub step : Call → Lru → Lru × Option ℕ
step victims s = victim s
step (pins f) s = (pin s f, none)
step (unpins f) s = (unpin s f, none)

contains-node_of :
    (f : ℕ) (xs : List Node)
    → contains (frames xs) f ≡ elim (node_of f xs) [ none ↦ false | some _ ↦ true ]
unfolding node_of
contains-node_of f [] = refl
contains-node_of f (x ∷ xs) = ground (arith, contains-node_of f xs)

last_off-append : (l : List ℕ) (f : ℕ) → last_off (l ++ f ∷ []) ≡ (l, some f)
last_off-append [] f = refl
last_off-append (g ∷ []) f = refl
last_off-append (g ∷ h ∷ l) f =
    ap (λ (r : List ℕ × Option ℕ). (g ∷ r.0, r.1)) (last_off-append (h ∷ l) f)

erase_absent : (f : ℕ) (l : List ℕ) → contains l f ≡ false → erase f l ≡ l
unfolding erase
erase_absent f [] h = refl
erase_absent f (g ∷ l) h = ground (arith, erase_absent f l)

module _ (s : Lru) (v : IsValid s) where
  pub victim-refines :
      IsValid (victim s).0 × ((view (victim s).0, (victim s).1) ≡ last_off (view s))
  unfolding victim
  victim-refines = elim (Option-cases (pop_back s.lru_list)) [
    | inl e ↦
        let p : s.lru_list ≡ [] = rw e at (pop_back-PopsBack s.next_node s.lru_list v.ordered) in
        rw (e, victim) (v, ap (λ l. (frames l, none)) p ∙ sym (ap (λ l. last_off (frames l)) p))
    | inr (r, e) ↦
        let p : PopsBack s.next_node s.lru_list (some r) =
          rw e at (pop_back-PopsBack s.next_node s.lru_list v.ordered) in
        rw (e, victim)
          (
            record { ordered = p.1; linked = λ f. ground (arith, v.linked f, p.3 f) },
            sym (last_off-append (frames r.0) r.1.frame) ∙ ap last_off (sym p.0),
          )
  ]

  pub pin-refines : (f : ℕ) → IsValid (pin s f) × (view (pin s f) ≡ erase f (view s))
  unfolding pin
  pin-refines f = elim (Option-cases (s.lru_hash f)) [
    | inl e ↦
        rw (e, pin)
          (
            v,
            sym (
                erase_absent f (view s)
                  (contains-node_of f s.lru_list ∙ ground (arith, v.linked f))),
          )
    | inr (i, e) ↦
        let held : node_of f s.lru_list ≡ some i = sym (v.linked f) ∙ e in
        rw (e, pin)
          (
            record {
              ordered = erase_node-IsOrdered f s.next_node i s.lru_list v.ordered held;
              linked = λ q. ground (
                arith,
                v.linked q,
                node_of-erase_node f s.next_node i s.lru_list q v.ordered held,
              );
            },
            frames-erase_node f s.next_node i s.lru_list v.ordered held,
          )
  ]

  pub unpin-refines :
      (f : ℕ)
      → IsValid (unpin s f)
        × (view (unpin s f) ≡ (if contains (view s) f then view s else f ∷ view s))
  unfolding unpin node_of
  unpin-refines f = elim (Option-cases (s.lru_hash f)) [
    | inl e ↦
        rw (e, unpin)
          (
            record {
              ordered = (omega arith, sym (v.linked f) ∙ e, v.ordered);
              linked = λ q. ground (arith, v.linked q);
            },
            ground (arith, contains-node_of f s.lru_list, v.linked f),
          )
    | inr (i, e) ↦ rw (e, unpin) (v, ground (arith, contains-node_of f s.lru_list, v.linked f))
  ]

-- From a state with the invariant, every call keeps it, and does to the list of frames what the
-- contract says: the answer is the frame that was unpinned longest ago.
pub step-refines :
    (c : Call) (s : Lru)
    → IsValid s
    → IsValid (step c s).0 × ((view (step c s).0, (step c s).1) ≡ spec c (view s))
unfolding step spec
step-refines victims s v = victim-refines s v
step-refines (pins f) s v = ((pin-refines s v f).0, ap (λ l. (l, none)) (pin-refines s v f).1)
step-refines (unpins f) s v = ((unpin-refines s v f).0, ap (λ l. (l, none)) (unpin-refines s v f).1)

pub init-IsValid : (n : ℕ) → IsValid (init n)
unfolding init node_of
init-IsValid n = record { ordered = tt; linked = λ f. refl }

-- A history of calls from the empty replacer, with the answers.
pub run : List Call → Lru → Lru × List (Option ℕ)
run [] s = (s, [])
run (c ∷ cs) s = let r = step c s in let rest = run cs r.0 in (rest.0, r.1 ∷ rest.1)

pub run_spec : List Call → List ℕ → List ℕ × List (Option ℕ)
run_spec [] l = (l, [])
run_spec (c ∷ cs) l = let r = spec c l in let rest = run_spec cs r.0 in (rest.0, r.1 ∷ rest.1)

run-refines :
    (cs : List Call) (s : Lru) (l : List ℕ)
    → IsValid s
    → view s ≡ l
    → (view (run cs s).0, (run cs s).1) ≡ run_spec cs l
unfolding run run_spec
run-refines [] s l v e = ap (λ k. (k, [])) e
run-refines (c ∷ cs) s l v e =
    let (w, p) = step-refines c s v in
    let q : (view (step c s).0, (step c s).1) ≡ spec c l = p ∙ ap (spec c) e in
    ap₂ (λ (r : List ℕ × List (Option ℕ)) (a : Option ℕ). (r.0, a ∷ r.1))
      (run-refines cs (step c s).0 (spec c l).0 w (ap (λ (r : List ℕ × Option ℕ). r.0) q))
      (ap (λ (r : List ℕ × Option ℕ). r.1) q)

-- Any history of calls on a new replacer gives the answers of the contract.
pub run-init-refines :
    (n : ℕ) (cs : List Call) → (view (run cs (init n)).0, (run cs (init n)).1) ≡ run_spec cs []
unfolding init
run-init-refines n cs = run-refines cs (init n) [] (init-IsValid n) refl

abbrev pub listed : Lru → ℕ → Bool
listed s f = elim (s.lru_hash f) [ none ↦ false | some _ ↦ true ]

pub victim-Evicts : (s : Lru) → IsValid s → Evicts (listed s) (listed (victim s).0) (victim s).1
unfolding victim node_of
victim-Evicts s v = elim (Option-cases (pop_back s.lru_list)) [
  | inl e ↦
      let p : s.lru_list ≡ [] = rw e at (pop_back-PopsBack s.next_node s.lru_list v.ordered) in
      rw (e, victim)
        (λ f.
          let free : listed s f ≡ false = ground (arith, v.linked f, ap (node_of f) p) in
          (free, free))
  | inr (r, e) ↦
      let p : PopsBack s.next_node s.lru_list (some r) =
        rw e at (pop_back-PopsBack s.next_node s.lru_list v.ordered) in
      rw (e, victim) (ground (arith, v.linked r.1.frame, p.2), λ q. ground arith)
]

pub listed-pin :
    (s : Lru) (f q : ℕ) → IsValid s → listed (pin s f) q ≡ (if f == q then false else listed s q)
unfolding pin
listed-pin s f q v = ground arith

pub listed-unpin :
    (s : Lru) (f q : ℕ) → IsValid s → listed (unpin s f) q ≡ (if f == q then true else listed s q)
unfolding unpin
listed-unpin s f q v = ground arith

pub listed-init : (n f : ℕ) → listed (init n) f ≡ false
unfolding init
listed-init n f = refl

-- The LRU replacer over `num` frames.
abbrev pub lru_replacer : ℕ → Replacer
lru_replacer num = record {
  State = Lru;
  IsValid = IsValid;
  members = listed;
  capacity = num;
  initial = init num;
  initial-IsValid = init-IsValid num;
  members-initial = listed-init num;
  victim = victim;
  pin = pin;
  unpin = unpin;
  size = size;
  victim-IsValid = λ s v. (victim-refines s v).0;
  pin-IsValid = λ s f v. (pin-refines s v f).0;
  unpin-IsValid = λ s f v. (unpin-refines s v f).0;
  victim-Evicts = victim-Evicts;
  members-pin = listed-pin;
  members-unpin = λ s f q v lt. listed-unpin s f q v;
}
