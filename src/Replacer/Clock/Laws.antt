-- ===== src/Replacer/Clock/Laws.antt =====
-- The CLOCK replacer keeps its invariant, always finds a victim where there is one, and fills the
-- interface of a replacer.
use rmdb.Prelude.{
  replicate, ℕ, zero, suc, ◌+◌, ◌*◌, ◌<◌, ◌≤◌, ◌≡◌, refl, sym, ap, ◌∙◌, ==_iff, true, false, not,
  ◌&&◌, Option, none, some, ◌==◌, leb, set, get_or-set, length-set, arith, Bool-cases, inl, inr,
  if◌then◌else◌, replicate, length-replicate,
}
use rmdb.Replacer.{Replacer, Evicts}
use rmdb.Replacer.Clock.{
  take_frame, pass_frame, Frame, off, in_at, ref_at, count_in, Clock, init, sweep, victim, pin,
  unpin, size,
}
use rmdb.Replacer.Clock.Frames.{
  as_number, count_in-set, count_in-replicate, in_at-count_in, in_at-lt, some_in,
}
use rmdb.Replacer.Clock.Sweep.{
  IsValid, Leaves, distance, distance-lt, sweep_effect, sweep_clear, sweep_total,
}

Leaves-Evicts :
    (c : Clock) (r : Clock × Option ℕ) (f : ℕ)
    → r.1 ≡ some f
    → Leaves c r
    → Evicts (in_at c.frames) (in_at r.0.frames) r.1
Leaves-Evicts c (d, none) f e l = cc
Leaves-Evicts c (d, some g) f e l = l

module _ (c : Clock) (v : IsValid c) where
  victim_busy : 0 < c.count → victim c ≡ sweep (c.capacity * 2) c
  unfolding victim
  victim_busy h = elim (Bool-cases (c.count == 0)) [ inl e ↦ absurd (ground arith) | inr e ↦ rw e ]

  busy_frame : 0 < c.count → (f : ℕ) × (f < c.capacity) × (in_at c.frames f ≡ true)
  busy_frame h =
      let (f, held) = some_in c.frames (omega (arith, v.counted)) in
      (f, omega (arith, v.sized, in_at-lt c.frames f held), held)

  -- From a state with the invariant, `victim` finds a frame whenever the replacer is not empty:
  -- the sweep's bound of twice the number of frames is enough.
  victim_total : 0 < c.count → (f : ℕ) × ((victim c).1 ≡ some f)
  victim_total h =
      let (i, lt, held) = busy_frame h in
      let (f, found) =
        sweep_total (c.capacity * 2) c i v lt held
          (omega (arith, distance-lt c i lt (v.on_frame (omega arith)))) in
      (f, ap (λ (r : Clock × Option ℕ). r.1) (victim_busy h) ∙ found)

  -- From a state with the invariant, and for any frame of the replacer with a clear reference bit,
  -- the victim is a frame of the replacer with a clear reference bit that the hand meets no later:
  -- a frame that was unpinned since the hand last passed it is spared.
  pub victim_second_chance :
      (f : ℕ)
      → in_at c.frames f ≡ true
      → ref_at c.frames f ≡ false
      → (g : ℕ) × ((victim c).1 ≡ some g)
        × (in_at c.frames g ≡ true)
        × (ref_at c.frames g ≡ false)
        × (distance c g ≤ distance c f)
  victim_second_chance f held clear =
      let lt : f < c.capacity = omega (arith, v.sized, in_at-lt c.frames f held) in
      let h : 0 < c.count = omega (arith, v.counted, in_at-count_in c.frames f held) in
      let (g, found, first, _, near) =
        sweep_clear (c.capacity * 2) c f v lt (held, clear)
          (omega (arith, distance-lt c f lt (v.on_frame (omega arith)))) in
      (g, ap (λ (r : Clock × Option ℕ). r.1) (victim_busy h) ∙ found, first.0, first.1, near)

  busy_effect :
      0 < c.count
      → IsValid (victim c).0 × Evicts (in_at c.frames) (in_at (victim c).0.frames) (victim c).1
  busy_effect h =
      let (i, lt, held) = busy_frame h in
      let (f, found) = victim_total h in
      let (w, l) = sweep_effect (c.capacity * 2) c v (omega arith) in
      rw (victim_busy h) (
        w,
        Leaves-Evicts c (sweep (c.capacity * 2) c) f
            (ap (λ (r : Clock × Option ℕ). r.1) (sym (victim_busy h)) ∙ found) l,
      )

  idle_effect :
      (c.count == 0) ≡ true
      → IsValid (victim c).0 × Evicts (in_at c.frames) (in_at (victim c).0.frames) (victim c).1
  unfolding victim
  idle_effect h = rw h (
    v,
    λ f. elim (Bool-cases (in_at c.frames f)) [
      | inl held ↦
          absurd (omega (arith, v.counted, (==_iff c.count 0).0 h, in_at-count_in c.frames f held))
      | inr free ↦ (free, free)
    ],
  )

  -- From a state with the invariant, `victim` keeps it, answers a frame of the replacer and takes
  -- out that frame only; it answers none only when no frame is in the replacer.
  pub victim_effect :
      IsValid (victim c).0 × Evicts (in_at c.frames) (in_at (victim c).0.frames) (victim c).1
  victim_effect = elim (Bool-cases (c.count == 0)) [
    | inl e ↦ idle_effect e
    | inr e ↦ busy_effect (ground arith)
  ]

  absent : (f : ℕ) → c.capacity ≤ f → in_at c.frames f ≡ false
  absent f h = elim (Bool-cases (in_at c.frames f)) [
    | inl held ↦ absurd (omega (arith, v.sized, in_at-lt c.frames f held))
    | inr free ↦ free
  ]

  in_at-set :
      (f q : ℕ) (x : Frame)
      → f < c.capacity
      → in_at (set c.frames f x) q ≡ (if f == q then x.in_replacer else in_at c.frames q)
  in_at-set f q x lt = ground (
    arith,
    ap (λ (y : Frame). y.in_replacer) (get_or-set c.frames f q x off (omega (arith, v.sized))),
  )

  count_in-set_valid :
      (f : ℕ) (x : Frame)
      → f < c.capacity
      → count_in (set c.frames f x) + as_number (in_at c.frames f)
        ≡ c.count + as_number x.in_replacer
  count_in-set_valid f x lt =
      omega (arith, v.counted, count_in-set c.frames f x (omega (arith, v.sized)))

  pub in_at-pin :
      (f q : ℕ) → in_at (pin c f).frames q ≡ (if f == q then false else in_at c.frames q)
  unfolding pin
  in_at-pin f q = elim (Bool-cases (leb c.capacity f)) [
    | inl out ↦ rw (out, pin) (ground (arith, absent f, (==_iff f q).0))
    | inr within ↦
        rw (within, pin) (ground (arith, in_at-set f q off (ground arith), (==_iff f q).0))
  ]

  pub in_at-unpin :
      (f q : ℕ)
      → f < c.capacity
      → in_at (unpin c f).frames q ≡ (if f == q then true else in_at c.frames q)
  unfolding unpin
  in_at-unpin f q lt = ground (arith, in_at-set f q (record { in_replacer = true; ref = true }) lt)

  pub pin-IsValid : (f : ℕ) → IsValid (pin c f)
  unfolding pin
  pin-IsValid f = elim (Bool-cases (leb c.capacity f)) [
    | inl out ↦ rw out v
    | inr within ↦ elim (Bool-cases (in_at c.frames f)) [
      | inl held ↦
          rw (within, held)
            (record {
              sized = length-set c.frames f off ∙ v.sized;
              on_frame = v.on_frame;
              counted = ground (arith, count_in-set_valid f off (ground arith));
            })
      | inr free ↦ rw (within, free) v
    ]
  ]

  pub unpin-IsValid : (f : ℕ) → IsValid (unpin c f)
  unfolding unpin
  unpin-IsValid f = elim (Bool-cases (leb c.capacity f)) [
    | inl out ↦ rw out v
    | inr within ↦ rw within (record {
      sized = length-set c.frames f _ ∙ v.sized;
      on_frame = v.on_frame;
      counted =
          ground (
            arith,
            count_in-set_valid f (record { in_replacer = true; ref = true }) (ground arith),
          );
    })
  ]

pub init-IsValid : (num : ℕ) → IsValid (init num)
unfolding init
init-IsValid num = record {
  sized = length-replicate num off;
  on_frame = λ h. h;
  counted = sym (count_in-replicate num);
}

capacity-sweep : (rounds : ℕ) (c : Clock) → (sweep rounds c).0.capacity ≡ c.capacity
unfolding sweep take_frame pass_frame
capacity-sweep zero c = refl
capacity-sweep (suc rounds) c =
    elim (Bool-cases (in_at c.frames c.clock_hand && not (ref_at c.frames c.clock_hand))) [
      | inl hit ↦ rw hit
      | inr miss ↦ rw miss (capacity-sweep rounds (pass_frame c))
    ]

pub capacity-victim : (c : Clock) → (victim c).0.capacity ≡ c.capacity
unfolding victim
capacity-victim c = elim (Bool-cases (c.count == 0)) [
  | inl e ↦ rw e
  | inr e ↦ rw e (capacity-sweep (c.capacity * 2) c)
]

pub capacity-pin : (c : Clock) (f : ℕ) → (pin c f).capacity ≡ c.capacity
unfolding pin
capacity-pin c f = ground arith

pub capacity-unpin : (c : Clock) (f : ℕ) → (unpin c f).capacity ≡ c.capacity
unfolding unpin
capacity-unpin c f = ground arith

pub capacity-init : (num : ℕ) → (init num).capacity ≡ num
unfolding init
capacity-init num = refl

pub in_at-init : (num f : ℕ) → in_at (init num).frames f ≡ false
unfolding init
in_at-init num f = elim (Bool-cases (in_at (replicate num off) f)) [
  | inl held ↦
      absurd (omega (arith, in_at-count_in (replicate num off) f held, count_in-replicate num))
  | inr free ↦ free
]

-- The CLOCK replacer over `num` frames.
abbrev pub clock_replacer : ℕ → Replacer
clock_replacer num = record {
  State = Clock;
  IsValid = λ c. IsValid c × (c.capacity ≡ num);
  members = λ c. in_at c.frames;
  capacity = num;
  initial = init num;
  initial-IsValid = (init-IsValid num, capacity-init num);
  members-initial = in_at-init num;
  victim = victim;
  pin = pin;
  unpin = unpin;
  size = size;
  victim-IsValid = λ c v. ((victim_effect c v.0).0, capacity-victim c ∙ v.1);
  pin-IsValid = λ c f v. (pin-IsValid c v.0 f, capacity-pin c f ∙ v.1);
  unpin-IsValid = λ c f v. (unpin-IsValid c v.0 f, capacity-unpin c f ∙ v.1);
  victim-Evicts = λ c v. (victim_effect c v.0).1;
  members-pin = λ c f q v. in_at-pin c v.0 f q;
  members-unpin = λ c f q v lt. in_at-unpin c v.0 f q (omega (arith, v.1));
}
