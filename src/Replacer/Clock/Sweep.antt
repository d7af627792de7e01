-- ===== src/Replacer/Clock/Sweep.antt =====
-- How far the clock hand has to go, and what it meets on its way.
use native.Mathlib.Nat.{mod_self, mod-eq_of_lt}
use rmdb.Prelude.{
  ℕ, zero, suc, ◌+◌, ◌-◌, ◌%◌, ◌<◌, ◌≤◌, ◌≡◌, ◌≢◌, ◌⊎◌, ◌↔◌, refl, sym, ap, ap₂, ◌∙◌, ==_iff, true,
  false, not, ◌&&◌, Option, none, some, ◌==◌, leb, length, get_or-set, length-set, arith,
  Bool-cases, inl, inr, if◌then◌else◌,
}
use rmdb.Replacer.Clock.{Frame, off, in_at, ref_at, count_in, Clock, take_frame, pass_frame, sweep}
use rmdb.Replacer.Clock.Frames.{as_number, count_in-set, in_at-count_in}

-- What every call keeps: one frame for each index, the hand on a frame, and the count.
pub record IsValid (c : Clock) : Type 0 where
  pub sized : length c.frames ≡ c.capacity
  pub on_frame : 0 < c.capacity → c.clock_hand < c.capacity
  pub counted : c.count ≡ count_in c.frames

-- The steps of the hand to a frame.
pub distance : Clock → ℕ → ℕ
distance c f = if leb c.clock_hand f then f - c.clock_hand else f + c.capacity - c.clock_hand

pub distance-lt :
    (c : Clock) (f : ℕ) → f < c.capacity → c.clock_hand < c.capacity → distance c f < c.capacity
unfolding distance
distance-lt c f lt on = ground arith

distance_self : (c : Clock) → distance c c.clock_hand ≡ 0
unfolding distance
distance_self c = ground arith

-- In the replacer, with the reference bit clear or set.
abbrev pub IsClear : Clock → ℕ → Type 0
IsClear c f = (in_at c.frames f ≡ true) × (ref_at c.frames f ≡ false)

next_mod :
    (h n : ℕ) → h < n → ((h + 1 < n) × ((h + 1) % n ≡ h + 1)) ⊎ ((h + 1 ≡ n) × ((h + 1) % n ≡ 0))
next_mod h n lt = elim (Bool-cases (h + 1 == n)) [
  | inl last ↦ let e : h + 1 ≡ n = (==_iff _ _).0 last in inr (e, rw e (mod_self n))
  | inr more ↦ let below : h + 1 < n = ground arith in inl (below, mod-eq_of_lt below)
]

module _ (c : Clock) (v : IsValid c) (room : 0 < c.capacity) where
  next_hand :
      ((c.clock_hand + 1 < c.capacity) × ((c.clock_hand + 1) % c.capacity ≡ c.clock_hand + 1))
      ⊎ ((c.clock_hand + 1 ≡ c.capacity) × ((c.clock_hand + 1) % c.capacity ≡ 0))
  next_hand = next_mod c.clock_hand c.capacity (v.on_frame room)

  pass_frame-counted : count_in (pass_frame c).frames ≡ count_in c.frames
  unfolding pass_frame
  pass_frame-counted = ground (
    arith,
    count_in-set c.frames c.clock_hand (record { in_replacer = true; ref = false })
        (omega (arith, v.on_frame room, v.sized)),
  )

  pub pass_frame-IsValid : IsValid (pass_frame c)
  unfolding pass_frame
  pass_frame-IsValid = record {
    sized = ground (
      arith,
      v.sized,
      length-set c.frames c.clock_hand (record { in_replacer = true; ref = false }),
    );
    on_frame = λ h. omega arith;
    counted = v.counted ∙ sym pass_frame-counted;
  }

  pub take_frame-IsValid : in_at c.frames c.clock_hand ≡ true → IsValid (take_frame c)
  unfolding take_frame
  take_frame-IsValid held = record {
    sized = length-set c.frames c.clock_hand _ ∙ v.sized;
    on_frame = λ h. omega arith;
    counted = omega (
      arith,
      v.counted,
      in_at-count_in c.frames c.clock_hand held,
      ap as_number held,
      count_in-set c.frames c.clock_hand
          (record { in_replacer = false; ref = ref_at c.frames c.clock_hand })
          (omega (arith, v.on_frame room, v.sized)),
    );
  }

  in_at-pass_frame : (f : ℕ) → in_at (pass_frame c).frames f ≡ in_at c.frames f
  unfolding pass_frame
  in_at-pass_frame f =
      (ground (
        arith,
        ap (λ (x : Frame). x.in_replacer)
            (get_or-set c.frames c.clock_hand f (record { in_replacer = true; ref = false }) off
              (omega (arith, v.on_frame room, v.sized))),
        (==_iff c.clock_hand f).0,
      ))

  ref_at-pass_frame :
      (f : ℕ)
      → ref_at (pass_frame c).frames f
        ≡ (if c.clock_hand == f && in_at c.frames f then false else ref_at c.frames f)
  unfolding pass_frame
  ref_at-pass_frame f =
      (ground (
        arith,
        ap (λ (x : Frame). x.ref)
            (get_or-set c.frames c.clock_hand f (record { in_replacer = true; ref = false }) off
              (omega (arith, v.on_frame room, v.sized))),
        (==_iff c.clock_hand f).0,
      ))

  -- Each step brings the hand nearer to every frame but the one that it stands on.
  distance-pass_frame :
      (f : ℕ) → f < c.capacity → c.clock_hand ≢ f → distance (pass_frame c) f + 1 ≡ distance c f
  unfolding pass_frame distance
  distance-pass_frame f h other = ground (arith, next_hand)

  distance-pass_frame_self : distance (pass_frame c) c.clock_hand + 1 ≡ c.capacity
  unfolding pass_frame distance
  distance-pass_frame_self = ground (arith, next_hand)

  in_at-take_frame :
      (q : ℕ)
      → in_at (take_frame c).frames q ≡ (if c.clock_hand == q then false else in_at c.frames q)
  unfolding take_frame
  in_at-take_frame q = ground (
    arith,
    ap (λ (x : Frame). x.in_replacer)
        (get_or-set c.frames c.clock_hand q
          (record { in_replacer = false; ref = ref_at c.frames c.clock_hand }) off
          (omega (arith, v.on_frame room, v.sized))),
  )

  IsClear-pass_frame : (f : ℕ) → c.clock_hand ≢ f → IsClear c f ↔ IsClear (pass_frame c) f
  IsClear-pass_frame f other = (
    λ h. (in_at-pass_frame f ∙ h.0, ground (arith, ref_at-pass_frame f, h.1)),
    λ h. (sym (in_at-pass_frame f) ∙ h.0, ground (arith, ref_at-pass_frame f, h.1)),
  )

  pass_frame-room : 0 < (pass_frame c).capacity
  unfolding pass_frame
  pass_frame-room = room

  pass_frame-capacity : (pass_frame c).capacity ≡ c.capacity
  unfolding pass_frame
  pass_frame-capacity = refl

  -- A miss at the hand: no clear frame stands there.
  hand-ne_of_miss :
      (f : ℕ)
      → IsClear c f
      → (in_at c.frames c.clock_hand && not (ref_at c.frames c.clock_hand)) ≡ false
      → c.clock_hand ≢ f
  hand-ne_of_miss f clear miss e = cc (
      sym miss
      ∙ ap₂ (λ a b. a && not b) (ap (in_at c.frames) e ∙ clear.0)
          (ap (ref_at c.frames) e ∙ clear.1))

-- The frames that a sweep leaves in the replacer, by its answer.
abbrev pub Leaves : Clock → Clock × Option ℕ → Type 0
Leaves c (d, none) = (q : ℕ) → in_at d.frames q ≡ in_at c.frames q
Leaves c (d, some f) =
    (in_at c.frames f ≡ true)
    × ((q : ℕ) → in_at d.frames q ≡ (if f == q then false else in_at c.frames q))

Leaves-pass_frame :
    (c : Clock) (v : IsValid c) (room : 0 < c.capacity) (r : Clock × Option ℕ)
    → Leaves (pass_frame c) r
    → Leaves c r
Leaves-pass_frame c v room (d, none) l = λ q. l q ∙ in_at-pass_frame c v room q
Leaves-pass_frame c v room (d, some f) l =
    (sym (in_at-pass_frame c v room f) ∙ l.0, λ q. rw (← in_at-pass_frame c v room q) (l.1 q))

-- A sweep keeps the replacer valid, and takes out no frame but the one that it answers.
pub sweep_effect :
    (rounds : ℕ) (c : Clock)
    → IsValid c
    → 0 < c.capacity
    → IsValid (sweep rounds c).0 × Leaves c (sweep rounds c)
unfolding sweep
sweep_effect zero c v room = (v, λ q. refl)
sweep_effect (suc rounds) c v room =
    elim (Bool-cases (in_at c.frames c.clock_hand && not (ref_at c.frames c.clock_hand))) [
      | inl hit ↦
          rw hit
            (take_frame-IsValid c v room (ground arith), (ground arith, in_at-take_frame c v room))
      | inr miss ↦ rw miss (
          let (w, l) =
            sweep_effect rounds (pass_frame c) (pass_frame-IsValid c v room)
              (pass_frame-room c v room) in
          (w, Leaves-pass_frame c v room (sweep rounds (pass_frame c)) l))
    ]

-- The answer of a sweep that has a clear frame `f` within reach: the first clear frame on the way.
abbrev pub FindsFirst : Clock → ℕ → Option ℕ → Type 0
FindsFirst c f r =
    (g : ℕ) × (r ≡ some g) × IsClear c g × (g < c.capacity) × (distance c g ≤ distance c f)

FindsFirst-pass_frame :
    (c : Clock) (v : IsValid c) (room : 0 < c.capacity) (f : ℕ) (r : Option ℕ)
    → f < c.capacity
    → c.clock_hand ≢ f
    → FindsFirst (pass_frame c) f r
    → FindsFirst c f r
FindsFirst-pass_frame c v room f r lt other (g, e, clear, below, near) = (
  g,
  e,
  (IsClear-pass_frame c v room g ahead).1 clear,
  omega (arith, pass_frame-capacity c v room),
  omega (
    arith,
    distance-pass_frame c v room f lt other,
    distance-pass_frame c v room g (omega (arith, pass_frame-capacity c v room)) ahead,
  ),
)
  where
    ahead : c.clock_hand ≢ g
    ahead same = omega (
      arith,
      distance-pass_frame c v room f lt other,
      distance-pass_frame_self c v room,
      distance-lt c f lt (v.on_frame room),
      ap (distance (pass_frame c)) same,
    )

pub sweep_clear :
    (rounds : ℕ) (c : Clock) (f : ℕ)
    → IsValid c
    → f < c.capacity
    → IsClear c f
    → distance c f < rounds
    → FindsFirst c f (sweep rounds c).1
unfolding sweep
sweep_clear zero c f v lt clear near = absurd (omega arith)
sweep_clear (suc rounds) c f v lt clear near =
    elim (Bool-cases (in_at c.frames c.clock_hand && not (ref_at c.frames c.clock_hand))) [
      | inl hit ↦ rw hit (
        c.clock_hand,
        refl,
        ground arith,
        v.on_frame (omega arith),
        omega (arith, distance_self c),
      )
      | inr miss ↦
          let other = hand-ne_of_miss c v (omega arith) f clear miss in
          rw miss (
            FindsFirst-pass_frame c v (omega arith) f _ lt other (
              sweep_clear rounds (pass_frame c) f (pass_frame-IsValid c v (omega arith))
                (omega (arith, pass_frame-capacity c v (omega arith)))
                ((IsClear-pass_frame c v (omega arith) f other).0 clear)
                (omega (arith, distance-pass_frame c v (omega arith) f lt other))))
    ]

-- A frame in the replacer is reached twice in two rounds of the hand, the second time with its
-- reference bit clear.
pub sweep_total :
    (rounds : ℕ) (c : Clock) (f : ℕ)
    → IsValid c
    → f < c.capacity
    → in_at c.frames f ≡ true
    → distance c f + c.capacity < rounds
    → (g : ℕ) × ((sweep rounds c).1 ≡ some g)
unfolding sweep
sweep_total zero c f v lt held near = absurd (omega arith)
sweep_total (suc rounds) c f v lt held near =
    elim (Bool-cases (in_at c.frames c.clock_hand && not (ref_at c.frames c.clock_hand))) [
      | inl hit ↦ rw hit (c.clock_hand, refl)
      | inr miss ↦ rw miss (elim (Bool-cases (c.clock_hand == f)) [
        | inl e ↦
            (let (g, found, _, _, _) =
                sweep_clear rounds (pass_frame c) f (pass_frame-IsValid c v (omega arith))
                  (omega (arith, pass_frame-capacity c v (omega arith)))
                  (
                    in_at-pass_frame c v (omega arith) f ∙ held,
                    ground (arith, ref_at-pass_frame c v (omega arith) f),
                  )
                  (omega (
                    arith,
                    distance-pass_frame_self c v (omega arith),
                    ap (distance (pass_frame c)) ((==_iff _ _).0 e),
                  )) in
              (g, found))
        | inr ne ↦
            sweep_total rounds (pass_frame c) f (pass_frame-IsValid c v (omega arith))
              (omega (arith, pass_frame-capacity c v (omega arith)))
              ((in_at-pass_frame c v (omega arith) f) ∙ held)
              (omega (
                arith,
                pass_frame-capacity c v (omega arith),
                distance-pass_frame c v (omega arith) f lt (ground arith),
              ))
      ])
    ]
