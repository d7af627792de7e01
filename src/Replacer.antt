-- ===== src/Replacer.antt =====
-- src/replacer/replacer.h: the interface of a page replacer, with the laws that its users rely on.
pub mod Clock
pub mod Lru
use rmdb.Prelude.{ℕ, ◌<◌, ◌≡◌, Bool, true, false, Option, none, some, ◌==◌, if◌then◌else◌}

-- What `victim` may answer, by the frames that could be evicted before and after the call.
abbrev pub Evicts : (ℕ → Bool) → (ℕ → Bool) → Option ℕ → Type 0
Evicts before after none = (f : ℕ) → (before f ≡ false) × (after f ≡ false)
Evicts before after (some f) =
    (before f ≡ true) × ((q : ℕ) → after q ≡ (if f == q then false else before q))

-- `members s f` says that frame `f` may be evicted. `capacity` is the number of frames.
pub record Replacer : Type 1 where
  pub State : Type 0
  pub IsValid : State → Type 0
  pub members : State → ℕ → Bool
  pub capacity : ℕ
  pub initial : State
  pub victim : State → State × Option ℕ
  pub pin : State → ℕ → State
  pub unpin : State → ℕ → State
  pub size : State → ℕ
  pub initial-IsValid : IsValid initial
  pub members-initial : (f : ℕ) → members initial f ≡ false
  pub victim-IsValid : (s : State) → IsValid s → IsValid (victim s).0
  pub pin-IsValid : (s : State) (f : ℕ) → IsValid s → IsValid (pin s f)
  pub unpin-IsValid : (s : State) (f : ℕ) → IsValid s → IsValid (unpin s f)
  pub victim-Evicts :
      (s : State) → IsValid s → Evicts (members s) (members (victim s).0) (victim s).1
  pub members-pin :
      (s : State) (f q : ℕ)
      → IsValid s
      → members (pin s f) q ≡ (if f == q then false else members s q)
  pub members-unpin :
      (s : State) (f q : ℕ)
      → IsValid s
      → f < capacity
      → members (unpin s f) q ≡ (if f == q then true else members s q)
