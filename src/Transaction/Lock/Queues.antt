-- ===== src/Transaction/Lock/Queues.antt =====
-- The matrix of lock modes, and queues whose requests fit.
use rmdb.Prelude.{
  ℕ, ◌≡◌, inl, inr, Bool, true, false, not, ◌||◌, some, List, [], ◌∷◌, ◌++◌, ◌==◌, arith,
  Bool-cases,
}
use rmdb.Transaction.Types.{LockDataId, row, lock_data_id_Eq}
use rmdb.Transaction.Lock.{
  LockMode, shared, intention_shared, intention_exclusive, is_shared, is_exclusive, LockRequest,
  LockTable, any, erase_request,
}

-- The matrix of a lock manager with intention locks.
unfoldable pub compatible : LockMode → LockMode → Bool
compatible intention_shared m = not (is_exclusive m)
compatible m intention_shared = not (is_exclusive m)
compatible shared shared = true
compatible intention_exclusive intention_exclusive = true
compatible _ _ = false

abbrev Fit : LockRequest → LockRequest → Type 0
Fit x y =
    x.granted ≡ true
    → y.granted ≡ true
    → (x.txn_id == y.txn_id) ≡ false
    → compatible x.lock_mode y.lock_mode ≡ true

abbrev pub All : (LockRequest → Type 0) → List LockRequest → Type 0
All P [] = Unit {0}
All P (x ∷ xs) = P x × All P xs

-- Every two requests of a queue fit.
abbrev AllFit : List LockRequest → Type 0
AllFit [] = Unit {0}
AllFit (x ∷ xs) = All (Fit x) xs × AllFit xs

-- A row is locked shared or exclusive only.
abbrev pub IsRowMode : LockRequest → Type 0
IsRowMode x = (is_shared x.lock_mode || is_exclusive x.lock_mode) ≡ true

pub record IsGood (id : LockDataId) (queue : List LockRequest) : Type 0 where
  pub fit : AllFit queue
  pub row_modes : id.type ≡ row → All IsRowMode queue

unfoldable pub IsCompatible : LockTable → Type 0
IsCompatible t = (id : LockDataId) (queue : List LockRequest) → t id ≡ some queue → IsGood id queue

pub All-append :
    (P : LockRequest → Type 0) (xs : List LockRequest) (y : LockRequest)
    → All P xs
    → P y
    → All P (xs ++ y ∷ [])
All-append P [] y h p = (p, tt)
All-append P (x ∷ xs) y h p = (h.0, All-append P xs y h.1 p)

pub All-zip :
    {P Q S : LockRequest → Type 0} (f : (x : LockRequest) → P x → Q x → S x) (xs : List LockRequest)
    → All P xs
    → All Q xs
    → All S xs
All-zip f [] p q = tt
All-zip f (x ∷ xs) p q = (f x p.0 q.0, All-zip f xs p.1 q.1)

pub All-map :
    {P Q : LockRequest → Type 0} (f : (x : LockRequest) → P x → Q x) (xs : List LockRequest)
    → All P xs
    → All Q xs
All-map f [] p = tt
All-map f (x ∷ xs) p = (f x p.0, All-map f xs p.1)

pub AllFit-append :
    (xs : List LockRequest) (y : LockRequest)
    → AllFit xs
    → All (λ x. Fit x y) xs
    → AllFit (xs ++ y ∷ [])
AllFit-append [] y a f = (tt, tt)
AllFit-append (x ∷ xs) y a f = (All-append (Fit x) xs y a.0 f.0, AllFit-append xs y a.1 f.1)

pub any-false :
    (test : LockRequest → Bool) (xs : List LockRequest)
    → any test xs ≡ false
    → All (λ x. test x ≡ false) xs
unfolding any
any-false test [] h = tt
any-false test (x ∷ xs) h = elim (Bool-cases (test x)) [
  | inl hit ↦ absurd (ground arith)
  | inr miss ↦ (miss, any-false test xs (ground arith))
]

pub All-erase_request :
    (P : LockRequest → Type 0) (id : ℕ) (xs : List LockRequest)
    → All P xs
    → All P (erase_request id xs)
unfolding erase_request
All-erase_request P id [] h = tt
All-erase_request P id (x ∷ xs) h = elim (Bool-cases (x.txn_id == id)) [
  | inl here ↦ rw here h.1
  | inr later ↦ rw later (h.0, All-erase_request P id xs h.1)
]

pub AllFit-erase_request :
    (id : ℕ) (xs : List LockRequest) → AllFit xs → AllFit (erase_request id xs)
unfolding erase_request
AllFit-erase_request id [] h = tt
AllFit-erase_request id (x ∷ xs) h = elim (Bool-cases (x.txn_id == id)) [
  | inl here ↦ rw here h.1
  | inr later ↦ rw later (All-erase_request (Fit x) id xs h.0, AllFit-erase_request id xs h.1)
]
