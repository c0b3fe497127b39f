-- ===== src/Prelude/Nccl.antt =====
-- ncclResult_t of src/include/nccl/types.h, and the NCCLCHECK macro of checks.h. A call that works on
-- a comm, a socket or a cache takes the object's state and hands it back also when it fails, since
-- what was written before the failing line stays written.
use mathlib.Core.Bool.{Bool}
use mathlib.Core.Option.{Option, none, some}
use mathlib.Core.Path.{◌≡◌, refl, sym, subst}
use nccl_exts.Prelude.Tests.{if◌then◌else◌}

pub data NcclResult : Type 0 where
  success unhandled_cuda_error system_error internal_error : NcclResult
  invalid_argument invalid_usage remote_error in_progress : NcclResult

-- What a step of a function has come to: a value to go on with, or the code that the function
-- returns at this point.
pub data Result {ℓ} (A : Type ℓ) : Type ℓ where
  ok : A → Result A
  err : NcclResult → Result A

abbrev pub Action : Type 0 → Type 0 → Type 0
Action S A = S → Result A × S

infixl 5 ◌>>=◌ ◌>>◌
abbrev pub ◌>>=◌ : {S A B : Type 0} → Action S A → (A → Action S B) → Action S B
◌>>=◌ m f s = let (r, s') = m s in elim r [ ok a ↦ f a s' | err e ↦ (err e, s') ]

abbrev pub ◌>>◌ : {S A B : Type 0} → Action S A → Action S B → Action S B
m >> k = m >>= λ _. k

module _ {S : Type 0} where
  abbrev pub pure : {A : Type 0} → A → Action S A
  pure a s = (ok a, s)

  abbrev pub fail : {A : Type 0} → NcclResult → Action S A
  fail e s = (err e, s)

  abbrev pub gets : {A : Type 0} → (S → A) → Action S A
  gets f s = (ok (f s), s)

  abbrev pub modify : (S → S) → Action S (Unit {0})
  modify f s = (ok tt, f s)

  abbrev pub fail_if : Bool → NcclResult → Action S (Unit {0})
  fail_if b e s = (if b then err e else ok tt, s)

  -- NCCLCHECK: success and ncclInProgress go on.
  abbrev pub nccl_check : NcclResult → Action S (Unit {0})
  nccl_check success = pure tt
  nccl_check in_progress = pure tt
  nccl_check e = fail e

-- NCCLCHECK on a wrapper of the verbs library: what the call answers, ncclSystemError for a failure.
abbrev pub answered : {S A : Type 0} → Option A → Action S A
answered none = fail system_error
answered (some a) = pure a

-- NCCLCHECK on a call that leaves the state as it is.
abbrev pub from_result : {S A : Type 0} → Result A → Action S A
from_result (ok a) = pure a
from_result (err e) = fail e

-- How an action has ended, on a success and on an error.
abbrev pub Ends {ℓ} :
    {S A : Type 0} → (A → S → Type ℓ) → (NcclResult → S → Type ℓ) → Result A × S → Type ℓ
Ends good bad (ok a, s) = good a s
Ends good bad (err e, s) = bad e s

-- NCCLCHECK leaves the state as it is.
pub nccl_check-same :
    {S : Type 0} (r : NcclResult) (s : S) → Ends (λ _ t. t ≡ s) (λ _ t. t ≡ s) (nccl_check r s)
nccl_check-same success s = refl
nccl_check-same in_progress s = refl
nccl_check-same unhandled_cuda_error s = refl
nccl_check-same system_error s = refl
nccl_check-same internal_error s = refl
nccl_check-same invalid_argument s = refl
nccl_check-same invalid_usage s = refl
nccl_check-same remote_error s = refl

-- An action that starts with a step that succeeds ends as the rest does.
pub Ends-bind {ℓ} :
    {S A B : Type 0} (good : B → S → Type ℓ) (bad : NcclResult → S → Type ℓ) (m : Action S A)
    (f : A → Action S B) (s s' : S) (a : A)
    → m s ≡ (ok a, s')
    → Ends good bad (f a s')
    → Ends good bad ((m >>= f) s)
Ends-bind good bad m f s s' a e h = subst (λ out. Ends good bad (((λ _. out) >>= f) s)) (sym e) h

-- An action that keeps an invariant, whether it succeeds or fails.
abbrev pub Keeps {ℓ} : {S A : Type 0} → (S → Type ℓ) → Action S A → Type ℓ
Keeps P m = (s : _) → P s → P (m s).1

pub Keeps-bind {ℓ} :
    {S A B : Type 0} (P : S → Type ℓ) (m : Action S A) (f : A → Action S B)
    → Keeps P m
    → ((a : A) → Keeps P (f a))
    → Keeps P (m >>= f)
Keeps-bind P m f km kf s p = go (m s) refl
  where
    go : (out : _) → m s ≡ out → P ((m >>= f) s).1
    go (ok a, t) e =
        subst (λ o. P (((λ _. o) >>= f) s).1) (sym e) (kf a t (subst (λ o. P o.1) e (km s p)))
    go (err x, t) e = subst (λ o. P (((λ _. o) >>= f) s).1) (sym e) (subst (λ o. P o.1) e (km s p))

-- What holds of the state holds at both ends.
pub Ends-both {ℓ} :
    {S A : Type 0} (good : A → S → Type ℓ) (bad : NcclResult → S → Type ℓ) (out : Result A × S)
    → ((a : A) → good a out.1)
    → ((e : NcclResult) → bad e out.1)
    → Ends good bad out
Ends-both good bad (ok a, s) g b = g a
Ends-both good bad (err e, s) g b = b e

-- An action ends as its second part does where the first one succeeds.
pub Ends-chain {ℓ} :
    {S A B : Type 0} (mid : A → S → Type ℓ) (good : B → S → Type ℓ) (bad : NcclResult → S → Type ℓ)
    (m : Action S A) (f : A → Action S B) (s : S)
    → Ends mid bad (m s)
    → ((a : A) (t : S) → mid a t → Ends good bad (f a t))
    → Ends good bad ((m >>= f) s)
Ends-chain mid good bad m f s h k = go (m s) refl
  where
    go : (out : _) → m s ≡ out → Ends good bad ((m >>= f) s)
    go (ok a, t) e =
        subst (λ o. Ends good bad (((λ _. o) >>= f) s)) (sym e) (k a t (subst (Ends mid bad) e h))
    go (err x, t) e =
        subst (λ o. Ends good bad (((λ _. o) >>= f) s)) (sym e) (subst (Ends mid bad) e h)

-- What holds at both ends can be weakened.
pub Ends-map {ℓ κ} :
    {S A : Type 0} (good : A → S → Type ℓ) (bad : NcclResult → S → Type ℓ) (good' : A → S → Type κ)
    (bad' : NcclResult → S → Type κ) (out : Result A × S)
    → ((a : A) (s : S) → good a s → good' a s)
    → ((e : NcclResult) (s : S) → bad e s → bad' e s)
    → Ends good bad out
    → Ends good' bad' out
Ends-map good bad good' bad' (ok a, s) g b h = g a s h
Ends-map good bad good' bad' (err e, s) g b h = b e s h
