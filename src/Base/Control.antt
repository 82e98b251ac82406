-- ===== src/Base/Control.antt =====
-- How a C++ call ends: it returns, a failed `assert` stops the program, or it reads or writes
-- outside its storage, which C++ leaves undefined.
use mathlib.Core.Path.{◌≡◌, refl, subst}
use my_diff.Base.Tests.{if◌then◌else◌}
use native.Mathlib.Omega.{arith}
use mathlib.Core.Bool.{Bool, true, false}
use mathlib.Core.Option.{Option, none, some}

pub data Outcome {ℓ} (A : Type ℓ) : Type ℓ where
  done : A → Outcome A
  aborted : Outcome A
  fault : Outcome A

infixl 5 ◌>>=◌ ◌>>◌
abbrev pub ◌>>=◌ {ℓ κ} : {A : Type ℓ} {B : Type κ} → Outcome A → (A → Outcome B) → Outcome B
done a >>= f = f a
aborted >>= f = aborted
fault >>= f = fault

abbrev pub ◌>>◌ {ℓ} : {B : Type ℓ} → Outcome (Unit {0}) → Outcome B → Outcome B
m >> k = m >>= λ _. k

-- `assert(b)`.
abbrev pub require : Bool → Outcome (Unit {0})
require true = done tt
require false = aborted

-- An access that is defined only in bounds.
abbrev pub in_bounds {ℓ} : {A : Type ℓ} → Option A → Outcome A
in_bounds none = fault
in_bounds (some a) = done a

-- A chain that returns is one whose first call returned.
pub bind-done {ℓ κ} :
    {A : Type ℓ} {B : Type κ} (m : Outcome A) (f : A → Outcome B) (b : B)
    → (m >>= f) ≡ done b
    → (a : A) × (m ≡ done a) × (f a ≡ done b)
bind-done (done a) f b e = (a, refl, e)
bind-done aborted f b e = absurd (ground arith)
bind-done fault f b e = absurd (ground arith)

-- Two chains that go on in the same way after a first call.
pub bind_through {ℓ κ μ} :
    {A : Type ℓ} {B : Type κ} {C : Type μ} (m : Outcome A) (f : A → Outcome C) (g : A → Outcome B)
    (h : B → Outcome C)
    → ((a : A) → f a ≡ (g a >>= h))
    → (m >>= f) ≡ ((m >>= g) >>= h)
bind_through (done a) f g h same = same a
bind_through aborted f g h same = refl
bind_through fault f g h same = refl

pub bind_same {ℓ κ κ' μ} :
    {A : Type ℓ} {B : Type κ} {B' : Type κ'} {C : Type μ} (m : Outcome A) (f : A → Outcome B)
    (g : B → Outcome C) (f' : A → Outcome B') (g' : B' → Outcome C)
    → ((a : A) → (f a >>= g) ≡ (f' a >>= g'))
    → ((m >>= f) >>= g) ≡ ((m >>= f') >>= g')
bind_same (done a) f g f' g' same = same a
bind_same aborted f g f' g' same = refl
bind_same fault f g f' g' same = refl

pub bind_done {ℓ} :
    {A : Type ℓ} (m : Outcome A) (f : A → Outcome A) → ((a : A) → f a ≡ done a) → (m >>= f) ≡ m
bind_done (done a) f same = same a
bind_done aborted f same = refl
bind_done fault f same = refl

-- What holds of the result if the call returns.
pub data Ensures {ℓ κ} {A : Type ℓ} (P : A → Type κ) : Outcome A → Type (ℓ ⊔ κ) where
  returns : (a : A) → P a → Ensures P (done a)
  aborts : Ensures P aborted
  faults : Ensures P fault

pub Ensures-bind {ℓ κ μ} :
    {A : Type ℓ} {B : Type κ} {P : B → Type μ} (m : Outcome A) {f : A → Outcome B}
    → ((a : A) → Ensures P (f a))
    → Ensures P (m >>= f)
Ensures-bind (done a) h = h a
Ensures-bind aborted h = aborts
Ensures-bind fault h = faults

pub Ensures-then {ℓ κ ℓ' κ'} :
    {A : Type ℓ} {B : Type ℓ'} {Q : A → Type κ} {P : B → Type κ'} {m : Outcome A}
    {f : A → Outcome B}
    → Ensures Q m
    → ((a : A) → Q a → Ensures P (f a))
    → Ensures P (m >>= f)
Ensures-then (returns a q) h = h a q
Ensures-then aborts h = aborts
Ensures-then faults h = faults

pub Ensures-imp {ℓ κ μ} :
    {A : Type ℓ} {Q : A → Type κ} {P : A → Type μ} {m : Outcome A}
    → Ensures Q m
    → ((a : A) → Q a → P a)
    → Ensures P m
Ensures-imp (returns a q) h = returns a (h a q)
Ensures-imp aborts h = aborts
Ensures-imp faults h = faults

Ensures-of_done {ℓ κ} : {A : Type ℓ} {P : A → Type κ} {a : A} → Ensures P (done a) → P a
Ensures-of_done (returns a h) = h

pub Ensures-done {ℓ κ} :
    {A : Type ℓ} {P : A → Type κ} {m : Outcome A} {a : A} → Ensures P m → m ≡ done a → P a
Ensures-done {P} h e = Ensures-of_done (subst (Ensures P) e h)

pub Ensures-of {ℓ κ} :
    {A : Type ℓ} {P : A → Type κ} (m : Outcome A) → ((a : A) → m ≡ done a → P a) → Ensures P m
Ensures-of (done a) h = returns a (h a refl)
Ensures-of aborted h = aborts
Ensures-of fault h = faults

pub Ensures-if {ℓ κ} :
    {A : Type ℓ} {P : A → Type κ} (b : Bool) {x y : Outcome A}
    → Ensures P x
    → Ensures P y
    → Ensures P (if b then x else y)
Ensures-if true h k = h
Ensures-if false h k = k
