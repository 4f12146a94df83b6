-- ===== src/Common/Outcomes.antt =====
-- How a piece of the program ends: normally, or in a fault after which C++ promises nothing.
use mathlib.Core.Path.{◌≡◌, refl, sym}
use mathlib.Core.Logic.{◌⊎◌, inl, inr}
use mathlib.Core.Option.{Option, none, some}

-- What goes wrong: a null or dangling pointer is read, an array is read out of its bounds, a
-- variable is read before it is set, a message is read as another type, an exception is thrown.
pub data Fault : Type 0 where
  null_pointer dangling out_of_range uninitialised bad_cast : Fault
  invalid_argument out_of_limits bad_path stopped_pool exited : Fault

pub data Outcome {ℓ} (A : Type ℓ) : Type ℓ where
  ok : A → Outcome A
  fault : Fault → Outcome A

infixl 5 ◌>>=◌
abbrev pub ◌>>=◌ {ℓ κ} : {A : Type ℓ} {B : Type κ} → Outcome A → (A → Outcome B) → Outcome B
ok a >>= f = f a
fault e >>= f = fault e

-- Dereferencing a pointer that may be null.
abbrev pub deref {ℓ} : {A : Type ℓ} → Option A → Outcome A
deref none = fault null_pointer
deref (some a) = ok a

-- An element of an array, at an index that is not checked.
abbrev pub or_fault {ℓ} : {A : Type ℓ} → Fault → Option A → Outcome A
or_fault e none = fault e
or_fault e (some a) = ok a

abbrev pub Returns {ℓ κ} : {A : Type ℓ} → Outcome A → (A → Type κ) → Type (ℓ ⊔ κ)
Returns {A} r P = (a : A) × (r ≡ ok a) × P a

pub ok-injective {ℓ} : {A : Type ℓ} {a b : A} → ok a ≡ ok b → a ≡ b
ok-injective h = cc

pub fault-injective {ℓ} :
    {A : Type ℓ} {e f : Fault} → ◌≡◌ {A = Outcome A} (fault e) (fault f) → e ≡ f
fault-injective h = cc

pub ok-ne-fault {ℓ} : {A : Type ℓ} {a : A} {e : Fault} → ok a ≡ fault e → ⊥
ok-ne-fault h = cc

pub deref-eq-ok {ℓ} : {A : Type ℓ} (o : Option A) {a : A} → deref o ≡ ok a → o ≡ some a
deref-eq-ok none e = cc
deref-eq-ok (some a) e = cc

pub Outcome-cases {ℓ} :
    {A : Type ℓ} (r : Outcome A) → Returns r (λ _. Unit {0}) ⊎ ((f : Fault) × (r ≡ fault f))
Outcome-cases (ok a) = inl (a, refl, tt)
Outcome-cases (fault f) = inr (f, refl)

-- No freed memory is used, and what is returned satisfies `P`.
abbrev pub Safely {ℓ} : {A : Type ℓ} → (A → Type 0) → Outcome A → Type 0
Safely P (ok a) = P a
Safely P (fault dangling) = ⊥
Safely P (fault _) = Unit {0}

pub Safely->>= {ℓ κ} :
    {A : Type ℓ} {B : Type κ} (Q : A → Type 0) (P : B → Type 0) (m : Outcome A) (f : A → Outcome B)
    → Safely Q m
    → ((a : A) → m ≡ ok a → Q a → Safely P (f a))
    → Safely P (m >>= f)
Safely->>= Q P (ok a) f h k = k a refl h
Safely->>= Q P (fault dangling) f h k = h
Safely->>= Q P (fault null_pointer) f h k = tt
Safely->>= Q P (fault out_of_range) f h k = tt
Safely->>= Q P (fault uninitialised) f h k = tt
Safely->>= Q P (fault bad_cast) f h k = tt
Safely->>= Q P (fault invalid_argument) f h k = tt
Safely->>= Q P (fault out_of_limits) f h k = tt
Safely->>= Q P (fault bad_path) f h k = tt
Safely->>= Q P (fault stopped_pool) f h k = tt
Safely->>= Q P (fault exited) f h k = tt

pub Safely-deref {ℓ} : {A : Type ℓ} (o : Option A) → Safely (λ _. Unit {0}) (deref o)
Safely-deref none = tt
Safely-deref (some a) = tt

pub Safely-eq-ok {ℓ} :
    {A : Type ℓ} (P Q : A → Type 0) (r : Outcome A)
    → Safely P r
    → ((a : A) → r ≡ ok a → Q a)
    → Safely Q r
Safely-eq-ok P Q (ok a) h k = k a refl
Safely-eq-ok P Q (fault dangling) h k = h
Safely-eq-ok P Q (fault null_pointer) h k = tt
Safely-eq-ok P Q (fault out_of_range) h k = tt
Safely-eq-ok P Q (fault uninitialised) h k = tt
Safely-eq-ok P Q (fault bad_cast) h k = tt
Safely-eq-ok P Q (fault invalid_argument) h k = tt
Safely-eq-ok P Q (fault out_of_limits) h k = tt
Safely-eq-ok P Q (fault bad_path) h k = tt
Safely-eq-ok P Q (fault stopped_pool) h k = tt
Safely-eq-ok P Q (fault exited) h k = tt

pub Safely-map {ℓ} :
    {A : Type ℓ} {P Q : A → Type 0} (r : Outcome A)
    → ((a : A) → P a → Q a)
    → Safely P r
    → Safely Q r
Safely-map {P = P} {Q = Q} (ok a) f h = f a h
Safely-map {P = P} {Q = Q} (fault e) f h =
    Safely-eq-ok P Q (fault e) h λ a i. absurd (ok-ne-fault (sym i))

pub Safely-both {ℓ} :
    {A : Type ℓ} (P Q : A → Type 0) (r : Outcome A)
    → Safely P r
    → Safely Q r
    → Safely (λ a. P a × Q a) r
Safely-both P Q (ok a) h k = (h, k)
Safely-both P Q (fault e) h k =
    Safely-eq-ok P (λ a. P a × Q a) (fault e) h λ a i. absurd (ok-ne-fault (sym i))

pub some-injective {ℓ} : {A : Type ℓ} {a b : A} → some a ≡ some b → a ≡ b
some-injective h = cc

pub none-ne-some {ℓ} : {A : Type ℓ} {a : A} → none ≡ some a → ⊥
none-ne-some h = cc
