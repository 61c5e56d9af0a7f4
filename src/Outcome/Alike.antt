-- ===== src/Outcome/Alike.antt =====
-- Results of two runs that differ at most in which fault ends them: the same result, or two errors of
-- src/error.rs, neither of which says that something is missing.
use lamzfs.Common.{◌≡◌, refl, ◌⊎◌, inl, inr, Option, none, some, Bool, true, false, if◌then◌else◌}
use lamzfs.Error.{Error, not_found}
use lamzfs.Outcome.{Outcome, ok, err, panic, ok_or, ◌>>=◌}

-- An error other than that a name is missing, which `exists` answers by false.
abbrev pub IsFault : Error → Type 0
IsFault (not_found _) = ⊥
IsFault _ = Unit

abbrev pub Faults {ℓ} : {A : Type ℓ} → Outcome A → Type 0
Faults (ok a) = ⊥
Faults (err e) = IsFault e
Faults panic = ⊥

abbrev pub Alike {ℓ} : {A : Type ℓ} → Outcome A → Outcome A → Type ℓ
Alike o o' = (o ≡ o') ⊎ (Faults o × Faults o')

Faults->>= {ℓ κ} :
    {A : Type ℓ} {B : Type κ} (m : Outcome A) (f : A → Outcome B) → Faults m → Faults (m >>= f)
Faults->>= (ok a) f h = absurd h
Faults->>= (err e) f h = h
Faults->>= panic f h = absurd h

same->>= {ℓ κ} :
    {A : Type ℓ} {B : Type κ} (m : Outcome A) (f g : A → Outcome B)
    → ((a : A) → m ≡ ok a → Alike (f a) (g a))
    → Alike (m >>= f) (m >>= g)
same->>= (ok a) f g h = h a refl
same->>= (err e) f g h = inl refl
same->>= panic f g h = inl refl

pub Alike->>= {ℓ κ} :
    {A : Type ℓ} {B : Type κ} (m m' : Outcome A) (f g : A → Outcome B)
    → Alike m m'
    → ((a : A) → Alike (f a) (g a))
    → Alike (m >>= f) (m' >>= g)
Alike->>= m m' f g (inl e) h = rw (← e) (same->>= m f g (λ a _. h a))
Alike->>= m m' f g (inr (a, b)) h = inr (Faults->>= m f a, Faults->>= m' g b)

-- What follows a call that both make.
pub Alike-then {ℓ κ} :
    {A : Type ℓ} {B : Type κ} (m : Outcome A) (f g : A → Outcome B)
    → ((a : A) → Alike (f a) (g a))
    → Alike (m >>= f) (m >>= g)
Alike-then m f g h = same->>= m f g (λ a _. h a)

pub Alike-if {ℓ} :
    {A : Type ℓ} (b : Bool) (x x' y y' : Outcome A)
    → Alike x x'
    → Alike y y'
    → Alike (if b then x else y) (if b then x' else y')
Alike-if true x x' y y' h k = h
Alike-if false x x' y y' h k = k

-- A call that returns or ends with a fault.
abbrev pub MayFault {ℓ} : {A : Type ℓ} → Outcome A → Type 0
MayFault (ok a) = Unit
MayFault (err e) = IsFault e
MayFault panic = ⊥

pub MayFault->>= {ℓ κ} :
    {A : Type ℓ} {B : Type κ} (m : Outcome A) (f : A → Outcome B)
    → MayFault m
    → ((a : A) → MayFault (f a))
    → MayFault (m >>= f)
MayFault->>= (ok a) f h k = k a
MayFault->>= (err e) f h k = h
MayFault->>= panic f h k = absurd h

pub MayFault-ok_or {ℓ} : {A : Type ℓ} (o : Option A) (e : Error) → IsFault e → MayFault (ok_or o e)
MayFault-ok_or none e h = h
MayFault-ok_or (some a) e h = tt

pub MayFault-if {ℓ} :
    {A : Type ℓ} (b : Bool) (x y : Outcome A)
    → MayFault x
    → MayFault y
    → MayFault (if b then x else y)
MayFault-if true x y h k = h
MayFault-if false x y h k = k
