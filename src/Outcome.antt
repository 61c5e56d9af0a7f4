-- ===== src/Outcome.antt =====
-- `Result<T, Error>` of src/error.rs, with a third case for a call that panics (a slice index out of
-- range), so that the absence of panics can be stated.
pub mod Alike
use lamzfs.Common.{
  ◌≡◌, ◌≢◌, refl, ◌⊎◌, inl, inr, Option, none, some, Bool, true, false, if◌then◌else◌,
}
use lamzfs.Error.{Error}

pub data Outcome {ℓ} (A : Type ℓ) : Type ℓ where
  panic : Outcome A
  err : Error → Outcome A
  ok : A → Outcome A

-- The `?` of the source, and a call whose value is not used.
infixl 5 ◌>>=◌ ◌>>◌
abbrev pub ◌>>=◌ {ℓ κ} : {S : Type ℓ} {T : Type κ} → Outcome S → (S → Outcome T) → Outcome T
panic >>= next = panic
err e >>= next = err e
ok s >>= next = next s

abbrev pub ◌>>◌ {ℓ} : {T : Type ℓ} → Outcome (Unit {0}) → Outcome T → Outcome T
check >> after = check >>= λ _. after

-- `o.ok_or(e)`.
abbrev pub ok_or {ℓ} : {A : Type ℓ} → Option A → Error → Outcome A
ok_or none e = err e
ok_or (some a) e = ok a

-- A guard that returns early with an error.
abbrev pub refuse_if : Bool → Error → Outcome (Unit {0})
refuse_if true e = err e
refuse_if false e = ok tt

-- `s[i]` and `s[a..b]`, which panic out of range.
abbrev pub or_panic {ℓ} : {A : Type ℓ} → Option A → Outcome A
or_panic none = panic
or_panic (some a) = ok a

-- A chain that returns, taken apart.
pub >>=-eq-ok {ℓ κ} :
    {S : Type ℓ} {T : Type κ} (o : Outcome S) (next : S → Outcome T) {t : T}
    → (o >>= next) ≡ ok t
    → (s : S) × (o ≡ ok s) × (next s ≡ ok t)
>>=-eq-ok panic next h = cc
>>=-eq-ok (err e) next h = cc
>>=-eq-ok (ok s) next h = (s, refl, h)

pub ok_or-eq-ok {ℓ} :
    {A : Type ℓ} (o : Option A) (e : Error) {a : A} → ok_or o e ≡ ok a → o ≡ some a
ok_or-eq-ok none e h = cc
ok_or-eq-ok (some a) e h = cc

pub >>-eq-ok {ℓ} :
    {B : Type ℓ} (m : Outcome (Unit {0})) (k : Outcome B) {b : B}
    → (m >> k) ≡ ok b
    → (m ≡ ok tt) × (k ≡ ok b)
>>-eq-ok (ok tt) k h = (refl, h)
>>-eq-ok (err e) k h = cc
>>-eq-ok panic k h = cc

pub refuse_if-eq-ok : (b : Bool) (e : Error) → refuse_if b e ≡ ok tt → b ≡ false
refuse_if-eq-ok true e h = cc
refuse_if-eq-ok false e h = refl

-- A predicate of what a call returns, which holds if it returns nothing.
abbrev pub IfOk {ℓ} : {A : Type ℓ} → (A → Type 0) → Outcome A → Type 0
IfOk P (ok a) = P a
IfOk P (err e) = Unit
IfOk P panic = Unit

pub IfOk->>= {ℓ κ} :
    {A : Type ℓ} {B : Type κ} (P : B → Type 0) (m : Outcome A) (f : A → Outcome B)
    → ((a : A) → m ≡ ok a → IfOk P (f a))
    → IfOk P (m >>= f)
IfOk->>= P (ok a) f h = h a refl
IfOk->>= P (err e) f h = tt
IfOk->>= P panic f h = tt

pub IfOk-elim {ℓ} :
    {A : Type ℓ} (P : A → Type 0) (m : Outcome A) → IfOk P m → (a : A) → m ≡ ok a → P a
IfOk-elim P m h a e = rw e at h

-- A call that returns, and what follows it.
pub >>=-of-ok {ℓ κ} :
    {A : Type ℓ} {B : Type κ} (m : Outcome A) (f : A → Outcome B) {a : A} {r : Outcome B}
    → m ≡ ok a
    → f a ≡ r
    → (m >>= f) ≡ r
>>=-of-ok m f h k = rw h k

-- A call that does not panic.
abbrev pub NoPanic {ℓ} : {A : Type ℓ} → Outcome A → Type 0
NoPanic (ok a) = Unit
NoPanic (err e) = Unit
NoPanic panic = ⊥

pub NoPanic->>= {ℓ κ} :
    {A : Type ℓ} {B : Type κ} (m : Outcome A) (f : A → Outcome B)
    → NoPanic m
    → ((a : A) → m ≡ ok a → NoPanic (f a))
    → NoPanic (m >>= f)
NoPanic->>= (ok a) f h k = k a refl
NoPanic->>= (err e) f h k = tt
NoPanic->>= panic f h k = absurd h

pub NoPanic-ok_or {ℓ} : {A : Type ℓ} (o : Option A) (e : Error) → NoPanic (ok_or o e)
NoPanic-ok_or none e = tt
NoPanic-ok_or (some a) e = tt

pub NoPanic-refuse_if : (b : Bool) (e : Error) → NoPanic (refuse_if b e)
NoPanic-refuse_if true e = tt
NoPanic-refuse_if false e = tt

pub NoPanic-if {ℓ} :
    {A : Type ℓ} (b : Bool) (x y : Outcome A) → NoPanic x → NoPanic y → NoPanic (if b then x else y)
NoPanic-if true x y h k = h
NoPanic-if false x y h k = k

pub IfOk-if {ℓ} :
    {A : Type ℓ} (P : A → Type 0) (b : Bool) (x y : Outcome A)
    → IfOk P x
    → IfOk P y
    → IfOk P (if b then x else y)
IfOk-if P true x y h k = h
IfOk-if P false x y h k = k

pub ne-panic {ℓ} : {A : Type ℓ} (o : Outcome A) → NoPanic o → o ≢ panic
ne-panic o h e = rw e at h

pub IfOk-ok_or {ℓ} :
    {A : Type ℓ} (P : A → Type 0) (o : Option A) (e : Error)
    → ((a : A) → o ≡ some a → P a)
    → IfOk P (ok_or o e)
IfOk-ok_or P none e h = tt
IfOk-ok_or P (some a) e h = h a refl

pub Outcome-cases {ℓ} :
    {A : Type ℓ} (o : Outcome A)
    → ((a : A) × (o ≡ ok a)) ⊎ (((e : Error) × (o ≡ err e)) ⊎ (o ≡ panic))
Outcome-cases (ok a) = inl (a, refl)
Outcome-cases (err e) = inr (inl (e, refl))
Outcome-cases panic = inr (inr refl)

-- What follows a call is taken at what it returns.
pub >>=-ext {ℓ κ} :
    {S : Type ℓ} {T : Type κ} (o : Outcome S) (f g : S → Outcome T)
    → ((s : S) → f s ≡ g s)
    → (o >>= f) ≡ (o >>= g)
>>=-ext panic f g h = refl
>>=-ext (err e) f g h = refl
>>=-ext (ok s) f g h = h s

-- Calls in a chain, bracketed the other way.
pub >>=-assoc {ℓ κ μ} :
    {R : Type ℓ} {S : Type κ} {T : Type μ} (o : Outcome R) (f : R → Outcome S) (g : S → Outcome T)
    → ((o >>= f) >>= g) ≡ (o >>= λ r. f r >>= g)
>>=-assoc panic f g = refl
>>=-assoc (err e) f g = refl
>>=-assoc (ok r) f g = refl

pub ok-injective {ℓ} : {A : Type ℓ} {a b : A} → ◌≡◌ {A = Outcome A} (ok a) (ok b) → a ≡ b
ok-injective h = cc

pub IfOk-intro {ℓ} :
    {A : Type ℓ} (P : A → Type 0) (m : Outcome A) → ((a : A) → m ≡ ok a → P a) → IfOk P m
IfOk-intro P (ok a) h = h a refl
IfOk-intro P (err e) h = tt
IfOk-intro P panic h = tt

pub IfOk-map {ℓ} :
    {A : Type ℓ} (P Q : A → Type 0) (m : Outcome A) → ((a : A) → P a → Q a) → IfOk P m → IfOk Q m
IfOk-map P Q (ok a) f h = f a h
IfOk-map P Q (err e) f h = tt
IfOk-map P Q panic f h = tt

pub or_panic-eq-ok {ℓ} : {A : Type ℓ} (o : Option A) {a : A} → or_panic o ≡ ok a → o ≡ some a
or_panic-eq-ok none h = cc
or_panic-eq-ok (some a) h = cc
