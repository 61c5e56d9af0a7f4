-- ===== src/Common/Xor.antt =====
-- The laws of `^` on machine words, at every width: the native operation recurs on binary digits.
use Prim.Native.Nat.{digits, bitwise, bit_xor-bitwise}
use native.Mathlib.Nat.{le_refl}
use mathlib.Core.WellFounded
use Prim.Native.Nat.{ℕ, zero, suc, ◌+◌, ◌*◌, ◌/◌, ◌%◌, ◌≤◌, ◌<◌, bit_xor, differ}
use mathlib.Core.Path.{◌≡◌, refl, ap}
use native.Mathlib.Omega.{arith}
use lamzfs.Common.Order.{lt_wf}

-- Any fuel from the first word on gives the same digits.
xor_digits_fuel :
    (k l x y : ℕ) → x ≤ k → x ≤ l → digits (λ t. t) differ k x y ≡ digits (λ t. t) differ l x y
xor_digits_fuel (suc k) (suc l) (suc x) y hk hl =
    rw (xor_digits_fuel k l (suc x / 2) (y / 2) (omega (arith, hk)) (omega (arith, hl)))
xor_digits_fuel (suc k) (suc l) zero y hk hl = refl
xor_digits_fuel (suc k) zero zero y hk hl = refl
xor_digits_fuel zero (suc l) zero y hk hl = refl
xor_digits_fuel zero zero x y hk hl = refl
xor_digits_fuel zero l (suc x) y hk hl = absurd (omega arith)
xor_digits_fuel k zero (suc x) y hk hl = absurd (omega arith)

-- The lowest digit of an exclusive or.
abbrev pub xor_digit : ℕ → ℕ → ℕ
xor_digit a b = (a % 2 + b % 2) % 2

differ_bits : (x y : ℕ) → x < 2 → y < 2 → differ x y ≡ (x + y) % 2
differ_bits zero zero p q = refl
differ_bits zero (suc zero) p q = refl
differ_bits zero (suc (suc y)) p q = absurd (omega arith)
differ_bits (suc zero) zero p q = refl
differ_bits (suc zero) (suc zero) p q = refl
differ_bits (suc zero) (suc (suc y)) p q = absurd (omega arith)
differ_bits (suc (suc x)) y p q = absurd (omega arith)

differ-xor_digit : (a b : ℕ) → differ (a % 2) (b % 2) ≡ xor_digit a b
differ-xor_digit a b = differ_bits (a % 2) (b % 2) (omega arith) (omega arith)

differ_recursion :
    (x y : ℕ)
    → bitwise (λ t. t) differ (suc x) y
      ≡ bitwise (λ t. t) differ (suc x / 2) (y / 2) * 2 + differ (suc x % 2) (y % 2)
differ_recursion x y =
    let half : suc x / 2 ≤ x = omega arith in
    omega (arith, xor_digits_fuel x (suc x / 2) (suc x / 2) (y / 2) half (le_refl (suc x / 2)))

pub bit_xor_step : (a b : ℕ) → bit_xor a b ≡ bit_xor (a / 2) (b / 2) * 2 + xor_digit a b
bit_xor_step zero b = simp bit_xor-bitwise (omega arith)
bit_xor_step (suc a) b =
    rw (← differ-xor_digit (suc a) b) (simp bit_xor-bitwise (differ_recursion a b))

pub zero-bit_xor : (b : ℕ) → bit_xor 0 b ≡ b
zero-bit_xor b = bit_xor-bitwise 0 b

bit_xor-zero_step : (n : ℕ) → ((m : ℕ) → m < n → bit_xor m 0 ≡ m) → bit_xor n 0 ≡ n
bit_xor-zero_step zero ih = refl
bit_xor-zero_step (suc n) ih = omega (arith, bit_xor_step (suc n) 0, ih (suc n / 2) (omega arith))

pub bit_xor-zero : (a : ℕ) → bit_xor a 0 ≡ a
bit_xor-zero a = WellFounded.induction lt_wf a bit_xor-zero_step

bit_xor_self_step : (n : ℕ) → ((m : ℕ) → m < n → bit_xor m m ≡ 0) → bit_xor n n ≡ 0
bit_xor_self_step zero ih = refl
bit_xor_self_step (suc n) ih =
    omega (arith, bit_xor_step (suc n) (suc n), ih (suc n / 2) (omega arith))

pub bit_xor_self : (a : ℕ) → bit_xor a a ≡ 0
bit_xor_self a = WellFounded.induction lt_wf a bit_xor_self_step

bit_xor_comm_step :
    (n : ℕ)
    → ((m : ℕ) → m < n → (b : ℕ) → bit_xor m b ≡ bit_xor b m)
    → (b : ℕ) → bit_xor n b ≡ bit_xor b n
bit_xor_comm_step zero ih b = omega (arith, zero-bit_xor b, bit_xor-zero b)
bit_xor_comm_step (suc n) ih b =
    omega
      (arith, bit_xor_step (suc n) b, bit_xor_step b (suc n), ih (suc n / 2) (omega arith) (b / 2))

pub bit_xor_comm : (a b : ℕ) → bit_xor a b ≡ bit_xor b a
bit_xor_comm a = WellFounded.induction lt_wf a bit_xor_comm_step

half-bit_xor : (a b : ℕ) → bit_xor a b / 2 ≡ bit_xor (a / 2) (b / 2)
half-bit_xor a b = omega (arith, bit_xor_step a b)

xor_assoc_digits :
    (a b c : ℕ)
    → bit_xor (bit_xor (a / 2) (b / 2)) (c / 2) ≡ bit_xor (a / 2) (bit_xor (b / 2) (c / 2))
    → bit_xor (bit_xor a b) c ≡ bit_xor a (bit_xor b c)
xor_assoc_digits a b c h = omega (
  arith,
  bit_xor_step a b,
  bit_xor_step b c,
  bit_xor_step (bit_xor a b) c,
  bit_xor_step a (bit_xor b c),
  ap (λ (t : ℕ). bit_xor t (c / 2)) (half-bit_xor a b),
  ap (λ (t : ℕ). bit_xor (a / 2) t) (half-bit_xor b c),
)

bit_xor_assoc_step :
    (n : ℕ)
    → ((m : ℕ) → m < n → (b c : ℕ) → bit_xor (bit_xor m b) c ≡ bit_xor m (bit_xor b c))
    → (b c : ℕ) → bit_xor (bit_xor n b) c ≡ bit_xor n (bit_xor b c)
bit_xor_assoc_step zero ih b c = simp zero-bit_xor
bit_xor_assoc_step (suc n) ih b c =
    xor_assoc_digits (suc n) b c (ih (suc n / 2) (omega arith) (b / 2) (c / 2))

pub bit_xor_assoc : (a b c : ℕ) → bit_xor (bit_xor a b) c ≡ bit_xor a (bit_xor b c)
bit_xor_assoc a = WellFounded.induction lt_wf a bit_xor_assoc_step

-- A word that is mixed in twice cancels.
pub bit_xor_cancel : (a b : ℕ) → bit_xor (bit_xor a b) b ≡ a
bit_xor_cancel a b = rw (bit_xor_assoc, bit_xor_self b) (bit_xor-zero a)
