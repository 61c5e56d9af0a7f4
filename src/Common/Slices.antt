-- ===== src/Common/Slices.antt =====
-- Parts of lists: what they are beside one another.
use Prim.Native.Nat.{ℕ, zero, suc, ◌+◌, ◌≤◌, min}
use mathlib.Core.Path.{◌≡◌, refl, ap, ◌∙◌}
use mathlib.Core.Bool.{true}
use mathlib.Core.Logic.{◌↔◌, ◌⊎◌, inl, inr}
use mathlib.Core.List.{List, [], ◌∷◌, ◌++◌}
use mathlib.Core.Option.{some}
use native.Mathlib.Omega.{arith}
use lamzfs.Common.Tests.{leb, Bool-cases}
use lamzfs.Common.Lists.{
  InList, length, get_range, take, drop, replicate, length-append, length-take, take_all, drop_all,
}

module _ {ℓ} {A : Type ℓ} where
  pub drop_past : (a : ℕ) (xs : List A) → length xs ≤ a → drop a xs ≡ []
  drop_past zero [] h = refl
  drop_past zero (x ∷ xs) h = absurd (omega arith)
  drop_past (suc a) [] h = refl
  drop_past (suc a) (x ∷ xs) h = drop_past a xs (omega arith)

  pub take_clip : (n m : ℕ) (xs : List A) → m ≡ length xs → take (min n m) xs ≡ take n xs
  take_clip zero m xs e = let z : min 0 m ≡ 0 = omega arith in rw z refl
  take_clip (suc n) m [] e = let z : min (suc n) m ≡ 0 = omega arith in rw z refl
  take_clip (suc n) m (x ∷ xs) e =
      let s : min (suc n) m ≡ suc (min n (length xs)) = omega arith in
      rw s (ap (◌∷◌ x) (take_clip n (length xs) xs refl))

  pub append-nil : (xs : List A) → xs ++ [] ≡ xs
  append-nil [] = refl
  append-nil (x ∷ xs) = ap (◌∷◌ x) (append-nil xs)

  pub replicate-add : (m n : ℕ) (a : A) → replicate (m + n) a ≡ replicate m a ++ replicate n a
  replicate-add zero n a = let z : 0 + n ≡ n = omega arith in rw z refl
  replicate-add (suc m) n a =
      let s : suc m + n ≡ suc (m + n) = omega arith in rw s (ap (◌∷◌ a) (replicate-add m n a))

  -- A slice between what comes before and after it.
  pub get_range-middle :
      (pre ys post : List A) → get_range (pre ++ (ys ++ post)) (length pre) (length ys) ≡ some ys
  get_range-middle pre ys post =
      let fits : leb (length pre + length ys) (length (pre ++ (ys ++ post))) ≡ true =
        ground (arith, length-append pre (ys ++ post), length-append ys post) in
      rw fits (ap some (ap (take (length ys)) (drop_all pre (ys ++ post)) ∙ take_all ys post))

  -- A part of the first `k` elements is that part of the whole.
  pub take-take : (n k : ℕ) (xs : List A) → n ≤ k → take n (take k xs) ≡ take n xs
  take-take zero k xs h = refl
  take-take (suc n) zero xs h = absurd (omega arith)
  take-take (suc n) (suc k) [] h = refl
  take-take (suc n) (suc k) (x ∷ xs) h = ap (◌∷◌ x) (take-take n k xs (omega arith))

  take-drop-take :
      (a n k : ℕ) (xs : List A) → a + n ≤ k → take n (drop a (take k xs)) ≡ take n (drop a xs)
  take-drop-take zero n k xs h = take-take n k xs (omega arith)
  take-drop-take (suc a) n zero xs h = absurd (omega arith)
  take-drop-take (suc a) n (suc k) [] h = refl
  take-drop-take (suc a) n (suc k) (x ∷ xs) h = take-drop-take a n k xs (omega arith)

  pub get_range-take :
      (a n k : ℕ) (xs : List A) {ys : List A}
      → a + n ≤ k
      → get_range xs a n ≡ some ys
      → get_range (take k xs) a n ≡ some ys
  get_range-take a n k xs h e = elim (Bool-cases (leb (a + n) (length xs))) [
    | inl t ↦
        let fits : leb (a + n) (length (take k xs)) ≡ true = ground (arith, length-take k xs) in
        let here = rw t at e in rw fits (ap some (take-drop-take a n k xs h) ∙ here)
    | inr f ↦ let none_here = rw f at e in absurd (cc)
  ]

-- An element of two lists in a row is one of either.
pub InList-append :
    {A : Type 0} (x : A) (xs ys : List A) → InList x (xs ++ ys) ↔ (InList x xs ⊎ InList x ys)
InList-append x [] ys = (λ i. inr i, λ s. elim s [ inl i ↦ absurd i | inr i ↦ i ])
InList-append x (y ∷ xs) ys =
    let (to, from) = InList-append x xs ys in
    (
      λ i. elim i [
        | inl e ↦ inl (inl e)
        | inr j ↦ elim (to j) [ inl k ↦ inl (inr k) | inr k ↦ inr k ]
      ],
      λ s. elim s [
        | inl i ↦ elim i [ inl e ↦ inl e | inr j ↦ inr (from (inl j)) ]
        | inr j ↦ inr (from (inr j))
      ],
    )
