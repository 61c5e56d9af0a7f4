-- ===== src/Walk/Names.antt =====
-- Lookup by name in the entries of a ZAP, as src/walk.rs does it with `find`.
use lamzfs.Common.{
  ℕ, ◌≡◌, refl, inl, inr, none, some, List, [], ◌∷◌, InList, bytes_eq, bytes_eq_sound,
  bytes_eq_refl, Bool-cases,
}
use lamzfs.Walk.{find_name}

-- The names of the entries.
abbrev pub names_of {ℓ} : {V : Type ℓ} → List (List ℕ × V) → List (List ℕ)
names_of [] = []
names_of (e ∷ es) = e.0 ∷ names_of es

module _ {V : Type 0} (name : List ℕ) where
  -- A name that an entry has is found, and a value that is found has its entry.
  pub find_name-some :
      (es : List (List ℕ × V))
      → InList name (names_of es)
      → (value : V) × (find_name name es ≡ some value)
  unfolding find_name
  find_name-some [] i = absurd i
  find_name-some ((n, value) ∷ es) (inl e) = (value, rw e (rw (bytes_eq_refl n, find_name) refl))
  find_name-some ((n, value) ∷ es) (inr i) = elim (Bool-cases (bytes_eq n name)) [
    | inl e ↦ (value, rw (e, find_name) refl)
    | inr e ↦ let (w, h) = find_name-some es i in (w, rw (e, find_name) h)
  ]

  pub find_name-named :
      (es : List (List ℕ × V)) {value : V}
      → find_name name es ≡ some value
      → InList (name, value) es
  unfolding find_name
  find_name-named [] h = absurd (cc)
  find_name-named ((n, w) ∷ es) {value} h = elim (Bool-cases (bytes_eq n name)) [
    | inl e ↦
        let s = bytes_eq_sound n name e in
        let g : some w ≡ some value = rw (e, find_name) at h in inl (cc)
    | inr e ↦ inr (find_name-named es (rw (e, find_name) at h))
  ]

  pub find_name-none :
      (es : List (List ℕ × V)) → find_name name es ≡ none → InList name (names_of es) → ⊥
  find_name-none es h i = let (value, e) = find_name-some es i in absurd (cc)
