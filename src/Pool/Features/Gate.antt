-- ===== src/Pool/Features/Gate.antt =====
-- The feature gate of src/pool.rs: exactly the pools whose active features are understood pass.
use lamzfs.Common.{
  ℕ, ◌≡◌, ◌↔◌, refl, String, true, false, List, [], ◌∷◌, bytes_eq, bytes_eq_iff, ◌==◌, ==_iff,
  if◌then◌else◌, All, InList, Bool-cases, inl, inr, ◌⊎◌,
}
use lamzfs.Common.Bytes.{codes}
use lamzfs.Outcome.{ok, >>-eq-ok, >>=-of-ok}
use lamzfs.Pool.Features.{
  read_features_understood, contains, check_read_feature, check_feature_counts,
}

-- A name that the reader lists as understood.
abbrev pub Understood : List ℕ → Type 0
Understood guid = (name : String) × InList name read_features_understood × (codes name ≡ guid)

contains_iff :
    (names : List String) (guid : List ℕ)
    → (contains names guid ≡ true) ↔ ((name : String) × InList name names × (codes name ≡ guid))
unfolding contains
contains_iff [] guid = (λ h. cc, λ (name, i, e). absurd i)
contains_iff (t ∷ ts) guid = elim (Bool-cases (bytes_eq (codes t) guid)) [
  | inl e ↦ (λ h. (t, inl refl, (bytes_eq_iff (codes t) guid).0 e), λ h. rw (e, contains) refl)
  | inr e ↦ (
    λ h. let (name, i, q) = (contains_iff ts guid).0 (rw (e, contains) at h) in (name, inr i, q),
    λ (name, i, q). rw (e, contains) ((contains_iff ts guid).1 (name, older i q e, q)),
  )
]
  where
    older :
        {name : String}
        → InList name (t ∷ ts)
        → codes name ≡ guid
        → bytes_eq (codes t) guid ≡ false
        → InList name ts
    older (inl p) q e =
        let same : codes t ≡ guid = rw (← p) q in
        let yes : bytes_eq (codes t) guid ≡ true = (bytes_eq_iff (codes t) guid).1 same in
        absurd (cc)
    older (inr i) q e = i

-- A feature passes exactly if it is one of the features understood.
pub check_read_feature_iff : (guid : List ℕ) → (check_read_feature guid ≡ ok tt) ↔ Understood guid
unfolding check_read_feature
check_read_feature_iff guid = elim (Bool-cases (contains read_features_understood guid)) [
  | inl e ↦
      (λ h. (contains_iff read_features_understood guid).0 e, λ h. rw (e, check_read_feature) refl)
  | inr e ↦ (
    λ h. let g = rw (e, check_read_feature) at h in absurd (cc),
    λ u.
        let yes : contains read_features_understood guid ≡ true =
          (contains_iff read_features_understood guid).1 u in
        absurd (cc),
  )
]

active_iff :
    (guid : List ℕ) (refcount : ℕ)
    → ((if refcount == 0 then ok tt else check_read_feature guid) ≡ ok tt)
      ↔ ((refcount ≡ 0) ⊎ Understood guid)
active_iff guid refcount = elim (Bool-cases (refcount == 0)) [
  | inl e ↦ (λ h. inl ((==_iff refcount 0).0 e), λ h. rw e refl)
  | inr e ↦ (λ h. inr ((check_read_feature_iff guid).0 (rw e at h)), λ h. rw e (used h e))
]
  where
    used :
        (refcount ≡ 0) ⊎ Understood guid → (refcount == 0) ≡ false → check_read_feature guid ≡ ok tt
    used (inl z) e = let yes : (refcount == 0) ≡ true = (==_iff refcount 0).1 z in absurd (cc)
    used (inr u) e = (check_read_feature_iff guid).1 u

-- The features that the pool's feature ZAP counts pass exactly if each of them is unused or
-- understood.
pub check_feature_counts_iff :
    (counts : List (List ℕ × ℕ))
    → (check_feature_counts counts ≡ ok tt)
      ↔ All (λ (c : List ℕ × ℕ). (c.1 ≡ 0) ⊎ Understood c.0) counts
unfolding check_feature_counts
check_feature_counts_iff [] = (λ h. tt, λ h. refl)
check_feature_counts_iff ((guid, refcount) ∷ rest) = (
  λ h.
      let (a, b) =
        >>-eq-ok (if refcount == 0 then ok tt else check_read_feature guid)
          (check_feature_counts rest) h in
      ((active_iff guid refcount).0 a, (check_feature_counts_iff rest).0 b),
  λ (a, h).
      >>=-of-ok (if refcount == 0 then ok tt else check_read_feature guid) _
        ((active_iff guid refcount).1 a) ((check_feature_counts_iff rest).1 h),
)
