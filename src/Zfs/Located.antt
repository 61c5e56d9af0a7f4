-- ===== src/Zfs/Located.antt =====
-- `datasets` of src/lib.rs beside the walk of src/dataset.rs: what is listed can be walked to.
use lamzfs.Common.{ℕ, ◌≡◌, ◌≢◌, refl, ◌⊎◌, inl, inr, List, [], ◌∷◌, InList, All}
use lamzfs.Outcome.{ok, panic}
use lamzfs.Vendored.{Vendored}
use lamzfs.Dataset.Paths.{dataset_dir, child_dataset_names-located}
use lamzfs.Zfs.{Zfs, child_datasets, datasets}
use lamzfs.Zfs.Datasets.{datasets-Reachable}
use lamzfs.Zfs.Datasets.Rounds.{Reachable, root, child}

All-intro : {A : Type 0} (P : A → Type 0) (xs : List A) → ((x : A) → InList x xs → P x) → All P xs
All-intro P [] h = tt
All-intro P (x ∷ xs) h = (h x (inl refl), All-intro P xs (λ y i. h y (inr i)))

module _ (v : Vendored) (z : Zfs) where
  -- The path selects a DSL directory.
  abbrev pub Located : List (List ℕ) → Type 0
  Located p =
      (obj : ℕ) × (dataset_dir v z.members z.pool.topology z.pool.order z.pool.mos_dnode p ≡ ok obj)

  Reachable-Located : {p : List (List ℕ)} → Reachable (child_datasets v z) p → (p ≡ []) ⊎ Located p
  unfolding child_datasets
  Reachable-Located root = inl refl
  Reachable-Located (child parent children c r deep e i) = inr (
      child_dataset_names-located v z.members z.pool.topology z.pool.order z.pool.mos_dnode parent
        children c e i)

  -- Where no listing panics, `datasets` returns, and each path in it, the root's empty one aside,
  -- selects a DSL directory by the walk that `open_dataset` begins with: none of them is missing.
  pub datasets-Located :
      ((p : List (List ℕ)) → child_datasets v z p ≢ panic)
      → (out : List (List (List ℕ))) × (datasets v z ≡ ok out)
        × All (λ (p : List (List ℕ)). (p ≡ []) ⊎ Located p) out
  datasets-Located calm =
      let (out, e, _, sound, _) = datasets-Reachable v z calm in
      (out, e, All-intro (λ p. (p ≡ []) ⊎ Located p) out (λ p i. Reachable-Located (sound p i)))
