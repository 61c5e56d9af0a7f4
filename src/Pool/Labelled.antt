-- ===== src/Pool/Labelled.antt =====
-- The guards of `import` in src/pool.rs on the label: its features, and its top-level vdevs.
use lamzfs.Common.{ℕ, String, ◌≡◌, refl, ◌∙◌, sym, true, false, not, List, arith, ◌==◌, ==_iff}
use lamzfs.Error.{unsupported_topology}
use lamzfs.Outcome.{ok, refuse_if, ok-injective, >>=-eq-ok, >>-eq-ok, refuse_if-eq-ok}
use lamzfs.Phys.{NvList, NvValue, nil, bad, pair}
use lamzfs.Vendored.{Vendored}
use lamzfs.Pool.Nv.{nv_find, present, nv_has, nv_u64, nv_nvlist}
use lamzfs.Pool.Features.{check_read_feature, check_label_features}
use lamzfs.Pool.Features.Gate.{Understood, check_read_feature_iff}
use lamzfs.Pool.{check_label, check_children}

-- Every pair of an nvlist decodes, and its name has the property.
abbrev pub Named : (List ℕ → Type 0) → NvList → Type 0
Named P nil = Unit
Named P (bad rest) = ⊥
Named P (pair name value rest) = P name × Named P rest

check_label_features-Named : (l : NvList) → check_label_features l ≡ ok tt → Named Understood l
unfolding check_label_features
check_label_features-Named nil h = tt
check_label_features-Named (bad rest) h = absurd (cc)
check_label_features-Named (pair name value rest) h =
    let (a, b) = >>-eq-ok (check_read_feature name) (check_label_features rest) h in
    ((check_read_feature_iff name).0 a, check_label_features-Named rest b)

-- A key whose value is there.
nv_has-found :
    (l : NvList) (key : String) {value : NvValue}
    → nv_find l key ≡ ok value
    → nv_has l key ≡ ok true
unfolding nv_has present
nv_has-found l key h = rw h refl

module _ (v : Vendored) (config : NvList) where
  pub check_label-Understood :
      (features : NvList)
      → check_label v config ≡ ok tt
      → nv_nvlist config "features_for_read" ≡ ok features
      → Named Understood features
  unfolding check_label nv_nvlist
  check_label-Understood features h l =
      let (value, f, _) = >>=-eq-ok (nv_find config "features_for_read") _ l in
      let (listed, e, g) = >>=-eq-ok (nv_has config "features_for_read") _ h in
      let yes : listed ≡ true = ok-injective (sym e ∙ nv_has-found config "features_for_read" f) in
      let (features', e', g') =
        >>=-eq-ok (nv_nvlist config "features_for_read") check_label_features (rw yes at g) in
      let same : features' ≡ features = ok-injective (sym e' ∙ l) in
      check_label_features-Named features (rw same at g')

  pub check_children-one :
      (count : ℕ)
      → check_children v config ≡ ok tt
      → nv_u64 config "vdev_children" ≡ ok count
      → count ≡ 1
  unfolding check_children nv_u64
  check_children-one count h l =
      let (value, f, _) = >>=-eq-ok (nv_find config "vdev_children") _ l in
      let (listed, e, g) = >>=-eq-ok (nv_has config "vdev_children") _ h in
      let yes : listed ≡ true = ok-injective (sym e ∙ nv_has-found config "vdev_children" f) in
      let (count', e', g') =
        >>=-eq-ok (nv_u64 config "vdev_children")
          (λ n. refuse_if (not (n == 1)) (unsupported_topology "topo_multi_toplevel"))
          (rw yes at g) in
      let same : count' ≡ count = ok-injective (sym e' ∙ l) in
      let one : (not (count == 1)) ≡ false =
        refuse_if-eq-ok (not (count == 1)) (unsupported_topology "topo_multi_toplevel")
          (rw same at g') in
      ground (arith, ==_iff count 1)
