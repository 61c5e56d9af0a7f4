-- ===== src/Pool/Features/Safe.antt =====
-- The feature checks of src/pool.rs end with an answer or a refusal, whatever is listed.
use lamzfs.Common.{ℕ, List, [], ◌∷◌, ◌==◌, if◌then◌else◌}
use lamzfs.Outcome.{ok, NoPanic, NoPanic->>=, NoPanic-if}
use lamzfs.Phys.{NvList, nil, bad, pair}
use lamzfs.Pool.Features.{
  contains, read_features_understood, check_read_feature, check_label_features,
  check_feature_counts,
}

check_read_feature-NoPanic : (guid : List ℕ) → NoPanic (check_read_feature guid)
unfolding check_read_feature
check_read_feature-NoPanic guid = NoPanic-if (contains read_features_understood guid) _ _ tt tt

pub check_label_features-NoPanic : (features : NvList) → NoPanic (check_label_features features)
unfolding check_label_features
check_label_features-NoPanic nil = tt
check_label_features-NoPanic (bad rest) = tt
check_label_features-NoPanic (pair name value rest) =
    NoPanic->>= (check_read_feature name) _ (check_read_feature-NoPanic name)
      λ _ _. check_label_features-NoPanic rest

pub check_feature_counts-NoPanic :
    (counts : List (List ℕ × ℕ)) → NoPanic (check_feature_counts counts)
unfolding check_feature_counts
check_feature_counts-NoPanic [] = tt
check_feature_counts-NoPanic ((guid, refcount) ∷ rest) =
    NoPanic->>= (if refcount == 0 then ok tt else check_read_feature guid) _
      (NoPanic-if (refcount == 0) _ _ tt (check_read_feature-NoPanic guid))
      λ _ _. check_feature_counts-NoPanic rest
