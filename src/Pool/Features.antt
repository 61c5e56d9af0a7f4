-- ===== src/Pool/Features.antt =====
-- The read features of src/pool.rs: which active features the reader understands, and the token of
-- each refusal.
pub mod Gate
pub mod Safe
use lamzfs.Common.{
  ℕ, ◌≡◌, refl, String, Bool, false, ◌||◌, List, [], ◌∷◌, bytes_eq, ◌==◌, if◌then◌else◌,
}
use lamzfs.Common.Bytes.{codes}
use lamzfs.Error.{Location, inconsistent, unsupported_feature}
use lamzfs.Outcome.{Outcome, ok, err, ◌>>◌}
use lamzfs.Phys.{NvList, nil, bad, pair}

abbrev pub read_features_understood : List String
read_features_understood =
    "com.datto:encryption" ∷ "org.illumos:lz4_compress" ∷ "org.freebsd:zstd_compress"
    ∷ "com.delphix:embedded_data" ∷ "com.delphix:hole_birth" ∷ "org.open-zfs:large_blocks"
    ∷ "org.zfsonlinux:large_dnode" ∷ "com.delphix:extensible_dataset"
    ∷ "com.klarasystems:vdev_zaps_v2" ∷ "com.delphix:head_errlog" ∷ "com.delphix:bookmarks"
    ∷ "com.datto:bookmark_v2" ∷ "com.delphix:bookmark_written" ∷ "com.delphix:redaction_bookmarks"
    ∷ "com.joyent:multi_vdev_crash_dump" ∷ "org.zfsonlinux:longname" ∷ "org.illumos:sha512"
    ∷ "org.illumos:skein" ∷ "org.illumos:edonr" ∷ "org.openzfs:blake3" ∷ []

abbrev pub refused_feature_tokens : List String
refused_feature_tokens =
    "raidz_expansion" ∷ "device_removal" ∷ "draid" ∷ "dynamic_gang_header" ∷ "redacted_datasets"
    ∷ "redaction_list_spill" ∷ []

-- `contains`, of a text whose bytes are given.
unfoldable pub contains : List String → List ℕ → Bool
contains [] name = false
contains (t ∷ ts) name = bytes_eq (codes t) name || contains ts name

-- `find(…).copied().unwrap_or(…)`.
unfoldable pub refusal_token : List String → List ℕ → String
refusal_token [] short = "feat_unknown_read_incompat"
refusal_token (t ∷ ts) short = if bytes_eq (codes t) short then t else refusal_token ts short

-- `rsplit(':').next()`: what follows the last colon, or all of it. `tail` is what follows the last
-- colon so far.
after_colon : List ℕ → List ℕ → List ℕ
after_colon short [] = short
after_colon short (b ∷ bs) = after_colon (if b == b':' then bs else short) bs

unfoldable pub short_name : List ℕ → List ℕ
unfolding after_colon
short_name guid = after_colon guid guid

unfoldable pub check_read_feature : List ℕ → Outcome (Unit {0})
unfolding contains refusal_token short_name
check_read_feature guid =
    if contains read_features_understood guid
    then ok tt
    else err (unsupported_feature (refusal_token refused_feature_tokens (short_name guid)))

-- The loop over the label's `features_for_read`.
unfoldable pub check_label_features : NvList → Outcome (Unit {0})
unfolding check_read_feature
check_label_features nil = ok tt
check_label_features (bad rest) = err (inconsistent "nv_decode" (Location.vdev 0))
check_label_features (pair name value rest) = do check_read_feature name; check_label_features rest

-- The loop over the MOS `features_for_read`, in which a count of 0 means unused.
unfoldable pub check_feature_counts : List (List ℕ × ℕ) → Outcome (Unit {0})
unfolding check_read_feature
check_feature_counts [] = ok tt
check_feature_counts ((guid, refcount) ∷ rest) = do
  let active = check_read_feature guid
  if refcount == 0 then ok tt else active
  check_feature_counts rest

refused_tokens :
    (check_read_feature (codes "org.openzfs:raidz_expansion")
      ≡ err (unsupported_feature "raidz_expansion"))
    × (check_read_feature (codes "org.openzfs:draid_failure_domains")
        ≡ err (unsupported_feature "feat_unknown_read_incompat"))
    × (check_read_feature (codes "org.zfsonlinux:longname") ≡ ok tt)
unfolding check_read_feature bytes_eq
refused_tokens = (refl, refl, refl)
