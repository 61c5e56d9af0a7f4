-- ===== src/Error.antt =====
-- src/error.rs: the error surface, and the stable token that each error carries.
use lamzfs.Common.{ℕ, String}

pub data LabelReason : Type 0 where
  bad_magic bad_checksum no_labels pool_guid_mismatch not_a_zfs_member : LabelReason

pub data Location : Type 0 where
  vdev : ℕ → Location
  uberblock : Location
  mos : Location
  dsl : ℕ → Location
  dnode : ℕ → Location
  indirect : ℕ → ℕ → Location
  zap : ℕ → Location
  zpl : ℕ → Location

-- The fields stand in the source's order: `io token vdev offset`, `checksum_mismatch vdev offset
-- what`, `inconsistent token where`, `bad_compression comp token`, `file_too_large size max`.
pub data Error : Type 0 where
  io : String → ℕ → ℕ → Error
  bad_label : LabelReason → Error
  no_valid_uberblock : Error
  unsupported_feature : String → Error
  unsupported_topology : String → Error
  unsupported : String → Error
  checksum_mismatch : ℕ → ℕ → String → Error
  inconsistent : String → Location → Error
  unsupported_compression : ℕ → Error
  bad_compression : ℕ → String → Error
  not_found : String → Error
  not_a_regular_file : Error
  not_a_directory : Error
  not_a_symlink : Error
  file_too_large : ℕ → ℕ → Error
  out_of_memory : String → Error

unfoldable pub label_token : LabelReason → String
label_token bad_magic = "label_bad_magic"
label_token bad_checksum = "label_bad_checksum"
label_token no_labels = "label_none"
label_token pool_guid_mismatch = "label_pool_guid_mismatch"
label_token not_a_zfs_member = "label_not_a_member"

unfoldable pub token : Error → String
unfolding label_token
token (io t _ _) = t
token (inconsistent t _) = t
token (bad_compression _ t) = t
token (bad_label r) = label_token r
token no_valid_uberblock = "no_valid_uberblock"
token (unsupported_feature t) = t
token (unsupported_topology t) = t
token (unsupported t) = t
token (checksum_mismatch _ _ what) = what
token (unsupported_compression _) = "comp_unsupported"
token (not_found _) = "not_found"
token not_a_regular_file = "not_a_regular_file"
token not_a_directory = "not_a_directory"
token not_a_symlink = "not_a_symlink"
token (file_too_large _ _) = "file_too_large"
token (out_of_memory site) = site
