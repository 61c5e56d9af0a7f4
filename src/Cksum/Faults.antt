-- ===== src/Cksum/Faults.antt =====
-- `verify_block` of src/cksum.rs ends with an answer or a fault, whatever the block holds.
use lamzfs.Common.{ℕ, Option, none, some, List, bytes_eq}
use lamzfs.Error.{checksum_mismatch}
use lamzfs.Outcome.{ok_or}
use lamzfs.Outcome.Alike.{MayFault, MayFault->>=, MayFault-ok_or, MayFault-if}
use lamzfs.Phys.{
  EndianOrder, ChecksumType, off, label, fletcher2, fletcher4, sha256, sha512_256, blake3,
}
use lamzfs.Vendored.{Vendored}
use lamzfs.Cksum.{computed_words, compare_words, verify_block}

compare_words-MayFault :
    (kind : ChecksumType) (expected : List ℕ) (vdev offset : ℕ) (o : Option (List ℕ))
    → MayFault (compare_words kind expected vdev offset o)
unfolding compare_words
compare_words-MayFault kind expected vdev offset none = tt
compare_words-MayFault kind expected vdev offset (some words) =
    MayFault-if (bytes_eq words expected) _ _ tt tt

computed_words-MayFault :
    (v : Vendored) (kind : ChecksumType) (order : EndianOrder) (bytes : List ℕ)
    (salt : Option (List ℕ)) (vdev offset : ℕ)
    → MayFault (computed_words v kind order bytes salt vdev offset)
unfolding computed_words
computed_words-MayFault v off order bytes salt vdev offset = tt
computed_words-MayFault v fletcher2 order bytes salt vdev offset =
    MayFault->>= (ok_or (v.fletcher2_hash bytes order) (checksum_mismatch vdev offset "csum_init"))
      _ (MayFault-ok_or (v.fletcher2_hash bytes order) _ tt) λ words. tt
computed_words-MayFault v fletcher4 order bytes salt vdev offset =
    MayFault->>= (ok_or (v.fletcher4_hash bytes order) (checksum_mismatch vdev offset "csum_init"))
      _ (MayFault-ok_or (v.fletcher4_hash bytes order) _ tt) λ words. tt
computed_words-MayFault v sha256 order bytes salt vdev offset =
    MayFault->>= (ok_or (v.sha256_hash bytes order) (checksum_mismatch vdev offset "csum_init")) _
      (MayFault-ok_or (v.sha256_hash bytes order) _ tt) λ words. tt
computed_words-MayFault v label order bytes salt vdev offset =
    MayFault->>= (ok_or (v.sha256_hash bytes order) (checksum_mismatch vdev offset "csum_init")) _
      (MayFault-ok_or (v.sha256_hash bytes order) _ tt) λ words. tt
computed_words-MayFault v sha512_256 order bytes salt vdev offset =
    MayFault-if v.features.sha512 _ _ tt tt
computed_words-MayFault v blake3 order bytes none vdev offset =
    MayFault-if v.features.blake3 _ _ tt tt
computed_words-MayFault v blake3 order bytes (some salt) vdev offset =
    MayFault-if v.features.blake3 _ _ tt tt
computed_words-MayFault v _ order bytes salt vdev offset = tt

pub verify_block-MayFault :
    (v : Vendored) (kind : ChecksumType) (order : EndianOrder) (bytes expected : List ℕ)
    (salt : Option (List ℕ)) (vdev offset : ℕ)
    → MayFault (verify_block v kind order bytes expected salt vdev offset)
unfolding verify_block
verify_block-MayFault v kind order bytes expected salt vdev offset =
    MayFault->>= (computed_words v kind order bytes salt vdev offset) _
      (computed_words-MayFault v kind order bytes salt vdev offset)
      (compare_words-MayFault kind expected vdev offset)
