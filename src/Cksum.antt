-- ===== src/Cksum.antt =====
-- src/cksum.rs: the checksum of a block's physical bytes, against the one in its block pointer.
pub mod Sound
pub mod Faults
use lamzfs.Common.{
  ℕ, ◌*◌, String, Option, none, some, List, [], ◌∷◌, bytes_eq, ◌==◌, if◌then◌else◌, length, take,
  drop,
}
use lamzfs.Common.Bytes.{from_be_bytes, from_le_bytes}
use lamzfs.Error.{unsupported_feature, checksum_mismatch}
use lamzfs.Outcome.{Outcome, ok, err, ok_or, ◌>>=◌}
use lamzfs.Phys.{
  EndianOrder, big, little, ChecksumType, inherit, on, off, label, gang_header, zilog, fletcher2,
  fletcher4, sha256, zilog2, no_parity, sha512_256, skein, edonr, blake3,
}
use lamzfs.Vendored.{Vendored}

unfoldable pub checksum_name : ChecksumType → String
checksum_name fletcher2 = "csum_fletcher2"
checksum_name fletcher4 = "csum_fletcher4"
checksum_name sha256 = "csum_sha256"
checksum_name label = "csum_sha256"
checksum_name sha512_256 = "csum_sha512"
checksum_name skein = "csum_skein"
checksum_name edonr = "csum_edonr"
checksum_name blake3 = "csum_blake3"
checksum_name _ = "csum_unsupported"

-- A word in the byte order of the pool.
unfoldable pub from_bytes : EndianOrder → List ℕ → ℕ
from_bytes big bs = from_be_bytes bs
from_bytes little bs = from_le_bytes bs

-- Word `k` of the digest: `chunks_exact` gives it only if all of its 8 bytes are there.
digest_word : List ℕ → EndianOrder → ℕ → ℕ
unfolding from_bytes
digest_word digest order k =
    let chunk = take 8 (drop (8 * k) digest) in
    if length chunk == 8 then from_bytes order chunk else 0

pub digest_words : List ℕ → EndianOrder → List ℕ
unfolding digest_word
digest_words digest order =
    digest_word digest order 0
    ∷ digest_word digest order 1
    ∷ digest_word digest order 2
    ∷ digest_word digest order 3
    ∷ []

-- The comparison at the end; there is nothing to compare where no checksum is stored.
pub compare_words : ChecksumType → List ℕ → ℕ → ℕ → Option (List ℕ) → Outcome (Unit {0})
compare_words kind expected vdev offset none = ok tt
compare_words kind expected vdev offset (some words) =
    if bytes_eq words expected
    then ok tt
    else err (checksum_mismatch vdev offset (checksum_name kind))

module _ (v : Vendored) where
  pub sha512_256_words : List ℕ → EndianOrder → List ℕ
  sha512_256_words bytes order = digest_words (v.sha512_256_digest bytes) order

  pub blake3_words : List ℕ → List ℕ → EndianOrder → List ℕ
  blake3_words bytes salt order = digest_words (v.blake3_keyed_hash salt bytes) order

  -- What `computed` is bound to, or the early return: `ok none` skips the comparison.
  pub computed_words :
      ChecksumType → EndianOrder → List ℕ → Option (List ℕ) → ℕ → ℕ → Outcome (Option (List ℕ))
  computed_words off order bytes salt vdev offset = ok none
  computed_words fletcher2 order bytes salt vdev offset = do
    words ← ok_or (v.fletcher2_hash bytes order) (checksum_mismatch vdev offset "csum_init")
    ok (some words)
  computed_words fletcher4 order bytes salt vdev offset = do
    words ← ok_or (v.fletcher4_hash bytes order) (checksum_mismatch vdev offset "csum_init")
    ok (some words)
  computed_words sha256 order bytes salt vdev offset = do
    words ← ok_or (v.sha256_hash bytes order) (checksum_mismatch vdev offset "csum_init")
    ok (some words)
  computed_words label order bytes salt vdev offset = do
    words ← ok_or (v.sha256_hash bytes order) (checksum_mismatch vdev offset "csum_init")
    ok (some words)
  computed_words sha512_256 order bytes salt vdev offset =
      if v.features.sha512
      then ok (some (sha512_256_words bytes order))
      else err (unsupported_feature (checksum_name sha512_256))
  computed_words blake3 order bytes none vdev offset =
      if v.features.blake3
      then err (unsupported_feature "csum_blake3_no_salt")
      else err (unsupported_feature (checksum_name blake3))
  computed_words blake3 order bytes (some salt) vdev offset =
      if v.features.blake3
      then ok (some (blake3_words bytes salt order))
      else err (unsupported_feature (checksum_name blake3))
  computed_words kind order bytes salt vdev offset = err (unsupported_feature (checksum_name kind))

  unfoldable pub verify_block :
      ChecksumType → EndianOrder → List ℕ → List ℕ → Option (List ℕ) → ℕ → ℕ → Outcome (Unit {0})
  unfolding computed_words compare_words checksum_name sha512_256_words blake3_words digest_words
  verify_block kind order bytes expected salt vdev offset = do
    computed ← computed_words kind order bytes salt vdev offset
    compare_words kind expected vdev offset computed
