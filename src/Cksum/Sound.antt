-- ===== src/Cksum/Sound.antt =====
-- What `verify_block` accepts: exactly the blocks whose checksum, by the pointer's algorithm, is the
-- one that the pointer stores.
use lamzfs.Common.{
  ℕ, ◌≡◌, ◌≢◌, refl, ◌↔◌, Option, none, some, List, arith, bytes_eq_iff, Bool, true, false,
  if◌then◌else◌,
}
use lamzfs.Error.{Error}
use lamzfs.Outcome.{Outcome, ok, err, panic, ok_or, ◌>>=◌}
use lamzfs.Phys.{
  EndianOrder, ChecksumType, off, label, fletcher2, fletcher4, sha256, sha512_256, blake3,
}
use lamzfs.Vendored.{Vendored}
use lamzfs.Cksum.{computed_words, compare_words, verify_block, sha512_256_words, blake3_words}

-- The checksum that the algorithm gives the block, if the build and the pool can compute it.
-- An independent table of the algorithms, with no byte of the pointer in it.
pub checksum_of : Vendored → ChecksumType → EndianOrder → List ℕ → Option (List ℕ) → Option (List ℕ)
checksum_of v fletcher2 order bytes salt = v.fletcher2_hash bytes order
checksum_of v fletcher4 order bytes salt = v.fletcher4_hash bytes order
checksum_of v sha256 order bytes salt = v.sha256_hash bytes order
checksum_of v label order bytes salt = v.sha256_hash bytes order
checksum_of v sha512_256 order bytes salt =
    if v.features.sha512 then some (sha512_256_words v bytes order) else none
checksum_of v blake3 order bytes none = none
checksum_of v blake3 order bytes (some salt) =
    if v.features.blake3 then some (blake3_words v bytes salt order) else none
checksum_of v _ order bytes salt = none

-- An accepted block: no checksum is stored, or the computed one is the expected one.
abbrev pub Accepts :
    Vendored → ChecksumType → EndianOrder → List ℕ → List ℕ → Option (List ℕ) → Type 0
Accepts v off order bytes expected salt = Unit
Accepts v kind order bytes expected salt = checksum_of v kind order bytes salt ≡ some expected

compare_iff :
    (kind : ChecksumType) (expected : List ℕ) (vdev offset : ℕ) (words : List ℕ)
    → (compare_words kind expected vdev offset (some words) ≡ ok tt)
      ↔ (◌≡◌ {A = Option (List ℕ)} (some words) (some expected))
unfolding compare_words
compare_iff kind expected vdev offset words = (
  λ h. ground (arith, (bytes_eq_iff words expected).0),
  λ e. ground (arith, (bytes_eq_iff words expected).1),
)

hash_iff :
    (o : Option (List ℕ)) (e : Error) (kind : ChecksumType) (expected : List ℕ) (vdev offset : ℕ)
    → ((ok_or o e >>= (λ words. ok (some words)) >>= compare_words kind expected vdev offset)
        ≡ ok tt)
      ↔ (o ≡ some expected)
hash_iff none e kind expected vdev offset = ((λ h. cc), (λ h. cc))
hash_iff (some words) e kind expected vdev offset = compare_iff kind expected vdev offset words

digest_iff :
    (b : Bool) (e : Error) (words : List ℕ) (kind : ChecksumType) (expected : List ℕ)
    (vdev offset : ℕ)
    → (((if b then ok (some words) else err e) >>= compare_words kind expected vdev offset) ≡ ok tt)
      ↔ ((if b then some words else none) ≡ some expected)
digest_iff true e words kind expected vdev offset = compare_iff kind expected vdev offset words
digest_iff false e words kind expected vdev offset = ((λ h. cc), (λ h. cc))

-- A block is accepted exactly if no checksum is stored, or its checksum by the pointer's algorithm
-- is the stored one.
pub verify_block_iff :
    (v : Vendored) (kind : ChecksumType) (order : EndianOrder) (bytes expected : List ℕ)
    (salt : Option (List ℕ)) (vdev offset : ℕ)
    → (verify_block v kind order bytes expected salt vdev offset ≡ ok tt)
      ↔ Accepts v kind order bytes expected salt
unfolding verify_block checksum_of
verify_block_iff v off order bytes expected salt vdev offset = ((λ h. tt), (λ h. refl))
verify_block_iff v fletcher2 order bytes expected salt vdev offset =
    hash_iff (v.fletcher2_hash bytes order) _ fletcher2 expected vdev offset
verify_block_iff v fletcher4 order bytes expected salt vdev offset =
    hash_iff (v.fletcher4_hash bytes order) _ fletcher4 expected vdev offset
verify_block_iff v sha256 order bytes expected salt vdev offset =
    hash_iff (v.sha256_hash bytes order) _ sha256 expected vdev offset
verify_block_iff v label order bytes expected salt vdev offset =
    hash_iff (v.sha256_hash bytes order) _ label expected vdev offset
verify_block_iff v sha512_256 order bytes expected salt vdev offset =
    digest_iff v.features.sha512 _ (sha512_256_words v bytes order) sha512_256 expected vdev offset
verify_block_iff v blake3 order bytes expected none vdev offset = ((λ h. ground arith), (λ h. cc))
verify_block_iff v blake3 order bytes expected (some salt) vdev offset =
    digest_iff v.features.blake3 _ (blake3_words v bytes salt order) blake3 expected vdev offset
verify_block_iff v _ order bytes expected salt vdev offset = ((λ h. cc), (λ h. cc))

compare_words-ne-panic :
    (kind : ChecksumType) (expected : List ℕ) (vdev offset : ℕ) (o : Option (List ℕ))
    → compare_words kind expected vdev offset o ≢ panic
unfolding compare_words
compare_words-ne-panic kind expected vdev offset none h = cc
compare_words-ne-panic kind expected vdev offset (some words) h = ground arith

bind-compare_words-ne-panic :
    (kind : ChecksumType) (expected : List ℕ) (vdev offset : ℕ) (m : Outcome (Option (List ℕ)))
    → m ≢ panic
    → (m >>= compare_words kind expected vdev offset) ≢ panic
bind-compare_words-ne-panic kind expected vdev offset (ok o) h =
    compare_words-ne-panic kind expected vdev offset o
bind-compare_words-ne-panic kind expected vdev offset (err e) h = λ p. cc
bind-compare_words-ne-panic kind expected vdev offset panic h = λ p. h refl

computed_words-ne-panic :
    (v : Vendored) (kind : ChecksumType) (order : EndianOrder) (bytes : List ℕ)
    (salt : Option (List ℕ)) (vdev offset : ℕ)
    → computed_words v kind order bytes salt vdev offset ≢ panic
unfolding computed_words
computed_words-ne-panic v blake3 order bytes none vdev offset h = ground arith
computed_words-ne-panic v blake3 order bytes (some salt) vdev offset h = ground arith
computed_words-ne-panic v _ order bytes salt vdev offset h = ground arith

pub verify_block-ne-panic :
    (v : Vendored) (kind : ChecksumType) (order : EndianOrder) (bytes expected : List ℕ)
    (salt : Option (List ℕ)) (vdev offset : ℕ)
    → verify_block v kind order bytes expected salt vdev offset ≢ panic
unfolding verify_block
verify_block-ne-panic v kind order bytes expected salt vdev offset =
    bind-compare_words-ne-panic kind expected vdev offset
      (computed_words v kind order bytes salt vdev offset)
      (computed_words-ne-panic v kind order bytes salt vdev offset)
