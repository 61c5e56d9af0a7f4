-- ===== src/BlockRead.antt =====
-- src/block_read.rs: one pool member, and the read that maps a device failure to a typed error.
-- A device is its answer to each read; reads do not change what later reads return.
use lamzfs.Common.{
  ℕ, ◌≡◌, inl, inr, Option-cases, String, Option, none, some, List, ◌++◌, arith, length, take,
  replicate, length-take, length-append, length-replicate,
}
use lamzfs.Error.{io}
use lamzfs.Outcome.{Outcome, ok, err, NoPanic}

-- `reader offset len` is the bytes that fill the buffer, or `none` for an error.
pub record PoolMember : Type 0 where
  pub reader : ℕ → ℕ → Option (List ℕ)
  pub device_size_bytes : ℕ

-- A buffer of `n` zeroed bytes, overwritten from the front: its length is always `n`.
unfoldable pub fill : ℕ → List ℕ → List ℕ
fill n bs = take n (bs ++ replicate n 0)

pub length-fill : (n : ℕ) (bs : List ℕ) → length (fill n bs) ≡ n
unfolding fill
length-fill n bs = omega (
  arith,
  length-take n (bs ++ replicate n 0),
  length-append bs (replicate n 0),
  length-replicate {A = ℕ} n 0,
)

unfoldable pub read_exact : PoolMember → ℕ → ℕ → ℕ → String → Outcome (List ℕ)
read_exact m offset len vdev token = elim (m.reader offset len) [
  | none ↦ err (io token vdev offset)
  | some bs ↦ ok (fill len bs)
]

pub length-read_exact :
    (m : PoolMember) (offset len vdev : ℕ) (token : String) {buf : List ℕ}
    → read_exact m offset len vdev token ≡ ok buf
    → length buf ≡ len
unfolding read_exact
length-read_exact m offset len vdev token h = elim (Option-cases (m.reader offset len)) [
  | inl e ↦ ground arith
  | inr (bs, e) ↦ ground (arith, length-fill len bs)
]

pub read_exact-NoPanic :
    (m : PoolMember) (offset len vdev : ℕ) (token : String)
    → NoPanic (read_exact m offset len vdev token)
unfolding read_exact
read_exact-NoPanic m offset len vdev token = elim (Option-cases (m.reader offset len)) [
  | inl e ↦ rw (e, NoPanic) tt
  | inr (bs, e) ↦ rw (e, NoPanic) tt
]
