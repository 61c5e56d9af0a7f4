-- ===== src/Vdev/Heal/Children.antt =====
-- The loop of src/vdev.rs over the children of a mirror, one of which has a good copy.
use lamzfs.Common.{
  ℕ, ◌≡◌, ◌≢◌, refl, ap, inl, inr, Option, some, List, [], ◌∷◌, get_elem?, InList, Option-cases,
}
use lamzfs.Error.{Error, io}
use lamzfs.Outcome.{Outcome, ok, err, panic}
use lamzfs.Phys.{Dva, BlockPointerRegular}
use lamzfs.Vendored.{Vendored}
use lamzfs.BlockRead.{PoolMember, read_exact}
use lamzfs.Cksum.{verify_block}
use lamzfs.Cksum.Sound.{verify_block-ne-panic}
use lamzfs.Compress.{decompress}
use lamzfs.Vdev.{judged, checked, try_member, try_children}
use lamzfs.Vdev.Tree.{dva_byte_offset, Attempt, found, failed, or_next}
use lamzfs.Vdev.Copies.{Settled}

pub found-failed : {o : Outcome (List ℕ)} {e : Error} → found o ≡ failed e → ⊥
found-failed h = cc

module _ (v : Vendored) (salt : Option (List ℕ)) (r : BlockPointerRegular) (psize lsize : ℕ) where
  -- A child's device gives a copy at `dva` that verifies.
  pub record GoodCopy (members : List PoolMember) (children : List ℕ) (dva : Dva) : Type 0 where
    pub byte : ℕ
    pub at : dva_byte_offset dva.offset ≡ some byte
    pub child : ℕ
    pub in_order : InList child children
    pub member : PoolMember
    pub is_member : get_elem? members child ≡ some member
    pub raw : List ℕ
    pub reads : read_exact member byte psize dva.vdev "io_block" ≡ ok raw
    pub accepted :
        verify_block v r.checksum_type r.order raw r.checksum_value salt dva.vdev dva.offset ≡ ok tt

  try_member_good :
      (m : PoolMember) (dva : Dva) (byte : ℕ) (raw : List ℕ)
      → read_exact m byte psize dva.vdev "io_block" ≡ ok raw
      → verify_block v r.checksum_type r.order raw r.checksum_value salt dva.vdev dva.offset ≡ ok tt
      → try_member v salt r psize lsize m dva byte ≡ found (decompress v r.compression raw lsize)
  unfolding try_member
  try_member_good m dva byte raw h k = rw (h, checked) (rw (k, judged) refl)

  or_next_found :
      (a : Attempt) (next : Error → Attempt)
      → ((e : Error) → (o : Outcome (List ℕ)) × (next e ≡ found o))
      → (o : Outcome (List ℕ)) × (or_next a next ≡ found o)
  unfolding or_next
  or_next_found (found o) next h = (o, refl)
  or_next_found (failed e) next h = h e

  -- Whatever the other children give, the loop over the children returns.
  pub try_children_good :
      (members : List PoolMember) (dva : Dva) (byte : ℕ) (last : Error) (children : List ℕ) (mi : ℕ)
      (m : PoolMember) (raw : List ℕ)
      → InList mi children
      → get_elem? members mi ≡ some m
      → read_exact m byte psize dva.vdev "io_block" ≡ ok raw
      → verify_block v r.checksum_type r.order raw r.checksum_value salt dva.vdev dva.offset ≡ ok tt
      → (o : Outcome (List ℕ)) × (try_children v salt r psize lsize members dva byte last children
          ≡ found o)
  unfolding try_children
  try_children_good members dva byte last [] mi m raw i e h k = absurd i
  try_children_good members dva byte last (c ∷ rest) mi m raw (inl p) e h k =
      let e' : get_elem? members c ≡ some m = rw (← p) e in
      (
        decompress v r.compression raw lsize,
        rw (e', try_children) (rw (try_member_good m dva byte raw h k, or_next) refl),
      )
  try_children_good members dva byte last (c ∷ rest) mi m raw (inr i) e h k =
      elim (Option-cases (get_elem? members c)) [
        | inl q ↦
            rw (q, try_children) (try_children_good members dva byte last rest mi m raw i e h k)
        | inr (m', q) ↦
            rw (q, try_children)
              (or_next_found (try_member v salt r psize lsize m' dva byte) _
                λ x. try_children_good members dva byte x rest mi m raw i e h k)
      ]

  -- Of the children's bytes at the listed addresses, only these verify.
  abbrev pub OnlyCopy : List PoolMember → List ℕ → List Dva → List ℕ → Type 0
  OnlyCopy members children dvas raw =
      (dva : Dva) (byte child : ℕ) (member : PoolMember) (other : List ℕ)
      → InList dva dvas
      → dva_byte_offset dva.offset ≡ some byte
      → InList child children
      → get_elem? members child ≡ some member
      → read_exact member byte psize dva.vdev "io_block" ≡ ok other
      → verify_block v r.checksum_type r.order other r.checksum_value salt dva.vdev dva.offset
        ≡ ok tt
      → other ≡ raw

  module _ (raw : List ℕ) where
    -- What the read of the block gives.
    abbrev pub decoded : Outcome (List ℕ)
    decoded = decompress v r.compression raw lsize

    try_member-Settled :
        (m : PoolMember) (dva : Dva) (byte : ℕ)
        → ((other : List ℕ)
            → read_exact m byte psize dva.vdev "io_block" ≡ ok other
            → verify_block v r.checksum_type r.order other r.checksum_value salt dva.vdev dva.offset
              ≡ ok tt
            → other ≡ raw)
        → Settled decoded (try_member v salt r psize lsize m dva byte)
    unfolding try_member checked judged
    try_member-Settled m dva byte only = at (read_exact m byte psize dva.vdev "io_block") only
      where
        verdict :
            (other : List ℕ) (o : Outcome (Unit {0}))
            → o ≢ panic
            → (o ≡ ok tt → other ≡ raw)
            → Settled decoded (judged v salt r psize lsize other o)
        verdict other (ok tt) calm same =
            inl (ap (λ bs. found (decompress v r.compression bs lsize)) (same refl))
        verdict other (err e) calm same = inr (e, refl)
        verdict other panic calm same = absurd (calm refl)

        at :
            (o : Outcome (List ℕ))
            → ((other : List ℕ)
                → o ≡ ok other
                → verify_block v r.checksum_type r.order other r.checksum_value salt dva.vdev
                    dva.offset
                  ≡ ok tt
                → other ≡ raw)
            → Settled decoded (checked v salt r psize lsize dva byte o)
        at (ok other) h =
            verdict other
              (verify_block v r.checksum_type r.order other r.checksum_value salt dva.vdev
                dva.offset)
              (verify_block-ne-panic v r.checksum_type r.order other r.checksum_value salt dva.vdev
                dva.offset)
              (h other refl)
        at (err e) h = inr (io "io_block" dva.vdev byte, refl)
        at panic h = inr (io "io_block" dva.vdev byte, refl)

    or_next-Settled :
        (a : Attempt) (next : Error → Attempt)
        → Settled decoded a
        → ((e : Error) → Settled decoded (next e))
        → Settled decoded (or_next a next)
    unfolding or_next
    or_next-Settled a next (inl h) k = rw (h, or_next) (inl refl)
    or_next-Settled a next (inr (e, h)) k = rw (h, or_next) (k e)

    module _ (members : List PoolMember) (dvas : List Dva) (dva : Dva) (byte : ℕ) where
      pub try_children-Settled :
          InList dva dvas
          → dva_byte_offset dva.offset ≡ some byte
          → (children : List ℕ) → OnlyCopy members children dvas raw
          → (last : Error)
          → Settled decoded (try_children v salt r psize lsize members dva byte last children)
      unfolding try_children
      try_children-Settled i at [] only last = inr (last, refl)
      try_children-Settled i at (c ∷ rest) only last =
          let fewer : OnlyCopy members rest dvas raw =
            λ d b child m other l a j. only d b child m other l a (inr j) in
          elim (Option-cases (get_elem? members c)) [
            | inl q ↦ rw (q, try_children) (try_children-Settled i at rest fewer last)
            | inr (m, q) ↦
                rw (q, try_children)
                  (or_next-Settled (try_member v salt r psize lsize m dva byte) _
                    (try_member-Settled m dva byte
                      (λ other. only dva byte c m other i at (inl refl) q))
                    λ e. try_children-Settled i at rest fewer e)
          ]
