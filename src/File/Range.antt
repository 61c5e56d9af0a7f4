-- ===== src/File/Range.antt =====
-- `read_dnode_range` of src/file.rs: what it returns, byte for byte, and when.
use native.Mathlib.Nat.{
  div-add-mod', mod-lt, mul-add-div_right, mul-add-mod_self_right, div-eq_of_lt, mod-eq_of_lt,
}
use lamzfs.Common.{
  ℕ, zero, suc, ◌+◌, ◌-◌, ◌*◌, ◌/◌, ◌%◌, ◌≤◌, ◌<◌, ◌≡◌, refl, ap, ◌∙◌, min, Option, none, some,
  List, ◌++◌, arith, ltb, ◌==◌, length, get_elem?, get_range, checked_add, length-append,
  length-replicate, length-get_range, get_elem?-append_left, get_elem?-append_right,
  get_elem?-replicate, get_elem?-get_range, Bool-cases, inl, inr,
}
use lamzfs.Error.{Error, Location, inconsistent}
use lamzfs.Outcome.{
  Outcome, ok, err, panic, ok_or, refuse_if, ok_or-eq-ok, IfOk, IfOk->>=, IfOk-elim, >>-eq-ok,
  refuse_if-eq-ok,
}
use lamzfs.Phys.{EndianOrder, Dnode}
use lamzfs.Vendored.{Vendored}
use lamzfs.BlockRead.{PoolMember}
use lamzfs.Vdev.Tree.{Topology}
use lamzfs.File.{read_dnode_block, block_piece, range_loop, read_dnode_range}

-- Byte `i` of what a block read gave: zero in a hole, and nothing past the block's end.
abbrev pub byte_of : Outcome (Option (List ℕ)) → ℕ → Option ℕ
byte_of (ok none) i = some 0
byte_of (ok (some block)) i = get_elem? block i
byte_of (err e) i = none
byte_of panic i = none

abbrev pub range_overflow : Error
range_overflow = inconsistent "range_overflow" (Location.dnode 0)

-- A position within the same block.
pub same_block :
    (d p j : ℕ) → 0 < d → p % d + j < d → ((p + j) / d ≡ p / d) × ((p + j) % d ≡ p % d + j)
same_block d p j pos h =
    let e : p + j ≡ p / d * d + (p % d + j) = omega (arith, div-add-mod' p d) in
    (
      ap (λ n. n / d) e
          ∙ mul-add-div_right pos (p / d) (p % d + j)
          ∙ ap (λ n. p / d + n) (div-eq_of_lt h)
          ∙ omega arith,
      ap (λ n. n % d) e ∙ mul-add-mod_self_right (p / d) d (p % d + j) ∙ mod-eq_of_lt h,
    )

module _ (v : Vendored) (members : List PoolMember) (topo : Topology) (order : EndianOrder)
    (dnode : Dnode) where
  pub block_piece-bytes :
      (block : Option (List ℕ)) (within want : ℕ) {piece : List ℕ}
      → block_piece v members topo order block within want ≡ ok piece
      → (length piece ≡ want)
        × ((j : ℕ) → j < want → get_elem? piece j ≡ byte_of (ok block) (within + j))
  unfolding block_piece
  block_piece-bytes none within want h = (
    ground (arith, length-replicate {A = ℕ} want 0),
    λ j l. ground (arith, get_elem?-replicate {A = ℕ} want j 0 l),
  )
  block_piece-bytes (some block) within want h =
      let r = ok_or-eq-ok (get_range block within want) _ h in
      (length-get_range block within want r, λ j l. get_elem?-get_range block within want j r l)

  -- The byte of the object at a position, by way of its logical block.
  abbrev pub logical_byte : ℕ → ℕ → Option ℕ
  logical_byte dbsz pos =
      byte_of (read_dnode_block v members topo order dnode (pos / dbsz)) (pos % dbsz)

  pub logical_byte_within :
      (dbsz p j : ℕ) {block : Option (List ℕ)}
      → 0 < dbsz
      → p % dbsz + j < dbsz
      → read_dnode_block v members topo order dnode (p / dbsz) ≡ ok block
      → byte_of (ok block) (p % dbsz + j) ≡ logical_byte dbsz (p + j)
  logical_byte_within dbsz p j pos h e = let (q, r) = same_block dbsz p j pos h in rw (q, r, e) refl

  -- The bytes from `filled` on.
  abbrev pub Bytes : ℕ → ℕ → ℕ → ℕ → List ℕ → Type 0
  Bytes dbsz off len filled bs =
      (length bs ≡ len - filled)
      × ((k : ℕ) → k < len - filled → get_elem? bs k ≡ logical_byte dbsz (off + filled + k))

  Bytes-append :
      (dbsz off len filled want : ℕ) (piece rest : List ℕ)
      → want ≤ len - filled
      → length piece ≡ want
      → ((k : ℕ) → k < want → get_elem? piece k ≡ logical_byte dbsz (off + filled + k))
      → Bytes dbsz off len (filled + want) rest
      → Bytes dbsz off len filled (piece ++ rest)
  Bytes-append dbsz off len filled want piece rest fits l here (m, there) = (
    omega (arith, length-append piece rest),
    λ k below. elim (Bool-cases (ltb k want)) [
      | inl e ↦ get_elem?-append_left piece rest k (ground (arith, l)) ∙ here k (ground arith)
      | inr e ↦
          let split : k ≡ length piece + (k - want) = ground (arith, l) in
          let at : off + (filled + want) + (k - want) ≡ off + filled + k = ground arith in
          ap (get_elem? (piece ++ rest)) split
          ∙ get_elem?-append_right piece rest (k - want)
          ∙ there (k - want) (ground arith)
          ∙ ap (logical_byte dbsz) at
    ],
  )

  -- One round of the loop.
  round :
      (dbsz off len filled p : ℕ) (rest : List ℕ) {block : Option (List ℕ)} {piece : List ℕ}
      → 0 < dbsz
      → ok_or (checked_add off filled) range_overflow ≡ ok p
      → read_dnode_block v members topo order dnode (p / dbsz) ≡ ok block
      → block_piece v members topo order block (p % dbsz) (min (dbsz - p % dbsz) (len - filled))
        ≡ ok piece
      → Bytes dbsz off len (filled + min (dbsz - p % dbsz) (len - filled)) rest
      → Bytes dbsz off len filled (piece ++ rest)
  round dbsz off len filled p rest {block} {piece} pos ep eb ec there =
      let e : p ≡ off + filled = ground arith in
      let want = min (dbsz - p % dbsz) (len - filled) in
      let (l, here) = block_piece-bytes block (p % dbsz) want ec in
      Bytes-append dbsz off len filled want piece rest (omega arith) l
        (λ k below.
          here k below
          ∙ logical_byte_within dbsz p k pos (omega (arith, mod-lt p pos)) eb
          ∙ ap (λ n. logical_byte dbsz (n + k)) e)
        there

  pub range_loop-Bytes :
      (dbsz off len : ℕ)
      → 0 < dbsz
      → (fuel filled : ℕ)
      → IfOk
          (Bytes dbsz off len filled)
          (range_loop v members topo order dnode dbsz off len fuel filled)
  unfolding range_loop
  range_loop-Bytes dbsz off len pos zero filled = tt
  range_loop-Bytes dbsz off len pos (suc fuel) filled = elim (Bool-cases (ltb filled len)) [
    | inl e ↦
        rw (e, range_loop)
          (IfOk->>= (Bytes dbsz off len filled) (ok_or (checked_add off filled) range_overflow) _
            λ p ep.
              IfOk->>= (Bytes dbsz off len filled)
                (read_dnode_block v members topo order dnode (p / dbsz)) _
                λ block eb.
                  IfOk->>= (Bytes dbsz off len filled)
                    (block_piece v members topo order block (p % dbsz)
                      (min (dbsz - p % dbsz) (len - filled)))
                    _
                    λ piece ec.
                      IfOk->>= (Bytes dbsz off len filled)
                        (range_loop v members topo order dnode dbsz off len fuel
                          (filled + min (dbsz - p % dbsz) (len - filled)))
                        _
                        λ rest er. round dbsz off len filled p rest pos ep eb ec (
                          IfOk-elim
                            (Bytes dbsz off len (filled + min (dbsz - p % dbsz) (len - filled))) _
                            (range_loop-Bytes dbsz off len pos fuel
                              (filled + min (dbsz - p % dbsz) (len - filled)))
                            rest er))
    | inr e ↦ rw (e, range_loop) (ground arith, λ k l. absurd (ground arith))
  ]

  pub read_dnode_range-block_size :
      (off len : ℕ) {bs : List ℕ}
      → read_dnode_range v members topo order dnode off len ≡ ok bs
      → (0 < dnode.data_block_size_sectors)
        × (range_loop v members topo order dnode
              (dnode.data_block_size_sectors * 512)
              off
              len
              (len + 1)
              0
            ≡ ok bs)
  unfolding read_dnode_range
  read_dnode_range-block_size off len h =
      let dbsz = dnode.data_block_size_sectors * 512 in
      let (c, g) =
        >>-eq-ok (refuse_if (dbsz == 0) (inconsistent "dnode_dbsz0" (Location.dnode 0))) _ h in
      let nonzero = refuse_if-eq-ok (dbsz == 0) (inconsistent "dnode_dbsz0" (Location.dnode 0)) c in
      (ground arith, g)

  -- What a range read returns is as long as was asked, and its byte `k` is byte `off + k` of the
  -- object: that byte of its logical block, or zero in a hole.
  pub read_dnode_range-bytes :
      (off len : ℕ) (bs : List ℕ)
      → read_dnode_range v members topo order dnode off len ≡ ok bs
      → (length bs ≡ len)
        × ((k : ℕ)
            → k < len
            → get_elem? bs k ≡ logical_byte (dnode.data_block_size_sectors * 512) (off + k))
  read_dnode_range-bytes off len bs h =
      let dbsz = dnode.data_block_size_sectors * 512 in
      let (pos, g) = read_dnode_range-block_size off len h in
      let (l, b) =
        IfOk-elim (Bytes dbsz off len 0) _ (range_loop-Bytes dbsz off len (omega arith) (len + 1) 0)
          bs g in
      let z : off + 0 ≡ off = omega arith in
      (omega arith, λ k below. b k (omega arith) ∙ ap (λ n. logical_byte dbsz (n + k)) z)
