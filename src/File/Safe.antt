-- ===== src/File/Safe.antt =====
-- src/file.rs: no read of a block or of a range panics, and the fuel of the range loop is enough.
use lamzfs.Common.{
  ℕ, zero, suc, ◌+◌, ◌-◌, ◌*◌, ◌/◌, ◌%◌, ◌^◌, ◌<◌, ◌≢◌, min, Option, none, some, ◌&&◌, List, arith,
  ltb, ◌==◌, if◌then◌else◌, get_range, checked_add, Bool-cases, inl, inr,
}
use native.Mathlib.Nat.{mod-lt}
use lamzfs.Outcome.{
  ok, panic, ok_or, refuse_if, ◌>>=◌, NoPanic, NoPanic->>=, NoPanic-ok_or, NoPanic-refuse_if,
  NoPanic-if, ne-panic, refuse_if-eq-ok,
}
use lamzfs.Phys.{EndianOrder, BlockPointer, Dnode}
use lamzfs.Vendored.{Vendored}
use lamzfs.BlockRead.{PoolMember}
use lamzfs.Vdev.{read_block_pointer}
use lamzfs.Vdev.Safe.{read_block_pointer-NoPanic}
use lamzfs.Vdev.Tree.{Topology}
use lamzfs.File.{
  blkptr_size, epb_shift, dn_max_levels, pointer_at, descend, read_top, read_dnode_block,
  block_piece, range_loop, read_dnode_range,
}

module _ (v : Vendored) (members : List PoolMember) (topo : Topology) (order : EndianOrder) where
  descend-NoPanic :
      (shift blkid l : ℕ) (current : List ℕ)
      → NoPanic (descend v members topo order shift blkid l current)
  unfolding descend
  descend-NoPanic shift blkid zero current = tt
  descend-NoPanic shift blkid (suc l) current =
      NoPanic->>=
        (ok_or (get_range current (blkid / 2 ^ (shift * l) % 2 ^ shift * blkptr_size) blkptr_size)
          _)
        _ (NoPanic-ok_or _ _)
        λ slice _.
          NoPanic->>= (ok_or (v.block_pointer_decode order slice) _) _ (NoPanic-ok_or _ _)
            λ child _. at child (descend-NoPanic shift blkid l)
    where
      at :
          (child : Option BlockPointer)
          → ((block : List ℕ) → NoPanic (descend v members topo order shift blkid l block))
          → NoPanic (elim child [
            | none ↦ ok none
            | some bp ↦ read_block_pointer v members topo bp >>= λ block.
                if l == 0 then ok (some block) else descend v members topo order shift blkid l block
          ])
      at none h = tt
      at (some bp) h =
          NoPanic->>= (read_block_pointer v members topo bp) _
            (read_block_pointer-NoPanic v members topo bp)
            λ block _. NoPanic-if (l == 0) _ _ tt (h block)

  read_top-NoPanic :
      (dnode : Dnode) (blkid : ℕ) → NoPanic (read_top v members topo order dnode blkid)
  unfolding read_top
  read_top-NoPanic dnode blkid =
      at (pointer_at dnode.ptrs (blkid / 2 ^ (epb_shift dnode * (dnode.levels - 1))))
    where
      at :
          (top : Option BlockPointer)
          → NoPanic (elim top [
            | none ↦ ok none
            | some bp ↦ read_block_pointer v members topo bp >>= λ block.
                if dnode.levels == 1
                then ok (some block)
                else descend v members topo order (epb_shift dnode) blkid (dnode.levels - 1) block
          ])
      at none = tt
      at (some bp) =
          NoPanic->>= (read_block_pointer v members topo bp) _
            (read_block_pointer-NoPanic v members topo bp)
            λ block _.
              NoPanic-if (dnode.levels == 1) _ _ tt
                (descend-NoPanic (epb_shift dnode) blkid (dnode.levels - 1) block)

  pub read_dnode_block-NoPanic :
      (dnode : Dnode) (blkid : ℕ) → NoPanic (read_dnode_block v members topo order dnode blkid)
  unfolding read_dnode_block
  read_dnode_block-NoPanic dnode blkid = NoPanic-if (dnode.levels == 0) _ _ tt (
      NoPanic-if (ltb dn_max_levels dnode.levels) _ _ tt (
        NoPanic-if (ltb (epb_shift dnode * (dnode.levels - 1)) 64 && ltb (epb_shift dnode) 64) _ _
          (read_top-NoPanic dnode blkid) tt))

  block_piece-NoPanic :
      (block : Option (List ℕ)) (within want : ℕ)
      → NoPanic (block_piece v members topo order block within want)
  unfolding block_piece
  block_piece-NoPanic none within want = tt
  block_piece-NoPanic (some block) within want = NoPanic-ok_or (get_range block within want) _

  range_loop-NoPanic :
      (dnode : Dnode) (dbsz off len : ℕ)
      → 0 < dbsz
      → (fuel filled : ℕ) → len - filled < fuel
      → NoPanic (range_loop v members topo order dnode dbsz off len fuel filled)
  unfolding range_loop
  range_loop-NoPanic dnode dbsz off len pos zero filled h = omega arith
  range_loop-NoPanic dnode dbsz off len pos (suc fuel) filled h =
      elim (Bool-cases (ltb filled len)) [
        | inr e ↦ rw (e, range_loop) tt
        | inl e ↦
            rw (e, range_loop)
              (NoPanic->>= (ok_or (checked_add off filled) _) _
                (NoPanic-ok_or (checked_add off filled) _)
                λ p _.
                  NoPanic->>= (read_dnode_block v members topo order dnode (p / dbsz)) _
                    (read_dnode_block-NoPanic dnode (p / dbsz))
                    λ block _.
                      NoPanic->>=
                        (block_piece v members topo order block (p % dbsz)
                          (min (dbsz - p % dbsz) (len - filled)))
                        _
                        (block_piece-NoPanic block (p % dbsz)
                          (min (dbsz - p % dbsz) (len - filled)))
                        λ piece _.
                          NoPanic->>=
                            (range_loop v members topo order dnode dbsz off len fuel
                              (filled + min (dbsz - p % dbsz) (len - filled)))
                            _
                            (range_loop-NoPanic dnode dbsz off len pos fuel
                              (filled + min (dbsz - p % dbsz) (len - filled))
                              (ground (arith, mod-lt p pos)))
                            λ rest _. tt)
      ]

  pub read_dnode_range-NoPanic :
      (dnode : Dnode) (off len : ℕ) → NoPanic (read_dnode_range v members topo order dnode off len)
  unfolding read_dnode_range
  read_dnode_range-NoPanic dnode off len =
      NoPanic->>= (refuse_if (dnode.data_block_size_sectors * 512 == 0) _) _
        (NoPanic-refuse_if (dnode.data_block_size_sectors * 512 == 0) _)
        λ _ c.
          range_loop-NoPanic dnode (dnode.data_block_size_sectors * 512) off len
            (ground (arith, refuse_if-eq-ok (dnode.data_block_size_sectors * 512 == 0) _ c))
            (len + 1) 0 (omega arith)

  -- Whatever the devices and the decoders give, a range read of any dnode ends with bytes or with an
  -- error: no slice is out of range, and the loop over the blocks ends within its fuel.
  pub read_dnode_range-ne-panic :
      (dnode : Dnode) (off len : ℕ) → read_dnode_range v members topo order dnode off len ≢ panic
  read_dnode_range-ne-panic dnode off len = ne-panic _ (read_dnode_range-NoPanic dnode off len)
