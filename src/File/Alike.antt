-- ===== src/File/Alike.antt =====
-- src/file.rs over two sets of devices whose block reads are alike.
use lamzfs.Common.{
  ℕ, zero, suc, ◌+◌, ◌-◌, ◌*◌, ◌/◌, ◌%◌, ◌^◌, ◌≡◌, refl, min, Option, none, some, List, ltb, ◌==◌,
  ◌&&◌, if◌then◌else◌, get_range, checked_add, inl,
}
use lamzfs.Error.{Location, inconsistent}
use lamzfs.Outcome.{ok, ok_or, refuse_if, ◌>>=◌}
use lamzfs.Outcome.Alike.{Alike, Alike->>=, Alike-then, Alike-if}
use lamzfs.Phys.{EndianOrder, BlockPointer, Dnode}
use lamzfs.Vendored.{Vendored}
use lamzfs.BlockRead.{PoolMember}
use lamzfs.Vdev.{read_block_pointer}
use lamzfs.Vdev.Tree.{Topology}
use lamzfs.File.{
  blkptr_size, dn_max_levels, epb_shift, pointer_at, descend, read_top, read_dnode_block,
  block_piece, range_loop, read_dnode_range,
}

-- Each block reads alike.
abbrev pub ReadsAlike : Vendored → List PoolMember → Topology → List PoolMember → Topology → Type 0
ReadsAlike v members topo members' topo' =
    (bp : BlockPointer)
    → Alike (read_block_pointer v members topo bp) (read_block_pointer v members' topo' bp)

module _ (v : Vendored) (members members' : List PoolMember) (topo topo' : Topology)
    (alike : ReadsAlike v members topo members' topo') (order : EndianOrder) where
  descend-Alike :
      (shift blkid l : ℕ) (current : List ℕ)
      → Alike
          (descend v members topo order shift blkid l current)
          (descend v members' topo' order shift blkid l current)
  unfolding descend
  descend-Alike shift blkid zero current = inl refl
  descend-Alike shift blkid (suc l) current =
      Alike-then
        (ok_or (get_range current (blkid / 2 ^ (shift * l) % 2 ^ shift * blkptr_size) blkptr_size)
          (inconsistent "indirect_oob" (Location.indirect 0 (suc l))))
        _ _
        λ slice.
          Alike-then
            (ok_or (v.block_pointer_decode order slice)
              (inconsistent "indirect_bp_decode" (Location.indirect 0 (suc l))))
            _ _ λ child. at child (λ block. descend-Alike shift blkid l block)
    where
      at :
          (child : Option BlockPointer)
          → ((block : List ℕ)
              → Alike
                  (descend v members topo order shift blkid l block)
                  (descend v members' topo' order shift blkid l block))
          → Alike
              (elim child [
                | none ↦ ok none
                | some bp ↦ read_block_pointer v members topo bp >>= λ block.
                    if l == 0
                    then ok (some block)
                    else descend v members topo order shift blkid l block
              ])
              (elim child [
                | none ↦ ok none
                | some bp ↦ read_block_pointer v members' topo' bp >>= λ block.
                    if l == 0
                    then ok (some block)
                    else descend v members' topo' order shift blkid l block
              ])
      at none deeper = inl refl
      at (some bp) deeper =
          Alike->>= (read_block_pointer v members topo bp) (read_block_pointer v members' topo' bp)
            _ _ (alike bp) λ block. Alike-if (l == 0) _ _ _ _ (inl refl) (deeper block)

  read_top-Alike :
      (dnode : Dnode) (blkid : ℕ)
      → Alike
          (read_top v members topo order dnode blkid)
          (read_top v members' topo' order dnode blkid)
  unfolding read_top
  read_top-Alike dnode blkid =
      at (pointer_at dnode.ptrs (blkid / 2 ^ (epb_shift dnode * (dnode.levels - 1))))
    where
      at :
          (top : Option BlockPointer)
          → Alike
              (elim top [
                | none ↦ ok none
                | some bp ↦ read_block_pointer v members topo bp >>= λ block.
                    if dnode.levels == 1
                    then ok (some block)
                    else descend v members topo order
                        (epb_shift dnode)
                        blkid
                        (dnode.levels - 1)
                        block
              ])
              (elim top [
                | none ↦ ok none
                | some bp ↦ read_block_pointer v members' topo' bp >>= λ block.
                    if dnode.levels == 1
                    then ok (some block)
                    else descend v members' topo' order
                        (epb_shift dnode)
                        blkid
                        (dnode.levels - 1)
                        block
              ])
      at none = inl refl
      at (some bp) =
          Alike->>= (read_block_pointer v members topo bp) (read_block_pointer v members' topo' bp)
            _ _ (alike bp)
            λ block.
              Alike-if (dnode.levels == 1) _ _ _ _ (inl refl)
                (descend-Alike (epb_shift dnode) blkid (dnode.levels - 1) block)

  pub read_dnode_block-Alike :
      (dnode : Dnode) (blkid : ℕ)
      → Alike
          (read_dnode_block v members topo order dnode blkid)
          (read_dnode_block v members' topo' order dnode blkid)
  unfolding read_dnode_block
  read_dnode_block-Alike dnode blkid = Alike-if (dnode.levels == 0) _ _ _ _ (inl refl) (
      Alike-if (ltb dn_max_levels dnode.levels) _ _ _ _ (inl refl) (
        Alike-if (ltb (epb_shift dnode * (dnode.levels - 1)) 64 && ltb (epb_shift dnode) 64) _ _ _ _
          (read_top-Alike dnode blkid) (inl refl)))

  block_piece-same :
      (block : Option (List ℕ)) (within want : ℕ)
      → block_piece v members topo order block within want
        ≡ block_piece v members' topo' order block within want
  unfolding block_piece
  block_piece-same none within want = refl
  block_piece-same (some block) within want = refl

  range_loop-Alike :
      (dnode : Dnode) (dbsz off len fuel filled : ℕ)
      → Alike
          (range_loop v members topo order dnode dbsz off len fuel filled)
          (range_loop v members' topo' order dnode dbsz off len fuel filled)
  unfolding range_loop
  range_loop-Alike dnode dbsz off len zero filled = inl refl
  range_loop-Alike dnode dbsz off len (suc fuel) filled =
      Alike-if (ltb filled len) _ _ _ _
        (Alike-then
          (ok_or (checked_add off filled) (inconsistent "range_overflow" (Location.dnode 0))) _ _
          λ pos.
            let want = min (dbsz - pos % dbsz) (len - filled) in
            Alike->>= (read_dnode_block v members topo order dnode (pos / dbsz))
              (read_dnode_block v members' topo' order dnode (pos / dbsz)) _ _
              (read_dnode_block-Alike dnode (pos / dbsz))
              λ block.
                Alike->>= (block_piece v members topo order block (pos % dbsz) want)
                  (block_piece v members' topo' order block (pos % dbsz) want) _ _
                  (inl (block_piece-same block (pos % dbsz) want))
                  λ piece.
                    Alike->>=
                      (range_loop v members topo order dnode dbsz off len fuel (filled + want))
                      (range_loop v members' topo' order dnode dbsz off len fuel (filled + want)) _
                      _ (range_loop-Alike dnode dbsz off len fuel (filled + want)) λ rest. inl refl)
        (inl refl)

  pub read_dnode_range-Alike :
      (dnode : Dnode) (off len : ℕ)
      → Alike
          (read_dnode_range v members topo order dnode off len)
          (read_dnode_range v members' topo' order dnode off len)
  unfolding read_dnode_range
  read_dnode_range-Alike dnode off len =
      Alike-then
        (refuse_if (dnode.data_block_size_sectors * 512 == 0)
          (inconsistent "dnode_dbsz0" (Location.dnode 0)))
        _ _ λ _. range_loop-Alike dnode (dnode.data_block_size_sectors * 512) off len (len + 1) 0
