-- ===== src/Walk/Alike.antt =====
-- src/walk.rs over two sets of devices whose block reads are alike.
use lamzfs.Common.{
  ℕ, zero, suc, ◌+◌, ◌-◌, ◌*◌, ◌/◌, ◌%◌, ◌^◌, refl, Option, none, some, List, [], ◌++◌, ltb, leb,
  ◌==◌, ◌||◌, if◌then◌else◌, length, get_elem?, checked_mul, inl,
}
use lamzfs.Error.{Location, inconsistent}
use lamzfs.Outcome.{Outcome, ok, ok_or, or_panic, refuse_if, ◌>>=◌}
use lamzfs.Outcome.Alike.{Alike, Alike->>=, Alike-then, Alike-if}
use lamzfs.Phys.{EndianOrder, BlockPointer, Dnode}
use lamzfs.Vendored.{Vendored}
use lamzfs.BlockRead.{PoolMember}
use lamzfs.Vdev.{read_block_pointer}
use lamzfs.Vdev.Tree.{Topology}
use lamzfs.File.{read_dnode_block, read_dnode_range}
use lamzfs.File.Alike.{ReadsAlike, read_dnode_block-Alike, read_dnode_range-Alike}
use lamzfs.Walk.Leaf.{zap_error, leaf_chunk_size, block_type, collect_leaf}
use lamzfs.Walk.{
  zap_micro, zap_fat_header, zap_leaf_type, zap_leaf_header_size, max_zap_leaf_blocks,
  trailing_zeros, dnode_size, dnode_max_slots, dn_extra_slots, decode_dnode, read_large_object,
  read_object, read_object_dnode, read_objset, micro_entries, fat_blocks, fat_entries_raw,
  fat_entries, zap_entries, zap_lookup,
}

module _ (v : Vendored) (members members' : List PoolMember) (topo topo' : Topology)
    (alike : ReadsAlike v members topo members' topo') (order : EndianOrder) where
  pub read_objset-Alike :
      (bp : BlockPointer)
      → Alike (read_objset v members topo order bp) (read_objset v members' topo' order bp)
  unfolding read_objset
  read_objset-Alike bp =
      Alike->>= (read_block_pointer v members topo bp) (read_block_pointer v members' topo' bp) _ _
        (alike bp) λ bytes. inl refl

  read_large_object-Alike :
      (array : Dnode) (objnum byte_off slots : ℕ)
      → Alike
          (read_large_object v members topo order array objnum byte_off slots)
          (read_large_object v members' topo' order array objnum byte_off slots)
  unfolding read_large_object decode_dnode
  read_large_object-Alike array objnum byte_off slots =
      Alike-then
        (refuse_if
          (ltb dnode_max_slots slots
            || (array.data_block_size_sectors * 512 / dnode_size == 0
                || ltb (array.data_block_size_sectors * 512 / dnode_size)
                    (objnum % (array.data_block_size_sectors * 512 / dnode_size) + slots)))
          (inconsistent "dnode_slots" (Location.dnode objnum)))
        _ _
        λ _.
          Alike->>= (read_dnode_range v members topo order array byte_off (slots * dnode_size))
            (read_dnode_range v members' topo' order array byte_off (slots * dnode_size)) _ _
            (read_dnode_range-Alike v members members' topo topo' alike order array byte_off
              (slots * dnode_size))
            λ full. inl refl

  pub read_object-Alike :
      (array : Dnode) (objnum : ℕ)
      → Alike
          (read_object v members topo order array objnum)
          (read_object v members' topo' order array objnum)
  unfolding read_object decode_dnode
  read_object-Alike array objnum =
      Alike-then
        (ok_or (checked_mul objnum dnode_size)
          (inconsistent "dnode_obj_overflow" (Location.dnode objnum)))
        _ _
        λ byte_off.
          Alike->>= (read_dnode_range v members topo order array byte_off dnode_size)
            (read_dnode_range v members' topo' order array byte_off dnode_size) _ _
            (read_dnode_range-Alike v members members' topo topo' alike order array byte_off
              dnode_size)
            λ first. Alike-then (or_panic (get_elem? first dn_extra_slots)) _ _ λ extra_slots.
              Alike-if (extra_slots == 0) _ _ _ _ (inl refl)
                (read_large_object-Alike array objnum byte_off (extra_slots + 1))

  pub read_object_dnode-Alike :
      (array : Dnode) (objnum : ℕ)
      → Alike
          (read_object_dnode v members topo order array objnum)
          (read_object_dnode v members' topo' order array objnum)
  unfolding read_object_dnode
  read_object_dnode-Alike array objnum =
      Alike->>= (read_object v members topo order array objnum)
        (read_object v members' topo' order array objnum) _ _ (read_object-Alike array objnum)
        λ object. inl refl

  fat_blocks-Alike :
      (zap : Dnode) (chunk_base nchunks left blkid : ℕ)
      → Alike
          (fat_blocks v members topo order zap chunk_base nchunks left blkid)
          (fat_blocks v members' topo' order zap chunk_base nchunks left blkid)
  unfolding fat_blocks
  fat_blocks-Alike zap chunk_base nchunks zero blkid = inl refl
  fat_blocks-Alike zap chunk_base nchunks (suc left) blkid =
      Alike->>= (read_dnode_block v members topo order zap blkid)
        (read_dnode_block v members' topo' order zap blkid) _ _
        (read_dnode_block-Alike v members members' topo topo' alike order zap blkid)
        λ block. at block (fat_blocks-Alike zap chunk_base nchunks left (blkid + 1))
    where
      here : List ℕ → Outcome (List (List ℕ × List ℕ))
      here bytes =
          if leb 8 (length bytes)
          then (block_type bytes order >>= λ kind.
              if kind == zap_leaf_type
              then collect_leaf v order bytes chunk_base nchunks
              else ok [])
          else ok []

      at :
          (block : Option (List ℕ))
          → Alike
              (fat_blocks v members topo order zap chunk_base nchunks left (blkid + 1))
              (fat_blocks v members' topo' order zap chunk_base nchunks left (blkid + 1))
          → Alike
              (elim block [
                | none ↦ ok []
                | some bytes ↦ here bytes >>= λ es.
                    fat_blocks v members topo order zap chunk_base nchunks left (blkid + 1)
                    >>= λ rest. ok (es ++ rest)
              ])
              (elim block [
                | none ↦ ok []
                | some bytes ↦ here bytes >>= λ es.
                    fat_blocks v members' topo' order zap chunk_base nchunks left (blkid + 1)
                    >>= λ rest. ok (es ++ rest)
              ])
      at none h = inl refl
      at (some bytes) h = Alike-then (here bytes) _ _ λ es.
          Alike->>= (fat_blocks v members topo order zap chunk_base nchunks left (blkid + 1))
            (fat_blocks v members' topo' order zap chunk_base nchunks left (blkid + 1)) _ _ h
            λ rest. inl refl

  fat_entries-Alike :
      (zap : Dnode) (dbsz : ℕ)
      → Alike
          (fat_entries v members topo order zap dbsz)
          (fat_entries v members' topo' order zap dbsz)
  unfolding fat_entries fat_entries_raw
  fat_entries-Alike zap dbsz =
      let chunk_base = zap_leaf_header_size + 2 ^ (trailing_zeros 64 dbsz - 5) * 2 in
      Alike->>= (fat_entries_raw v members topo order zap dbsz)
        (fat_entries_raw v members' topo' order zap dbsz) _ _
        (Alike-then (refuse_if (leb dbsz chunk_base) (zap_error "zap_leaf_geom")) _ _ λ _.
          fat_blocks-Alike zap chunk_base ((dbsz - chunk_base) / leaf_chunk_size)
            (max_zap_leaf_blocks - 1) 1)
        λ raw. inl refl

  pub zap_entries-Alike :
      (zap : Dnode)
      → Alike (zap_entries v members topo order zap) (zap_entries v members' topo' order zap)
  unfolding zap_entries micro_entries
  zap_entries-Alike zap =
      Alike-then (refuse_if (zap.data_block_size_sectors * 512 == 0) (zap_error "zap_dbsz0")) _ _
        λ _.
          Alike->>= (read_dnode_block v members topo order zap 0)
            (read_dnode_block v members' topo' order zap 0) _ _
            (read_dnode_block-Alike v members members' topo topo' alike order zap 0)
            λ found. Alike-then (ok_or found (zap_error "zap_empty")) _ _ λ block.
              Alike-then (block_type block order) _ _ λ bt.
                Alike-if (bt == zap_micro) _ _ _ _ (inl refl) (
                  Alike-if (bt == zap_fat_header) _ _ _ _
                    (fat_entries-Alike zap (zap.data_block_size_sectors * 512)) (inl refl))

  pub zap_lookup-Alike :
      (zap : Dnode) (name : List ℕ)
      → Alike
          (zap_lookup v members topo order zap name)
          (zap_lookup v members' topo' order zap name)
  unfolding zap_lookup
  zap_lookup-Alike zap name =
      Alike->>= (zap_entries v members topo order zap) (zap_entries v members' topo' order zap) _ _
        (zap_entries-Alike zap) λ es. inl refl
