-- ===== src/Walk/Typed.antt =====
-- The entries of a ZAP in src/walk.rs: no read of them panics where the first block has a type.
use mathlib.Core.Option
use lamzfs.Common.{
  ℕ, zero, suc, ◌+◌, ◌-◌, ◌*◌, ◌/◌, ◌^◌, ◌≤◌, ◌≡◌, inl, inr, Option, none, some, true, List, [],
  ◌∷◌, ◌++◌, arith, leb, ◌==◌, if◌then◌else◌, length, Bool-cases, ap, ◌∙◌,
}
use lamzfs.Outcome.{
  ok, ok_or, refuse_if, ◌>>=◌, NoPanic, NoPanic->>=, NoPanic-ok_or, NoPanic-refuse_if, NoPanic-if,
  ok_or-eq-ok,
}
use lamzfs.Phys.{EndianOrder, Dnode}
use lamzfs.Vendored.{Vendored}
use lamzfs.BlockRead.{PoolMember}
use lamzfs.Vdev.Tree.{Topology}
use lamzfs.File.{read_dnode_block}
use lamzfs.File.Safe.{read_dnode_block-NoPanic}
use lamzfs.Walk.{
  zap_micro, zap_fat_header, zap_leaf_type, zap_leaf_header_size, max_zap_leaf_blocks,
  trailing_zeros, micro_items, micro_entries, fat_blocks, fat_entries_raw, fat_entries, zap_entries,
  zap_lookup, zap_lookup_bytes,
}
use lamzfs.Common.Bytes.{to_be_bytes}
use lamzfs.Walk.Leaf.{zap_error, leaf_chunk_size, block_type, collect_leaf}
use lamzfs.Walk.Leaf.Safe.{collect_leaf-NoPanic}

block_type-NoPanic :
    (block : List ℕ) (order : EndianOrder) → 8 ≤ length block → NoPanic (block_type block order)
unfolding block_type
block_type-NoPanic block order long =
    let fits : leb (0 + 8) (length block) ≡ true = ground arith in rw fits tt

micro_items-NoPanic : (items : List (Option (List ℕ × ℕ))) → NoPanic (micro_items items)
unfolding micro_items
micro_items-NoPanic [] = tt
micro_items-NoPanic (none ∷ items) = tt
micro_items-NoPanic (some entry ∷ items) =
    NoPanic->>= (micro_items items) _ (micro_items-NoPanic items) λ rest _. tt

module _ (v : Vendored) (members : List PoolMember) (topo : Topology) (order : EndianOrder) where
  micro_entries-NoPanic : (block : List ℕ) → NoPanic (micro_entries v members topo order block)
  unfolding micro_entries
  micro_entries-NoPanic block =
      NoPanic->>= (ok_or (v.zap_micro_decode order block) (zap_error "zap_micro")) _
        (NoPanic-ok_or _ _) λ items _. micro_items-NoPanic items

  -- A leaf of the scan, which is looked at only if it is long enough.
  leaf-NoPanic :
      (bytes : List ℕ) (chunk_base nchunks : ℕ)
      → NoPanic (
          if leb 8 (length bytes)
          then (block_type bytes order >>= λ kind.
              if kind == zap_leaf_type
              then collect_leaf v order bytes chunk_base nchunks
              else ok [])
          else ok [])
  leaf-NoPanic bytes chunk_base nchunks = elim (Bool-cases (leb 8 (length bytes))) [
    | inl e ↦ rw e (
        NoPanic->>= (block_type bytes order) _ (block_type-NoPanic bytes order (ground arith))
          λ kind _.
            NoPanic-if (kind == zap_leaf_type) _ _
              (collect_leaf-NoPanic v order bytes chunk_base nchunks) tt)
    | inr e ↦ rw e tt
  ]

  fat_blocks-NoPanic :
      (zap : Dnode) (chunk_base nchunks left blkid : ℕ)
      → NoPanic (fat_blocks v members topo order zap chunk_base nchunks left blkid)
  unfolding fat_blocks
  fat_blocks-NoPanic zap chunk_base nchunks zero blkid = tt
  fat_blocks-NoPanic zap chunk_base nchunks (suc left) blkid =
      NoPanic->>= (read_dnode_block v members topo order zap blkid) _
        (read_dnode_block-NoPanic v members topo order zap blkid)
        λ block _. at block (fat_blocks-NoPanic zap chunk_base nchunks left (blkid + 1))
    where
      at :
          (block : Option (List ℕ))
          → NoPanic (fat_blocks v members topo order zap chunk_base nchunks left (blkid + 1))
          → NoPanic (elim block [
            | none ↦ ok []
            | some bytes ↦
                (if leb 8 (length bytes)
                  then (block_type bytes order >>= λ kind.
                      if kind == zap_leaf_type
                      then collect_leaf v order bytes chunk_base nchunks
                      else ok [])
                  else ok [])
                >>= λ here.
                    fat_blocks v members topo order zap chunk_base nchunks left (blkid + 1)
                    >>= λ rest. ok (here ++ rest)
          ])
      at none h = tt
      at (some bytes) h =
          NoPanic->>=
            (if leb 8 (length bytes)
              then (block_type bytes order >>= λ kind.
                  if kind == zap_leaf_type
                  then collect_leaf v order bytes chunk_base nchunks
                  else ok [])
              else ok [])
            _ (leaf-NoPanic bytes chunk_base nchunks)
            λ here _.
              NoPanic->>= (fat_blocks v members topo order zap chunk_base nchunks left (blkid + 1))
                _ h λ rest _. tt

  pub fat_entries_raw-NoPanic :
      (zap : Dnode) (dbsz : ℕ) → NoPanic (fat_entries_raw v members topo order zap dbsz)
  unfolding fat_entries_raw
  fat_entries_raw-NoPanic zap dbsz =
      let chunk_base = zap_leaf_header_size + 2 ^ (trailing_zeros 64 dbsz - 5) * 2 in
      NoPanic->>= (refuse_if (leb dbsz chunk_base) (zap_error "zap_leaf_geom")) _
        (NoPanic-refuse_if (leb dbsz chunk_base) _)
        λ _ _.
          fat_blocks-NoPanic zap chunk_base ((dbsz - chunk_base) / leaf_chunk_size)
            (max_zap_leaf_blocks - 1) 1

  fat_entries-NoPanic :
      (zap : Dnode) (dbsz : ℕ) → NoPanic (fat_entries v members topo order zap dbsz)
  unfolding fat_entries
  fat_entries-NoPanic zap dbsz =
      NoPanic->>= (fat_entries_raw v members topo order zap dbsz) _
        (fat_entries_raw-NoPanic zap dbsz) λ raw _. tt

  -- The first block, if there is one, has the eight bytes of a block type.
  abbrev pub HasType : Dnode → Type 0
  HasType zap =
      (block : List ℕ)
      → read_dnode_block v members topo order zap 0 ≡ ok (some block)
      → 8 ≤ length block

  pub zap_entries-NoPanic :
      (zap : Dnode) → HasType zap → NoPanic (zap_entries v members topo order zap)
  unfolding zap_entries
  zap_entries-NoPanic zap long =
      NoPanic->>= (refuse_if (zap.data_block_size_sectors * 512 == 0) (zap_error "zap_dbsz0")) _
        (NoPanic-refuse_if (zap.data_block_size_sectors * 512 == 0) _)
        λ _ _.
          NoPanic->>= (read_dnode_block v members topo order zap 0) _
            (read_dnode_block-NoPanic v members topo order zap 0)
            λ found e.
              NoPanic->>= (ok_or found (zap_error "zap_empty")) _ (NoPanic-ok_or found _) λ block o.
                NoPanic->>= (block_type block order) _
                  (block_type-NoPanic block order
                    (long block (e ∙ ap ok (ok_or-eq-ok found (zap_error "zap_empty") o))))
                  λ bt _. NoPanic-if (bt == zap_micro) _ _ (micro_entries-NoPanic block) (
                    NoPanic-if (bt == zap_fat_header) _ _
                      (fat_entries-NoPanic zap (zap.data_block_size_sectors * 512)) tt)

  pub zap_lookup-NoPanic :
      (zap : Dnode) (name : List ℕ)
      → HasType zap
      → NoPanic (zap_lookup v members topo order zap name)
  unfolding zap_lookup
  zap_lookup-NoPanic zap name long =
      NoPanic->>= (zap_entries v members topo order zap) _ (zap_entries-NoPanic zap long) λ es _. tt

  micro-NoPanic :
      (zap : Dnode) (name : List ℕ)
      → HasType zap
      → NoPanic (
          zap_lookup v members topo order zap name >>= λ value.
          ok (Option.map (to_be_bytes 8) value))
  micro-NoPanic zap name long =
      NoPanic->>= (zap_lookup v members topo order zap name) _ (zap_lookup-NoPanic zap name long)
        λ value _. tt

  pub zap_lookup_bytes-NoPanic :
      (zap : Dnode) (name : List ℕ)
      → HasType zap
      → NoPanic (zap_lookup_bytes v members topo order zap name)
  unfolding zap_lookup_bytes
  zap_lookup_bytes-NoPanic zap name long =
      NoPanic->>= (read_dnode_block v members topo order zap 0) _
        (read_dnode_block-NoPanic v members topo order zap 0)
        λ found e.
          NoPanic->>= (ok_or found (zap_error "zap_empty")) _ (NoPanic-ok_or found _) λ block o.
            NoPanic-if (zap.data_block_size_sectors * 512 == 0) _ _ (micro-NoPanic zap name long) (
              NoPanic->>= (block_type block order) _
                (block_type-NoPanic block order
                  (long block (e ∙ ap ok (ok_or-eq-ok found (zap_error "zap_empty") o))))
                λ bt _.
                  NoPanic-if (bt == zap_fat_header) _ _
                    (NoPanic->>=
                      (fat_entries_raw v members topo order zap (zap.data_block_size_sectors * 512))
                      _ (fat_entries_raw-NoPanic zap (zap.data_block_size_sectors * 512))
                      λ entries _. tt)
                    (micro-NoPanic zap name long))
