-- ===== src/File/Holes.antt =====
-- Holes of src/file.rs: ranges under absent pointers of the dnode, and past the end of its tree.
use lamzfs.Common.{
  ℕ, ◌+◌, ◌-◌, ◌*◌, ◌/◌, ◌%◌, ◌^◌, ◌≤◌, ◌<◌, ◌≡◌, refl, ap, sym, ◌∙◌, none, some, true, false, List,
  arith, ltb, ◌==◌, replicate, get_elem?_ext, get_elem?-replicate, length-replicate,
}
use lamzfs.Outcome.{ok}
use lamzfs.Phys.{EndianOrder, Dnode}
use lamzfs.Vendored.{Vendored}
use lamzfs.BlockRead.{PoolMember}
use lamzfs.Vdev.Tree.{Topology}
use lamzfs.File.{dn_max_levels, epb_shift, pointer_at, read_top, read_dnode_block, read_dnode_range}
use lamzfs.File.Range.{byte_of, logical_byte, read_dnode_range-bytes}
use lamzfs.File.Total.{HasBytes, read_dnode_range-total}

-- The blocks that one pointer of the dnode has under it.
abbrev pub top_span : Dnode → ℕ
top_span dnode = 2 ^ (epb_shift dnode * (dnode.levels - 1))

-- A dnode whose levels and shifts are in range.
pub record IsRegularTree (dnode : Dnode) : Type 0 where
  pub some_level : 0 < dnode.levels
  pub few_levels : dnode.levels ≤ dn_max_levels
  pub top_shift : epb_shift dnode * (dnode.levels - 1) < 64
  pub entry_shift : epb_shift dnode < 64

-- The positions of a range whose pointer in the dnode is absent.
abbrev pub IsHole : Dnode → ℕ → ℕ → Type 0
IsHole dnode first past =
    (pos : ℕ)
    → first ≤ pos
    → pos < past
    → pointer_at dnode.ptrs (pos / (dnode.data_block_size_sectors * 512) / top_span dnode) ≡ none

module _ (v : Vendored) (members : List PoolMember) (topo : Topology) (order : EndianOrder)
    (dnode : Dnode) where
  read_dnode_block-regular :
      (blkid : ℕ)
      → IsRegularTree dnode
      → read_dnode_block v members topo order dnode blkid
        ≡ read_top v members topo order dnode blkid
  unfolding read_dnode_block
  read_dnode_block-regular blkid t =
      let a : (dnode.levels == 0) ≡ false = ground (arith, t.some_level) in
      let b : ltb dn_max_levels dnode.levels ≡ false = ground (arith, t.few_levels) in
      let c : ltb (epb_shift dnode * (dnode.levels - 1)) 64 ≡ true = ground (arith, t.top_shift) in
      let d : ltb (epb_shift dnode) 64 ≡ true = ground (arith, t.entry_shift) in
      rw (a, b, c, d) refl

  read_dnode_block-hole :
      (blkid : ℕ)
      → IsRegularTree dnode
      → pointer_at dnode.ptrs (blkid / top_span dnode) ≡ none
      → read_dnode_block v members topo order dnode blkid ≡ ok none
  unfolding read_top
  read_dnode_block-hole blkid t h = read_dnode_block-regular blkid t ∙ rw (h, read_top) refl

  -- A range of a dnode with levels and shifts in range that stays below 2^64 reads as zeros, without
  -- an error and whatever the devices hold, where every position of it has no pointer in the dnode:
  -- its slot is a hole or behind the last one.
  pub read_dnode_range-hole :
      (off len : ℕ)
      → IsRegularTree dnode
      → 0 < dnode.data_block_size_sectors
      → off + len ≤ 2 ^ 64
      → IsHole dnode off (off + len)
      → read_dnode_range v members topo order dnode off len ≡ ok (replicate len 0)
  read_dnode_range-hole off len t pos fits hole =
      let dbsz = dnode.data_block_size_sectors * 512 in
      let zero_at : (p : ℕ)
          → off ≤ p
          → p < off + len
          → logical_byte v members topo order dnode dbsz p ≡ some 0 =
        λ p low high.
          ap (λ o. byte_of o (p % dbsz)) (read_dnode_block-hole (p / dbsz) t (hole p low high)) in
      let has : HasBytes v members topo order dnode dbsz off (off + len) =
        λ p low high. (0, zero_at p low high) in
      let (bs, e) = read_dnode_range-total v members topo order dnode off len pos fits has in
      let (l, bytes) = read_dnode_range-bytes v members topo order dnode off len bs e in
      let zeros : bs ≡ replicate len 0 =
        get_elem?_ext bs (replicate len 0) (omega (arith, l, length-replicate {A = ℕ} len 0))
          (λ k below.
            bytes k (omega arith)
            ∙ zero_at (off + k) (omega arith) (omega arith)
            ∙ sym (get_elem?-replicate len k 0 (omega arith))) in
      e ∙ ap ok zeros
