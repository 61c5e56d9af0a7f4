-- ===== src/File.antt =====
-- src/file.rs: one logical block of a dnode through its indirect tree, and a byte range over blocks.
pub mod Range
pub mod Total
pub mod Safe
pub mod Tree
pub mod Holes
pub mod Stream
pub mod Alike
use lamzfs.Common.{
  ℕ, zero, suc, ◌+◌, ◌-◌, ◌*◌, ◌/◌, ◌%◌, ◌^◌, min, Option, none, some, List, [], ◌++◌, ◌&&◌, ltb,
  ◌==◌, if◌then◌else◌, get_elem?, get_range, replicate, checked_add,
}
use lamzfs.Error.{Location, inconsistent}
use lamzfs.Outcome.{Outcome, ok, err, panic, ok_or, refuse_if, ◌>>=◌, ◌>>◌}
use lamzfs.Phys.{EndianOrder, BlockPointer, Dnode}
use lamzfs.Vendored.{Vendored}
use lamzfs.BlockRead.{PoolMember}
use lamzfs.Vdev.{read_block_pointer}
use lamzfs.Vdev.Tree.{Topology}

abbrev pub blkptr_size : ℕ
blkptr_size = 128

abbrev pub dn_max_levels : ℕ
dn_max_levels = 16

-- `log2` of the entries of an indirect block; `saturating_sub`.
abbrev pub epb_shift : Dnode → ℕ
epb_shift dnode = dnode.indirect_block_shift - 7

-- The pointer in slot `i`; `none` out of range and for a hole.
abbrev pub pointer_at : List (Option BlockPointer) → ℕ → Option BlockPointer
pointer_at ptrs i = elim (get_elem? ptrs i) [ none ↦ none | some p ↦ p ]

module _ (v : Vendored) (members : List PoolMember) (topo : Topology) (order : EndianOrder) where
  -- `for l in (1..levels).rev()`: level `l` selects an entry of the indirect block `current`.
  unfoldable pub descend : ℕ → ℕ → ℕ → List ℕ → Outcome (Option (List ℕ))
  descend shift blkid zero current = err (inconsistent "indirect_walk" (Location.indirect 0 0))
  descend shift blkid (suc l) current = do
    let idx = blkid / 2 ^ (shift * l) % 2 ^ shift
    slice ←
        ok_or (get_range current (idx * blkptr_size) blkptr_size)
          (inconsistent "indirect_oob" (Location.indirect 0 (suc l)))
    child ←
        ok_or (v.block_pointer_decode order slice)
          (inconsistent "indirect_bp_decode" (Location.indirect 0 (suc l)))
    elim child [
      | none ↦ ok none
      | some bp ↦ do
        block ← read_block_pointer v members topo bp
        let deeper = descend shift blkid l block
        if l == 0 then ok (some block) else deeper
    ]

  -- The read from the dnode's own pointers on.
  unfoldable pub read_top : Dnode → ℕ → Outcome (Option (List ℕ))
  unfolding descend
  read_top dnode blkid =
      elim (pointer_at dnode.ptrs (blkid / 2 ^ (epb_shift dnode * (dnode.levels - 1)))) [
        | none ↦ ok none
        | some top ↦ do
          block ← read_block_pointer v members topo top
          let below = descend (epb_shift dnode) blkid (dnode.levels - 1) block
          if dnode.levels == 1 then ok (some block) else below
      ]

  -- `none` is a hole.
  unfoldable pub read_dnode_block : Dnode → ℕ → Outcome (Option (List ℕ))
  unfolding read_top
  read_dnode_block dnode blkid =
      if dnode.levels == 0
      then ok none
      else if ltb dn_max_levels dnode.levels
      then err (inconsistent "dnode_levels" (Location.dnode 0))
      else if ltb (epb_shift dnode * (dnode.levels - 1)) 64 && ltb (epb_shift dnode) 64
      then read_top dnode blkid
      else err (inconsistent "dnode_indshift" (Location.dnode 0))

  -- What a block gives to the range: zeros for a hole.
  unfoldable pub block_piece : Option (List ℕ) → ℕ → ℕ → Outcome (List ℕ)
  block_piece none within want = ok (replicate want 0)
  block_piece (some block) within want =
      ok_or (get_range block within want) (inconsistent "block_short" (Location.dnode 0))

  -- The `while filled < len` loop: what it writes into the buffer from `filled` on. Out of fuel it
  -- panics, which the source cannot do: each round moves `filled`.
  unfoldable pub range_loop : Dnode → ℕ → ℕ → ℕ → ℕ → ℕ → Outcome (List ℕ)
  unfolding block_piece
  range_loop dnode dbsz off len zero filled = panic
  range_loop dnode dbsz off len (suc fuel) filled =
      let round : Outcome (List ℕ) = (do
        pos ← ok_or (checked_add off filled) (inconsistent "range_overflow" (Location.dnode 0))
        let want = min (dbsz - pos % dbsz) (len - filled)
        block ← read_dnode_block dnode (pos / dbsz)
        piece ← block_piece block (pos % dbsz) want
        rest ← range_loop dnode dbsz off len fuel (filled + want)
        ok (piece ++ rest)) in
      if ltb filled len then round else ok []

  unfoldable pub read_dnode_range : Dnode → ℕ → ℕ → Outcome (List ℕ)
  unfolding range_loop
  read_dnode_range dnode off len = do
    let dbsz = dnode.data_block_size_sectors * 512
    refuse_if (dbsz == 0) (inconsistent "dnode_dbsz0" (Location.dnode 0))
    range_loop dnode dbsz off len (len + 1) 0
