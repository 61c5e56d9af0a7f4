-- ===== src/Vdev/Sound.antt =====
-- A block that `read_block_pointer` returns, in any layout, is the decompression of bytes that were
-- read for one of the pointer's addresses and that have the pointer's checksum.
pub mod Children
pub mod Columns
use lamzfs.Compress.{max_block_lsize, decompress}
use lamzfs.Error.{mos, inconsistent, Error}
use lamzfs.Common.{
  ◌==◌, ◌||◌, ℕ, ◌+◌, ◌*◌, ◌≡◌, ◌≢◌, refl, sym, ◌∙◌, ◌⊎◌, inl, inr, Option, none, some, Bool, true,
  false, List, [], ◌∷◌, arith, length, get_elem?, InList, if◌then◌else◌, Bool-cases, Option-cases,
  length-take, take, leb, ltb, min,
}
use lamzfs.Outcome.{Outcome, ok, err, panic, ◌>>=◌, ◌>>◌, >>-eq-ok, refuse_if, ◌>>◌}
use lamzfs.Phys.{Dva, BlockPointerRegular, regular}
use lamzfs.Vendored.{Vendored}
use lamzfs.BlockRead.{PoolMember, read_exact, length-read_exact}
use lamzfs.Cksum.{verify_block}
use lamzfs.Cksum.Sound.{verify_block-ne-panic}
use lamzfs.Vdev.{
  check_dvas, judged, checked, try_member, try_children, try_copies, read_copies, read_regular,
  read_block_pointer, no_readable_copy,
}
use lamzfs.Vdev.Tree.{
  Layout, single, mirror, raidz1, Topology, flatten, read_order, dva_byte_offset, Attempt, found,
  failed, or_next, or_else,
}
use lamzfs.Vdev.Raidz.{
  RaidzCol, raidz_map, verifies, is_ok, mapped, accept_or, degraded, rebuilt_block, raidz1_columns,
  raidz1_copy, raidz1_loop, raidz1_read, raidz1_assemble, raidz1_reconstruct, raidz1_read_columns,
  collect_columns,
}
use lamzfs.Vdev.Copies.{IsCopy, FoundCopy, ListedCopy}
use Children.{try_copies_sound}
use Columns.{raidz1_loop_sound}

module _ (v : Vendored) (members : List PoolMember) (topo : Topology) where
  read_copies_sound :
      (layout : Layout) (r : BlockPointerRegular) (psize lsize : ℕ) (bs : List ℕ)
      → read_copies v members topo layout r psize lsize ≡ ok bs
      → ListedCopy v topo.checksum_salt r psize lsize (flatten r.dvas) (ok bs)
  unfolding read_copies raidz1_read
  read_copies_sound (raidz1 children ashift) r psize lsize bs h =
      raidz1_loop_sound v topo.checksum_salt r psize lsize members children ashift _
        (flatten r.dvas) bs h
  read_copies_sound (single idx) r psize lsize bs h =
      try_copies_sound v topo.checksum_salt r psize lsize members (idx ∷ []) no_readable_copy
        (flatten r.dvas) bs h
  read_copies_sound (mirror children) r psize lsize bs h =
      try_copies_sound v topo.checksum_salt r psize lsize members children no_readable_copy
        (flatten r.dvas) bs h

  -- Whatever the devices hold and in whichever layout, bytes that a read of a regular pointer
  -- returns are the decompression of as many bytes as the pointer's physical size, whose checksum,
  -- at one of the pointer's addresses, is the pointer's.
  pub read_block_pointer_verified :
      (r : BlockPointerRegular) (bs : List ℕ)
      → read_block_pointer v members topo (regular r) ≡ ok bs
      → ListedCopy v topo.checksum_salt r
          (r.physical_sectors * 512)
          (r.logical_sectors * 512)
          (flatten r.dvas)
          (ok bs)
  unfolding read_block_pointer
  read_block_pointer_verified r bs h =
      let copies =
        read_copies v members topo topo.layout r (r.physical_sectors * 512)
          (r.logical_sectors * 512) in
      let (_, checked) =
        >>-eq-ok
          (refuse_if
            (r.physical_sectors * 512 == 0 || ltb max_block_lsize (r.physical_sectors * 512))
            (inconsistent "bp_bad_psize" mos))
          (check_dvas (flatten r.dvas) >> copies) h in
      let (_, read) = >>-eq-ok (check_dvas (flatten r.dvas)) copies checked in
      read_copies_sound topo.layout r (r.physical_sectors * 512) (r.logical_sectors * 512) bs read
