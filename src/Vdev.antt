-- ===== src/Vdev.antt =====
-- src/vdev.rs: the routing of a block pointer to the member devices.
pub mod Tree
pub mod Raidz
pub mod Copies
pub mod Sound
pub mod Heal
pub mod Geometry
pub mod Parity
pub mod Degraded
pub mod Safe
pub mod Refusals
pub mod Spares
use lamzfs.Common.{
  ℕ, ◌*◌, Option, none, some, List, [], ◌∷◌, not, ◌||◌, ltb, ◌==◌, if◌then◌else◌, get_elem?,
  get_range,
}
use lamzfs.Error.{Error, mos, unsupported_feature, unsupported, inconsistent, io}
use lamzfs.Outcome.{Outcome, ok, err, panic, ok_or, refuse_if, ◌>>=◌, ◌>>◌}
use lamzfs.Phys.{
  Dva, BlockPointer, embedded, encrypted, regular, BlockPointerEmbedded, BlockPointerRegular,
}
use lamzfs.Vendored.{Vendored}
use lamzfs.BlockRead.{PoolMember, read_exact}
use lamzfs.Cksum.{verify_block}
use lamzfs.Compress.{decompress, max_block_lsize}
use Tree.{
  Layout, single, mirror, raidz1, Topology, flatten, read_order, dva_byte_offset, Attempt, found,
  failed, or_next, or_else,
}
use Raidz.{raidz1_read}

abbrev pub no_readable_copy : Error
no_readable_copy = inconsistent "bp_no_readable_copy" mos

-- The checks on each DVA before any read: no gang block, and no vdev but the only one.
unfoldable pub check_dvas : List Dva → Outcome (Unit {0})
check_dvas [] = ok tt
check_dvas (dva ∷ dvas) =
    let rest = check_dvas dvas in
    if dva.is_gang
    then err (unsupported "gang_block")
    else if not (dva.vdev == 0)
    then err (inconsistent "dva_vdev" mos)
    else rest

module _ (v : Vendored) (salt : Option (List ℕ)) (r : BlockPointerRegular) (psize lsize : ℕ) where
  -- The arms of the match on `verify_block`.
  unfoldable pub judged : List ℕ → Outcome (Unit {0}) → Attempt
  judged raw (ok _) = found (decompress v r.compression raw lsize)
  judged raw (err e) = failed e
  judged raw panic = found panic

  -- What follows the read.
  unfoldable pub checked : Dva → ℕ → Outcome (List ℕ) → Attempt
  unfolding judged
  checked dva byte (ok raw) =
      judged raw
        (verify_block v r.checksum_type r.order raw r.checksum_value salt dva.vdev dva.offset)
  checked dva byte _ = failed (io "io_block" dva.vdev byte)

  -- One read, checksum and decompression: what one child gives for one copy.
  unfoldable pub try_member : PoolMember → Dva → ℕ → Attempt
  unfolding checked
  try_member member dva byte = checked dva byte (read_exact member byte psize dva.vdev "io_block")

  -- The loop over the children, for the copy at `byte`.
  unfoldable pub try_children : List PoolMember → Dva → ℕ → Error → List ℕ → Attempt
  unfolding try_member or_next
  try_children members dva byte last [] = failed last
  try_children members dva byte last (mi ∷ rest) = elim (get_elem? members mi) [
    | none ↦ try_children members dva byte last rest
    | some member ↦ or_next (try_member member dva byte) λ e. try_children members dva byte e rest
  ]

  -- The loop over the DVA copies.
  unfoldable pub try_copies : List PoolMember → List ℕ → Error → List Dva → Outcome (List ℕ)
  unfolding try_children or_else
  try_copies members children last [] = err last
  try_copies members children last (dva ∷ dvas) = elim (dva_byte_offset dva.offset) [
    | none ↦ try_copies members children (inconsistent "dva_out_of_range" mos) dvas
    | some byte ↦
        or_else (try_children members dva byte last children)
          λ e. try_copies members children e dvas
  ]

module _ (v : Vendored) (members : List PoolMember) (topo : Topology) where
  unfoldable pub read_embedded : BlockPointerEmbedded → Outcome (List ℕ)
  read_embedded e = do
    src ← ok_or (get_range e.payload 0 e.physical_size) (inconsistent "embedded_short" mos)
    decompress v e.compression src e.logical_size

  -- The read by layout, once the pointer has passed its checks.
  unfoldable pub read_copies : Layout → BlockPointerRegular → ℕ → ℕ → Outcome (List ℕ)
  unfolding try_copies raidz1_read read_order
  read_copies (raidz1 children ashift) r psize lsize =
      raidz1_read v topo.checksum_salt r psize lsize members children ashift
  read_copies layout r psize lsize =
      try_copies v topo.checksum_salt r psize lsize members (read_order layout) no_readable_copy
        (flatten r.dvas)

  unfoldable pub read_regular : BlockPointerRegular → Outcome (List ℕ)
  unfolding read_copies check_dvas flatten
  read_regular r = do
    let lsize = r.logical_sectors * 512
    let psize = r.physical_sectors * 512
    refuse_if (psize == 0 || ltb max_block_lsize psize) (inconsistent "bp_bad_psize" mos)
    check_dvas (flatten r.dvas)
    read_copies topo.layout r psize lsize

  unfoldable pub read_block_pointer : BlockPointer → Outcome (List ℕ)
  unfolding read_embedded read_regular
  read_block_pointer (embedded e) = read_embedded e
  read_block_pointer (encrypted order) = err (unsupported_feature "encryption")
  read_block_pointer (regular r) = read_regular r
