-- ===== src/Vdev/Heal.antt =====
-- The read side of self-healing in src/vdev.rs: one child of a mirror with one good copy is enough.
pub mod Children
use mathlib.Core.Path.{subst}
use lamzfs.Common.{
  ℕ, ◌*◌, ◌≤◌, ◌<◌, ◌≡◌, ◌≢◌, refl, ap, sym, ◌∙◌, inl, inr, Option, some, false, List, [], ◌∷◌,
  arith, get_elem?, InList, Option-cases, ltb, ◌==◌, ◌||◌,
}
use lamzfs.Error.{Error, io}
use lamzfs.Outcome.{Outcome, ok, err, panic}
use lamzfs.Phys.{Dva, BlockPointerRegular, regular}
use lamzfs.Vendored.{Vendored}
use lamzfs.BlockRead.{PoolMember, read_exact}
use lamzfs.Cksum.{verify_block}
use lamzfs.Cksum.Sound.{verify_block-ne-panic}
use lamzfs.Compress.{decompress, max_block_lsize}
use lamzfs.Vdev.{
  check_dvas, judged, checked, try_member, try_children, try_copies, read_copies,
  read_block_pointer, no_readable_copy,
}
use lamzfs.Vdev.Tree.{
  Layout, single, mirror, raidz1, Topology, flatten, read_order, dva_byte_offset, Attempt, found,
  failed, or_next,
}
use lamzfs.Vdev.Copies.{Settled, or_else-Settled}
use Children.{found-failed, GoodCopy, OnlyCopy, decoded, try_children_good, try_children-Settled}

module _ (v : Vendored) (salt : Option (List ℕ)) (r : BlockPointerRegular) (psize lsize : ℕ) where
  module _ (raw : List ℕ) where
    try_copies_heals :
        (members : List PoolMember) (children : List ℕ) (last : Error) (dvas : List Dva) (dva : Dva)
        → InList dva dvas
        → (g : GoodCopy v salt r psize lsize members children dva)
        → OnlyCopy v salt r psize lsize members children dvas raw
        → try_copies v salt r psize lsize members children last dvas
          ≡ (decoded v salt r psize lsize raw)
    unfolding try_copies
    try_copies_heals members children last [] dva i g only = absurd i
    try_copies_heals members children last (d ∷ dvas) dva (inl p) g only =
        let h : GoodCopy v salt r psize lsize members children d =
          subst (GoodCopy v salt r psize lsize members children) p g in
        let (o, e) =
          try_children_good v salt r psize lsize members d h.byte last children h.child h.member
            h.raw h.in_order h.is_member h.reads h.accepted in
        let settled =
          try_children-Settled v salt r psize lsize raw members (d ∷ dvas) d h.byte (inl refl) h.at
            children only last in
        rw (h.at, try_copies)
          (or_else-Settled (decoded v salt r psize lsize raw)
            (try_children v salt r psize lsize members d h.byte last children) _ settled
            λ x f. absurd (found-failed (sym e ∙ f)))
    try_copies_heals members children last (d ∷ dvas) dva (inr i) g only =
        let fewer : OnlyCopy v salt r psize lsize members children dvas raw =
          λ d b child m other l. only d b child m other (inr l) in
        elim (Option-cases (dva_byte_offset d.offset)) [
          | inl q ↦ rw (q, try_copies) (try_copies_heals members children _ dvas dva i g fewer)
          | inr (byte, q) ↦
              rw (q, try_copies)
                (or_else-Settled (decoded v salt r psize lsize raw)
                  (try_children v salt r psize lsize members d byte last children) _
                  (try_children-Settled v salt r psize lsize raw members (d ∷ dvas) d byte
                    (inl refl) q children only last)
                  λ x f. try_copies_heals members children x dvas dva i g fewer)
        ]

module _ (v : Vendored) (members : List PoolMember) (topo : Topology) where
  -- The checks of a regular pointer that come before any read.
  pub record PassesChecks (r : BlockPointerRegular) : Type 0 where
    pub size_lower : 0 < r.physical_sectors
    pub size_upper : r.physical_sectors * 512 ≤ max_block_lsize
    pub addresses : check_dvas (flatten r.dvas) ≡ ok tt

  read_copies_heals :
      (layout : Layout) (r : BlockPointerRegular) (psize lsize : ℕ) (dva : Dva)
      → InList dva (flatten r.dvas)
      → (g : GoodCopy v topo.checksum_salt r psize lsize members (read_order layout) dva)
      → OnlyCopy v topo.checksum_salt r psize lsize members
          (read_order layout)
          (flatten r.dvas)
          g.raw
      → read_copies v members topo layout r psize lsize ≡ decompress v r.compression g.raw lsize
  unfolding read_copies
  read_copies_heals (raidz1 children ashift) r psize lsize dva i g only = absurd g.in_order
  read_copies_heals (single idx) r psize lsize dva i g only =
      try_copies_heals v topo.checksum_salt r psize lsize g.raw members (idx ∷ []) no_readable_copy
        (flatten r.dvas) dva i g only
  read_copies_heals (mirror children) r psize lsize dva i g only =
      try_copies_heals v topo.checksum_salt r psize lsize g.raw members children no_readable_copy
        (flatten r.dvas) dva i g only

  -- On a single leaf or a mirror, if a regular pointer passes the checks, one child has bytes that
  -- verify for one of its addresses, and no child has other bytes that verify for any of them, then
  -- the read gives what those bytes decompress to: no sibling that fails or does not verify, tried
  -- before it, changes the result.
  pub read_block_pointer_heals :
      (r : BlockPointerRegular) (dva : Dva)
      → PassesChecks r
      → InList dva (flatten r.dvas)
      → (g : GoodCopy v topo.checksum_salt r
          (r.physical_sectors * 512)
          (r.logical_sectors * 512)
          members
          (read_order topo.layout)
          dva)
      → OnlyCopy v topo.checksum_salt r
          (r.physical_sectors * 512)
          (r.logical_sectors * 512)
          members
          (read_order topo.layout)
          (flatten r.dvas)
          g.raw
      → read_block_pointer v members topo (regular r)
        ≡ decompress v r.compression g.raw (r.logical_sectors * 512)
  unfolding read_block_pointer
  read_block_pointer_heals r dva c i g only =
      rw (passes, c.addresses)
        (read_copies_heals topo.layout r (r.physical_sectors * 512) (r.logical_sectors * 512) dva i
          g only)
    where
      passes :
          (r.physical_sectors * 512 == 0 || ltb max_block_lsize (r.physical_sectors * 512)) ≡ false
      passes = ground (arith, c.size_lower, c.size_upper)
