-- ===== src/Walk/Decoded.antt =====
-- The dnodes that `read_object` of src/walk.rs gives are those of the decoder.
use lamzfs.Common.{
  ℕ, ◌+◌, ◌-◌, ◌*◌, ◌/◌, ◌%◌, ◌≡◌, some, ◌||◌, List, ltb, ◌==◌, if◌then◌else◌, get_elem?, get_range,
  checked_mul,
}
use lamzfs.Error.{Location, inconsistent}
use lamzfs.Outcome.{ok, ok_or, or_panic, refuse_if, IfOk, IfOk->>=, IfOk-elim, IfOk-if, >>=-eq-ok}
use lamzfs.Phys.{EndianOrder, Dnode}
use lamzfs.Vendored.{Vendored}
use lamzfs.BlockRead.{PoolMember}
use lamzfs.Cksum.{from_bytes}
use lamzfs.Vdev.Tree.{Topology}
use lamzfs.File.{read_dnode_range}
use lamzfs.Walk.{
  ObjectDnode, dnode_size, dnode_max_slots, dnode_header_size, dn_nblkptr, dn_flags, dn_bonuslen,
  dn_extra_slots, spill_flag, bonus_used, first_slot, decode_dnode, read_large_object, read_object,
  read_object_dnode,
}
use lamzfs.Walk.Safe.{decode_dnode-inv}

module _ (v : Vendored) (members : List PoolMember) (topo : Topology) (order : EndianOrder) where
  -- The dnode is one that the decoder gives for some slot.
  abbrev pub IsDecoded : Dnode → Type 0
  IsDecoded dnode = (slot : List ℕ) × (v.dnode_decode order slot ≡ some (some dnode))

  abbrev Decodes : ObjectDnode → Type 0
  Decodes object = IsDecoded object.dnode

  read_large_object-Decodes :
      (array : Dnode) (objnum byte_off slots : ℕ)
      → IfOk Decodes (read_large_object v members topo order array objnum byte_off slots)
  unfolding read_large_object
  read_large_object-Decodes array objnum byte_off slots =
      IfOk->>= Decodes
        (refuse_if
          (ltb dnode_max_slots slots
            || (array.data_block_size_sectors * 512 / dnode_size == 0
                || ltb (array.data_block_size_sectors * 512 / dnode_size)
                    (objnum % (array.data_block_size_sectors * 512 / dnode_size) + slots)))
          (inconsistent "dnode_slots" (Location.dnode objnum)))
        _
        λ _ _.
          IfOk->>= Decodes
            (read_dnode_range v members topo order array byte_off (slots * dnode_size)) _
            λ full _. IfOk->>= Decodes (or_panic (get_elem? full dn_nblkptr)) _ λ nblkptr _.
              IfOk->>= Decodes (or_panic (get_elem? full dn_flags)) _ λ flags _.
                IfOk->>= Decodes (or_panic (get_range full dn_bonuslen 2)) _ λ len _.
                  let start = dnode_header_size + nblkptr * 128 in
                  IfOk->>= Decodes
                    (refuse_if
                      (ltb dnode_size start
                        || ltb (slots * dnode_size - (if spill_flag flags then 128 else 0))
                            (start + from_bytes order len))
                      (inconsistent "dnode_bonus_len" (Location.dnode objnum)))
                    _
                    λ _ _.
                      IfOk->>= Decodes
                        (decode_dnode v members topo order (first_slot full start flags) objnum) _
                        λ dnode e.
                          IfOk->>= Decodes (or_panic (get_range full start (from_bytes order len)))
                            _
                            λ bonus _. (
                              first_slot full start flags,
                              decode_dnode-inv v members topo order (first_slot full start flags)
                                  objnum dnode e,
                            )

  read_object-Decodes :
      (array : Dnode) (objnum : ℕ) → IfOk Decodes (read_object v members topo order array objnum)
  unfolding read_object
  read_object-Decodes array objnum =
      IfOk->>= Decodes
        (ok_or (checked_mul objnum dnode_size)
          (inconsistent "dnode_obj_overflow" (Location.dnode objnum)))
        _
        λ byte_off _.
          IfOk->>= Decodes (read_dnode_range v members topo order array byte_off dnode_size) _
            λ first _. IfOk->>= Decodes (or_panic (get_elem? first dn_extra_slots)) _ λ extra _.
              IfOk-if Decodes (extra == 0) _ _
                (IfOk->>= Decodes (decode_dnode v members topo order first objnum) _ λ dnode e.
                  IfOk->>= Decodes (bonus_used dnode) _
                    λ bonus _. (first, decode_dnode-inv v members topo order first objnum dnode e))
                (read_large_object-Decodes array objnum byte_off (extra + 1))

  pub read_object_dnode-IsDecoded :
      (array : Dnode) (objnum : ℕ) (dnode : Dnode)
      → read_object_dnode v members topo order array objnum ≡ ok dnode
      → IsDecoded dnode
  unfolding read_object_dnode
  read_object_dnode-IsDecoded array objnum dnode h =
      let (object, e, g) = >>=-eq-ok (read_object v members topo order array objnum) _ h in
      let same : object.dnode ≡ dnode = cc in
      let d =
        IfOk-elim Decodes (read_object v members topo order array objnum)
          (read_object-Decodes array objnum) object e in
      let at : v.dnode_decode order d.0 ≡ some (some object.dnode) = d.1 in (d.0, cc)
