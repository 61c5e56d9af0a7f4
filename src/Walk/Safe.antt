-- ===== src/Walk/Safe.antt =====
-- `read_object` of src/walk.rs: no index into a dnode's slots is out of range.
use lamzfs.Common.{
  ℕ, ◌+◌, ◌-◌, ◌*◌, ◌/◌, ◌%◌, ◌≤◌, ◌<◌, ◌≡◌, some, Bool, true, ◌||◌, List, arith, ltb, leb, ◌==◌,
  if◌then◌else◌, length, get_elem?, get_range, get_elem?-in_range, checked_mul,
}
use lamzfs.Error.{Error, Location, inconsistent}
use lamzfs.Outcome.{
  ok, ok_or, or_panic, refuse_if, NoPanic, NoPanic->>=, NoPanic-ok_or, NoPanic-refuse_if,
  NoPanic-if, >>=-eq-ok, ok_or-eq-ok, refuse_if-eq-ok,
}
use lamzfs.Phys.{EndianOrder, Dnode}
use lamzfs.Vendored.{Vendored}
use lamzfs.BlockRead.{PoolMember}
use lamzfs.Cksum.{from_bytes}
use lamzfs.Vdev.Tree.{Topology}
use lamzfs.File.{read_dnode_range}
use lamzfs.File.Range.{read_dnode_range-bytes}
use lamzfs.File.Safe.{read_dnode_range-NoPanic}
use lamzfs.Walk.{
  dnode_size, dnode_max_slots, dnode_header_size, dn_nblkptr, dn_flags, dn_bonuslen, dn_extra_slots,
  spill_flag, bonus_used, decode_dnode, first_slot, read_large_object, read_object,
}

-- What `dnode.rs` promises of `bonus_len`: the decoder refuses one that does not fit the bonus.
abbrev pub BonusFits : Vendored → Type 0
BonusFits v =
    (order : EndianOrder) (bs : List ℕ) (dnode : Dnode)
    → v.dnode_decode order bs ≡ some (some dnode)
    → dnode.bonus_len ≤ length dnode.bonus

NoPanic-index : (xs : List ℕ) (i : ℕ) → i < length xs → NoPanic (or_panic (get_elem? xs i))
NoPanic-index xs i h = let (x, e) = get_elem?-in_range xs i h in rw e tt

NoPanic-slice : (xs : List ℕ) (a n : ℕ) → a + n ≤ length xs → NoPanic (or_panic (get_range xs a n))
NoPanic-slice xs a n h = let fits : leb (a + n) (length xs) ≡ true = ground arith in rw fits tt

module _ (v : Vendored) (members : List PoolMember) (topo : Topology) (order : EndianOrder) where
  decode_dnode-NoPanic :
      (buf : List ℕ) (objnum : ℕ) → NoPanic (decode_dnode v members topo order buf objnum)
  unfolding decode_dnode
  decode_dnode-NoPanic buf objnum =
      NoPanic->>= (ok_or (v.dnode_decode order buf) _) _ (NoPanic-ok_or _ _)
        λ slot _. NoPanic-ok_or slot _

  pub decode_dnode-inv :
      (buf : List ℕ) (objnum : ℕ) (dnode : Dnode)
      → decode_dnode v members topo order buf objnum ≡ ok dnode
      → v.dnode_decode order buf ≡ some (some dnode)
  unfolding decode_dnode
  decode_dnode-inv buf objnum dnode h =
      let (slot, e, g) =
        >>=-eq-ok
          (ok_or (v.dnode_decode order buf) (inconsistent "dnode_decode" (Location.dnode objnum))) _
          h in
      let a : v.dnode_decode order buf ≡ some slot = ok_or-eq-ok (v.dnode_decode order buf) _ e in
      let b : slot ≡ some dnode = ok_or-eq-ok slot _ g in cc

  NoPanic-bonus_used :
      (buf : List ℕ) (objnum : ℕ) (dnode : Dnode)
      → BonusFits v
      → decode_dnode v members topo order buf objnum ≡ ok dnode
      → NoPanic (bonus_used dnode)
  NoPanic-bonus_used buf objnum dnode fits h =
      NoPanic-slice dnode.bonus 0 dnode.bonus_len
        (omega (arith, fits order buf dnode (decode_dnode-inv buf objnum dnode h)))

  read_large_object-NoPanic :
      (dnode_array : Dnode) (objnum byte_off slots : ℕ)
      → 0 < slots
      → NoPanic (read_large_object v members topo order dnode_array objnum byte_off slots)
  unfolding read_large_object
  read_large_object-NoPanic dnode_array objnum byte_off slots pos =
      NoPanic->>= (refuse_if scattered (inconsistent "dnode_slots" (Location.dnode objnum))) _
        (NoPanic-refuse_if scattered _)
        λ _ _.
          NoPanic->>=
            (read_dnode_range v members topo order dnode_array byte_off (slots * dnode_size)) _
            (read_dnode_range-NoPanic v members topo order dnode_array byte_off
              (slots * dnode_size))
            λ full e.
              let long : length full ≡ slots * 512 =
                (read_dnode_range-bytes v members topo order dnode_array byte_off
                  (slots * dnode_size) full e).0 in
              NoPanic->>= (or_panic (get_elem? full dn_nblkptr)) _
                (NoPanic-index full dn_nblkptr (omega arith))
                λ nblkptr _.
                  NoPanic->>= (or_panic (get_elem? full dn_flags)) _
                    (NoPanic-index full dn_flags (omega arith))
                    λ flags _.
                      NoPanic->>= (or_panic (get_range full dn_bonuslen 2)) _
                        (NoPanic-slice full dn_bonuslen 2 (omega arith))
                        λ len_bytes _.
                          NoPanic->>= (refuse_if (past nblkptr flags len_bytes) bonus_error) _
                            (NoPanic-refuse_if (past nblkptr flags len_bytes) _)
                            λ _ c.
                              NoPanic->>=
                                (decode_dnode v members topo order
                                  (first_slot full (dnode_header_size + nblkptr * 128) flags)
                                  objnum)
                                _
                                (decode_dnode-NoPanic
                                  (first_slot full (dnode_header_size + nblkptr * 128) flags)
                                  objnum)
                                λ dnode _.
                                  NoPanic->>=
                                    (or_panic (
                                      get_range full (dnode_header_size + nblkptr * 128)
                                        (from_bytes order len_bytes)))
                                    _
                                    (NoPanic-slice full (dnode_header_size + nblkptr * 128)
                                      (from_bytes order len_bytes)
                                      (ground (
                                        arith,
                                        refuse_if-eq-ok (past nblkptr flags len_bytes) _ c,
                                      )))
                                    λ bonus _. tt
    where
      bonus_error : Error
      bonus_error = inconsistent "dnode_bonus_len" (Location.dnode objnum)

      scattered : Bool
      scattered =
          let block_slots = dnode_array.data_block_size_sectors * 512 / dnode_size in
          ltb dnode_max_slots slots
          || (block_slots == 0 || ltb block_slots (objnum % block_slots + slots))

      past : ℕ → ℕ → List ℕ → Bool
      past nblkptr flags len_bytes =
          ltb dnode_size (dnode_header_size + nblkptr * 128)
          || ltb (slots * dnode_size - (if spill_flag flags then 128 else 0))
              (dnode_header_size + nblkptr * 128 + from_bytes order len_bytes)

  pub read_object-NoPanic :
      (dnode_array : Dnode) (objnum : ℕ)
      → BonusFits v
      → NoPanic (read_object v members topo order dnode_array objnum)
  unfolding read_object
  read_object-NoPanic dnode_array objnum fits =
      NoPanic->>=
        (ok_or (checked_mul objnum dnode_size)
          (inconsistent "dnode_obj_overflow" (Location.dnode objnum)))
        _ (NoPanic-ok_or (checked_mul objnum dnode_size) _)
        λ byte_off _.
          NoPanic->>= (read_dnode_range v members topo order dnode_array byte_off dnode_size) _
            (read_dnode_range-NoPanic v members topo order dnode_array byte_off dnode_size)
            λ first e.
              let long : length first ≡ 512 =
                (read_dnode_range-bytes v members topo order dnode_array byte_off dnode_size first
                  e).0 in
              NoPanic->>= (or_panic (get_elem? first dn_extra_slots)) _
                (NoPanic-index first dn_extra_slots (omega arith))
                λ extra_slots _.
                  NoPanic-if (extra_slots == 0) _ _
                    (NoPanic->>= (decode_dnode v members topo order first objnum) _
                      (decode_dnode-NoPanic first objnum)
                      λ dnode h.
                        NoPanic->>= (bonus_used dnode) _
                          (NoPanic-bonus_used first objnum dnode fits h) λ bonus _. tt)
                    (read_large_object-NoPanic dnode_array objnum byte_off (extra_slots + 1)
                      (omega arith))
