-- ===== src/Walk/Slots.antt =====
-- `read_object` of src/walk.rs against the bytes of the dnode array: where the dnode and the bonus of
-- an object lie in its slots.
mod Large
use mathlib.Core.Path.{subst}
use lamzfs.Common.{
  ℕ, ◌+◌, ◌-◌, ◌*◌, ◌/◌, ◌%◌, ◌^◌, ◌≤◌, ◌<◌, ◌≡◌, ap, sym, ◌∙◌, ◌⊎◌, inl, inr, some, Bool, true,
  false, ◌||◌, List, arith, ltb, leb, ◌==◌, if◌then◌else◌, length, take, drop, get_elem?, get_range,
  get_elem?-take, get_range-take, take-take, checked_mul, Bool-cases, ==_iff,
}
use lamzfs.Error.{Location, inconsistent}
use lamzfs.Outcome.{
  Outcome, ok, ok_or, ◌>>=◌, or_panic, refuse_if, >>=-eq-ok, ok_or-eq-ok, or_panic-eq-ok,
  refuse_if-eq-ok, ok-injective,
}
use lamzfs.Phys.{EndianOrder, Dnode}
use lamzfs.Vendored.{Vendored}
use lamzfs.BlockRead.{PoolMember, fill}
use lamzfs.Cksum.{from_bytes}
use lamzfs.Vdev.Tree.{Topology}
use lamzfs.File.{read_dnode_range}
use lamzfs.File.Range.{read_dnode_range-bytes}
use lamzfs.File.Total.{read_dnode_range-slice}
use lamzfs.Walk.{
  ObjectDnode, dnode_size, dnode_max_slots, dnode_header_size, dn_nblkptr, dn_flags, dn_bonuslen,
  dn_extra_slots, spill_flag, bonus_used, first_slot, decode_dnode, read_large_object, read_object,
}
use lamzfs.Walk.Safe.{decode_dnode-inv}
use Large.{InSlots, large-InSlots}

checked_mul-eq-some : (a b : ℕ) {n : ℕ} → checked_mul a b ≡ some n → n ≡ a * b
checked_mul-eq-some a b h = ground arith

module _ (v : Vendored) (members : List PoolMember) (topo : Topology) (order : EndianOrder) where
  -- An object in one slot: its dnode is what the slot decodes to, its bonus the used part of the
  -- dnode's.
  pub record InSlot (first : List ℕ) (object : ObjectDnode) : Type 0 where
    pub decoded : v.dnode_decode order first ≡ some (some object.dnode)
    pub used : get_range object.dnode.bonus 0 object.dnode.bonus_len ≡ some object.bonus

  -- An object as the slots that begin at this byte of the array hold it.
  abbrev pub IsObject : Dnode → ℕ → ObjectDnode → Type 0
  IsObject array byte_off object =
      (first : List ℕ) × (extra : ℕ) × (read_dnode_range v members topo order array byte_off
          dnode_size
        ≡ ok first)
      × (get_elem? first dn_extra_slots ≡ some extra)
      × (((extra ≡ 0) × InSlot first object)
          ⊎ ((0 < extra) × InSlots v members topo order array byte_off (extra + 1) first object))

  small-InSlot :
      (first : List ℕ) (objnum : ℕ) (object : ObjectDnode)
      → (decode_dnode v members topo order first objnum >>= λ dnode.
          bonus_used dnode >>= λ bonus. ok (record { dnode = dnode; bonus = bonus }))
        ≡ ok object
      → InSlot first object
  small-InSlot first objnum object h =
      let (dnode, d, h₁) = >>=-eq-ok (decode_dnode v members topo order first objnum) _ h in
      let (bonus, e, h₂) = >>=-eq-ok (bonus_used dnode) _ h₁ in
      subst (InSlot first) (ok-injective h₂) (record {
        decoded = decode_dnode-inv v members topo order first objnum dnode d;
        used = or_panic-eq-ok (get_range dnode.bonus 0 dnode.bonus_len) e;
      })

  slots-IsObject :
      (array : Dnode) (objnum byte_off extra : ℕ) (first : List ℕ) (object : ObjectDnode)
      → byte_off + dnode_max_slots * dnode_size ≤ 2 ^ 64
      → read_dnode_range v members topo order array byte_off dnode_size ≡ ok first
      → (if extra == 0
          then (decode_dnode v members topo order first objnum >>= λ dnode.
              bonus_used dnode >>= λ bonus. ok (record { dnode = dnode; bonus = bonus }))
          else read_large_object v members topo order array objnum byte_off (extra + 1))
        ≡ ok object
      → ((extra ≡ 0) × InSlot first object)
        ⊎ ((0 < extra) × InSlots v members topo order array byte_off (extra + 1) first object)
  slots-IsObject array objnum byte_off extra first object below r h =
      elim (Bool-cases (extra == 0)) [
        | inl z ↦ inl ((==_iff extra 0).0 z, small-InSlot first objnum object (rw z at h))
        | inr n ↦ inr (
          ground arith,
          large-InSlots v members topo order array objnum byte_off (extra + 1) first object
              (omega arith) below r (rw n at h),
        )
      ]

  -- An object that `read_object` returns, whose 32 slots at most lie below 2^64, is what the dnode
  -- array holds at its number: in one slot, the dnode that the slot decodes to, with the used part of
  -- its bonus; in several, the dnode that the first slot decodes to once the bonus length and the spill
  -- flag are cleared, with the bytes behind its block pointers for a bonus, as many as the slot's
  -- header says, which end within the slots and before a spill pointer.
  pub read_object-IsObject :
      (array : Dnode) (objnum : ℕ) (object : ObjectDnode)
      → objnum * dnode_size + dnode_max_slots * dnode_size ≤ 2 ^ 64
      → read_object v members topo order array objnum ≡ ok object
      → IsObject array (objnum * dnode_size) object
  unfolding read_object
  read_object-IsObject array objnum object below h =
      let (byte_off, c, h₁) =
        >>=-eq-ok
          (ok_or (checked_mul objnum dnode_size)
            (inconsistent "dnode_obj_overflow" (Location.dnode objnum)))
          _ h in
      let (first, r, h₂) =
        >>=-eq-ok (read_dnode_range v members topo order array byte_off dnode_size) _ h₁ in
      let (extra, e, h₃) = >>=-eq-ok (or_panic (get_elem? first dn_extra_slots)) _ h₂ in
      let at : byte_off ≡ objnum * dnode_size =
        checked_mul-eq-some objnum dnode_size (ok_or-eq-ok (checked_mul objnum dnode_size) _ c) in
      subst (λ off. IsObject array off object) at
        (
          first,
          extra,
          r,
          or_panic-eq-ok (get_elem? first dn_extra_slots) e,
          slots-IsObject array objnum byte_off extra first object (omega arith) r h₃,
        )
