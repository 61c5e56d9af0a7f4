-- ===== src/Walk/Slots/Large.antt =====
-- `read_object` of src/walk.rs on an object of several slots.
use mathlib.Core.Path.{subst}
use lamzfs.Common.{
  ℕ, ◌+◌, ◌-◌, ◌*◌, ◌/◌, ◌%◌, ◌^◌, ◌≤◌, ◌<◌, ◌≡◌, ap, sym, ◌∙◌, inl, inr, some, Bool, true, false,
  ◌||◌, List, arith, ltb, leb, ◌==◌, if◌then◌else◌, length, take, drop, get_elem?, get_range,
  get_elem?-take, get_range-take, take-take, Bool-cases,
}
use lamzfs.Error.{Location, inconsistent}
use lamzfs.Outcome.{
  ok, or_panic, refuse_if, >>=-eq-ok, or_panic-eq-ok, refuse_if-eq-ok, ok-injective,
}
use lamzfs.Phys.{EndianOrder, Dnode}
use lamzfs.Vendored.{Vendored}
use lamzfs.BlockRead.{PoolMember}
use lamzfs.Cksum.{from_bytes}
use lamzfs.Vdev.Tree.{Topology}
use lamzfs.File.{read_dnode_range}
use lamzfs.File.Range.{read_dnode_range-bytes}
use lamzfs.File.Total.{read_dnode_range-slice}
use lamzfs.Walk.{
  ObjectDnode, dnode_size, dnode_max_slots, dnode_header_size, dn_nblkptr, dn_flags, dn_bonuslen,
  spill_flag, first_slot, decode_dnode, read_large_object,
}
use lamzfs.Walk.Safe.{decode_dnode-inv}

-- The decoder's slot depends on the first slot alone.
first_slot-take :
    (full : List ℕ) (start flags : ℕ)
    → start ≤ 512
    → first_slot (take 512 full) start flags ≡ first_slot full start flags
unfolding first_slot
first_slot-take full start flags h =
    rw (take-take start 512 full h) (λ i. first_slot full start flags)

-- Two bounds, neither of which is passed.
neither_above : (a b c d : ℕ) → (ltb a b || ltb c d) ≡ false → (b ≤ a) × (d ≤ c)
neither_above a b c d h = (ground arith, ground arith)

first_false : (a b : Bool) → (a || b) ≡ false → a ≡ false
first_false false b h = λ i. false
first_false true b h = cc

few_slots : (slots : ℕ) (b : Bool) → (ltb dnode_max_slots slots || b) ≡ false → slots ≤ 32
few_slots slots b h =
    let few : ltb 32 slots ≡ false = first_false (ltb dnode_max_slots slots) b h in ground arith

module _ (v : Vendored) (members : List PoolMember) (topo : Topology) (order : EndianOrder) where
  -- An object in several slots: its dnode is what the first slot decodes to without the bonus length
  -- and the spill flag, and its bonus is what the array holds behind the block pointers, before the
  -- spill pointer.
  pub record InSlots (array : Dnode) (byte_off slots : ℕ) (first : List ℕ) (object : ObjectDnode)
      : Type 0 where
    pub nblkptr : ℕ
    pub flags : ℕ
    pub len_bytes : List ℕ
    pub at_nblkptr : get_elem? first dn_nblkptr ≡ some nblkptr
    pub at_flags : get_elem? first dn_flags ≡ some flags
    pub at_len : get_range first dn_bonuslen 2 ≡ some len_bytes
    pub decoded :
        v.dnode_decode order (first_slot first (dnode_header_size + nblkptr * 128) flags)
        ≡ some (some object.dnode)
    pub room :
        dnode_header_size + nblkptr * 128 + from_bytes order len_bytes
        ≤ slots * dnode_size - (if spill_flag flags then 128 else 0)
    pub bonus :
        read_dnode_range v members topo order array
          (byte_off + (dnode_header_size + nblkptr * 128))
          (from_bytes order len_bytes)
        ≡ ok object.bonus

  -- A slice of a range that was read is what the array holds there.
  part :
      (array : Dnode) (off len a n : ℕ) (bs ys : List ℕ)
      → off + len ≤ 2 ^ 64
      → read_dnode_range v members topo order array off len ≡ ok bs
      → get_range bs a n ≡ some ys
      → read_dnode_range v members topo order array (off + a) n ≡ ok ys
  part array off len a n bs ys fits h e =
      let (l, _) = read_dnode_range-bytes v members topo order array off len bs h in
      elim (Bool-cases (leb (a + n) (length bs))) [
        | inl t ↦
            let here = rw t at e in
            let same : take n (drop a bs) ≡ ys = cc in
            read_dnode_range-slice v members topo order array off len a n bs fits (ground arith) h
            ∙ ap ok same
        | inr f ↦ let absent = rw f at e in absurd (cc)
      ]

  -- The first slot of an object is the front of its slots.
  first_slot_of :
      (array : Dnode) (byte_off slots : ℕ) (first full : List ℕ)
      → 0 < slots
      → byte_off + slots * dnode_size ≤ 2 ^ 64
      → read_dnode_range v members topo order array byte_off dnode_size ≡ ok first
      → read_dnode_range v members topo order array byte_off (slots * dnode_size) ≡ ok full
      → first ≡ take 512 full
  first_slot_of array byte_off slots first full pos fits r h =
      let at : byte_off + 0 ≡ byte_off = omega arith in
      let front =
        read_dnode_range-slice v members topo order array byte_off (slots * dnode_size) 0 512 full
          fits (omega arith) h in
      ok-injective (sym r ∙ rw at at front)

  -- What `read_object` reads of all the slots, told of the first.
  assemble :
      (array : Dnode) (byte_off slots nblkptr flags : ℕ) (first full len_bytes bonus : List ℕ)
      (dnode : Dnode)
      → 0 < slots
      → byte_off + slots * dnode_size ≤ 2 ^ 64
      → read_dnode_range v members topo order array byte_off dnode_size ≡ ok first
      → read_dnode_range v members topo order array byte_off (slots * dnode_size) ≡ ok full
      → get_elem? full dn_nblkptr ≡ some nblkptr
      → get_elem? full dn_flags ≡ some flags
      → get_range full dn_bonuslen 2 ≡ some len_bytes
      → dnode_header_size + nblkptr * 128 ≤ dnode_size
      → dnode_header_size + nblkptr * 128 + from_bytes order len_bytes
        ≤ slots * dnode_size - (if spill_flag flags then 128 else 0)
      → v.dnode_decode order (first_slot full (dnode_header_size + nblkptr * 128) flags)
        ≡ some (some dnode)
      → get_range full (dnode_header_size + nblkptr * 128) (from_bytes order len_bytes) ≡ some bonus
      → InSlots array byte_off slots first (record { dnode = dnode; bonus = bonus })
  assemble array byte_off slots nblkptr flags first full len_bytes bonus dnode pos whole r e e₁ e₂
        e₃ narrow room d e₄ =
      let start = dnode_header_size + nblkptr * 128 in
      let head : first ≡ take 512 full =
        first_slot_of array byte_off slots first full pos whole r e in
      record {
        nblkptr = nblkptr;
        flags = flags;
        len_bytes = len_bytes;
        at_nblkptr = ap (λ xs. get_elem? xs 3) head ∙ get_elem?-take 512 3 full (omega arith) ∙ e₁;
        at_flags = ap (λ xs. get_elem? xs 7) head ∙ get_elem?-take 512 7 full (omega arith) ∙ e₂;
        at_len = ap (λ xs. get_range xs 10 2) head ∙ get_range-take 10 2 512 full (omega arith) e₃;
        decoded =
            ap (λ xs. v.dnode_decode order (first_slot xs start flags)) head
            ∙ ap (v.dnode_decode order) (first_slot-take full start flags narrow)
            ∙ d;
        room = room;
        bonus =
            part array byte_off (slots * dnode_size) start (from_bytes order len_bytes) full bonus
              whole e e₄;
      }

  pub large-InSlots :
      (array : Dnode) (objnum byte_off slots : ℕ) (first : List ℕ) (object : ObjectDnode)
      → 0 < slots
      → byte_off + dnode_max_slots * dnode_size ≤ 2 ^ 64
      → read_dnode_range v members topo order array byte_off dnode_size ≡ ok first
      → read_large_object v members topo order array objnum byte_off slots ≡ ok object
      → InSlots array byte_off slots first object
  unfolding read_large_object
  large-InSlots array objnum byte_off slots first object pos below r h =
      let (_, c, h₁) =
        >>=-eq-ok (refuse_if scattered (inconsistent "dnode_slots" (Location.dnode objnum))) _ h in
      let (full, e, h₂) =
        >>=-eq-ok (read_dnode_range v members topo order array byte_off (slots * dnode_size)) _
          h₁ in
      let (nblkptr, e₁, h₃) = >>=-eq-ok (or_panic (get_elem? full dn_nblkptr)) _ h₂ in
      let (flags, e₂, h₄) = >>=-eq-ok (or_panic (get_elem? full dn_flags)) _ h₃ in
      let (len_bytes, e₃, h₅) = >>=-eq-ok (or_panic (get_range full dn_bonuslen 2)) _ h₄ in
      let (_, c', h₆) =
        >>=-eq-ok
          (refuse_if (past nblkptr flags len_bytes)
            (inconsistent "dnode_bonus_len" (Location.dnode objnum)))
          _ h₅ in
      let start = dnode_header_size + nblkptr * 128 in
      let (dnode, d, h₇) =
        >>=-eq-ok (decode_dnode v members topo order (first_slot full start flags) objnum) _ h₆ in
      let (bonus, e₄, h₈) =
        >>=-eq-ok (or_panic (get_range full start (from_bytes order len_bytes))) _ h₇ in
      let few : slots ≤ 32 = few_slots slots _ (refuse_if-eq-ok scattered _ c) in
      let (narrow, room) =
        neither_above dnode_size start (slots * dnode_size - (if spill_flag flags then 128 else 0))
          (start + from_bytes order len_bytes)
          (refuse_if-eq-ok (past nblkptr flags len_bytes) _ c') in
      let whole : byte_off + slots * dnode_size ≤ 2 ^ 64 = omega arith in
      subst (InSlots array byte_off slots first) (ok-injective h₈) (
        assemble array byte_off slots nblkptr flags first full len_bytes bonus dnode pos whole r e
          (or_panic-eq-ok (get_elem? full dn_nblkptr) e₁)
          (or_panic-eq-ok (get_elem? full dn_flags) e₂)
          (or_panic-eq-ok (get_range full dn_bonuslen 2) e₃) narrow room
          (decode_dnode-inv v members topo order (first_slot full start flags) objnum dnode d)
          (or_panic-eq-ok (get_range full start (from_bytes order len_bytes)) e₄))
    where
      scattered : Bool
      scattered =
          let block_slots = array.data_block_size_sectors * 512 / dnode_size in
          ltb dnode_max_slots slots
          || (block_slots == 0 || ltb block_slots (objnum % block_slots + slots))

      past : ℕ → ℕ → List ℕ → Bool
      past nblkptr flags len_bytes =
          ltb dnode_size (dnode_header_size + nblkptr * 128)
          || ltb (slots * dnode_size - (if spill_flag flags then 128 else 0))
              (dnode_header_size + nblkptr * 128 + from_bytes order len_bytes)
