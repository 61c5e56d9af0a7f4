-- ===== src/Walk.antt =====
-- src/walk.rs: object sets, the dnodes of their objects, and ZAP lookup. The reassembly of a fat
-- ZAP's leaf stands in Leaf.
pub mod Leaf
pub mod Safe
pub mod Lookup
pub mod Decoded
pub mod Names
pub mod Panics
pub mod Typed
pub mod Slots
pub mod Alike
pub mod Entries
use mathlib.Core.Option
use lamzfs.Common.{
  ℕ, zero, suc, ◌+◌, ◌-◌, ◌*◌, ◌/◌, ◌%◌, ◌^◌, String, Bool, true, false, Option, none, some, List,
  [], ◌∷◌, ◌++◌, map, not, ◌&&◌, ◌||◌, ltb, leb, ◌==◌, if◌then◌else◌, length, take, drop, set,
  get_elem?, get_range, bytes_eq, checked_mul,
}
use lamzfs.Common.Bytes.{from_be_bytes, to_be_bytes}
use lamzfs.Error.{Error, Location, mos, inconsistent}
use lamzfs.Outcome.{Outcome, ok, err, panic, ok_or, or_panic, refuse_if, ◌>>=◌, ◌>>◌}
use lamzfs.Phys.{EndianOrder, BlockPointer, Dnode}
use lamzfs.Vendored.{Vendored}
use lamzfs.BlockRead.{PoolMember, fill}
use lamzfs.Cksum.{from_bytes}
use lamzfs.Vdev.{read_block_pointer}
use lamzfs.Vdev.Tree.{Topology}
use lamzfs.File.{read_dnode_block, read_dnode_range}
use Leaf.{zap_error, block_type, collect_leaf, leaf_chunk_size}

abbrev pub zap_micro : ℕ
zap_micro = 0x8000_0000_0000_0003

abbrev pub zap_fat_header : ℕ
zap_fat_header = 0x8000_0000_0000_0001

-- `ZapLeafHeader::BLOCK_TYPE`.
abbrev pub zap_leaf_type : ℕ
zap_leaf_type = 0x8000_0000_0000_0000

abbrev pub zap_leaf_header_size : ℕ
zap_leaf_header_size = 48

abbrev pub max_zap_leaf_blocks : ℕ
max_zap_leaf_blocks = 2 ^ 20

abbrev pub dnode_size : ℕ
dnode_size = 512

abbrev pub dnode_max_slots : ℕ
dnode_max_slots = 32

abbrev pub dnode_header_size : ℕ
dnode_header_size = 64

abbrev pub dn_nblkptr : ℕ
dn_nblkptr = 3

abbrev pub dn_flags : ℕ
dn_flags = 7

abbrev pub dn_bonuslen : ℕ
dn_bonuslen = 10

abbrev pub dn_extra_slots : ℕ
dn_extra_slots = 12

pub record ObjectDnode : Type 0 where
  pub dnode : Dnode
  pub bonus : List ℕ

-- `DNODE_FLAG_SPILL_BLKPTR`, bit 2 of the flags, and the flags without it.
abbrev pub spill_flag : ℕ → Bool
spill_flag flags = flags / 4 % 2 == 1

abbrev clear_spill : ℕ → ℕ
clear_spill flags = flags - flags / 4 % 2 * 4

-- `dnode.bonus_used()`: the first `bonus_len` bytes of the bonus, which panics out of range.
abbrev pub bonus_used : Dnode → Outcome (List ℕ)
bonus_used dnode = or_panic (get_range dnode.bonus 0 dnode.bonus_len)

-- The first slot of a large dnode with its bonus length and spill flag cleared.
unfoldable pub first_slot : List ℕ → ℕ → ℕ → List ℕ
first_slot full bonus_start flags =
    set
      (set (set (fill dnode_size (take bonus_start full)) dn_flags (clear_spill flags)) dn_bonuslen
        0)
      (dn_bonuslen + 1) 0

-- The first entry of a name, `find(…).map(…)`.
unfoldable pub find_name {ℓ} : {V : Type ℓ} → List ℕ → List (List ℕ × V) → Option V
find_name name [] = none
find_name name ((n, value) ∷ rest) = if bytes_eq n name then some value else find_name name rest

-- A ZAP value's last eight bytes as a big-endian number.
unfoldable pub value_as_u64 : List ℕ → ℕ
value_as_u64 value = from_be_bytes (drop (length value - 8) value)

-- `trailing_zeros`, over the bits left.
unfoldable pub trailing_zeros : ℕ → ℕ → ℕ
trailing_zeros zero n = 0
trailing_zeros (suc bits) n =
    let rest = trailing_zeros bits (n / 2) in if n % 2 == 0 then rest + 1 else 0

-- The items of the micro-ZAP iterator, up to the first that fails.
unfoldable pub micro_items : List (Option (List ℕ × ℕ)) → Outcome (List (List ℕ × ℕ))
micro_items [] = ok []
micro_items (none ∷ items) = err (zap_error "zap_entry")
micro_items (some entry ∷ items) = do rest ← micro_items items; ok (entry ∷ rest)

module _ (v : Vendored) (members : List PoolMember) (topo : Topology) (order : EndianOrder) where
  unfoldable pub read_objset : BlockPointer → Outcome Dnode
  read_objset bp = do
    bytes ← read_block_pointer v members topo bp
    ok_or (v.object_set_decode order bytes) (inconsistent "objset_decode" mos)

  unfoldable pub decode_dnode : List ℕ → ℕ → Outcome Dnode
  decode_dnode buf objnum = do
    slot ← ok_or (v.dnode_decode order buf) (inconsistent "dnode_decode" (Location.dnode objnum))
    ok_or slot (inconsistent "dnode_empty" (Location.dnode objnum))

  -- The part of `read_object` for a large dnode, whose `slots` lie within one dnode block.
  unfoldable pub read_large_object : Dnode → ℕ → ℕ → ℕ → Outcome ObjectDnode
  unfolding first_slot decode_dnode
  read_large_object dnode_array objnum byte_off slots = do
    let block_slots = dnode_array.data_block_size_sectors * 512 / dnode_size
    refuse_if
        (ltb dnode_max_slots slots
          || (block_slots == 0 || ltb block_slots (objnum % block_slots + slots)))
        (inconsistent "dnode_slots" (Location.dnode objnum))
    let size = slots * dnode_size
    full ← read_dnode_range v members topo order dnode_array byte_off size
    nblkptr ← or_panic (get_elem? full dn_nblkptr)
    flags ← or_panic (get_elem? full dn_flags)
    len_bytes ← or_panic (get_range full dn_bonuslen 2)
    let bonus_len = from_bytes order len_bytes
    let bonus_start = dnode_header_size + nblkptr * 128
    let bonus_room = size - (if spill_flag flags then 128 else 0)
    refuse_if (ltb dnode_size bonus_start || ltb bonus_room (bonus_start + bonus_len))
        (inconsistent "dnode_bonus_len" (Location.dnode objnum))
    dnode ← decode_dnode (first_slot full bonus_start flags) objnum
    bonus ← or_panic (get_range full bonus_start bonus_len)
    ok (record { dnode = dnode; bonus = bonus })

  unfoldable pub read_object : Dnode → ℕ → Outcome ObjectDnode
  unfolding read_large_object decode_dnode
  read_object dnode_array objnum = do
    byte_off ←
        ok_or (checked_mul objnum dnode_size)
          (inconsistent "dnode_obj_overflow" (Location.dnode objnum))
    first ← read_dnode_range v members topo order dnode_array byte_off dnode_size
    extra_slots ← or_panic (get_elem? first dn_extra_slots)
    let small : Outcome ObjectDnode = (do
      dnode ← decode_dnode first objnum
      bonus ← bonus_used dnode
      ok (record { dnode = dnode; bonus = bonus }))
    if extra_slots == 0
        then small
        else read_large_object dnode_array objnum byte_off (extra_slots + 1)

  unfoldable pub read_object_dnode : Dnode → ℕ → Outcome Dnode
  unfolding read_object
  read_object_dnode dnode_array objnum = do object ← read_object dnode_array objnum; ok object.dnode

  unfoldable pub micro_entries : List ℕ → Outcome (List (List ℕ × ℕ))
  unfolding micro_items
  micro_entries block = do
    items ← ok_or (v.zap_micro_decode order block) (zap_error "zap_micro")
    micro_items items

  -- `while blkid < MAX_ZAP_LEAF_BLOCKS`, over the rounds left.
  unfoldable pub fat_blocks : Dnode → ℕ → ℕ → ℕ → ℕ → Outcome (List (List ℕ × List ℕ))
  unfolding collect_leaf block_type
  fat_blocks zap_dnode chunk_base nchunks zero blkid = ok []
  fat_blocks zap_dnode chunk_base nchunks (suc left) blkid = do
    block ← read_dnode_block v members topo order zap_dnode blkid
    elim block [
      | none ↦ ok []
      | some bytes ↦ do
        let leaf : Outcome (List (List ℕ × List ℕ)) = (do
          kind ← block_type bytes order
          let entries = collect_leaf v order bytes chunk_base nchunks
          if kind == zap_leaf_type then entries else ok [])
        here ← (if leb 8 (length bytes) then leaf else ok [])
        rest ← fat_blocks zap_dnode chunk_base nchunks left (blkid + 1)
        ok (here ++ rest)
    ]

  unfoldable pub fat_entries_raw : Dnode → ℕ → Outcome (List (List ℕ × List ℕ))
  unfolding fat_blocks trailing_zeros
  fat_entries_raw zap_dnode dbsz = do
    let hash_entries = 2 ^ (trailing_zeros 64 dbsz - 5)
    let chunk_base = zap_leaf_header_size + hash_entries * 2
    refuse_if (leb dbsz chunk_base) (zap_error "zap_leaf_geom")
    let nchunks = (dbsz - chunk_base) / leaf_chunk_size
    fat_blocks zap_dnode chunk_base nchunks (max_zap_leaf_blocks - 1) 1

  unfoldable pub fat_entries : Dnode → ℕ → Outcome (List (List ℕ × ℕ))
  unfolding fat_entries_raw value_as_u64
  fat_entries zap_dnode dbsz = do
    raw ← fat_entries_raw zap_dnode dbsz
    ok (map (λ (e : List ℕ × List ℕ). (e.0, value_as_u64 e.1)) raw)

  unfoldable pub zap_entries : Dnode → Outcome (List (List ℕ × ℕ))
  unfolding fat_entries micro_entries block_type
  zap_entries zap_dnode = do
    let dbsz = zap_dnode.data_block_size_sectors * 512
    refuse_if (dbsz == 0) (zap_error "zap_dbsz0")
    found ← read_dnode_block v members topo order zap_dnode 0
    block0 ← ok_or found (zap_error "zap_empty")
    bt ← block_type block0 order
    if bt == zap_micro
        then micro_entries block0
        else if bt == zap_fat_header
        then fat_entries zap_dnode dbsz
        else err (zap_error "zap_bad_type")

  unfoldable pub zap_lookup : Dnode → List ℕ → Outcome (Option ℕ)
  unfolding zap_entries find_name
  zap_lookup zap_dnode name = do entries ← zap_entries zap_dnode; ok (find_name name entries)

  -- A value as its bytes: eight big-endian ones of a micro-ZAP value.
  unfoldable pub zap_lookup_bytes : Dnode → List ℕ → Outcome (Option (List ℕ))
  unfolding zap_lookup fat_entries_raw block_type find_name
  zap_lookup_bytes zap_dnode name = do
    let dbsz = zap_dnode.data_block_size_sectors * 512
    found ← read_dnode_block v members topo order zap_dnode 0
    block0 ← ok_or found (zap_error "zap_empty")
    let fat : Outcome (Option (List ℕ)) = (do
      entries ← fat_entries_raw zap_dnode dbsz
      ok (find_name name entries))
    let micro : Outcome (Option (List ℕ)) = (do
      value ← zap_lookup zap_dnode name
      ok (Option.map (to_be_bytes 8) value))
    let by_type : Outcome (Option (List ℕ)) = (do
      bt ← block_type block0 order
      if bt == zap_fat_header then fat else micro)
    if dbsz == 0 then micro else by_type
