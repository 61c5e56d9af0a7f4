-- ===== src/Pool/Labels.antt =====
-- The vdev labels of src/pool.rs: where they lie, and the active uberblock among their slots.
pub mod Active
use lamzfs.Common.{
  ℕ, zero, suc, ◌+◌, ◌-◌, ◌*◌, ◌/◌, ◌%◌, ◌^◌, Option, none, some, List, [], ◌∷◌, ltb, leb,
  if◌then◌else◌, get_elem?, not,
}
use lamzfs.Error.{no_valid_uberblock}
use lamzfs.Outcome.{Outcome, ok, ok_or}
use lamzfs.Phys.{UberBlock, is_newer_than}
use lamzfs.Vendored.{Vendored}
use lamzfs.BlockRead.{PoolMember, read_exact}
use lamzfs.Vdev.Tree.{Topology, topology_members}

abbrev pub label_size : ℕ
label_size = 256 * 1024

abbrev pub label_uberblock_offset : ℕ
label_uberblock_offset = 128 * 1024

abbrev pub uberblock_array_size : ℕ
uberblock_array_size = 128 * 1024

abbrev pub uberblock_shift_min : ℕ
uberblock_shift_min = 10

abbrev pub uberblock_shift_max : ℕ
uberblock_shift_max = 13

unfoldable pub label_offsets : ℕ → List ℕ
label_offsets device_size =
    let end = device_size - device_size % label_size in
    0
    ∷ label_size
    ∷ (if leb (4 * label_size) end then (end - 2 * label_size) ∷ (end - label_size) ∷ [] else [])

-- `ashift.clamp(MIN, MAX)`.
unfoldable pub uberblock_shift : ℕ → ℕ
uberblock_shift ashift =
    if ltb ashift uberblock_shift_min
    then uberblock_shift_min
    else if ltb uberblock_shift_max ashift
    then uberblock_shift_max
    else ashift

-- `best` after one more candidate.
unfoldable pub newer : Option UberBlock → UberBlock → UberBlock
newer none ub = ub
newer (some b) ub = if not (is_newer_than ub b) then b else ub

module _ (v : Vendored) where
  -- The uberblock in the slot at a byte offset, if it reads and its checksum verifies.
  unfoldable pub uberblock_at : PoolMember → ℕ → ℕ → Option UberBlock
  uberblock_at member slot byte_off = elim (read_exact member byte_off slot 0 "io_uberblock") [
    | ok buf ↦ elim (v.uber_block_decode buf (byte_off / 2 ^ 9)) [
      | some (some ub) ↦ some ub
      | _ ↦ none
    ]
    | _ ↦ none
  ]

  unfoldable pub scan_slot : PoolMember → ℕ → ℕ → Option UberBlock → Option UberBlock
  unfolding uberblock_at newer
  scan_slot member slot byte_off best = elim (uberblock_at member slot byte_off) [
    | none ↦ best
    | some ub ↦ some (newer best ub)
  ]

  -- `for i in i..i + left`.
  unfoldable pub scan_slots : PoolMember → ℕ → ℕ → ℕ → ℕ → Option UberBlock → Option UberBlock
  unfolding scan_slot
  scan_slots member slot label zero i best = best
  scan_slots member slot label (suc left) i best =
      scan_slots member slot label left (i + 1)
        (scan_slot member slot (label + label_uberblock_offset + i * slot) best)

  unfoldable pub scan_labels : PoolMember → ℕ → ℕ → List ℕ → Option UberBlock → Option UberBlock
  unfolding scan_slots
  scan_labels member slot count [] best = best
  scan_labels member slot count (label ∷ labels) best =
      scan_labels member slot count labels (scan_slots member slot label count 0 best)

  unfoldable pub scan_members :
      List PoolMember → ℕ → ℕ → List ℕ → Option UberBlock → Option UberBlock
  unfolding scan_labels label_offsets
  scan_members members slot count [] best = best
  scan_members members slot count (mi ∷ rest) best =
      scan_members members slot count rest (elim (get_elem? members mi) [
        | none ↦ best
        | some member ↦ scan_labels member slot count (label_offsets member.device_size_bytes) best
      ])

  unfoldable pub select_uberblock : List PoolMember → Topology → ℕ → Outcome UberBlock
  unfolding scan_members uberblock_shift topology_members
  select_uberblock members topology ashift =
      let slot = 2 ^ uberblock_shift ashift in
      ok_or
        (scan_members members slot (uberblock_array_size / slot) (topology_members topology) none)
        no_valid_uberblock
