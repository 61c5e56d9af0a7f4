-- ===== src/Pool/Build.antt =====
-- The labels and the vdev tree of src/pool.rs: the config of a label, the search for the member with
-- a guid, and the layout that the tree describes.
pub mod Safe
use lamzfs.Common.{
  ℕ, ◌+◌, ◌*◌, Bool, true, false, not, ◌||◌, Option, none, some, List, [], ◌∷◌, ltb, ◌==◌,
  if◌then◌else◌, length, bytes_eq,
}
use lamzfs.Common.Bytes.{codes}
use lamzfs.Error.{bad_label, pool_guid_mismatch, unsupported_feature, unsupported_topology}
use lamzfs.Outcome.{Outcome, ok, err, panic, refuse_if, ◌>>=◌, ◌>>◌}
use lamzfs.Phys.{NvList}
use lamzfs.Vendored.{Vendored}
use lamzfs.BlockRead.{PoolMember, read_exact}
use lamzfs.Vdev.Tree.{Layout, single, mirror, raidz1}
use lamzfs.Pool.Nv.{nv_has, nv_u64, nv_str, nv_child_guids}

abbrev l0_nvpairs_byte : ℕ
l0_nvpairs_byte = 16 * 1024

abbrev pub l0_nvpairs_sector : ℕ
l0_nvpairs_sector = 32

-- `LabelNvPairs::SIZE`.
abbrev nv_pairs_size : ℕ
nv_pairs_size = 112 * 1024

-- `u8::try_from(n).unwrap_or(d)`.
abbrev pub u8_or : ℕ → ℕ → ℕ
u8_or n d = if ltb n 256 then n else d

-- `o.unwrap_or(d)` of a result.
abbrev pub unwrap_or : Outcome ℕ → ℕ → Outcome ℕ
unwrap_or (ok n) d = ok n
unwrap_or (err e) d = ok d
unwrap_or panic d = panic

-- `is_ok_and(|g| g == guid)`.
abbrev ok_is : Outcome ℕ → ℕ → Bool
ok_is (ok g) guid = g == guid
ok_is _ guid = false

-- `find_member_by_guid(…).ok()`.
abbrev pub ok_member : Outcome ℕ → Option ℕ
ok_member (ok i) = some i
ok_member _ = none

unfoldable pub present_count : List (Option ℕ) → ℕ
present_count [] = 0
present_count (none ∷ xs) = present_count xs
present_count (some m ∷ xs) = present_count xs + 1

module _ (v : Vendored) where
  unfoldable pub read_nvpairs : PoolMember → Outcome (List ℕ)
  read_nvpairs member = read_exact member l0_nvpairs_byte nv_pairs_size 0 "io_nvpairs"

  -- The config of a label that was read: `none` if its checksum or its nvlist is bad.
  label_config : List ℕ → Option NvList
  label_config buf = elim (v.label_nv_pairs_decode buf l0_nvpairs_sector) [
    | none ↦ none
    | some payload ↦ v.nv_list_decode payload
  ]

  -- Does the label that was read name this guid?
  unfoldable pub label_has_guid : List ℕ → ℕ → Bool
  unfolding label_config nv_u64
  label_has_guid buf guid = elim (label_config buf) [
    | none ↦ false
    | some config ↦ ok_is (nv_u64 config "guid") guid
  ]

  -- `for (i, member) in …`: a label that cannot be read ends the search with its error.
  unfoldable pub find_from : List PoolMember → ℕ → ℕ → Outcome ℕ
  unfolding read_nvpairs label_has_guid
  find_from [] i guid = err (bad_label pool_guid_mismatch)
  find_from (member ∷ members) i guid = do
    buf ← read_nvpairs member
    let rest = find_from members (i + 1) guid
    if label_has_guid buf guid then ok i else rest

  unfoldable pub find_member_by_guid : List PoolMember → ℕ → Outcome ℕ
  unfolding find_from
  find_member_by_guid members guid = find_from members 0 guid

  unfoldable pub mirror_members : List PoolMember → List ℕ → Outcome (List ℕ)
  unfolding find_member_by_guid
  mirror_members members [] = ok []
  mirror_members members (guid ∷ guids) = do
    i ← find_member_by_guid members guid
    rest ← mirror_members members guids
    ok (i ∷ rest)

  unfoldable pub raidz_members : List PoolMember → List ℕ → List (Option ℕ)
  unfolding find_member_by_guid
  raidz_members members [] = []
  raidz_members members (guid ∷ guids) =
      ok_member (find_member_by_guid members guid) ∷ raidz_members members guids

  -- The `"raidz"` arm of `build_topology`.
  unfoldable pub build_raidz : NvList → List PoolMember → Outcome Layout
  unfolding nv_u64 nv_has nv_child_guids raidz_members present_count
  build_raidz vtree members = do
    nparity ← unwrap_or (nv_u64 vtree "nparity") 1
    refuse_if (not (nparity == 1)) (unsupported_topology "topo_raidz_multiparity")
    expanded ← nv_has vtree "raidz_expand_txgs"
    let second = nv_has vtree "raidz_expanding"
    expanding ← (if expanded then ok true else second)
    refuse_if expanding (unsupported_feature "raidz_expansion")
    ashift ← nv_u64 vtree "ashift"
    guids ← nv_child_guids vtree
    let idx = raidz_members members guids
    refuse_if (ltb (present_count idx + 1) (length idx))
        (unsupported_topology "topo_raidz_degraded")
    ok (raidz1 idx (u8_or ashift 9))

  unfoldable pub build_mirror : NvList → List PoolMember → Outcome Layout
  unfolding nv_child_guids mirror_members
  build_mirror vtree members = do
    guids ← nv_child_guids vtree
    idx ← mirror_members members guids
    ok (mirror idx)

  unfoldable pub build_topology : NvList → List PoolMember → Outcome Layout
  unfolding nv_str build_mirror build_raidz
  build_topology vtree members = do
    vtype ← nv_str vtree "type"
    if bytes_eq vtype (codes "disk") || bytes_eq vtype (codes "file")
        then ok (single 0)
        else if bytes_eq vtype (codes "mirror")
        then build_mirror vtree members
        else if bytes_eq vtype (codes "raidz")
        then build_raidz vtree members
        else if bytes_eq vtype (codes "draid")
        then err (unsupported_topology "topo_draid")
        else err (unsupported_topology "topo_unknown")
