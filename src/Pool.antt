-- ===== src/Pool.antt =====
-- src/pool.rs: the import of a pool from its member devices.
pub mod Build
pub mod Safe
pub mod Nv
pub mod Features
pub mod Labels
pub mod Placed
pub mod Guards
pub mod Import
pub mod Labelled
pub mod Members
pub mod Supported
use lamzfs.Common.{
  ℕ, zero, suc, ◌+◌, ◌*◌, String, Bool, true, false, not, ◌&&◌, ◌||◌, Option, none, some, List, [],
  ◌∷◌, ltb, ◌==◌, if◌then◌else◌, length, get_elem?, bytes_eq,
}
use lamzfs.Common.Bytes.{codes}
use lamzfs.Error.{
  Error, Location, uberblock, mos, bad_label, bad_magic, bad_checksum, no_labels,
  pool_guid_mismatch, inconsistent, unsupported_feature, unsupported_topology,
}
use lamzfs.Outcome.{Outcome, ok, err, panic, ok_or, or_panic, refuse_if, ◌>>=◌, ◌>>◌}
use lamzfs.Phys.{EndianOrder, bp_order, Dnode, NvList, UberBlock}
use lamzfs.Vendored.{Vendored}
use lamzfs.BlockRead.{PoolMember, read_exact}
use lamzfs.Vdev.Tree.{Layout, single, mirror, raidz1, Topology}
use lamzfs.Walk.{read_object_dnode, read_objset, zap_entries, zap_lookup, zap_lookup_bytes}
use Nv.{nv_find, nv_has, nv_u64, nv_str, nv_nvlist, nv_child_guids}
use Features.{check_label_features, check_feature_counts}
use Labels.{select_uberblock, uberblock_shift_min}
use Build.{l0_nvpairs_sector, u8_or, read_nvpairs, build_topology}

abbrev pub mos_object_directory : ℕ
mos_object_directory = 1

pub record ImportedPool : Type 0 where
  pub pool_guid : ℕ
  pub pool_name : List ℕ
  pub topology : Topology
  pub uberblock : UberBlock
  pub mos_dnode : Dnode
  pub order : EndianOrder

-- What the label of member 0 says.
pub record LabelConfig : Type 0 where
  pub guid : ℕ
  pub name : List ℕ
  pub ashift : ℕ
  pub layout : Layout

module _ (v : Vendored) where
  -- The verified config nvlist of a member's label.
  unfoldable pub member_config : PoolMember → Outcome NvList
  unfolding read_nvpairs
  member_config member = do
    buf ← read_nvpairs v member
    payload ← ok_or (v.label_nv_pairs_decode buf l0_nvpairs_sector) (bad_label bad_checksum)
    ok_or (v.nv_list_decode payload) (bad_label bad_magic)

  unfoldable pub sha_init : Outcome (Unit {0})
  sha_init = refuse_if (not v.sha256_available) (inconsistent "sha_init" uberblock)

  unfoldable pub peek_pool_id : PoolMember → Outcome (ℕ × List ℕ)
  unfolding sha_init member_config nv_u64 nv_str
  peek_pool_id member = do
    sha_init
    config ← member_config member
    guid ← nv_u64 config "pool_guid"
    name ← nv_str config "name"
    ok (guid, name)

  -- The features that the label lists, if it lists any.
  unfoldable pub check_label : NvList → Outcome (Unit {0})
  unfolding nv_has nv_nvlist check_label_features
  check_label config = do
    listed ← nv_has config "features_for_read"
    let check : Outcome (Unit {0}) = (do
      features ← nv_nvlist config "features_for_read"
      check_label_features features)
    if listed then check else ok tt

  -- More than one top-level vdev is refused.
  unfoldable pub check_children : NvList → Outcome (Unit {0})
  unfolding nv_has nv_u64
  check_children config = do
    listed ← nv_has config "vdev_children"
    let check : Outcome (Unit {0}) = (do
      count ← nv_u64 config "vdev_children"
      refuse_if (not (count == 1)) (unsupported_topology "topo_multi_toplevel"))
    if listed then check else ok tt

  -- The block that decodes member 0's label.
  unfoldable pub read_label : PoolMember → List PoolMember → Outcome LabelConfig
  unfolding member_config nv_u64 nv_str nv_nvlist check_label check_children build_topology
  read_label member members = do
    config ← member_config member
    guid ← nv_u64 config "pool_guid"
    name ← nv_str config "name"
    check_label config
    check_children config
    vtree ← nv_nvlist config "vdev_tree"
    ashift ← nv_u64 vtree "ashift"
    layout ← build_topology v vtree members
    ok (record {
      guid = guid;
      name = name;
      ashift = u8_or ashift uberblock_shift_min;
      layout = layout;
    })

  module _ (members : List PoolMember) where
    unfoldable pub check_mos_features : Topology → EndianOrder → Dnode → Dnode → Outcome (Unit {0})
    unfolding zap_lookup read_object_dnode zap_entries check_feature_counts
    check_mos_features topo order meta objdir = do
      found ← zap_lookup v members topo order objdir (codes "features_for_read")
      elim found [
        | none ↦ ok tt
        | some obj ↦ do
          features ← read_object_dnode v members topo order meta obj
          counts ← zap_entries v members topo order features
          check_feature_counts counts
      ]

    unfoldable pub checksum_salt : Topology → EndianOrder → Dnode → Outcome (Option (List ℕ))
    unfolding zap_lookup_bytes
    checksum_salt topo order objdir = do
      found ← zap_lookup_bytes v members topo order objdir (codes "org.illumos:checksum_salt")
      elim found [
        | none ↦ ok none
        | some bytes ↦
            if length bytes == 32 then ok (some bytes) else err (inconsistent "checksum_salt" mos)
      ]

    -- From the selected uberblock to the imported pool.
    unfoldable pub read_mos : LabelConfig → UberBlock → Outcome ImportedPool
    unfolding bp_order read_objset read_object_dnode check_mos_features checksum_salt
    read_mos config ub = do
      refuse_if (not (ub.raidz_reflow_info == 0)) (unsupported_feature "raidz_expansion")
      let order = bp_order ub.ptr
      let topo : Topology = record { layout = config.layout; checksum_salt = none }
      meta ← read_objset v members topo order ub.ptr
      objdir ← read_object_dnode v members topo order meta mos_object_directory
      check_mos_features topo order meta objdir
      salt ← checksum_salt topo order objdir
      ok (record {
        pool_guid = config.guid;
        pool_name = config.name;
        topology = record { layout = config.layout; checksum_salt = salt };
        uberblock = ub;
        mos_dnode = meta;
        order = order;
      })

    unfoldable pub import : Outcome ImportedPool
    unfolding sha_init read_label select_uberblock read_mos
    import = do
      first ← ok_or (get_elem? members 0) (bad_label no_labels)
      sha_init
      config ← read_label first members
      ub ←
          select_uberblock v members (record { layout = config.layout; checksum_salt = none })
            config.ashift
      read_mos config ub
