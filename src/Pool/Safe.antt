-- ===== src/Pool/Safe.antt =====
-- `import` and `peek_pool_id` of src/pool.rs end with a pool or an error.
use lamzfs.Common.{◌≡◌, get_elem?, ℕ, Option, none, some, not, List, ◌==◌, length, if◌then◌else◌}
use lamzfs.Common.Bytes.{codes}
use lamzfs.Error.{
  bad_label, no_labels, bad_checksum, no_valid_uberblock, inconsistent, mos, unsupported_feature,
}
use lamzfs.Outcome.{
  ok_or-eq-ok, ok, err, ok_or, refuse_if, ◌>>=◌, NoPanic, NoPanic->>=, NoPanic-ok_or,
  NoPanic-refuse_if, NoPanic-if,
}
use lamzfs.Phys.{EndianOrder, bp_order, Dnode, UberBlock, NvList}
use lamzfs.Vendored.{Vendored}
use lamzfs.BlockRead.{PoolMember}
use lamzfs.Vdev.Tree.{Topology}
use lamzfs.Walk.{read_objset, read_object_dnode, zap_entries, zap_lookup, zap_lookup_bytes}
use lamzfs.Walk.Safe.{BonusFits}
use lamzfs.Walk.Typed.{HasType, zap_entries-NoPanic, zap_lookup-NoPanic, zap_lookup_bytes-NoPanic}
use lamzfs.Dataset.Safe.{TypedIn, read_object_dnode-NoPanic, read_objset-NoPanic}
use lamzfs.Pool.Nv.{nv_has, nv_u64, nv_str, nv_nvlist}
use lamzfs.Pool.Nv.Safe.{nv_has-NoPanic, nv_u64-NoPanic, nv_str-NoPanic, nv_nvlist-NoPanic}
use lamzfs.Pool.Features.{check_feature_counts}
use lamzfs.Pool.Labels.{select_uberblock}
use lamzfs.Pool.Build.{l0_nvpairs_sector, read_nvpairs, build_topology}
use lamzfs.Pool.Build.Safe.{read_nvpairs-NoPanic, build_topology-NoPanic}
use lamzfs.Pool.Features.Safe.{check_label_features-NoPanic, check_feature_counts-NoPanic}
use lamzfs.Pool.{
  import, LabelConfig, mos_object_directory, member_config, peek_pool_id, check_label,
  check_children, sha_init, read_label, check_mos_features, checksum_salt, read_mos,
}

-- The topology that the label gives, before the salt is known.
abbrev pub label_topology : LabelConfig → Topology
label_topology config = record { layout = config.layout; checksum_salt = none }

-- Every object of the MOS that the label of member 0 and the newest uberblock lead to has a first
-- block of at least eight bytes, or none, if the object can be read.
abbrev pub MosTyped : Vendored → List PoolMember → Type 0
MosTyped v members =
    (first : PoolMember) (config : LabelConfig) (ub : UberBlock) (meta : Dnode)
    → get_elem? members 0 ≡ some first
    → read_label v first members ≡ ok config
    → select_uberblock v members (label_topology config) config.ashift ≡ ok ub
    → read_objset v members (label_topology config) (bp_order ub.ptr) ub.ptr ≡ ok meta
    → TypedIn v members (label_topology config) (bp_order ub.ptr) meta

select_uberblock-NoPanic :
    (v : Vendored) (members : List PoolMember) (topo : Topology) (ashift : ℕ)
    → NoPanic (select_uberblock v members topo ashift)
unfolding select_uberblock
select_uberblock-NoPanic v members topo ashift = NoPanic-ok_or _ no_valid_uberblock

module _ (v : Vendored) where
  sha_init-NoPanic : NoPanic (sha_init v)
  unfolding sha_init
  sha_init-NoPanic = NoPanic-refuse_if (not v.sha256_available) _

  member_config-NoPanic : (member : PoolMember) → NoPanic (member_config v member)
  unfolding member_config
  member_config-NoPanic member =
      NoPanic->>= (read_nvpairs v member) _ (read_nvpairs-NoPanic v member) λ buf _.
        NoPanic->>= (ok_or (v.label_nv_pairs_decode buf l0_nvpairs_sector) (bad_label bad_checksum))
          _ (NoPanic-ok_or (v.label_nv_pairs_decode buf l0_nvpairs_sector) _)
          λ payload _. NoPanic-ok_or (v.nv_list_decode payload) _

  pub peek_pool_id-NoPanic : (member : PoolMember) → NoPanic (peek_pool_id v member)
  unfolding peek_pool_id
  peek_pool_id-NoPanic member = NoPanic->>= (sha_init v) _ sha_init-NoPanic λ _ _.
      NoPanic->>= (member_config v member) _ (member_config-NoPanic member) λ config _.
        NoPanic->>= (nv_u64 config "pool_guid") _ (nv_u64-NoPanic config "pool_guid")
          λ guid _. NoPanic->>= (nv_str config "name") _ (nv_str-NoPanic config "name") λ name _. tt

  check_label-NoPanic : (config : NvList) → NoPanic (check_label v config)
  unfolding check_label
  check_label-NoPanic config =
      NoPanic->>= (nv_has config "features_for_read") _ (nv_has-NoPanic config "features_for_read")
        λ listed _.
          NoPanic-if listed _ _
            (NoPanic->>= (nv_nvlist config "features_for_read") _
              (nv_nvlist-NoPanic config "features_for_read")
              λ features _. check_label_features-NoPanic features)
            tt

  check_children-NoPanic : (config : NvList) → NoPanic (check_children v config)
  unfolding check_children
  check_children-NoPanic config =
      NoPanic->>= (nv_has config "vdev_children") _ (nv_has-NoPanic config "vdev_children")
        λ listed _.
          NoPanic-if listed _ _
            (NoPanic->>= (nv_u64 config "vdev_children") _ (nv_u64-NoPanic config "vdev_children")
              λ count _. NoPanic-refuse_if (not (count == 1)) _)
            tt

  read_label-NoPanic :
      (first : PoolMember) (members : List PoolMember) → NoPanic (read_label v first members)
  unfolding read_label
  read_label-NoPanic first members =
      NoPanic->>= (member_config v first) _ (member_config-NoPanic first) λ config _.
        NoPanic->>= (nv_u64 config "pool_guid") _ (nv_u64-NoPanic config "pool_guid") λ guid _.
          NoPanic->>= (nv_str config "name") _ (nv_str-NoPanic config "name") λ name _.
            NoPanic->>= (check_label v config) _ (check_label-NoPanic config) λ _ _.
              NoPanic->>= (check_children v config) _ (check_children-NoPanic config) λ _ _.
                NoPanic->>= (nv_nvlist config "vdev_tree") _ (nv_nvlist-NoPanic config "vdev_tree")
                  λ vtree _.
                    NoPanic->>= (nv_u64 vtree "ashift") _ (nv_u64-NoPanic vtree "ashift")
                      λ ashift _.
                        NoPanic->>= (build_topology v vtree members) _
                          (build_topology-NoPanic v vtree members) λ layout _. tt

  module _ (members : List PoolMember) (fits : BonusFits v) where
    module _ (topo : Topology) (order : EndianOrder) (meta : Dnode)
        (typed : TypedIn v members topo order meta) where
      check_mos_features-NoPanic :
          (objdir : Dnode)
          → HasType v members topo order objdir
          → NoPanic (check_mos_features v members topo order meta objdir)
      unfolding check_mos_features
      check_mos_features-NoPanic objdir long =
          NoPanic->>= (zap_lookup v members topo order objdir (codes "features_for_read")) _
            (zap_lookup-NoPanic v members topo order objdir (codes "features_for_read") long)
            λ found _. at found
        where
          at :
              (found : Option ℕ)
              → NoPanic {A = Unit {0}} (elim found [
                | none ↦ ok tt
                | some obj ↦ read_object_dnode v members topo order meta obj >>= λ features.
                    zap_entries v members topo order features >>= λ counts.
                    check_feature_counts counts
              ])
          at none = tt
          at (some obj) =
              NoPanic->>= (read_object_dnode v members topo order meta obj) _
                (read_object_dnode-NoPanic v members topo order fits meta obj)
                λ features e.
                  NoPanic->>= (zap_entries v members topo order features) _
                    (zap_entries-NoPanic v members topo order features (typed obj features e))
                    λ counts _. check_feature_counts-NoPanic counts

      checksum_salt-NoPanic :
          (objdir : Dnode)
          → HasType v members topo order objdir
          → NoPanic (checksum_salt v members topo order objdir)
      unfolding checksum_salt
      checksum_salt-NoPanic objdir long =
          NoPanic->>=
            (zap_lookup_bytes v members topo order objdir (codes "org.illumos:checksum_salt")) _
            (zap_lookup_bytes-NoPanic v members topo order objdir
              (codes "org.illumos:checksum_salt") long)
            λ found _. at found
        where
          at :
              (found : Option (List ℕ))
              → NoPanic {A = Option (List ℕ)} (elim found [
                | none ↦ ok none
                | some bytes ↦
                    if length bytes == 32
                    then ok (some bytes)
                    else err (inconsistent "checksum_salt" mos)
              ])
          at none = tt
          at (some bytes) = NoPanic-if (length bytes == 32) _ _ tt tt

    read_mos-NoPanic :
        (config : LabelConfig) (ub : UberBlock)
        → ((meta : Dnode)
            → read_objset v members (label_topology config) (bp_order ub.ptr) ub.ptr ≡ ok meta
            → TypedIn v members (label_topology config) (bp_order ub.ptr) meta)
        → NoPanic (read_mos v members config ub)
    unfolding read_mos
    read_mos-NoPanic config ub typed =
        let topo = label_topology config in
        let order = bp_order ub.ptr in
        NoPanic->>=
          (refuse_if (not (ub.raidz_reflow_info == 0)) (unsupported_feature "raidz_expansion")) _
          (NoPanic-refuse_if (not (ub.raidz_reflow_info == 0)) _)
          λ _ _.
            NoPanic->>= (read_objset v members topo order ub.ptr) _
              (read_objset-NoPanic v members topo order fits ub.ptr)
              λ meta m.
                NoPanic->>= (read_object_dnode v members topo order meta mos_object_directory) _
                  (read_object_dnode-NoPanic v members topo order fits meta mos_object_directory)
                  λ objdir e.
                    let long = typed meta m mos_object_directory objdir e in
                    NoPanic->>= (check_mos_features v members topo order meta objdir) _
                      (check_mos_features-NoPanic topo order meta (typed meta m) objdir long)
                      λ _ _.
                        NoPanic->>= (checksum_salt v members topo order objdir) _
                          (checksum_salt-NoPanic topo order meta (typed meta m) objdir long)
                          λ salt _. tt

    pub import-NoPanic : MosTyped v members → NoPanic (import v members)
    unfolding import
    import-NoPanic typed =
        NoPanic->>= (ok_or (get_elem? members 0) (bad_label no_labels)) _
          (NoPanic-ok_or (get_elem? members 0) _)
          λ first at. NoPanic->>= (sha_init v) _ sha_init-NoPanic λ _ _.
            NoPanic->>= (read_label v first members) _ (read_label-NoPanic first members)
              λ config label.
                NoPanic->>= (select_uberblock v members (label_topology config) config.ashift) _
                  (select_uberblock-NoPanic v members (label_topology config) config.ashift)
                  λ ub active. read_mos-NoPanic config ub (λ meta.
                    typed first config ub meta (ok_or-eq-ok (get_elem? members 0) _ at) label
                      active)
