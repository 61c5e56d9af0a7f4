-- ===== src/Pool/Import.antt =====
-- `import` of src/pool.rs: what holds of every pool that it returns.
use mathlib.Core.Path.{subst}
use lamzfs.Common.{some, ℕ, ◌≡◌, refl, none, not, List, arith, ◌==◌, get_elem?, InList, inl, inr}
use lamzfs.Error.{bad_label, no_labels, unsupported_feature}
use lamzfs.Outcome.{
  >>=-eq-ok, ok-injective, ok_or-eq-ok, ok, ok_or, refuse_if, refuse_if-eq-ok, IfOk, IfOk->>=,
  IfOk-elim,
}
use lamzfs.Phys.{NvList, bp_order, UberBlock}
use lamzfs.Vendored.{Vendored}
use lamzfs.BlockRead.{PoolMember}
use lamzfs.Vdev.Tree.{Layout, Topology, topology_members}
use lamzfs.Walk.{read_objset, read_object_dnode}
use lamzfs.Pool.Nv.{nv_u64, nv_str, nv_nvlist}
use lamzfs.Pool.Labels.{select_uberblock, uberblock_shift_min}
use lamzfs.Pool.Labels.Active.{valid_uberblocks, NoNewer, select_uberblock_newest}
use lamzfs.Pool.Placed.{ByteOr, Placed}
use lamzfs.Pool.Guards.{u8_or-ByteOr, build_topology-Placed}
use lamzfs.Pool.{
  ImportedPool, LabelConfig, mos_object_directory, member_config, check_label, check_children,
  sha_init, read_label, check_mos_features, checksum_salt, read_mos, import,
}
use lamzfs.Pool.Build.{build_topology}

module _ (v : Vendored) (members : List PoolMember) where
  -- The vdev tree of the label of member 0.
  pub record FromTree (layout : Layout) (ashift : ℕ) : Type 0 where
    pub first : PoolMember
    pub first_is : get_elem? members 0 ≡ some first
    pub config : NvList
    pub config_is : member_config v first ≡ ok config
    pub vtree : NvList
    pub vtree_is : nv_nvlist config "vdev_tree" ≡ ok vtree
    pub shift : ℕ
    pub listed : nv_u64 vtree "ashift" ≡ ok shift
    pub ashift_is : ByteOr shift 10 ashift
    pub placed : Placed v vtree members layout

  read_label-FromTree :
      (first : PoolMember) (label : LabelConfig)
      → get_elem? members 0 ≡ some first
      → read_label v first members ≡ ok label
      → FromTree label.layout label.ashift
  unfolding read_label
  read_label-FromTree first label at h =
      let (config, e, h₁) = >>=-eq-ok (member_config v first) _ h in
      let (guid, _, h₂) = >>=-eq-ok (nv_u64 config "pool_guid") _ h₁ in
      let (name, _, h₃) = >>=-eq-ok (nv_str config "name") _ h₂ in
      let (_, _, h₄) = >>=-eq-ok (check_label v config) _ h₃ in
      let (_, _, h₅) = >>=-eq-ok (check_children v config) _ h₄ in
      let (vtree, t, h₆) = >>=-eq-ok (nv_nvlist config "vdev_tree") _ h₅ in
      let (shift, a, h₇) = >>=-eq-ok (nv_u64 vtree "ashift") _ h₆ in
      let (layout, l, h₈) = >>=-eq-ok (build_topology v vtree members) _ h₇ in
      subst (λ (x : LabelConfig). FromTree x.layout x.ashift) (ok-injective h₈)
        (record {
          first = first;
          first_is = at;
          config = config;
          config_is = e;
          vtree = vtree;
          vtree_is = t;
          shift = shift;
          listed = a;
          ashift_is = u8_or-ByteOr shift uberblock_shift_min;
          placed = build_topology-Placed v vtree members layout l;
        })

  -- The pool carries on what the label and the uberblock say, and the uberblock marks no RAID-Z
  -- expansion in progress.
  pub record Carried (config : LabelConfig) (ub : UberBlock) (pool : ImportedPool) : Type 0 where
    pub uberblock : pool.uberblock ≡ ub
    pub layout : pool.topology.layout ≡ config.layout
    pub no_reflow : ub.raidz_reflow_info ≡ 0

  read_mos-Carried :
      (config : LabelConfig) (ub : UberBlock)
      → IfOk (Carried config ub) (read_mos v members config ub)
  unfolding read_mos
  read_mos-Carried config ub =
      let topo : Topology = record { layout = config.layout; checksum_salt = none } in
      let order = bp_order ub.ptr in
      IfOk->>= (Carried config ub)
        (refuse_if (not (ub.raidz_reflow_info == 0)) (unsupported_feature "raidz_expansion")) _
        λ _ c. IfOk->>= (Carried config ub) (read_objset v members topo order ub.ptr) _ λ meta _.
          IfOk->>= (Carried config ub)
            (read_object_dnode v members topo order meta mos_object_directory) _
            λ objdir _.
              IfOk->>= (Carried config ub) (check_mos_features v members topo order meta objdir) _
                λ _ _.
                  IfOk->>= (Carried config ub) (checksum_salt v members topo order objdir) _
                    λ salt _. record {
                      uberblock = refl;
                      layout = refl;
                      no_reflow = ground (
                        arith,
                        refuse_if-eq-ok (not (ub.raidz_reflow_info == 0))
                            (unsupported_feature "raidz_expansion") c,
                      );
                    }

  -- A pool as `import` should return it.
  pub record IsImported (pool : ImportedPool) : Type 0 where
    pub ashift : ℕ
    pub tree : FromTree pool.topology.layout ashift
    pub active : InList pool.uberblock (valid_uberblocks v members pool.topology ashift)
    pub newest :
        (other : UberBlock)
        → InList other (valid_uberblocks v members pool.topology ashift)
        → NoNewer other pool.uberblock
    pub no_reflow : pool.uberblock.raidz_reflow_info ≡ 0

  assemble_import :
      (config : LabelConfig) (ub : UberBlock) (pool : ImportedPool)
      → FromTree config.layout config.ashift
      → select_uberblock v members
          (record { layout = config.layout; checksum_salt = none })
          config.ashift
        ≡ ok ub
      → Carried config ub pool
      → IsImported pool
  unfolding topology_members
  assemble_import config ub pool p s c =
      elim (select_uberblock_newest v members
        (record { layout = config.layout; checksum_salt = none }) config.ashift) [
          | inr (e, _) ↦ absurd (cc)
          | inl (u, e, i, n) ↦
              let same : u ≡ ub = cc in
              let i' = rw same at i in
              let n' = rw same at n in
              record {
                ashift = config.ashift;
                tree = rw c.layout p;
                active = rw (c.uberblock, c.layout) i';
                newest = rw (c.uberblock, c.layout) n';
                no_reflow = rw c.uberblock c.no_reflow;
              }
        ]

  -- A pool that is imported has for its layout the one of the vdev tree in the label of member 0,
  -- each child a member with a label that carries its guid and at most one RAID-Z1 child absent; for
  -- its uberblock one that verifies in a slot of its members, of the size that this tree's ashift
  -- gives, or 10 if that is above 255, with none newer in these slots; and no RAID-Z expansion in
  -- progress.
  pub import-IsImported : (pool : ImportedPool) → import v members ≡ ok pool → IsImported pool
  unfolding import
  import-IsImported pool h =
      let (first, e, h₁) = >>=-eq-ok (ok_or (get_elem? members 0) (bad_label no_labels)) _ h in
      let (_, _, h₂) = >>=-eq-ok (sha_init v) _ h₁ in
      let (label, l, h₃) = >>=-eq-ok (read_label v first members) _ h₂ in
      let (ub, s, h₄) =
        >>=-eq-ok
          (select_uberblock v members (record { layout = label.layout; checksum_salt = none })
            label.ashift)
          _ h₃ in
      assemble_import label ub pool
        (read_label-FromTree first label (ok_or-eq-ok (get_elem? members 0) (bad_label no_labels) e)
          l)
        s (IfOk-elim (Carried label ub) _ (read_mos-Carried label ub) pool h₄)
