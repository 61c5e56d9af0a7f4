-- ===== src/Pool/Supported.antt =====
-- The guards of `import` in src/pool.rs: what a pool that is imported does not need of the reader.
use mathlib.Core.Path.{subst}
use lamzfs.Common.{ℕ, ◌≡◌, ap, ◌∙◌, ◌⊎◌, Option, none, some, not, List, ◌==◌, get_elem?, All}
use lamzfs.Common.Bytes.{codes}
use lamzfs.Error.{bad_label, no_labels, unsupported_feature}
use lamzfs.Outcome.{
  Outcome, ok, ok_or, refuse_if, ◌>>=◌, ok-injective, IfOk, IfOk-intro, >>=-eq-ok, ok_or-eq-ok,
}
use lamzfs.Phys.{EndianOrder, Dnode, UberBlock, NvList, bp_order}
use lamzfs.Vendored.{Vendored}
use lamzfs.BlockRead.{PoolMember}
use lamzfs.Vdev.Tree.{Topology}
use lamzfs.Walk.{read_objset, read_object_dnode, zap_entries, zap_lookup}
use lamzfs.Pool.Nv.{nv_u64, nv_str, nv_nvlist}
use lamzfs.Pool.Features.{check_feature_counts}
use lamzfs.Pool.Features.Gate.{Understood, check_feature_counts_iff}
use lamzfs.Pool.Labels.{select_uberblock}
use lamzfs.Pool.{
  ImportedPool, LabelConfig, mos_object_directory, member_config, check_label, check_children,
  sha_init, read_label, check_mos_features, checksum_salt, read_mos, import,
}
use lamzfs.Pool.Build.{build_topology}
use lamzfs.Pool.Labelled.{Named, check_label-Understood, check_children-one}

-- The topology by which the MOS is read first.
abbrev pub unsalted : ImportedPool → Topology
unsalted pool = record { layout = pool.topology.layout; checksum_salt = none }

-- Each feature that is counted is unused or understood.
abbrev pub CountsPass : List (List ℕ × ℕ) → Type 0
CountsPass = All (λ (c : List ℕ × ℕ). (c.1 ≡ 0) ⊎ Understood c.0)

module _ (v : Vendored) (members : List PoolMember) where
  -- What the label of member 0 says, and what of it is checked.
  record FromLabel (config : NvList) (label : LabelConfig) : Type 0 where
    guid : nv_u64 config "pool_guid" ≡ ok label.guid
    name : nv_str config "name" ≡ ok label.name
    labelled : check_label v config ≡ ok tt
    children : check_children v config ≡ ok tt

  read_label-FromLabel :
      (first : PoolMember) (label : LabelConfig)
      → read_label v first members ≡ ok label
      → (config : NvList) × (member_config v first ≡ ok config) × FromLabel config label
  unfolding read_label
  read_label-FromLabel first label h =
      let (config, e, h₁) = >>=-eq-ok (member_config v first) _ h in
      let (guid, e₁, h₂) = >>=-eq-ok (nv_u64 config "pool_guid") _ h₁ in
      let (name, e₂, h₃) = >>=-eq-ok (nv_str config "name") _ h₂ in
      let (_, e₃, h₄) = >>=-eq-ok (check_label v config) _ h₃ in
      let (_, e₄, h₅) = >>=-eq-ok (check_children v config) _ h₄ in
      let (vtree, _, h₆) = >>=-eq-ok (nv_nvlist config "vdev_tree") _ h₅ in
      let (ashift, _, h₇) = >>=-eq-ok (nv_u64 vtree "ashift") _ h₆ in
      let (layout, _, h₈) = >>=-eq-ok (build_topology v vtree members) _ h₇ in
      let same = ok-injective h₈ in
      (
        config,
        e,
        record {
          guid = e₁ ∙ ap (λ l. ok l.guid) same;
          name = e₂ ∙ ap (λ l. ok l.name) same;
          labelled = e₃;
          children = e₄;
        },
      )

  -- What the MOS counts, if it counts any features, passes.
  abbrev pub Counted : Topology → EndianOrder → Dnode → Option ℕ → Type 0
  Counted topo order meta none = Unit
  Counted topo order meta (some obj) =
      (features : Dnode) × (counts : List (List ℕ × ℕ)) × (read_object_dnode v members topo order
          meta obj
        ≡ ok features)
      × (zap_entries v members topo order features ≡ ok counts)
      × CountsPass counts

  abbrev pub MosUnderstood : Topology → EndianOrder → Dnode → Type 0
  MosUnderstood topo order meta =
      (objdir : Dnode) × (found : Option ℕ) × (read_object_dnode v members topo order meta
          mos_object_directory
        ≡ ok objdir)
      × (zap_lookup v members topo order objdir (codes "features_for_read") ≡ ok found)
      × Counted topo order meta found

  check_mos_features-Counted :
      (topo : Topology) (order : EndianOrder) (meta objdir : Dnode)
      → check_mos_features v members topo order meta objdir ≡ ok tt
      → (found : Option ℕ) × (zap_lookup v members topo order objdir (codes "features_for_read")
          ≡ ok found)
        × Counted topo order meta found
  unfolding check_mos_features
  check_mos_features-Counted topo order meta objdir h =
      let (found, e, g) =
        >>=-eq-ok (zap_lookup v members topo order objdir (codes "features_for_read")) _ h in
      (found, e, counted found g)
    where
      counted :
          (found : Option ℕ)
          → ◌≡◌ {A = Outcome (Unit {0})}
              (elim found [
                | none ↦ ok tt
                | some n ↦ read_object_dnode v members topo order meta n >>= λ f.
                    zap_entries v members topo order f >>= check_feature_counts
              ])
              (ok tt)
          → Counted topo order meta found
      counted none g = tt
      counted (some obj) g =
          let (features, e, g₁) =
            >>=-eq-ok (read_object_dnode v members topo order meta obj)
              (λ f. zap_entries v members topo order f >>= check_feature_counts) g in
          let (counts, e₁, g₂) =
            >>=-eq-ok (zap_entries v members topo order features) check_feature_counts g₁ in
          (features, counts, e, e₁, (check_feature_counts_iff counts).0 g₂)

  read_mos-Understood :
      (label : LabelConfig) (ub : UberBlock) (pool : ImportedPool)
      → read_mos v members label ub ≡ ok pool
      → (label.guid ≡ pool.pool_guid)
        × (label.name ≡ pool.pool_name)
        × MosUnderstood (unsalted pool) pool.order pool.mos_dnode
  unfolding read_mos
  read_mos-Understood label ub pool h =
      let topo : Topology = record { layout = label.layout; checksum_salt = none } in
      let order = bp_order ub.ptr in
      let (_, _, h₁) =
        >>=-eq-ok
          (refuse_if (not (ub.raidz_reflow_info == 0)) (unsupported_feature "raidz_expansion")) _
          h in
      let (meta, _, h₂) = >>=-eq-ok (read_objset v members topo order ub.ptr) _ h₁ in
      let (objdir, e, h₃) =
        >>=-eq-ok (read_object_dnode v members topo order meta mos_object_directory) _ h₂ in
      let (_, c, h₄) = >>=-eq-ok (check_mos_features v members topo order meta objdir) _ h₃ in
      let (salt, _, h₅) = >>=-eq-ok (checksum_salt v members topo order objdir) _ h₄ in
      let same = ok-injective h₅ in
      let (found, e₁, counted) = check_mos_features-Counted topo order meta objdir c in
      (
        ap (λ p. p.pool_guid) same,
        ap (λ p. p.pool_name) same,
        subst (λ p. MosUnderstood (unsalted p) p.order p.mos_dnode) same
            (objdir, found, e, e₁, counted),
      )

  -- A pool that is imported has the guid and the name of the label of member 0; each feature that
  -- the label lists is understood, and the label, if it counts top-level vdevs, counts one; and in the
  -- pool's MOS, which has an object directory, each feature that is counted is unused or understood.
  pub import-Understood :
      (pool : ImportedPool)
      → import v members ≡ ok pool
      → (first : PoolMember) × (config : NvList) × (get_elem? members 0 ≡ some first)
        × (member_config v first ≡ ok config)
        × (nv_u64 config "pool_guid" ≡ ok pool.pool_guid)
        × (nv_str config "name" ≡ ok pool.pool_name)
        × IfOk (Named Understood) (nv_nvlist config "features_for_read")
        × IfOk (λ count. count ≡ 1) (nv_u64 config "vdev_children")
        × MosUnderstood (unsalted pool) pool.order pool.mos_dnode
  unfolding import
  import-Understood pool h =
      let (first, e, h₁) = >>=-eq-ok (ok_or (get_elem? members 0) (bad_label no_labels)) _ h in
      let (_, _, h₂) = >>=-eq-ok (sha_init v) _ h₁ in
      let (label, l, h₃) = >>=-eq-ok (read_label v first members) _ h₂ in
      let (ub, _, h₄) =
        >>=-eq-ok
          (select_uberblock v members (record { layout = label.layout; checksum_salt = none })
            label.ashift)
          _ h₃ in
      let (config, c, from) = read_label-FromLabel first label l in
      let (guid, name, mos) = read_mos-Understood label ub pool h₄ in
      (
        first,
        config,
        ok_or-eq-ok (get_elem? members 0) (bad_label no_labels) e,
        c,
        from.guid ∙ ap ok guid,
        from.name ∙ ap ok name,
        IfOk-intro (Named Understood) (nv_nvlist config "features_for_read")
            (λ features. check_label-Understood v config features from.labelled),
        IfOk-intro (λ count. count ≡ 1) (nv_u64 config "vdev_children")
            (λ count. check_children-one v config count from.children),
        mos,
      )
