-- ===== src/Pool/Build/Safe.antt =====
-- The labels and the vdev tree of src/pool.rs: the search for a member and the building of a layout
-- end with a value or an error, whatever the members' labels hold.
use lamzfs.Common.{
  ℕ, ◌+◌, Bool, true, not, ◌||◌, List, [], ◌∷◌, ltb, ◌==◌, length, bytes_eq, Option, if◌then◌else◌,
}
use lamzfs.Common.Bytes.{codes}
use lamzfs.Error.{Error, unsupported_feature, unsupported_topology}
use lamzfs.Outcome.{
  Outcome, ok, err, panic, refuse_if, NoPanic, NoPanic->>=, NoPanic-refuse_if, NoPanic-if,
}
use lamzfs.Phys.{NvList}
use lamzfs.Vendored.{Vendored}
use lamzfs.BlockRead.{PoolMember, read_exact-NoPanic}
use lamzfs.Pool.Nv.{nv_has, nv_u64, nv_str, nv_child_guids}
use lamzfs.Pool.Nv.Safe.{nv_has-NoPanic, nv_u64-NoPanic, nv_str-NoPanic, nv_child_guids-NoPanic}
use lamzfs.Pool.Build.{
  unwrap_or, read_nvpairs, label_has_guid, find_from, find_member_by_guid, raidz_members,
  mirror_members, present_count, build_raidz, build_mirror, build_topology,
}

unwrap_or-NoPanic : (o : Outcome ℕ) (d : ℕ) → NoPanic o → NoPanic (unwrap_or o d)
unwrap_or-NoPanic (ok n) d h = tt
unwrap_or-NoPanic (err e) d h = tt
unwrap_or-NoPanic panic d h = h

module _ (v : Vendored) where
  pub read_nvpairs-NoPanic : (member : PoolMember) → NoPanic (read_nvpairs v member)
  unfolding read_nvpairs
  read_nvpairs-NoPanic member = read_exact-NoPanic member 16384 114688 0 "io_nvpairs"

  find_from-NoPanic :
      (members : List PoolMember) (i guid : ℕ) → NoPanic (find_from v members i guid)
  unfolding find_from
  find_from-NoPanic [] i guid = tt
  find_from-NoPanic (member ∷ members) i guid =
      NoPanic->>= (read_nvpairs v member) _ (read_nvpairs-NoPanic member) λ buf _.
        NoPanic-if (label_has_guid v buf guid) _ _ tt (find_from-NoPanic members (i + 1) guid)

  mirror_members-NoPanic :
      (members : List PoolMember) (guids : List ℕ) → NoPanic (mirror_members v members guids)
  unfolding mirror_members find_member_by_guid
  mirror_members-NoPanic members [] = tt
  mirror_members-NoPanic members (guid ∷ guids) =
      NoPanic->>= (find_from v members 0 guid) _ (find_from-NoPanic members 0 guid) λ i _.
        NoPanic->>= (mirror_members v members guids) _ (mirror_members-NoPanic members guids)
          λ rest _. tt

  build_raidz-NoPanic :
      (vtree : NvList) (members : List PoolMember) → NoPanic (build_raidz v vtree members)
  unfolding build_raidz
  build_raidz-NoPanic vtree members =
      NoPanic->>= (unwrap_or (nv_u64 vtree "nparity") 1) _
        (unwrap_or-NoPanic (nv_u64 vtree "nparity") 1 (nv_u64-NoPanic vtree "nparity"))
        λ nparity _.
          NoPanic->>= (refuse_if (not (nparity == 1)) multiparity) _
            (NoPanic-refuse_if (not (nparity == 1)) multiparity)
            λ _ _.
              NoPanic->>= (nv_has vtree "raidz_expand_txgs") _
                (nv_has-NoPanic vtree "raidz_expand_txgs")
                λ expanded _.
                  NoPanic->>= (if expanded then ok true else nv_has vtree "raidz_expanding") _
                    (NoPanic-if expanded _ _ tt (nv_has-NoPanic vtree "raidz_expanding"))
                    λ expanding _.
                      NoPanic->>= (refuse_if expanding (unsupported_feature "raidz_expansion")) _
                        (NoPanic-refuse_if expanding _)
                        λ _ _.
                          NoPanic->>= (nv_u64 vtree "ashift") _ (nv_u64-NoPanic vtree "ashift")
                            λ ashift _.
                              NoPanic->>= (nv_child_guids vtree) _ (nv_child_guids-NoPanic vtree)
                                λ guids _.
                                  NoPanic->>=
                                    (refuse_if (lost (raidz_members v members guids)) missing) _
                                    (NoPanic-refuse_if (lost (raidz_members v members guids))
                                      missing)
                                    λ _ _. tt
    where
      multiparity : Error
      multiparity = unsupported_topology "topo_raidz_multiparity"

      missing : Error
      missing = unsupported_topology "topo_raidz_degraded"

      lost : List (Option ℕ) → Bool
      lost idx = ltb (present_count idx + 1) (length idx)

  build_mirror-NoPanic :
      (vtree : NvList) (members : List PoolMember) → NoPanic (build_mirror v vtree members)
  unfolding build_mirror
  build_mirror-NoPanic vtree members =
      NoPanic->>= (nv_child_guids vtree) _ (nv_child_guids-NoPanic vtree) λ guids _.
        NoPanic->>= (mirror_members v members guids) _ (mirror_members-NoPanic members guids)
          λ idx _. tt

  pub build_topology-NoPanic :
      (vtree : NvList) (members : List PoolMember) → NoPanic (build_topology v vtree members)
  unfolding build_topology
  build_topology-NoPanic vtree members =
      NoPanic->>= (nv_str vtree "type") _ (nv_str-NoPanic vtree "type") λ vtype _.
        NoPanic-if (bytes_eq vtype (codes "disk") || bytes_eq vtype (codes "file")) _ _ tt (
          NoPanic-if (bytes_eq vtype (codes "mirror")) _ _ (build_mirror-NoPanic vtree members) (
            NoPanic-if (bytes_eq vtype (codes "raidz")) _ _ (build_raidz-NoPanic vtree members)
              (NoPanic-if (bytes_eq vtype (codes "draid")) _ _ tt tt)))
