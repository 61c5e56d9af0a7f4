-- ===== src/Zfs/Alike.antt =====
-- The public operations of src/lib.rs over two sets of devices whose block reads are alike.
use lamzfs.Common.{
  ◌∙◌, ℕ, ◌+◌, ◌-◌, ◌≡◌, refl, ap, min, not, List, [], ◌∷◌, ltb, leb, if◌then◌else◌, inl, inr,
}
use lamzfs.Error.{Error, not_found, not_a_regular_file, file_too_large}
use lamzfs.Outcome.{Outcome, ok, err, panic, refuse_if}
use lamzfs.Outcome.Alike.{IsFault, Faults, Alike, Alike->>=, Alike-then, Alike-if}
use lamzfs.Phys.{Dnode}
use lamzfs.Vendored.{Vendored}
use lamzfs.BlockRead.{PoolMember}
use lamzfs.Vdev.Tree.{Topology}
use lamzfs.File.Alike.{ReadsAlike, read_dnode_range-Alike}
use lamzfs.Walk.{read_object}
use lamzfs.Walk.Alike.{read_object-Alike}
use lamzfs.Dataset.{Dataset, list_dir, resolve_path}
use lamzfs.Dataset.Alike.{
  open_dataset-Alike, child_dataset_names-Alike, root_dir_obj-Alike, list_dir-Alike,
  resolve_path-Alike,
}
use lamzfs.Zfs.Datasets.Alike.{datasets_loop-same}
use lamzfs.Zfs.{
  Zfs, Stat, max_file_bytes, max_datasets, dirent_kind, is_regular, child_datasets, datasets,
  open_path, target_dir, read_dir, object_size, stat_path, stat, found_or_missing, exists,
  regular_file, read_capped, read, read_at,
}

-- The same pool over other devices and their topology.
abbrev pub over : Zfs → List PoolMember → Topology → Zfs
over z members topo = record { members = members; pool = record z.pool { topology = topo } }

module _ (v : Vendored) where
  missing-Alike :
      (z z' : Zfs) (o o' : Outcome Stat)
      → Alike o o'
      → Alike (found_or_missing v z o) (found_or_missing v z' o')
  unfolding found_or_missing
  missing-Alike z z' o o' (inl e) = inl (found_or_missing-same o ∙ ap (found_or_missing v z') e)
    where
      found_or_missing-same : (x : Outcome Stat) → found_or_missing v z x ≡ found_or_missing v z' x
      found_or_missing-same x = refl
  missing-Alike z z' (err e) (err e') (inr (f, f')) = inr (kept z e f, kept z' e' f')
    where
      kept : (y : Zfs) (e : Error) → IsFault e → Faults (found_or_missing v y (err e))
      kept y (not_found c) f = f
      kept y e f = f
  missing-Alike z z' (ok a) o' (inr (f, _)) = absurd f
  missing-Alike z z' panic o' (inr (f, _)) = absurd f
  missing-Alike z z' (err e) (ok a) (inr (_, f)) = absurd f
  missing-Alike z z' (err e) panic (inr (_, f)) = absurd f

module _ (v : Vendored) (z : Zfs) (members : List PoolMember) (topo : Topology)
    (alike : ReadsAlike v z.members z.pool.topology members topo) where
  abbrev z' : Zfs
  z' = over z members topo

  pub child_datasets-Alike :
      (parent : List (List ℕ)) → Alike (child_datasets v z parent) (child_datasets v z' parent)
  unfolding child_datasets
  child_datasets-Alike parent =
      child_dataset_names-Alike v z.members members z.pool.topology topo alike z.pool.order
        z.pool.mos_dnode parent

  pub datasets-same : datasets v z ≡ datasets v z'
  unfolding datasets
  datasets-same =
      datasets_loop-same (child_datasets v z) (child_datasets v z') child_datasets-Alike
        (max_datasets + 1) ([] ∷ []) ([] ∷ [])

  open_path-Alike :
      (dataset_path : List (List ℕ))
      → Alike (open_path v z dataset_path) (open_path v z' dataset_path)
  unfolding open_path
  open_path-Alike dataset_path =
      open_dataset-Alike v z.members members z.pool.topology topo alike z.pool.order
        z.pool.mos_dnode dataset_path

  resolve-Alike :
      (ds : Dataset) (path : List (List ℕ))
      → Alike
          (resolve_path v z.members z.pool.topology z.pool.order ds path)
          (resolve_path v members topo z.pool.order ds path)
  resolve-Alike ds path =
      resolve_path-Alike v z.members members z.pool.topology topo alike z.pool.order ds path

  object-Alike :
      (ds : Dataset) (obj : ℕ)
      → Alike
          (read_object v z.members z.pool.topology z.pool.order ds.meta_dnode obj)
          (read_object v members topo z.pool.order ds.meta_dnode obj)
  object-Alike ds obj =
      read_object-Alike v z.members members z.pool.topology topo alike z.pool.order ds.meta_dnode
        obj

  target_dir-Alike :
      (ds : Dataset) (path : List (List ℕ))
      → Alike (target_dir v z ds path) (target_dir v z' ds path)
  unfolding target_dir
  target_dir-Alike ds [] =
      root_dir_obj-Alike v z.members members z.pool.topology topo alike z.pool.order ds
  target_dir-Alike ds (comp ∷ comps) =
      Alike->>= (resolve_path v z.members z.pool.topology z.pool.order ds (comp ∷ comps))
        (resolve_path v members topo z.pool.order ds (comp ∷ comps)) _ _
        (resolve-Alike ds (comp ∷ comps)) λ found. inl refl

  pub read_dir-Alike :
      (dataset_path path : List (List ℕ))
      → Alike (read_dir v z dataset_path path) (read_dir v z' dataset_path path)
  unfolding read_dir
  read_dir-Alike dataset_path path =
      Alike->>= (open_path v z dataset_path) (open_path v z' dataset_path) _ _
        (open_path-Alike dataset_path)
        λ ds.
          Alike->>= (target_dir v z ds path) (target_dir v z' ds path) _ _
            (target_dir-Alike ds path)
            λ dir_obj.
              Alike->>= (list_dir v z.members z.pool.topology z.pool.order ds dir_obj)
                (list_dir v members topo z.pool.order ds dir_obj) _ _
                (list_dir-Alike v z.members members z.pool.topology topo alike z.pool.order ds
                  dir_obj)
                λ entries. inl refl

  object_size-Alike :
      (ds : Dataset) (obj : ℕ) → Alike (object_size v z ds obj) (object_size v z' ds obj)
  unfolding object_size
  object_size-Alike ds obj =
      Alike->>= (read_object v z.members z.pool.topology z.pool.order ds.meta_dnode obj)
        (read_object v members topo z.pool.order ds.meta_dnode obj) _ _ (object-Alike ds obj)
        λ object. inl refl

  stat_path-Alike :
      (ds : Dataset) (path : List (List ℕ)) → Alike (stat_path v z ds path) (stat_path v z' ds path)
  unfolding stat_path
  stat_path-Alike ds [] = inl refl
  stat_path-Alike ds (comp ∷ comps) =
      Alike->>= (resolve_path v z.members z.pool.topology z.pool.order ds (comp ∷ comps))
        (resolve_path v members topo z.pool.order ds (comp ∷ comps)) _ _
        (resolve-Alike ds (comp ∷ comps))
        λ found.
          Alike->>= (if is_regular (dirent_kind found.1) then object_size v z ds found.0 else ok 0)
            (if is_regular (dirent_kind found.1) then object_size v z' ds found.0 else ok 0) _ _
            (Alike-if (is_regular (dirent_kind found.1)) _ _ _ _ (object_size-Alike ds found.0)
              (inl refl))
            λ size. inl refl

  pub stat-Alike :
      (dataset_path path : List (List ℕ))
      → Alike (stat v z dataset_path path) (stat v z' dataset_path path)
  unfolding stat
  stat-Alike dataset_path path =
      Alike->>= (open_path v z dataset_path) (open_path v z' dataset_path) _ _
        (open_path-Alike dataset_path) λ ds. stat_path-Alike ds path

  pub exists-Alike :
      (dataset_path path : List (List ℕ))
      → Alike (exists v z dataset_path path) (exists v z' dataset_path path)
  unfolding exists
  exists-Alike dataset_path path =
      missing-Alike v z z' (stat v z dataset_path path) (stat v z' dataset_path path)
        (stat-Alike dataset_path path)

  regular_file-Alike :
      (ds : Dataset) (path : List (List ℕ))
      → Alike (regular_file v z ds path) (regular_file v z' ds path)
  unfolding regular_file
  regular_file-Alike ds path =
      Alike->>= (resolve_path v z.members z.pool.topology z.pool.order ds path)
        (resolve_path v members topo z.pool.order ds path) _ _ (resolve-Alike ds path)
        λ found.
          Alike-then (refuse_if (not (is_regular (dirent_kind found.1))) not_a_regular_file) _ _
            λ _.
              Alike->>= (read_object v z.members z.pool.topology z.pool.order ds.meta_dnode found.0)
                (read_object v members topo z.pool.order ds.meta_dnode found.0) _ _
                (object-Alike ds found.0) λ object. inl refl

  read_capped-Alike :
      (dnode : Dnode) (offset want : ℕ)
      → Alike (read_capped v z dnode offset want) (read_capped v z' dnode offset want)
  unfolding read_capped
  read_capped-Alike dnode offset want =
      Alike-then (refuse_if (ltb max_file_bytes want) (file_too_large want max_file_bytes)) _ _ λ _.
        read_dnode_range-Alike v z.members members z.pool.topology topo alike z.pool.order dnode
          offset want

  pub read-Alike :
      (dataset_path path : List (List ℕ))
      → Alike (read v z dataset_path path) (read v z' dataset_path path)
  unfolding read
  read-Alike dataset_path path =
      Alike->>= (open_path v z dataset_path) (open_path v z' dataset_path) _ _
        (open_path-Alike dataset_path)
        λ ds.
          Alike->>= (regular_file v z ds path) (regular_file v z' ds path) _ _
            (regular_file-Alike ds path) λ found. read_capped-Alike found.0 0 found.1

  pub read_at-Alike :
      (dataset_path path : List (List ℕ)) (offset len : ℕ)
      → Alike (read_at v z dataset_path path offset len) (read_at v z' dataset_path path offset len)
  unfolding read_at
  read_at-Alike dataset_path path offset len =
      Alike->>= (open_path v z dataset_path) (open_path v z' dataset_path) _ _
        (open_path-Alike dataset_path)
        λ ds.
          Alike->>= (regular_file v z ds path) (regular_file v z' ds path) _ _
            (regular_file-Alike ds path)
            λ found.
              Alike-if (leb found.1 offset) _ _ _ _ (inl refl)
                (read_capped-Alike found.0 offset (min len (found.1 - offset)))
