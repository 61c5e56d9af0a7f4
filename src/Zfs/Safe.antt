-- ===== src/Zfs/Safe.antt =====
-- The public operations of src/lib.rs end with a value or an error.
use lamzfs.Common.{◌≡◌, ℕ, ◌-◌, ◌≢◌, min, not, List, [], ◌∷◌, ltb, leb, if◌then◌else◌}
use lamzfs.Error.{not_found, not_a_regular_file, not_a_directory, file_too_large}
use lamzfs.Outcome.{
  Outcome, ok, err, panic, refuse_if, NoPanic, NoPanic->>=, NoPanic-refuse_if, NoPanic-if, ne-panic,
}
use lamzfs.Phys.{Dnode}
use lamzfs.Vendored.{Vendored}
use lamzfs.File.Safe.{read_dnode_range-NoPanic}
use lamzfs.Walk.{read_object}
use lamzfs.Walk.Safe.{BonusFits, read_object-NoPanic}
use lamzfs.Dataset.{Dataset, list_dir, resolve_path, sa_file_size}
use lamzfs.Dataset.Safe.{
  TypedIn, sa_file_size-NoPanic, open_dataset-NoPanic, child_dataset_names-NoPanic,
  root_dir_obj-NoPanic, list_dir-NoPanic, resolve_path-NoPanic,
}
use lamzfs.Zfs.{
  Zfs, Stat, max_file_bytes, dirent_kind, is_directory, is_regular, child_datasets, datasets,
  open_path, target_dir, read_dir, object_size, stat_path, stat, found_or_missing, exists,
  regular_file, read_capped, read, read_at,
}
use lamzfs.Zfs.Datasets.{datasets-Reachable}

-- Every object of the MOS that can be read has a first block of at least eight bytes, or none.
abbrev pub MosTyped : Vendored → Zfs → Type 0
MosTyped v z = TypedIn v z.members z.pool.topology z.pool.order z.pool.mos_dnode

-- The same of the objects of a dataset.
abbrev pub DatasetTyped : Vendored → Zfs → Dataset → Type 0
DatasetTyped v z ds = TypedIn v z.members z.pool.topology z.pool.order ds.meta_dnode

-- The same of the objects of the dataset that the path leads to, if it leads to one.
abbrev pub PathTyped : Vendored → Zfs → List (List ℕ) → Type 0
PathTyped v z dataset_path =
    (ds : Dataset) → open_path v z dataset_path ≡ ok ds → DatasetTyped v z ds

module _ (v : Vendored) (z : Zfs) (fits : BonusFits v) (typed : MosTyped v z) where
  child_datasets-NoPanic : (parent : List (List ℕ)) → NoPanic (child_datasets v z parent)
  unfolding child_datasets
  child_datasets-NoPanic parent =
      child_dataset_names-NoPanic v z.members z.pool.topology z.pool.order fits z.pool.mos_dnode
        typed parent

  pub child_datasets-ne-panic : (parent : List (List ℕ)) → child_datasets v z parent ≢ panic
  child_datasets-ne-panic parent = ne-panic _ (child_datasets-NoPanic parent)

  datasets-NoPanic : NoPanic (datasets v z)
  datasets-NoPanic =
      let (out, e, _, _, _) = datasets-Reachable v z child_datasets-ne-panic in rw e tt

  open_path-NoPanic : (dataset_path : List (List ℕ)) → NoPanic (open_path v z dataset_path)
  unfolding open_path
  open_path-NoPanic dataset_path =
      open_dataset-NoPanic v z.members z.pool.topology z.pool.order fits z.pool.mos_dnode typed
        dataset_path

  resolve-NoPanic :
      (ds : Dataset)
      → DatasetTyped v z ds
      → (path : List (List ℕ))
      → NoPanic (resolve_path v z.members z.pool.topology z.pool.order ds path)
  resolve-NoPanic ds objects path =
      resolve_path-NoPanic v z.members z.pool.topology z.pool.order fits ds objects path

  target_dir-NoPanic :
      (ds : Dataset)
      → DatasetTyped v z ds
      → (path : List (List ℕ)) → NoPanic (target_dir v z ds path)
  unfolding target_dir
  target_dir-NoPanic ds objects [] =
      root_dir_obj-NoPanic v z.members z.pool.topology z.pool.order fits ds objects
  target_dir-NoPanic ds objects (comp ∷ comps) =
      NoPanic->>= (resolve_path v z.members z.pool.topology z.pool.order ds (comp ∷ comps)) _
        (resolve-NoPanic ds objects (comp ∷ comps))
        λ found _.
          NoPanic->>= (refuse_if (not (is_directory (dirent_kind found.1))) not_a_directory) _
            (NoPanic-refuse_if (not (is_directory (dirent_kind found.1))) _) λ _ _. tt

  read_dir-NoPanic :
      (dataset_path path : List (List ℕ))
      → PathTyped v z dataset_path
      → NoPanic (read_dir v z dataset_path path)
  unfolding read_dir
  read_dir-NoPanic dataset_path path typed_ds =
      NoPanic->>= (open_path v z dataset_path) _ (open_path-NoPanic dataset_path) λ ds opened.
        NoPanic->>= (target_dir v z ds path) _ (target_dir-NoPanic ds (typed_ds ds opened) path)
          λ dir_obj _.
            NoPanic->>= (list_dir v z.members z.pool.topology z.pool.order ds dir_obj) _
              (list_dir-NoPanic v z.members z.pool.topology z.pool.order fits ds
                (typed_ds ds opened) dir_obj)
              λ entries _. tt

  object_size-NoPanic : (ds : Dataset) (obj : ℕ) → NoPanic (object_size v z ds obj)
  unfolding object_size
  object_size-NoPanic ds obj =
      NoPanic->>= (read_object v z.members z.pool.topology z.pool.order ds.meta_dnode obj) _
        (read_object-NoPanic v z.members z.pool.topology z.pool.order ds.meta_dnode obj fits)
        λ object _. sa_file_size-NoPanic z.pool.order object.bonus

  stat_path-NoPanic :
      (ds : Dataset)
      → DatasetTyped v z ds
      → (path : List (List ℕ)) → NoPanic (stat_path v z ds path)
  unfolding stat_path
  stat_path-NoPanic ds objects [] = tt
  stat_path-NoPanic ds objects (comp ∷ comps) =
      NoPanic->>= (resolve_path v z.members z.pool.topology z.pool.order ds (comp ∷ comps)) _
        (resolve-NoPanic ds objects (comp ∷ comps))
        λ found _.
          NoPanic->>=
            (if is_regular (dirent_kind found.1) then object_size v z ds found.0 else ok 0) _
            (NoPanic-if (is_regular (dirent_kind found.1)) _ _ (object_size-NoPanic ds found.0) tt)
            λ size _. tt

  stat-NoPanic :
      (dataset_path path : List (List ℕ))
      → PathTyped v z dataset_path
      → NoPanic (stat v z dataset_path path)
  unfolding stat
  stat-NoPanic dataset_path path typed_ds =
      NoPanic->>= (open_path v z dataset_path) _ (open_path-NoPanic dataset_path)
        λ ds opened. stat_path-NoPanic ds (typed_ds ds opened) path

  found_or_missing-NoPanic : (o : Outcome Stat) → NoPanic o → NoPanic (found_or_missing v z o)
  unfolding found_or_missing
  found_or_missing-NoPanic (ok st) h = tt
  found_or_missing-NoPanic (err (not_found c)) h = tt
  found_or_missing-NoPanic (err e) h = tt
  found_or_missing-NoPanic panic h = h

  exists-NoPanic :
      (dataset_path path : List (List ℕ))
      → PathTyped v z dataset_path
      → NoPanic (exists v z dataset_path path)
  unfolding exists
  exists-NoPanic dataset_path path typed_ds =
      found_or_missing-NoPanic (stat v z dataset_path path)
        (stat-NoPanic dataset_path path typed_ds)

  regular_file-NoPanic :
      (ds : Dataset)
      → DatasetTyped v z ds
      → (path : List (List ℕ)) → NoPanic (regular_file v z ds path)
  unfolding regular_file
  regular_file-NoPanic ds objects path =
      NoPanic->>= (resolve_path v z.members z.pool.topology z.pool.order ds path) _
        (resolve-NoPanic ds objects path)
        λ found _.
          NoPanic->>= (refuse_if (not (is_regular (dirent_kind found.1))) not_a_regular_file) _
            (NoPanic-refuse_if (not (is_regular (dirent_kind found.1))) _)
            λ _ _.
              NoPanic->>=
                (read_object v z.members z.pool.topology z.pool.order ds.meta_dnode found.0) _
                (read_object-NoPanic v z.members z.pool.topology z.pool.order ds.meta_dnode found.0
                  fits)
                λ object _.
                  NoPanic->>= (sa_file_size z.pool.order object.bonus) _
                    (sa_file_size-NoPanic z.pool.order object.bonus) λ size _. tt

  read_capped-NoPanic :
      (dnode : Dnode) (offset want : ℕ) → NoPanic (read_capped v z dnode offset want)
  unfolding read_capped
  read_capped-NoPanic dnode offset want =
      NoPanic->>= (refuse_if (ltb max_file_bytes want) (file_too_large want max_file_bytes)) _
        (NoPanic-refuse_if (ltb max_file_bytes want) _)
        λ _ _. read_dnode_range-NoPanic v z.members z.pool.topology z.pool.order dnode offset want

  read-NoPanic :
      (dataset_path path : List (List ℕ))
      → PathTyped v z dataset_path
      → NoPanic (read v z dataset_path path)
  unfolding read
  read-NoPanic dataset_path path typed_ds =
      NoPanic->>= (open_path v z dataset_path) _ (open_path-NoPanic dataset_path) λ ds opened.
        NoPanic->>= (regular_file v z ds path) _ (regular_file-NoPanic ds (typed_ds ds opened) path)
          λ found _. read_capped-NoPanic found.0 0 found.1

  read_at-NoPanic :
      (dataset_path path : List (List ℕ)) (offset len : ℕ)
      → PathTyped v z dataset_path
      → NoPanic (read_at v z dataset_path path offset len)
  unfolding read_at
  read_at-NoPanic dataset_path path offset len typed_ds =
      NoPanic->>= (open_path v z dataset_path) _ (open_path-NoPanic dataset_path) λ ds opened.
        NoPanic->>= (regular_file v z ds path) _ (regular_file-NoPanic ds (typed_ds ds opened) path)
          λ found _.
            NoPanic-if (leb found.1 offset) _ _ tt
              (read_capped-NoPanic found.0 offset (min len (found.1 - offset)))

  -- Given that the dnode decoder keeps the bonus length within the bonus, and that each object of
  -- the MOS, and of the dataset that the path leads to, has a first block of at least eight bytes,
  -- or none, if the object can be read, every operation on an imported pool ends with a value or an
  -- error, for all paths, offsets and lengths.
  pub operations-ne-panic :
      (dataset_path path : List (List ℕ)) (offset len : ℕ)
      → PathTyped v z dataset_path
      → (child_datasets v z dataset_path ≢ panic)
        × (datasets v z ≢ panic)
        × (read_dir v z dataset_path path ≢ panic)
        × (stat v z dataset_path path ≢ panic)
        × (exists v z dataset_path path ≢ panic)
        × (read v z dataset_path path ≢ panic)
        × (read_at v z dataset_path path offset len ≢ panic)
  operations-ne-panic dataset_path path offset len typed_ds = (
    ne-panic _ (child_datasets-NoPanic dataset_path),
    ne-panic _ datasets-NoPanic,
    ne-panic _ (read_dir-NoPanic dataset_path path typed_ds),
    ne-panic _ (stat-NoPanic dataset_path path typed_ds),
    ne-panic _ (exists-NoPanic dataset_path path typed_ds),
    ne-panic _ (read-NoPanic dataset_path path typed_ds),
    ne-panic _ (read_at-NoPanic dataset_path path offset len typed_ds),
  )
