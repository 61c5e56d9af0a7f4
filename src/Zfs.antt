-- ===== src/Zfs.antt =====
-- src/lib.rs: the public operations of an imported pool.
pub mod Reads
pub mod Datasets
pub mod Listing
pub mod Located
pub mod Imports
pub mod Safe
pub mod Opened
pub mod Stats
pub mod Alike
pub mod Spares
pub mod Stream
pub mod Targets
use lamzfs.Common.{
  ℕ, zero, suc, ◌+◌, ◌-◌, ◌*◌, ◌/◌, ◌^◌, min, Bool, true, false, not, ◌||◌, List, [], ◌∷◌, ◌++◌,
  map, ltb, leb, ◌==◌, if◌then◌else◌, length,
}
use lamzfs.Error.{not_found, not_a_regular_file, not_a_directory, file_too_large}
use lamzfs.Outcome.{Outcome, ok, err, panic, refuse_if, ◌>>=◌, ◌>>◌}
use lamzfs.Phys.{Dnode}
use lamzfs.Vendored.{Vendored}
use lamzfs.BlockRead.{PoolMember}
use lamzfs.File.{read_dnode_range}
use lamzfs.Walk.{read_object}
use lamzfs.Dataset.{
  Dataset, dirent_obj, open_dataset, child_dataset_names, root_dir_obj, list_dir, resolve_path,
  sa_file_size,
}
use lamzfs.Pool.{ImportedPool, import, peek_pool_id}

pub data EntryKind : Type 0 where
  regular directory symlink other : EntryKind

pub record DirEntry : Type 0 where
  pub name : List ℕ
  pub kind : EntryKind
  pub object_id : ℕ

pub record Stat : Type 0 where
  pub kind : EntryKind
  pub size : ℕ

pub record PoolId : Type 0 where
  pub guid : ℕ
  pub name : List ℕ

pub record Zfs : Type 0 where
  pub members : List PoolMember
  pub pool : ImportedPool

-- `value >> 60`.
unfoldable pub dirent_kind : ℕ → EntryKind
dirent_kind value =
    let kind = value / 2 ^ 60 in
    if kind == 4
    then directory
    else if kind == 8
    then regular
    else if kind == 10
    then symlink
    else other

unfoldable pub is_directory : EntryKind → Bool
is_directory directory = true
is_directory _ = false

unfoldable pub is_regular : EntryKind → Bool
is_regular regular = true
is_regular _ = false

abbrev pub max_file_bytes : ℕ
max_file_bytes = 256 * 1024 * 1024

abbrev pub max_datasets : ℕ
max_datasets = 256

abbrev pub max_dataset_depth : ℕ
max_dataset_depth = 16

unfoldable pub to_dir_entry : List ℕ × ℕ → DirEntry
unfolding dirent_kind
to_dir_entry (name, value) = record {
  name = name;
  kind = dirent_kind value;
  object_id = dirent_obj value;
}

-- A queue of dataset paths, last first, beside the paths found.
abbrev pub Listing : Type 0
Listing = List (List (List ℕ)) × List (List (List ℕ))

-- `for child in children`, up to the limit.
unfoldable pub push_children : List (List ℕ) → List (List ℕ) → Listing → Listing
push_children parent [] (queue, out) = (queue, out)
push_children parent (child ∷ children) (queue, out) =
    let path = parent ++ child ∷ [] in
    let rest = push_children parent children (path ∷ queue, out ++ path ∷ []) in
    if leb max_datasets (length out) then (queue, out) else rest

-- `while let Some(parent) = queue.pop()`. A listing that fails is skipped. Out of fuel it panics,
-- which the source cannot do: at most `max_datasets` paths are pushed.
unfoldable pub datasets_loop :
    (List (List ℕ) → Outcome (List (List ℕ))) → ℕ → Listing → Outcome (List (List (List ℕ)))
unfolding push_children
datasets_loop list fuel ([], out) = ok out
datasets_loop list zero (parent ∷ queue, out) = panic
datasets_loop list (suc fuel) (parent ∷ queue, out) =
    let skip = datasets_loop list fuel (queue, out) in
    let visit : Outcome (List (List (List ℕ))) = elim (list parent) [
      | ok children ↦ datasets_loop list fuel (push_children parent children (queue, out))
      | err e ↦ datasets_loop list fuel (queue, out)
      | panic ↦ panic
    ] in
    if leb max_datasets (length out) || leb max_dataset_depth (length parent) then skip else visit

module _ (v : Vendored) where
  unfoldable pub peek : PoolMember → Outcome PoolId
  unfolding peek_pool_id
  peek member = do (guid, name) ← peek_pool_id v member; ok (record { guid = guid; name = name })

  unfoldable pub import_pool : List PoolMember → Outcome Zfs
  unfolding import
  import_pool members = do pool ← import v members; ok (record { members = members; pool = pool })

  module _ (z : Zfs) where
    unfoldable pub child_datasets : List (List ℕ) → Outcome (List (List ℕ))
    unfolding child_dataset_names
    child_datasets parent =
        child_dataset_names v z.members z.pool.topology z.pool.order z.pool.mos_dnode parent

    unfoldable pub datasets : Outcome (List (List (List ℕ)))
    unfolding datasets_loop child_datasets
    datasets = datasets_loop child_datasets (max_datasets + 1) ([] ∷ [], [] ∷ [])

    unfoldable pub open_path : List (List ℕ) → Outcome Dataset
    unfolding open_dataset
    open_path dataset_path =
        open_dataset v z.members z.pool.topology z.pool.order z.pool.mos_dnode dataset_path

    -- The directory that `read_dir` lists.
    unfoldable pub target_dir : Dataset → List (List ℕ) → Outcome ℕ
    unfolding root_dir_obj resolve_path dirent_kind is_directory
    target_dir ds [] = root_dir_obj v z.members z.pool.topology z.pool.order ds
    target_dir ds (comp ∷ comps) = do
      (obj, value) ← resolve_path v z.members z.pool.topology z.pool.order ds (comp ∷ comps)
      refuse_if (not (is_directory (dirent_kind value))) not_a_directory
      ok obj

    unfoldable pub read_dir : List (List ℕ) → List (List ℕ) → Outcome (List DirEntry)
    unfolding open_path target_dir list_dir to_dir_entry
    read_dir dataset_path dir_path = do
      ds ← open_path dataset_path
      dir_obj ← target_dir ds dir_path
      entries ← list_dir v z.members z.pool.topology z.pool.order ds dir_obj
      ok (map to_dir_entry entries)

    -- The size of the file that an entry names.
    unfoldable pub object_size : Dataset → ℕ → Outcome ℕ
    unfolding read_object sa_file_size
    object_size ds obj = do
      object ← read_object v z.members z.pool.topology z.pool.order ds.meta_dnode obj
      sa_file_size z.pool.order object.bonus

    unfoldable pub stat_path : Dataset → List (List ℕ) → Outcome Stat
    unfolding resolve_path object_size dirent_kind is_regular
    stat_path ds [] = ok (record { kind = directory; size = 0 })
    stat_path ds (comp ∷ comps) = do
      (obj, value) ← resolve_path v z.members z.pool.topology z.pool.order ds (comp ∷ comps)
      let kind = dirent_kind value
      let file_size = object_size ds obj
      size ← (if is_regular kind then file_size else ok 0)
      ok (record { kind = kind; size = size })

    unfoldable pub stat : List (List ℕ) → List (List ℕ) → Outcome Stat
    unfolding open_path stat_path
    stat dataset_path path = do ds ← open_path dataset_path; stat_path ds path

    -- What `exists` makes of a `stat`.
    unfoldable pub found_or_missing : Outcome Stat → Outcome Bool
    found_or_missing (ok _) = ok true
    found_or_missing (err (not_found _)) = ok false
    found_or_missing (err e) = err e
    found_or_missing panic = panic

    unfoldable pub exists : List (List ℕ) → List (List ℕ) → Outcome Bool
    unfolding stat found_or_missing
    exists dataset_path path = found_or_missing (stat dataset_path path)

    unfoldable pub regular_file : Dataset → List (List ℕ) → Outcome (Dnode × ℕ)
    unfolding resolve_path read_object sa_file_size dirent_kind is_regular
    regular_file ds file_path = do
      (obj, value) ← resolve_path v z.members z.pool.topology z.pool.order ds file_path
      refuse_if (not (is_regular (dirent_kind value))) not_a_regular_file
      object ← read_object v z.members z.pool.topology z.pool.order ds.meta_dnode obj
      size ← sa_file_size z.pool.order object.bonus
      ok (object.dnode, size)

    -- A file's range, with the cap on what is allocated.
    unfoldable pub read_capped : Dnode → ℕ → ℕ → Outcome (List ℕ)
    unfolding read_dnode_range
    read_capped dnode offset want = do
      refuse_if (ltb max_file_bytes want) (file_too_large want max_file_bytes)
      read_dnode_range v z.members z.pool.topology z.pool.order dnode offset want

    unfoldable pub read : List (List ℕ) → List (List ℕ) → Outcome (List ℕ)
    unfolding open_path regular_file read_capped
    read dataset_path file_path = do
      ds ← open_path dataset_path
      (dnode, size) ← regular_file ds file_path
      read_capped dnode 0 size

    unfoldable pub read_at : List (List ℕ) → List (List ℕ) → ℕ → ℕ → Outcome (List ℕ)
    unfolding open_path regular_file read_capped
    read_at dataset_path file_path offset len = do
      ds ← open_path dataset_path
      (dnode, size) ← regular_file ds file_path
      let window = read_capped dnode offset (min len (size - offset))
      if leb size offset then ok [] else window
