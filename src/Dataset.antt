-- ===== src/Dataset.antt =====
-- src/dataset.rs: from the MOS to a dataset, and from a dataset's root to a path within it.
pub mod Paths
pub mod Safe
pub mod Sizes
pub mod Alike
use lamzfs.Common.{
  ℕ, ◌+◌, ◌*◌, ◌/◌, ◌%◌, ◌^◌, Bool, false, List, [], ◌∷◌, map, not, ◌==◌, if◌then◌else◌, get_range,
}
use lamzfs.Common.Bytes.{codes}
use lamzfs.Error.{Error, Location, inconsistent, not_found, unsupported_feature}
use lamzfs.Outcome.{Outcome, ok, err, ok_or, refuse_if, ◌>>=◌, ◌>>◌}
use lamzfs.Phys.{EndianOrder, Dnode, DslDirectory}
use lamzfs.Vendored.{Vendored}
use lamzfs.BlockRead.{PoolMember}
use lamzfs.Cksum.{from_bytes}
use lamzfs.Vdev.Tree.{Topology}
use lamzfs.Walk.{read_object, read_object_dnode, read_objset, zap_entries, zap_lookup}

abbrev pub mos_object_directory : ℕ
mos_object_directory = 1

abbrev pub zpl_master_node : ℕ
zpl_master_node = 1

pub record Dataset : Type 0 where
  pub meta_dnode : Dnode

-- `value & DIRENT_OBJ_MASK`: the low 48 bits.
abbrev pub dirent_obj : ℕ → ℕ
dirent_obj value = value % 2 ^ 48

-- `!name.starts_with('$')`, over a list of names.
unfoldable pub is_internal : List ℕ → Bool
is_internal [] = false
is_internal (b ∷ bs) = b == b'$'

unfoldable pub visible : List (List ℕ) → List (List ℕ)
unfolding is_internal
visible [] = []
visible (name ∷ names) = if is_internal name then visible names else name ∷ visible names

abbrev pub sa_magic : ℕ
sa_magic = 0x002f_505a

abbrev pub sa_size_offset_std : ℕ
sa_size_offset_std = 8

abbrev pub sa_unsupported : Error
sa_unsupported = unsupported_feature "sa_layout"

-- The layout word's high six bits are the header's size in units of eight bytes.
unfoldable pub sa_file_size : EndianOrder → List ℕ → Outcome ℕ
unfolding from_bytes
sa_file_size order bonus = do
  magic_bytes ← ok_or (get_range bonus 0 4) sa_unsupported
  refuse_if (not (from_bytes order magic_bytes == sa_magic)) sa_unsupported
  info_bytes ← ok_or (get_range bonus 4 2) sa_unsupported
  let hdrsz = from_bytes order info_bytes / 2 ^ 10 % 2 ^ 6 * 8
  size_bytes ← ok_or (get_range bonus (hdrsz + sa_size_offset_std) 8) sa_unsupported
  ok (from_bytes order size_bytes)

module _ (v : Vendored) (members : List PoolMember) (topo : Topology) (order : EndianOrder) where
  unfoldable pub dsl_dir : Dnode → ℕ → Outcome DslDirectory
  unfolding read_object
  dsl_dir mos obj = do
    object ← read_object v members topo order mos obj
    ok_or (v.dsl_directory_decode order object.bonus) (inconsistent "dsl_dir" (Location.dsl obj))

  -- The child directory of a name under a DSL directory.
  unfoldable pub child_dir : Dnode → ℕ → List ℕ → Outcome ℕ
  unfolding dsl_dir read_object_dnode zap_lookup
  child_dir mos dir_obj name = do
    dir ← dsl_dir mos dir_obj
    child_zap ← read_object_dnode v members topo order mos dir.child_directory_zap_obj
    found ← zap_lookup v members topo order child_zap name
    ok_or found (not_found "dataset")

  -- `for name in names`.
  unfoldable pub walk_names : Dnode → ℕ → List (List ℕ) → Outcome ℕ
  unfolding child_dir
  walk_names mos dir_obj [] = ok dir_obj
  walk_names mos dir_obj (name ∷ names) = do
    obj ← child_dir mos dir_obj name
    walk_names mos obj names

  unfoldable pub root_dataset_dir : Dnode → Outcome ℕ
  unfolding read_object_dnode zap_lookup
  root_dataset_dir mos = do
    objdir ← read_object_dnode v members topo order mos mos_object_directory
    found ← zap_lookup v members topo order objdir (codes "root_dataset")
    ok_or found (not_found "root_dataset")

  -- From the selected DSL directory to the object set of its head dataset.
  unfoldable pub open_head : Dnode → ℕ → Outcome Dataset
  unfolding dsl_dir read_object read_objset
  open_head mos dir_obj = do
    dir ← dsl_dir mos dir_obj
    ds_obj ← ok_or dir.head_dataset_obj (not_found "head_dataset")
    ds_object ← read_object v members topo order mos ds_obj
    ds ←
        ok_or (v.dsl_data_set_decode order ds_object.bonus)
          (inconsistent "dsl_dataset" (Location.dsl ds_obj))
    bp ← ok_or ds.block_pointer (inconsistent "dataset_no_bp" (Location.dsl ds_obj))
    meta ← read_objset v members topo order bp
    ok (record { meta_dnode = meta })

  unfoldable pub open_dataset : Dnode → List (List ℕ) → Outcome Dataset
  unfolding root_dataset_dir walk_names open_head
  open_dataset mos names = do
    root ← root_dataset_dir mos
    dir_obj ← walk_names mos root names
    open_head mos dir_obj

  unfoldable pub child_dataset_names : Dnode → List (List ℕ) → Outcome (List (List ℕ))
  unfolding root_dataset_dir walk_names dsl_dir read_object_dnode zap_entries visible
  child_dataset_names mos parent = do
    root ← root_dataset_dir mos
    dir_obj ← walk_names mos root parent
    dir ← dsl_dir mos dir_obj
    child_zap ← read_object_dnode v members topo order mos dir.child_directory_zap_obj
    entries ← zap_entries v members topo order child_zap
    ok (visible (map (λ (e : List ℕ × ℕ). e.0) entries))

  unfoldable pub root_dir_obj : Dataset → Outcome ℕ
  unfolding read_object_dnode zap_lookup
  root_dir_obj dataset = do
    master ← read_object_dnode v members topo order dataset.meta_dnode zpl_master_node
    found ← zap_lookup v members topo order master (codes "ROOT")
    ok_or found (not_found "ROOT")

  unfoldable pub list_dir : Dataset → ℕ → Outcome (List (List ℕ × ℕ))
  unfolding read_object_dnode zap_entries
  list_dir dataset dir_obj = do
    dir ← read_object_dnode v members topo order dataset.meta_dnode dir_obj
    zap_entries v members topo order dir

  -- The directory entry of one component.
  unfoldable pub dir_entry : Dataset → ℕ → List ℕ → Outcome ℕ
  unfolding read_object_dnode zap_lookup
  dir_entry dataset dir_obj comp = do
    dir ← read_object_dnode v members topo order dataset.meta_dnode dir_obj
    found ← zap_lookup v members topo order dir comp
    ok_or found (not_found "path")

  -- The loop over the components: the last gives the result, an earlier one the next directory.
  unfoldable pub resolve_from : Dataset → ℕ → List (List ℕ) → Outcome (ℕ × ℕ)
  unfolding dir_entry
  resolve_from dataset dir_obj [] = err (not_found "empty_path")
  resolve_from dataset dir_obj (comp ∷ []) = do
    value ← dir_entry dataset dir_obj comp
    ok (dirent_obj value, value)
  resolve_from dataset dir_obj (comp ∷ next ∷ rest) = do
    value ← dir_entry dataset dir_obj comp
    resolve_from dataset (dirent_obj value) (next ∷ rest)

  unfoldable pub resolve_path : Dataset → List (List ℕ) → Outcome (ℕ × ℕ)
  unfolding root_dir_obj resolve_from
  resolve_path dataset components = do
    root ← root_dir_obj dataset
    resolve_from dataset root components
