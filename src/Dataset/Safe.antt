-- ===== src/Dataset/Safe.antt =====
-- The walks of src/dataset.rs end with a value or an error where no ZAP starts with a short block.
use lamzfs.Common.{ℕ, String, ◌+◌, ◌*◌, ◌/◌, ◌%◌, ◌^◌, ◌≡◌, not, List, [], ◌∷◌, ◌==◌, get_range}
use lamzfs.Common.Bytes.{codes}
use lamzfs.Error.{Location, inconsistent, not_found}
use lamzfs.Outcome.{
  ok, ok_or, refuse_if, ◌>>=◌, NoPanic, NoPanic->>=, NoPanic-ok_or, NoPanic-refuse_if,
}
use lamzfs.Phys.{BlockPointer, EndianOrder, Dnode}
use lamzfs.Vendored.{Vendored}
use lamzfs.BlockRead.{PoolMember}
use lamzfs.Cksum.{from_bytes}
use lamzfs.Vdev.{read_block_pointer}
use lamzfs.Vdev.Safe.{read_block_pointer-NoPanic}
use lamzfs.Vdev.Tree.{Topology}
use lamzfs.Walk.{read_object, read_object_dnode, read_objset, zap_entries, zap_lookup}
use lamzfs.Walk.Safe.{BonusFits, read_object-NoPanic}
use lamzfs.Walk.Typed.{HasType, zap_entries-NoPanic, zap_lookup-NoPanic}
use lamzfs.Dataset.{
  Dataset, mos_object_directory, zpl_master_node, sa_magic, sa_size_offset_std, sa_unsupported,
  sa_file_size, dirent_obj, dsl_dir, child_dir, walk_names, root_dataset_dir, open_head,
  open_dataset, child_dataset_names, root_dir_obj, list_dir, dir_entry, resolve_from, resolve_path,
}

pub sa_file_size-NoPanic :
    (order : EndianOrder) (bonus : List ℕ) → NoPanic (sa_file_size order bonus)
unfolding sa_file_size
sa_file_size-NoPanic order bonus =
    NoPanic->>= (ok_or (get_range bonus 0 4) sa_unsupported) _ (NoPanic-ok_or _ _) λ magic _.
      NoPanic->>= (refuse_if (not (from_bytes order magic == sa_magic)) sa_unsupported) _
        (NoPanic-refuse_if (not (from_bytes order magic == sa_magic)) _)
        λ _ _.
          NoPanic->>= (ok_or (get_range bonus 4 2) sa_unsupported) _ (NoPanic-ok_or _ _) λ info _.
            NoPanic->>=
              (ok_or
                (get_range bonus (from_bytes order info / 2 ^ 10 % 2 ^ 6 * 8 + sa_size_offset_std)
                  8)
                sa_unsupported)
              _ (NoPanic-ok_or _ _) λ size _. tt

module _ (v : Vendored) (members : List PoolMember) (topo : Topology) (order : EndianOrder) where
  -- Every object of this array that can be read has a first block of at least eight bytes, or none.
  abbrev pub TypedIn : Dnode → Type 0
  TypedIn array =
      (obj : ℕ) (dnode : Dnode)
      → read_object_dnode v members topo order array obj ≡ ok dnode
      → HasType v members topo order dnode

  module _ (fits : BonusFits v) where
    pub read_object_dnode-NoPanic :
        (array : Dnode) (obj : ℕ) → NoPanic (read_object_dnode v members topo order array obj)
    unfolding read_object_dnode
    read_object_dnode-NoPanic array obj =
        NoPanic->>= (read_object v members topo order array obj) _
          (read_object-NoPanic v members topo order array obj fits) λ object _. tt

    dsl_dir-NoPanic : (mos : Dnode) (obj : ℕ) → NoPanic (dsl_dir v members topo order mos obj)
    unfolding dsl_dir
    dsl_dir-NoPanic mos obj =
        NoPanic->>= (read_object v members topo order mos obj) _
          (read_object-NoPanic v members topo order mos obj fits)
          λ object _. NoPanic-ok_or (v.dsl_directory_decode order object.bonus) _

    pub read_objset-NoPanic : (bp : BlockPointer) → NoPanic (read_objset v members topo order bp)
    unfolding read_objset
    read_objset-NoPanic bp =
        NoPanic->>= (read_block_pointer v members topo bp) _
          (read_block_pointer-NoPanic v members topo bp)
          λ bytes _. NoPanic-ok_or (v.object_set_decode order bytes) _

    open_head-NoPanic : (mos : Dnode) (obj : ℕ) → NoPanic (open_head v members topo order mos obj)
    unfolding open_head
    open_head-NoPanic mos obj =
        NoPanic->>= (dsl_dir v members topo order mos obj) _ (dsl_dir-NoPanic mos obj) λ dir _.
          NoPanic->>= (ok_or dir.head_dataset_obj (not_found "head_dataset")) _
            (NoPanic-ok_or dir.head_dataset_obj _)
            λ ds_obj _.
              NoPanic->>= (read_object v members topo order mos ds_obj) _
                (read_object-NoPanic v members topo order mos ds_obj fits)
                λ object _.
                  NoPanic->>=
                    (ok_or (v.dsl_data_set_decode order object.bonus)
                      (inconsistent "dsl_dataset" (Location.dsl ds_obj)))
                    _ (NoPanic-ok_or (v.dsl_data_set_decode order object.bonus) _)
                    λ ds _.
                      NoPanic->>=
                        (ok_or ds.block_pointer
                          (inconsistent "dataset_no_bp" (Location.dsl ds_obj)))
                        _ (NoPanic-ok_or ds.block_pointer _)
                        λ bp _.
                          NoPanic->>= (read_objset v members topo order bp) _
                            (read_objset-NoPanic bp) λ meta _. tt

    module _ (mos : Dnode) (typed : TypedIn mos) where
      -- A name in the ZAP of an object, which is what every walk looks up.
      found-NoPanic :
          (obj : ℕ) (name : List ℕ) (component : String)
          → NoPanic (
              read_object_dnode v members topo order mos obj >>= λ zap.
              zap_lookup v members topo order zap name >>= λ found.
              ok_or found (not_found component))
      found-NoPanic obj name component =
          NoPanic->>= (read_object_dnode v members topo order mos obj) _
            (read_object_dnode-NoPanic mos obj)
            λ zap e.
              NoPanic->>= (zap_lookup v members topo order zap name) _
                (zap_lookup-NoPanic v members topo order zap name (typed obj zap e))
                λ found _. NoPanic-ok_or found _

      entries-NoPanic :
          (obj : ℕ)
          → NoPanic (
              read_object_dnode v members topo order mos obj >>= λ zap.
              zap_entries v members topo order zap)
      entries-NoPanic obj =
          NoPanic->>= (read_object_dnode v members topo order mos obj) _
            (read_object_dnode-NoPanic mos obj)
            λ zap e. zap_entries-NoPanic v members topo order zap (typed obj zap e)

      root_dataset_dir-NoPanic : NoPanic (root_dataset_dir v members topo order mos)
      unfolding root_dataset_dir
      root_dataset_dir-NoPanic =
          found-NoPanic mos_object_directory (codes "root_dataset") "root_dataset"

      walk_names-NoPanic :
          (obj : ℕ) (names : List (List ℕ))
          → NoPanic (walk_names v members topo order mos obj names)
      unfolding walk_names child_dir
      walk_names-NoPanic obj [] = tt
      walk_names-NoPanic obj (name ∷ names) =
          NoPanic->>= (child_dir v members topo order mos obj name) _
            (NoPanic->>= (dsl_dir v members topo order mos obj) _ (dsl_dir-NoPanic mos obj)
              λ dir _. found-NoPanic dir.child_directory_zap_obj name "dataset")
            λ next _. walk_names-NoPanic next names

      pub open_dataset-NoPanic :
          (names : List (List ℕ)) → NoPanic (open_dataset v members topo order mos names)
      unfolding open_dataset
      open_dataset-NoPanic names =
          NoPanic->>= (root_dataset_dir v members topo order mos) _ (root_dataset_dir-NoPanic)
            λ root _.
              NoPanic->>= (walk_names v members topo order mos root names) _
                (walk_names-NoPanic root names) λ obj _. open_head-NoPanic mos obj

      pub child_dataset_names-NoPanic :
          (parent : List (List ℕ)) → NoPanic (child_dataset_names v members topo order mos parent)
      unfolding child_dataset_names
      child_dataset_names-NoPanic parent =
          NoPanic->>= (root_dataset_dir v members topo order mos) _ (root_dataset_dir-NoPanic)
            λ root _.
              NoPanic->>= (walk_names v members topo order mos root parent) _
                (walk_names-NoPanic root parent)
                λ obj _.
                  NoPanic->>= (dsl_dir v members topo order mos obj) _ (dsl_dir-NoPanic mos obj)
                    λ dir _.
                      NoPanic->>=
                        (read_object_dnode v members topo order mos dir.child_directory_zap_obj) _
                        (read_object_dnode-NoPanic mos dir.child_directory_zap_obj)
                        λ zap e.
                          NoPanic->>= (zap_entries v members topo order zap) _
                            (zap_entries-NoPanic v members topo order zap
                              (typed dir.child_directory_zap_obj zap e))
                            λ es _. tt

    module _ (ds : Dataset) (typed : TypedIn ds.meta_dnode) where
      pub root_dir_obj-NoPanic : NoPanic (root_dir_obj v members topo order ds)
      unfolding root_dir_obj
      root_dir_obj-NoPanic = found-NoPanic ds.meta_dnode typed zpl_master_node (codes "ROOT") "ROOT"

      pub list_dir-NoPanic : (obj : ℕ) → NoPanic (list_dir v members topo order ds obj)
      unfolding list_dir
      list_dir-NoPanic obj = entries-NoPanic ds.meta_dnode typed obj

      resolve_from-NoPanic :
          (obj : ℕ) (comps : List (List ℕ))
          → NoPanic (resolve_from v members topo order ds obj comps)
      unfolding resolve_from dir_entry
      resolve_from-NoPanic obj [] = tt
      resolve_from-NoPanic obj (comp ∷ []) =
          NoPanic->>= (dir_entry v members topo order ds obj comp) _
            (found-NoPanic ds.meta_dnode typed obj comp "path") λ value _. tt
      resolve_from-NoPanic obj (comp ∷ next ∷ rest) =
          NoPanic->>= (dir_entry v members topo order ds obj comp) _
            (found-NoPanic ds.meta_dnode typed obj comp "path")
            λ value _. resolve_from-NoPanic (dirent_obj value) (next ∷ rest)

      pub resolve_path-NoPanic :
          (comps : List (List ℕ)) → NoPanic (resolve_path v members topo order ds comps)
      unfolding resolve_path
      resolve_path-NoPanic comps =
          NoPanic->>= (root_dir_obj v members topo order ds) _ (root_dir_obj-NoPanic)
            λ root _. resolve_from-NoPanic root comps
