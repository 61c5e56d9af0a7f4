-- ===== src/Dataset/Alike.antt =====
-- src/dataset.rs over two sets of devices whose block reads are alike.
use lamzfs.Common.{ℕ, refl, String, List, [], ◌∷◌, inl}
use lamzfs.Common.Bytes.{codes}
use lamzfs.Error.{Location, inconsistent, not_found}
use lamzfs.Outcome.{ok_or, ◌>>=◌}
use lamzfs.Outcome.Alike.{Alike, Alike->>=, Alike-then}
use lamzfs.Phys.{EndianOrder, Dnode}
use lamzfs.Vendored.{Vendored}
use lamzfs.BlockRead.{PoolMember}
use lamzfs.Vdev.Tree.{Topology}
use lamzfs.File.Alike.{ReadsAlike}
use lamzfs.Walk.{read_object, read_object_dnode, read_objset, zap_entries, zap_lookup}
use lamzfs.Walk.Alike.{
  read_objset-Alike, read_object-Alike, read_object_dnode-Alike, zap_entries-Alike,
  zap_lookup-Alike,
}
use lamzfs.Dataset.{
  Dataset, mos_object_directory, zpl_master_node, dirent_obj, dsl_dir, child_dir, walk_names,
  root_dataset_dir, open_head, open_dataset, child_dataset_names, root_dir_obj, list_dir, dir_entry,
  resolve_from, resolve_path,
}

module _ (v : Vendored) (members members' : List PoolMember) (topo topo' : Topology)
    (alike : ReadsAlike v members topo members' topo') (order : EndianOrder) where
  object_dnode :
      (array : Dnode) (obj : ℕ)
      → Alike
          (read_object_dnode v members topo order array obj)
          (read_object_dnode v members' topo' order array obj)
  object_dnode = read_object_dnode-Alike v members members' topo topo' alike order

  -- A name in the ZAP of an object, which is what every walk looks up.
  found-Alike :
      (array : Dnode) (obj : ℕ) (name : List ℕ) (component : String)
      → Alike
          (read_object_dnode v members topo order array obj >>= λ zap.
            zap_lookup v members topo order zap name >>= λ found. ok_or found (not_found component))
          (read_object_dnode v members' topo' order array obj >>= λ zap.
            zap_lookup v members' topo' order zap name >>= λ found.
            ok_or found (not_found component))
  found-Alike array obj name component =
      Alike->>= (read_object_dnode v members topo order array obj)
        (read_object_dnode v members' topo' order array obj) _ _ (object_dnode array obj)
        λ zap.
          Alike->>= (zap_lookup v members topo order zap name)
            (zap_lookup v members' topo' order zap name) _ _
            (zap_lookup-Alike v members members' topo topo' alike order zap name) λ found. inl refl

  dsl_dir-Alike :
      (mos : Dnode) (obj : ℕ)
      → Alike (dsl_dir v members topo order mos obj) (dsl_dir v members' topo' order mos obj)
  unfolding dsl_dir
  dsl_dir-Alike mos obj =
      Alike->>= (read_object v members topo order mos obj)
        (read_object v members' topo' order mos obj) _ _
        (read_object-Alike v members members' topo topo' alike order mos obj) λ object. inl refl

  child_dir-Alike :
      (mos : Dnode) (obj : ℕ) (name : List ℕ)
      → Alike
          (child_dir v members topo order mos obj name)
          (child_dir v members' topo' order mos obj name)
  unfolding child_dir
  child_dir-Alike mos obj name =
      Alike->>= (dsl_dir v members topo order mos obj) (dsl_dir v members' topo' order mos obj) _ _
        (dsl_dir-Alike mos obj) λ dir. found-Alike mos dir.child_directory_zap_obj name "dataset"

  walk_names-Alike :
      (mos : Dnode) (obj : ℕ) (names : List (List ℕ))
      → Alike
          (walk_names v members topo order mos obj names)
          (walk_names v members' topo' order mos obj names)
  unfolding walk_names
  walk_names-Alike mos obj [] = inl refl
  walk_names-Alike mos obj (name ∷ names) =
      Alike->>= (child_dir v members topo order mos obj name)
        (child_dir v members' topo' order mos obj name) _ _ (child_dir-Alike mos obj name)
        λ next. walk_names-Alike mos next names

  root_dataset_dir-Alike :
      (mos : Dnode)
      → Alike
          (root_dataset_dir v members topo order mos)
          (root_dataset_dir v members' topo' order mos)
  unfolding root_dataset_dir
  root_dataset_dir-Alike mos =
      found-Alike mos mos_object_directory (codes "root_dataset") "root_dataset"

  open_head-Alike :
      (mos : Dnode) (obj : ℕ)
      → Alike (open_head v members topo order mos obj) (open_head v members' topo' order mos obj)
  unfolding open_head
  open_head-Alike mos obj =
      Alike->>= (dsl_dir v members topo order mos obj) (dsl_dir v members' topo' order mos obj) _ _
        (dsl_dir-Alike mos obj)
        λ dir. Alike-then (ok_or dir.head_dataset_obj (not_found "head_dataset")) _ _ λ ds_obj.
          Alike->>= (read_object v members topo order mos ds_obj)
            (read_object v members' topo' order mos ds_obj) _ _
            (read_object-Alike v members members' topo topo' alike order mos ds_obj)
            λ object.
              Alike-then
                (ok_or (v.dsl_data_set_decode order object.bonus)
                  (inconsistent "dsl_dataset" (Location.dsl ds_obj)))
                _ _
                λ ds.
                  Alike-then
                    (ok_or ds.block_pointer (inconsistent "dataset_no_bp" (Location.dsl ds_obj))) _
                    _
                    λ bp.
                      Alike->>= (read_objset v members topo order bp)
                        (read_objset v members' topo' order bp) _ _
                        (read_objset-Alike v members members' topo topo' alike order bp)
                        λ meta. inl refl

  pub open_dataset-Alike :
      (mos : Dnode) (names : List (List ℕ))
      → Alike
          (open_dataset v members topo order mos names)
          (open_dataset v members' topo' order mos names)
  unfolding open_dataset
  open_dataset-Alike mos names =
      Alike->>= (root_dataset_dir v members topo order mos)
        (root_dataset_dir v members' topo' order mos) _ _ (root_dataset_dir-Alike mos)
        λ root.
          Alike->>= (walk_names v members topo order mos root names)
            (walk_names v members' topo' order mos root names) _ _ (walk_names-Alike mos root names)
            λ obj. open_head-Alike mos obj

  pub child_dataset_names-Alike :
      (mos : Dnode) (parent : List (List ℕ))
      → Alike
          (child_dataset_names v members topo order mos parent)
          (child_dataset_names v members' topo' order mos parent)
  unfolding child_dataset_names
  child_dataset_names-Alike mos parent =
      Alike->>= (root_dataset_dir v members topo order mos)
        (root_dataset_dir v members' topo' order mos) _ _ (root_dataset_dir-Alike mos)
        λ root.
          Alike->>= (walk_names v members topo order mos root parent)
            (walk_names v members' topo' order mos root parent) _ _
            (walk_names-Alike mos root parent)
            λ obj.
              Alike->>= (dsl_dir v members topo order mos obj)
                (dsl_dir v members' topo' order mos obj) _ _ (dsl_dir-Alike mos obj)
                λ dir.
                  Alike->>= (read_object_dnode v members topo order mos dir.child_directory_zap_obj)
                    (read_object_dnode v members' topo' order mos dir.child_directory_zap_obj) _ _
                    (object_dnode mos dir.child_directory_zap_obj)
                    λ zap.
                      Alike->>= (zap_entries v members topo order zap)
                        (zap_entries v members' topo' order zap) _ _
                        (zap_entries-Alike v members members' topo topo' alike order zap)
                        λ es. inl refl

  pub root_dir_obj-Alike :
      (ds : Dataset)
      → Alike (root_dir_obj v members topo order ds) (root_dir_obj v members' topo' order ds)
  unfolding root_dir_obj
  root_dir_obj-Alike ds = found-Alike ds.meta_dnode zpl_master_node (codes "ROOT") "ROOT"

  pub list_dir-Alike :
      (ds : Dataset) (obj : ℕ)
      → Alike (list_dir v members topo order ds obj) (list_dir v members' topo' order ds obj)
  unfolding list_dir
  list_dir-Alike ds obj =
      Alike->>= (read_object_dnode v members topo order ds.meta_dnode obj)
        (read_object_dnode v members' topo' order ds.meta_dnode obj) _ _
        (object_dnode ds.meta_dnode obj)
        λ dir. zap_entries-Alike v members members' topo topo' alike order dir

  dir_entry-Alike :
      (ds : Dataset) (obj : ℕ) (comp : List ℕ)
      → Alike
          (dir_entry v members topo order ds obj comp)
          (dir_entry v members' topo' order ds obj comp)
  unfolding dir_entry
  dir_entry-Alike ds obj comp = found-Alike ds.meta_dnode obj comp "path"

  resolve_from-Alike :
      (ds : Dataset) (obj : ℕ) (comps : List (List ℕ))
      → Alike
          (resolve_from v members topo order ds obj comps)
          (resolve_from v members' topo' order ds obj comps)
  unfolding resolve_from
  resolve_from-Alike ds obj [] = inl refl
  resolve_from-Alike ds obj (comp ∷ []) =
      Alike->>= (dir_entry v members topo order ds obj comp)
        (dir_entry v members' topo' order ds obj comp) _ _ (dir_entry-Alike ds obj comp)
        λ value. inl refl
  resolve_from-Alike ds obj (comp ∷ next ∷ rest) =
      Alike->>= (dir_entry v members topo order ds obj comp)
        (dir_entry v members' topo' order ds obj comp) _ _ (dir_entry-Alike ds obj comp)
        λ value. resolve_from-Alike ds (dirent_obj value) (next ∷ rest)

  pub resolve_path-Alike :
      (ds : Dataset) (comps : List (List ℕ))
      → Alike
          (resolve_path v members topo order ds comps)
          (resolve_path v members' topo' order ds comps)
  unfolding resolve_path
  resolve_path-Alike ds comps =
      Alike->>= (root_dir_obj v members topo order ds) (root_dir_obj v members' topo' order ds) _ _
        (root_dir_obj-Alike ds) λ root. resolve_from-Alike ds root comps
