-- ===== src/Zfs/Spares.antt =====
-- The public operations of src/lib.rs on a mirror with children that fail.
use mathlib.Core.Path.{subst}
use lamzfs.Common.{ℕ, ◌≡◌, sym, List, [], ◌∷◌, InList, All}
use lamzfs.Outcome.Alike.{Alike}
use lamzfs.Vendored.{Vendored}
use lamzfs.BlockRead.{PoolMember}
use lamzfs.Vdev.Tree.{Layout, single, mirror, Topology}
use lamzfs.Vdev.Spares.{mirror-Alike}
use lamzfs.Vdev.Spares.Children.{FailsOrGives, IsWhole}
use lamzfs.File.Alike.{ReadsAlike}
use lamzfs.Zfs.{Zfs, child_datasets, datasets, read_dir, stat, exists, read, read_at}
use lamzfs.Zfs.Alike.{
  over, child_datasets-Alike, datasets-same, read_dir-Alike, stat-Alike, exists-Alike, read-Alike,
  read_at-Alike,
}

-- The topology of one disk, with the salt of another.
abbrev disk_alone : Topology → Topology
disk_alone topo = record { layout = single 0; checksum_salt = topo.checksum_salt }

-- The same pool on one disk.
abbrev pub on_disk : Zfs → PoolMember → Zfs
on_disk z disk = over z (disk ∷ []) (disk_alone z.pool.topology)

module _ (v : Vendored) (z : Zfs) (disk : PoolMember) (children : List ℕ) (child : ℕ) where
  reads-Alike :
      z.pool.topology.layout ≡ mirror children
      → All (FailsOrGives z.members disk) children
      → InList child children
      → IsWhole z.members disk child
      → ReadsAlike v z.members z.pool.topology (disk ∷ []) (disk_alone z.pool.topology)
  reads-Alike e f i w =
      subst
        (λ (l : Layout).
          ReadsAlike v z.members
            (record { layout = l; checksum_salt = z.pool.topology.checksum_salt }) (disk ∷ [])
            (disk_alone z.pool.topology))
        (sym e) (mirror-Alike v z.members disk children child z.pool.topology.checksum_salt f i w)

  -- On a mirror whose children may fail any of their reads, of which one fails no read that a disk
  -- with the same bytes does not, each public operation answers as on that disk alone: `datasets`
  -- the same, the others the same or both with an error other than that a name is missing.
  pub operations-Alike :
      (dataset_path path : List (List ℕ)) (offset len : ℕ)
      → z.pool.topology.layout ≡ mirror children
      → All (FailsOrGives z.members disk) children
      → InList child children
      → IsWhole z.members disk child
      → (datasets v z ≡ datasets v (on_disk z disk))
        × Alike (child_datasets v z dataset_path) (child_datasets v (on_disk z disk) dataset_path)
        × Alike (read_dir v z dataset_path path) (read_dir v (on_disk z disk) dataset_path path)
        × Alike (stat v z dataset_path path) (stat v (on_disk z disk) dataset_path path)
        × Alike (exists v z dataset_path path) (exists v (on_disk z disk) dataset_path path)
        × Alike (read v z dataset_path path) (read v (on_disk z disk) dataset_path path)
        × Alike
            (read_at v z dataset_path path offset len)
            (read_at v (on_disk z disk) dataset_path path offset len)
  operations-Alike dataset_path path offset len e f i w =
      let topo = disk_alone z.pool.topology in
      let alike = reads-Alike e f i w in
      (
        datasets-same v z (disk ∷ []) topo alike,
        child_datasets-Alike v z (disk ∷ []) topo alike dataset_path,
        read_dir-Alike v z (disk ∷ []) topo alike dataset_path path,
        stat-Alike v z (disk ∷ []) topo alike dataset_path path,
        exists-Alike v z (disk ∷ []) topo alike dataset_path path,
        read-Alike v z (disk ∷ []) topo alike dataset_path path,
        read_at-Alike v z (disk ∷ []) topo alike dataset_path path offset len,
      )
