-- ===== src/Examples/Spares.antt =====
-- An example of a mirror with a dead child.
use lamzfs.Common.{◌≡◌, refl, inl, inr, List, [], ◌∷◌}
use lamzfs.Common.Bytes.{codes}
use lamzfs.Outcome.Alike.{Alike}
use lamzfs.BlockRead.{PoolMember}
use lamzfs.Vdev.Spares.Children.{FailsOrGives}
use lamzfs.Zfs.{Zfs, child_datasets, datasets, read_dir, stat, exists, read, read_at}
use lamzfs.Zfs.Alike.{over}
use lamzfs.Zfs.Spares.{on_disk, operations-Alike}
use lamzfs.Examples.{toy, toy_pool, zap_pointer, zap_device, dead_device, dnode_of, two_disks}

abbrev half : List PoolMember
half = dead_device ∷ zap_device ∷ []

abbrev half_pool : Zfs
half_pool = over (toy_pool (dnode_of zap_pointer 1)) half two_disks

first_fails : FailsOrGives half zap_device 0
first_fails member at off len = let same : dead_device ≡ member = cc in rw (← same) (inl refl)

second_gives : FailsOrGives half zap_device 1
second_gives member at off len = let same : zap_device ≡ member = cc in rw (← same) (inr refl)

operations-Alike_example :
    (datasets toy half_pool ≡ datasets toy (on_disk half_pool zap_device))
    × Alike (child_datasets toy half_pool []) (child_datasets toy (on_disk half_pool zap_device) [])
    × Alike
        (read_dir toy half_pool [] (codes "f" ∷ []))
        (read_dir toy (on_disk half_pool zap_device) [] (codes "f" ∷ []))
    × Alike
        (stat toy half_pool [] (codes "f" ∷ []))
        (stat toy (on_disk half_pool zap_device) [] (codes "f" ∷ []))
    × Alike
        (exists toy half_pool [] (codes "f" ∷ []))
        (exists toy (on_disk half_pool zap_device) [] (codes "f" ∷ []))
    × Alike
        (read toy half_pool [] (codes "f" ∷ []))
        (read toy (on_disk half_pool zap_device) [] (codes "f" ∷ []))
    × Alike
        (read_at toy half_pool [] (codes "f" ∷ []) 3 9)
        (read_at toy (on_disk half_pool zap_device) [] (codes "f" ∷ []) 3 9)
operations-Alike_example =
    operations-Alike toy half_pool zap_device (0 ∷ 1 ∷ []) 1 [] (codes "f" ∷ []) 3 9 refl
      (first_fails, (second_gives, tt)) (inr (inl refl)) (zap_device, refl, λ off len. refl)
