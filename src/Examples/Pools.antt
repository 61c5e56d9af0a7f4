-- ===== src/Examples/Pools.antt =====
-- Examples of labels, features and imports.
use lamzfs.Common.{some, ◌≡◌, ◌↔◌, ◌⊎◌, refl, none, [], ◌∷◌, InList, All, bytes_eq, get_elem?}
use lamzfs.Common.Bytes.{codes, from_le_bytes}
use lamzfs.Error.{io, no_valid_uberblock}
use lamzfs.Outcome.{ok, err, IfOk}
use lamzfs.Phys.{
  UberBlock, NvList, nil, pair, u64, str, list_array, child, end, is_newer_than, little,
  ChecksumType,
}
use lamzfs.BlockRead.{read_exact, fill, PoolMember}
use lamzfs.Cksum.{verify_block}
use lamzfs.Cksum.Sound.{Accepts, verify_block_iff}
use lamzfs.Compress.{decompress}
use lamzfs.File.{read_dnode_block, read_dnode_range}
use lamzfs.Vdev.{read_block_pointer}
use lamzfs.Vdev.Tree.{mirror, dva_byte_offset}
use lamzfs.Pool.{member_config, ImportedPool, import}
use lamzfs.Pool.Build.{build_topology, read_nvpairs, find_member_by_guid}
use lamzfs.Pool.Nv.{nv_u64, nv_str, nv_nvlist}
use lamzfs.Pool.Labelled.{Named}
use lamzfs.Pool.Supported.{MosUnderstood, unsalted, import-Understood}
use lamzfs.Pool.Members.{IsOther, find_member_by_guid_iff, find_member_by_guid-unreadable}
use lamzfs.Pool.Features.Gate.{Understood}
use lamzfs.Pool.Placed.{IsMember, Placed}
use lamzfs.Pool.Guards.{build_topology-Placed}
use lamzfs.Pool.Import.{IsImported, import-IsImported}
use lamzfs.Pool.Labels.{select_uberblock}
use lamzfs.Pool.Labels.Active.{valid_uberblocks, NoNewer, select_uberblock_newest}
use lamzfs.Examples.{
  toy, toy_pool, zap_device, dead_device, zap_pointer, one_disk, dnode_of, sevens,
}

select_uberblock_newest_example :
    ((ub : UberBlock) × (select_uberblock toy (zap_device ∷ []) one_disk 13 ≡ ok ub)
      × InList ub (valid_uberblocks toy (zap_device ∷ []) one_disk 13)
      × ((other : UberBlock)
          → InList other (valid_uberblocks toy (zap_device ∷ []) one_disk 13)
          → NoNewer other ub))
    ⊎ ((select_uberblock toy (zap_device ∷ []) one_disk 13 ≡ err no_valid_uberblock)
        × (valid_uberblocks toy (zap_device ∷ []) one_disk 13 ≡ []))
select_uberblock_newest_example = select_uberblock_newest toy (zap_device ∷ []) one_disk 13

finds_5 : find_member_by_guid toy (zap_device ∷ []) 5 ≡ ok 0
unfolding find_member_by_guid read_exact bytes_eq
finds_5 = refl

find_member_by_guid_iff_example :
    (find_member_by_guid toy (zap_device ∷ []) 5 ≡ ok 0)
    ↔ (IsMember toy (zap_device ∷ []) 5 0 × All (IsOther toy 5) [])
find_member_by_guid_iff_example = find_member_by_guid_iff toy 5 (zap_device ∷ []) 0

dead_label : read_nvpairs toy dead_device ≡ err (io "io_nvpairs" 0 16384)
unfolding read_nvpairs read_exact
dead_label = refl

-- The second member carries the guid.
find_member_by_guid-unreadable_example :
    find_member_by_guid toy (dead_device ∷ zap_device ∷ []) 5 ≡ err (io "io_nvpairs" 0 16384)
find_member_by_guid-unreadable_example =
    find_member_by_guid-unreadable toy 5 [] (zap_device ∷ []) dead_device (io "io_nvpairs" 0 16384)
      tt dead_label

-- A mirror with one child.
abbrev mirror_tree : NvList
mirror_tree =
    pair (codes "type") (str (codes "mirror"))
      (pair (codes "children") (list_array (child (pair (codes "guid") (u64 5) nil) end)) nil)

builds_mirror : build_topology toy mirror_tree (zap_device ∷ []) ≡ ok (mirror (0 ∷ []))
unfolding build_topology read_exact bytes_eq
builds_mirror = refl

build_topology-Placed_example : Placed toy mirror_tree (zap_device ∷ []) (mirror (0 ∷ []))
build_topology-Placed_example =
    build_topology-Placed toy mirror_tree (zap_device ∷ []) (mirror (0 ∷ [])) builds_mirror

verify_block_iff_example :
    (verify_block toy ChecksumType.fletcher4 little sevens (512 ∷ 3584 ∷ 0 ∷ 0 ∷ []) none 0 8
      ≡ ok tt)
    ↔ Accepts toy ChecksumType.fletcher4 little sevens (512 ∷ 3584 ∷ 0 ∷ 0 ∷ []) none
verify_block_iff_example =
    verify_block_iff toy ChecksumType.fletcher4 little sevens (512 ∷ 3584 ∷ 0 ∷ 0 ∷ []) none 0 8

abbrev imported : ImportedPool
imported = (toy_pool (dnode_of zap_pointer 1)).pool

imports : import toy (zap_device ∷ []) ≡ ok imported
unfolding import read_dnode_range read_dnode_block read_block_pointer dva_byte_offset read_exact
    fill verify_block bytes_eq decompress from_le_bytes is_newer_than
imports = refl

import-IsImported_example : IsImported toy (zap_device ∷ []) imported
import-IsImported_example = import-IsImported toy (zap_device ∷ []) imported imports

import-Understood_example :
    (first : PoolMember) × (config : NvList) × (get_elem? (zap_device ∷ []) 0 ≡ some first)
    × (member_config toy first ≡ ok config)
    × (nv_u64 config "pool_guid" ≡ ok 77)
    × (nv_str config "name" ≡ ok (codes "tank"))
    × IfOk (Named Understood) (nv_nvlist config "features_for_read")
    × IfOk (λ count. count ≡ 1) (nv_u64 config "vdev_children")
    × MosUnderstood toy (zap_device ∷ []) (unsalted imported) little (dnode_of zap_pointer 1)
import-Understood_example = import-Understood toy (zap_device ∷ []) imported imports
