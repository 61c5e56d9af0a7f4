-- ===== src/Examples.antt =====
-- A small pool for the examples: decoders that look at little, and devices of constant bytes.
mod Blocks
mod Degraded
mod Files
mod Listings
mod Pools
mod Imports
mod Leaves
mod Walks
mod Spares
use lamzfs.Common.{
  ℕ, ◌≡◌, arith, zero, suc, ◌+◌, ◌*◌, ◌^◌, Bool, true, false, Option, none, some, List, [], ◌∷◌,
  ◌++◌, length, replicate, take,
}
use lamzfs.Common.Bytes.{codes}
use lamzfs.Phys.{
  EndianOrder, big, little, BlockPointer, regular, BlockPointerRegular, ChecksumType,
  CompressionType, Dva, Dnode, UberBlock, NvList, nil, pair, u64, str, list,
}
use lamzfs.Vendored.{Vendored, Features}
use lamzfs.BlockRead.{PoolMember}
use lamzfs.Vdev.Tree.{Layout, single, mirror, raidz1, Topology}
use lamzfs.Pool.{ImportedPool}
use lamzfs.Walk.Safe.{BonusFits}
use lamzfs.Zfs.{Zfs}

unfoldable pub sum_of : List ℕ → ℕ
sum_of [] = 0
sum_of (b ∷ bs) = b + sum_of bs

-- A checksum of four words.
unfoldable pub toy_words : List ℕ → List ℕ
unfolding sum_of
toy_words bs = length bs ∷ sum_of bs ∷ 0 ∷ 0 ∷ []

abbrev pub dva_0 : Dva
dva_0 = record { allocated = 1; offset = 0; is_gang = false; vdev = 0 }

-- A pointer to `sectors` uncompressed sectors at offset 0.
abbrev pub pointer_to : ChecksumType → List ℕ → ℕ → BlockPointerRegular
pointer_to kind words sectors = record {
  checksum_type = kind;
  checksum_value = words;
  compression = CompressionType.off;
  dvas = some dva_0 ∷ none ∷ [];
  order = little;
  logical_sectors = sectors;
  physical_sectors = sectors;
}

-- 512 sevens, and their pointer.
abbrev pub sevens : List ℕ
sevens = replicate 512 7

abbrev pub sevens_pointer : BlockPointerRegular
sevens_pointer = pointer_to ChecksumType.fletcher4 (512 ∷ 3584 ∷ 0 ∷ 0 ∷ []) 1

abbrev pub constant_device : ℕ → PoolMember
constant_device b = record {
  reader = λ off len. some (replicate len b);
  device_size_bytes = 2 ^ 19;
}

abbrev pub dead_device : PoolMember
dead_device = record { reader = λ off len. none; device_size_bytes = 2 ^ 19 }

abbrev pub one_disk : Topology
one_disk = record { layout = single 0; checksum_salt = none }

abbrev pub two_disks : Topology
two_disks = record { layout = mirror (0 ∷ 1 ∷ []); checksum_salt = none }

-- A block that is read as a micro-ZAP and as a dnode with no extra slots.
abbrev pub zap_block : List ℕ
zap_block = 3 ∷ 0 ∷ 0 ∷ 0 ∷ 0 ∷ 0 ∷ 0 ∷ 128 ∷ replicate 504 0

abbrev pub zap_device : PoolMember
zap_device = record { reader = λ off len. some zap_block; device_size_bytes = 2 ^ 19 }

abbrev pub zap_pointer : BlockPointerRegular
zap_pointer = pointer_to ChecksumType.off (0 ∷ 0 ∷ 0 ∷ 0 ∷ []) 1

-- A bonus with a system attribute header of 8 bytes and a file size of 20.
abbrev pub sa_bonus : List ℕ
sa_bonus = 0x5a ∷ 0x50 ∷ 0x2f ∷ 0 ∷ 0 ∷ 4 ∷ replicate 10 0 ++ 20 ∷ replicate 7 0

-- A dnode of one block; all the blocks behind it are holes.
abbrev pub dnode_of : BlockPointerRegular → ℕ → Dnode
dnode_of r sectors = record {
  bonus_len = 24;
  data_block_size_sectors = sectors;
  indirect_block_shift = 17;
  levels = 1;
  ptrs = some (regular r) ∷ [];
  bonus = sa_bonus;
}

abbrev pub ub_0 : UberBlock
ub_0 = record {
  raidz_reflow_info = 0;
  order = little;
  ptr = regular zap_pointer;
  timestamp = 9;
  txg = 4;
}

-- The label of a pool on one disk, with sectors of 8 KiB.
abbrev pub label_0 : NvList
label_0 = pair (codes "pool_guid") (u64 77) (
    pair (codes "guid") (u64 5) (
      pair (codes "name") (str (codes "tank")) (
        pair (codes "vdev_tree")
          (list (pair (codes "type") (str (codes "disk")) (pair (codes "ashift") (u64 13) nil)))
          nil)))

abbrev pub toy : Vendored
toy = record {
  features = record { lz4 = true; gzip = true; zstd = true; sha512 = true; blake3 = true };
  lzjb_decompress = λ src n. none;
  lz4_decompress_into = λ src n. none;
  zlib_inflate = λ src n. none;
  zstd_decoder = λ src. none;
  sha256_available = true;
  fletcher2_hash = λ bs o. none;
  fletcher4_hash = λ bs o. some (toy_words bs);
  sha256_hash = λ bs o. none;
  sha512_256_digest = λ bs. [];
  blake3_keyed_hash = λ salt bs. [];
  block_pointer_decode = λ o bs. none;
  dnode_decode = λ o bs. some (some (dnode_of zap_pointer 1));
  object_set_decode = λ o bs. some (dnode_of zap_pointer 1);
  dsl_directory_decode =
      λ o bs. some (record { head_dataset_obj = some 3; child_directory_zap_obj = 2 });
  dsl_data_set_decode = λ o bs. some (record { block_pointer = some (regular zap_pointer) });
  zap_micro_decode = λ o bs. some (
      some (codes "root_dataset", 2)
      ∷ some (codes "ROOT", 4)
      ∷ some (codes "f", 8 * 2 ^ 60 + 5)
      ∷ []);
  zap_leaf_entry_decode = λ o bs. none;
  zap_leaf_data_decode = λ o bs. none;
  label_nv_pairs_decode = λ bs sector. some bs;
  nv_list_decode = λ bs. some label_0;
  uber_block_decode = λ bs sector. some (some ub_0);
}

abbrev pub toy_pool : Dnode → Zfs
toy_pool mos = record {
  members = zap_device ∷ [];
  pool = record {
    pool_guid = 77;
    pool_name = codes "tank";
    topology = one_disk;
    uberblock = ub_0;
    mos_dnode = mos;
    order = little;
  };
}

pub toy-BonusFits : BonusFits toy
toy-BonusFits order bs dnode h =
    let same : dnode_of zap_pointer 1 ≡ dnode = cc in rw (← same) (omega arith)
