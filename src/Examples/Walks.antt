-- ===== src/Examples/Walks.antt =====
-- Examples of walks, attributes, guards and inputs.
use lamzfs.Common.{
  ℕ, ◌+◌, ◌/◌, ◌<◌, ap, ◌≡◌, ◌↔◌, ◌⊎◌, refl, some, List, [], ◌∷◌, ◌++◌, arith, All, replicate,
}
use lamzfs.Common.Bytes.{from_le_bytes}
use lamzfs.Outcome.{ok, panic}
use lamzfs.Phys.{big, little, embedded, CompressionType, Dnode, ChecksumType}
use lamzfs.BlockRead.{PoolMember, read_exact, fill}
use lamzfs.Compress.{decompress}
use lamzfs.Compress.Zle.{zle_decode}
use lamzfs.Compress.Zle.Runs.{Run, IsRun, encode, expand}
use lamzfs.Compress.Zle.Inputs.{zle_decode-Encodes}
use lamzfs.Dataset.{sa_file_size}
use lamzfs.Dataset.Sizes.{sa_attributes, sa_file_size-attributes}
use lamzfs.File.{pointer_at, read_dnode_block, read_dnode_range}
use lamzfs.File.Holes.{IsRegularTree, IsHole, read_dnode_range-hole}
use lamzfs.Vdev.{read_block_pointer}
use lamzfs.Vdev.Refusals.{HasSize, IsPlain, Refused, read_block_pointer-refuses}
use lamzfs.Vdev.Tree.{flatten, dva_byte_offset}
use lamzfs.Walk.{ObjectDnode, read_object, zap_entries}
use lamzfs.Walk.Slots.{IsObject, read_object-IsObject}
use lamzfs.Cksum.{verify_block}
use lamzfs.Walk.Panics.{IsShort, zap_entries-panic_iff}
use lamzfs.Examples.{
  toy, pointer_to, sevens_pointer, zap_pointer, zap_device, constant_device, one_disk, dnode_of,
}

abbrev disk : List PoolMember
disk = zap_device ∷ []

sa_file_size-attributes_example :
    sa_file_size big (sa_attributes big 1 2 (0 ∷ 0 ∷ []) (replicate 8 9) 4711 (3 ∷ [])) ≡ ok 4711
sa_file_size-attributes_example =
    sa_file_size-attributes big 1 2 (0 ∷ 0 ∷ []) (replicate 8 9) 4711 (3 ∷ []) (omega arith)
      (omega arith) refl refl (omega arith)

-- A dnode whose first block is embedded and has five bytes.
abbrev short_dnode : Dnode
short_dnode = record {
  bonus_len = 0;
  data_block_size_sectors = 1;
  indirect_block_shift = 17;
  levels = 1;
  ptrs =
      some (
        embedded (record {
          compression = CompressionType.off;
          order = little;
          logical_size = 5;
          physical_size = 5;
          payload = replicate 112 1;
        }))
      ∷ [];
  bonus = [];
}

zap_entries-panic_iff_example :
    (zap_entries toy disk one_disk little short_dnode ≡ panic)
    ↔ ((0 < 1) × IsShort toy disk one_disk little short_dnode)
zap_entries-panic_iff_example = zap_entries-panic_iff toy disk one_disk little short_dnode

short_panics : zap_entries toy disk one_disk little short_dnode ≡ panic
unfolding zap_entries read_dnode_block read_block_pointer decompress
short_panics = refl

abbrev zle_input : List ℕ
zle_input = 2 ∷ 8 ∷ 9 ∷ 7 ∷ 65 ∷ 77 ∷ []

zle_input_decodes : zle_decode zle_input 5 ≡ ok (8 ∷ 9 ∷ 7 ∷ 0 ∷ 0 ∷ [])
unfolding zle_decode
zle_input_decodes = refl

zle_decode-Encodes_example :
    (runs : List Run) × (junk : List ℕ) × All IsRun runs
    × (zle_input ≡ encode runs ++ junk)
    × ((8 ∷ 9 ∷ 7 ∷ 0 ∷ 0 ∷ []) ≡ expand runs)
zle_decode-Encodes_example =
    zle_decode-Encodes zle_input 5 (8 ∷ 9 ∷ 7 ∷ 0 ∷ 0 ∷ []) (omega arith) zle_input_decodes

read_block_pointer-refuses_example :
    (HasSize sevens_pointer × All IsPlain (flatten sevens_pointer.dvas))
    ⊎ Refused toy (constant_device 9 ∷ []) one_disk sevens_pointer
read_block_pointer-refuses_example =
    read_block_pointer-refuses toy (constant_device 9 ∷ []) one_disk sevens_pointer

regular_tree : IsRegularTree (dnode_of sevens_pointer 1)
regular_tree = record {
  some_level = omega arith;
  few_levels = omega arith;
  top_shift = omega arith;
  entry_shift = omega arith;
}

second_block-IsHole : IsHole (dnode_of sevens_pointer 1) 512 (512 + 3)
second_block-IsHole pos low high =
    let second : pos / 512 / 1 ≡ 1 = omega arith in
    ap (pointer_at (dnode_of sevens_pointer 1).ptrs) second

read_dnode_range-hole_example :
    read_dnode_range toy (constant_device 7 ∷ []) one_disk little (dnode_of sevens_pointer 1) 512 3
    ≡ ok (0 ∷ 0 ∷ 0 ∷ [])
read_dnode_range-hole_example =
    read_dnode_range-hole toy (constant_device 7 ∷ []) one_disk little (dnode_of sevens_pointer 1)
      512 3 regular_tree (omega arith) (omega arith) second_block-IsHole

-- Slots of ones: the first names one more slot, one block pointer and 257 bytes of bonus.
abbrev wide_array : Dnode
wide_array = dnode_of (pointer_to ChecksumType.off (0 ∷ 0 ∷ 0 ∷ 0 ∷ []) 2) 2

abbrev wide_object : ObjectDnode
wide_object = record { dnode = dnode_of zap_pointer 1; bonus = replicate 257 1 }

reads_wide : read_object toy (constant_device 1 ∷ []) one_disk little wide_array 0 ≡ ok wide_object
unfolding read_object read_dnode_range read_dnode_block read_block_pointer dva_byte_offset
    read_exact fill verify_block decompress from_le_bytes
reads_wide = refl

read_object-IsObject_example :
    IsObject toy (constant_device 1 ∷ []) one_disk little wide_array 0 wide_object
read_object-IsObject_example =
    read_object-IsObject toy (constant_device 1 ∷ []) one_disk little wide_array 0 wide_object
      (omega arith) reads_wide
