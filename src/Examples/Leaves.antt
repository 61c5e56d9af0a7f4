-- ===== src/Examples/Leaves.antt =====
-- An example of the leaves of a fat ZAP.
use lamzfs.Common.{ℕ, none, ◌≡◌, ◌↔◌, refl, some, List, [], ◌∷◌, ◌++◌, InList, replicate}
use lamzfs.Common.Bytes.{codes, from_le_bytes, utf8_lossy}
use lamzfs.Outcome.{ok}
use lamzfs.Phys.{Dnode, little, regular}
use lamzfs.BlockRead.{PoolMember, read_exact, fill}
use lamzfs.Cksum.{verify_block}
use lamzfs.Compress.{decompress}
use lamzfs.File.{read_dnode_block}
use lamzfs.Vdev.{read_block_pointer}
use lamzfs.Vdev.Tree.{dva_byte_offset}
use lamzfs.Vendored.{Vendored}
use lamzfs.Walk.{fat_entries_raw, max_zap_leaf_blocks}
use lamzfs.Walk.Entries.{EntryBefore, first_chunk, chunk_count, fat_entries_raw-InList}
use lamzfs.Examples.{toy, one_disk, dnode_of, zap_pointer}

-- A leaf of 512 bytes, whose second chunk is an entry chunk.
abbrev leaf : List ℕ
leaf = replicate 7 0 ++ 128 ∷ (replicate 96 0 ++ 252 ∷ replicate 407 0)

abbrev leaf_device : PoolMember
leaf_device = record { reader = λ off len. some leaf; device_size_bytes = 524288 }

-- Decoders that find a name in chunk 3 and a value of eight bytes in chunk 4.
abbrev leaf_toy : Vendored
leaf_toy = record toy {
  zap_leaf_entry_decode = λ o bs. some (record {
    name_chunk = 3;
    name_length = 2;
    value_chunk = 4;
    value_int_size = 8;
    value_length = 1;
  });
  zap_leaf_data_decode = λ o bs. some (record { bytes = codes "f" ++ replicate 20 0; next = none });
}

-- Its block 2 is a hole.
abbrev fat_zap : Dnode
fat_zap = record (dnode_of zap_pointer 1) {
  ptrs = some (regular zap_pointer) ∷ some (regular zap_pointer) ∷ [];
}

abbrev fat_entries_0 : List (List ℕ × List ℕ)
fat_entries_0 = (codes "f", codes "f" ++ replicate 7 0) ∷ []

reads_leaf :
    fat_entries_raw leaf_toy (leaf_device ∷ []) one_disk little fat_zap 512 ≡ ok fat_entries_0
unfolding fat_entries_raw read_dnode_block read_block_pointer dva_byte_offset read_exact fill
    verify_block decompress from_le_bytes utf8_lossy
reads_leaf = refl

fat_entries_raw-InList_example :
    InList (codes "f", codes "f" ++ replicate 7 0) fat_entries_0
    ↔ EntryBefore leaf_toy
        (leaf_device ∷ [])
        one_disk
        little
        (first_chunk 512)
        (chunk_count 512)
        fat_zap
        1
        max_zap_leaf_blocks
        (codes "f", codes "f" ++ replicate 7 0)
fat_entries_raw-InList_example =
    fat_entries_raw-InList leaf_toy (leaf_device ∷ []) one_disk little fat_zap 512 fat_entries_0
      reads_leaf (codes "f", codes "f" ++ replicate 7 0)
