-- ===== src/Examples/Files.antt =====
-- Examples of reads of objects, files and listings.
use native.Mathlib.Nat.{div-eq_of_lt, mod-eq_of_lt}
use mathlib.Core.Option
use lamzfs.Common.{
  ℕ, ◌+◌, ◌*◌, ◌%◌, ◌^◌, ◌≤◌, ◌<◌, ◌≡◌, ◌≢◌, refl, ap, ◌∙◌, Option, some, List, [], ◌∷◌, arith,
  length, get_elem?, get_elem?-replicate, take, drop, bytes_eq,
}
use lamzfs.Common.Bytes.{codes, from_le_bytes}
use lamzfs.Outcome.{ok, panic, ◌>>=◌, IfOk}
use lamzfs.Phys.{little, Dnode}
use lamzfs.BlockRead.{PoolMember, read_exact, fill}
use lamzfs.Cksum.{verify_block}
use lamzfs.Compress.{decompress}
use lamzfs.Vdev.{read_block_pointer}
use lamzfs.Vdev.Tree.{dva_byte_offset}
use lamzfs.File.{descend, read_dnode_block, read_dnode_range}
use lamzfs.File.Range.{logical_byte, byte_of, read_dnode_range-bytes}
use lamzfs.File.Total.{HasBytes, read_dnode_range-total, read_dnode_range-slice}
use lamzfs.File.Safe.{read_dnode_range-ne-panic}
use lamzfs.Walk.{zap_lookup, zap_lookup_bytes, value_as_u64}
use lamzfs.Walk.Lookup.{MicroWords, zap_lookup-zap_lookup_bytes}
use lamzfs.Walk.Leaf.{collect_chunks}
use lamzfs.Walk.Leaf.Safe.{collect_chunks_lem}
use lamzfs.File.Tree.{below, descend-below}
use lamzfs.Zfs.{read, read_at}
use lamzfs.Zfs.Reads.{read_at-read}
use lamzfs.Examples.{
  toy, toy_words, sevens, sevens_pointer, zap_pointer, zap_block, zap_device, constant_device,
  one_disk, dnode_of, toy_pool,
}

abbrev sevens_dnode : Dnode
sevens_dnode = dnode_of sevens_pointer 1

abbrev sevens_members : List PoolMember
sevens_members = constant_device 7 ∷ []

-- The last bytes of a block, and the hole behind it.
abbrev over_the_edge : List ℕ
over_the_edge = 7 ∷ 7 ∷ 7 ∷ 0 ∷ 0 ∷ []

reads_over_the_edge :
    read_dnode_range toy sevens_members one_disk little sevens_dnode 509 5 ≡ ok over_the_edge
unfolding read_dnode_range read_dnode_block dva_byte_offset read_exact fill verify_block toy_words
    bytes_eq decompress read_block_pointer
reads_over_the_edge = refl

read_dnode_range-bytes_example :
    (length over_the_edge ≡ 5)
    × ((k : ℕ)
        → k < 5
        → get_elem? over_the_edge k
          ≡ logical_byte toy sevens_members one_disk little sevens_dnode 512 (509 + k))
read_dnode_range-bytes_example =
    read_dnode_range-bytes toy sevens_members one_disk little sevens_dnode 509 5 over_the_edge
      reads_over_the_edge

read_dnode_range-slice_example :
    read_dnode_range toy sevens_members one_disk little sevens_dnode 511 2
    ≡ ok (take 2 (drop 2 over_the_edge))
read_dnode_range-slice_example =
    read_dnode_range-slice toy sevens_members one_disk little sevens_dnode 509 5 2 2 over_the_edge
      (omega arith) (omega arith) reads_over_the_edge

block_0 : read_dnode_block toy sevens_members one_disk little sevens_dnode 0 ≡ ok (some sevens)
unfolding read_dnode_block dva_byte_offset read_exact fill verify_block toy_words bytes_eq
    decompress read_block_pointer
block_0 = refl

first_bytes : HasBytes toy sevens_members one_disk little sevens_dnode 512 0 20
first_bytes pos low high =
    let small : pos < 512 = omega arith in
    (
      7,
      ap
            (λ q.
              byte_of (read_dnode_block toy sevens_members one_disk little sevens_dnode q)
                (pos % 512))
            (div-eq_of_lt small)
          ∙ ap (byte_of (read_dnode_block toy sevens_members one_disk little sevens_dnode 0))
              (mod-eq_of_lt small)
          ∙ ap (λ o. byte_of o pos) block_0
          ∙ get_elem?-replicate 512 pos 7 small,
    )

read_dnode_range-total_example :
    (bs : List ℕ) × (read_dnode_range toy sevens_members one_disk little sevens_dnode 0 20 ≡ ok bs)
read_dnode_range-total_example =
    read_dnode_range-total toy sevens_members one_disk little sevens_dnode 0 20 (omega arith)
      (omega arith) first_bytes

read_dnode_range-ne-panic_example :
    read_dnode_range toy sevens_members one_disk little sevens_dnode 1000 700 ≢ panic
read_dnode_range-ne-panic_example =
    read_dnode_range-ne-panic toy sevens_members one_disk little sevens_dnode 1000 700

reads_f : read toy (toy_pool (dnode_of zap_pointer 1)) [] (codes "f" ∷ []) ≡ ok (take 20 zap_block)
unfolding read read_dnode_range read_dnode_block read_block_pointer dva_byte_offset read_exact fill
    verify_block bytes_eq decompress from_le_bytes
reads_f = refl

read_at-read_example :
    read_at toy (toy_pool (dnode_of zap_pointer 1)) [] (codes "f" ∷ []) 7 100
    ≡ ok (take 100 (drop 7 (take 20 zap_block)))
read_at-read_example =
    read_at-read toy (toy_pool (dnode_of zap_pointer 1)) [] (codes "f" ∷ []) 7 100
      (take 20 zap_block) reads_f

toy-MicroWords : MicroWords toy
toy-MicroWords order block items h =
    let same : ◌≡◌ {A = List (Option (List ℕ × ℕ))}
        (some (codes "root_dataset", 2)
          ∷ some (codes "ROOT", 4)
          ∷ some (codes "f", 8 * 2 ^ 60 + 5)
          ∷ [])
        items =
      cc in
    rw (← same) (omega arith, (omega arith, (omega arith, tt)))

zap_lookup-zap_lookup_bytes_example :
    zap_lookup toy (zap_device ∷ []) one_disk little (dnode_of zap_pointer 1) (codes "ROOT") ≡ (
      zap_lookup_bytes toy (zap_device ∷ []) one_disk little (dnode_of zap_pointer 1) (codes "ROOT")
      >>= λ value. ok (Option.map value_as_u64 value))
zap_lookup-zap_lookup_bytes_example =
    zap_lookup-zap_lookup_bytes toy (zap_device ∷ []) one_disk little (dnode_of zap_pointer 1)
      (codes "ROOT") toy-MicroWords (omega arith)

collect_chunks_lem_example :
    (collect_chunks toy little zap_block 48 10 3 30 ≢ panic)
    × IfOk (λ bs. length bs ≤ 30) (collect_chunks toy little zap_block 48 10 3 30)
collect_chunks_lem_example = collect_chunks_lem toy little zap_block 48 10 3 30

descend-below_example :
    descend toy sevens_members one_disk little 10 1500 2 sevens
    ≡ below toy sevens_members one_disk little 10 2 (1500 % 2 ^ (10 * 2)) sevens
descend-below_example = descend-below toy sevens_members one_disk little 10 1500 2 sevens
