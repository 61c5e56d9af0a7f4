-- ===== src/Examples/Listings.antt =====
-- Examples of the public operations on a pool whose datasets and directories have three names each.
use mathlib.Core.Path.{subst}
use lamzfs.Common.{
  ℕ, ◌≤◌, ◌≡◌, ◌≢◌, ◌⊎◌, refl, ap, sym, ◌∙◌, Option, some, List, [], ◌∷◌, arith, InList, All,
  length, bytes_eq, ◌+◌, ◌*◌, ◌^◌, ◌++◌, take, drop, map, inl, inr,
}
use lamzfs.Common.Bytes.{codes, from_le_bytes}
use lamzfs.Phys.{Dnode}
use lamzfs.Outcome.{Outcome, ok, panic, IfOk, IfOk-intro, ok-injective}
use lamzfs.BlockRead.{read_exact, fill}
use lamzfs.Cksum.{verify_block}
use lamzfs.Compress.{decompress}
use lamzfs.File.{read_dnode_block, read_dnode_range}
use lamzfs.Vdev.{read_block_pointer}
use lamzfs.Vdev.Tree.{dva_byte_offset}
use lamzfs.Walk.Decoded.{read_object_dnode-IsDecoded}
use lamzfs.Dataset.Safe.{TypedIn}
use lamzfs.Zfs.{
  Zfs, DirEntry, regular, other, max_datasets, child_datasets, datasets, read_dir, stat, exists,
  read, read_at,
}
use lamzfs.Zfs.Datasets.{datasets-Reachable}
use lamzfs.Zfs.Datasets.Rounds.{Reachable}
use lamzfs.Zfs.Located.{Located, datasets-Located}
use lamzfs.Zfs.Listing.{NameListed, HasKind, read_dir-exists}
use lamzfs.Zfs.Safe.{child_datasets-ne-panic, operations-ne-panic}
use lamzfs.Walk.{zap_entries}
use lamzfs.Dataset.{visible}
use lamzfs.Dataset.Paths.{child_dataset_names-entries}
use lamzfs.Zfs.Datasets.Fresh.{Distinct}
use lamzfs.Zfs.Datasets.Distinct.{datasets-Distinct}
use lamzfs.Zfs.Stream.{read_at-append}
use lamzfs.Zfs.Stats.{Agrees, read-stat}
use lamzfs.Examples.{toy-BonusFits, toy, toy_pool, zap_pointer, zap_block, dnode_of}

abbrev pub pool : Zfs
pool = toy_pool (dnode_of zap_pointer 1)

-- Every object has the one block of the device for its first.
first_block :
    read_dnode_block toy pool.members pool.pool.topology pool.pool.order (dnode_of zap_pointer 1) 0
    ≡ ok (some zap_block)
unfolding read_dnode_block dva_byte_offset read_exact fill verify_block bytes_eq decompress
    read_block_pointer
first_block = refl

pub pool-Typed : (array : Dnode) → TypedIn toy pool.members pool.pool.topology pool.pool.order array
pool-Typed array obj dnode h block e =
    let (slot, d) =
      read_object_dnode-IsDecoded toy pool.members pool.pool.topology pool.pool.order array obj
        dnode h in
    let same : dnode_of zap_pointer 1 ≡ dnode = cc in
    let at : ◌≡◌ {A = Outcome (Option (List ℕ))} (ok (some zap_block)) (ok (some block)) =
      sym first_block
      ∙ ap (λ x. read_dnode_block toy pool.members pool.pool.topology pool.pool.order x 0) same
      ∙ e in
    let equal : some zap_block ≡ some block = ok-injective at in
    let bytes : zap_block ≡ block = cc in
    let long : length zap_block ≡ length block = ap length bytes in omega (arith, long)

no_panic : (p : List (List ℕ)) → child_datasets toy pool p ≢ panic
no_panic = child_datasets-ne-panic toy pool toy-BonusFits (pool-Typed _)

datasets-Reachable_example :
    (out : List (List (List ℕ))) × (datasets toy pool ≡ ok out)
    × (length out ≤ max_datasets)
    × ((p : List (List ℕ)) → InList p out → Reachable (child_datasets toy pool) p)
    × ((max_datasets ≤ length out)
        ⊎ ((p : List (List ℕ)) → Reachable (child_datasets toy pool) p → InList p out))
datasets-Reachable_example = datasets-Reachable toy pool no_panic

datasets-Located_example :
    (out : List (List (List ℕ))) × (datasets toy pool ≡ ok out)
    × All (λ (p : List (List ℕ)). (p ≡ []) ⊎ Located toy pool p) out
datasets-Located_example = datasets-Located toy pool no_panic

operations-ne-panic_example :
    (child_datasets toy pool (codes "ROOT" ∷ []) ≢ panic)
    × (datasets toy pool ≢ panic)
    × (read_dir toy pool (codes "ROOT" ∷ []) (codes "f" ∷ []) ≢ panic)
    × (stat toy pool (codes "ROOT" ∷ []) (codes "f" ∷ []) ≢ panic)
    × (exists toy pool (codes "ROOT" ∷ []) (codes "f" ∷ []) ≢ panic)
    × (read toy pool (codes "ROOT" ∷ []) (codes "f" ∷ []) ≢ panic)
    × (read_at toy pool (codes "ROOT" ∷ []) (codes "f" ∷ []) 3 9 ≢ panic)
operations-ne-panic_example =
    operations-ne-panic toy pool toy-BonusFits (pool-Typed pool.pool.mos_dnode) (codes "ROOT" ∷ [])
      (codes "f" ∷ []) 3 9 λ ds opened. pool-Typed ds.meta_dnode

abbrev root_entries : List DirEntry
root_entries =
    record { name = codes "root_dataset"; kind = other; object_id = 2 }
    ∷ record { name = codes "ROOT"; kind = other; object_id = 4 }
    ∷ record { name = codes "f"; kind = regular; object_id = 5 }
    ∷ []

lists_root : read_dir toy pool [] [] ≡ ok root_entries
unfolding read_dir read_dnode_range read_dnode_block read_block_pointer dva_byte_offset read_exact
    fill verify_block bytes_eq decompress from_le_bytes
lists_root = refl

read_dir-exists_example :
    NameListed toy pool [] [] root_entries (codes "g")
    × IfOk (HasKind root_entries (codes "g")) (stat toy pool [] (codes "g" ∷ []))
read_dir-exists_example = read_dir-exists toy pool [] [] root_entries (codes "g") lists_root

read-stat_example : Agrees (stat toy pool [] (codes "f" ∷ [])) (read toy pool [] (codes "f" ∷ []))
read-stat_example = read-stat toy pool (codes "f") [] []

abbrev three_names : List (List ℕ)
three_names = codes "root_dataset" ∷ codes "ROOT" ∷ codes "f" ∷ []

abbrev three_entries : List (List ℕ × ℕ)
three_entries = (codes "root_dataset", 2) ∷ (codes "ROOT", 4) ∷ (codes "f", 8 * 2 ^ 60 + 5) ∷ []

the_entries :
    zap_entries toy pool.members pool.pool.topology pool.pool.order (dnode_of zap_pointer 1)
    ≡ ok three_entries
unfolding zap_entries read_dnode_block dva_byte_offset read_exact fill verify_block bytes_eq
    decompress read_block_pointer from_le_bytes
the_entries = refl

the_names : visible (map (λ (e : List ℕ × ℕ). e.0) three_entries) ≡ three_names
unfolding visible
the_names = refl

three_names-Distinct : Distinct three_names
three_names-Distinct = (λ i. three i, (λ i. two i, (λ i. i, tt)))
  where
    three : InList (codes "root_dataset") (codes "ROOT" ∷ codes "f" ∷ []) → ⊥
    three (inl e) = cc
    three (inr (inl e)) = cc
    three (inr (inr i)) = i

    two : InList (codes "ROOT") (codes "f" ∷ []) → ⊥
    two (inl e) = cc
    two (inr i) = i

names_once : (p : List (List ℕ)) → IfOk Distinct (child_datasets toy pool p)
unfolding child_datasets
names_once p = IfOk-intro Distinct (child_datasets toy pool p) (λ names h.
    let (obj, zap, es, e, e', same) =
      child_dataset_names-entries toy pool.members pool.pool.topology pool.pool.order
        pool.pool.mos_dnode p names h in
    let (slot, d) =
      read_object_dnode-IsDecoded toy pool.members pool.pool.topology pool.pool.order
        pool.pool.mos_dnode obj zap e in
    let one : dnode_of zap_pointer 1 ≡ zap = cc in
    let entries : three_entries ≡ es = ok-injective (
      sym the_entries
      ∙ ap (zap_entries toy pool.members pool.pool.topology pool.pool.order) one
      ∙ e') in
    let listed : three_names ≡ names =
      sym the_names ∙ ap (λ t. visible (map (λ (x : List ℕ × ℕ). x.0) t)) entries ∙ sym same in
    subst Distinct listed three_names-Distinct)

datasets-Distinct_example : IfOk Distinct (datasets toy pool)
datasets-Distinct_example = datasets-Distinct toy pool names_once

first_seven : read_at toy pool [] (codes "f" ∷ []) 0 7 ≡ ok (take 7 zap_block)
unfolding read_at read_dnode_range read_dnode_block read_block_pointer dva_byte_offset read_exact
    fill verify_block bytes_eq decompress from_le_bytes
first_seven = refl

to_the_end : read_at toy pool [] (codes "f" ∷ []) (0 + 7) 100 ≡ ok (drop 7 (take 20 zap_block))
unfolding read_at read_dnode_range read_dnode_block read_block_pointer dva_byte_offset read_exact
    fill verify_block bytes_eq decompress from_le_bytes
to_the_end = refl

read_at-append_example :
    read_at toy pool [] (codes "f" ∷ []) 0 107 ≡ ok (take 7 zap_block ++ drop 7 (take 20 zap_block))
read_at-append_example =
    read_at-append toy pool [] (codes "f" ∷ []) 0 7 100 (take 7 zap_block)
      (drop 7 (take 20 zap_block)) (omega arith) (omega arith) refl first_seven to_the_end
