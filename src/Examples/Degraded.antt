-- ===== src/Examples/Degraded.antt =====
-- An example of a RAID-Z1 read with a lost device: two data columns and their parity.
use mathlib.Core.Option.{some-injective}
use lamzfs.Common.{
  ◌⊎◌, inr, ◌∙◌, ◌++◌, ℕ, zero, suc, ◌^◌, ◌≡◌, refl, ap, sym, inl, Option, none, some, true, false,
  List, [], ◌∷◌, arith, InList, length, get_elem?, replicate, get_or-replicate, bytes_eq,
}
use lamzfs.Outcome.{ok, ok-injective}
use lamzfs.Compress.{decompress}
use lamzfs.Phys.{BlockPointerRegular, regular, ChecksumType}
use lamzfs.BlockRead.{PoolMember, read_exact, fill}
use lamzfs.Cksum.{verify_block}
use lamzfs.Vdev.{read_block_pointer, check_dvas}
use lamzfs.Vdev.Tree.{flatten, raidz1, Topology}
use lamzfs.Vdev.Raidz.{
  raidz1_assemble, raidz1_read_columns, rebuilt_block, RaidzCol, raidz_map, raidz_cols, raidz_col,
  read_column, verifies, raidz1_reconstruct,
}
use lamzfs.Vdev.Heal.{PassesChecks}
use lamzfs.Vdev.Parity.{IsRow, AllBut, xor_of, raidz1_reconstruct_lem}
use lamzfs.Vdev.Geometry.{IsRowMap, raidz_map-IsRowMap}
use lamzfs.Vdev.Degraded.{row_data, row_block}
use lamzfs.Vdev.Degraded.Settled.{OnlyRow, OnlyBlock}
use lamzfs.Vdev.Degraded.Read.{IntactBut, IntactRow, read_block_pointer_degraded}
use lamzfs.Examples.{toy, toy_words, dva_0, pointer_to, constant_device, dead_device}

abbrev cols_0 : List RaidzCol
cols_0 =
    record { devidx = 0; offset = 0; size = 512; parity = true }
    ∷ record { devidx = 1; offset = 0; size = 512; parity = false }
    ∷ record { devidx = 2; offset = 0; size = 512; parity = false }
    ∷ []

-- 5 and 6, with 3 for their parity.
abbrev row_0 : ℕ → List ℕ
row_0 zero = replicate 512 3
row_0 (suc zero) = replicate 512 5
row_0 (suc (suc j)) = replicate 512 6

map_0 : raidz_map dva_0 9 3 1 1024 ≡ ok cols_0
unfolding raidz_map raidz_cols raidz_col
map_0 = refl

same_some : {A : Type 0} (x y : A) → some x ≡ some y → x ≡ y
same_some x y h = cc

row_0-sizes : (i : ℕ) (x : RaidzCol) → get_elem? cols_0 i ≡ some x → length (row_0 i) ≡ x.size
row_0-sizes zero x h = ap (λ (c : RaidzCol). c.size) (same_some _ x h)
row_0-sizes (suc zero) x h = ap (λ (c : RaidzCol). c.size) (same_some _ x h)
row_0-sizes (suc (suc zero)) x h = ap (λ (c : RaidzCol). c.size) (same_some _ x h)
row_0-sizes (suc (suc (suc j))) x h = absurd (cc)

row_0-IsRow : IsRow row_0 cols_0
unfolding xor_of
row_0-IsRow = record {
  sizes = row_0-sizes;
  parity = λ k h.
      rw
        (
          get_or-replicate {A = ℕ} 512 k 3 0 h,
          get_or-replicate {A = ℕ} 512 k 5 0 h,
          get_or-replicate {A = ℕ} 512 k 6 0 h,
        )
        refl;
}

abbrev three_disks : List PoolMember
three_disks = constant_device 3 ∷ constant_device 5 ∷ dead_device ∷ []

abbrev children_0 : List (Option ℕ)
children_0 = some 0 ∷ some 1 ∷ some 2 ∷ []

abbrev topo_0 : Topology
topo_0 = record { layout = raidz1 children_0 9; checksum_salt = none }

abbrev pointer_0 : BlockPointerRegular
pointer_0 = pointer_to ChecksumType.fletcher4 (1024 ∷ 5632 ∷ 0 ∷ 0 ∷ []) 2

intact_0 : IntactBut toy none pointer_0 1024 1024 row_0 three_disks children_0 dva_0 cols_0 2
unfolding read_column read_exact fill
intact_0 zero x h ne = ap (read_column three_disks children_0 0) (sym (same_some _ x h))
intact_0 (suc zero) x h ne = ap (read_column three_disks children_0 0) (sym (same_some _ x h))
intact_0 (suc (suc zero)) x h ne = absurd (ne refl)
intact_0 (suc (suc (suc j))) x h ne = absurd (cc)

pointer_0-PassesChecks : PassesChecks toy three_disks topo_0 pointer_0
unfolding check_dvas flatten
pointer_0-PassesChecks = record {
  size_lower = omega arith;
  size_upper = omega arith;
  addresses = refl;
}

one_column_lost : IntactRow toy none pointer_0 1024 1024 three_disks children_0 9 dva_0
unfolding verifies row_data toy_words verify_block bytes_eq
one_column_lost = record {
  cols = cols_0;
  mapped = map_0;
  content = row_0;
  row = row_0-IsRow;
  target = 2;
  in_row = omega arith;
  intact = intact_0;
  accepted = refl;
}

first_dva : InList dva_0 (flatten pointer_0.dvas)
unfolding flatten
first_dva = inl refl

-- Column 2 is not at hand.
abbrev colbufs_0 : List (Option (List ℕ))
colbufs_0 = some (replicate 512 3) ∷ some (replicate 512 5) ∷ none ∷ []

reads_two_columns : raidz1_read_columns three_disks children_0 cols_0 0 ≡ colbufs_0
unfolding raidz1_read_columns read_column read_exact fill
reads_two_columns = refl

not_assembled : raidz1_assemble cols_0 colbufs_0 1024 none ≡ none
unfolding raidz1_assemble
not_assembled = refl

-- With column 2 absent, only column 2 can be rebuilt.
rebuilds :
    (i : ℕ)
    → (rebuilt_block toy none pointer_0 1024 1024 cols_0 colbufs_0 i ≡ none)
      ⊎ (rebuilt_block toy none pointer_0 1024 1024 cols_0 colbufs_0 i
          ≡ some (row_block row_0 cols_0 1024))
unfolding rebuilt_block raidz1_assemble row_data fill
rebuilds zero = inl refl
rebuilds (suc zero) = inl refl
rebuilds (suc (suc zero)) = inr refl
rebuilds (suc (suc (suc i))) = inl refl

none-some : {A : Type 0} {x : A} → ◌≡◌ {A = Option A} none (some x) → ⊥
none-some h = cc

only_row : OnlyRow toy none pointer_0 1024 1024 cols_0 colbufs_0 dva_0 (row_block row_0 cols_0 1024)
only_row = (
  λ block h _. absurd (none-some (sym not_assembled ∙ h)),
  λ i block h _. elim (rebuilds i) [
    | inl e ↦ absurd (none-some (sym e ∙ h))
    | inr e ↦ some-injective _ _ (sym h ∙ e)
  ],
)

only_block :
    OnlyBlock toy none pointer_0 1024 1024 three_disks children_0 9
      (flatten pointer_0.dvas)
      (row_block row_0 cols_0 1024)
unfolding flatten
only_block dva cols (inr l) h = absurd l
only_block dva cols (inl p) h =
    let same : cols_0 ≡ cols = ok-injective (sym map_0 ∙ rw p at h) in
    rw (← same, p, reads_two_columns) only_row

read_block_pointer_degraded_example :
    read_block_pointer toy three_disks topo_0 (regular pointer_0)
    ≡ ok (replicate 512 5 ++ replicate 512 6)
unfolding decompress one_column_lost row_data
read_block_pointer_degraded_example =
    read_block_pointer_degraded toy three_disks topo_0 children_0 9 pointer_0 dva_0 refl
      pointer_0-PassesChecks first_dva one_column_lost only_block

AllBut-2 : AllBut row_0 colbufs_0 2 3
AllBut-2 zero h ne = refl
AllBut-2 (suc zero) h ne = refl
AllBut-2 (suc (suc zero)) h ne = absurd (ne refl)
AllBut-2 (suc (suc (suc j))) h ne = absurd (omega arith)

raidz1_reconstruct_lem_example : raidz1_reconstruct cols_0 colbufs_0 2 ≡ some (replicate 512 6)
raidz1_reconstruct_lem_example =
    raidz1_reconstruct_lem row_0 cols_0 colbufs_0 2
      (record { devidx = 2; offset = 0; size = 512; parity = false }) row_0-IsRow (omega arith) refl
      (omega arith) AllBut-2

raidz_map-IsRowMap_example : IsRowMap 3 (2 ^ 9) 1024 cols_0
raidz_map-IsRowMap_example = raidz_map-IsRowMap dva_0 9 3 1024 cols_0 map_0
