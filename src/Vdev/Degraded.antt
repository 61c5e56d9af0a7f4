-- ===== src/Vdev/Degraded.antt =====
-- The RAID-Z1 read of src/vdev.rs with one column lost or corrupt: the block is read all the same.
pub mod Settled
pub mod Read
use lamzfs.Common.{
  ℕ, zero, suc, ◌+◌, ◌-◌, ◌*◌, ◌^◌, ◌≤◌, ◌<◌, ◌≡◌, ◌≢◌, refl, ap, sym, ◌∙◌, Option, none, some,
  Bool, true, false, ◌||◌, List, [], ◌∷◌, ◌++◌, arith, leb, ltb, ◌==◌, if◌then◌else◌, length, map,
  length-append, get_elem?, take, get_elem?_bound, Bool-cases, inl, inr, ◌⊎◌, Option-cases, ==_iff,
}
use lamzfs.Outcome.{Outcome, ok, err, panic}
use lamzfs.Phys.{Dva, BlockPointerRegular}
use lamzfs.Vendored.{Vendored}
use lamzfs.BlockRead.{PoolMember}
use lamzfs.Compress.{decompress}
use lamzfs.Vdev.Tree.{Attempt, found, failed}
use lamzfs.Vdev.Raidz.{
  RaidzCol, join, read_column, raidz1_read_columns, column_bytes, collect_columns, raidz1_assemble,
  raidz1_reconstruct, verifies, accept_or, rebuilt_block, degraded, raidz1_columns,
}
use lamzfs.Vdev.Geometry.{IsRowMap}
use lamzfs.Vdev.Geometry.Sums.{data_bytes}
use lamzfs.Vdev.Parity.{IsRow, AllBut, raidz1_reconstruct_lem}

module _ (d : ℕ → List ℕ) where
  -- The data columns of a row from number `i`, one after the other.
  unfoldable pub row_data : List RaidzCol → ℕ → List ℕ
  row_data [] i = []
  row_data (col ∷ cols) i =
      if col.parity then row_data cols (i + 1) else d i ++ row_data cols (i + 1)

  -- The columns that the assembly reads, all but the parity, are those of the row.
  collect_columns_row :
      (colbufs : List (Option (List ℕ))) (replace : Option (ℕ × List ℕ)) (cols : List RaidzCol)
      (i : ℕ)
      → ((j : ℕ) (x : RaidzCol) → get_elem? cols j ≡ some x → x.parity ≡ (i + j == 0))
      → ((j : ℕ)
          → i ≤ j
          → j < i + length cols
          → j ≢ 0
          → column_bytes colbufs replace j ≡ some (d j))
      → collect_columns colbufs replace cols i ≡ some (row_data cols i)
  unfolding collect_columns row_data
  collect_columns_row colbufs replace [] i p h = refl
  collect_columns_row colbufs replace (col ∷ cols) i p h =
      let rest =
        collect_columns_row colbufs replace cols (i + 1)
          (λ j x e. p (suc j) x e ∙ ap (λ k. k == 0) (omega arith))
          (λ j l r. h j (omega arith) (omega arith)) in
      elim (Bool-cases col.parity) [
        | inl e ↦ rw e rest
        | inr e ↦
            let flag : (i + 0 == 0) ≡ false = sym (p 0 col refl) ∙ e in
            let here : column_bytes colbufs replace i ≡ some (d i) =
              h i (omega arith) (omega arith) (λ z. ground arith) in
            rw (e, here, rest) refl
      ]

  length-row_data :
      (cols : List RaidzCol) (i : ℕ)
      → ((j : ℕ) (x : RaidzCol) → get_elem? cols j ≡ some x → length (d (i + j)) ≡ x.size)
      → length (row_data cols i) ≡ data_bytes cols
  unfolding row_data data_bytes
  length-row_data [] i h = refl
  length-row_data (col ∷ cols) i h =
      let shift : (j : ℕ) → suc i + j ≡ i + suc j = λ j. omega arith in
      let rest =
        length-row_data cols (i + 1)
          (λ j x e. ap (λ k. length (d k)) (omega arith) ∙ h (suc j) x e) in
      let here : length (d i) ≡ col.size = ap (λ k. length (d k)) (omega arith) ∙ h 0 col refl in
      elim (Bool-cases col.parity) [
        | inl e ↦ rw e rest
        | inr e ↦ rw e (omega (arith, length-append (d i) (row_data cols (i + 1)), rest, here))
      ]

  -- What the assembly makes of a row: its data, cut to the block.
  abbrev pub row_block : List RaidzCol → ℕ → List ℕ
  row_block cols psize = take psize (row_data cols 0)

  pub assemble_row :
      (colbufs : List (Option (List ℕ))) (replace : Option (ℕ × List ℕ)) (cols : List RaidzCol)
      (psize : ℕ)
      → IsRow d cols
      → psize ≤ data_bytes cols
      → ((j : ℕ) (x : RaidzCol) → get_elem? cols j ≡ some x → x.parity ≡ (j == 0))
      → ((j : ℕ) → j < length cols → j ≢ 0 → column_bytes colbufs replace j ≡ some (d j))
      → raidz1_assemble cols colbufs psize replace ≡ some (row_block cols psize)
  unfolding raidz1_assemble
  assemble_row colbufs replace cols psize row fits first h =
      let all : collect_columns colbufs replace cols 0 ≡ some (row_data cols 0) =
        collect_columns_row colbufs replace cols 0
          (λ j x e. first j x e ∙ ap (λ k. k == 0) (omega arith)) (λ j _ l. h j (omega arith)) in
      let len : length (row_data cols 0) ≡ data_bytes cols =
        length-row_data cols 0 (λ j x e. ap (λ k. length (d k)) (omega arith) ∙ row.sizes j x e) in
      let long : ltb (length (row_data cols 0)) psize ≡ false = ground (arith, len) in
      rw (all, raidz1_assemble) (rw long refl)

  -- The block with the lost column put back.
  module _ (v : Vendored) (salt : Option (List ℕ)) (r : BlockPointerRegular) (psize lsize : ℕ) where
    pub rebuilt_block_row :
        (cols : List RaidzCol) (colbufs : List (Option (List ℕ))) (target : ℕ) (col : RaidzCol)
        → IsRow d cols
        → psize ≤ data_bytes cols
        → ((j : ℕ) (x : RaidzCol) → get_elem? cols j ≡ some x → x.parity ≡ (j == 0))
        → 0 < target
        → get_elem? cols target ≡ some col
        → col.size ≤ length (d 0)
        → AllBut d colbufs target (length cols)
        → rebuilt_block v salt r psize lsize cols colbufs target ≡ some (row_block cols psize)
    unfolding rebuilt_block column_bytes
    rebuilt_block_row cols colbufs target col row fits first pos at longest all =
        rw (raidz1_reconstruct_lem d cols colbufs target col row pos at longest all, rebuilt_block)
          (assemble_row colbufs (some (target, d target)) cols psize row fits first λ j l _.
            elim (Bool-cases (j == target)) [
              | inl e ↦ rw e (ap (λ k. some (d k)) (sym ((==_iff j target).0 e)))
              | inr e ↦ rw e (all j l (λ p. ground arith))
            ])
