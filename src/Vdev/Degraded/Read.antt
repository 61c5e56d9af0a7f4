-- ===== src/Vdev/Degraded/Read.antt =====
-- src/vdev.rs: a RAID-Z1 read that has all the columns of a row but one, which is lost or corrupt.
use mathlib.Core.Path.{subst}
use lamzfs.Common.{
  ℕ, zero, suc, ◌+◌, ◌*◌, ◌^◌, ◌<◌, ◌≡◌, ◌≢◌, refl, ap, sym, ◌∙◌, Option, none, some, true, false,
  ◌||◌, List, [], ◌∷◌, arith, ltb, ◌==◌, length, map, get_elem?, InList, Bool-cases,
  get_elem?-in_range, inl, inr,
}
use lamzfs.Error.{Error}
use lamzfs.Outcome.{Outcome, ok}
use lamzfs.Phys.{Dva, BlockPointerRegular, regular}
use lamzfs.Vendored.{Vendored}
use lamzfs.BlockRead.{PoolMember}
use lamzfs.Compress.{decompress, max_block_lsize}
use lamzfs.Vdev.{read_copies, read_block_pointer}
use lamzfs.Vdev.Tree.{raidz1, Topology, flatten, Attempt, found}
use lamzfs.Vdev.Raidz.{
  RaidzCol, join, read_column, raidz1_read_columns, verifies, accept_or, rebuilt_block, degraded,
  raidz1_columns, mapped, raidz_map, raidz1_copy, raidz1_loop, raidz1_read, column_bytes,
}
use lamzfs.Vdev.Copies.{or_else-Settled}
use lamzfs.Vdev.Heal.{PassesChecks}
use lamzfs.Vdev.Heal.Children.{found-failed}
use lamzfs.Vdev.Geometry.{IsRowMap, raidz_map-IsRowMap}
use lamzfs.Vdev.Parity.{IsRow, AllBut}
use lamzfs.Vdev.Degraded.{row_block, assemble_row, rebuilt_block_row}
use lamzfs.Vdev.Degraded.Settled.{OnlyBlock, decoded, raidz1_copy-Settled}

get_elem?-map :
    {A B : Type 0} (f : A → B) (xs : List A) (i : ℕ) {x : A}
    → get_elem? xs i ≡ some x
    → get_elem? (map f xs) i ≡ some (f x)
get_elem?-map f [] i h = absurd (cc)
get_elem?-map f (y ∷ xs) zero h = cc
get_elem?-map f (y ∷ xs) (suc i) h = get_elem?-map f xs i h

module _ (v : Vendored) (salt : Option (List ℕ)) (r : BlockPointerRegular) (psize lsize : ℕ) where
  -- An attempt that returns.
  abbrev Returns : Attempt → Type 0
  Returns a = (o : Outcome (List ℕ)) × (a ≡ found o)

  accept_or_hit :
      (dva : Dva) (raw : List ℕ) (next : Attempt)
      → verifies v salt r psize lsize dva raw ≡ true
      → Returns (accept_or v salt r psize lsize dva (some raw) next)
  unfolding accept_or
  accept_or_hit dva raw next h = (decompress v r.compression raw lsize, rw (h, accept_or) refl)

  accept_or_next :
      (dva : Dva) (block : Option (List ℕ)) (next : Attempt)
      → Returns next
      → Returns (accept_or v salt r psize lsize dva block next)
  unfolding accept_or
  accept_or_next dva none next h = h
  accept_or_next dva (some raw) next h = elim (Bool-cases (verifies v salt r psize lsize dva raw)) [
    | inl e ↦ (decompress v r.compression raw lsize, rw (e, accept_or) refl)
    | inr e ↦ rw (e, accept_or) h
  ]

  -- The loop returns once it rebuilds a column that makes the block verify.
  degraded_hit :
      (dva : Dva) (cols : List RaidzCol) (colbufs : List (Option (List ℕ))) (raw : List ℕ)
      (rest : List RaidzCol) (i k : ℕ) (col : RaidzCol)
      → get_elem? rest k ≡ some col
      → col.parity ≡ false
      → rebuilt_block v salt r psize lsize cols colbufs (i + k) ≡ some raw
      → verifies v salt r psize lsize dva raw ≡ true
      → Returns (degraded v salt r psize lsize dva cols colbufs rest i)
  unfolding degraded
  degraded_hit dva cols colbufs raw [] i k col at p b h = absurd (cc)
  degraded_hit dva cols colbufs raw (c ∷ rest) i zero col at p b h =
      let flag : c.parity ≡ false = cc in
      let here : rebuilt_block v salt r psize lsize cols colbufs i ≡ some raw =
        ap (rebuilt_block v salt r psize lsize cols colbufs) (omega arith) ∙ b in
      rw (flag, degraded) (rw here (accept_or_hit dva raw _ h))
  degraded_hit dva cols colbufs raw (c ∷ rest) i (suc k) col at p b h =
      let deeper : Returns (degraded v salt r psize lsize dva cols colbufs rest (i + 1)) =
        degraded_hit dva cols colbufs raw rest (i + 1) k col at p
          (ap (rebuilt_block v salt r psize lsize cols colbufs) (omega arith) ∙ b) h in
      elim (Bool-cases c.parity) [
        | inl e ↦ rw (e, degraded) deeper
        | inr e ↦ rw (e, degraded) (accept_or_next dva _ _ deeper)
      ]

  -- Every column but number `target` is read as the row has it. What column `target` gives is open:
  -- nothing, or any bytes.
  abbrev pub IntactBut :
      (ℕ → List ℕ) → List PoolMember → List (Option ℕ) → Dva → List RaidzCol → ℕ → Type 0
  IntactBut d members children dva cols target =
      (j : ℕ) (x : RaidzCol)
      → get_elem? cols j ≡ some x
      → j ≢ target
      → read_column members children dva.vdev x ≡ some (d j)

  AllBut-columns :
      (d : ℕ → List ℕ) (members : List PoolMember) (children : List (Option ℕ)) (dva : Dva)
      (cols : List RaidzCol) (target : ℕ)
      → IntactBut d members children dva cols target
      → AllBut d (raidz1_read_columns members children cols dva.vdev) target (length cols)
  unfolding raidz1_read_columns
  AllBut-columns d members children dva cols target h j l p =
      let (x, e) = get_elem?-in_range cols j l in
      ap join (get_elem?-map (read_column members children dva.vdev) cols j e) ∙ h j x e p

  -- Of one address: the row's columns but one are intact, and its block verifies.
  pub record IntactRow (members : List PoolMember) (children : List (Option ℕ)) (ashift : ℕ)
      (dva : Dva) : Type 0 where
    pub cols : List RaidzCol
    pub mapped : raidz_map dva ashift (length children) 1 psize ≡ ok cols
    pub content : ℕ → List ℕ
    pub row : IsRow content cols
    pub target : ℕ
    pub in_row : target < length cols
    pub intact : IntactBut content members children dva cols target
    pub accepted : verifies v salt r psize lsize dva (row_block content cols psize) ≡ true

  raidz1_columns_intact :
      (members : List PoolMember) (children : List (Option ℕ)) (ashift : ℕ) (dva : Dva)
      (i : IntactRow members children ashift dva)
      → IsRowMap (length children) (2 ^ ashift) psize i.cols
      → Returns (raidz1_columns v salt r psize lsize members children dva i.cols)
  unfolding raidz1_columns column_bytes
  raidz1_columns_intact members children ashift dva i m =
      let colbufs = raidz1_read_columns members children i.cols dva.vdev in
      let all = AllBut-columns i.content members children dva i.cols i.target i.intact in
      let (col, at) = get_elem?-in_range i.cols i.target i.in_row in
      let shift : 0 + i.target ≡ i.target = omega arith in
      let (parity, at_0) = get_elem?-in_range i.cols 0 (omega (arith, i.in_row)) in
      elim (Bool-cases (i.target == 0)) [
        | inl e ↦
            rw
              (
                assemble_row i.content colbufs none i.cols psize i.row m.covers m.one_parity
                    (λ j l p. all j l (λ q. ground arith)),
                raidz1_columns,
              )
              (accept_or_hit dva (row_block i.content i.cols psize) _ i.accepted)
        | inr e ↦ accept_or_next dva _ _ (
            degraded_hit dva i.cols colbufs (row_block i.content i.cols psize) i.cols 0 i.target col
              at (m.one_parity i.target col at ∙ e)
              (ap (rebuilt_block v salt r psize lsize i.cols colbufs) shift
                ∙ rebuilt_block_row i.content v salt r psize lsize i.cols colbufs i.target col i.row
                    m.covers m.one_parity (ground arith) at
                    (omega (
                      arith,
                      m.longest_parity i.target col parity at at_0,
                      i.row.sizes 0 parity at_0,
                    ))
                    all)
              i.accepted)
      ]

  raidz1_copy_intact :
      (members : List PoolMember) (children : List (Option ℕ)) (ashift : ℕ) (dva : Dva)
      → IntactRow members children ashift dva
      → Returns (raidz1_copy v salt r psize lsize members children ashift dva)
  unfolding raidz1_copy mapped
  raidz1_copy_intact members children ashift dva i =
      rw (i.mapped, mapped)
        (raidz1_columns_intact members children ashift dva i
          (raidz_map-IsRowMap dva ashift (length children) psize i.cols i.mapped))

  module _ (raw : List ℕ) (members : List PoolMember) (children : List (Option ℕ))
      (ashift : ℕ) where
    raidz1_loop_intact :
        (last : Error) (dvas : List Dva) (dva : Dva)
        → InList dva dvas
        → IntactRow members children ashift dva
        → OnlyBlock v salt r psize lsize members children ashift dvas raw
        → raidz1_loop v salt r psize lsize members children ashift last dvas
          ≡ (decoded v salt r psize lsize raw)
    unfolding raidz1_loop
    raidz1_loop_intact last [] dva l i only = absurd l
    raidz1_loop_intact last (d ∷ dvas) dva (inl p) i only =
        let (o, e) =
          raidz1_copy_intact members children ashift d
            (subst (IntactRow members children ashift) p i) in
        or_else-Settled (decoded v salt r psize lsize raw)
          (raidz1_copy v salt r psize lsize members children ashift d) _
          (raidz1_copy-Settled v salt r psize lsize raw members children ashift (d ∷ dvas) d
            (inl refl) only)
          λ x f. absurd (found-failed (sym e ∙ f))
    raidz1_loop_intact last (d ∷ dvas) dva (inr l) i only =
        or_else-Settled (decoded v salt r psize lsize raw)
          (raidz1_copy v salt r psize lsize members children ashift d) _
          (raidz1_copy-Settled v salt r psize lsize raw members children ashift (d ∷ dvas) d
            (inl refl) only)
          λ x f. raidz1_loop_intact x dvas dva l i (λ y cols m. only y cols (inr m))

-- On RAID-Z1, if a regular pointer passes the checks, all columns of the row but at most one read,
-- for one of its addresses, as what was stored (column 0 the exclusive or of the others, the data
-- columns a block that verifies), and no other block that the columns at any of its addresses give,
-- as read or with one rebuilt, verifies, then the read gives what the stored block decompresses to:
-- one column that is lost or holds other bytes, data or parity, does not change the result.
pub read_block_pointer_degraded :
    (v : Vendored) (members : List PoolMember) (topo : Topology) (children : List (Option ℕ))
    (ashift : ℕ) (r : BlockPointerRegular) (dva : Dva)
    → topo.layout ≡ raidz1 children ashift
    → PassesChecks v members topo r
    → InList dva (flatten r.dvas)
    → (i : IntactRow v topo.checksum_salt r
        (r.physical_sectors * 512)
        (r.logical_sectors * 512)
        members
        children
        ashift
        dva)
    → OnlyBlock v topo.checksum_salt r
        (r.physical_sectors * 512)
        (r.logical_sectors * 512)
        members
        children
        ashift
        (flatten r.dvas)
        (row_block i.content i.cols (r.physical_sectors * 512))
    → read_block_pointer v members topo (regular r)
      ≡ decompress v r.compression
          (row_block i.content i.cols (r.physical_sectors * 512))
          (r.logical_sectors * 512)
unfolding read_block_pointer read_copies raidz1_read
read_block_pointer_degraded v members topo children ashift r dva t c l i only =
    rw (passes, c.addresses, t, read_copies)
      (raidz1_loop_intact v topo.checksum_salt r (r.physical_sectors * 512)
        (r.logical_sectors * 512) (row_block i.content i.cols (r.physical_sectors * 512)) members
        children ashift _ (flatten r.dvas) dva l i only)
  where
    passes :
        (r.physical_sectors * 512 == 0 || ltb max_block_lsize (r.physical_sectors * 512)) ≡ false
    passes = ground (arith, c.size_lower, c.size_upper)
