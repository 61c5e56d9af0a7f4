-- ===== src/Vdev/Sound/Columns.antt =====
-- The copies that the RAID-Z1 path of src/vdev.rs accepts, healthy or rebuilt, are verified.
use lamzfs.Common.{
  ℕ, ◌+◌, ◌≡◌, ◌≢◌, refl, inl, inr, Option, none, some, true, List, [], ◌∷◌, arith, length,
  if◌then◌else◌, Bool-cases, length-take, take, ltb,
}
use lamzfs.Error.{Error}
use lamzfs.Outcome.{Outcome, ok, err, panic}
use lamzfs.Phys.{Dva, BlockPointerRegular}
use lamzfs.Vendored.{Vendored}
use lamzfs.BlockRead.{PoolMember}
use lamzfs.Vdev.Tree.{Attempt}
use lamzfs.Vdev.Raidz.{
  RaidzCol, raidz_map, verifies, is_ok, mapped, accept_or, degraded, rebuilt_block, raidz1_columns,
  raidz1_copy, raidz1_loop, raidz1_assemble, raidz1_reconstruct, raidz1_read_columns,
  collect_columns,
}
use lamzfs.Vdev.Copies.{FoundCopy, ListedCopy}
use lamzfs.Vdev.Sound.Children.{or_else-Listed}

pub raidz_map-ne-panic :
    (dva : Dva) (ashift dcols nparity psize : ℕ) → raidz_map dva ashift dcols nparity psize ≢ panic
unfolding raidz_map
raidz_map-ne-panic dva ashift dcols nparity psize h = ground arith

assembled-length :
    (psize : ℕ) (o : Option (List ℕ)) {raw : List ℕ}
    → (elim o [
      | none ↦ none
      | some bytes ↦ if ltb (length bytes) psize then none else some (take psize bytes)
    ])
      ≡ some raw
    → length raw ≡ psize
assembled-length psize none h = absurd (cc)
assembled-length psize (some bytes) h = ground (arith, length-take psize bytes)

pub length-raidz1_assemble :
    (cols : List RaidzCol) (colbufs : List (Option (List ℕ))) (psize : ℕ)
    (replace : Option (ℕ × List ℕ)) {raw : List ℕ}
    → raidz1_assemble cols colbufs psize replace ≡ some raw
    → length raw ≡ psize
unfolding raidz1_assemble
length-raidz1_assemble cols colbufs psize replace h =
    assembled-length psize (collect_columns colbufs replace cols 0) h

module _ (v : Vendored) (salt : Option (List ℕ)) (r : BlockPointerRegular) (psize lsize : ℕ) where
  abbrev FoundR : Dva → Attempt → Type 0
  FoundR = FoundCopy v salt r psize lsize

  pub is_ok-true : (o : Outcome (Unit {0})) → is_ok o ≡ true → o ≡ ok tt
  is_ok-true (ok tt) h = refl
  is_ok-true (err e) h = cc
  is_ok-true panic h = cc

  pub accept_or-Found :
      (dva : Dva) (block : Option (List ℕ)) (next : Attempt)
      → ((raw : List ℕ) → block ≡ some raw → length raw ≡ psize)
      → FoundR dva next
      → FoundR dva (accept_or v salt r psize lsize dva block next)
  unfolding accept_or verifies
  accept_or-Found dva none next h k = k
  accept_or-Found dva (some raw) next h k =
      elim (Bool-cases (verifies v salt r psize lsize dva raw)) [
        | inl e ↦
            rw e
              (record { raw = raw; whole = h raw refl; accepted = is_ok-true _ e; decoded = refl })
        | inr e ↦ rw e k
      ]

  pub length-rebuilt_block :
      (cols : List RaidzCol) (colbufs : List (Option (List ℕ))) (i : ℕ) {raw : List ℕ}
      → rebuilt_block v salt r psize lsize cols colbufs i ≡ some raw
      → length raw ≡ psize
  unfolding rebuilt_block
  length-rebuilt_block cols colbufs i h = go (raidz1_reconstruct cols colbufs i) h
    where
      go :
          {raw : List ℕ} (o : Option (List ℕ))
          → (elim o [
            | none ↦ none
            | some rebuilt ↦ raidz1_assemble cols colbufs psize (some (i, rebuilt))
          ])
            ≡ some raw
          → length raw ≡ psize
      go none h = absurd (cc)
      go (some rebuilt) h = length-raidz1_assemble cols colbufs psize (some (i, rebuilt)) h

  degraded-Found :
      (dva : Dva) (cols : List RaidzCol) (colbufs : List (Option (List ℕ))) (rest : List RaidzCol)
      (i : ℕ)
      → FoundR dva (degraded v salt r psize lsize dva cols colbufs rest i)
  unfolding degraded
  degraded-Found dva cols colbufs [] i = tt
  degraded-Found dva cols colbufs (col ∷ rest) i = elim (Bool-cases col.parity) [
    | inl e ↦ rw (e, degraded) (degraded-Found dva cols colbufs rest (i + 1))
    | inr e ↦
        rw (e, degraded)
          (accept_or-Found dva (rebuilt_block v salt r psize lsize cols colbufs i) _
            (λ raw h. length-rebuilt_block cols colbufs i h)
            (degraded-Found dva cols colbufs rest (i + 1)))
  ]

  pub mapped-Found :
      (members : List PoolMember) (children : List (Option ℕ)) (dva : Dva)
      (o : Outcome (List RaidzCol))
      → o ≢ panic
      → FoundR dva (mapped v salt r psize lsize members children dva o)
  unfolding mapped raidz1_columns
  mapped-Found members children dva (ok cols) h =
      let colbufs = raidz1_read_columns members children cols dva.vdev in
      accept_or-Found dva (raidz1_assemble cols colbufs psize none) _
        (λ raw e. length-raidz1_assemble cols colbufs psize none e)
        (degraded-Found dva cols colbufs cols 0)
  mapped-Found members children dva (err e) h = tt
  mapped-Found members children dva panic h = absurd (h refl)

  pub raidz1_loop_sound :
      (members : List PoolMember) (children : List (Option ℕ)) (ashift : ℕ) (last : Error)
      (dvas : List Dva) (bs : List ℕ)
      → raidz1_loop v salt r psize lsize members children ashift last dvas ≡ ok bs
      → ListedCopy v salt r psize lsize dvas (ok bs)
  unfolding raidz1_loop raidz1_copy
  raidz1_loop_sound members children ashift last [] bs h = absurd (cc)
  raidz1_loop_sound members children ashift last (dva ∷ dvas) bs h =
      or_else-Listed v salt r psize lsize dva dvas
        (raidz1_copy v salt r psize lsize members children ashift dva)
        (λ e. raidz1_loop v salt r psize lsize members children ashift e dvas) bs
        (mapped-Found members children dva (raidz_map dva ashift (length children) 1 psize)
          (raidz_map-ne-panic dva ashift (length children) 1 psize))
        (λ e. raidz1_loop_sound members children ashift e dvas bs) h
