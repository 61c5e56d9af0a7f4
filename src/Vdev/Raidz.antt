-- ===== src/Vdev/Raidz.antt =====
-- The RAID-Z1 read path of src/vdev.rs: the column map, the reads, the assembly and the rebuild.
use lamzfs.Common.{
  ℕ, zero, suc, ◌+◌, ◌-◌, ◌*◌, ◌/◌, ◌%◌, ◌^◌, bit_xor, Option, none, some, Bool, true, false, ◌||◌,
  List, [], ◌∷◌, ◌++◌, map, ltb, leb, ◌==◌, if◌then◌else◌, length, take, get_elem?,
}
use lamzfs.Error.{Error, Location, inconsistent, checksum_mismatch}
use lamzfs.Outcome.{Outcome, ok, err, panic, refuse_if, ◌>>◌}
use lamzfs.Phys.{Dva, BlockPointerRegular}
use lamzfs.Vendored.{Vendored}
use lamzfs.BlockRead.{PoolMember, fill, read_exact}
use lamzfs.Cksum.{verify_block}
use lamzfs.Compress.{decompress}
use lamzfs.Vdev.Tree.{label_reserve, ashift_max, flatten, Attempt, found, failed, or_else}

pub record RaidzCol : Type 0 where
  pub devidx : ℕ
  pub offset : ℕ
  pub size : ℕ
  pub parity : Bool

abbrev pub raidz_geom : Error
raidz_geom = inconsistent "raidz_geom" (Location.vdev 0)

-- Column `c` of a row map: `f` is the first device, `o` the byte offset of the row, `q` the full
-- rows, `bc` the count of columns with one sector more. Addition wraps on 64 bits.
unfoldable pub raidz_col : ℕ → ℕ → ℕ → ℕ → ℕ → ℕ → ℕ → ℕ → RaidzCol
raidz_col dcols nparity secsize f o q bc c = record {
  devidx = if leb dcols (f + c) then f + c - dcols else f + c;
  offset = if leb dcols (f + c) then (o + secsize) % 2 ^ 64 else o;
  size = if ltb c bc then (q + 1) * secsize else q * secsize;
  parity = ltb c nparity;
}

-- `for c in c..c + left`.
unfoldable pub raidz_cols : (ℕ → RaidzCol) → ℕ → ℕ → List RaidzCol
raidz_cols col zero c = []
raidz_cols col (suc left) c = col c ∷ raidz_cols col left (c + 1)

unfoldable pub raidz_map : Dva → ℕ → ℕ → ℕ → ℕ → Outcome (List RaidzCol)
raidz_map dva ashift dcols nparity psize = do
  refuse_if (leb dcols nparity || (ltb ashift 9 || ltb ashift_max ashift)) raidz_geom
  let secsize = 2 ^ ashift
  let b = dva.offset / 2 ^ (ashift - 9)
  let s = (psize + secsize - 1) / secsize
  refuse_if (s == 0) raidz_geom
  let f = b % dcols
  let o = b / dcols * secsize % 2 ^ 64
  let q = s / (dcols - nparity)
  let r = s - q * (dcols - nparity)
  let bc = if r == 0 then 0 else r + nparity
  let acols = if q == 0 then bc else dcols
  ok (raidz_cols (raidz_col dcols nparity secsize f o q bc) acols 0)

-- An option of an option, as `(*o?)?`.
abbrev pub join {ℓ} : {A : Type ℓ} → Option (Option A) → Option A
join none = none
join (some o) = o

-- One column's bytes, or `none` if its device is absent or its read fails.
unfoldable pub read_column : List PoolMember → List (Option ℕ) → ℕ → RaidzCol → Option (List ℕ)
read_column members children vdev col = elim (join (get_elem? children col.devidx)) [
  | none ↦ none
  | some mi ↦
      if ltb (label_reserve + col.offset) (2 ^ 64)
      then elim (get_elem? members mi) [
        | none ↦ none
        | some member ↦
            elim (read_exact member (label_reserve + col.offset) col.size vdev "io_raidz") [
              | ok buf ↦ some buf
              | _ ↦ none
            ]
      ]
      else none
]

unfoldable pub raidz1_read_columns :
    List PoolMember → List (Option ℕ) → List RaidzCol → ℕ → List (Option (List ℕ))
unfolding read_column
raidz1_read_columns members children cols vdev = map (read_column members children vdev) cols

-- The column that stands for number `i`: the replacement, or what was read.
unfoldable pub column_bytes : List (Option (List ℕ)) → Option (ℕ × List ℕ) → ℕ → Option (List ℕ)
column_bytes colbufs none i = join (get_elem? colbufs i)
column_bytes colbufs (some (j, rebuilt)) i =
    if i == j then some rebuilt else join (get_elem? colbufs i)

-- The loop over the columns from number `i`; parity columns are skipped.
unfoldable pub collect_columns :
    List (Option (List ℕ)) → Option (ℕ × List ℕ) → List RaidzCol → ℕ → Option (List ℕ)
unfolding column_bytes
collect_columns colbufs replace [] i = some []
collect_columns colbufs replace (col ∷ cols) i =
    let rest = collect_columns colbufs replace cols (i + 1) in
    if col.parity then rest else elim (column_bytes colbufs replace i) [
      | none ↦ none
      | some bs ↦ elim rest [ none ↦ none | some more ↦ some (bs ++ more) ]
    ]

-- `replace` is `replace_idx` with `replacement`, which the callers give together.
unfoldable pub raidz1_assemble :
    List RaidzCol → List (Option (List ℕ)) → ℕ → Option (ℕ × List ℕ) → Option (List ℕ)
unfolding collect_columns
raidz1_assemble cols colbufs psize replace = elim (collect_columns colbufs replace cols 0) [
  | none ↦ none
  | some bytes ↦ if ltb (length bytes) psize then none else some (take psize bytes)
]

-- `rebuilt[k] ^= other[k]` for each `k` within both.
unfoldable pub xor_into : List ℕ → List ℕ → List ℕ
xor_into [] other = []
xor_into (r ∷ rs) [] = r ∷ rs
xor_into (r ∷ rs) (b ∷ bs) = bit_xor r b ∷ xor_into rs bs

-- The loop over the columns from number `i`, past the parity and the target.
unfoldable pub xor_columns :
    List (Option (List ℕ)) → ℕ → List RaidzCol → ℕ → List ℕ → Option (List ℕ)
unfolding xor_into
xor_columns colbufs target [] i rebuilt = some rebuilt
xor_columns colbufs target (col ∷ cols) i rebuilt =
    let skip = xor_columns colbufs target cols (i + 1) rebuilt in
    let mix : Option (List ℕ) = elim (join (get_elem? colbufs i)) [
      | none ↦ none
      | some other ↦ xor_columns colbufs target cols (i + 1) (xor_into rebuilt other)
    ] in
    if i == 0 || i == target then skip else mix

unfoldable pub raidz1_reconstruct : List RaidzCol → List (Option (List ℕ)) → ℕ → Option (List ℕ)
unfolding xor_columns
raidz1_reconstruct cols colbufs target = elim (join (get_elem? colbufs 0)) [
  | none ↦ none
  | some parity ↦ elim (get_elem? cols target) [
    | none ↦ none
    | some col ↦ xor_columns colbufs target cols 0 (fill col.size parity)
  ]
]

abbrev pub is_ok : Outcome (Unit {0}) → Bool
is_ok (ok _) = true
is_ok _ = false

module _ (v : Vendored) (salt : Option (List ℕ)) (r : BlockPointerRegular) (psize lsize : ℕ) where
  -- The closure `verify` of `raidz1_read`.
  unfoldable pub verifies : Dva → List ℕ → Bool
  verifies dva raw =
      is_ok (verify_block v r.checksum_type r.order raw r.checksum_value salt dva.vdev dva.offset)

  -- `if let Some(raw) = … { if verify(&raw) { return … } }`, and what follows otherwise.
  unfoldable pub accept_or : Dva → Option (List ℕ) → Attempt → Attempt
  unfolding verifies
  accept_or dva none next = next
  accept_or dva (some raw) next =
      if verifies dva raw then found (decompress v r.compression raw lsize) else next

  -- The block with data column `i` rebuilt from parity.
  unfoldable pub rebuilt_block : List RaidzCol → List (Option (List ℕ)) → ℕ → Option (List ℕ)
  unfolding raidz1_reconstruct raidz1_assemble
  rebuilt_block cols colbufs i = elim (raidz1_reconstruct cols colbufs i) [
    | none ↦ none
    | some rebuilt ↦ raidz1_assemble cols colbufs psize (some (i, rebuilt))
  ]

  -- The loop that rebuilds one data column after the other.
  unfoldable pub degraded :
      Dva → List RaidzCol → List (Option (List ℕ)) → List RaidzCol → ℕ → Attempt
  unfolding accept_or rebuilt_block
  degraded dva cols colbufs [] i =
      failed (checksum_mismatch dva.vdev dva.offset "raidz_unrecoverable")
  degraded dva cols colbufs (col ∷ rest) i =
      let next = degraded dva cols colbufs rest (i + 1) in
      if col.parity then next else accept_or dva (rebuilt_block cols colbufs i) next

  -- One DVA copy, once its columns are known.
  unfoldable pub raidz1_columns : List PoolMember → List (Option ℕ) → Dva → List RaidzCol → Attempt
  unfolding raidz1_read_columns raidz1_assemble degraded accept_or
  raidz1_columns members children dva cols =
      let colbufs = raidz1_read_columns members children cols dva.vdev in
      accept_or dva (raidz1_assemble cols colbufs psize none) (degraded dva cols colbufs cols 0)

  -- What follows the column map.
  unfoldable pub mapped :
      List PoolMember → List (Option ℕ) → Dva → Outcome (List RaidzCol) → Attempt
  unfolding raidz1_columns
  mapped members children dva (ok cols) = raidz1_columns members children dva cols
  mapped members children dva (err e) = failed e
  mapped members children dva panic = found panic

  unfoldable pub raidz1_copy : List PoolMember → List (Option ℕ) → ℕ → Dva → Attempt
  unfolding raidz_map mapped
  raidz1_copy members children ashift dva =
      mapped members children dva (raidz_map dva ashift (length children) 1 psize)

  -- The loop over the DVA copies.
  unfoldable pub raidz1_loop :
      List PoolMember → List (Option ℕ) → ℕ → Error → List Dva → Outcome (List ℕ)
  unfolding raidz1_copy or_else
  raidz1_loop members children ashift last [] = err last
  raidz1_loop members children ashift last (dva ∷ dvas) =
      or_else (raidz1_copy members children ashift dva)
        λ e. raidz1_loop members children ashift e dvas

  unfoldable pub raidz1_read : List PoolMember → List (Option ℕ) → ℕ → Outcome (List ℕ)
  unfolding raidz1_loop flatten
  raidz1_read members children ashift =
      raidz1_loop members children ashift (inconsistent "raidz_no_copy" (Location.vdev 0))
        (flatten r.dvas)
