-- ===== src/Vdev/Geometry.antt =====
-- The RAID-Z1 column map of src/vdev.rs: the data columns hold the whole block and no full sector
-- more, each column lies on a device of its own, and the first column is the parity.
pub mod Sums
use lamzfs.Common.{
  ℕ, zero, suc, ◌+◌, ◌-◌, ◌*◌, ◌/◌, ◌%◌, ◌^◌, ◌≤◌, ◌<◌, ◌≡◌, ◌↔◌, ◌≢◌, refl, ap, sym, ◌∙◌, min,
  Option, none, some, Bool, true, false, ◌||◌, List, [], ◌∷◌, arith, leb, ltb, ◌==◌, if◌then◌else◌,
  length, get_elem?, All, Bool-cases, inl, inr, ◌⊎◌,
}
use native.Mathlib.Nat.{one-le-pow, div-add-mod, div-add-mod', mod-lt}
use lamzfs.Outcome.{Outcome, ok, err, panic, ◌>>=◌, ◌>>◌, refuse_if, >>-eq-ok, refuse_if-eq-ok}
use lamzfs.Phys.{Dva}
use lamzfs.Vdev.Tree.{ashift_max}
use lamzfs.Vdev.Raidz.{RaidzCol, raidz_geom, raidz_col, raidz_cols, raidz_map}
use Sums.{
  data_bytes, data_bytes-raidz_cols, parity_first, length-raidz_cols, get_elem?-raidz_cols,
  raidz_cols_at, sectors_cover, rows_and_rest,
}

-- The counts that `raidz_map` computes for `s` data sectors over `dcols` columns.
abbrev pub rows : ℕ → ℕ → ℕ
rows dcols s = s / (dcols - 1)

abbrev pub rest : ℕ → ℕ → ℕ
rest dcols s = s - s / (dcols - 1) * (dcols - 1)

abbrev pub longer : ℕ → ℕ → ℕ
longer dcols s = if rest dcols s == 0 then 0 else rest dcols s + 1

abbrev pub columns : ℕ → ℕ → ℕ
columns dcols s = if rows dcols s == 0 then longer dcols s else dcols

abbrev pub map_columns : ℕ → ℕ → ℕ → ℕ → ℕ → List RaidzCol
map_columns dcols ss f o s =
    raidz_cols (raidz_col dcols 1 ss f o (rows dcols s) (longer dcols s)) (columns dcols s) 0

rest_lt :
    (dcols s : ℕ)
    → 1 < dcols
    → (rest dcols s < dcols - 1) × (s ≡ rows dcols s * (dcols - 1) + rest dcols s)
rest_lt dcols s h =
    let a : s / (dcols - 1) * (dcols - 1) + s % (dcols - 1) ≡ s = div-add-mod' s (dcols - 1) in
    let b : s % (dcols - 1) < dcols - 1 = mod-lt s (omega arith) in (omega arith, omega arith)

-- There is a parity column and a data column, and no more than `dcols` columns.
columns_bounds :
    (dcols s : ℕ) → 1 < dcols → 0 < s → (2 ≤ columns dcols s) × (columns dcols s ≤ dcols)
columns_bounds dcols s h k = (ground (arith, rest_lt dcols s), ground (arith, rest_lt dcols s))

data_columns :
    (dcols s : ℕ)
    → 1 < dcols
    → 0 < s
    → (rest dcols s ≡ min (columns dcols s - 1) (longer dcols s - 1))
      × ((rows dcols s ≡ 0) ⊎ (columns dcols s - 1 ≡ dcols - 1))
      × (columns dcols s ≡ suc (columns dcols s - 1))
data_columns dcols s h k = (
  ground (arith, rest_lt dcols s),
  ground (arith, rest_lt dcols s),
  omega (arith, columns_bounds dcols s h k),
)

total_sectors :
    (dcols s ss a : ℕ)
    → 1 < dcols
    → (rows dcols s ≡ 0) ⊎ (a ≡ dcols - 1)
    → a * (rows dcols s * ss) + rest dcols s * ss ≡ s * ss
total_sectors dcols s ss a h (inl e) =
    let r : s - 0 * (dcols - 1) ≡ s = omega arith in rw (e, r) (omega arith)
total_sectors dcols s ss a h (inr e) =
    rw e (rows_and_rest (dcols - 1) (rows dcols s) (rest dcols s) s ss (rest_lt dcols s h).1)

data_bytes-map_columns :
    (dcols ss f o s : ℕ) → 1 < dcols → 0 < s → data_bytes (map_columns dcols ss f o s) ≡ s * ss
data_bytes-map_columns dcols ss f o s h k =
    let (r, c, e) = data_columns dcols s h k in
    rw e (
      parity_first dcols ss f o (rows dcols s) (longer dcols s) (columns dcols s - 1)
      ∙ data_bytes-raidz_cols dcols ss f o (rows dcols s) (longer dcols s) (columns dcols s - 1) 1
          (rest dcols s) (omega arith) r
      ∙ total_sectors dcols s ss (columns dcols s - 1) h c)

-- What a column map that was accepted is.
pub map_of_ok :
    (dva : Dva) (ashift dcols psize : ℕ) {cols : List RaidzCol}
    → raidz_map dva ashift dcols 1 psize ≡ ok cols
    → (1 < dcols)
      × (9 ≤ ashift)
      × (ashift ≤ 16)
      × (0 < (psize + 2 ^ ashift - 1) / 2 ^ ashift)
      × (cols
          ≡ map_columns dcols
              (2 ^ ashift)
              (dva.offset / 2 ^ (ashift - 9) % dcols)
              (dva.offset / 2 ^ (ashift - 9) / dcols * 2 ^ ashift % 2 ^ 64)
              ((psize + 2 ^ ashift - 1) / 2 ^ ashift))
unfolding raidz_map
map_of_ok dva ashift dcols psize h = ground arith

-- A row map for `psize` bytes in sectors of `ss` bytes over `dcols` devices.
pub record IsRowMap (dcols ss psize : ℕ) (cols : List RaidzCol) : Type 0 where
  pub covers : psize ≤ data_bytes cols
  pub tight : data_bytes cols < psize + ss
  pub has_data : 2 ≤ length cols
  pub width : length cols ≤ dcols
  pub on_device : (i : ℕ) (x : RaidzCol) → get_elem? cols i ≡ some x → x.devidx < dcols
  pub own_device :
      (i j : ℕ) (x y : RaidzCol)
      → get_elem? cols i ≡ some x
      → get_elem? cols j ≡ some y
      → x.devidx ≡ y.devidx
      → i ≡ j
  pub one_parity : (i : ℕ) (x : RaidzCol) → get_elem? cols i ≡ some x → x.parity ≡ (i == 0)
  pub longest_parity :
      (i : ℕ) (x p : RaidzCol)
      → get_elem? cols i ≡ some x
      → get_elem? cols 0 ≡ some p
      → x.size ≤ p.size

map_at :
    (dcols ss f o s i : ℕ) {x : RaidzCol}
    → get_elem? (map_columns dcols ss f o s) i ≡ some x
    → (i < columns dcols s) × (x ≡ raidz_col dcols 1 ss f o (rows dcols s) (longer dcols s) i)
map_at dcols ss f o s i h =
    raidz_cols_at dcols ss f o (rows dcols s) (longer dcols s) (columns dcols s) i h

device_bound :
    (dcols ss f o q bc i : ℕ)
    → f < dcols
    → i < dcols
    → (raidz_col dcols 1 ss f o q bc i).devidx < dcols
unfolding raidz_col
device_bound dcols ss f o q bc i h k = ground arith

device_injective :
    (dcols ss f o q bc i j : ℕ)
    → f < dcols
    → i < dcols
    → j < dcols
    → (raidz_col dcols 1 ss f o q bc i).devidx ≡ (raidz_col dcols 1 ss f o q bc j).devidx
    → i ≡ j
unfolding raidz_col
device_injective dcols ss f o q bc i j h k l e = ground arith

parity_is_first : (dcols ss f o q bc i : ℕ) → (raidz_col dcols 1 ss f o q bc i).parity ≡ (i == 0)
unfolding raidz_col
parity_is_first dcols ss f o q bc i = ground arith

first_longest :
    (dcols ss f o q bc i : ℕ)
    → (raidz_col dcols 1 ss f o q bc i).size ≤ (raidz_col dcols 1 ss f o q bc 0).size
unfolding raidz_col
first_longest dcols ss f o q bc i = ground arith

module _ (dcols ss f o s : ℕ) (wide : 1 < dcols) (start : f < dcols) (some_data : 0 < s) where
  col_at : ℕ → RaidzCol
  col_at i = raidz_col dcols 1 ss f o (rows dcols s) (longer dcols s) i

  map_columns-IsRowMap :
      (psize : ℕ)
      → psize ≤ s * ss
      → s * ss < psize + ss
      → IsRowMap dcols ss psize (map_columns dcols ss f o s)
  map_columns-IsRowMap psize low high =
      let total = data_bytes-map_columns dcols ss f o s wide some_data in
      let (many, few) = columns_bounds dcols s wide some_data in
      let len =
        length-raidz_cols dcols ss f o (rows dcols s) (longer dcols s) (columns dcols s) 0 in
      record {
        covers = omega (arith, total);
        tight = omega (arith, total);
        has_data = rw len many;
        width = rw len few;
        on_device = λ i x h.
            let (below, e) = map_at dcols ss f o s i h in
            rw e (device_bound dcols ss f o (rows dcols s) (longer dcols s) i start (omega arith));
        own_device = λ i j x y h k e.
            let (below_i, e_i) = map_at dcols ss f o s i h in
            let (below_j, e_j) = map_at dcols ss f o s j k in
            device_injective dcols ss f o (rows dcols s) (longer dcols s) i j start (omega arith)
              (omega arith) (cc);
        one_parity = λ i x h.
            let (below, e) = map_at dcols ss f o s i h in
            rw e (parity_is_first dcols ss f o (rows dcols s) (longer dcols s) i);
        longest_parity = λ i x p h k.
            let (below, e) = map_at dcols ss f o s i h in
            let (below_0, e_0) = map_at dcols ss f o s 0 k in
            rw (e, e_0) (first_longest dcols ss f o (rows dcols s) (longer dcols s) i);
      }

-- A column map of `raidz_map` with one parity column: its data columns hold the block with less
-- than a sector to spare, no two columns lie on one device, and column 0 alone is the parity, at
-- least as long as every other.
pub raidz_map-IsRowMap :
    (dva : Dva) (ashift dcols psize : ℕ) (cols : List RaidzCol)
    → raidz_map dva ashift dcols 1 psize ≡ ok cols
    → IsRowMap dcols (2 ^ ashift) psize cols
raidz_map-IsRowMap dva ashift dcols psize cols h =
    let (wide, _, _, some_data, e) = map_of_ok dva ashift dcols psize h in
    let (low, high) = sectors_cover psize (2 ^ ashift) (one-le-pow ashift 2 (omega arith)) in
    rw e (
      map_columns-IsRowMap dcols (2 ^ ashift) (dva.offset / 2 ^ (ashift - 9) % dcols)
        (dva.offset / 2 ^ (ashift - 9) / dcols * 2 ^ ashift % 2 ^ 64)
        ((psize + 2 ^ ashift - 1) / 2 ^ ashift) wide
        (mod-lt (dva.offset / 2 ^ (ashift - 9)) (omega arith)) some_data psize low high)
