-- ===== src/Vdev/Geometry/Sums.antt =====
-- Sums over the columns that `raidz_cols` of src/vdev.rs lists.
use lamzfs.Common.{
  ℕ, zero, suc, ◌+◌, ◌-◌, ◌*◌, ◌/◌, ◌%◌, ◌≤◌, ◌<◌, ◌≡◌, refl, ap, sym, ◌∙◌, min, some, List, [],
  ◌∷◌, arith, if◌then◌else◌, length, get_elem?,
}
use mathlib.Core.Option.{some-injective}
use native.Mathlib.Nat.{div-add-mod, mod-lt}
use lamzfs.Vdev.Raidz.{RaidzCol, raidz_col, raidz_cols}

-- The bytes that the data columns hold together.
unfoldable pub data_bytes : List RaidzCol → ℕ
data_bytes [] = 0
data_bytes (col ∷ cols) = if col.parity then data_bytes cols else col.size + data_bytes cols

module _ (dcols ss f o q bc : ℕ) where
  abbrev pub column : ℕ → RaidzCol
  column = raidz_col dcols 1 ss f o q bc

  pub length-raidz_cols : (n c : ℕ) → length (raidz_cols column n c) ≡ n
  unfolding raidz_cols
  length-raidz_cols zero c = refl
  length-raidz_cols (suc n) c = ap suc (length-raidz_cols n (c + 1))

  pub get_elem?-raidz_cols :
      (n c i : ℕ) → i < n → get_elem? (raidz_cols column n c) i ≡ some (column (c + i))
  unfolding raidz_cols
  get_elem?-raidz_cols zero c i h = absurd (omega arith)
  get_elem?-raidz_cols (suc n) c zero h = ap (λ k. some (column k)) (omega arith)
  get_elem?-raidz_cols (suc n) c (suc i) h =
      get_elem?-raidz_cols n (c + 1) i (omega arith) ∙ ap (λ k. some (column k)) (omega arith)

  raidz_cols_from :
      (n c i : ℕ) {x : RaidzCol}
      → get_elem? (raidz_cols column n c) i ≡ some x
      → (i < n) × (x ≡ column (c + i))
  unfolding raidz_cols
  raidz_cols_from zero c i h = absurd (cc)
  raidz_cols_from (suc n) c zero h =
      (omega arith, sym (some-injective _ _ h) ∙ ap (λ k. column k) (omega arith))
  raidz_cols_from (suc n) c (suc i) h =
      let (below, e) = raidz_cols_from n (c + 1) i h in
      (omega arith, e ∙ ap (λ k. column k) (omega arith))

  pub raidz_cols_at :
      (n i : ℕ) {x : RaidzCol}
      → get_elem? (raidz_cols column n 0) i ≡ some x
      → (i < n) × (x ≡ column i)
  raidz_cols_at n i h =
      let (below, e) = raidz_cols_from n 0 i h in (below, e ∙ ap (λ k. column k) (omega arith))

  -- Past the parity column: `n` columns from number `c` hold `q` sectors each, and those below `bc`
  -- one more.
  pub data_bytes-raidz_cols :
      (n c k : ℕ)
      → 1 ≤ c
      → k ≡ min n (bc - c)
      → data_bytes (raidz_cols column n c) ≡ n * (q * ss) + k * ss
  unfolding raidz_cols raidz_col data_bytes
  data_bytes-raidz_cols zero c zero h e = omega arith
  data_bytes-raidz_cols zero c (suc k) h e = absurd (omega arith)
  data_bytes-raidz_cols (suc n) c zero h e = ground (arith, data_bytes-raidz_cols n (c + 1) zero)
  data_bytes-raidz_cols (suc n) c (suc k) h e = ground (arith, data_bytes-raidz_cols n (c + 1) k)

  pub parity_first :
      (n : ℕ) → data_bytes (raidz_cols column (suc n) 0) ≡ data_bytes (raidz_cols column n 1)
  unfolding raidz_cols raidz_col data_bytes
  parity_first n = refl

-- Rounding up to whole sectors.
pub sectors_cover :
    (p ss : ℕ) → 0 < ss → (p ≤ (p + ss - 1) / ss * ss) × ((p + ss - 1) / ss * ss < p + ss)
sectors_cover p ss h =
    let a : (p + ss - 1) / ss * ss + (p + ss - 1) % ss ≡ p + ss - 1 = grind (arith, div-add-mod) in
    let b : (p + ss - 1) % ss < ss = grind (arith, mod-lt) in (omega arith, omega arith)

pub rows_and_rest : (d q r s ss : ℕ) → s ≡ q * d + r → d * (q * ss) + r * ss ≡ s * ss
rows_and_rest d q r s ss h = omega (arith, ap (λ (t : ℕ). t * ss) h)
