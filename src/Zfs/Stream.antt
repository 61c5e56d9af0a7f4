-- ===== src/Zfs/Stream.antt =====
-- `read_at` of src/lib.rs, window after window.
use lamzfs.Common.{
  ℕ, ◌+◌, ◌-◌, ◌^◌, ◌≤◌, ◌<◌, ◌≡◌, ap, sym, ◌∙◌, min, true, false, List, [], ◌++◌, arith, ltb, leb,
  if◌then◌else◌, length, append-nil, Bool-cases, inl, inr,
}
use lamzfs.Error.{file_too_large}
use lamzfs.Outcome.{Outcome, ok, refuse_if, >>=-eq-ok, >>=-of-ok, ok-injective}
use lamzfs.Phys.{Dnode}
use lamzfs.Vendored.{Vendored}
use lamzfs.File.{read_dnode_range}
use lamzfs.File.Stream.{read_dnode_range-append}
use lamzfs.Zfs.{Zfs, max_file_bytes, open_path, regular_file, read_capped, read_at}
use lamzfs.Zfs.Reads.{read_capped_inv}

module _ (v : Vendored) (z : Zfs) where
  -- A window of an opened file.
  abbrev window : Dnode × ℕ → ℕ → ℕ → Outcome (List ℕ)
  window found offset len =
      if leb found.1 offset
      then ok []
      else read_capped v z found.0 offset (min len (found.1 - offset))

  read_capped-within :
      (dnode : Dnode) (offset want : ℕ) {bs : List ℕ}
      → want ≤ max_file_bytes
      → read_dnode_range v z.members z.pool.topology z.pool.order dnode offset want ≡ ok bs
      → read_capped v z dnode offset want ≡ ok bs
  unfolding read_capped
  read_capped-within dnode offset want small h =
      let low : ltb max_file_bytes want ≡ false = ground arith in
      >>=-of-ok (refuse_if (ltb max_file_bytes want) (file_too_large want max_file_bytes)) _
        (ap (λ b. refuse_if b (file_too_large want max_file_bytes)) low) h

  -- A window behind a full one, both within the file.
  window-append_inside :
      (found : Dnode × ℕ) (offset n m : ℕ) (xs ys : List ℕ)
      → offset + (n + m) ≤ 2 ^ 64
      → n + m ≤ max_file_bytes
      → length xs ≡ n
      → offset + n < found.1
      → read_capped v z found.0 offset (min n (found.1 - offset)) ≡ ok xs
      → read_capped v z found.0 (offset + n) (min m (found.1 - (offset + n))) ≡ ok ys
      → read_capped v z found.0 offset (min (n + m) (found.1 - offset)) ≡ ok (xs ++ ys)
  window-append_inside found offset n m xs ys fits small full inside h g =
      let k = min m (found.1 - (offset + n)) in
      let first : min n (found.1 - offset) ≡ n = omega arith in
      let whole : min (n + m) (found.1 - offset) ≡ n + k = omega arith in
      let (_, r) = read_capped_inv v z found.0 offset (min n (found.1 - offset)) h in
      let (_, s) = read_capped_inv v z found.0 (offset + n) k g in
      ap (read_capped v z found.0 offset) whole
      ∙ read_capped-within found.0 offset (n + k) (omega arith) (
          read_dnode_range-append v z.members z.pool.topology z.pool.order found.0 offset n k xs ys
            (omega arith)
            (sym (
                ap (read_dnode_range v z.members z.pool.topology z.pool.order found.0 offset) first)
              ∙ r)
            s)

  window-append :
      (found : Dnode × ℕ) (offset n m : ℕ) (xs ys : List ℕ)
      → offset + (n + m) ≤ 2 ^ 64
      → n + m ≤ max_file_bytes
      → length xs ≡ n
      → window found offset n ≡ ok xs
      → window found (offset + n) m ≡ ok ys
      → window found offset (n + m) ≡ ok (xs ++ ys)
  window-append found offset n m xs ys fits small full h g =
      elim (Bool-cases (leb found.1 offset)) [
        | inl past ↦
            let none_left : [] ≡ xs = ok-injective (rw past at h) in
            let zero_read : n ≡ 0 = omega (arith, ap length none_left, full) in
            let still : leb found.1 (offset + n) ≡ true = ground arith in
            let none_more : [] ≡ ys = ok-injective (rw still at g) in
            rw past (ap ok (none_more ∙ ap (λ t. t ++ ys) none_left))
        | inr before ↦ elim (Bool-cases (leb found.1 (offset + n))) [
          | inl past ↦
              let none_more : [] ≡ ys = ok-injective (rw past at g) in
              let same : min (n + m) (found.1 - offset) ≡ min n (found.1 - offset) = ground arith in
              rw before (
                ap (read_capped v z found.0 offset) same
                ∙ (rw before at h)
                ∙ ap ok (sym (append-nil xs) ∙ ap (◌++◌ xs) none_more))
          | inr inside ↦ rw before (
              window-append_inside found offset n m xs ys fits small full (ground arith)
                (rw before at h) (rw inside at g))
        ]
      ]

  -- A file is read window after window: if a first `read_at` gives all of the `n` bytes asked for and
  -- the next one, of `m` bytes from there, returns, then one `read_at` of `n + m` bytes gives both,
  -- where that is within the cap and ends below 2^64.
  pub read_at-append :
      (dataset_path file_path : List (List ℕ)) (offset n m : ℕ) (xs ys : List ℕ)
      → offset + (n + m) ≤ 2 ^ 64
      → n + m ≤ max_file_bytes
      → length xs ≡ n
      → read_at v z dataset_path file_path offset n ≡ ok xs
      → read_at v z dataset_path file_path (offset + n) m ≡ ok ys
      → read_at v z dataset_path file_path offset (n + m) ≡ ok (xs ++ ys)
  unfolding read_at
  read_at-append dataset_path file_path offset n m xs ys fits small full h g =
      let (ds, o, h₁) = >>=-eq-ok (open_path v z dataset_path) _ h in
      let (found, f, h₂) = >>=-eq-ok (regular_file v z ds file_path) _ h₁ in
      let (ds', o', g₁) = >>=-eq-ok (open_path v z dataset_path) _ g in
      let (found', f', g₂) = >>=-eq-ok (regular_file v z ds' file_path) _ g₁ in
      let one : ds' ≡ ds = ok-injective (sym o' ∙ o) in
      let same : found' ≡ found =
        ok-injective (sym f' ∙ ap (λ d. regular_file v z d file_path) one ∙ f) in
      >>=-of-ok (open_path v z dataset_path) _ o (
        >>=-of-ok (regular_file v z ds file_path) _ f (
          window-append found offset n m xs ys fits small full h₂
            (sym (ap (λ w. window w (offset + n) m) same) ∙ g₂)))
