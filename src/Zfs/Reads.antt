-- ===== src/Zfs/Reads.antt =====
-- `read` and `read_at` of src/lib.rs: their sizes, and that a window is a part of the whole file.
use lamzfs.Common.{
  ℕ, zero, suc, ◌+◌, ◌-◌, ◌≤◌, ◌≡◌, refl, ap, sym, ◌∙◌, min, false, List, [], arith, ltb, leb,
  if◌then◌else◌, length, take, drop, length-drop, drop_past, take_clip, Bool-cases, inl, inr,
}
use lamzfs.Error.{file_too_large}
use lamzfs.Outcome.{ok, refuse_if, >>=-eq-ok, >>=-of-ok, >>-eq-ok, refuse_if-eq-ok}
use lamzfs.Phys.{Dnode}
use lamzfs.Vendored.{Vendored}
use lamzfs.File.{read_dnode_range}
use lamzfs.File.Range.{read_dnode_range-bytes}
use lamzfs.File.Total.{read_dnode_range-slice}
use lamzfs.Dataset.{Dataset}
use lamzfs.Zfs.{Zfs, max_file_bytes, open_path, regular_file, read_capped, read, read_at}

take-nil : (n : ℕ) → take {A = ℕ} n [] ≡ []
take-nil zero = refl
take-nil (suc n) = refl

module _ (v : Vendored) (z : Zfs) where
  -- A read within the cap.
  pub read_capped_inv :
      (dnode : Dnode) (offset want : ℕ) {bs : List ℕ}
      → read_capped v z dnode offset want ≡ ok bs
      → (want ≤ max_file_bytes)
        × (read_dnode_range v z.members z.pool.topology z.pool.order dnode offset want ≡ ok bs)
  unfolding read_capped
  read_capped_inv dnode offset want h =
      let (c, g) =
        >>-eq-ok (refuse_if (ltb max_file_bytes want) (file_too_large want max_file_bytes)) _ h in
      let small =
        refuse_if-eq-ok (ltb max_file_bytes want) (file_too_large want max_file_bytes) c in
      (ground arith, g)

  -- What `read` returns comes from the file's dnode, as long as its size says.
  pub read_inv :
      (dataset_path file_path : List (List ℕ)) {bs : List ℕ}
      → read v z dataset_path file_path ≡ ok bs
      → (ds : Dataset) × (found : Dnode × ℕ) × (open_path v z dataset_path ≡ ok ds)
        × (regular_file v z ds file_path ≡ ok found)
        × (read_capped v z found.0 0 found.1 ≡ ok bs)
  unfolding read
  read_inv dataset_path file_path h =
      let (ds, e, g) = >>=-eq-ok (open_path v z dataset_path) _ h in
      let (found, e', g') = >>=-eq-ok (regular_file v z ds file_path) _ g in (ds, found, e, e', g')

  read_capped-window :
      (dnode : Dnode) (size offset n : ℕ) {bs : List ℕ}
      → read_capped v z dnode 0 size ≡ ok bs
      → offset + n ≤ size
      → read_capped v z dnode offset n ≡ ok (take n (drop offset bs))
  unfolding read_capped
  read_capped-window dnode size offset n {bs} h fits =
      let (small, r) = read_capped_inv dnode 0 size h in
      let low : ltb max_file_bytes n ≡ false = ground arith in
      let part =
        read_dnode_range-slice v z.members z.pool.topology z.pool.order dnode 0 size offset n bs
          (omega arith) fits r in
      let z' : 0 + offset ≡ offset = omega arith in rw low (rw z' at part)

  pub read_capped-length :
      (dnode : Dnode) (size : ℕ) {bs : List ℕ}
      → read_capped v z dnode 0 size ≡ ok bs
      → length bs ≡ size
  read_capped-length dnode size {bs} h =
      let (_, r) = read_capped_inv dnode 0 size h in
      (read_dnode_range-bytes v z.members z.pool.topology z.pool.order dnode 0 size bs r).0

  -- The window of `read_at`, for a file that `read_capped` reads whole.
  window_of_whole :
      (dnode : Dnode) (size offset len : ℕ) (bs : List ℕ)
      → read_capped v z dnode 0 size ≡ ok bs
      → (if leb size offset then ok [] else read_capped v z dnode offset (min len (size - offset)))
        ≡ ok (take len (drop offset bs))
  window_of_whole dnode size offset len bs h =
      let l = read_capped-length dnode size h in
      elim (Bool-cases (leb size offset)) [
        | inl e ↦
            let gone : drop offset bs ≡ [] = drop_past offset bs (ground arith) in
            rw (e, gone) (ap ok (sym (take-nil len)))
        | inr e ↦
            let clip : take (min len (size - offset)) (drop offset bs) ≡ take len (drop offset bs) =
              take_clip len (size - offset) (drop offset bs)
                (omega (arith, length-drop offset bs)) in
            rw e (
              read_capped-window dnode size offset (min len (size - offset)) h (ground arith)
              ∙ ap ok clip)
      ]

  -- Where `read` returns a file, `read_at` returns the window of it that was asked for: the bytes
  -- from `offset` on, at most `len` of them, and none past the end.
  pub read_at-read :
      (dataset_path file_path : List (List ℕ)) (offset len : ℕ) (bs : List ℕ)
      → read v z dataset_path file_path ≡ ok bs
      → read_at v z dataset_path file_path offset len ≡ ok (take len (drop offset bs))
  unfolding read_at
  read_at-read dataset_path file_path offset len bs h =
      let (ds, found, e, e', r) = read_inv dataset_path file_path h in
      >>=-of-ok (open_path v z dataset_path) _ e (
        >>=-of-ok (regular_file v z ds file_path) _ e'
          (window_of_whole found.0 found.1 offset len bs r))
