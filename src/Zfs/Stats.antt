-- ===== src/Zfs/Stats.antt =====
-- `stat` and `read` of src/lib.rs beside one another, on every branch of `stat`.
use lamzfs.Common.{
  ℕ, ◌≡◌, refl, ◌∙◌, sym, ap, inl, inr, Bool, true, false, List, ◌∷◌, ltb, length, Bool-cases,
}
use lamzfs.Error.{not_a_regular_file, file_too_large}
use lamzfs.Outcome.{Outcome, ok, err, panic, ◌>>=◌, >>=-of-ok, IfOk, IfOk-intro, ok-injective}
use lamzfs.Vendored.{Vendored}
use lamzfs.Zfs.{
  Zfs, Stat, regular, max_file_bytes, is_regular, open_path, stat, regular_file, read_capped, read,
}
use lamzfs.Zfs.Reads.{read_inv, read_capped-length}
use lamzfs.Zfs.Opened.{
  file_stat, only_files, panicked_on, opened-stat, read-failed, read-opened, only_files-ok,
}

-- What `read` gives of an object of a kind and a size: of another kind than a regular file, and of
-- a file above the cap, a refusal; of a file within it, that many bytes if it returns.
abbrev pub AgreesFile : Bool → Bool → ℕ → Outcome (List ℕ) → Type 0
AgreesFile false large size o = o ≡ err not_a_regular_file
AgreesFile true true size o = o ≡ err (file_too_large size max_file_bytes)
AgreesFile true false size o = IfOk (λ bs. length bs ≡ size) o

-- What `read` gives where `stat` of the path gives the first.
abbrev pub Agrees : Outcome Stat → Outcome (List ℕ) → Type 0
Agrees panic o = o ≡ panic
Agrees (err e) o = o ≡ err e
Agrees (ok st) o = AgreesFile (is_regular st.kind) (ltb max_file_bytes st.size) st.size o

module _ (v : Vendored) (z : Zfs) (comp : List ℕ) (comps : List (List ℕ)) where
  abbrev path : List (List ℕ)
  path = comp ∷ comps

  stat-read_size :
      (dataset_path : List (List ℕ)) (bs : List ℕ)
      → read v z dataset_path path ≡ ok bs
      → stat v z dataset_path path ≡ ok (record { kind = regular; size = length bs })
  stat-read_size dataset_path bs h =
      let (ds, found, o, f, c) = read_inv v z dataset_path path h in
      let sz : found.1 ≡ length bs = sym (read_capped-length v z found.0 found.1 c) in
      let g : (stat v z dataset_path path >>= only_files) ≡ ok (file_stat found) =
        sym (opened-stat v z comp comps dataset_path)
        ∙ >>=-of-ok (open_path v z dataset_path) _ o
            (>>=-of-ok (regular_file v z ds path) _ f refl) in
      (only_files-ok v z comp comps (stat v z dataset_path path) g).0
      ∙ ap (λ n. ok (record { kind = regular; size = n })) sz

  read-panicked :
      (dataset_path : List (List ℕ))
      → stat v z dataset_path path ≡ panic
      → read v z dataset_path path ≡ panic
  unfolding read
  read-panicked dataset_path h =
      panicked_on (open_path v z dataset_path) (λ ds. regular_file v z ds path) file_stat
        (λ found. read_capped v z found.0 0 found.1)
        (opened-stat v z comp comps dataset_path ∙ ap (λ o. o >>= only_files) h)

  read-other :
      (dataset_path : List (List ℕ)) (st : Stat)
      → stat v z dataset_path path ≡ ok st
      → AgreesFile
          (is_regular st.kind)
          (ltb max_file_bytes st.size)
          st.size
          (read v z dataset_path path)
  unfolding read_capped
  read-other dataset_path st h = elim (Bool-cases (is_regular st.kind)) [
    | inr k ↦ rw k (
        read-failed v z comp comps dataset_path not_a_regular_file
          (ap (λ o. o >>= only_files) h ∙ rw k refl))
    | inl k ↦ elim (Bool-cases (ltb max_file_bytes st.size)) [
      | inl over ↦
          let (dnode, r) =
            read-opened v z comp comps dataset_path st (ap (λ o. o >>= only_files) h ∙ rw k refl) in
          rw (k, over) (r ∙ rw over refl)
      | inr small ↦
          rw (k, small)
            (IfOk-intro (λ bs. length bs ≡ st.size) (read v z dataset_path path)
              (λ bs g.
                ap (λ s. s.size) (ok-injective (sym (stat-read_size dataset_path bs g) ∙ h))))
    ]
  ]

  -- `read` beside `stat`, for a path that is not empty: where `stat` fails, `read` fails with the
  -- same error; where it gives another kind than a regular file, `read` refuses that; a file whose
  -- size is above the cap is refused with its size; and what is read of any other file is as long as
  -- `stat` says.
  pub read-stat :
      (dataset_path : List (List ℕ))
      → Agrees (stat v z dataset_path path) (read v z dataset_path path)
  read-stat dataset_path = of (stat v z dataset_path path) refl
    where
      of :
          (o : Outcome Stat)
          → stat v z dataset_path path ≡ o
          → Agrees o (read v z dataset_path path)
      of (ok st) h = read-other dataset_path st h
      of (err e) h = read-failed v z comp comps dataset_path e (ap (λ o. o >>= only_files) h)
      of panic h = read-panicked dataset_path h
