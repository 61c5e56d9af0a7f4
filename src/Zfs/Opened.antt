-- ===== src/Zfs/Opened.antt =====
-- `read` and `stat` of src/lib.rs open the same file, with the same errors.
use lamzfs.Common.{
  ℕ, ◌≡◌, refl, ◌∙◌, sym, ap, inl, inr, true, not, List, ◌∷◌, if◌then◌else◌, Bool-cases,
}
use lamzfs.Error.{Error, not_a_regular_file}
use lamzfs.Outcome.{
  Outcome, ok, err, panic, refuse_if, ◌>>=◌, ◌>>◌, >>=-eq-ok, >>=-of-ok, >>=-ext, >>=-assoc,
}
use lamzfs.Phys.{EndianOrder, Dnode}
use lamzfs.Vendored.{Vendored}
use lamzfs.Walk.{ObjectDnode, read_object}
use lamzfs.Dataset.{Dataset, sa_file_size, resolve_path}
use lamzfs.Zfs.{
  Zfs, Stat, EntryKind, regular, dirent_kind, is_regular, open_path, stat_path, stat, object_size,
  regular_file, read_capped, read,
}

-- The `stat` of a file that is read.
abbrev pub file_stat : Dnode × ℕ → Stat
file_stat found = record { kind = regular; size = found.1 }

-- What a read makes of a `stat`.
abbrev pub only_files : Stat → Outcome Stat
only_files st = if is_regular st.kind then ok st else err not_a_regular_file

-- The size of an object, with its dnode and as a `stat`.
sized :
    (order : EndianOrder) (o : Outcome ObjectDnode)
    → ((o >>= λ object. sa_file_size order object.bonus >>= λ size. ok (object.dnode, size))
        >>= λ found. ok (file_stat found))
      ≡ ((o >>= λ object. sa_file_size order object.bonus) >>= λ size.
          ok (record { kind = regular; size = size }))
sized order panic = refl
sized order (err e) = refl
sized order (ok object) = of_size (sa_file_size order object.bonus)
  where
    of_size :
        (size : Outcome ℕ)
        → ((size >>= λ n. ok (object.dnode, n)) >>= λ found. ok (file_stat found))
          ≡ (size >>= λ n. ok (record { kind = regular; size = n }))
    of_size panic = refl
    of_size (err e) = refl
    of_size (ok n) = refl

-- The guard on the kind, before the read of the object and after it.
guarded :
    (order : EndianOrder) (o : Outcome ObjectDnode) (k : EntryKind)
    → ((refuse_if (not (is_regular k)) not_a_regular_file
          >> (o >>= λ object. sa_file_size order object.bonus >>= λ size. ok (object.dnode, size)))
        >>= λ found. ok (file_stat found))
      ≡ (((if is_regular k then o >>= (λ object. sa_file_size order object.bonus) else ok 0)
            >>= λ size. ok (record { kind = k; size = size }))
          >>= only_files)
unfolding is_regular
guarded order o regular = sized order o ∙ passed (o >>= λ object. sa_file_size order object.bonus)
  where
    passed :
        (size : Outcome ℕ)
        → (size >>= λ n. ok (record { kind = regular; size = n }))
          ≡ ((size >>= λ n. ok (record { kind = regular; size = n })) >>= only_files)
    passed panic = refl
    passed (err e) = refl
    passed (ok n) = refl
guarded order o EntryKind.directory = refl
guarded order o EntryKind.symlink = refl
guarded order o EntryKind.other = refl

-- An error before the last of three calls is the error of the chain, whatever the last one is.
carried_on :
    {S T U W : Type 0} (m : Outcome S) (f : S → Outcome T) (k : T → U) (last : T → Outcome W)
    (e : Error)
    → (m >>= λ s. f s >>= λ t. ok (k t)) ≡ err e
    → (m >>= λ s. f s >>= last) ≡ err e
carried_on panic f k last e h = absurd (cc)
carried_on (err e') f k last e h = cc
carried_on {T = T} {U = U} {W = W} (ok s) f k last e h = inner (f s) h
  where
    inner : (o : Outcome T) → (o >>= λ t. ok (k t)) ≡ err e → (o >>= last) ≡ err e
    inner panic g = absurd (cc)
    inner (err e') g = cc
    inner (ok t) g = absurd (cc)

pub panicked_on :
    {S T U W : Type 0} (m : Outcome S) (f : S → Outcome T) (k : T → U) (last : T → Outcome W)
    → (m >>= λ s. f s >>= λ t. ok (k t)) ≡ panic
    → (m >>= λ s. f s >>= last) ≡ panic
panicked_on panic f k last h = refl
panicked_on (err e) f k last h = absurd (cc)
panicked_on {T = T} {U = U} {W = W} (ok s) f k last h = inner (f s) h
  where
    inner : (o : Outcome T) → (o >>= λ t. ok (k t)) ≡ panic → (o >>= last) ≡ panic
    inner panic g = refl
    inner (err e) g = absurd (cc)
    inner (ok t) g = absurd (cc)

module _ (v : Vendored) (z : Zfs) (comp : List ℕ) (comps : List (List ℕ)) where
  -- The file that a read opens is the one that `stat` sees, with the same errors.
  regular_file-stat_path :
      (ds : Dataset)
      → (regular_file v z ds (comp ∷ comps) >>= λ found. ok (file_stat found))
        ≡ (stat_path v z ds (comp ∷ comps) >>= only_files)
  unfolding regular_file stat_path object_size
  regular_file-stat_path ds =
      >>=-assoc (resolve_path v z.members z.pool.topology z.pool.order ds (comp ∷ comps)) _ _
      ∙ >>=-ext (resolve_path v z.members z.pool.topology z.pool.order ds (comp ∷ comps)) _ _
          (λ found.
            guarded z.pool.order
              (read_object v z.members z.pool.topology z.pool.order ds.meta_dnode found.0)
              (dirent_kind found.1))
      ∙ sym
          (>>=-assoc (resolve_path v z.members z.pool.topology z.pool.order ds (comp ∷ comps)) _ _)

  abbrev pub path : List (List ℕ)
  path = comp ∷ comps

  -- What `stat` says of the file that a read opens, or the error that both meet.
  pub opened-stat :
      (dataset_path : List (List ℕ))
      → (open_path v z dataset_path >>= λ ds.
          regular_file v z ds path >>= λ found. ok (file_stat found))
        ≡ (stat v z dataset_path path >>= only_files)
  unfolding stat
  opened-stat dataset_path =
      >>=-ext (open_path v z dataset_path) _ _ (λ ds. regular_file-stat_path ds)
      ∙ sym (>>=-assoc (open_path v z dataset_path) (λ ds. stat_path v z ds path) only_files)

  -- A read fails as the `stat` of its file does.
  pub read-failed :
      (dataset_path : List (List ℕ)) (e : Error)
      → (stat v z dataset_path path >>= only_files) ≡ err e
      → read v z dataset_path path ≡ err e
  unfolding read
  read-failed dataset_path e h =
      carried_on (open_path v z dataset_path) (λ ds. regular_file v z ds path) file_stat
        (λ found. read_capped v z found.0 0 found.1) e (opened-stat dataset_path ∙ h)

  -- A file that `stat` sees is opened with its size.
  pub read-opened :
      (dataset_path : List (List ℕ)) (st : Stat)
      → (stat v z dataset_path path >>= only_files) ≡ ok st
      → (dnode : Dnode) × (read v z dataset_path path ≡ read_capped v z dnode 0 st.size)
  unfolding read
  read-opened dataset_path st h =
      let (ds, o, g) =
        >>=-eq-ok (open_path v z dataset_path)
          (λ d. regular_file v z d path >>= λ found. ok (file_stat found))
          (opened-stat dataset_path ∙ h) in
      let (found, f, same) =
        >>=-eq-ok (regular_file v z ds path) (λ found. ok (file_stat found)) g in
      let size : found.1 ≡ st.size = ap (λ s. s.size) (let e : file_stat found ≡ st = cc in e) in
      (
        found.0,
        >>=-of-ok (open_path v z dataset_path) _ o
            (>>=-of-ok (regular_file v z ds path) _ f (ap (read_capped v z found.0 0) size)),
      )

  pub only_files-ok :
      (o : Outcome Stat) {st : Stat}
      → (o >>= only_files) ≡ ok st
      → (o ≡ ok st) × (is_regular st.kind ≡ true)
  only_files-ok panic h = absurd (cc)
  only_files-ok (err e) h = absurd (cc)
  only_files-ok (ok st') {st} h = elim (Bool-cases (is_regular st'.kind)) [
    | inl r ↦
        let same : ok st' ≡ ok st = rw r at h in
        let eq : st' ≡ st = cc in (same, ap (λ s. is_regular s.kind) (sym eq) ∙ r)
    | inr r ↦ let bad = rw r at h in absurd (cc)
  ]
