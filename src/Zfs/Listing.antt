-- ===== src/Zfs/Listing.antt =====
-- `read_dir`, `stat` and `exists` of src/lib.rs beside one another: what a listing says of the paths
-- under the directory.
use mathlib.Core.Path.{subst}
use lamzfs.Common.{
  ℕ, ◌≡◌, refl, ◌∙◌, sym, ap, inl, inr, none, false, List, [], ◌∷◌, ◌++◌, InList, ◌⊎◌,
  if◌then◌else◌, Option-cases,
}
use lamzfs.Error.{not_found}
use lamzfs.Outcome.{Outcome, ok, ok_or, ◌>>=◌, >>=-eq-ok, >>=-of-ok, IfOk, IfOk-intro, ok-injective}
use lamzfs.Vendored.{Vendored}
use lamzfs.Walk.{find_name}
use lamzfs.Walk.Names.{names_of, find_name-named, find_name-none}
use lamzfs.Dataset.{Dataset, dirent_obj}
use lamzfs.Zfs.{
  Zfs, DirEntry, Stat, dirent_kind, is_regular, to_dir_entry, open_path, read_dir, object_size,
  stat_path, stat, found_or_missing, exists,
}
use lamzfs.Zfs.Targets.{entry_names, entry_names-map, resolve, read_dir_inv, resolved-listed}

-- An entry of the listing has the name and the kind.
abbrev pub HasKind : List DirEntry → List ℕ → Stat → Type 0
HasKind es name st = (e : DirEntry) × InList e es × (e.name ≡ name) × (e.kind ≡ st.kind)

module _ (v : Vendored) (z : Zfs) where
  -- `stat` of what a resolved path names.
  abbrev stat_found : Dataset → ℕ × ℕ → Outcome Stat
  stat_found ds found =
      (if is_regular (dirent_kind found.1) then object_size v z ds found.0 else ok 0) >>= λ size.
      ok (record { kind = dirent_kind found.1; size = size })

  stat_path-snoc :
      (ds : Dataset) (path : List (List ℕ)) (name : List ℕ)
      → stat_path v z ds (path ++ name ∷ [])
        ≡ (resolve v z ds (path ++ name ∷ []) >>= stat_found ds)
  unfolding stat_path
  stat_path-snoc ds [] name = refl
  stat_path-snoc ds (comp ∷ comps) name = refl

  stat_found-kind :
      (ds : Dataset) (found : ℕ × ℕ) {st : Stat}
      → stat_found ds found ≡ ok st
      → dirent_kind found.1 ≡ st.kind
  stat_found-kind ds found {st} h =
      let (size, _, g) =
        >>=-eq-ok (if is_regular (dirent_kind found.1) then object_size v z ds found.0 else ok 0) _
          h in
      let same : record { kind = dirent_kind found.1; size = size } ≡ st = cc in
      ap (λ s. s.kind) same

  -- A name that no entry of a listing has does not exist in the directory.
  exists-unlisted :
      (dataset_path path : List (List ℕ)) (es : List DirEntry) (name : List ℕ)
      → read_dir v z dataset_path path ≡ ok es
      → (InList name (entry_names es) → ⊥)
      → exists v z dataset_path (path ++ name ∷ []) ≡ ok false
  unfolding exists stat
  exists-unlisted dataset_path path es name h absent =
      let (ds, raw, e, same, by_name) = read_dir_inv v z dataset_path path h in
      let names : entry_names es ≡ names_of raw = ap entry_names same ∙ entry_names-map raw in
      let missing : find_name name raw ≡ none = elim (Option-cases (find_name name raw)) [
        | inl n ↦ n
        | inr (value, f) ↦ absurd (absent (rw names (named raw value (find_name-named name raw f))))
      ] in
      ap (found_or_missing v z) (
        >>=-of-ok (open_path v z dataset_path) _ e (
          stat_path-snoc ds path name
          ∙ ap (λ o. o >>= stat_found ds)
              (by_name name
                ∙ ap (λ o. ok_or o (not_found "path") >>= λ value. ok (dirent_obj value, value))
                    missing)))
    where
      named :
          (raw : List (List ℕ × ℕ)) (value : ℕ)
          → InList (name, value) raw
          → InList name (names_of raw)
      named [] value i = i
      named (r ∷ raw) value (inl p) = inl (ap (λ x. x.0) p)
      named (r ∷ raw) value (inr i) = inr (named raw value i)

  -- What a name under a listed directory is: no entry of the listing has it, and `exists` says so; or
  -- an entry has it, and the longer path resolves, to an entry of the listing with that name.
  abbrev pub NameListed : List (List ℕ) → List (List ℕ) → List DirEntry → List ℕ → Type 0
  NameListed dataset_path path es name =
      ((InList name (entry_names es) → ⊥)
        × (exists v z dataset_path (path ++ name ∷ []) ≡ ok false))
      ⊎ ((ds : Dataset) × (value : ℕ) × (open_path v z dataset_path ≡ ok ds)
          × (resolve v z ds (path ++ name ∷ []) ≡ ok (dirent_obj value, value))
          × InList (to_dir_entry (name, value)) es)

  stat-HasKind :
      (dataset_path path : List (List ℕ)) (es : List DirEntry) (name : List ℕ) (st : Stat)
      → read_dir v z dataset_path path ≡ ok es
      → stat v z dataset_path (path ++ name ∷ []) ≡ ok st
      → HasKind es name st
  unfolding stat to_dir_entry
  stat-HasKind dataset_path path es name st h g =
      let (ds, raw, e, same, by_name) = read_dir_inv v z dataset_path path h in
      let (ds', e', g₁) = >>=-eq-ok (open_path v z dataset_path) _ g in
      let ds-same : ds ≡ ds' = ok-injective (sym e ∙ e') in
      let g₂ : (resolve v z ds (path ++ name ∷ []) >>= stat_found ds) ≡ ok st =
        sym (stat_path-snoc ds path name)
        ∙ ap (λ d. stat_path v z d (path ++ name ∷ [])) ds-same
        ∙ g₁ in
      let (found, e₂, g₃) = >>=-eq-ok (resolve v z ds (path ++ name ∷ [])) _ g₂ in
      (
        to_dir_entry (name, found.1),
        subst (InList (to_dir_entry (name, found.1))) (sym same)
            (resolved-listed v z raw name found (sym (by_name name) ∙ e₂)),
        refl,
        stat_found-kind ds found g₃,
      )

  -- If `read_dir` lists a directory, then for any name either no entry has it, and `exists` of the
  -- directory's path with that name is `false`, or the longer path resolves, to an entry of the
  -- listing with that name and its object; and if `stat` of the longer path returns, the kind that it
  -- gives is that of an entry of the listing with that name.
  pub read_dir-exists :
      (dataset_path path : List (List ℕ)) (es : List DirEntry) (name : List ℕ)
      → read_dir v z dataset_path path ≡ ok es
      → NameListed dataset_path path es name
        × IfOk (HasKind es name) (stat v z dataset_path (path ++ name ∷ []))
  read_dir-exists dataset_path path es name h =
      let (ds, raw, e, same, by_name) = read_dir_inv v z dataset_path path h in
      let names : entry_names es ≡ names_of raw = ap entry_names same ∙ entry_names-map raw in
      (
        elim (Option-cases (find_name name raw)) [
          | inl n ↦
              let absent : InList name (entry_names es) → ⊥ =
                λ i. find_name-none name raw n (subst (InList name) names i) in
              inl (absent, exists-unlisted dataset_path path es name h absent)
          | inr (value, f) ↦
              let r : resolve v z ds (path ++ name ∷ []) ≡ ok (dirent_obj value, value) =
                by_name name
                ∙ ap (λ o. ok_or o (not_found "path") >>= λ w. ok (dirent_obj w, w)) f in
              inr (
                ds,
                value,
                e,
                r,
                subst (InList (to_dir_entry (name, value))) (sym same) (
                    resolved-listed v z raw name (dirent_obj value, value)
                      (sym (by_name name) ∙ r)),
              )
        ],
        IfOk-intro (HasKind es name) (stat v z dataset_path (path ++ name ∷ []))
            (λ st. stat-HasKind dataset_path path es name st h),
      )
