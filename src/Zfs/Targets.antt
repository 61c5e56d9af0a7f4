-- ===== src/Zfs/Targets.antt =====
-- `read_dir` of src/lib.rs taken apart: the directory it lists, and the resolution of a name under it.
use lamzfs.Common.{
  ℕ, ◌≡◌, refl, ◌∙◌, ap, inl, inr, some, not, List, [], ◌∷◌, ◌++◌, map, InList, Option-cases,
}
use lamzfs.Error.{not_found, not_a_directory}
use lamzfs.Outcome.{Outcome, ok, ok_or, refuse_if, ◌>>=◌, >>=-eq-ok, >>-eq-ok, >>=-of-ok}
use lamzfs.Vendored.{Vendored}
use lamzfs.Walk.{find_name, read_object_dnode, zap_entries, zap_lookup}
use lamzfs.Walk.Names.{names_of, find_name-named}
use lamzfs.Dataset.{
  Dataset, dirent_obj, root_dir_obj, list_dir, dir_entry, resolve_from, resolve_path,
}
use lamzfs.Dataset.Paths.{resolve_path-append}
use lamzfs.Zfs.{
  Zfs, DirEntry, dirent_kind, is_directory, to_dir_entry, open_path, target_dir, read_dir,
}

-- The names of the entries of a listing.
abbrev pub entry_names : List DirEntry → List (List ℕ)
entry_names [] = []
entry_names (e ∷ es) = e.name ∷ entry_names es

pub entry_names-map : (es : List (List ℕ × ℕ)) → entry_names (map to_dir_entry es) ≡ names_of es
unfolding to_dir_entry
entry_names-map [] = refl
entry_names-map (e ∷ es) = ap (◌∷◌ e.0) (entry_names-map es)

pub InList-map :
    {A B : Type 0} (f : A → B) (x : A) (xs : List A) → InList x xs → InList (f x) (map f xs)
InList-map f x [] i = i
InList-map f x (y ∷ xs) (inl e) = inl (ap f e)
InList-map f x (y ∷ xs) (inr i) = inr (InList-map f x xs i)

module _ (v : Vendored) (z : Zfs) where
  abbrev pub resolve : Dataset → List (List ℕ) → Outcome (ℕ × ℕ)
  resolve ds path = resolve_path v z.members z.pool.topology z.pool.order ds path

  -- A name in the directory that `target_dir` gives.
  pub resolve-target_dir :
      (ds : Dataset) (path : List (List ℕ)) (name : List ℕ) {dir_obj : ℕ}
      → target_dir v z ds path ≡ ok dir_obj
      → resolve ds (path ++ name ∷ []) ≡ (
          dir_entry v z.members z.pool.topology z.pool.order ds dir_obj name >>= λ value.
          ok (dirent_obj value, value))
  unfolding target_dir resolve_path resolve_from
  resolve-target_dir ds [] name h =
      >>=-of-ok (root_dir_obj v z.members z.pool.topology z.pool.order ds) _ h refl
  resolve-target_dir ds (comp ∷ comps) name {dir_obj} h =
      let (found, e, h₁) = >>=-eq-ok (resolve ds (comp ∷ comps)) _ h in
      let (_, h₂) =
        >>-eq-ok (refuse_if (not (is_directory (dirent_kind found.1))) not_a_directory) (ok found.0)
          h₁ in
      let same : found.0 ≡ dir_obj = cc in
      resolve_path-append v z.members z.pool.topology z.pool.order ds comp comps name []
      ∙ >>=-of-ok (resolve ds (comp ∷ comps)) _ e (
          ap
            (λ d. dir_entry v z.members z.pool.topology z.pool.order ds d name >>= λ value.
              ok (dirent_obj value, value))
            same)

  dir_entry-list_dir :
      (ds : Dataset) (dir_obj : ℕ) (name : List ℕ) {es : List (List ℕ × ℕ)}
      → list_dir v z.members z.pool.topology z.pool.order ds dir_obj ≡ ok es
      → dir_entry v z.members z.pool.topology z.pool.order ds dir_obj name
        ≡ ok_or (find_name name es) (not_found "path")
  unfolding list_dir dir_entry zap_lookup
  dir_entry-list_dir ds dir_obj name h =
      let (dir, e, h₁) =
        >>=-eq-ok (read_object_dnode v z.members z.pool.topology z.pool.order ds.meta_dnode dir_obj)
          _ h in
      >>=-of-ok (read_object_dnode v z.members z.pool.topology z.pool.order ds.meta_dnode dir_obj) _
        e
        (>>=-of-ok (zap_lookup v z.members z.pool.topology z.pool.order dir name) _
          (>>=-of-ok (zap_entries v z.members z.pool.topology z.pool.order dir) _ h₁ refl) refl)

  -- A listing, taken apart: a name under it resolves as it is found among the entries.
  pub read_dir_inv :
      (dataset_path path : List (List ℕ)) {es : List DirEntry}
      → read_dir v z dataset_path path ≡ ok es
      → (ds : Dataset) × (raw : List (List ℕ × ℕ)) × (open_path v z dataset_path ≡ ok ds)
        × (es ≡ map to_dir_entry raw)
        × ((name : List ℕ)
            → resolve ds (path ++ name ∷ []) ≡ (
                ok_or (find_name name raw) (not_found "path") >>= λ value.
                ok (dirent_obj value, value)))
  unfolding read_dir
  read_dir_inv dataset_path path h =
      let (ds, e, h₁) = >>=-eq-ok (open_path v z dataset_path) _ h in
      let (dir_obj, e₁, h₂) = >>=-eq-ok (target_dir v z ds path) _ h₁ in
      let (raw, e₂, h₃) =
        >>=-eq-ok (list_dir v z.members z.pool.topology z.pool.order ds dir_obj) _ h₂ in
      (
        ds,
        raw,
        e,
        cc,
        λ name.
            resolve-target_dir ds path name e₁
            ∙ ap (λ o. o >>= λ value. ok (dirent_obj value, value))
                (dir_entry-list_dir ds dir_obj name e₂),
      )

  -- What resolves in a directory is an entry of its listing.
  pub resolved-listed :
      (raw : List (List ℕ × ℕ)) (name : List ℕ) (found : ℕ × ℕ)
      → (ok_or (find_name name raw) (not_found "path") >>= λ value. ok (dirent_obj value, value))
        ≡ ok found
      → InList (to_dir_entry (name, found.1)) (map to_dir_entry raw)
  resolved-listed raw name found h = elim (Option-cases (find_name name raw)) [
    | inl n ↦ let g = rw n at h in absurd (cc)
    | inr (value, f) ↦
        let g : ok (dirent_obj value, value) ≡ ok found = rw f at h in
        let same : value ≡ found.1 = cc in
        InList-map to_dir_entry (name, found.1) raw (find_name-named name raw (f ∙ ap some same))
  ]
