-- ===== src/Dataset/Paths.antt =====
-- src/dataset.rs: the walks to a dataset and within one, by the parts of their paths.
use lamzfs.Common.{
  ℕ, ◌≡◌, refl, ◌∙◌, sym, ap, inl, inr, some, List, [], ◌∷◌, ◌++◌, map, InList, Bool-cases,
}
use lamzfs.Outcome.{Outcome, ok, err, panic, ◌>>=◌, >>=-eq-ok, >>=-of-ok, >>=-ext, >>=-assoc}
use lamzfs.Phys.{EndianOrder, Dnode}
use lamzfs.Vendored.{Vendored}
use lamzfs.BlockRead.{PoolMember}
use lamzfs.Vdev.Tree.{Topology}
use lamzfs.Walk.{read_object_dnode, zap_entries, zap_lookup}
use lamzfs.Walk.Names.{names_of, find_name-some}
use lamzfs.Dataset.{
  Dataset, is_internal, visible, dirent_obj, dsl_dir, child_dir, walk_names, root_dataset_dir,
  child_dataset_names, root_dir_obj, dir_entry, resolve_from, resolve_path,
}

-- A name that is visible among those of the entries is the name of an entry.
visible-listed :
    (n : List ℕ) (es : List (List ℕ × ℕ))
    → InList n (visible (map (λ (e : List ℕ × ℕ). e.0) es))
    → InList n (names_of es)
unfolding visible
visible-listed n [] i = absurd i
visible-listed n (e ∷ es) i = elim (Bool-cases (is_internal e.0)) [
  | inl h ↦ inr (visible-listed n es (rw (h, visible) at i))
  | inr h ↦ elim (rw (h, visible) at i) [ inl p ↦ inl p | inr q ↦ inr (visible-listed n es q) ]
]

module _ (v : Vendored) (members : List PoolMember) (topo : Topology) (order : EndianOrder) where
  walk_names-snoc :
      (mos : Dnode) (dir_obj : ℕ) (names : List (List ℕ)) (name : List ℕ)
      → walk_names v members topo order mos dir_obj (names ++ name ∷ []) ≡ (
          walk_names v members topo order mos dir_obj names >>= λ obj.
          child_dir v members topo order mos obj name)
  unfolding walk_names
  walk_names-snoc mos dir_obj [] name = last (child_dir v members topo order mos dir_obj name)
    where
      last : (o : Outcome ℕ) → (o >>= λ obj. ok obj) ≡ o
      last panic = refl
      last (err e) = refl
      last (ok obj) = refl
  walk_names-snoc mos dir_obj (n ∷ names) name =
      >>=-ext (child_dir v members topo order mos dir_obj n) _ _
        (λ obj. walk_names-snoc mos obj names name)
      ∙ sym (
          >>=-assoc (child_dir v members topo order mos dir_obj n)
            (λ obj. walk_names v members topo order mos obj names) _)

  -- The DSL directory that a dataset's path selects.
  abbrev pub dataset_dir : Dnode → List (List ℕ) → Outcome ℕ
  dataset_dir mos names = root_dataset_dir v members topo order mos >>= λ root.
      walk_names v members topo order mos root names

  -- An entry that a ZAP has is found by its name.
  zap_lookup-listed :
      (zap : Dnode) (name : List ℕ) (es : List (List ℕ × ℕ))
      → zap_entries v members topo order zap ≡ ok es
      → InList name (names_of es)
      → (value : ℕ) × (zap_lookup v members topo order zap name ≡ ok (some value))
  unfolding zap_lookup
  zap_lookup-listed zap name es e i =
      let (value, f) = find_name-some name es i in
      (value, >>=-of-ok (zap_entries v members topo order zap) _ e (ap ok f))

  -- The names that are listed are those of the entries of an object's ZAP.
  pub child_dataset_names-entries :
      (mos : Dnode) (parent names : List (List ℕ))
      → child_dataset_names v members topo order mos parent ≡ ok names
      → (obj : ℕ) × (zap : Dnode) × (es : List (List ℕ × ℕ)) × (read_object_dnode v members topo
            order mos obj
          ≡ ok zap)
        × (zap_entries v members topo order zap ≡ ok es)
        × (names ≡ visible (map (λ (e : List ℕ × ℕ). e.0) es))
  unfolding child_dataset_names
  child_dataset_names-entries mos parent names h =
      let (root, _, h₁) = >>=-eq-ok (root_dataset_dir v members topo order mos) _ h in
      let (dir_obj, _, h₂) = >>=-eq-ok (walk_names v members topo order mos root parent) _ h₁ in
      let (dir, _, h₃) = >>=-eq-ok (dsl_dir v members topo order mos dir_obj) _ h₂ in
      let (zap, e, h₄) =
        >>=-eq-ok (read_object_dnode v members topo order mos dir.child_directory_zap_obj) _ h₃ in
      let (es, e', h₅) = >>=-eq-ok (zap_entries v members topo order zap) _ h₄ in
      (dir.child_directory_zap_obj, zap, es, e, e', cc)

  -- A child dataset that is listed can be walked to.
  pub child_dataset_names-located :
      (mos : Dnode) (parent names : List (List ℕ)) (name : List ℕ)
      → child_dataset_names v members topo order mos parent ≡ ok names
      → InList name names
      → (obj : ℕ) × (dataset_dir mos (parent ++ name ∷ []) ≡ ok obj)
  unfolding child_dataset_names child_dir
  child_dataset_names-located mos parent names name h i =
      let (root, e₀, h₁) = >>=-eq-ok (root_dataset_dir v members topo order mos) _ h in
      let (dir_obj, e₁, h₂) = >>=-eq-ok (walk_names v members topo order mos root parent) _ h₁ in
      let (dir, e₂, h₃) = >>=-eq-ok (dsl_dir v members topo order mos dir_obj) _ h₂ in
      let (zap, e₃, h₄) =
        >>=-eq-ok (read_object_dnode v members topo order mos dir.child_directory_zap_obj) _ h₃ in
      let (es, e₄, h₅) = >>=-eq-ok (zap_entries v members topo order zap) _ h₄ in
      let same : visible (map (λ (e : List ℕ × ℕ). e.0) es) ≡ names = cc in
      let (obj, e₅) = zap_lookup-listed zap name es e₄ (visible-listed name es (rw same i)) in
      (
        obj,
        >>=-of-ok (root_dataset_dir v members topo order mos) _ e₀ (
            walk_names-snoc mos root parent name
            ∙ >>=-of-ok (walk_names v members topo order mos root parent) _ e₁ (
                >>=-of-ok (dsl_dir v members topo order mos dir_obj) _ e₂ (
                  >>=-of-ok (read_object_dnode v members topo order mos dir.child_directory_zap_obj)
                    _ e₃ (>>=-of-ok (zap_lookup v members topo order zap name) _ e₅ refl)))),
      )

  resolve_from-append :
      (ds : Dataset) (dir_obj : ℕ) (x : List ℕ) (xs : List (List ℕ)) (y : List ℕ)
      (ys : List (List ℕ))
      → resolve_from v members topo order ds dir_obj ((x ∷ xs) ++ (y ∷ ys)) ≡ (
          resolve_from v members topo order ds dir_obj (x ∷ xs) >>= λ found.
          resolve_from v members topo order ds found.0 (y ∷ ys))
  unfolding resolve_from
  resolve_from-append ds dir_obj x [] y ys =
      sym (>>=-assoc (dir_entry v members topo order ds dir_obj x) _ _)
  resolve_from-append ds dir_obj x (x' ∷ xs) y ys =
      >>=-ext (dir_entry v members topo order ds dir_obj x) _ _
        (λ value. resolve_from-append ds (dirent_obj value) x' xs y ys)
      ∙ sym (>>=-assoc (dir_entry v members topo order ds dir_obj x) _ _)

  -- A path is resolved by parts: the whole gives what its second part gives from the object that its
  -- first part names, and the errors of either part, for any two parts that are not empty.
  pub resolve_path-append :
      (ds : Dataset) (x : List ℕ) (xs : List (List ℕ)) (y : List ℕ) (ys : List (List ℕ))
      → resolve_path v members topo order ds ((x ∷ xs) ++ (y ∷ ys)) ≡ (
          resolve_path v members topo order ds (x ∷ xs) >>= λ found.
          resolve_from v members topo order ds found.0 (y ∷ ys))
  unfolding resolve_path
  resolve_path-append ds x xs y ys =
      >>=-ext (root_dir_obj v members topo order ds) _ _
        (λ root. resolve_from-append ds root x xs y ys)
      ∙ sym (>>=-assoc (root_dir_obj v members topo order ds) _ _)
