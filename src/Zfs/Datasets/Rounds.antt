-- ===== src/Zfs/Datasets/Rounds.antt =====
-- The state of the scan in `datasets` of src/lib.rs, and what one round does to it.
use lamzfs.Common.{
  ℕ, zero, suc, ◌≤◌, ◌<◌, ◌≡◌, refl, List, [], ◌∷◌, ◌++◌, arith, length, InList, inl, inr, ◌⊎◌,
}
use lamzfs.Outcome.{Outcome, ok}
use lamzfs.Zfs.{max_datasets, max_dataset_depth, datasets_loop}
use lamzfs.Zfs.Datasets.Queue.{DatasetPath, Pushed}

module _ (list : DatasetPath → Outcome (List (List ℕ))) where
  -- The paths that can be reached from the root: a child that its parent's listing has, of parents
  -- within the depth.
  pub data Reachable : DatasetPath → Type 0 where
    root : Reachable []
    child :
        (parent : DatasetPath) (children : List (List ℕ)) (c : List ℕ)
        → Reachable parent
        → length parent < max_dataset_depth
        → list parent ≡ ok children
        → InList c children
        → Reachable (parent ++ c ∷ [])

  -- All children of the path are found.
  abbrev pub Expanded : List DatasetPath → DatasetPath → Type 0
  Expanded out p =
      length p < max_dataset_depth
      → (children : List (List ℕ)) → list p ≡ ok children
      → (c : List ℕ) → InList c children
      → InList (p ++ c ∷ []) out

  -- The state of the scan.
  pub record Scan (queue out : List DatasetPath) : Type 0 where
    pub from_root : InList [] out
    pub sound : (p : DatasetPath) → InList p out → Reachable p
    pub queued : (p : DatasetPath) → InList p queue → InList p out
    pub closed :
        (max_datasets ≤ length out)
        ⊎ ((p : DatasetPath) → InList p out → InList p queue ⊎ Expanded out p)
    pub small : length out ≤ max_datasets

  -- What the scan leaves.
  pub record Scanned (out : List DatasetPath) : Type 0 where
    pub from_root : InList [] out
    pub sound : (p : DatasetPath) → InList p out → Reachable p
    pub closed : (max_datasets ≤ length out) ⊎ ((p : DatasetPath) → InList p out → Expanded out p)
    pub small : length out ≤ max_datasets

  pub datasets_loop-nil :
      (fuel : ℕ) (out : List DatasetPath) → datasets_loop list fuel ([], out) ≡ ok out
  unfolding datasets_loop
  datasets_loop-nil zero out = refl
  datasets_loop-nil (suc fuel) out = refl

  -- The path at the head of the queue needs no visit.
  pub Scan-skip :
      (parent : DatasetPath) (queue out : List DatasetPath)
      → Scan (parent ∷ queue) out
      → (max_datasets ≤ length out) ⊎ Expanded out parent
      → Scan queue out
  Scan-skip parent queue out s h = record {
    from_root = s.from_root;
    sound = s.sound;
    queued = λ p i. s.queued p (inr i);
    closed = both h s.closed;
    small = s.small;
  }
    where
      settle :
          (p : DatasetPath)
          → Expanded out parent
          → InList p (parent ∷ queue) ⊎ Expanded out p
          → InList p queue ⊎ Expanded out p
      settle p x (inl (inl q)) = inr (rw q x)
      settle p x (inl (inr i)) = inl i
      settle p x (inr y) = inr y

      both :
          (max_datasets ≤ length out) ⊎ Expanded out parent
          → (max_datasets ≤ length out)
            ⊎ ((p : DatasetPath) → InList p out → InList p (parent ∷ queue) ⊎ Expanded out p)
          → (max_datasets ≤ length out)
            ⊎ ((p : DatasetPath) → InList p out → InList p queue ⊎ Expanded out p)
      both (inl full) c = inl full
      both (inr x) (inl full) = inl full
      both (inr x) (inr c) = inr (λ p i. settle p x (c p i))

  pub Scan-visit :
      (parent : DatasetPath) (queue out : List DatasetPath) (children : List (List ℕ))
      (queue' out' : List DatasetPath)
      → Scan (parent ∷ queue) out
      → length parent < max_dataset_depth
      → list parent ≡ ok children
      → Pushed parent children queue out queue' out'
      → Scan queue' out'
  Scan-visit parent queue out children queue' out' s deep e u = record {
    from_root = u.grows [] s.from_root;
    sound = λ p i. elim (u.source p i) [
      | inl j ↦ s.sound p j
      | inr (c, j, q) ↦
          rw q (child parent children c (s.sound parent (s.queued parent (inl refl))) deep e j)
    ];
    queued = λ p i. elim (u.listed p i) [ inl j ↦ u.grows p (s.queued p (inr j)) | inr j ↦ j ];
    closed = both u.complete s.closed;
    small = u.bounded s.small;
  }
    where
      new : (DatasetPath) → Type 0
      new p = InList p queue' ⊎ Expanded out' p

      settle :
          (p : DatasetPath)
          → ((c : List ℕ) → InList c children → InList (parent ++ c ∷ []) out')
          → InList p (parent ∷ queue) ⊎ Expanded out p
          → new p
      settle p all (inl (inl q)) =
          inr (λ _ cs l c i. let same : children ≡ cs = cc in rw q (all c (rw same i)))
      settle p all (inl (inr i)) = inl (u.queued p i)
      settle p all (inr x) = inr (λ d cs l c i. u.grows (p ++ c ∷ []) (x d cs l c i))

      both :
          (max_datasets ≤ length out')
            ⊎ ((c : List ℕ) → InList c children → InList (parent ++ c ∷ []) out')
          → (max_datasets ≤ length out)
            ⊎ ((p : DatasetPath) → InList p out → InList p (parent ∷ queue) ⊎ Expanded out p)
          → (max_datasets ≤ length out') ⊎ ((p : DatasetPath) → InList p out' → new p)
      both (inl full) c = inl full
      both (inr all) (inl full) = inl (omega (arith, u.longer))
      both (inr all) (inr c) =
          inr (λ p i. elim (u.waiting p i) [ inl j ↦ settle p all (c p j) | inr j ↦ inl j ])
