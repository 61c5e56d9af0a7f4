-- ===== src/Zfs/Datasets.antt =====
-- `datasets` of src/lib.rs: its bounds, and that below them it lists exactly what can be reached from
-- the root.
pub mod Alike
pub mod Queue
pub mod Rounds
pub mod Fresh
pub mod Distinct
use lamzfs.Common.{
  ℕ, zero, suc, ◌+◌, ◌-◌, ◌≤◌, ◌<◌, ◌≡◌, ◌≢◌, refl, true, ◌||◌, List, [], ◌∷◌, ◌++◌, arith, leb,
  leb→le, false, length, length-append, InList, Bool-cases, inl, inr, ◌⊎◌,
}
use lamzfs.Outcome.{Outcome, ok, panic, Outcome-cases}
use lamzfs.Vendored.{Vendored}
use lamzfs.Zfs.{
  Zfs, max_datasets, max_dataset_depth, push_children, datasets_loop, child_datasets, datasets,
}
use Queue.{DatasetPath, Pushed, push_children-Pushed}
use Rounds.{
  Reachable, root, child, Expanded, Scan, Scanned, Scan-skip, Scan-visit, datasets_loop-nil,
}

module _ (list : DatasetPath → Outcome (List (List ℕ))) where
  datasets_loop-Scanned :
      ((p : DatasetPath) → list p ≢ panic)
      → (fuel : ℕ) (queue out : List DatasetPath) → Scan list queue out
      → length queue + (max_datasets - length out) < fuel
      → (out' : List DatasetPath) × (datasets_loop list fuel (queue, out) ≡ ok out')
        × Scanned list out'
  unfolding datasets_loop
  datasets_loop-Scanned calm fuel [] out s l = (
    out,
    datasets_loop-nil list fuel out,
    record {
      from_root = s.from_root;
      sound = s.sound;
      closed = elim s.closed [
        | inl h ↦ inl h
        | inr h ↦ inr (λ p i. elim (h p i) [ inl j ↦ absurd j | inr x ↦ x ])
      ];
      small = s.small;
    },
  )
  datasets_loop-Scanned calm zero (parent ∷ queue) out s l = absurd (omega arith)
  datasets_loop-Scanned calm (suc fuel) (parent ∷ queue) out s l =
      elim (Bool-cases (leb max_datasets (length out) || leb max_dataset_depth (length parent))) [
        | inl e ↦
            rw (e, datasets_loop)
              (datasets_loop-Scanned calm fuel queue out
                (Scan-skip list parent queue out s (stop e)) (omega arith))
        | inr e ↦ elim (Outcome-cases (list parent)) [
          | inl (children, q) ↦
              let pushed = push_children parent children (queue, out) in
              let u = push_children-Pushed parent children queue out in
              let next =
                Scan-visit list parent queue out children pushed.0 pushed.1 s (ground arith) q u in
              rw (e, q, datasets_loop)
                (datasets_loop-Scanned calm fuel pushed.0 pushed.1 next
                  (omega (arith, u.measure s.small)))
          | inr (inl (x, q)) ↦
              let failed : Expanded list out parent = λ _ cs q' c i. absurd (cc) in
              rw (e, q, datasets_loop)
                (datasets_loop-Scanned calm fuel queue out
                  (Scan-skip list parent queue out s (inr failed)) (omega arith))
          | inr (inr q) ↦ absurd (calm parent q)
        ]
      ]
    where
      stop :
          (leb max_datasets (length out) || leb max_dataset_depth (length parent)) ≡ true
          → (max_datasets ≤ length out) ⊎ Expanded list out parent
      stop e = elim (Bool-cases (leb max_datasets (length out))) [
        | inl f ↦ inl (ground arith)
        | inr f ↦ inr (λ deep cs q c i. absurd (ground arith))
      ]

  Scan-first : Scan list ([] ∷ []) ([] ∷ [])
  Scan-first = record {
    from_root = inl refl;
    sound = λ p. λ (i : InList p ([] ∷ [])). rw (one p i) root;
    queued = λ p i. i;
    closed = inr (λ p i. inl i);
    small = omega arith;
  }
    where
      one : (p : DatasetPath) → InList p ([] ∷ []) → p ≡ []
      one p (inl q) = q
      one p (inr i) = absurd i

  Reachable-listed :
      (out : List DatasetPath)
      → Scanned list out
      → length out < max_datasets
      → (p : DatasetPath) → Reachable list p
      → InList p out
  Reachable-listed out s l p root = s.from_root
  Reachable-listed out s l p (child parent children c r d e i) =
      let here = Reachable-listed out s l parent r in
      elim s.closed [ inl h ↦ absurd (omega arith) | inr h ↦ h parent here d children e c i ]

below_limit : (n : ℕ) → leb max_datasets n ≡ false → n < max_datasets
below_limit n h = ground arith

-- Where no listing panics, `datasets` returns, whichever listings fail: at most 256 paths, each of
-- which can be reached from the root; and if there are fewer than 256, all that can be reached
-- within the depth of 16.
pub datasets-Reachable :
    (v : Vendored) (z : Zfs)
    → ((p : DatasetPath) → child_datasets v z p ≢ panic)
    → (out : List DatasetPath) × (datasets v z ≡ ok out)
      × (length out ≤ max_datasets)
      × ((p : DatasetPath) → InList p out → Reachable (child_datasets v z) p)
      × ((max_datasets ≤ length out)
          ⊎ ((p : DatasetPath) → Reachable (child_datasets v z) p → InList p out))
unfolding datasets
datasets-Reachable v z calm =
    let list = child_datasets v z in
    let (out, e, s) =
      datasets_loop-Scanned list calm (max_datasets + 1) ([] ∷ []) ([] ∷ []) (Scan-first list)
        (omega arith) in
    (
      out,
      e,
      s.small,
      s.sound,
      elim (Bool-cases (leb max_datasets (length out))) [
        | inl full ↦ inl (leb→le max_datasets (length out) full)
        | inr less ↦ inr (λ p r. Reachable-listed list out s (below_limit (length out) less) p r)
      ],
    )
