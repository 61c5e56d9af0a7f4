-- ===== src/Zfs/Datasets/Distinct.antt =====
-- `datasets` of src/lib.rs: no path is found twice.
use lamzfs.Common.{
  ℕ, zero, suc, ◌+◌, ◌||◌, List, [], ◌∷◌, ◌++◌, leb, length, InList, Bool-cases, inl, inr,
}
use lamzfs.Outcome.{Outcome, IfOk, IfOk-elim, Outcome-cases}
use lamzfs.Vendored.{Vendored}
use lamzfs.Zfs.{
  Zfs, max_datasets, max_dataset_depth, push_children, datasets_loop, child_datasets, datasets,
}
use lamzfs.Zfs.Datasets.Queue.{DatasetPath}
use lamzfs.Zfs.Datasets.Fresh.{
  Distinct, snoc-ne-nil, Fresh, push_children-Fresh, Fresh-skip, Fresh-visit,
}

module _ (list : DatasetPath → Outcome (List (List ℕ)))
    (distinct : (p : DatasetPath) → IfOk Distinct (list p)) where
  datasets_loop-Distinct :
      (fuel : ℕ) (queue out : List DatasetPath)
      → Fresh queue out
      → IfOk Distinct (datasets_loop list fuel (queue, out))
  unfolding datasets_loop
  datasets_loop-Distinct zero [] out f = f.once
  datasets_loop-Distinct (suc fuel) [] out f = f.once
  datasets_loop-Distinct zero (parent ∷ queue) out f = tt
  datasets_loop-Distinct (suc fuel) (parent ∷ queue) out f =
      elim (Bool-cases (leb max_datasets (length out) || leb max_dataset_depth (length parent))) [
        | inl e ↦
            rw (e, datasets_loop)
              (datasets_loop-Distinct fuel queue out (Fresh-skip parent queue out f))
        | inr e ↦ elim (Outcome-cases (list parent)) [
          | inl (children, q) ↦
              let pushed = push_children parent children (queue, out) in
              let d : Distinct children =
                IfOk-elim Distinct (list parent) (distinct parent) children q in
              rw (e, q, datasets_loop)
                (datasets_loop-Distinct fuel pushed.0 pushed.1 (
                  push_children-Fresh parent children queue out
                    (Fresh-visit parent queue out children f d)))
          | inr (inl (x, q)) ↦
              rw (e, q, datasets_loop)
                (datasets_loop-Distinct fuel queue out (Fresh-skip parent queue out f))
          | inr (inr q) ↦ rw (e, q, datasets_loop) tt
        ]
      ]

Fresh-first : Fresh ([] ∷ []) ([] ∷ [])
Fresh-first = record {
  once = (λ i. i, tt);
  queue_once = (λ i. i, tt);
  queued = λ p i. i;
  unexpanded = λ p c i j. only p c j;
  closed = λ p c i. absurd (only p c i);
}
  where
    only : (p : DatasetPath) (c : List ℕ) → InList (p ++ c ∷ []) ([] ∷ []) → ⊥
    only p c (inl e) = snoc-ne-nil p c e
    only p c (inr i) = i

-- Where no listing of child datasets has a name twice, `datasets` returns no path twice: a dataset is
-- visited once at most, whichever listings fail and wherever the limits cut the scan short.
pub datasets-Distinct :
    (v : Vendored) (z : Zfs)
    → ((p : DatasetPath) → IfOk Distinct (child_datasets v z p))
    → IfOk Distinct (datasets v z)
unfolding datasets
datasets-Distinct v z distinct =
    datasets_loop-Distinct (child_datasets v z) distinct (max_datasets + 1) ([] ∷ []) ([] ∷ [])
      Fresh-first
