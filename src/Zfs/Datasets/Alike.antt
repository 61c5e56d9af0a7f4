-- ===== src/Zfs/Datasets/Alike.antt =====
-- `datasets` of src/lib.rs over two listings that are alike.
use mathlib.Core.Path.{ap₂}
use lamzfs.Common.{
  length, ◌∙◌, ℕ, zero, suc, ◌≡◌, refl, ap, List, [], ◌∷◌, leb, ◌||◌, if◌then◌else◌, inl, inr,
}
use lamzfs.Outcome.{Outcome, ok, err, panic}
use lamzfs.Outcome.Alike.{Alike}
use lamzfs.Zfs.{max_datasets, max_dataset_depth, push_children, datasets_loop}

-- What a listing is taken for: the way on, or the way past one that fails.
abbrev taken :
    Outcome (List (List ℕ))
    → (List (List ℕ) → Outcome (List (List (List ℕ))))
    → Outcome (List (List (List ℕ)))
    → Outcome (List (List (List ℕ)))
taken o go skip = elim o [ ok children ↦ go children | err e ↦ skip | panic ↦ panic ]

taken-same :
    (o o' : Outcome (List (List ℕ))) (go go' : List (List ℕ) → Outcome (List (List (List ℕ))))
    (skip skip' : Outcome (List (List (List ℕ))))
    → Alike o o'
    → ((children : List (List ℕ)) → go children ≡ go' children)
    → skip ≡ skip'
    → taken o go skip ≡ taken o' go' skip'
taken-same (ok c) o' go go' skip skip' (inl e) g s = g c ∙ ap (λ x. taken x go' skip') e
taken-same (err x) o' go go' skip skip' (inl e) g s = s ∙ ap (λ x. taken x go' skip') e
taken-same panic o' go go' skip skip' (inl e) g s = ap (λ x. taken x go' skip') e
taken-same (err x) (err x') go go' skip skip' (inr _) g s = s
taken-same (ok c) o' go go' skip skip' (inr (f, _)) g s = absurd f
taken-same panic o' go go' skip skip' (inr (f, _)) g s = absurd f
taken-same (err x) (ok c) go go' skip skip' (inr (_, f)) g s = absurd f
taken-same (err x) panic go go' skip skip' (inr (_, f)) g s = absurd f

pub datasets_loop-same :
    (list list' : List (List ℕ) → Outcome (List (List ℕ)))
    → ((parent : List (List ℕ)) → Alike (list parent) (list' parent))
    → (fuel : ℕ) (queue out : List (List (List ℕ)))
    → datasets_loop list fuel (queue, out) ≡ datasets_loop list' fuel (queue, out)
unfolding datasets_loop
datasets_loop-same list list' h fuel [] out = refl
datasets_loop-same list list' h zero (parent ∷ queue) out = refl
datasets_loop-same list list' h (suc fuel) (parent ∷ queue) out =
    let skip = datasets_loop-same list list' h fuel queue out in
    let visit =
      taken-same (list parent) (list' parent)
        (λ children. datasets_loop list fuel (push_children parent children (queue, out)))
        (λ children. datasets_loop list' fuel (push_children parent children (queue, out)))
        (datasets_loop list fuel (queue, out)) (datasets_loop list' fuel (queue, out)) (h parent)
        (λ children.
          let l = push_children parent children (queue, out) in
          datasets_loop-same list list' h fuel l.0 l.1)
        skip in
    ap₂
      (λ a b.
        if leb max_datasets (length out) || leb max_dataset_depth (length parent) then a else b)
      skip visit
