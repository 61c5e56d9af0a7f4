-- ===== src/Zfs/Datasets/Fresh.antt =====
-- The scan of `datasets` in src/lib.rs finds only paths that are new.
use mathlib.Core.Path.{subst}
use lamzfs.Common.{
  ℕ, ◌≡◌, refl, ap, sym, ◌∙◌, List, [], ◌∷◌, ◌++◌, arith, leb, length, length-append, InList,
  Bool-cases, inl, inr,
}
use lamzfs.Zfs.{max_datasets, push_children}
use lamzfs.Zfs.Datasets.Queue.{DatasetPath, InList-left, InList-last, InList-snoc}

-- No element stands twice in the list.
abbrev pub Distinct : {A : Type 0} → List A → Type 0
Distinct [] = Unit
Distinct (x ∷ xs) = (InList x xs → ⊥) × Distinct xs

Distinct-snoc :
    {A : Type 0} (xs : List A) (y : A) → Distinct xs → (InList y xs → ⊥) → Distinct (xs ++ y ∷ [])
Distinct-snoc [] y d h = (λ i. i, tt)
Distinct-snoc (x ∷ xs) y (n, d) h = (
  λ i. elim (InList-snoc x xs y i) [ inl j ↦ n j | inr e ↦ h (inl (sym e)) ],
  Distinct-snoc xs y d (λ i. h (inr i)),
)

pub snoc-ne-nil : (xs : DatasetPath) (a : List ℕ) → xs ++ a ∷ [] ≡ [] → ⊥
snoc-ne-nil [] a h = cc
snoc-ne-nil (x ∷ xs) a h = cc

-- A path determines its parent and its last component.
snoc-injective :
    (xs ys : DatasetPath) (a b : List ℕ) → xs ++ a ∷ [] ≡ ys ++ b ∷ [] → (xs ≡ ys) × (a ≡ b)
snoc-injective [] [] a b h = (refl, cc)
snoc-injective [] (y ∷ ys) a b h =
    let t : [] ≡ ys ++ b ∷ [] = cc in absurd (snoc-ne-nil ys b (sym t))
snoc-injective (x ∷ xs) [] a b h = let t : xs ++ a ∷ [] ≡ [] = cc in absurd (snoc-ne-nil xs a t)
snoc-injective (x ∷ xs) (y ∷ ys) a b h =
    let t : xs ++ a ∷ [] ≡ ys ++ b ∷ [] = cc in
    let first : x ≡ y = cc in let (p, q) = snoc-injective xs ys a b t in (cc, q)

-- A path is no child of itself.
snoc-ne_self : (xs : DatasetPath) (a : List ℕ) → xs ++ a ∷ [] ≡ xs → ⊥
snoc-ne_self xs a h =
    let l : length (xs ++ a ∷ []) ≡ length xs = ap length h in
    omega (arith, l, length-append xs (a ∷ []))

-- The state of the scan: the paths in the queue have no children yet among the paths found, which
-- hold the parent of each.
pub record Fresh (queue out : List DatasetPath) : Type 0 where
  pub once : Distinct out
  pub queue_once : Distinct queue
  pub queued : (p : DatasetPath) → InList p queue → InList p out
  pub unexpanded : (p : DatasetPath) (c : List ℕ) → InList p queue → InList (p ++ c ∷ []) out → ⊥
  pub closed : (p : DatasetPath) (c : List ℕ) → InList (p ++ c ∷ []) out → InList p out

-- Within the loop over the children of a path that was taken from the queue.
pub record Pushing (parent : DatasetPath) (children : List (List ℕ)) (queue out : List DatasetPath)
    : Type 0 where
  pub fresh : Fresh queue out
  pub parent_found : InList parent out
  pub parent_done : InList parent queue → ⊥
  pub left : Distinct children
  pub new : (c : List ℕ) → InList c children → InList (parent ++ c ∷ []) out → ⊥

Pushing-next :
    (parent : DatasetPath) (c : List ℕ) (children : List (List ℕ)) (queue out : List DatasetPath)
    → Pushing parent (c ∷ children) queue out
    → Pushing parent children ((parent ++ c ∷ []) ∷ queue) (out ++ (parent ++ c ∷ []) ∷ [])
Pushing-next parent c children queue out u =
    let path = parent ++ c ∷ [] in
    let absent : InList path out → ⊥ = u.new c (inl refl) in
    record {
      fresh = record {
        once = Distinct-snoc out path u.fresh.once absent;
        queue_once = (λ i. absent (u.fresh.queued path i), u.fresh.queue_once);
        queued = λ p i. elim i [
          | inl e ↦ subst (λ q. InList q (out ++ path ∷ [])) (sym e) (InList-last out path)
          | inr j ↦ InList-left p out (path ∷ []) (u.fresh.queued p j)
        ];
        unexpanded = λ p d i j. elim (InList-snoc (p ++ d ∷ []) out path j) [
          | inl k ↦ elim i [
            | inl e ↦ absent (subst (λ q. InList q out) e (u.fresh.closed p d k))
            | inr q ↦ u.fresh.unexpanded p d q k
          ]
          | inr e ↦
              let (same, _) = snoc-injective p parent d c e in
              elim i [
                | inl f ↦ snoc-ne_self parent c (sym f ∙ same)
                | inr q ↦ u.parent_done (subst (λ t. InList t queue) same q)
              ]
        ];
        closed = λ p d i. elim (InList-snoc (p ++ d ∷ []) out path i) [
          | inl k ↦ InList-left p out (path ∷ []) (u.fresh.closed p d k)
          | inr e ↦
              let (same, _) = snoc-injective p parent d c e in
              InList-left p out (path ∷ []) (subst (λ t. InList t out) (sym same) u.parent_found)
        ];
      };
      parent_found = InList-left parent out (path ∷ []) u.parent_found;
      parent_done = λ i. elim i [ inl e ↦ snoc-ne_self parent c (sym e) | inr q ↦ u.parent_done q ];
      left = u.left.1;
      new = λ d i j. elim (InList-snoc (parent ++ d ∷ []) out path j) [
        | inl k ↦ u.new d (inr i) k
        | inr e ↦
            let (_, same) = snoc-injective parent parent d c e in
            u.left.0 (subst (λ t. InList t children) same i)
      ];
    }

pub push_children-Fresh :
    (parent : DatasetPath) (children : List (List ℕ)) (queue out : List DatasetPath)
    → Pushing parent children queue out
    → Fresh
        (push_children parent children (queue, out)).0
        (push_children parent children (queue, out)).1
unfolding push_children
push_children-Fresh parent [] queue out u = u.fresh
push_children-Fresh parent (c ∷ children) queue out u =
    elim (Bool-cases (leb max_datasets (length out))) [
      | inl e ↦ rw (e, push_children) u.fresh
      | inr e ↦
          rw (e, push_children)
            (push_children-Fresh parent children ((parent ++ c ∷ []) ∷ queue)
              (out ++ (parent ++ c ∷ []) ∷ []) (Pushing-next parent c children queue out u))
    ]

pub Fresh-skip :
    (parent : DatasetPath) (queue out : List DatasetPath)
    → Fresh (parent ∷ queue) out
    → Fresh queue out
Fresh-skip parent queue out f = record {
  once = f.once;
  queue_once = f.queue_once.1;
  queued = λ p i. f.queued p (inr i);
  unexpanded = λ p c i. f.unexpanded p c (inr i);
  closed = f.closed;
}

pub Fresh-visit :
    (parent : DatasetPath) (queue out : List DatasetPath) (children : List (List ℕ))
    → Fresh (parent ∷ queue) out
    → Distinct children
    → Pushing parent children queue out
Fresh-visit parent queue out children f d = record {
  fresh = Fresh-skip parent queue out f;
  parent_found = f.queued parent (inl refl);
  parent_done = f.queue_once.0;
  left = d;
  new = λ c i. f.unexpanded parent c (inl refl);
}
