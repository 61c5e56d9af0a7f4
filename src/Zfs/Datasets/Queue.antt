-- ===== src/Zfs/Datasets/Queue.antt =====
-- `push_children`, the loop over a listing in `datasets` of src/lib.rs.
use lamzfs.Common.{
  ℕ, ◌+◌, ◌-◌, ◌≤◌, ◌≡◌, refl, List, [], ◌∷◌, ◌++◌, arith, leb, length, length-append, InList,
  Bool-cases, inl, inr, ◌⊎◌,
}
use lamzfs.Zfs.{max_datasets, push_children}

abbrev pub DatasetPath : Type 0
DatasetPath = List (List ℕ)

pub InList-left : {A : Type 0} (x : A) (xs ys : List A) → InList x xs → InList x (xs ++ ys)
InList-left x [] ys i = absurd i
InList-left x (y ∷ xs) ys (inl e) = inl e
InList-left x (y ∷ xs) ys (inr i) = inr (InList-left x xs ys i)

pub InList-last : {A : Type 0} (xs : List A) (x : A) → InList x (xs ++ x ∷ [])
InList-last [] x = inl refl
InList-last (y ∷ xs) x = inr (InList-last xs x)

pub InList-snoc :
    {A : Type 0} (x : A) (xs : List A) (y : A) → InList x (xs ++ y ∷ []) → InList x xs ⊎ (x ≡ y)
InList-snoc x [] y (inl e) = inr e
InList-snoc x [] y (inr i) = absurd i
InList-snoc x (z ∷ xs) y (inl e) = inl (inl e)
InList-snoc x (z ∷ xs) y (inr i) = elim (InList-snoc x xs y i) [
  | inl j ↦ inl (inr j)
  | inr e ↦ inr e
]

-- What `push_children` does to the queue and the paths found.
pub record Pushed (parent : DatasetPath) (children : List (List ℕ))
    (queue out queue' out' : List DatasetPath) : Type 0 where
  pub grows : (p : DatasetPath) → InList p out → InList p out'
  pub queued : (p : DatasetPath) → InList p queue → InList p queue'
  pub source :
      (p : DatasetPath)
      → InList p out'
      → InList p out ⊎ ((c : List ℕ) × InList c children × (p ≡ parent ++ c ∷ []))
  pub waiting : (p : DatasetPath) → InList p out' → InList p out ⊎ InList p queue'
  pub listed : (p : DatasetPath) → InList p queue' → InList p queue ⊎ InList p out'
  pub complete :
      (max_datasets ≤ length out')
      ⊎ ((c : List ℕ) → InList c children → InList (parent ++ c ∷ []) out')
  pub longer : length out ≤ length out'
  pub bounded : length out ≤ max_datasets → length out' ≤ max_datasets
  pub measure :
      length out ≤ max_datasets
      → length queue' + (max_datasets - length out') ≡ length queue + (max_datasets - length out)

pub push_children-Pushed :
    (parent : DatasetPath) (children : List (List ℕ)) (queue out : List DatasetPath)
    → Pushed parent children queue out
        (push_children parent children (queue, out)).0
        (push_children parent children (queue, out)).1
unfolding push_children
push_children-Pushed parent [] queue out = record {
  grows = λ p i. i;
  queued = λ p i. i;
  source = λ p i. inl i;
  waiting = λ p i. inl i;
  listed = λ p i. inl i;
  complete = inr (λ c i. absurd i);
  longer = omega arith;
  bounded = λ h. h;
  measure = λ h. refl;
}
push_children-Pushed parent (child ∷ children) queue out =
    elim (Bool-cases (leb max_datasets (length out))) [
      | inl e ↦
          rw (e, push_children)
            (record {
              grows = λ p i. i;
              queued = λ p i. i;
              source = λ p i. inl i;
              waiting = λ p i. inl i;
              listed = λ p i. inl i;
              complete = inl (ground arith);
              longer = omega arith;
              bounded = λ h. h;
              measure = λ h. refl;
            })
      | inr e ↦
          let path = parent ++ child ∷ [] in
          let more = push_children-Pushed parent children (path ∷ queue) (out ++ path ∷ []) in
          let len = length-append out (path ∷ []) in
          rw (e, push_children)
            (record {
              grows = λ p i. more.grows p (InList-left p out (path ∷ []) i);
              queued = λ p i. more.queued p (inr i);
              source = λ p i. elim (more.source p i) [
                | inl j ↦ elim (InList-snoc p out path j) [
                  | inl k ↦ inl k
                  | inr q ↦ inr (child, inl refl, q)
                ]
                | inr (c, j, q) ↦ inr (c, inr j, q)
              ];
              waiting = λ p i. elim (more.waiting p i) [
                | inl j ↦ elim (InList-snoc p out path j) [
                  | inl k ↦ inl k
                  | inr q ↦ inr (more.queued p (inl q))
                ]
                | inr j ↦ inr j
              ];
              listed = λ p i. elim (more.listed p i) [
                | inl (inl q) ↦ inr (more.grows p (rw q (InList-last out path)))
                | inl (inr j) ↦ inl j
                | inr j ↦ inr j
              ];
              complete = elim more.complete [
                | inl h ↦ inl h
                | inr h ↦ inr (
                    every
                      (λ c.
                        InList (parent ++ c ∷ [])
                          (push_children parent children (path ∷ queue, out ++ path ∷ [])).1)
                      (more.grows path (InList-last out path)) h)
              ];
              longer = omega (arith, more.longer, len);
              bounded = λ h. more.bounded (ground (arith, len));
              measure = λ h. ground (arith, len, more.measure (ground (arith, len)));
            })
    ]
  where
    every :
        (P : List ℕ → Type 0)
        → P child
        → ((c : List ℕ) → InList c children → P c)
        → (c : List ℕ) → InList c (child ∷ children)
        → P c
    every P h k c (inl q) = rw q h
    every P h k c (inr i) = k c i
