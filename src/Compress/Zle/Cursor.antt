-- ===== src/Compress/Zle/Cursor.antt =====
-- The cursors of `zle_decode` in src/compress.rs, on any input: what one round reads and writes.
use lamzfs.Common.{
  ℕ, zero, suc, ◌+◌, ◌-◌, ◌≤◌, ◌<◌, ◌≡◌, refl, ap, sym, ◌∙◌, none, some, List, [], ◌∷◌, ◌++◌, arith,
  leb, length, take, drop, replicate, get_elem?, get_range, All, length-append, length-get_range,
  append_assoc, length-replicate, replicate-add, get_elem?-append_right, drop_all, Bool-cases, inl,
  inr,
}
use lamzfs.Compress.Zle.{write_at}
use lamzfs.Compress.Zle.Runs.{
  Run, literal, zeros, IsRun, run_bytes, run_code, expand, encode, write_at-zeros, get_elem?-next,
}

abbrev pub IsByte : ℕ → Type 0
IsByte b = b < 256

take-drop : (n : ℕ) (xs : List ℕ) → take n xs ++ drop n xs ≡ xs
take-drop zero xs = refl
take-drop (suc n) [] = refl
take-drop (suc n) (x ∷ xs) = ap (◌∷◌ x) (take-drop n xs)

pub All-drop : (P : ℕ → Type 0) (n : ℕ) (xs : List ℕ) → All P xs → All P (drop n xs)
All-drop P zero xs h = h
All-drop P (suc n) [] h = tt
All-drop P (suc n) (x ∷ xs) (p, h) = All-drop P n xs h

-- A slice behind a control byte is the front of what follows it.
get_range-front :
    (pre : List ℕ) (c : ℕ) (post : List ℕ) (n : ℕ) {run : List ℕ}
    → get_range (pre ++ (c ∷ post)) (length pre + 1) n ≡ some run
    → run ≡ take n post
get_range-front pre c post n {run} h =
    let shift : length (pre ++ c ∷ []) ≡ length pre + 1 =
      omega (arith, length-append pre (c ∷ [])) in
    let rest : drop (length pre + 1) (pre ++ (c ∷ post)) ≡ post =
      rw (append_assoc pre (c ∷ []) post, shift) at (drop_all (pre ++ c ∷ []) post) in
    elim (Bool-cases (leb (length pre + 1 + n) (length (pre ++ (c ∷ post))))) [
      | inl e ↦
          let g : some (take n (drop (length pre + 1) (pre ++ (c ∷ post)))) ≡ some run =
            rw e at h in
          let same : take n (drop (length pre + 1) (pre ++ (c ∷ post))) ≡ run = cc in
          sym same ∙ ap (take n) rest
      | inr e ↦ let g = rw e at h in absurd (cc)
    ]

-- A write that fits into the zeros behind what is done.
write_at-fits :
    (done run : List ℕ) (n : ℕ) {out : List ℕ}
    → write_at (done ++ replicate n 0) (length done) run ≡ some out
    → (length run ≤ n) × (out ≡ (done ++ run) ++ replicate (n - length run) 0)
unfolding write_at
write_at-fits done run n {out} h =
    elim (Bool-cases (leb (length done + length run) (length (done ++ replicate {A = ℕ} n 0)))) [
      | inl e ↦
          let fits : length run ≤ n =
            ground
              (arith, length-append done (replicate {A = ℕ} n 0), length-replicate {A = ℕ} n 0) in
          let back : length run + (n - length run) ≡ n = omega arith in
          let w = rw back at (write_at-zeros done run (n - length run)) in (fits, cc)
      | inr e ↦ let g = rw e at h in absurd (cc)
    ]

-- The rest of the input is runs and something behind them, and the output is what was done and
-- the runs' bytes.
abbrev pub Encodes : List ℕ → List ℕ → List ℕ → Type 0
Encodes post done out =
    (runs : List Run) × (junk : List ℕ) × All IsRun runs
    × (post ≡ encode runs ++ junk)
    × (out ≡ done ++ expand runs)

pub Encodes-literal :
    (c : ℕ) (post run done out : List ℕ)
    → c < 64
    → length run ≡ c + 1
    → run ≡ take (c + 1) post
    → Encodes (drop (c + 1) post) (done ++ run) out
    → Encodes (c ∷ post) done out
unfolding encode expand run_code run_bytes
Encodes-literal c post run done out small len front (runs, junk, v, e, o) =
    let back : length run - 1 ≡ c = omega arith in
    let whole : post ≡ run ++ (encode runs ++ junk) =
      sym (take-drop (c + 1) post)
      ∙ ap (λ t. t ++ drop (c + 1) post) (sym front)
      ∙ ap (◌++◌ run) e in
    (
      literal run ∷ runs,
      junk,
      ((omega arith, omega arith), v),
      ap (◌∷◌ c) (whole ∙ sym (append_assoc run (encode runs) junk))
          ∙ ap (λ k. k ∷ ((run ++ encode runs) ++ junk)) (sym back),
      o ∙ append_assoc done run (expand runs),
    )

pub Encodes-zeros :
    (c : ℕ) (post done out : List ℕ)
    → 64 ≤ c
    → c < 256
    → Encodes post (done ++ replicate (c - 64 + 1) 0) out
    → Encodes (c ∷ post) done out
unfolding encode expand run_code run_bytes
Encodes-zeros c post done out big byte (runs, junk, v, e, o) =
    let back : 63 + (c - 64 + 1) ≡ c = omega arith in
    (
      zeros (c - 64 + 1) ∷ runs,
      junk,
      ((omega arith, omega arith), v),
      ap (◌∷◌ c) e ∙ ap (λ k. k ∷ (encode runs ++ junk)) (sym back),
      o ∙ append_assoc done (replicate (c - 64 + 1) 0) (expand runs),
    )

-- Where the loop stands: `pre` is read and `post` is to come, `done` is written before zeros.
pub record Cursor (src dst pre post done : List ℕ) (lsize s d : ℕ) : Type 0 where
  pub source : src ≡ pre ++ post
  pub from : s ≡ length pre
  pub to : d ≡ length done
  pub target : dst ≡ done ++ replicate (lsize - d) 0
  pub room : d ≤ lsize

pub Cursor-literal :
    (src dst pre post done : List ℕ) (lsize s d c : ℕ) (run out : List ℕ)
    → Cursor src dst pre (c ∷ post) done lsize s d
    → get_range src (s + 1) (c + 1) ≡ some run
    → write_at dst d run ≡ some out
    → (length run ≡ c + 1)
      × (run ≡ take (c + 1) post)
      × Cursor src out
          (pre ++ (c ∷ run))
          (drop (c + 1) post)
          (done ++ run)
          lsize
          (s + 1 + (c + 1))
          (d + (c + 1))
Cursor-literal src dst pre post done lsize s d c run out k range write =
    let len = length-get_range src (s + 1) (c + 1) range in
    let range' : get_range (pre ++ (c ∷ post)) (length pre + 1) (c + 1) ≡ some run =
      rw (k.source, k.from) at range in
    let front = get_range-front pre c post (c + 1) range' in
    let write' : write_at (done ++ replicate (lsize - d) 0) (length done) run ≡ some out =
      ap (λ t. write_at t (length done) run) (sym k.target)
      ∙ ap (λ t. write_at dst t run) (sym k.to)
      ∙ write in
    let (fits, o) = write_at-fits done run (lsize - d) write' in
    let left : lsize - d - length run ≡ lsize - (d + (c + 1)) = omega arith in
    (
      len,
      front,
      record {
        source =
            k.source
            ∙ ap (λ t. pre ++ (c ∷ t))
                (sym (take-drop (c + 1) post) ∙ ap (λ t. t ++ drop (c + 1) post) (sym front))
            ∙ sym (append_assoc pre (c ∷ run) (drop (c + 1) post));
        from = omega (arith, k.from, length-append pre (c ∷ run));
        to = omega (arith, k.to, length-append done run);
        target = o ∙ ap (λ t. (done ++ run) ++ replicate t 0) left;
        room = omega (arith, k.room);
      },
    )

pub Cursor-zeros :
    (src dst pre post done : List ℕ) (lsize s d c : ℕ)
    → Cursor src dst pre (c ∷ post) done lsize s d
    → d + (c - 64 + 1) ≤ lsize
    → Cursor src dst
        (pre ++ (c ∷ []))
        post
        (done ++ replicate (c - 64 + 1) 0)
        lsize
        (s + 1)
        (d + (c - 64 + 1))
Cursor-zeros src dst pre post done lsize s d c k fits =
    let n = c - 64 + 1 in
    let split : lsize - d ≡ n + (lsize - (d + n)) = omega arith in
    record {
      source = k.source ∙ sym (append_assoc pre (c ∷ []) post);
      from = omega (arith, k.from, length-append pre (c ∷ []));
      to =
          omega
            (arith, k.to, length-append done (replicate {A = ℕ} n 0), length-replicate {A = ℕ} n 0);
      target =
          k.target
          ∙ ap (λ t. done ++ replicate t 0) split
          ∙ ap (◌++◌ done) (replicate-add n (lsize - (d + n)) 0)
          ∙ sym (append_assoc done (replicate n 0) (replicate (lsize - (d + n)) 0));
      room = fits;
    }

pub Cursor-next :
    (src dst pre post done : List ℕ) (lsize s d c : ℕ)
    → Cursor src dst pre post done lsize s d
    → get_elem? src s ≡ some c
    → (post' : List ℕ) × (post ≡ c ∷ post')
Cursor-next src dst pre [] done lsize s d c k h =
    let n : get_elem? (pre ++ []) (length pre + 0) ≡ none = get_elem?-append_right pre [] 0 in
    let z : length pre + 0 ≡ length pre = omega arith in
    let m : get_elem? src s ≡ none =
      ap (λ t. get_elem? t s) k.source ∙ ap (get_elem? (pre ++ [])) (k.from ∙ sym z) ∙ n in
    absurd (cc)
Cursor-next src dst pre (x ∷ post) done lsize s d c k h =
    let m : get_elem? src s ≡ some x =
      ap (λ t. get_elem? t s) k.source
      ∙ ap (get_elem? (pre ++ (x ∷ post))) k.from
      ∙ get_elem?-next pre x post in
    let same : x ≡ c = cc in (post, ap (λ t. t ∷ post) same)
