-- ===== src/Compress/Zle/Runs.antt =====
-- `zle_decode` of src/compress.rs against an encoder of literal runs and runs of zeros.
use lamzfs.Common.{
  ℕ, zero, suc, ◌+◌, ◌-◌, ◌≤◌, ◌<◌, ◌≡◌, refl, ap, sym, ◌∙◌, some, true, false, List, [], ◌∷◌, ◌++◌,
  arith, ltb, leb, length, drop, replicate, get_elem?, get_range, All, length-append,
  length-replicate, append_assoc, replicate-add, get_range-middle, get_elem?-append_right, drop_all,
  take_all,
}
use lamzfs.Outcome.{ok}
use lamzfs.Compress.Zle.{write_at, zle_loop, zle_decode}

-- The runs that the format has.
pub data Run : Type 0 where
  literal : List ℕ → Run
  zeros : ℕ → Run

-- A literal run has 1 to 64 bytes, a run of zeros has length 1 to 192.
abbrev pub IsRun : Run → Type 0
IsRun (literal bs) = (0 < length bs) × (length bs ≤ 64)
IsRun (zeros n) = (0 < n) × (n ≤ 192)

unfoldable pub run_bytes : Run → List ℕ
run_bytes (literal bs) = bs
run_bytes (zeros n) = replicate n 0

unfoldable pub run_code : Run → List ℕ
run_code (literal bs) = (length bs - 1) ∷ bs
run_code (zeros n) = (63 + n) ∷ []

unfoldable pub expand : List Run → List ℕ
unfolding run_bytes
expand [] = []
expand (run ∷ runs) = run_bytes run ++ expand runs

unfoldable pub encode : List Run → List ℕ
unfolding run_code
encode [] = []
encode (run ∷ runs) = run_code run ++ encode runs

-- A write into the zeros behind what is done.
pub write_at-zeros :
    (done run : List ℕ) (n : ℕ)
    → write_at (done ++ replicate (length run + n) 0) (length done) run
      ≡ some ((done ++ run) ++ replicate n 0)
unfolding write_at
write_at-zeros done run n =
    let zs = replicate {A = ℕ} (length run + n) 0 in
    let fits : leb (length done + length run) (length (done ++ zs)) ≡ true =
      ground (arith, length-append done zs, length-replicate {A = ℕ} (length run + n) 0) in
    let split : done ++ zs ≡ (done ++ replicate (length run) 0) ++ replicate n 0 =
      ap (◌++◌ done) (replicate-add (length run) n 0)
      ∙ sym (append_assoc done (replicate (length run) 0) (replicate n 0)) in
    let len : length (done ++ replicate (length run) 0) ≡ length done + length run = omega (
      arith,
      length-append done (replicate {A = ℕ} (length run) 0),
      length-replicate {A = ℕ} (length run) 0,
    ) in
    let past : drop (length done + length run) (done ++ zs) ≡ replicate n 0 =
      ap (drop (length done + length run)) split
      ∙ ap (λ k. drop k ((done ++ replicate (length run) 0) ++ replicate n 0)) (sym len)
      ∙ drop_all (done ++ replicate (length run) 0) (replicate n 0) in
    rw (fits, take_all done zs, past) refl

pub get_elem?-next :
    (pre : List ℕ) (c : ℕ) (post : List ℕ) → get_elem? (pre ++ (c ∷ post)) (length pre) ≡ some c
get_elem?-next pre c post =
    let z : length pre + 0 ≡ length pre = omega arith in
    rw z at (get_elem?-append_right pre (c ∷ post) 0)

-- The slice behind a control byte.
get_range-next :
    (pre : List ℕ) (c : ℕ) (run post : List ℕ)
    → get_range (pre ++ (c ∷ (run ++ post))) (length pre + 1) (length run) ≡ some run
get_range-next pre c run post =
    let shift : length (pre ++ c ∷ []) ≡ length pre + 1 =
      omega (arith, length-append pre (c ∷ [])) in
    rw (append_assoc pre (c ∷ []) (run ++ post), shift) at
      (get_range-middle (pre ++ c ∷ []) run post)

length-expand-cons :
    (run : Run) (runs : List Run)
    → length (expand (run ∷ runs)) ≡ length (run_bytes run) + length (expand runs)
unfolding expand
length-expand-cons run runs = length-append (run_bytes run) (expand runs)

-- One round of the loop: a literal run, and a run of zeros.
pub round_literal :
    (fuel : ℕ) (src : List ℕ) (lsize : ℕ) (dst : List ℕ) (s d c : ℕ) (run out : List ℕ)
    → d < lsize
    → get_elem? src s ≡ some c
    → c < 64
    → get_range src (s + 1) (c + 1) ≡ some run
    → write_at dst d run ≡ some out
    → zle_loop (suc fuel) src lsize dst s d
      ≡ zle_loop fuel src lsize out (s + 1 + (c + 1)) (d + (c + 1))
unfolding zle_loop
round_literal fuel src lsize dst s d c run out more at small range write =
    let a : ltb d lsize ≡ true = ground arith in
    let b : ltb c 64 ≡ true = ground arith in rw (a, at, b, range, write) refl

pub round_zeros :
    (fuel : ℕ) (src : List ℕ) (lsize : ℕ) (dst : List ℕ) (s d c : ℕ)
    → get_elem? src s ≡ some c
    → 64 ≤ c
    → d + (c - 64 + 1) ≤ lsize
    → zle_loop (suc fuel) src lsize dst s d ≡ zle_loop fuel src lsize dst (s + 1) (d + (c - 64 + 1))
unfolding zle_loop
round_zeros fuel src lsize dst s d c at big fits =
    let a : ltb d lsize ≡ true = ground arith in
    let b : ltb c 64 ≡ false = ground arith in
    let f : ltb lsize (d + (c - 64 + 1)) ≡ false = ground arith in rw (a, at, b, f) refl

-- Where the loop stands: `done` is decoded from `pre`, and the runs are still to come.
module _ (lsize : ℕ) (junk : List ℕ) where
  record At (runs : List Run) (src dst pre done : List ℕ) (s d : ℕ) : Type 0 where
    source : src ≡ pre ++ (encode runs ++ junk)
    target : dst ≡ done ++ replicate (length (expand runs)) 0
    from : s ≡ length pre
    to : d ≡ length done
    size : length done + length (expand runs) ≡ lsize

  zle_loop-runs :
      (runs : List Run) (fuel : ℕ) (src dst pre done : List ℕ) (s d : ℕ)
      → At runs src dst pre done s d
      → All IsRun runs
      → length runs < fuel
      → zle_loop fuel src lsize dst s d ≡ ok (done ++ expand runs)
  unfolding zle_loop expand encode run_bytes run_code
  zle_loop-runs runs zero src dst pre done s d a v l = absurd (omega arith)
  zle_loop-runs [] (suc fuel) src dst pre done s d a v l =
      let full : ltb d lsize ≡ false = ground (arith, a.size, a.to) in rw full (ap ok a.target)
  zle_loop-runs (literal bs ∷ runs) (suc fuel) src dst pre done s d a ((low, high), v) l =
      let total = length-expand-cons (literal bs) runs in
      let layout : src ≡ pre ++ ((length bs - 1) ∷ (bs ++ (encode runs ++ junk))) =
        a.source ∙ ap (λ t. pre ++ ((length bs - 1) ∷ t)) (append_assoc bs (encode runs) junk) in
      let back : length bs - 1 + 1 ≡ length bs = omega arith in
      let at : get_elem? src s ≡ some (length bs - 1) =
        rw (layout, a.from) (get_elem?-next pre (length bs - 1) (bs ++ (encode runs ++ junk))) in
      let range : get_range src (s + 1) (length bs - 1 + 1) ≡ some bs =
        rw (layout, a.from, back) (get_range-next pre (length bs - 1) bs (encode runs ++ junk)) in
      let write : write_at dst d bs ≡ some ((done ++ bs) ++ replicate (length (expand runs)) 0) =
        rw (a.target, a.to, total) (write_at-zeros done bs (length (expand runs))) in
      let next : At runs src ((done ++ bs) ++ replicate (length (expand runs)) 0)
          (pre ++ (length bs - 1) ∷ bs) (done ++ bs) (s + 1 + (length bs - 1 + 1))
          (d + (length bs - 1 + 1)) =
        record {
          source = layout ∙ sym (append_assoc pre ((length bs - 1) ∷ bs) (encode runs ++ junk));
          target = refl;
          from = omega (arith, a.from, length-append pre ((length bs - 1) ∷ bs));
          to = omega (arith, a.to, length-append done bs);
          size = omega (arith, a.size, total, length-append done bs);
        } in
      round_literal fuel src lsize dst s d (length bs - 1) bs
        ((done ++ bs) ++ replicate (length (expand runs)) 0) (omega (arith, a.size, a.to, total)) at
        (omega arith) range write
      ∙ zle_loop-runs runs fuel src ((done ++ bs) ++ replicate (length (expand runs)) 0)
          (pre ++ (length bs - 1) ∷ bs) (done ++ bs) (s + 1 + (length bs - 1 + 1))
          (d + (length bs - 1 + 1)) next v (omega arith)
      ∙ ap ok (append_assoc done bs (expand runs))
  zle_loop-runs (zeros n ∷ runs) (suc fuel) src dst pre done s d a ((low, high), v) l =
      let total = length-expand-cons (zeros n) runs in
      let count = length-replicate {A = ℕ} n 0 in
      let at : get_elem? src s ≡ some (63 + n) =
        rw (a.source, a.from) (get_elem?-next pre (63 + n) (encode runs ++ junk)) in
      let all : length (expand (zeros n ∷ runs)) ≡ n + length (expand runs) =
        omega (arith, total, count) in
      let next : At runs src dst (pre ++ (63 + n) ∷ []) (done ++ replicate n 0) (s + 1)
          (d + (63 + n - 64 + 1)) =
        record {
          source = a.source ∙ sym (append_assoc pre ((63 + n) ∷ []) (encode runs ++ junk));
          target =
              a.target
              ∙ ap (λ k. done ++ replicate k 0) all
              ∙ ap (◌++◌ done) (replicate-add n (length (expand runs)) 0)
              ∙ sym (append_assoc done (replicate n 0) (replicate (length (expand runs)) 0));
          from = omega (arith, a.from, length-append pre ((63 + n) ∷ []));
          to = omega (arith, a.to, length-append done (replicate {A = ℕ} n 0), count);
          size = omega (arith, a.size, all, length-append done (replicate {A = ℕ} n 0), count);
        } in
      round_zeros fuel src lsize dst s d (63 + n) at (omega arith)
        (omega (arith, a.size, a.to, all))
      ∙ zle_loop-runs runs fuel src dst (pre ++ (63 + n) ∷ []) (done ++ replicate n 0) (s + 1)
          (d + (63 + n - 64 + 1)) next v (omega arith)
      ∙ ap ok (append_assoc done (replicate n 0) (expand runs))

-- Each run gives a byte at least.
length-runs : (runs : List Run) → All IsRun runs → length runs ≤ length (expand runs)
unfolding expand run_bytes
length-runs [] v = omega arith
length-runs (literal bs ∷ runs) ((low, _), v) =
    omega (arith, length-expand-cons (literal bs) runs, length-runs runs v)
length-runs (zeros n ∷ runs) ((low, _), v) =
    omega
      (arith, length-expand-cons (zeros n) runs, length-replicate {A = ℕ} n 0, length-runs runs v)

-- Decoding the runs that were encoded gives their bytes, for literal runs of 1 to 64 bytes and runs
-- of 1 to 192 zeros, whatever follows the encoding in the sectors.
pub zle_decode-encode :
    (runs : List Run) (junk : List ℕ)
    → All IsRun runs
    → zle_decode (encode runs ++ junk) (length (expand runs)) ≡ ok (expand runs)
unfolding zle_decode
zle_decode-encode runs junk v =
    zle_loop-runs (length (expand runs)) junk runs (length (expand runs) + 1) (encode runs ++ junk)
      (replicate (length (expand runs)) 0) [] [] 0 0
      (record { source = refl; target = refl; from = refl; to = refl; size = omega arith }) v
      (omega (arith, length-runs runs v))
