-- ===== src/Compress/Zle/Inputs.antt =====
-- `zle_decode` of src/compress.rs on any input that it accepts: the input is an encoding of runs.
use mathlib.Core.Path.{subst}
use lamzfs.Common.{
  ℕ, zero, suc, ◌+◌, ◌-◌, ◌≡◌, refl, ap, ◌∙◌, List, [], ◌∷◌, ◌++◌, arith, ltb, if◌then◌else◌, drop,
  replicate, get_elem?, get_range, All, Bool-cases, inl, inr,
}
use lamzfs.Outcome.{IfOk-map, ok, err, ok_or, ◌>>=◌, ok_or-eq-ok, IfOk, IfOk->>=, IfOk-elim}
use lamzfs.Compress.Zle.{zle_bad, write_at, zle_loop, zle_decode}
use lamzfs.Compress.Zle.Runs.{Run, IsRun, expand, encode}
use lamzfs.Compress.Zle.Cursor.{
  IsByte, All-drop, Encodes, Encodes-literal, Encodes-zeros, Cursor, Cursor-literal, Cursor-zeros,
  Cursor-next,
}

zle_loop-Encodes :
    (fuel : ℕ) (src : List ℕ) (lsize : ℕ) (dst : List ℕ) (s d : ℕ) (pre post done : List ℕ)
    → Cursor src dst pre post done lsize s d
    → All IsByte post
    → IfOk (Encodes post done) (zle_loop fuel src lsize dst s d)
unfolding zle_loop encode expand
zle_loop-Encodes zero src lsize dst s d pre post done k bytes = tt
zle_loop-Encodes (suc fuel) src lsize dst s d pre post done k bytes =
    elim (Bool-cases (ltb d lsize)) [
      | inr e ↦
          let none_left : lsize - d ≡ 0 = ground arith in
          rw e ([], post, tt, refl, k.target ∙ ap (λ n. done ++ replicate n 0) none_left)
      | inl e ↦ rw e (
          IfOk->>= (Encodes post done) (ok_or (get_elem? src s) zle_bad) _ λ c h.
            let at = ok_or-eq-ok (get_elem? src s) zle_bad h in
            let (post', p) = Cursor-next src dst pre post done lsize s d c k at in
            round (zle_loop-Encodes fuel src lsize) c post' p)
    ]
  where
    round :
        ((dst : List ℕ) (s d : ℕ) (pre post done : List ℕ)
          → Cursor src dst pre post done lsize s d
          → All IsByte post
          → IfOk (Encodes post done) (zle_loop fuel src lsize dst s d))
        → (c : ℕ) (post' : List ℕ) → post ≡ c ∷ post'
        → IfOk (Encodes post done) (
            if ltb c 64
            then (ok_or (get_range src (s + 1) (c + 1)) zle_bad >>= λ run.
                ok_or (write_at dst d run) zle_bad >>= λ out.
                zle_loop fuel src lsize out (s + 1 + (c + 1)) (d + (c + 1)))
            else if ltb lsize (d + (c - 64 + 1))
            then err zle_bad
            else zle_loop fuel src lsize dst (s + 1) (d + (c - 64 + 1)))
    round again c post' p =
        let k' : Cursor src dst pre (c ∷ post') done lsize s d =
          subst (λ t. Cursor src dst pre t done lsize s d) p k in
        let (byte, rest) : All IsByte (c ∷ post') = subst (All IsByte) p bytes in
        elim (Bool-cases (ltb c 64)) [
          | inl small ↦
              rw (small, p)
                (IfOk->>= (Encodes (c ∷ post') done) (ok_or (get_range src (s + 1) (c + 1)) zle_bad)
                  _
                  λ run r.
                    IfOk->>= (Encodes (c ∷ post') done) (ok_or (write_at dst d run) zle_bad) _
                      λ out w.
                        let (len, front, next) =
                          Cursor-literal src dst pre post' done lsize s d c run out k'
                            (ok_or-eq-ok (get_range src (s + 1) (c + 1)) zle_bad r)
                            (ok_or-eq-ok (write_at dst d run) zle_bad w) in
                        IfOk-map (Encodes (drop (c + 1) post') (done ++ run))
                          (Encodes (c ∷ post') done) _
                          (λ o. Encodes-literal c post' run done o (ground arith) len front)
                          (again out (s + 1 + (c + 1)) (d + (c + 1)) (pre ++ (c ∷ run))
                            (drop (c + 1) post') (done ++ run) next
                            (All-drop IsByte (c + 1) post' rest)))
          | inr big ↦ elim (Bool-cases (ltb lsize (d + (c - 64 + 1)))) [
            | inl over ↦ rw (big, over) tt
            | inr fits ↦
                rw (big, fits, p)
                  (IfOk-map (Encodes post' (done ++ replicate (c - 64 + 1) 0))
                    (Encodes (c ∷ post') done) _
                    (λ o. Encodes-zeros c post' done o (ground arith) byte)
                    (again dst (s + 1) (d + (c - 64 + 1)) (pre ++ (c ∷ [])) post'
                      (done ++ replicate (c - 64 + 1) 0)
                      (Cursor-zeros src dst pre post' done lsize s d c k' (ground arith)) rest))
          ]
        ]

-- A ZLE input of bytes that decodes is an encoding: it begins with literal runs of 1 to 64 bytes and
-- runs of 1 to 192 zeros whose bytes, in order, are what `zle_decode` returns.
pub zle_decode-Encodes :
    (src : List ℕ) (lsize : ℕ) (out : List ℕ)
    → All IsByte src
    → zle_decode src lsize ≡ ok out
    → (runs : List Run) × (junk : List ℕ) × All IsRun runs
      × (src ≡ encode runs ++ junk)
      × (out ≡ expand runs)
unfolding zle_decode
zle_decode-Encodes src lsize out bytes h =
    let whole : lsize ≡ lsize - 0 = omega arith in
    IfOk-elim (Encodes src []) (zle_decode src lsize)
      (zle_loop-Encodes (lsize + 1) src lsize (replicate lsize 0) 0 0 [] src []
        (record {
          source = refl;
          from = refl;
          to = refl;
          target = ap (λ n. replicate n 0) whole;
          room = omega arith;
        })
        bytes)
      out h
