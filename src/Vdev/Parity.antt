-- ===== src/Vdev/Parity.antt =====
-- The XOR reconstruction of src/vdev.rs: where column 0 is the parity of the others, one column is
-- rebuilt from all the rest, byte for byte.
use lamzfs.Common.{
  ℕ, zero, suc, ◌+◌, ◌-◌, ◌≤◌, ◌<◌, ◌≡◌, ◌≢◌, refl, ap, sym, ◌∙◌, bit_xor, Option, some, ◌||◌, List,
  [], ◌∷◌, ◌++◌, arith, ◌==◌, if◌then◌else◌, length, get_elem?, get_or, replicate, get_or-take,
  get_or-append_left, get_or_ext, get_elem?_bound, Bool-cases, inl, inr,
}
use lamzfs.Common.Xor.{bit_xor_comm, bit_xor_assoc, bit_xor_cancel, bit_xor-zero}
use lamzfs.BlockRead.{fill, length-fill}
use lamzfs.Vdev.Raidz.{RaidzCol, xor_into, xor_columns, raidz1_reconstruct, join}

bit_xor_left_comm : (a b c : ℕ) → bit_xor a (bit_xor b c) ≡ bit_xor b (bit_xor a c)
bit_xor_left_comm a b c =
    sym (bit_xor_assoc a b c) ∙ ap (λ x. bit_xor x c) (bit_xor_comm a b) ∙ bit_xor_assoc b a c

abbrev pub byte_at : List ℕ → ℕ → ℕ
byte_at bs k = get_or bs k 0

length-xor_into : (rs bs : List ℕ) → length (xor_into rs bs) ≡ length rs
unfolding xor_into
length-xor_into [] bs = refl
length-xor_into (r ∷ rs) [] = refl
length-xor_into (r ∷ rs) (b ∷ bs) = ap suc (length-xor_into rs bs)

byte_at-xor_into :
    (rs bs : List ℕ) (k : ℕ)
    → k < length rs
    → byte_at (xor_into rs bs) k ≡ bit_xor (byte_at rs k) (byte_at bs k)
unfolding xor_into
byte_at-xor_into [] bs k h = absurd (omega arith)
byte_at-xor_into (r ∷ rs) [] k h = sym (bit_xor-zero _)
byte_at-xor_into (r ∷ rs) (b ∷ bs) zero h = refl
byte_at-xor_into (r ∷ rs) (b ∷ bs) (suc k) h = byte_at-xor_into rs bs k (omega arith)

module _ (d : ℕ → List ℕ) where
  -- Byte `k` of the exclusive or of `n` columns from number `i`.
  unfoldable pub xor_of : ℕ → ℕ → ℕ → ℕ
  xor_of zero i k = 0
  xor_of (suc n) i k = bit_xor (byte_at (d i) k) (xor_of n (i + 1) k)

  -- The same without the parity and the target.
  others : ℕ → ℕ → ℕ → ℕ → ℕ
  others target zero i k = 0
  others target (suc n) i k =
      if i == 0 || i == target
      then others target n (i + 1) k
      else bit_xor (byte_at (d i) k) (others target n (i + 1) k)

  -- The target's own byte stands in the sum once, if its number is in range.
  others_all : (target n i k : ℕ) → 0 < i → target < i → others target n i k ≡ xor_of n i k
  unfolding xor_of others
  others_all target zero i k h l = refl
  others_all target (suc n) i k h l = ground (arith, others_all target n (i + 1) k)

  others_but :
      (target n i k : ℕ)
      → 0 < i
      → i ≤ target
      → target < i + n
      → bit_xor (byte_at (d target) k) (others target n i k) ≡ xor_of n i k
  unfolding xor_of others
  others_but target zero i k h l m = absurd (omega arith)
  others_but target (suc n) i k h l m = elim (Bool-cases (i == target)) [
    | inl e ↦ ground (arith, others_all target n (i + 1) k)
    | inr e ↦ ground (
      arith,
      others_but target n (i + 1) k,
      bit_xor_left_comm (byte_at (d target) k) (byte_at (d i) k) (others target n (i + 1) k),
    )
  ]

  -- The columns that the loop mixes in are there.
  abbrev Present : List (Option (List ℕ)) → ℕ → ℕ → ℕ → Type 0
  Present colbufs target n i =
      (j : ℕ) → i ≤ j → j < i + n → j ≢ 0 → j ≢ target → join (get_elem? colbufs j) ≡ some (d j)

  -- What the loop leaves in the buffer.
  record Mixed (target n i : ℕ) (rebuilt : List ℕ) (o : Option (List ℕ)) : Type 0 where
    out : List ℕ
    returns : o ≡ some out
    same_length : length out ≡ length rebuilt
    bytes :
        (k : ℕ)
        → k < length rebuilt
        → byte_at out k ≡ bit_xor (byte_at rebuilt k) (others target n i k)

  xor_columns-Mixed :
      (colbufs : List (Option (List ℕ))) (target : ℕ) (cols : List RaidzCol) (i : ℕ)
      (rebuilt : List ℕ)
      → Present colbufs target (length cols) i
      → Mixed target (length cols) i rebuilt (xor_columns colbufs target cols i rebuilt)
  unfolding xor_columns others
  xor_columns-Mixed colbufs target [] i rebuilt h = record {
    out = rebuilt;
    returns = refl;
    same_length = refl;
    bytes = λ k l. sym (bit_xor-zero _);
  }
  xor_columns-Mixed colbufs target (col ∷ cols) i rebuilt h =
      elim (Bool-cases (i == 0 || i == target)) [
        | inl e ↦
            let m =
              xor_columns-Mixed colbufs target cols (i + 1) rebuilt
                (λ j l r. h j (omega arith) (omega arith)) in
            record {
              out = m.out;
              returns = rw (e, xor_columns) m.returns;
              same_length = m.same_length;
              bytes = λ k l. rw (e, others) (m.bytes k l);
            }
        | inr e ↦
            let m =
              xor_columns-Mixed colbufs target cols (i + 1) (xor_into rebuilt (d i))
                (λ j l r. h j (omega arith) (omega arith)) in
            let here : join (get_elem? colbufs i) ≡ some (d i) =
              h i (omega arith) (omega arith) (ground arith) (ground arith) in
            record {
              out = m.out;
              returns = rw (e, here) m.returns;
              same_length = m.same_length ∙ length-xor_into rebuilt (d i);
              bytes = λ k l. rw e (
                  m.bytes k (rw length-xor_into l)
                  ∙ ap (λ b. bit_xor b (others target (length cols) (i + 1) k))
                      (byte_at-xor_into rebuilt (d i) k l)
                  ∙ bit_xor_assoc (byte_at rebuilt k) (byte_at (d i) k) _);
            }
      ]

  -- One row of columns: `d i` is what column `i` holds, as long as the map says, and column 0 is the
  -- exclusive or of the others, each read as zeros past its end.
  pub record IsRow (cols : List RaidzCol) : Type 0 where
    pub sizes : (i : ℕ) (x : RaidzCol) → get_elem? cols i ≡ some x → length (d i) ≡ x.size
    pub parity : (k : ℕ) → k < length (d 0) → byte_at (d 0) k ≡ xor_of (length cols - 1) 1 k

  -- All columns but the target are at hand.
  abbrev pub AllBut : List (Option (List ℕ)) → ℕ → ℕ → Type 0
  AllBut colbufs target n = (j : ℕ) → j < n → j ≢ target → join (get_elem? colbufs j) ≡ some (d j)

  xor_cancels :
      (target n k : ℕ)
      → 0 < target
      → target < suc n
      → bit_xor (xor_of n 1 k) (others target (suc n) 0 k) ≡ byte_at (d target) k
  unfolding others
  xor_cancels target n k h l =
      rw (← others_but target n 1 k (omega arith) (omega arith) (omega arith))
        (bit_xor_cancel (byte_at (d target) k) (others target n 1 k))

byte_at-fill :
    (n : ℕ) (bs : List ℕ) (k : ℕ) → n ≤ length bs → k < n → byte_at (fill n bs) k ≡ byte_at bs k
unfolding fill
byte_at-fill n bs k h l =
    get_or-take n k (bs ++ replicate n 0) 0 l
    ∙ get_or-append_left bs (replicate n 0) k 0 (omega arith)

-- Where column 0 is the parity and at least as long as the target, a data column is rebuilt exactly
-- from all the other columns.
pub raidz1_reconstruct_lem :
    (d : ℕ → List ℕ) (cols : List RaidzCol) (colbufs : List (Option (List ℕ))) (target : ℕ)
    (col : RaidzCol)
    → IsRow d cols
    → 0 < target
    → get_elem? cols target ≡ some col
    → col.size ≤ length (d 0)
    → AllBut d colbufs target (length cols)
    → raidz1_reconstruct cols colbufs target ≡ some (d target)
unfolding raidz1_reconstruct
raidz1_reconstruct_lem d [] colbufs target col row pos at fits h = absurd (cc)
raidz1_reconstruct_lem d (c ∷ cols) colbufs target col row pos at fits h =
    let below : target < suc (length cols) = get_elem?_bound (c ∷ cols) target at in
    let first : join (get_elem? colbufs 0) ≡ some (d 0) = h 0 (omega arith) (omega arith) in
    let m =
      xor_columns-Mixed d colbufs target (c ∷ cols) 0 (fill col.size (d 0))
        (λ j _ l _ r. h j (omega arith) r) in
    let seed : length (fill col.size (d 0)) ≡ col.size = length-fill col.size (d 0) in
    let size : length (d target) ≡ col.size = row.sizes target col at in
    let count : suc (length cols) - 1 ≡ length cols = omega arith in
    let whole : m.out ≡ d target =
      get_or_ext 0 m.out (d target) (omega (arith, m.same_length)) (λ k l.
        m.bytes k (omega (arith, m.same_length))
        ∙ ap (λ b. bit_xor b (others d target (suc (length cols)) 0 k))
            (byte_at-fill col.size (d 0) k fits (omega (arith, m.same_length))
              ∙ row.parity k (omega (arith, m.same_length))
              ∙ ap (λ n. xor_of d n 1 k) count)
        ∙ xor_cancels d target (length cols) k pos below) in
    rw (first, at, raidz1_reconstruct) (m.returns ∙ ap some whole)
