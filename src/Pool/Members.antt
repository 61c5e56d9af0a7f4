-- ===== src/Pool/Members.antt =====
-- The search for a member by its guid in src/pool.rs: exactly what it finds, and what ends it.
use mathlib.Core.Path.{subst}
use lamzfs.Common.{
  ℕ, zero, suc, ◌+◌, ◌≡◌, ◌↔◌, refl, ap, ◌∙◌, some, true, false, List, [], ◌∷◌, ◌++◌, arith,
  if◌then◌else◌, length, take, get_elem?, All, Bool-cases, inl, inr,
}
use lamzfs.Error.{Error}
use lamzfs.Outcome.{ok, err, ◌>>=◌, >>=-eq-ok, >>=-of-ok, ok-injective}
use lamzfs.Vendored.{Vendored}
use lamzfs.BlockRead.{PoolMember}
use lamzfs.Pool.Placed.{IsMember}
use lamzfs.Pool.Build.{read_nvpairs, label_has_guid, find_from, find_member_by_guid}

module _ (v : Vendored) (guid : ℕ) where
  -- A member whose label reads and does not carry the guid: the checksum or the nvlist may be bad.
  abbrev pub IsOther : PoolMember → Type 0
  IsOther m =
      (label : List ℕ) × (read_nvpairs v m ≡ ok label) × (label_has_guid v label guid ≡ false)

  -- The search with others behind it.
  find_from-others :
      (before after : List PoolMember) (i : ℕ)
      → All IsOther before
      → find_from v (before ++ after) i guid ≡ find_from v after (i + length before) guid
  unfolding find_from
  find_from-others [] after i h =
      let z : i ≡ i + 0 = omega arith in ap (λ n. find_from v after n guid) z
  find_from-others (m ∷ before) after i ((label, e, no_guid), h) =
      let step : i + 1 + length before ≡ i + suc (length before) = omega arith in
      >>=-of-ok (read_nvpairs v m) _ e (
        ap (λ b. if b then ok i else find_from v (before ++ after) (i + 1) guid) no_guid
        ∙ find_from-others before after (i + 1) h
        ∙ ap (λ n. find_from v after n guid) step)

  -- A member that is found, with the others before it.
  FoundAt : List PoolMember → ℕ → Type 0
  FoundAt members k = IsMember v members guid k × All IsOther (take k members)

  find_from-FoundAt :
      (members : List PoolMember) (i k : ℕ)
      → find_from v members i guid ≡ ok k
      → (j : ℕ) × (k ≡ i + j) × FoundAt members j
  unfolding find_from FoundAt
  find_from-FoundAt [] i k h = absurd (cc)
  find_from-FoundAt (m ∷ members) i k h =
      let (label, e, g) = >>=-eq-ok (read_nvpairs v m) _ h in
      elim (Bool-cases (label_has_guid v label guid)) [
        | inl q ↦
            let r : i ≡ k = ok-injective (rw q at g) in
            (
              0,
              omega arith,
              (record { member = m; at = refl; label = label; reads = e; named = q }, tt),
            )
        | inr q ↦
            let (j, p, (w, o)) = find_from-FoundAt members (i + 1) k (rw q at g) in
            (
              suc j,
              omega arith,
              (
                record {
                  member = w.member;
                  at = w.at;
                  label = w.label;
                  reads = w.reads;
                  named = w.named;
                },
                ((label, e, q), o),
              ),
            )
      ]

  find_from-here :
      (m : PoolMember) (after : List PoolMember) (i : ℕ) (label : List ℕ)
      → read_nvpairs v m ≡ ok label
      → label_has_guid v label guid ≡ true
      → find_from v (m ∷ after) i guid ≡ ok i
  unfolding find_from
  find_from-here m after i label e q =
      >>=-of-ok (read_nvpairs v m) _ e
        (ap (λ b. if b then ok i else find_from v after (i + 1) guid) q)

  -- A list at one of its elements.
  split_at :
      (members : List PoolMember) (k : ℕ) {m : PoolMember}
      → get_elem? members k ≡ some m
      → (after : List PoolMember) × (members ≡ take k members ++ m ∷ after)
        × (length (take k members) ≡ k)
  split_at [] k h = absurd (cc)
  split_at (x ∷ members) zero {m} h =
      let same : x ≡ m = cc in (members, ap (λ y. y ∷ members) same, refl)
  split_at (x ∷ members) (suc k) h =
      let (after, e, l) = split_at members k h in (after, ap (◌∷◌ x) e, ap suc l)

  -- The search gives exactly the first member whose label carries the guid, where the labels of all
  -- members before it can be read; that their checksums or nvlists are bad does not matter.
  pub find_member_by_guid_iff :
      (members : List PoolMember) (k : ℕ)
      → (find_member_by_guid v members guid ≡ ok k)
        ↔ (IsMember v members guid k × All IsOther (take k members))
  unfolding find_member_by_guid FoundAt
  find_member_by_guid_iff members k = (
    λ h.
        let (j, e, found) = find_from-FoundAt members 0 k h in
        let same : j ≡ k = omega arith in subst (FoundAt members) same found,
    λ (w, others).
        let (after, whole, l) = split_at members k w.at in
        let at : 0 + length (take k members) ≡ k = omega arith in
        ap (λ ms. find_from v ms 0 guid) whole
        ∙ find_from-others (take k members) (w.member ∷ after) 0 others
        ∙ find_from-here w.member after (0 + length (take k members)) w.label w.reads w.named
        ∙ ap ok at,
  )

  -- A member whose label cannot be read ends the search with the error of that read, whichever
  -- members follow, also where one of them carries the guid, if none before it does.
  pub find_member_by_guid-unreadable :
      (before after : List PoolMember) (m : PoolMember) (e : Error)
      → All IsOther before
      → read_nvpairs v m ≡ err e
      → find_member_by_guid v (before ++ m ∷ after) guid ≡ err e
  unfolding find_member_by_guid find_from
  find_member_by_guid-unreadable before after m e others unreadable =
      find_from-others before (m ∷ after) 0 others
      ∙ ap
          (λ o. o >>= λ buf.
            if label_has_guid v buf guid
            then ok (0 + length before)
            else find_from v after (0 + length before + 1) guid)
          unreadable
