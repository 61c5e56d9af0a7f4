-- ===== src/Pool/Placed.antt =====
-- What the layout that `build_topology` of src/pool.rs makes has to be, given the vdev tree.
use lamzfs.Common.{
  false, ◌<◌, ◌≢◌, ◌⊎◌, ℕ, suc, ◌+◌, ◌≤◌, ◌≡◌, refl, Option, none, some, true, List, [], ◌∷◌, arith,
  length, get_elem?, Bool-cases, inl, inr,
}
use lamzfs.Common.Bytes.{codes}
use lamzfs.Outcome.{ok, >>=-eq-ok, IfOk}
use lamzfs.Phys.{NvList}
use lamzfs.Vendored.{Vendored}
use lamzfs.BlockRead.{PoolMember}
use lamzfs.Vdev.Tree.{Layout, single, mirror, raidz1}
use lamzfs.Pool.Nv.{nv_has, nv_str, nv_u64, nv_child_guids}
use lamzfs.Pool.Build.{read_nvpairs, label_has_guid, find_from, find_member_by_guid, present_count}

-- The lists are as long as each other, and the predicate holds of what stands at each place.
abbrev pub Paired : {A B : Type 0} → (A → B → Type 0) → List A → List B → Type 0
Paired P [] [] = Unit
Paired P [] (y ∷ ys) = ⊥
Paired P (x ∷ xs) [] = ⊥
Paired P (x ∷ xs) (y ∷ ys) = P x y × Paired P xs ys

-- A number that fits a byte, or the default.
abbrev pub ByteOr : ℕ → ℕ → ℕ → Type 0
ByteOr n d a = ((n < 256) × (a ≡ n)) ⊎ ((256 ≤ n) × (a ≡ d))

module _ (v : Vendored) where
  -- The member at this index carries a label with the guid.
  pub record IsMember (members : List PoolMember) (guid i : ℕ) : Type 0 where
    pub member : PoolMember
    pub at : get_elem? members i ≡ some member
    pub label : List ℕ
    pub reads : read_nvpairs v member ≡ ok label
    pub named : label_has_guid v label guid ≡ true

  find_from-IsMember :
      (guid : ℕ) (members : List PoolMember) (i k : ℕ)
      → find_from v members i guid ≡ ok k
      → (j : ℕ) × (k ≡ i + j) × IsMember members guid j
  unfolding find_from
  find_from-IsMember guid [] i k h = absurd (cc)
  find_from-IsMember guid (m ∷ members) i k h =
      let (buf, e, g) = >>=-eq-ok (read_nvpairs v m) _ h in
      elim (Bool-cases (label_has_guid v buf guid)) [
        | inl q ↦
            let r = rw q at g in
            (0, ground arith, record { member = m; at = refl; label = buf; reads = e; named = q })
        | inr q ↦
            let (j, p, w) = find_from-IsMember guid members (i + 1) k (rw q at g) in
            (
              suc j,
              omega arith,
              record {
                member = w.member;
                at = w.at;
                label = w.label;
                reads = w.reads;
                named = w.named;
              },
            )
      ]

  -- The member that `find_member_by_guid` gives is one whose label reads, verifies and carries the
  -- guid.
  pub find_member_by_guid_sound :
      (members : List PoolMember) (guid k : ℕ)
      → find_member_by_guid v members guid ≡ ok k
      → IsMember members guid k
  unfolding find_member_by_guid
  find_member_by_guid_sound members guid k h =
      let (j, e, w) = find_from-IsMember guid members 0 k h in
      let same : k ≡ j = omega arith in rw same w

  -- The slot of a RAID-Z1 child: a member with the child's guid, or nothing if the search for the
  -- guid ends with an error.
  abbrev pub IsSlot : List PoolMember → ℕ → Option ℕ → Type 0
  IsSlot members guid none = (k : ℕ) → find_member_by_guid v members guid ≢ ok k
  IsSlot members guid (some k) = IsMember members guid k

  -- What the vdev tree of a RAID-Z1 vdev says, and its layout.
  pub record IsRaidz (vtree : NvList) (members : List PoolMember) (slots : List (Option ℕ))
      (ashift : ℕ) : Type 0 where
    pub kind : nv_str vtree "type" ≡ ok (codes "raidz")
    pub one_parity : IfOk (λ n. n ≡ 1) (nv_u64 vtree "nparity")
    pub not_expanded : nv_has vtree "raidz_expand_txgs" ≡ ok false
    pub not_expanding : nv_has vtree "raidz_expanding" ≡ ok false
    pub guids : List ℕ
    pub children : nv_child_guids vtree ≡ ok guids
    pub placed : Paired (IsSlot members) guids slots
    pub one_absent : length slots ≤ present_count slots + 1
    pub shift : ℕ
    pub listed : nv_u64 vtree "ashift" ≡ ok shift
    pub ashift_is : ByteOr shift 9 ashift

  -- A layout that is the one of the vdev tree.
  abbrev pub Placed : NvList → List PoolMember → Layout → Type 0
  Placed vtree members (single k) =
      (k ≡ 0)
      × ((nv_str vtree "type" ≡ ok (codes "disk")) ⊎ (nv_str vtree "type" ≡ ok (codes "file")))
  Placed vtree members (mirror ks) =
      (nv_str vtree "type" ≡ ok (codes "mirror"))
      × (guids : List ℕ) × (nv_child_guids vtree ≡ ok guids)
      × Paired (IsMember members) guids ks
  Placed vtree members (raidz1 slots ashift) = IsRaidz vtree members slots ashift
