-- ===== src/Pool/Labels/Active.antt =====
-- `select_uberblock` of src/pool.rs: the newest of all the uberblocks that verify.
use lamzfs.Common.{
  ℕ, zero, suc, ◌+◌, ◌*◌, ◌/◌, ◌^◌, ◌≡◌, refl, ap, sym, ◌∙◌, Option, none, some, true, false, List,
  [], ◌∷◌, ◌++◌, arith, get_elem?, InList, Bool-cases, Option-cases, inl, inr, ◌⊎◌,
}
use lamzfs.Error.{no_valid_uberblock}
use lamzfs.Outcome.{ok, err, ok_or}
use lamzfs.Phys.{UberBlock, is_newer_than}
use lamzfs.Vendored.{Vendored}
use lamzfs.BlockRead.{PoolMember}
use lamzfs.Vdev.Tree.{Topology, topology_members}
use lamzfs.Pool.Labels.{
  label_uberblock_offset, uberblock_array_size, uberblock_shift, label_offsets, newer, uberblock_at,
  scan_slot, scan_slots, scan_labels, scan_members, select_uberblock,
}

-- The newest of a list, the first of those that are equally new.
unfoldable pick : Option UberBlock → List UberBlock → Option UberBlock
pick best [] = best
pick best (ub ∷ ubs) = pick (some (newer best ub)) ubs

pick-append :
    (best : Option UberBlock) (xs ys : List UberBlock)
    → pick best (xs ++ ys) ≡ pick (pick best xs) ys
unfolding pick
pick-append best [] ys = refl
pick-append best (x ∷ xs) ys = pick-append (some (newer best x)) xs ys

-- One is at least as new as the other.
abbrev pub NoNewer : UberBlock → UberBlock → Type 0
NoNewer a b = is_newer_than a b ≡ false

NoNewer-trans : (a b c : UberBlock) → NoNewer a b → NoNewer b c → NoNewer a c
unfolding is_newer_than
NoNewer-trans a b c h k = ground arith

NoNewer-refl : (a : UberBlock) → NoNewer a a
unfolding is_newer_than
NoNewer-refl a = ground arith

newer_wins : (a b : UberBlock) → is_newer_than a b ≡ true → NoNewer b a
unfolding is_newer_than
newer_wins a b h = ground arith

each_of :
    (P : UberBlock → Type 0) (y : UberBlock) (ys : List UberBlock)
    → P y
    → ((x : UberBlock) → InList x ys → P x)
    → (x : UberBlock) → InList x (y ∷ ys)
    → P x
each_of P y ys h k x (inl e) = rw e h
each_of P y ys h k x (inr i) = k x i

-- What `pick` keeps is one of them, and none is newer.
pick-some :
    (b : UberBlock) (ubs : List UberBlock)
    → (m : UberBlock) × (pick (some b) ubs ≡ some m)
      × InList m (b ∷ ubs)
      × NoNewer b m
      × ((ub : UberBlock) → InList ub ubs → NoNewer ub m)
unfolding pick newer
pick-some b [] = (b, refl, inl refl, NoNewer-refl b, λ ub i. absurd i)
pick-some b (u ∷ ubs) = elim (Bool-cases (is_newer_than u b)) [
  | inl e ↦
      let (m, p, i, n, all) = pick-some u ubs in
      (
        m,
        rw (e, pick) p,
        inr i,
        NoNewer-trans b u m (newer_wins u b e) n,
        each_of (λ x. NoNewer x m) u ubs n all,
      )
  | inr e ↦
      let (m, p, i, n, all) = pick-some b ubs in
      (m, rw (e, pick) p, keep i, n, each_of (λ x. NoNewer x m) u ubs (NoNewer-trans u b m e n) all)
]
  where
    keep : {m : UberBlock} → InList m (b ∷ ubs) → InList m (b ∷ u ∷ ubs)
    keep (inl q) = inl q
    keep (inr i) = inr (inr i)

module _ (v : Vendored) where
  -- The uberblocks of `left` slots from number `i`, of the labels at these offsets, of these members.
  abbrev cons? : Option UberBlock → List UberBlock → List UberBlock
  cons? none ubs = ubs
  cons? (some ub) ubs = ub ∷ ubs

  unfoldable in_slots : PoolMember → ℕ → ℕ → ℕ → ℕ → List UberBlock
  in_slots member slot label zero i = []
  in_slots member slot label (suc left) i =
      cons? (uberblock_at v member slot (label + label_uberblock_offset + i * slot))
        (in_slots member slot label left (i + 1))

  unfoldable in_labels : PoolMember → ℕ → ℕ → List ℕ → List UberBlock
  unfolding in_slots
  in_labels member slot count [] = []
  in_labels member slot count (label ∷ labels) =
      in_slots member slot label count 0 ++ in_labels member slot count labels

  unfoldable in_member : Option PoolMember → ℕ → ℕ → List UberBlock
  unfolding in_labels
  in_member none slot count = []
  in_member (some member) slot count =
      in_labels member slot count (label_offsets member.device_size_bytes)

  unfoldable pub in_members : List PoolMember → ℕ → ℕ → List ℕ → List UberBlock
  unfolding in_member
  in_members members slot count [] = []
  in_members members slot count (mi ∷ rest) =
      in_member (get_elem? members mi) slot count ++ in_members members slot count rest

  -- Every uberblock that verifies, in the slots of the labels of the topology's members.
  abbrev pub valid_uberblocks : List PoolMember → Topology → ℕ → List UberBlock
  valid_uberblocks members topology ashift =
      let slot = 2 ^ uberblock_shift ashift in
      in_members members slot (uberblock_array_size / slot) (topology_members topology)

  scan_slots-pick :
      (member : PoolMember) (slot label left i : ℕ) (best : Option UberBlock)
      → scan_slots v member slot label left i best ≡ pick best (in_slots member slot label left i)
  unfolding scan_slots in_slots scan_slot pick
  scan_slots-pick member slot label zero i best = refl
  scan_slots-pick member slot label (suc left) i best =
      let at = label + label_uberblock_offset + i * slot in
      elim (Option-cases (uberblock_at v member slot at)) [
        | inl e ↦
            rw (e, scan_slots, scan_slot, in_slots)
              (scan_slots-pick member slot label left (i + 1) best)
        | inr (ub, e) ↦
            rw (e, scan_slots, scan_slot, in_slots)
              (scan_slots-pick member slot label left (i + 1) (some (newer best ub)))
      ]

  scan_labels-pick :
      (member : PoolMember) (slot count : ℕ) (labels : List ℕ) (best : Option UberBlock)
      → scan_labels v member slot count labels best ≡ pick best (in_labels member slot count labels)
  unfolding scan_labels in_labels pick
  scan_labels-pick member slot count [] best = refl
  scan_labels-pick member slot count (label ∷ labels) best =
      scan_labels-pick member slot count labels (scan_slots v member slot label count 0 best)
      ∙ ap (λ b. pick b (in_labels member slot count labels))
          (scan_slots-pick member slot label count 0 best)
      ∙ sym (
          pick-append best (in_slots member slot label count 0)
            (in_labels member slot count labels))

  scan_members-pick :
      (members : List PoolMember) (slot count : ℕ) (mis : List ℕ) (best : Option UberBlock)
      → scan_members v members slot count mis best ≡ pick best (in_members members slot count mis)
  unfolding scan_members in_members in_member pick
  scan_members-pick members slot count [] best = refl
  scan_members-pick members slot count (mi ∷ rest) best =
      elim (Option-cases (get_elem? members mi)) [
        | inl e ↦ rw (e, scan_members, in_members) (scan_members-pick members slot count rest best)
        | inr (m, e) ↦
            rw (e, scan_members, in_members)
              (scan_members-pick members slot count rest
                  (scan_labels v m slot count (label_offsets m.device_size_bytes) best)
                ∙ ap (λ b. pick b (in_members members slot count rest))
                    (scan_labels-pick m slot count (label_offsets m.device_size_bytes) best)
                ∙ sym (
                    pick-append best (in_labels m slot count (label_offsets m.device_size_bytes))
                      (in_members members slot count rest)))
      ]

  -- `select_uberblock` gives one of the uberblocks that verify, in any slot of any label of any
  -- member, and none of them is newer by txg and then timestamp; it fails only where there is none.
  pub select_uberblock_newest :
      (members : List PoolMember) (topology : Topology) (ashift : ℕ)
      → ((ub : UberBlock) × (select_uberblock v members topology ashift ≡ ok ub)
          × InList ub (valid_uberblocks members topology ashift)
          × ((other : UberBlock)
              → InList other (valid_uberblocks members topology ashift)
              → NoNewer other ub))
        ⊎ ((select_uberblock v members topology ashift ≡ err no_valid_uberblock)
            × (valid_uberblocks members topology ashift ≡ []))
  unfolding select_uberblock pick newer
  select_uberblock_newest members topology ashift = go (valid_uberblocks members topology ashift) (
      scan_members-pick members (2 ^ uberblock_shift ashift)
        (uberblock_array_size / 2 ^ uberblock_shift ashift) (topology_members topology) none)
    where
      go :
          {o : Option UberBlock} (ubs : List UberBlock)
          → o ≡ pick none ubs
          → ((ub : UberBlock) × (ok_or o no_valid_uberblock ≡ ok ub)
              × InList ub ubs
              × ((other : UberBlock) → InList other ubs → NoNewer other ub))
            ⊎ ((ok_or o no_valid_uberblock ≡ err no_valid_uberblock) × (ubs ≡ []))
      go [] e = inr (rw e refl, refl)
      go (u ∷ ubs) e =
          let (m, p, i, n, all) = pick-some u ubs in
          inl (m, rw (e, pick) (rw p refl), i, each_of (λ x. NoNewer x m) u ubs n all)
