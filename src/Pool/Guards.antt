-- ===== src/Pool/Guards.antt =====
-- The layout that `build_topology` of src/pool.rs makes of a vdev tree, and the members it names.
use mathlib.Core.Path.{subst}
use lamzfs.Common.{
  false, ap, sym, ◌∙◌, bytes_eq_sound, ℕ, ◌+◌, ◌≡◌, refl, Bool, true, not, List, [], ◌∷◌, arith,
  ltb, ◌==◌, if◌then◌else◌, length, bytes_eq, Bool-cases, inl, inr,
}
use lamzfs.Common.Bytes.{codes}
use lamzfs.Error.{Error, unsupported_feature, unsupported_topology}
use lamzfs.Outcome.{
  ok-injective, Outcome, ok, err, panic, refuse_if, >>=-eq-ok, refuse_if-eq-ok, IfOk,
}
use lamzfs.Phys.{NvList}
use lamzfs.Vendored.{Vendored}
use lamzfs.BlockRead.{PoolMember}
use lamzfs.Vdev.Tree.{Layout}
use lamzfs.Pool.Nv.{nv_has, nv_str, nv_u64, nv_child_guids}
use lamzfs.Pool.Build.{
  unwrap_or, u8_or, find_member_by_guid, raidz_members, mirror_members, ok_member, present_count,
  build_raidz, build_mirror, build_topology,
}
use lamzfs.Pool.Placed.{Paired, ByteOr, IsMember, find_member_by_guid_sound, IsSlot, Placed}

err-ok : {A : Type 0} {e : Error} {a : A} → ◌≡◌ {A = Outcome A} (err e) (ok a) → ⊥
err-ok h = cc

panic-ok : {A : Type 0} {a : A} → ◌≡◌ {A = Outcome A} panic (ok a) → ⊥
panic-ok h = cc

pub u8_or-ByteOr : (n d : ℕ) → ByteOr n d (u8_or n d)
u8_or-ByteOr n d = elim (Bool-cases (ltb n 256)) [
  | inl e ↦ inl (ground arith, rw e refl)
  | inr e ↦ inr (ground arith, rw e refl)
]

unwrap_or-one : (o : Outcome ℕ) (n : ℕ) → unwrap_or o 1 ≡ ok n → n ≡ 1 → IfOk (λ m. m ≡ 1) o
unwrap_or-one (ok m) n h one = ok-injective h ∙ one
unwrap_or-one (err e) n h one = tt
unwrap_or-one panic n h one = tt

true-false : true ≡ false → ⊥
true-false h = cc

-- Neither of the two marks of an expansion.
neither-ok :
    (expanded expanding : Bool) (second : Outcome Bool)
    → expanding ≡ false
    → (if expanded then ok true else second) ≡ ok expanding
    → (expanded ≡ false) × (second ≡ ok false)
neither-ok true expanding second unmarked h =
    absurd (true-false (ok-injective (h ∙ ap ok unmarked)))
neither-ok false expanding second unmarked h = (refl, h ∙ ap ok unmarked)

module _ (v : Vendored) where
  ok_member-IsSlot :
      (members : List PoolMember) (guid : ℕ) (o : Outcome ℕ)
      → find_member_by_guid v members guid ≡ o
      → IsSlot v members guid (ok_member o)
  ok_member-IsSlot members guid (ok k) h = find_member_by_guid_sound v members guid k h
  ok_member-IsSlot members guid (err e) h = λ k g. err-ok (sym h ∙ g)
  ok_member-IsSlot members guid panic h = λ k g. panic-ok (sym h ∙ g)

  raidz_members-Paired :
      (members : List PoolMember) (guids : List ℕ)
      → Paired (IsSlot v members) guids (raidz_members v members guids)
  unfolding raidz_members
  raidz_members-Paired members [] = tt
  raidz_members-Paired members (guid ∷ guids) = (
    ok_member-IsSlot members guid (find_member_by_guid v members guid) refl,
    raidz_members-Paired members guids,
  )

  build_raidz-Placed :
      (vtree : NvList) (members : List PoolMember) (layout : Layout)
      → nv_str vtree "type" ≡ ok (codes "raidz")
      → build_raidz v vtree members ≡ ok layout
      → Placed v vtree members layout
  unfolding build_raidz
  build_raidz-Placed vtree members layout kind h =
      let (nparity, e, h₁) = >>=-eq-ok (unwrap_or (nv_u64 vtree "nparity") 1) _ h in
      let (_, one, h₂) =
        >>=-eq-ok (refuse_if (not (nparity == 1)) (unsupported_topology "topo_raidz_multiparity")) _
          h₁ in
      let (expanded, x, h₃) = >>=-eq-ok (nv_has vtree "raidz_expand_txgs") _ h₂ in
      let (expanding, y, h₄) =
        >>=-eq-ok (if expanded then ok true else nv_has vtree "raidz_expanding") _ h₃ in
      let (_, unmarked, h₅) =
        >>=-eq-ok (refuse_if expanding (unsupported_feature "raidz_expansion")) _ h₄ in
      let (shift, a, h₆) = >>=-eq-ok (nv_u64 vtree "ashift") _ h₅ in
      let (guids, g, h₇) = >>=-eq-ok (nv_child_guids vtree) _ h₆ in
      let slots = raidz_members v members guids in
      let (_, absent, h₈) =
        >>=-eq-ok
          (refuse_if (ltb (present_count slots + 1) (length slots))
            (unsupported_topology "topo_raidz_degraded"))
          _ h₇ in
      let idle =
        neither-ok expanded expanding (nv_has vtree "raidz_expanding")
          (refuse_if-eq-ok expanding _ unmarked) y in
      subst (Placed v vtree members) (ok-injective h₈) (record {
        kind = kind;
        one_parity =
            unwrap_or-one (nv_u64 vtree "nparity") nparity e
              (ground (arith, refuse_if-eq-ok (not (nparity == 1)) _ one));
        not_expanded = x ∙ ap ok idle.0;
        not_expanding = idle.1;
        guids = guids;
        children = g;
        placed = raidz_members-Paired members guids;
        one_absent =
            ground (arith, refuse_if-eq-ok (ltb (present_count slots + 1) (length slots)) _ absent);
        shift = shift;
        listed = a;
        ashift_is = u8_or-ByteOr shift 9;
      })

  mirror_members-Paired :
      (members : List PoolMember) (guids ks : List ℕ)
      → mirror_members v members guids ≡ ok ks
      → Paired (IsMember v members) guids ks
  unfolding mirror_members
  mirror_members-Paired members [] ks h = subst (Paired (IsMember v members) []) (ok-injective h) tt
  mirror_members-Paired members (guid ∷ guids) ks h =
      let (k, e, h₁) = >>=-eq-ok (find_member_by_guid v members guid) _ h in
      let (rest, r, h₂) = >>=-eq-ok (mirror_members v members guids) _ h₁ in
      subst (Paired (IsMember v members) (guid ∷ guids)) (ok-injective h₂)
        (find_member_by_guid_sound v members guid k e, mirror_members-Paired members guids rest r)

  build_mirror-Placed :
      (vtree : NvList) (members : List PoolMember) (layout : Layout)
      → nv_str vtree "type" ≡ ok (codes "mirror")
      → build_mirror v vtree members ≡ ok layout
      → Placed v vtree members layout
  unfolding build_mirror
  build_mirror-Placed vtree members layout kind h =
      let (guids, g, h₁) = >>=-eq-ok (nv_child_guids vtree) _ h in
      let (ks, m, h₂) = >>=-eq-ok (mirror_members v members guids) _ h₁ in
      subst (Placed v vtree members) (ok-injective h₂)
        (kind, guids, g, mirror_members-Paired members guids ks m)

  -- A vdev tree that is accepted is a disk or a file, and the layout member 0; or a mirror, whose
  -- layout has, child by child, a member with a label that carries the child's guid; or an unexpanded
  -- RAID-Z1 vdev, the same but for at most one child for which the search ends with an error, with
  -- the tree's ashift, or 9 if that is above 255.
  pub build_topology-Placed :
      (vtree : NvList) (members : List PoolMember) (layout : Layout)
      → build_topology v vtree members ≡ ok layout
      → Placed v vtree members layout
  unfolding build_topology
  build_topology-Placed vtree members layout h =
      let (kind, e, g) = >>=-eq-ok (nv_str vtree "type") _ h in
      let named : (name : List ℕ) → bytes_eq kind name ≡ true → nv_str vtree "type" ≡ ok name =
        λ name q. e ∙ ap ok (bytes_eq_sound kind name q) in
      elim (Bool-cases (bytes_eq kind (codes "disk"))) [
        | inl q ↦ subst (Placed v vtree members) (ok-injective (rw q at g)) (refl, inl (named _ q))
        | inr q ↦ elim (Bool-cases (bytes_eq kind (codes "file"))) [
          | inl q₁ ↦
              subst (Placed v vtree members) (ok-injective (rw (q, q₁) at g))
                (refl, inr (named _ q₁))
          | inr q₁ ↦ elim (Bool-cases (bytes_eq kind (codes "mirror"))) [
            | inl q₂ ↦ build_mirror-Placed vtree members layout (named _ q₂) (rw (q, q₁, q₂) at g)
            | inr q₂ ↦ elim (Bool-cases (bytes_eq kind (codes "raidz"))) [
              | inl q₃ ↦
                  build_raidz-Placed vtree members layout (named _ q₃) (rw (q, q₁, q₂, q₃) at g)
              | inr q₃ ↦ elim (Bool-cases (bytes_eq kind (codes "draid"))) [
                | inl q₄ ↦ absurd (err-ok (rw (q, q₁, q₂, q₃, q₄) at g))
                | inr q₄ ↦ absurd (err-ok (rw (q, q₁, q₂, q₃, q₄) at g))
              ]
            ]
          ]
        ]
      ]
