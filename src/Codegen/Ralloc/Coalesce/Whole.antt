-- ===== src/Codegen/Ralloc/Coalesce/Whole.antt =====
-- The whole register allocator: vregs of one class with one register are apart.

use jules.Prelude.{
  ℕ, ◌≡◌, ◌≢◌, inl, inr, sym, ap, arith, ◌==◌, Bool, true, not, ◌&&◌, ◌||◌, List, [], get_or,
  Bool-cases, All,
}
use jules.Codegen.Ralloc.{RaProblem, RaSpan, vreg, no_vreg}
use jules.Codegen.Ralloc.Assign.{RaAssign, first_out, slots_of}
use jules.Codegen.Ralloc.Assign.Slots.{flat}
use jules.Codegen.Ralloc.Assign.Index.{DistinctIds}
use jules.Codegen.Ralloc.Assign.Disjoint.{promoted, reg_of, DistinctRegs}
use jules.Codegen.Ralloc.Classes.{Shares, assign_classes-MayShare}
use jules.Codegen.Ralloc.Coalesce.{attempt, coalesce_pair, assign_classes, ralloc_hybrid}
use jules.Codegen.Ralloc.Coalesce.Apart.{InHull, GensApart, MayShare-GensApart}
use jules.Codegen.Ralloc.Coalesce.Sound.{Apart, move_to-Apart}
use jules.Codegen.Ralloc.Coalesce.Rule.{rounds_keep}
use jules.Prelude.{All-get_or}

module _ (p : RaProblem) (ids : DistinctIds p.vregs) (hulls : (k : ℕ) → InHull (vreg p k)) where
  -- The test by which a pair is left alone.
  abbrev differs : List RaAssign → ℕ → ℕ → Bool
  differs out i j =
      not ((vreg p i).cls == (vreg p j).cls)
      || not (promoted out i && promoted out j)
      || reg_of out i == reg_of out j

  coalesce_pair-Apart :
      (out : List RaAssign) (i j : ℕ)
      → Apart p ids hulls out
      → Apart p ids hulls (coalesce_pair p out i j).0
  unfolding coalesce_pair
  coalesce_pair-Apart out i j s =
      let cls = get_or p.classes (vreg p i).cls [] in
      elim (Bool-cases (differs out i j)) [
        | inl h ↦ rw h s
        | inr h ↦
            let e : (vreg p i).cls ≡ (vreg p j).cls = ground arith in
            let pi : promoted out i ≡ true = ground arith in
            let pj : promoted out j ≡ true = ground arith in
            let ne : i ≢ j = λ q. (let k = ap (reg_of out) q in ground arith) in
            elim (Bool-cases (attempt p cls out i j (reg_of out j))) [
              | inl a ↦ rw (h, a) (move_to-Apart p ids hulls out cls i j ne e pi pj a s)
              | inr a ↦ elim (Bool-cases (attempt p cls out j i (reg_of out i))) [
                | inl b ↦
                    rw (h, a, b)
                      (move_to-Apart p ids hulls out cls j i (λ q. ne (sym q)) (sym e) pj pi b s)
                | inr b ↦ rw (h, a, b) s
              ]
            ]
      ]

-- In a problem whose vregs have different ids and sub-intervals within their ranges, and whose
-- classes have no register twice, whatever the flow selects: two different vregs of one class that
-- the allocator promotes to one register have no sub-intervals that meet but in a point where one
-- ends and the other begins.
pub ralloc_hybrid-GensApart :
    (flow_select : List RaSpan → List ℕ → List ℕ) (p : RaProblem) (i j : ℕ)
    → DistinctIds p.vregs
    → All InHull p.vregs
    → All (λ cls. DistinctRegs (flat (slots_of cls))) p.classes
    → i ≢ j
    → (vreg p i).cls ≡ (vreg p j).cls
    → promoted (ralloc_hybrid flow_select p).vregs i ≡ true
    → promoted (ralloc_hybrid flow_select p).vregs j ≡ true
    → reg_of (ralloc_hybrid flow_select p).vregs i ≡ reg_of (ralloc_hybrid flow_select p).vregs j
    → GensApart p i j
unfolding ralloc_hybrid
ralloc_hybrid-GensApart flow_select p i j ids hulls regs =
    let in_hull = λ (k : ℕ). All-get_or InHull p.vregs k no_vreg hulls tt in
    let before = assign_classes-MayShare p flow_select ids regs in
    Shares.sharing
      (rounds_keep p (Apart p ids in_hull) (coalesce_pair-Apart p ids in_hull) 6
        (assign_classes flow_select p 0 p.classes (first_out p)) 0
        (record {
          sized = before.sized;
          sharing = λ a b ne e pa pb er.
              MayShare-GensApart p a b in_hull (before.sharing a b ne e pa pb er);
        }))
      i j
