-- ===== src/Codegen/Ralloc/Coalesce.antt =====
-- jules/src/core/codegen/ralloc.cpp: the coalescing of moves, and the whole allocator.
pub mod Apart
pub mod Rule
pub mod Sound
pub mod Whole
use jules.Support.FlatMap
use jules.Prelude.{
  ℕ, zero, suc, ◌+◌, ◌==◌, leb, Bool, true, false, not, ◌&&◌, ◌||◌, Option, none, some, List, [],
  ◌∷◌, length, get_or, set, if◌then◌else◌,
}
use jules.Codegen.Ralloc.{
  RaGen, RaVReg, RaMove, RaBank, RaClass, RaProblem, RaSpan, vreg, total_regs, select_class,
}
use jules.Codegen.Ralloc.Assign.{
  RaAssign, no_assign, index_of, first_out, slots_of, bank_order, assign_all,
}

abbrev pub ranges_overlap : ℕ → ℕ → ℕ → ℕ → Bool
ranges_overlap a_lo a_hi b_lo b_hi = leb a_lo b_hi && leb b_lo a_hi

abbrev pub gens_of : RaVReg → List RaGen
gens_of v = if length v.gens == 0 then record { start = v.first; end = v.last } ∷ [] else v.gens

-- The inner loop: the flag of a bank that has the register, or what was found before.
abbrev pub in_bank : ℕ → List ℕ → Bool → Bool → Bool
in_bank reg [] callee found = found
in_bank reg (r ∷ rs) callee found = in_bank reg rs callee (if r == reg then callee else found)

-- `callee_saved` of the last bank of the class that has the register.
unfoldable pub reg_callee : ℕ → List RaBank → Bool → Bool
reg_callee reg [] found = found
reg_callee reg (b ∷ bs) found = reg_callee reg bs (in_bank reg b.regs b.callee_saved found)

-- The two sub-intervals meet in no point but one where one ends and the other begins.
abbrev pub apart : RaGen → RaGen → Bool
apart x y =
    let touch = leb x.start y.end && leb y.start x.end in
    not touch || x.end == y.start || y.end == x.start

abbrev pub apart_from : RaGen → List RaGen → Bool
apart_from x [] = true
apart_from x (y ∷ ys) = apart x y && apart_from x ys

unfoldable pub gens_apart : List RaGen → List RaGen → Bool
gens_apart [] go = true
gens_apart (x ∷ gm) go = apart_from x go && gens_apart gm go

-- The vreg that the index names is promoted, to the register.
abbrev pub lives_on : List RaAssign → ℕ → Option ℕ → Bool
lives_on out reg none = false
lives_on out reg (some i) = (get_or out i no_assign).promoted && (get_or out i no_assign).reg == reg

-- The vregs `us` keep off the hull of the mover `m` on the register.
unfoldable pub no_third : RaProblem → List RaAssign → ℕ → ℕ → ℕ → List RaVReg → Bool
unfolding FlatMap.find index_of
no_third p out m o reg [] = true
no_third p out m o reg (u ∷ us) =
    let rest = no_third p out m o reg us in
    let vm = vreg p m in
    let skip = u.id == vm.id || u.id == (vreg p o).id || not (u.cls == vm.cls) in
    (skip
      || not (lives_on out reg (FlatMap.find (index_of p) u.id))
      || not (ranges_overlap u.first u.last vm.first vm.last))
    && rest

-- `attempt`: may the vreg at the index `m` move to the register, where the one at `o` lives?
unfoldable pub attempt : RaProblem → RaClass → List RaAssign → ℕ → ℕ → ℕ → Bool
unfolding reg_callee gens_apart no_third
attempt p cls out m o reg =
    let vm = vreg p m in
    not (vm.crosses_call && not (reg_callee reg cls false))
    && gens_apart (gens_of vm) (gens_of (vreg p o))
    && no_third p out m o reg p.vregs

abbrev pub move_to : ℕ → ℕ → List RaAssign → List RaAssign
move_to i reg out = set out i (record (get_or out i no_assign) { reg = reg })

-- A move of vregs with the indices `i` and `j`: the assignments, and whether it was coalesced.
unfoldable pub coalesce_pair : RaProblem → List RaAssign → ℕ → ℕ → List RaAssign × Bool
unfolding attempt
coalesce_pair p out i j =
    let va = vreg p i in
    let vb = vreg p j in
    let aa = get_or out i no_assign in
    let ab = get_or out j no_assign in
    let cls = get_or p.classes va.cls [] in
    if not (va.cls == vb.cls) || not (aa.promoted && ab.promoted) || aa.reg == ab.reg
    then (out, false)
    else if attempt p cls out i j ab.reg
    then (move_to i ab.reg out, true)
    else if attempt p cls out j i aa.reg
    then (move_to j aa.reg out, true)
    else (out, false)

unfoldable pub coalesce_move : RaProblem → List RaAssign → RaMove → List RaAssign × Bool
unfolding coalesce_pair FlatMap.find index_of
coalesce_move p out mv = elim (FlatMap.find (index_of p) mv.a) [
  | none ↦ (out, false)
  | some i ↦ elim (FlatMap.find (index_of p) mv.b) [
    | none ↦ (out, false)
    | some j ↦ coalesce_pair p out i j
  ]
]

-- One round over the moves, with the number of those that it coalesces.
unfoldable pub coalesce_all : RaProblem → List RaMove → List RaAssign → ℕ → List RaAssign × ℕ
unfolding coalesce_move
coalesce_all p [] out count = (out, count)
coalesce_all p (mv ∷ mvs) out count =
    let (out', fired) = coalesce_move p out mv in
    coalesce_all p mvs out' (if fired then count + 1 else count)

-- Rounds until one coalesces nothing, or there are no more.
unfoldable pub coalesce_rounds : RaProblem → ℕ → List RaAssign → ℕ → List RaAssign × ℕ
unfolding coalesce_all
coalesce_rounds p zero out count = (out, count)
coalesce_rounds p (suc k) out count =
    let (out', n) = coalesce_all p p.moves out 0 in
    elim (n == 0) [ true ↦ (out', count) | false ↦ coalesce_rounds p k out' (count + n) ]

pub record RaSolution : Type 0 where
  pub vregs : List RaAssign
  pub promoted_count : ℕ
  pub spilled_count : ℕ
  pub coalesced_moves : ℕ

unfoldable pub count_promoted : Bool → List RaAssign → ℕ
count_promoted b [] = 0
count_promoted b (a ∷ more) =
    let rest = count_promoted b more in
    if (if b then a.promoted else not a.promoted) then rest + 1 else rest

module _ (flow_select : List RaSpan → List ℕ → List ℕ) where
  -- The loop over the classes, from the index `ci` on.
  unfoldable pub assign_classes : RaProblem → ℕ → List RaClass → List RaAssign → List RaAssign
  unfolding select_class assign_all bank_order total_regs
  assign_classes p ci [] out = out
  assign_classes p ci (cls ∷ rest) out =
      let ordered = select_class flow_select p ci cls in
      let order = bank_order p.prefer_callee_saved cls in
      assign_classes p (ci + 1) rest (assign_all p cls order ordered (slots_of cls, out)).1

  unfoldable pub ralloc_hybrid : RaProblem → RaSolution
  unfolding assign_classes coalesce_rounds count_promoted
  ralloc_hybrid p =
      let (out, moves) = coalesce_rounds p 6 (assign_classes p 0 p.classes (first_out p)) 0 in
      record {
        vregs = out;
        promoted_count = count_promoted true out;
        spilled_count = count_promoted false out;
        coalesced_moves = moves;
      }
