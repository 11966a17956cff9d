-- ===== src/Examples/Structures.antt =====
-- Runs of the flat map and of the register allocator.
use jules.Prelude.{
  ℕ, zero, suc, ◌+◌, ◌<◌, ◌≡◌, ◌⊎◌, refl, arith, Bool, true, false, some, List, [], ◌∷◌, get_or,
  map, if◌then◌else◌, ◌==◌,
}
use jules.Support.FlatMap.{find, insert}
use jules.Support.FlatMap.Search.{IsSorted}
use jules.Support.FlatMap.Laws.{lookup, find-lookup, insert-IsSorted, find-insert}
use jules.Codegen.Ralloc.{RaVReg, RaProblem, RaClass, RaSpan, vreg, no_vreg}
use jules.Codegen.Ralloc.Assign.{RaAssign, no_assign, assign_all, first_out, slots_of}
use jules.Codegen.Ralloc.Assign.Slots.{flat}
use jules.Codegen.Ralloc.Assign.Index.{DistinctIds}
use jules.Codegen.Ralloc.Assign.Disjoint.{DistinctRegs, Clear, reg_of}
use jules.Codegen.Ralloc.Assign.Sound.{assign_all-Clear}
use jules.Codegen.Ralloc.Coalesce.{ralloc_hybrid}
use jules.Codegen.Ralloc.Coalesce.Apart.{GensApart}
use jules.Codegen.Ralloc.Coalesce.Whole.{ralloc_hybrid-GensApart}
use jules.Codegen.Ralloc.Assign.Banks.{Eligible}
use jules.Codegen.Ralloc.Eligible.{ralloc_hybrid-Eligible}
use jules.Examples.{three_entries, three_entries-IsSorted}

lookup_example : find three_entries 7 ≡ lookup three_entries 7
lookup_example = find-lookup three_entries 7 three_entries-IsSorted

insert_sorted_example : IsSorted (insert three_entries 7 70)
insert_sorted_example = insert-IsSorted three_entries 7 70 three_entries-IsSorted

insert_example :
    find (insert three_entries 7 70) 5 ≡ (if 5 == 7 then some 70 else find three_entries 5)
insert_example = find-insert three_entries 7 70 5 three_entries-IsSorted

abbrev range : ℕ → ℕ → ℕ → Bool → RaVReg
range id first last def = record no_vreg {
  id = id;
  first = first;
  last = last;
  starts_at_def = def;
  weight = 1;
}

abbrev two_regs : RaClass
two_regs = record { regs = 1 ∷ 2 ∷ []; callee_saved = true } ∷ []

abbrev four_ranges : RaProblem
four_ranges = record {
  vregs = range 10 0 4 true ∷ range 11 1 5 true ∷ range 12 5 8 true ∷ range 13 5 9 false ∷ [];
  moves = [];
  classes = two_regs ∷ [];
  prefer_callee_saved = false;
}

ids_from_ten : (i : ℕ) → i < 4 → (vreg four_ranges i).id ≡ i + 10
ids_from_ten zero lt = refl
ids_from_ten (suc zero) lt = refl
ids_from_ten (suc (suc zero)) lt = refl
ids_from_ten (suc (suc (suc zero))) lt = refl
ids_from_ten (suc (suc (suc (suc i)))) lt = absurd (omega arith)

four_ranges-DistinctIds : DistinctIds four_ranges.vregs
four_ranges-DistinctIds i j li lj e = omega (arith, ids_from_ten i li, ids_from_ten j lj)

two_regs-DistinctRegs : DistinctRegs (flat (slots_of two_regs))
two_regs-DistinctRegs zero zero la lb e = refl
two_regs-DistinctRegs zero (suc zero) la lb e = absurd (omega arith)
two_regs-DistinctRegs (suc zero) zero la lb e = absurd (omega arith)
two_regs-DistinctRegs (suc zero) (suc zero) la lb e = refl
two_regs-DistinctRegs (suc (suc a)) b la lb e = absurd (omega arith)
two_regs-DistinctRegs a (suc (suc b)) la lb e = absurd (omega arith)

abbrev ranges : List ℕ
ranges = 0 ∷ 1 ∷ 2 ∷ 3 ∷ []

-- The vregs 10 and 12 get the register 1, and the first ends before the second begins.
clear_example : Clear four_ranges ranges 0 5 ⊎ Clear four_ranges ranges 2 0
unfolding assign_all
clear_example =
    assign_all-Clear four_ranges two_regs (0 ∷ []) ranges (first_out four_ranges) 0 2
      four_ranges-DistinctIds two_regs-DistinctRegs
      (
        omega arith,
        omega arith,
        refl,
        (
          omega arith,
          omega arith,
          refl,
          (omega arith, omega arith, refl, (omega arith, omega arith, refl, tt)),
        ),
      )
      (λ i h. idle i) refl refl refl (omega arith) refl refl refl
  where
    idle : (i : ℕ) → (get_or (first_out four_ranges) i no_assign).promoted ≡ false
    idle zero = refl
    idle (suc zero) = refl
    idle (suc (suc zero)) = refl
    idle (suc (suc (suc zero))) = refl
    idle (suc (suc (suc (suc i)))) = refl

-- The vregs 11 and 13 get the register 2, although 11 ends at the point 5 where 13 is read.
abbrev all_spans : List RaSpan → List ℕ → List ℕ
all_spans spans caps = map (λ (s : RaSpan). s.vreg) spans

shared_register :
    map (λ (a : RaAssign). a.reg) (ralloc_hybrid all_spans four_ranges).vregs ≡ 1 ∷ 2 ∷ 1 ∷ 2 ∷ []
unfolding ralloc_hybrid
shared_register = refl

-- The vregs 10 and 12 share the register 1 in the allocator's solution.
apart_example : GensApart four_ranges 0 2
unfolding ralloc_hybrid
apart_example =
    ralloc_hybrid-GensApart all_spans four_ranges 0 2 four_ranges-DistinctIds
      (tt, (tt, (tt, (tt, tt)))) (two_regs-DistinctRegs, tt) (omega arith) refl refl refl refl

bank_example : Eligible two_regs false (reg_of (ralloc_hybrid all_spans four_ranges).vregs 1)
unfolding ralloc_hybrid
bank_example = ralloc_hybrid-Eligible all_spans four_ranges 1 four_ranges-DistinctIds refl
