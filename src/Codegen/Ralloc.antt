-- ===== src/Codegen/Ralloc.antt =====
-- jules/src/core/codegen/ralloc.h, ralloc.cpp: the register allocator's problems, and which live
-- ranges it selects. A vreg id, which is an i32, is its value plus 2 ^ 31, so that the order of ids is
-- the order of numbers; a pointer to a vreg is its index in the problem.
pub mod Assign
pub mod Coalesce
pub mod Sort
pub mod Selection
pub mod Selected
pub mod Classes
pub mod Eligible
use jules.Support.FlatMap
use jules.Prelude.{
  ℕ, zero, suc, ◌+◌, ◌-◌, ◌%◌, ◌^◌, ◌==◌, ltb, leb, Bool, true, false, not, ◌&&◌, ◌||◌, List, [],
  ◌∷◌, ◌++◌, map, length, get_or, set, contains, if◌then◌else◌,
}

pub record RaGen : Type 0 where
  pub start : ℕ
  pub end : ℕ

pub record RaVReg : Type 0 where
  pub id : ℕ
  pub cls : ℕ
  pub weight : ℕ
  pub crosses_call : Bool
  pub loop_carried : Bool
  pub first : ℕ
  pub last : ℕ
  pub starts_at_def : Bool
  pub gens : List RaGen

-- The id -1.
abbrev pub no_id : ℕ
no_id = 2 ^ 31 - 1

abbrev pub no_vreg : RaVReg
no_vreg = record {
  id = no_id;
  cls = 0;
  weight = 0;
  crosses_call = false;
  loop_carried = false;
  first = 0;
  last = 0;
  starts_at_def = false;
  gens = [];
}

pub record RaMove : Type 0 where
  pub a : ℕ
  pub b : ℕ

pub record RaBank : Type 0 where
  pub regs : List ℕ
  pub callee_saved : Bool

abbrev pub no_bank : RaBank
no_bank = record { regs = []; callee_saved = false }

-- A class is its banks.
abbrev pub RaClass : Type 0
RaClass = List RaBank

pub record RaProblem : Type 0 where
  pub vregs : List RaVReg
  pub moves : List RaMove
  pub classes : List RaClass
  pub prefer_callee_saved : Bool

pub record RaSpan : Type 0 where
  pub start : ℕ
  pub end : ℕ
  pub vreg : ℕ
  pub weight : ℕ

unfoldable pub total_regs : RaClass → ℕ
total_regs [] = 0
total_regs (b ∷ bs) = (length b.regs + total_regs bs) % 2 ^ 32

unfoldable pub callee_saved_regs : RaClass → ℕ
callee_saved_regs [] = 0
callee_saved_regs (b ∷ bs) =
    ((if b.callee_saved then length b.regs else 0) + callee_saved_regs bs) % 2 ^ 32

abbrev pub vreg : RaProblem → ℕ → RaVReg
vreg p i = get_or p.vregs i no_vreg

unfoldable pub span_of : RaVReg → RaSpan
span_of v =
    let start = if v.starts_at_def then v.first else if ltb 0 v.first then v.first - 1 else 0 in
    record {
      start = start;
      end = if ltb start v.last then v.last else (start + 1) % 2 ^ 32;
      vreg = v.id;
      weight = v.weight;
    }

-- `for (p = s.start; p < s.end; ++p) occ[p - lo]++` for the points in [lo, hi]
unfoldable pub occupy : ℕ → ℕ → ℕ → ℕ → List ℕ → List ℕ
occupy zero at lo hi occ = occ
occupy (suc count) at lo hi occ =
    occupy count (at + 1) lo hi
      (if leb lo at && leb at hi then set occ (at - lo) (get_or occ (at - lo) 0 + 1) else occ)

abbrev pub replicate : ℕ → ℕ → List ℕ
replicate zero x = []
replicate (suc n) x = x ∷ replicate n x

unfoldable pub occupancy : RaProblem → List ℕ → ℕ → ℕ → List ℕ
unfolding occupy span_of
occupancy p [] lo hi = replicate (hi - lo + 1) 0
occupancy p (i ∷ is) lo hi =
    let s = span_of (vreg p i) in occupy (s.end - s.start) s.start lo hi (occupancy p is lo hi)

-- The vregs of the class, from the index `i` on, that cross calls or do not.
unfoldable pub of_class : ℕ → ℕ → Bool → ℕ → List RaVReg → List ℕ
of_class ci callee crossing i [] = []
of_class ci callee crossing i (v ∷ vs) =
    let rest = of_class ci callee crossing (i + 1) vs in
    if not (v.cls == ci)
    then rest
    else if v.crosses_call && callee == 0
    then rest
    else if (if v.crosses_call then crossing else not crossing)
    then i ∷ rest
    else rest

-- The segment range [lo, hi] of the class, where `lo > hi` says that it is empty.
unfoldable pub lowest : RaProblem → List ℕ → ℕ
unfolding span_of
lowest p [] = 2 ^ 32 - 1
lowest p (i ∷ is) =
    let rest = lowest p is in let s = (span_of (vreg p i)).start in if ltb s rest then s else rest

unfoldable pub highest : RaProblem → List ℕ → ℕ
unfolding span_of
highest p [] = 0
highest p (i ∷ is) =
    let rest = highest p is in
    let e = ((span_of (vreg p i)).end + 2 ^ 32 - 1) % 2 ^ 32 in if ltb rest e then e else rest

abbrev pub spans_from : RaProblem → ℕ → List ℕ → List RaSpan
unfolding span_of
spans_from p lo [] = []
spans_from p lo (i ∷ is) =
    let s = span_of (vreg p i) in
    record s { start = s.start - lo; end = (s.end + 2 ^ 32 - lo) % 2 ^ 32 } ∷ spans_from p lo is

-- The vregs among `is` whose ids are in the list.
abbrev pub with_ids : RaProblem → List ℕ → List ℕ → List ℕ
with_ids p ids [] = []
with_ids p ids (i ∷ is) =
    let rest = with_ids p ids is in if contains (vreg p i).id ids then i ∷ rest else rest

-- `caps[i] = total - min(x_p[i], total)`
abbrev pub residual : ℕ → List ℕ → List ℕ
residual total xs = map (λ x. total - (if ltb x total then x else total)) xs

-- Insertion before the first element that the order puts after `i`.
unfoldable pub insert_sorted : (ℕ → ℕ → Bool) → ℕ → List ℕ → List ℕ
insert_sorted before i [] = i ∷ []
insert_sorted before i (j ∷ js) =
    let rest = insert_sorted before i js in if before j i then j ∷ rest else i ∷ j ∷ js

-- std::sort and std::stable_sort
unfoldable pub sort : (ℕ → ℕ → Bool) → List ℕ → List ℕ
unfolding insert_sorted
sort before [] = []
sort before (i ∷ is) = insert_sorted before i (sort before is)

-- The points [at, at + count) all have room for one more crossing range.
unfoldable pub fits : ℕ → ℕ → ℕ → ℕ → ℕ → List ℕ → List ℕ → Bool
fits zero at lo callee total xa xb = true
fits (suc count) at lo callee total xa xb =
    let here = get_or xa (at - lo) 0 in
    let rest = fits count (at + 1) lo callee total xa xb in
    not (leb callee here || leb total (here + get_or xb (at - lo) 0)) && rest

-- The repair: the rejected crossing ranges, in their order, that still fit.
unfoldable pub repair : RaProblem → ℕ → ℕ → ℕ → ℕ → List ℕ → List ℕ → List ℕ → List ℕ → List ℕ
unfolding fits occupy span_of
repair p lo hi callee total xa xb [] sel = sel
repair p lo hi callee total xa xb (i ∷ is) sel =
    let s = span_of (vreg p i) in
    let room = fits (s.end - s.start) s.start lo callee total xa xb in
    let xa' = if room then occupy (s.end - s.start) s.start lo hi xa else xa in
    repair p lo hi callee total xa' xb is (if room then sel ++ i ∷ [] else sel)

abbrev pub without : List ℕ → List ℕ → List ℕ
without sel [] = []
without sel (i ∷ is) = let rest = without sel is in if contains i sel then rest else i ∷ rest

abbrev pub heavier : RaProblem → ℕ → ℕ → Bool
heavier p i j =
    let a = vreg p i in
    let b = vreg p j in if a.weight == b.weight then ltb a.id b.id else ltb b.weight a.weight

abbrev pub earlier : RaProblem → ℕ → ℕ → Bool
earlier p i j =
    let a = vreg p i in
    let b = vreg p j in if a.first == b.first then ltb a.id b.id else ltb a.first b.first

-- The exact selection of ralloc_flow.cpp is a parameter: it gives the ids of the spans it selects.
module _ (flow_select : List RaSpan → List ℕ → List ℕ) where
  -- The stages A and B and the repair: the vregs to place, in the order of their first points.
  unfoldable pub select_class : RaProblem → ℕ → RaClass → List ℕ
  unfolding total_regs callee_saved_regs of_class lowest highest occupancy repair sort
  select_class p ci cls =
      let total = total_regs cls in
      let callee = callee_saved_regs cls in
      let crossing = of_class ci callee true 0 p.vregs in
      let free_going = of_class ci callee false 0 p.vregs in
      let lo = lowest p (crossing ++ free_going) in
      let hi = highest p (crossing ++ free_going) in
      let caps = replicate (hi - lo + 1) callee in
      let sel_a =
        if length crossing == 0
        then []
        else with_ids p (flow_select (spans_from p lo crossing) caps) crossing in
      let free_caps = residual total (occupancy p sel_a lo hi) in
      let sel_b =
        if length free_going == 0
        then []
        else with_ids p (flow_select (spans_from p lo free_going) free_caps) free_going in
      let rejected = sort (heavier p) (without sel_a crossing) in
      let xa = occupancy p sel_a lo hi in
      let xb = occupancy p sel_b lo hi in
      let repaired = repair p lo hi callee total xa xb rejected sel_a in
      if total == 0 then [] else if ltb hi lo then [] else sort (earlier p) (repaired ++ sel_b)
