-- ===== src/Codegen/Ralloc/Assign.antt =====
-- jules/src/core/codegen/ralloc.cpp: the assignment of registers, by left endpoint.
pub mod Slots
pub mod Index
pub mod Disjoint
pub mod Sound
pub mod Banks
use jules.Support.FlatMap
use jules.Prelude.{
  ℕ, zero, suc, ◌+◌, ◌==◌, ltb, Bool, true, false, not, ◌&&◌, ◌||◌, Option, none, some, List, [],
  ◌∷◌, ◌++◌, map, length, get_or, set, if◌then◌else◌,
}
use jules.Codegen.Ralloc.{RaVReg, RaBank, RaClass, RaProblem, no_bank, vreg, sort}

pub record RaAssign : Type 0 where
  pub id : ℕ
  pub reg : ℕ
  pub promoted : Bool

abbrev pub no_assign : RaAssign
no_assign = record { id = 0; reg = 0; promoted = false }

-- Ctx: the ids' indices are fixed, the assignments are the state.
unfoldable pub index_from : ℕ → List RaVReg → List (ℕ × ℕ) → List (ℕ × ℕ)
unfolding FlatMap.insert
index_from i [] index = index
index_from i (v ∷ vs) index = index_from (i + 1) vs (FlatMap.insert index v.id i)

unfoldable pub index_of : RaProblem → List (ℕ × ℕ)
unfolding index_from
index_of p = index_from 0 p.vregs []

abbrev pub first_out : RaProblem → List RaAssign
first_out p = map (λ (v : RaVReg). record { id = v.id; reg = 0; promoted = false }) p.vregs

pub record RegUse : Type 0 where
  pub reg : ℕ
  pub last : ℕ
  pub active : Bool

abbrev pub slots_of : RaClass → List (List RegUse)
slots_of cls =
    map (λ (b : RaBank). map (λ r. record { reg = r; last = 0; active = false }) b.regs) cls

-- The holder's range ended before `v` begins, or ends where `v` is defined.
abbrev pub ended : RegUse → RaVReg → Bool
ended u v = ltb u.last v.first || u.last == v.first && v.starts_at_def

abbrev pub expire_one : RaVReg → RegUse → RegUse
expire_one v u = if u.active && ended u v then record u { active = false } else u

abbrev pub expire : RaVReg → List (List RegUse) → List (List RegUse)
expire v slots = map (map (expire_one v)) slots

-- The first register of the bank that is free, which the range up to `last` now holds.
unfoldable pub take_free : ℕ → List RegUse → Option (List RegUse × ℕ)
take_free last [] = none
take_free last (u ∷ us) =
    let rest = take_free last us in
    if u.active
    then elim rest [ none ↦ none | some (us', r) ↦ some (u ∷ us', r) ]
    else some (record u { last = last; active = true } ∷ us, u.reg)

abbrev pub count_up : ℕ → ℕ → List ℕ
count_up i zero = []
count_up i (suc n) = i ∷ count_up (i + 1) n

unfoldable pub bank_order : Bool → RaClass → List ℕ
unfolding sort
bank_order prefer cls =
    let indices = count_up 0 (length cls) in
    if prefer
    then sort
        (λ a b. (get_or cls a no_bank).callee_saved && not ((get_or cls b no_bank).callee_saved))
        indices
    else indices

-- The loop over the banks `bis`: the slots with a register taken, and the register.
unfoldable pub place :
    RaClass → List ℕ → RaVReg → List (List RegUse) → List ℕ → Option (List (List RegUse) × ℕ)
unfolding take_free
place cls order v slots [] = none
place cls order v slots (bi ∷ bis) =
    let rest = place cls order v slots bis in
    let choice = if v.crosses_call then bi else get_or order bi 0 in
    if v.crosses_call && not ((get_or cls bi no_bank).callee_saved)
    then rest
    else elim (take_free v.last (get_or slots choice [])) [
      | none ↦ rest
      | some (us, r) ↦ some (set slots choice us, r)
    ]

-- `a = ctx.find(v->id); a->promoted = true; a->reg = u.reg`
unfoldable pub promote : List (ℕ × ℕ) → ℕ → ℕ → List RaAssign → List RaAssign
unfolding FlatMap.find
promote index id r out = elim (FlatMap.find index id) [
  | none ↦ out
  | some i ↦ set out i (record (get_or out i no_assign) { reg = r; promoted = true })
]

-- One step of the loop over the vregs in order.
unfoldable pub assign_one :
    RaProblem
    → RaClass
    → List ℕ
    → ℕ
    → List (List RegUse) × List RaAssign
    → List (List RegUse) × List RaAssign
unfolding place promote index_of
assign_one p cls order i (slots, out) =
    let v = vreg p i in
    let expired = expire v slots in
    elim (place cls order v expired (count_up 0 (length cls))) [
      | none ↦ (expired, out)
      | some (slots', r) ↦ (slots', promote (index_of p) v.id r out)
    ]

unfoldable pub assign_all :
    RaProblem
    → RaClass
    → List ℕ
    → List ℕ
    → List (List RegUse) × List RaAssign
    → List (List RegUse) × List RaAssign
unfolding assign_one
assign_all p cls order [] s = s
assign_all p cls order (i ∷ is) s = assign_all p cls order is (assign_one p cls order i s)
