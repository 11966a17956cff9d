-- ===== src/Passes/DeadNodeElimination/Closure.antt =====
-- The drain of p01's worklist: it ends, with every input of a marked node settled.

use jules.Support.FlatMap.Search.{IsSorted}
use jules.Prelude.{
  ℕ, zero, suc, ◌+◌, ◌≤◌, ◌≡◌, refl, sym, subst, ap, arith, ◌==◌, true, Option, some, List, [], ◌∷◌,
  length, contains, Bool-cases, inl, inr, ◌⊎◌, eq_of_==,
}
use jules.Son.Node.{NodeId, inputs}
use jules.Son.Graph.{Graph, node, size}
use jules.Passes.DeadNodeElimination.{Marks, mark_all, drain}
use jules.Passes.DeadNodeElimination.Marking.{
  is_live, settled, unmarked, settled_later, mark_all-Marked, settled-mark_all,
}

-- All inputs of the node are settled.
abbrev pub InputsSettled : Graph → Marks → NodeId → Type 0
InputsSettled g s n = (m : NodeId) → contains m (inputs (node g n)) ≡ true → settled g s m ≡ true

-- A marked node waits in the worklist, or its inputs are settled.
pub record Inv (g : Graph) (s : Marks) : Type 0 where
  pub sorted : IsSorted s.live
  pub closed : (n : NodeId) → is_live s n ≡ true → (contains n s.work ≡ true) ⊎ InputsSettled g s n

-- The outcome of the drain from the marks `s`.
pub data Drains (g : Graph) (s : Marks) : Option Marks → Type 0 where
  drained :
      {t : Marks}
      → ((n : NodeId) → is_live t n ≡ true → InputsSettled g t n)
      → ((n : NodeId) → is_live s n ≡ true → is_live t n ≡ true)
      → Drains g s (some t)

pub List-cases :
    (xs : List NodeId) → (xs ≡ []) ⊎ ((x : NodeId) × (rest : List NodeId) × (xs ≡ x ∷ rest))
List-cases [] = inl refl
List-cases (x ∷ xs) = inr (x, xs, refl)

module _ (g : Graph) where
  Inv-pop :
      (s : Marks) (n : NodeId) (rest : List NodeId)
      → s.work ≡ n ∷ rest
      → Inv g s
      → Inv g (mark_all g (inputs (node g n)) (record s { work = rest }))
  Inv-pop s n rest e i =
      let popped : Marks = record s { work = rest } in
      let t = mark_all g (inputs (node g n)) popped in
      let m = mark_all-Marked g (inputs (node g n)) popped in
      record {
        sorted = m.sorted i.sorted;
        closed = λ q live. elim (m.fresh i.sorted q live) [
          | inr waiting ↦ inl waiting
          | inl old ↦ elim (i.closed q old) [
            | inr done ↦ inr (λ v named. settled_later g popped t v i.sorted m (done v named))
            | inl waiting ↦ elim (Bool-cases (q == n)) [
              | inl same ↦ inr (λ v named.
                  settled-mark_all g (inputs (node g n)) popped v i.sorted
                    (let q' = eq_of_== q n same in rw q' at named))
              | inr other ↦ inl (
                  m.pending q
                    (let w : contains q (n ∷ rest) ≡ true = rw e at waiting in ground arith))
            ]
          ]
        ];
      }

  Inv-empty :
      (s : Marks) → s.work ≡ [] → Inv g s → (n : NodeId) → is_live s n ≡ true → InputsSettled g s n
  Inv-empty s e i n live = elim (i.closed n live) [
    | inl waiting ↦ let w : contains n [] ≡ true = rw e at waiting in absurd (cc)
    | inr done ↦ done
  ]

  Drains-pop :
      (s : Marks) (n : NodeId) (rest : List NodeId) (o : Option Marks)
      → IsSorted s.live
      → Drains g (mark_all g (inputs (node g n)) (record s { work = rest })) o
      → Drains g s o
  Drains-pop s n rest _ h (drained closed grows) =
      let m = mark_all-Marked g (inputs (node g n)) (record s { work = rest }) in
      drained closed (λ q live. grows q (m.grows h q live))

  drain_step :
      (fuel : ℕ) (s : Marks) (n : NodeId) (rest : List NodeId)
      → s.work ≡ n ∷ rest
      → drain (suc fuel) g s
        ≡ drain fuel g (mark_all g (inputs (node g n)) (record s { work = rest }))
  unfolding drain
  drain_step fuel s n rest e = rw (e, drain) refl

  pub drain-Drains :
      (fuel : ℕ) (s : Marks)
      → Inv g s
      → unmarked (size g) s.live + length s.work ≤ fuel
      → Drains g s (drain fuel g s)
  unfolding drain
  drain-Drains zero s i le = elim (List-cases s.work) [
    | inl e ↦ rw e (drained (Inv-empty s e i) (λ n live. live))
    | inr (n, rest, e) ↦ absurd (omega (arith, ap length e))
  ]
  drain-Drains (suc fuel) s i le = elim (List-cases s.work) [
    | inl e ↦ rw e (drained (Inv-empty s e i) (λ n live. live))
    | inr (n, rest, e) ↦
        let popped : Marks = record s { work = rest } in
        let t = mark_all g (inputs (node g n)) popped in
        let m = mark_all-Marked g (inputs (node g n)) popped in
        subst (Drains g s) (sym (drain_step fuel s n rest e)) (
          Drains-pop s n rest (drain fuel g t) i.sorted (
            drain-Drains fuel t (Inv-pop s n rest e i)
              (omega (arith, m.measure i.sorted, ap length e))))
  ]
