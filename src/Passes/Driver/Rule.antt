-- ===== src/Passes/Driver/Rule.antt =====
-- A pass keeps what each visit keeps, and ends where each visit does not raise a potential.
use jules.Prelude.{
  ℕ, zero, suc, ◌+◌, ◌≤◌, ◌<◌, ◌≡◌, ◌≢◌, refl, ap, subst, ◌∙◌, ℕ_discrete, arith, ◌⊎◌, inl, inr,
  Bool, true, false, ◌||◌, some, ltb, Bool-cases, Option-cases, ltb→lt, ltb→le,
}
use jules.Son.Node.{NodeId}
use jules.Son.Graph.{Graph, size}
use jules.Passes.Driver.{Outcome, finished, trapped, out_of_fuel, Visit, sweep, rounds, run}

-- The outcome is a graph with `P`.
pub data Ends {ℓ} (P : Graph → Type ℓ) : Outcome → Type ℓ where
  ends : {g : Graph} {changed : Bool} → P g → Ends P (finished g changed)

Ends-inverse {ℓ} :
    {P : Graph → Type ℓ} {o : Outcome}
    → Ends P o
    → (g : Graph) × (changed : Bool) × (o ≡ finished g changed) × P g
Ends-inverse (ends {g} {changed} p) = (g, changed, refl, p)

module _ {ℓ} (visit : Visit) (P : Graph → Type ℓ) (potential : Graph → ℕ)
    (bounds : (g : Graph) → P g → size g ≤ potential g)
    (step : (g : Graph) (id : NodeId)
      → P g
      → id < size g
      → (g' : Graph) × (changed : Bool) × (visit g id ≡ some (g', changed))
        × P g'
        × (potential g' ≤ potential g)) where
  -- The sweep takes no more steps than the potential.
  sweep-Ends :
      (fuel id : ℕ) (g : Graph) (c : Bool) (top : ℕ)
      → P g
      → potential g ≤ top
      → id ≤ top
      → top < fuel + id
      → Ends (λ g'. P g' × (potential g' ≤ top)) (sweep visit fuel id g c)
  unfolding sweep
  sweep-Ends zero id g c top p le low lt = absurd (omega arith)
  sweep-Ends (suc fuel) id g c top p le low lt = elim (Bool-cases (ltb id (size g))) [
    | inl e ↦
        let (g', changed, visited, p', le') = step g id p (ltb→lt id (size g) e) in
        rw (e, visited, sweep)
          (sweep-Ends fuel (id + 1) g' (c || changed) top p' (omega arith)
            (omega (arith, bounds g p, ltb→lt id (size g) e)) (omega arith))
    | inr e ↦ rw (e, sweep) (ends (p, le))
  ]

  rounds-Ends :
      (fuel : Graph → ℕ) (k : ℕ) (g : Graph) (c : Bool)
      → ((h : Graph) → P h → potential h < fuel h)
      → P g
      → Ends P (rounds visit fuel k g c)
  unfolding rounds
  rounds-Ends fuel zero g c enough p = ends p
  rounds-Ends fuel (suc k) g c enough p =
      let (g', b, e, q) = Ends-inverse (
        sweep-Ends (fuel g) 0 g false (potential g) p (omega arith) (omega arith)
          (omega (arith, enough g p))) in
      elim (Bool-cases b) [
        | inl more ↦ rw (e, more, rounds) (rounds-Ends fuel k g' (c || true) enough q.0)
        | inr no_more ↦ rw (e, no_more, rounds) (ends q.0)
      ]

  -- For a property that bounds the size of the graph by a potential, and a visit that at every
  -- node of a graph with the property returns, keeps the property and does not raise the
  -- potential: a run from a graph with the property, with fuel above the potential, ends with
  -- neither a trap nor a want of fuel, in a graph with the property.
  pub run-Ends :
      (fuel : Graph → ℕ) (k : ℕ) (g : Graph)
      → ((h : Graph) → P h → potential h < fuel h)
      → P g
      → Ends P (run visit fuel k g)
  unfolding run
  run-Ends fuel k g enough p = rounds-Ends fuel k g false enough p

Outcome-cases :
    (o : Outcome)
    → ((o ≡ trapped) ⊎ (o ≡ out_of_fuel)) ⊎ ((g : Graph) × (c : Bool) × (o ≡ finished g c))
Outcome-cases trapped = inl (inl refl)
Outcome-cases out_of_fuel = inl (inr refl)
Outcome-cases (finished g c) = inr (g, c, refl)

-- A pass whose visit returns false only where it leaves the graph alone.
module _ (visit : Visit)
    (honest : (g g' : Graph) (id : NodeId) → visit g id ≡ some (g', false) → g' ≡ g) where
  sweep-false :
      (fuel id : ℕ) (g g' : Graph) (c : Bool)
      → sweep visit fuel id g c ≡ finished g' false
      → (c ≡ false) × (g' ≡ g) × ((j : NodeId) → id ≤ j → j < size g → visit g j ≡ some (g, false))
  unfolding sweep
  sweep-false zero id g g' c h = absurd (ground arith)
  sweep-false (suc fuel) id g g' c h = elim (Bool-cases (ltb id (size g))) [
    | inr e ↦
        let h' : finished g c ≡ finished g' false = rw (e, sweep) at h in
        (cc, cc, λ j le lt. absurd (omega (arith, ltb→le id (size g) e)))
    | inl e ↦ elim (Option-cases (visit g id)) [
      | inl trap ↦ let h' : trapped ≡ finished g' false = rw (e, trap, sweep) at h in absurd (cc)
      | inr ((g1, changed), visited) ↦
          let h' : sweep visit fuel (id + 1) g1 (c || changed) ≡ finished g' false =
            rw (e, visited, sweep) at h in
          let (quiet, same, rest) = sweep-false fuel (id + 1) g1 g' (c || changed) h' in
          let still : changed ≡ false = ground arith in
          let quiet_visit : visit g id ≡ some (g1, false) =
            visited ∙ ap (λ b. some (g1, b)) still in
          let same1 : g1 ≡ g = honest g g1 id quiet_visit in
          (
            ground arith,
            same ∙ same1,
            λ j le lt. elim (ℕ_discrete j id) [
              | yes q ↦ rw q (quiet_visit ∙ ap (λ k. some (k, false)) same1)
              | no q ↦
                  subst (λ k. j < size k → visit k j ≡ some (k, false)) same1 (rest j (omega arith))
                    lt
            ],
          )
    ]
  ]

  -- Once a round has changed something, the run reports it.
  rounds-true :
      (fuel : Graph → ℕ) (k : ℕ) (g g' : Graph) (c : Bool)
      → c ≡ true
      → rounds visit fuel k g c ≢ finished g' false
  unfolding rounds
  rounds-true fuel zero g g' c e h = cc
  rounds-true fuel (suc k) g g' c e h = elim (Outcome-cases (sweep visit (fuel g) 0 g false)) [
    | inl (inl q) ↦ let h' : trapped ≡ finished g' false = rw (q, rounds) at h in cc
    | inl (inr q) ↦ let h' : out_of_fuel ≡ finished g' false = rw (q, rounds) at h in cc
    | inr (g1, b, q) ↦ elim (Bool-cases b) [
      | inl more ↦
          let h' : rounds visit fuel k g1 (c || true) ≡ finished g' false =
            rw (q, more, rounds) at h in
          rounds-true fuel k g1 g' (c || true) (ground arith) h'
      | inr done ↦
          let h' : finished g1 (c || false) ≡ finished g' false = rw (q, done, rounds) at h in
          (ground arith)
    ]
  ]

  run-false :
      (fuel : Graph → ℕ) (k : ℕ) (g g' : Graph)
      → run visit fuel (suc k) g ≡ finished g' false
      → (g' ≡ g) × ((j : NodeId) → j < size g → visit g j ≡ some (g, false))
  unfolding run rounds
  run-false fuel k g g' h = elim (Outcome-cases (sweep visit (fuel g) 0 g false)) [
    | inl (inl q) ↦ let h' : trapped ≡ finished g' false = rw (q, run, rounds) at h in absurd (cc)
    | inl (inr q) ↦
        let h' : out_of_fuel ≡ finished g' false = rw (q, run, rounds) at h in absurd (cc)
    | inr (g1, b, q) ↦ elim (Bool-cases b) [
      | inl more ↦
          let h' : rounds visit fuel k g1 true ≡ finished g' false =
            rw (q, more, run, rounds) at h in
          absurd (rounds-true fuel k g1 g' true refl h')
      | inr done ↦
          let h' : finished g1 false ≡ finished g' false = rw (q, done, run, rounds) at h in
          let (quiet, same, still) =
            sweep-false (fuel g) 0 g g1 false (q ∙ ap (λ x. finished g1 x) done) in
          let e : g' ≡ g1 = cc in (e ∙ same, λ j lt. still j (omega arith) lt)
    ]
  ]

  -- For a visit that leaves the graph as it was whenever it returns false: a run of at least one
  -- round that reports no change gives the graph back, and the visit of any of its nodes returns
  -- false and the same graph.
  pub run_fixpoint :
      (fuel : Graph → ℕ) (k : ℕ) (g g' : Graph) (j : NodeId)
      → run visit fuel (suc k) g ≡ finished g' false
      → j < size g
      → (g' ≡ g) × (visit g j ≡ some (g, false))
  run_fixpoint fuel k g g' j h lt =
      let (same, still) = run-false fuel k g g' h in (same, still j lt)
