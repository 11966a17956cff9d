-- ===== src/Codegen/Ralloc/Coalesce/Rule.antt =====
-- What each coalesced pair keeps, the rounds of the coalescing keep.
use jules.Support.FlatMap
use jules.Prelude.{ℕ, zero, suc, ◌+◌, ◌==◌, Option-cases, Bool-cases, inl, inr, List, [], ◌∷◌}
use jules.Codegen.Ralloc.{RaMove, RaProblem}
use jules.Codegen.Ralloc.Assign.{RaAssign, index_of}
use jules.Codegen.Ralloc.Coalesce.{coalesce_pair, coalesce_move, coalesce_all, coalesce_rounds}

module _ {ℓ} (p : RaProblem) (P : List RaAssign → Type ℓ)
    (pair : (out : List RaAssign) (i j : ℕ) → P out → P (coalesce_pair p out i j).0) where
  move_keeps : (out : List RaAssign) (mv : RaMove) → P out → P (coalesce_move p out mv).0
  unfolding coalesce_move
  move_keeps out mv s = elim (Option-cases (FlatMap.find (index_of p) mv.a)) [
    | inl e ↦ rw (e, coalesce_move) s
    | inr (i, e) ↦ elim (Option-cases (FlatMap.find (index_of p) mv.b)) [
      | inl f ↦ rw (e, f, coalesce_move) s
      | inr (j, f) ↦ rw (e, f, coalesce_move) (pair out i j s)
    ]
  ]

  all_keep :
      (mvs : List RaMove) (out : List RaAssign) (count : ℕ)
      → P out
      → P (coalesce_all p mvs out count).0
  unfolding coalesce_all
  all_keep [] out count s = s
  all_keep (mv ∷ mvs) out count s = all_keep mvs (coalesce_move p out mv).0 _ (move_keeps out mv s)

  pub rounds_keep :
      (k : ℕ) (out : List RaAssign) (count : ℕ) → P out → P (coalesce_rounds p k out count).0
  unfolding coalesce_rounds
  rounds_keep zero out count s = s
  rounds_keep (suc k) out count s =
      let round = coalesce_all p p.moves out 0 in
      let s' = all_keep p.moves out 0 s in
      elim (Bool-cases (round.1 == 0)) [
        | inl e ↦ rw (e, coalesce_rounds) s'
        | inr e ↦ rw (e, coalesce_rounds) (rounds_keep k round.0 (count + round.1) s')
      ]
