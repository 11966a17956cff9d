-- ===== src/Son/Graph/Pure.antt =====
-- jules/src/core/son/graph.cpp: the hash and the equality of pure nodes, for value numbering. `feq` is
-- C++'s `==` on doubles, on their bit patterns.
use jules.Prelude.{ℕ, ◌==◌, ◌&&◌, ◌||◌, not, Bool, true, false, List, [], ◌∷◌, drop, if◌then◌else◌}
use jules.Support.Hash.{fnv1a, bytes_of, hash_mix, fnv_offset}
use jules.Son.Types.{ty_is_float}
use jules.Son.Node.{NodeId, Node, Op, inputs, op_code, ◌is◌}
use jules.Son.Graph.{Graph, node}

-- Slot 0, the control pin, is left out.
abbrev pub values_in : Node → List NodeId
values_in n = drop 1 (inputs n)

abbrev mix_all : ℕ → List NodeId → ℕ
mix_all h [] = h
mix_all h (v ∷ vs) = mix_all (hash_mix h v) vs

abbrev pub same_ids : List NodeId → List NodeId → Bool
same_ids [] [] = true
same_ids [] (b ∷ bs) = false
same_ids (a ∷ more) [] = false
same_ids (a ∷ more) (b ∷ bs) = a == b && same_ids more bs

module _ (feq : ℕ → ℕ → Bool) where
  unfoldable pub pure_hash : Graph → NodeId → ℕ
  unfolding fnv1a bytes_of hash_mix
  pure_hash g n =
      let nd = node g n in
      let h0 = fnv1a (bytes_of 1 (op_code nd.op)) fnv_offset in
      let h1 = hash_mix (hash_mix (hash_mix (hash_mix h0 nd.sub) nd.ty) nd.aux) nd.ival in
      let f = if feq nd.fval 0 then 0 else fnv1a (bytes_of 8 nd.fval) fnv_offset in
      mix_all (hash_mix h1 f) (values_in nd)

  unfoldable pub pure_equals : Graph → NodeId → NodeId → Bool
  unfolding ty_is_float
  pure_equals g a b =
      let x = node g a in
      let y = node g b in
      if not (x.op is y.op) || not (x.sub == y.sub) || not (x.ty == y.ty)
      then false
      else if x.op is Op.const
      then (if ty_is_float x.ty then feq x.fval y.fval else x.ival == y.ival)
      else x.aux == y.aux && x.n_in == y.n_in && same_ids (values_in x) (values_in y)
