-- ===== src/Son/Graph/Uses.antt =====
-- The use lists of graph.cpp: `rebuild_uses` lists at each node exactly the nodes that take it as an
-- input, so an edit of the listed users is an edit of every node.
use jules.Prelude.{
  ℕ, zero, suc, ◌+◌, ◌-◌, ◌<◌, ◌≡◌, ◌≢◌, refl, sym, ◌∙◌, arith, ◌==◌, leb, Bool, false, ◌&&◌, ◌||◌,
  List, [], ◌∷◌, ◌++◌, map, length, get_or, set, contains, contains-append, length-set,
  get_or-set_self, get_or-set_ne, length-map, if◌then◌else◌, Bool-cases, inl, inr, ==_of_ne, dec_lt,
  ℕ_discrete, eq_of_==, ne_of_==,
}
use jules.Son.Node.{NodeId, Node, no_node, default_node, inputs}
use jules.Son.Graph.{
  Graph, node, size, add_uses, collect_uses, rebuild_uses, uses_of, edit_users, edit_uses,
}

pub length-add_uses :
    (u : NodeId) (vs : List NodeId) (uses : List (List NodeId))
    → length (add_uses u vs uses) ≡ length uses
unfolding add_uses
length-add_uses u [] uses = refl
length-add_uses u (v ∷ vs) uses = ground (
  arith,
  length-add_uses u vs (if v == no_node then uses else set uses v (get_or uses v [] ++ u ∷ [])),
  length-set uses v (get_or uses v [] ++ u ∷ []),
)

contains-push :
    (u j v from : ℕ) (uses : List (List NodeId))
    → from < length uses
    → contains j (get_or (set uses v (get_or uses v [] ++ u ∷ [])) from [])
      ≡ (contains j (get_or uses from []) || (j == u && from == v))
contains-push u j v from uses h = elim (Bool-cases (from == v)) [
  | inl e ↦
      rw (sym (eq_of_== from v e), get_or-set_self uses from (get_or uses from [] ++ u ∷ []) [] h)
        (rw (contains-append j (get_or uses from []) (u ∷ [])) (ground arith))
  | inr e ↦
      rw
        (get_or-set_ne uses v from (get_or uses v [] ++ u ∷ []) [] (λ q. ne_of_== from v e (sym q)))
        (ground arith)
]

-- Listing `u` under its inputs `vs`.
contains-add_uses :
    (u j from : NodeId) (vs : List NodeId) (uses : List (List NodeId))
    → from < length uses
    → from ≢ no_node
    → contains j (get_or (add_uses u vs uses) from [])
      ≡ (contains j (get_or uses from []) || (j == u && contains from vs))
unfolding add_uses
contains-add_uses u j from [] uses h k = ground arith
contains-add_uses u j from (v ∷ vs) uses h k = ground (
  arith,
  contains-push u j v from uses h,
  length-set uses v (get_or uses v [] ++ u ∷ []),
  contains-add_uses u j from vs uses,
  contains-add_uses u j from vs (set uses v (get_or uses v [] ++ u ∷ [])),
)

get_or-tail :
    (n : Node) (ns : List Node) (j u : ℕ)
    → u < j
    → get_or (n ∷ ns) (j - u) default_node ≡ get_or ns (j - (u + 1)) default_node
get_or-tail n ns j u h = let e : j - u ≡ suc (j - (u + 1)) = omega arith in rw e refl

get_or-head :
    (n : Node) (ns : List Node) (j u : ℕ) → j ≡ u → get_or (n ∷ ns) (j - u) default_node ≡ n
get_or-head n ns j u h = let e : j - u ≡ 0 = omega arith in rw e refl

collect_head :
    (u j from : NodeId) (n : Node) (ns : List Node) (listed : Bool)
    → ((listed || (j == u && contains from (inputs n)))
        || (leb (u + 1) j && contains from (inputs (get_or ns (j - (u + 1)) default_node))))
      ≡ (listed || (leb u j && contains from (inputs (get_or (n ∷ ns) (j - u) default_node))))
collect_head u j from n ns listed = elim (dec_lt u j) [
  | yes p ↦ rw (get_or-tail n ns j u p) (ground arith)
  | no p ↦ elim (ℕ_discrete j u) [
    | yes e ↦ rw (get_or-head n ns j u e) (ground arith)
    | no e ↦ ground arith
  ]
]

-- The users that the loop from the id `u` on lists.
contains-collect_uses :
    (u j from : NodeId) (ns : List Node) (uses : List (List NodeId))
    → from < length uses
    → from ≢ no_node
    → contains j (get_or (collect_uses u ns uses) from []) ≡ (
        contains j (get_or uses from [])
        || (leb u j && contains from (inputs (get_or ns (j - u) default_node))))
unfolding collect_uses
contains-collect_uses u j from [] uses h k = ground arith
contains-collect_uses u j from (n ∷ ns) uses h k =
    contains-collect_uses (u + 1) j from ns (add_uses u (inputs n) uses)
      (rw (length-add_uses u (inputs n) uses) h) k
    ∙ rw (contains-add_uses u j from (inputs n) uses h k)
        (collect_head u j from n ns (contains j (get_or uses from [])))

abbrev no_users : List NodeId
no_users = []

get_or-no_uses : (ns : List Node) (i : ℕ) → get_or (map (λ _. no_users) ns) i [] ≡ no_users
get_or-no_uses [] i = refl
get_or-no_uses (n ∷ ns) zero = refl
get_or-no_uses (n ∷ ns) (suc i) = get_or-no_uses ns i

-- Node `j` is listed at `from` if and only if one of its inputs is `from`.
abbrev pub IsListed : List Node → List (List NodeId) → Type 0
IsListed ns uses =
    (from j : NodeId)
    → from < length ns
    → from ≢ no_node
    → contains j (get_or uses from []) ≡ contains from (inputs (get_or ns j default_node))

pub rebuild_uses-IsListed : (g : Graph) → IsListed g.nodes (rebuild_uses g).uses
unfolding rebuild_uses
rebuild_uses-IsListed g from j h k =
    contains-collect_uses 0 j from g.nodes (map (λ _. no_users) g.nodes)
      (rw (length-map (λ _. no_users) g.nodes) h) k
    ∙ rw (get_or-no_uses g.nodes from) (let e : j - 0 ≡ j = omega arith in rw e (ground arith))

-- After `rebuild_uses` a node `j` is in the use list of a node `from` of the graph, whose id is
-- not that of no node, if and only if `from` is among the inputs of `j`.
pub rebuild_uses_lists :
    (g : Graph) (from j : NodeId)
    → from < size g
    → from ≢ no_node
    → contains j (get_or (rebuild_uses g).uses from []) ≡ contains from (inputs (node g j))
rebuild_uses_lists g from j h k = rebuild_uses-IsListed g from j h k

-- The use lists may be trusted where the graph does not mark them as dirty.
abbrev pub HasFreshUses : Graph → Type 0
HasFreshUses g = g.uses_dirty ≡ false → IsListed g.nodes g.uses

pub uses_of-IsListed :
    (g : Graph) (n : NodeId) → HasFreshUses g → IsListed g.nodes (uses_of g n).0.uses
unfolding uses_of
uses_of-IsListed g n fresh = elim (Bool-cases g.uses_dirty) [
  | inl dirty ↦ rw dirty (rebuild_uses-IsListed g)
  | inr clean ↦ rw clean (fresh clean)
]

get_or-edit :
    (edit : Node → Node) (ns : List Node) (u j : NodeId)
    → edit default_node ≡ default_node
    → get_or (set ns u (edit (get_or ns u default_node))) j default_node
      ≡ (if j == u then edit (get_or ns j default_node) else get_or ns j default_node)
get_or-edit edit [] u j blank = ground arith
get_or-edit edit (n ∷ ns) zero zero blank = refl
get_or-edit edit (n ∷ ns) zero (suc j) blank = ground arith
get_or-edit edit (n ∷ ns) (suc u) zero blank = ground arith
get_or-edit edit (n ∷ ns) (suc u) (suc j) blank = get_or-edit edit ns u j blank ∙ ground arith

-- Editing the listed nodes, one after the other, with an edit that is done by doing it once.
get_or-edit_users :
    (edit : Node → Node) (us : List NodeId) (ns : List Node) (j : NodeId)
    → ((n : Node) → edit (edit n) ≡ edit n)
    → edit default_node ≡ default_node
    → get_or (edit_users edit us ns) j default_node
      ≡ (if contains j us then edit (get_or ns j default_node) else get_or ns j default_node)
unfolding edit_users
get_or-edit_users edit [] ns j twice blank = refl
get_or-edit_users edit (u ∷ us) ns j twice blank =
    get_or-edit_users edit us (set ns u (edit (get_or ns u default_node))) j twice blank
    ∙ rw (get_or-edit edit ns u j blank) (ground (arith, twice (get_or ns j default_node)))

module _ (from : NodeId) (edit : Node → Node) (twice : (n : Node) → edit (edit n) ≡ edit n)
    (other : (n : Node) → contains from (inputs n) ≡ false → edit n ≡ n) where
  edit_listed :
      (ns : List Node) (uses : List (List NodeId)) (j : NodeId)
      → IsListed ns uses
      → from < length ns
      → from ≢ no_node
      → get_or (edit_users edit (get_or uses from []) ns) j default_node
        ≡ edit (get_or ns j default_node)
  edit_listed ns uses j listed h k =
      get_or-edit_users edit (get_or uses from []) ns j twice (other default_node refl)
      ∙ rw (listed from j h k)
          (elim (Bool-cases (contains from (inputs (get_or ns j default_node)))) [
            | inl e ↦ rw e refl
            | inr e ↦ rw e (sym (other (get_or ns j default_node) e))
          ])

  -- What the three `replace…` functions do to each node: the edit, which leaves a node that does not
  -- take `from` alone.
  pub node-edit_uses :
      (g : Graph) (to : NodeId) (j : NodeId)
      → HasFreshUses g
      → from < size g
      → from ≢ no_node
      → from ≢ to
      → node (edit_uses g from to edit) j ≡ edit (node g j)
  unfolding edit_uses
  node-edit_uses g to j fresh h k ne = rw (==_of_ne from to ne) (elim (Bool-cases g.uses_dirty) [
    | inl dirty ↦ rw dirty (edit_listed g.nodes _ j (rebuild_uses-IsListed g) h k)
    | inr clean ↦ rw clean (edit_listed g.nodes g.uses j (fresh clean) h k)
  ])
