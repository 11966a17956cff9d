-- ===== src/Passes/DeadNodeElimination/Walking.antt =====
-- The walk of p01 over the blocks: it ends, and the calls of every block that it reaches are marked.
use jules.Support.FlatMap
use jules.Support.FlatMap.Search.{IsSorted}
use jules.Support.FlatMap.Laws.{contains-insert, insert-IsSorted}
use jules.Prelude.{
  ℕ, ◌+◌, ◌≤◌, ◌≡◌, refl, ◌∙◌, arith, ◌==◌, Bool, true, false, List, [], ◌∷◌, length, contains,
  if◌then◌else◌, Bool-cases, inl, inr, ◌⊎◌, eq_of_==,
}
use jules.Son.Node.{NodeId}
use jules.Passes.DeadNodeElimination.{Walk, push_succs}

abbrev pub is_reached : Walk → NodeId → Bool
is_reached w b = FlatMap.contains w.reach b

-- How many of the nodes are not reached.
abbrev pub missing : List NodeId → List (ℕ × Bool) → ℕ
missing [] reach = 0
missing (x ∷ xs) reach = (if FlatMap.contains reach x then 0 else 1) + missing xs reach

pub missing_le : (xs : List NodeId) (reach : List (ℕ × Bool)) → missing xs reach ≤ length xs
missing_le [] reach = omega arith
missing_le (x ∷ xs) reach = ground (arith, missing_le xs reach)

missing-insert_le :
    (xs : List NodeId) (reach : List (ℕ × Bool)) (k : NodeId)
    → IsSorted reach
    → missing xs (FlatMap.insert reach k true) ≤ missing xs reach
missing-insert_le [] reach k h = omega arith
missing-insert_le (x ∷ xs) reach k h =
    rw (contains-insert reach k true x h) (ground (arith, missing-insert_le xs reach k h))

missing-insert :
    (xs : List NodeId) (reach : List (ℕ × Bool)) (k : NodeId)
    → IsSorted reach
    → FlatMap.contains reach k ≡ false
    → contains k xs ≡ true
    → missing xs (FlatMap.insert reach k true) + 1 ≤ missing xs reach
missing-insert [] reach k h out named = absurd (cc)
missing-insert (x ∷ xs) reach k h out named = elim (Bool-cases (k == x)) [
  | inl same ↦
      let e = eq_of_== k x same in
      let here : FlatMap.contains reach x ≡ false = rw e at out in
      let now : FlatMap.contains (FlatMap.insert reach k true) x ≡ true =
        contains-insert reach k true x h ∙ ground arith in
      rw (now, here) (omega (arith, missing-insert_le xs reach k h))
  | inr other ↦
      let rest = missing-insert xs reach k h out (ground arith) in
      rw (contains-insert reach k true x h) (ground arith)
]

-- What pushing successors keeps, for a table whose targets are `all`.
pub record Pushed (all : List NodeId) (w w' : Walk) : Type 0 where
  pub same_graph : w'.graph ≡ w.graph
  pub same_marks : w'.marks ≡ w.marks
  pub sorted : IsSorted w'.reach
  pub measure : missing all w'.reach + length w'.stack ≤ missing all w.reach + length w.stack
  pub grows : (q : NodeId) → is_reached w q ≡ true → is_reached w' q ≡ true
  pub pending : (q : NodeId) → contains q w.stack ≡ true → contains q w'.stack ≡ true
  pub fresh :
      (q : NodeId) → is_reached w' q ≡ true → (is_reached w q ≡ true) ⊎ (contains q w'.stack ≡ true)

Pushed-refl : (all : List NodeId) (w : Walk) → IsSorted w.reach → Pushed all w w
Pushed-refl all w h = record {
  same_graph = refl;
  same_marks = refl;
  sorted = h;
  measure = omega arith;
  grows = λ q e. e;
  pending = λ q e. e;
  fresh = λ q e. inl e;
}

Pushed-trans : (all : List NodeId) (u v w : Walk) → Pushed all u v → Pushed all v w → Pushed all u w
Pushed-trans all u v w a b = record {
  same_graph = b.same_graph ∙ a.same_graph;
  same_marks = b.same_marks ∙ a.same_marks;
  sorted = b.sorted;
  measure = omega (arith, a.measure, b.measure);
  grows = λ q e. b.grows q (a.grows q e);
  pending = λ q e. b.pending q (a.pending q e);
  fresh = λ q e. elim (b.fresh q e) [
    | inr waiting ↦ inr waiting
    | inl old ↦ elim (a.fresh q old) [ inl older ↦ inl older | inr v ↦ inr (b.pending q v) ]
  ];
}

Pushed-one :
    (all : List NodeId) (s : NodeId) (w : Walk)
    → IsSorted w.reach
    → is_reached w s ≡ false
    → contains s all ≡ true
    → Pushed all w (record w { stack = s ∷ w.stack; reach = FlatMap.insert w.reach s true })
Pushed-one all s w h out named = record {
  same_graph = refl;
  same_marks = refl;
  sorted = insert-IsSorted w.reach s true h;
  measure = omega (arith, missing-insert all w.reach s h out named);
  grows = λ q e. contains-insert w.reach s true q h ∙ ground arith;
  pending = λ q e. ground arith;
  fresh = λ q e.
      let now = contains-insert w.reach s true q h in
      elim (Bool-cases (q == s)) [ inl same ↦ inr (rw same refl) | inr other ↦ inl (ground arith) ];
}

-- All of a list are among another.
abbrev pub AllIn : List NodeId → List NodeId → Type 0
AllIn ss all = (q : NodeId) → contains q ss ≡ true → contains q all ≡ true

-- The successors are reached after they were pushed.
pub push_succs-Pushed :
    (all ss : List NodeId) (w : Walk)
    → IsSorted w.reach
    → AllIn ss all
    → Pushed all w (push_succs ss w)
      × ((q : NodeId) → contains q ss ≡ true → is_reached (push_succs ss w) q ≡ true)
unfolding push_succs
push_succs-Pushed all [] w h within = (Pushed-refl all w h, λ q e. absurd (cc))
push_succs-Pushed all (s ∷ ss) w h within =
    let (one, there) = step in
    let (rest, later) = push_succs-Pushed all ss next one.sorted (λ q e. within q (ground arith)) in
    (
      Pushed-trans all w next (push_succs ss next) one rest,
      λ q e. elim (Bool-cases (q == s)) [
        | inl same ↦ rest.grows q (rw (eq_of_== q s same) there)
        | inr other ↦ later q (ground arith)
      ],
    )
  where
    next : Walk
    next =
        if FlatMap.contains w.reach s
        then w
        else record w { stack = s ∷ w.stack; reach = FlatMap.insert w.reach s true }

    step : Pushed all w next × (is_reached next s ≡ true)
    step = elim (Bool-cases (is_reached w s)) [
      | inl old ↦ rw old (Pushed-refl all w h, old)
      | inr new ↦ rw new (
        Pushed-one all s w h new (within s (ground arith)),
        contains-insert w.reach s true s h ∙ ground arith,
      )
    ]
