-- ===== src/Passes/BitwiseOptimization/Sound.antt =====
-- Where p16 puts an operand for a node, the operand has the node's value.
use jules.Prelude.{
  ℕ, ◌-◌, ◌^◌, ltb, ◌≤◌, ◌<◌, ◌≡◌, ◌≢◌, ◌⊎◌, inl, inr, refl, sym, ap, ◌∙◌, subst, arith, ◌==◌, Bool,
  true, false, not, ◌&&◌, ◌||◌, Option, none, some, bit_and, bit_or, if◌then◌else◌, Bool-cases,
  eq_of_==,
}
use jules.Prelude.Words.{IsWord}
use jules.Son.Types.{TypeId, ty_is_float, ty_is_bool, ty_is_signed, ty_bits}
use jules.Son.Node.{eq_of_is, NodeId, Node, Op, BinOp, no_node, input, ◌is◌, to_bin, bin_code}
use jules.Son.Graph.{Graph, node, size}
use jules.Son.Graph.Uses.{HasFreshUses}
use jules.Passes.ConstEval.{FloatOps, ConstVal, Folded, eval_bin_const, const_of}
use jules.Passes.Meaning.{Valuation, HasType, Models}
use jules.Passes.Meaning.Values.{bin_value}
use jules.Passes.Meaning.Edit.{
  Refines, Models-replace-kill, replace-kill-HasFreshUses, size-replace-kill,
}
use jules.Passes.Reassociation.Values.{and_comm, or_comm}
use jules.Passes.AlgebraicSimplification.{replace}
use jules.Passes.BitwiseOptimization.{
  Action, keep, to_const, use_node, mask_with, absorbs, is_complement, all_ones, extract_field,
  choose, perform, visit,
}
use jules.Passes.BitwiseOptimization.Values.{and-or_absorb, or-and_absorb}

-- Values of one integer type with the same payload are the same.
same_value :
    (t : TypeId) (u v : ConstVal)
    → HasType t u
    → HasType t v
    → ty_is_float t ≡ false
    → u.iv ≡ v.iv
    → u ≡ v
same_value t u v hu hv int e =
    ap (λ x. record { is_fp = u.is_fp; ty = u.ty; iv = x; fv = u.fv }) e
    ∙ ground (arith, hu.ty_eq, hv.ty_eq, hu.is_fp_eq, hv.is_fp_eq, hu.no_fv, hv.no_fv)

-- An action that puts a node for another puts one of its value.
data RightUse (g : Graph) (ρ : Valuation) (id : NodeId) : Action → Type 0 where
  puts : {c : NodeId} → ρ id ≡ ρ c → (c < size g) ⊎ (c ≡ no_node) → RightUse g ρ id (use_node c)
  keeps : RightUse g ρ id keep
  folds : {v : ℕ} → RightUse g ρ id (to_const v)
  masks : {x : NodeId} {k : ℕ} → RightUse g ρ id (mask_with x k)

put_value :
    (g : Graph) (ρ : Valuation) (id c : NodeId)
    → RightUse g ρ id (use_node c)
    → (ρ id ≡ ρ c) × ((c < size g) ⊎ (c ≡ no_node))
put_value g ρ id c (puts e named) = (e, named)

module _ (F : FloatOps) (g : Graph) (ρ : Valuation) (m : Models F g ρ) where
  typed : (i : NodeId) (t : TypeId) → (ρ i).ty ≡ t → HasType t (ρ i)
  typed i t e = subst (λ u. HasType u (ρ i)) (sym (m.holds i).typed.ty_eq ∙ e) (m.holds i).typed

  -- The value of an `&` or `|` of integers, and the type of its operands.
  module _ (i : NodeId) (t : TypeId) (int : ty_is_float t ≡ false) (own : (ρ i).ty ≡ t)
      (is_bin : (node g i).op ≡ Op.bin) where
    operand_types : ((ρ (input (node g i) 1)).ty ≡ t) × ((ρ (input (node g i) 2)).ty ≡ t)
    operand_types =
        let (p, q) = (m.holds i).operands is_bin in
        let e : (node g i).ty ≡ t = sym (m.holds i).typed.ty_eq ∙ own in (p ∙ e, q ∙ e)

    iv-bin :
        (o : BinOp) (f : ℕ → ℕ → ℕ)
        → to_bin (node g i).sub ≡ some o
        → ((u v : ConstVal)
            → u.is_fp ≡ false
            → v.is_fp ≡ false
            → eval_bin_const F o u v
              ≡ Folded.value (record { is_fp = false; ty = u.ty; iv = f u.iv v.iv; fv = 0 }))
        → (ρ i).iv ≡ f (ρ (input (node g i) 1)).iv (ρ (input (node g i) 2)).iv
    iv-bin o f s evaluates =
        let (p, q) = operand_types in
        let x = ρ (input (node g i) 1) in
        let y = ρ (input (node g i) 2) in
        ap (λ w. w.iv)
          (bin_value F (m.holds i) _ o is_bin s (
            evaluates x y ((typed (input (node g i) 1) t p).is_fp_eq ∙ int)
              ((typed (input (node g i) 2) t q).is_fp_eq ∙ int)))

    and_iv :
        to_bin (node g i).sub ≡ some BinOp.and
        → (ρ i).iv ≡ bit_and (ρ (input (node g i) 1)).iv (ρ (input (node g i) 2)).iv
    unfolding eval_bin_const
    and_iv s = iv-bin BinOp.and bit_and s (λ u v p q. rw (p, q) refl)

    or_iv :
        to_bin (node g i).sub ≡ some BinOp.or
        → (ρ i).iv ≡ bit_or (ρ (input (node g i) 1)).iv (ρ (input (node g i) 2)).iv
    unfolding eval_bin_const
    or_iv s = iv-bin BinOp.or bit_or s (λ u v p q. rw (p, q) refl)

  word : (i : NodeId) → IsWord (ρ i).iv
  word i = (m.holds i).typed.word

  module _ (t : TypeId) (int : ty_is_float t ≡ false) (y x : NodeId) (own : (ρ y).ty ≡ t) where
    inner_or :
        absorbs (node g y) BinOp.or x ≡ true → (z : ℕ) × (IsWord z) × ((ρ y).iv ≡ bit_or (ρ x).iv z)
    inner_or h =
        let n = node g y in
        let is_bin = eq_of_is n.op Op.bin (ground arith) in
        let sub : n.sub ≡ 6 = eq_of_== n.sub 6 (ground arith) in
        let e = or_iv y t int own is_bin (rw sub refl) in
        elim (Bool-cases (input n 1 == x)) [
          | inl first ↦
              let q : input n 1 ≡ x = eq_of_== _ _ first in
              (
                (ρ (input n 2)).iv,
                word (input n 2),
                e ∙ ap (λ i. bit_or (ρ i).iv (ρ (input n 2)).iv) q,
              )
          | inr second ↦
              let q : input n 2 ≡ x = eq_of_== _ _ (ground arith) in
              (
                (ρ (input n 1)).iv,
                word (input n 1),
                e
                    ∙ or_comm 64 _ _ (word (input n 1)) (word (input n 2))
                    ∙ ap (λ i. bit_or (ρ i).iv (ρ (input n 1)).iv) q,
              )
        ]

    inner_and :
        absorbs (node g y) BinOp.and x ≡ true
        → (z : ℕ) × (IsWord z) × ((ρ y).iv ≡ bit_and (ρ x).iv z)
    inner_and h =
        let n = node g y in
        let is_bin = eq_of_is n.op Op.bin (ground arith) in
        let sub : n.sub ≡ 5 = eq_of_== n.sub 5 (ground arith) in
        let e = and_iv y t int own is_bin (rw sub refl) in
        elim (Bool-cases (input n 1 == x)) [
          | inl first ↦
              let q : input n 1 ≡ x = eq_of_== _ _ first in
              (
                (ρ (input n 2)).iv,
                word (input n 2),
                e ∙ ap (λ i. bit_and (ρ i).iv (ρ (input n 2)).iv) q,
              )
          | inr second ↦
              let q : input n 2 ≡ x = eq_of_== _ _ (ground arith) in
              (
                (ρ (input n 1)).iv,
                word (input n 1),
                e
                    ∙ and_comm 64 _ _ (word (input n 1)) (word (input n 2))
                    ∙ ap (λ i. bit_and (ρ i).iv (ρ (input n 1)).iv) q,
              )
        ]

  module _ (id : NodeId) (op : BinOp) (is_bin : (node g id).op ≡ Op.bin)
      (sub : to_bin (node g id).sub ≡ some op) (int : ty_is_float (node g id).ty ≡ false) where
    abbrev n : Node
    n = node g id

    own : (ρ id).ty ≡ n.ty
    own = (m.holds id).typed.ty_eq

    types : ((ρ (input n 1)).ty ≡ n.ty) × ((ρ (input n 2)).ty ≡ n.ty)
    types = operand_types id n.ty int own is_bin

    is_and : bin_code op == bin_code BinOp.and ≡ true → op ≡ BinOp.and
    is_and h = code_and op h
      where
        code_and : (o : BinOp) → bin_code o == bin_code BinOp.and ≡ true → o ≡ BinOp.and
        code_and BinOp.and h = refl
        code_and _ h = absurd (cc)

    is_or : bin_code op == bin_code BinOp.or ≡ true → op ≡ BinOp.or
    is_or h = code_or op h
      where
        code_or : (o : BinOp) → bin_code o == bin_code BinOp.or ≡ true → o ≡ BinOp.or
        code_or BinOp.or h = refl
        code_or _ h = absurd (cc)

    value : (x : NodeId) → (ρ x).ty ≡ n.ty → (ρ id).iv ≡ (ρ x).iv → ρ id ≡ ρ x
    value x e q = same_value n.ty (ρ id) (ρ x) (typed id n.ty own) (typed x n.ty e) int q

    -- x & (x | z), where p16 finds `x` as the operand `a` of the node or as its operand `b`.
    and_absorbs_a :
        op ≡ BinOp.and
        → absorbs (node g (input n 2)) BinOp.or (input n 1) ≡ true
        → ρ id ≡ ρ (input n 1)
    and_absorbs_a o h =
        let (z, hz, e) = inner_or n.ty int (input n 2) (input n 1) types.1 h in
        let x = (ρ (input n 1)).iv in
        value (input n 1) types.0 (
          and_iv id n.ty int own is_bin (sub ∙ ap some o)
          ∙ ap (λ v. bit_and x v) e
          ∙ and-or_absorb 64 x z (word (input n 1)))

    and_absorbs_b :
        op ≡ BinOp.and
        → absorbs (node g (input n 1)) BinOp.or (input n 2) ≡ true
        → ρ id ≡ ρ (input n 2)
    and_absorbs_b o h =
        let (z, hz, e) = inner_or n.ty int (input n 1) (input n 2) types.0 h in
        let x = (ρ (input n 2)).iv in
        value (input n 2) types.1 (
          and_iv id n.ty int own is_bin (sub ∙ ap some o)
          ∙ and_comm 64 (ρ (input n 1)).iv x (word (input n 1)) (word (input n 2))
          ∙ ap (λ v. bit_and x v) e
          ∙ and-or_absorb 64 x z (word (input n 2)))

    or_absorbs_a :
        op ≡ BinOp.or
        → absorbs (node g (input n 2)) BinOp.and (input n 1) ≡ true
        → ρ id ≡ ρ (input n 1)
    or_absorbs_a o h =
        let (z, hz, e) = inner_and n.ty int (input n 2) (input n 1) types.1 h in
        let x = (ρ (input n 1)).iv in
        value (input n 1) types.0 (
          or_iv id n.ty int own is_bin (sub ∙ ap some o)
          ∙ ap (λ v. bit_or x v) e
          ∙ or-and_absorb 64 x z (word (input n 1)))

    or_absorbs_b :
        op ≡ BinOp.or
        → absorbs (node g (input n 1)) BinOp.and (input n 2) ≡ true
        → ρ id ≡ ρ (input n 2)
    or_absorbs_b o h =
        let (z, hz, e) = inner_and n.ty int (input n 1) (input n 2) types.0 h in
        let x = (ρ (input n 2)).iv in
        value (input n 2) types.1 (
          or_iv id n.ty int own is_bin (sub ∙ ap some o)
          ∙ or_comm 64 (ρ (input n 1)).iv x (word (input n 1)) (word (input n 2))
          ∙ ap (λ v. bit_or x v) e
          ∙ or-and_absorb 64 x z (word (input n 2)))

    case :
        (b : Bool) (x y : Action)
        → (b ≡ true → RightUse g ρ id x)
        → RightUse g ρ id y
        → RightUse g ρ id (if b then x else y)
    case true x y p q = p refl
    case false x y p q = q

    extract_field-RightUse :
        (an : Node) (o : Option ConstVal) → RightUse g ρ id (extract_field n an op o)
    unfolding extract_field
    extract_field-RightUse an none = keeps
    extract_field-RightUse an (some k) =
        let shift = bit_and k.iv 63 in
        let w = ty_bits n.ty in
        case
          (bin_code op == bin_code BinOp.shr
            && an.op is Op.bin
            && an.sub == bin_code BinOp.shl
            && input an 1 == input n 2
            && not (ty_is_signed n.ty)
            && ltb 0 shift
            && ltb shift w)
          (mask_with (input an 1) (2 ^ (w - shift) - 1)) keep (λ _. masks) keeps

    left : (p q : Bool) → (p && q) ≡ true → p ≡ true
    left p q h = ground arith

    right : (p q : Bool) → (p && q) ≡ true → q ≡ true
    right p q h = ground arith

    choose-RightUse : RightUse g ρ id (choose g n op)
    unfolding choose
    choose-RightUse =
        let a = input n 1 in
        let b = input n 2 in
        let pair = is_complement (node g b) a || is_complement (node g a) b in
        let is_op = λ (o : BinOp). bin_code op == bin_code o in
        case (pair && is_op BinOp.and) (to_const 0) _ (λ _. folds)
          (case (pair && (is_op BinOp.or || is_op BinOp.xor)) (to_const (all_ones n.ty)) _
            (λ _. folds)
            (case (is_op BinOp.and && absorbs (node g b) BinOp.or a) (use_node a) _
              (λ h. puts (and_absorbs_a (is_and (left _ _ h)) (right _ _ h)) (m.in_range id 1))
              (case (is_op BinOp.or && absorbs (node g b) BinOp.and a) (use_node a) _
                (λ h. puts (or_absorbs_a (is_or (left _ _ h)) (right _ _ h)) (m.in_range id 1))
                (case (is_op BinOp.and && absorbs (node g a) BinOp.or b) (use_node b) _
                  (λ h. puts (and_absorbs_b (is_and (left _ _ h)) (right _ _ h)) (m.in_range id 2))
                  (case (is_op BinOp.or && absorbs (node g a) BinOp.and b) (use_node b) _
                    (λ h. puts (or_absorbs_b (is_or (left _ _ h)) (right _ _ h)) (m.in_range id 2))
                    (extract_field-RightUse (node g a) (const_of g b)))))))

-- In a graph that holds of a valuation, whose use lists can be trusted and which has no more nodes
-- than indices: where p16 chooses to put another node than the visited one, which is an operand, for
-- the visited one, the visit returns, and it keeps the value of every node and the trust in the use
-- lists.
pub absorb_visit-Refines :
    (F : FloatOps) (g : Graph) (ρ : Valuation) (grows : ℕ → Bool) (id c : NodeId) (op : BinOp)
    → Models F g ρ
    → HasFreshUses g
    → id < size g
    → size g ≤ no_node
    → to_bin (node g id).sub ≡ some op
    → choose g (node g id) op ≡ use_node c
    → c ≢ id
    → (g' : Graph) × (changed : Bool) × (visit grows g id ≡ some (g', changed)) × Refines F g ρ g'
unfolding visit perform replace
absorb_visit-Refines F g ρ grows id c op m fresh lt room sub chosen other =
    let n = node g id in
    elim (Bool-cases (not (n.op is Op.bin) || ty_is_float n.ty || ty_is_bool n.ty)) [
      | inl skip ↦ (g, false, rw skip refl, (ρ, λ j q. refl, m, fresh, omega arith))
      | inr acts ↦
          let is_bin : n.op ≡ Op.bin = eq_of_is n.op Op.bin (ground arith) in
          let right_use : RightUse g ρ id (choose g n op) =
            choose-RightUse F g ρ m id op is_bin sub (ground arith) in
          let (e, named) = put_value g ρ id c (subst (RightUse g ρ id) chosen right_use) in
          (
            replace g id c,
            true,
            rw (acts, sub, chosen) refl,
            (
              ρ,
              λ j q. refl,
              Models-replace-kill g id c fresh lt named room (λ q. other (sym q)) F ρ m e,
              replace-kill-HasFreshUses g id c fresh,
              omega (arith, size-replace-kill g id c),
            ),
          )
    ]
