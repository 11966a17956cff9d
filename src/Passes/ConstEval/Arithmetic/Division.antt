-- ===== src/Passes/ConstEval/Arithmetic/Division.antt =====
-- The divisions of pass_utils.h, of i64 and u64.
use jules.Prelude.{
  ℕ, zero, suc, ◌/◌, ◌%◌, ◌^◌, ◌≤◌, ◌<◌, ◌≡◌, ◌≢◌, ◌⊎◌, inl, inr, refl, sym, subst, arith, ◌==◌,
  Bool, true, false, not, ◌&&◌, if◌then◌else◌, Bool-cases, ap,
}
use jules.Prelude.Words.{IsWord, magnitude, negative, sdiv, smod, neg64, not64, wrap, sign_bit}
use jules.Son.Types.{TypeId, ty_is_signed}
use jules.Son.Node.{BinOp}
use jules.Passes.ConstEval.{ConstVal, Folded, int_bin}
use native.Mathlib.Nat.{div-add-mod, mod-lt, div-le_self}
use jules.Passes.ConstEval.Arithmetic.{Divides, Quotient, Rest}

pub div-Divides : (x y : ℕ) → y ≢ 0 → Divides x y (x / y) (x % y)
div-Divides x zero h = absurd (h refl)
div-Divides x (suc y) h = (omega (arith, div-add-mod x (suc y)), mod-lt x (omega arith))

magnitude_neg :
    (q : ℕ) → q ≤ 2 ^ 63 → (magnitude (neg64 q) ≡ q) × ((neg64 q ≡ 0) ⊎ (negative (neg64 q) ≡ true))
magnitude_neg q h = ground arith

-- The sign of a quotient, and its distance from 0.
signed_value :
    (b : Bool) (q : ℕ)
    → q ≤ 2 ^ 63
    → (b ≡ false → q < 2 ^ 63)
    → let v = if b then neg64 q else wrap q in (magnitude v ≡ q) × ((v ≡ 0) ⊎ (negative v ≡ b))
signed_value true q h k = magnitude_neg q h
signed_value false q h k = let lt = k refl in ground arith

-- A quotient of distances is one of i64, but for that of the least by -1.
quotient_fits :
    (m n q r : ℕ) → Divides m n q r → m ≤ 2 ^ 63 → (n ≡ 1 → m < 2 ^ 63) → n ≢ 0 → q < 2 ^ 63
quotient_fits m zero q r d h one nz = absurd (nz refl)
quotient_fits m (suc zero) q r d h one nz = let lt = one refl in omega arith
quotient_fits m (suc (suc n)) q r (e, lt) h one nz = omega (arith, e)

sdiv-Quotient :
    (x y : ℕ)
    → IsWord x
    → IsWord y
    → y ≢ 0
    → (x == sign_bit && y == not64 0) ≡ false
    → Quotient true x y (sdiv x y)
sdiv-Quotient x y hx hy nz safe =
    let m = magnitude x in
    let n = magnitude y in
    let n_nz : n ≢ 0 = λ e. ground arith in
    let q = m / n in
    let r = m % n in
    let d : Divides m n q r = div-Divides m n n_nz in
    let m_le : m ≤ 2 ^ 63 = ground arith in
    let q_le : q ≤ 2 ^ 63 = omega (arith, div-le_self m n) in
    let b = if negative x then not (negative y) else negative y in
    let q_lt : b ≡ false → q < 2 ^ 63 =
      λ e. quotient_fits m n q r d m_le (λ one. ground arith) n_nz in
    let (same, sign) = signed_value b q q_le q_lt in (r, rw same d, sign)

rest_value :
    (b : Bool) (r : ℕ)
    → r < 2 ^ 63
    → let v = if b then neg64 r else r in (magnitude v ≡ r) × ((v ≡ 0) ⊎ (negative v ≡ b))
rest_value true r h = magnitude_neg r (omega arith)
rest_value false r h = ground arith

smod-Rest : (x y : ℕ) → IsWord x → IsWord y → y ≢ 0 → Rest true x y (smod x y)
smod-Rest x y hx hy nz =
    let m = magnitude x in
    let n = magnitude y in
    let n_nz : n ≢ 0 = λ e. ground arith in
    let r = m % n in
    let d : Divides m n (m / n) r = div-Divides m n n_nz in
    let n_le : n ≤ 2 ^ 63 = ground arith in
    let (same, sign) = rest_value (negative x) r (omega (arith, d.1)) in (m / n, rw same d, sign)

abbrev pub payload_of : Folded → ℕ
payload_of (Folded.value v) = v.iv
payload_of Folded.runtime = 0
payload_of Folded.trap = 0

pub div-Computes :
    (t : TypeId) (x y : ℕ) (w : ConstVal)
    → IsWord x
    → IsWord y
    → int_bin BinOp.div t x y ≡ Folded.value w
    → Quotient (ty_is_signed t) x y w.iv
unfolding int_bin
div-Computes t x y w hx hy h = elim (Bool-cases (y == 0)) [
  | inl z ↦ absurd (let h' = rw z at h in cc)
  | inr nz ↦ elim (Bool-cases (ty_is_signed t)) [
    | inr u ↦
        let h' = rw (nz, u) at h in
        let e : x / y ≡ w.iv = ap payload_of h' in
        rw (u, sym e) (x % y, div-Divides x y (λ q. ground arith))
    | inl s ↦ elim (Bool-cases (x == sign_bit && y == not64 0)) [
      | inl t ↦ absurd (let h' = rw (nz, s, t) at h in cc)
      | inr safe ↦
          let h' = rw (nz, s, safe) at h in
          let e : sdiv x y ≡ w.iv = ap payload_of h' in
          subst (λ v. Quotient (ty_is_signed t) x y v) e
            (rw s (sdiv-Quotient x y hx hy (λ q. ground arith) safe))
    ]
  ]
]

pub mod-Computes :
    (t : TypeId) (x y : ℕ) (w : ConstVal)
    → IsWord x
    → IsWord y
    → int_bin BinOp.mod_op t x y ≡ Folded.value w
    → Rest (ty_is_signed t) x y w.iv
unfolding int_bin
mod-Computes t x y w hx hy h = elim (Bool-cases (y == 0)) [
  | inl z ↦ absurd (let h' = rw z at h in cc)
  | inr nz ↦ elim (Bool-cases (ty_is_signed t)) [
    | inr u ↦
        let h' = rw (nz, u) at h in
        let e : x % y ≡ w.iv = ap payload_of h' in
        rw (u, sym e) (x / y, div-Divides x y (λ q. ground arith))
    | inl s ↦ elim (Bool-cases (x == sign_bit && y == not64 0)) [
      | inl t ↦ absurd (let h' = rw (nz, s, t) at h in cc)
      | inr safe ↦
          let h' = rw (nz, s, safe) at h in
          let e : smod x y ≡ w.iv = ap payload_of h' in
          subst (λ v. Rest (ty_is_signed t) x y v) e
            (rw s (smod-Rest x y hx hy (λ q. ground arith)))
    ]
  ]
]
