-- ===== src/Son/Types/Laws.antt =====
-- Laws of the type table: pointer and vector types are taken apart into what they were built from.
use jules.Prelude.{
  ℕ, suc, zero, ◌*◌, ◌≡◌, ◌≢◌, inl, inr, refl, Bool, true, false, arith, ltb, ◌==◌, ◌&&◌, ◌||◌, not,
  Bool-cases, ltb→lt, eq_of_==, ◌≤◌, ℕ_discrete,
}
use jules.Son.Types.{
  TypeId, type_count, type_desc, ty_ptr, ty_pointee, ty_is_ptr, ty_is_vector, ty_lanes,
  ty_lane_type, ty_vector_of, ty_bits, ty_store_bytes, ty_is_scalar, ty_none,
}

-- A pointer type that `ty_ptr` makes, where it makes one, is a pointer to the type it was made
-- from.
pub ty_pointee-ty_ptr :
    (t : TypeId) → ty_ptr t ≢ ty_none → (ty_pointee (ty_ptr t) ≡ t) × (ty_is_ptr (ty_ptr t) ≡ true)
unfolding ty_pointee ty_ptr ty_is_ptr
ty_pointee-ty_ptr t h = ground arith

-- A test of every row of the table up to one.
row_test : (ℕ → Bool) → ℕ → Bool
row_test p zero = p zero
row_test p (suc n) = row_test p n && p (suc n)

row_test_covers : (p : ℕ → Bool) (n t : ℕ) → row_test p n ≡ true → t ≤ n → p t ≡ true
unfolding row_test
row_test_covers p zero zero passed le = passed
row_test_covers p zero (suc t) passed le = absurd (omega arith)
row_test_covers p (suc n) t passed le = elim (ℕ_discrete t (suc n)) [
  | yes e ↦ rw e (ground arith)
  | no ne ↦ row_test_covers p n t (ground arith) (omega arith)
]

type_desc-beyond : (t : TypeId) → ltb t type_count ≡ false → type_desc t ≡ type_desc 0
unfolding type_desc
type_desc-beyond t h = rw h

bytes_table : row_test (λ t. ty_bits t == 8 * ty_store_bytes t) 21 ≡ true
unfolding row_test ty_bits ty_store_bytes
bytes_table = refl

-- Whatever the id, the bits that a value takes are 8 times the bytes that a store of it writes.
pub bits-eq-store_bytes : (t : TypeId) → ty_bits t ≡ 8 * ty_store_bytes t
bits-eq-store_bytes t = elim (Bool-cases (ltb t type_count)) [
  | inl h ↦ eq_of_== _ _ (row_test_covers _ 21 t bytes_table (omega (arith, ltb→lt t type_count h)))
  | inr h ↦ unfold ty_bits ty_store_bytes in rw (type_desc-beyond t h) refl
]

vector_law : TypeId → Bool
vector_law t =
    not (ty_is_vector t)
    || (ty_vector_of (ty_lane_type t) (ty_lanes t) == t)
      && (ty_bits t == ty_lanes t * ty_bits (ty_lane_type t))
      && ty_is_scalar (ty_lane_type t)

vector_table : row_test vector_law 21 ≡ true
unfolding row_test vector_law ty_is_vector ty_vector_of ty_lane_type ty_lanes ty_bits ty_is_scalar
vector_table = refl

vector_law-holds : (t : TypeId) → vector_law t ≡ true
vector_law-holds t = elim (Bool-cases (ltb t type_count)) [
  | inl h ↦ row_test_covers vector_law 21 t vector_table (omega (arith, ltb→lt t type_count h))
  | inr h ↦ unfold vector_law ty_is_vector in rw (type_desc-beyond t h) refl
]

-- A vector type is the vector of its lanes: `ty_vector_of` gives it back from its lane type and its
-- number of lanes, its bits are those of its lanes together, and a lane is a scalar.
pub ty_vector_of-lanes :
    (t : TypeId)
    → ty_is_vector t ≡ true
    → (ty_vector_of (ty_lane_type t) (ty_lanes t) ≡ t)
      × (ty_bits t ≡ ty_lanes t * ty_bits (ty_lane_type t))
      × (ty_is_scalar (ty_lane_type t) ≡ true)
ty_vector_of-lanes t h =
    let law : vector_law t ≡ true = vector_law-holds t in unfold vector_law in ground (arith, law)
