-- ===== src/Son/Types.antt =====
-- jules/src/core/son/types.h: the fixed table of types and the predicates over type ids.
pub mod Laws
use jules.Prelude.{
  ℕ, ◌+◌, Bool, true, false, ◌&&◌, ◌||◌, List, [], ◌∷◌, ltb, ◌==◌, if◌then◌else◌, get_or,
}

pub data Ty : Type 0 where
  none void i1 i32 i64 u32 u64 f32 f64 ptr mem ctrl v2f64 v2i64 v4i32 v4f32 : Ty

-- The enumerator's number: `==` on an enum class compares these.
abbrev pub ty_code : Ty → ℕ
ty_code none = 0
ty_code void = 1
ty_code i1 = 2
ty_code i32 = 3
ty_code i64 = 4
ty_code u32 = 5
ty_code u64 = 6
ty_code f32 = 7
ty_code f64 = 8
ty_code ptr = 9
ty_code mem = 10
ty_code ctrl = 11
ty_code v2f64 = 12
ty_code v2i64 = 13
ty_code v4i32 = 14
ty_code v4f32 = 15

infix 50 ◌is◌
abbrev pub ◌is◌ : Ty → Ty → Bool
a is b = ty_code a == ty_code b

pub record TypeDesc : Type 0 where
  pub ty : Ty
  pub pointee : Ty

abbrev plain : Ty → TypeDesc
plain t = record { ty = t; pointee = none }

abbrev pointer_to : Ty → TypeDesc
pointer_to t = record { ty = ptr; pointee = t }

abbrev lanes_of : Ty → Ty → TypeDesc
lanes_of v t = record { ty = v; pointee = t }

-- A TypeId is an index of this table.
abbrev pub TypeId : Type 0
TypeId = ℕ

abbrev pub type_table : List TypeDesc
type_table =
    plain none
    ∷ plain void
    ∷ plain i1
    ∷ plain i32
    ∷ plain i64
    ∷ plain u32
    ∷ plain u64
    ∷ plain f32
    ∷ plain f64
    ∷ pointer_to i64
    ∷ pointer_to i32
    ∷ pointer_to u64
    ∷ pointer_to u32
    ∷ pointer_to f32
    ∷ pointer_to f64
    ∷ pointer_to i1
    ∷ plain mem
    ∷ plain ctrl
    ∷ lanes_of v2f64 f64
    ∷ lanes_of v2i64 i64
    ∷ lanes_of v4i32 i32
    ∷ lanes_of v4f32 f32
    ∷ []

abbrev pub type_count : ℕ
type_count = 22

abbrev pub ty_none : TypeId
ty_none = 0

abbrev pub ty_void : TypeId
ty_void = 1

abbrev pub ty_i1 : TypeId
ty_i1 = 2

abbrev pub ty_i32 : TypeId
ty_i32 = 3

abbrev pub ty_i64 : TypeId
ty_i64 = 4

abbrev pub ty_u32 : TypeId
ty_u32 = 5

abbrev pub ty_u64 : TypeId
ty_u64 = 6

abbrev pub ty_f32 : TypeId
ty_f32 = 7

abbrev pub ty_f64 : TypeId
ty_f64 = 8

abbrev pub ty_mem : TypeId
ty_mem = 16

abbrev pub ty_ctrl : TypeId
ty_ctrl = 17

abbrev pub ty_v2f64 : TypeId
ty_v2f64 = 18

abbrev pub ty_v2i64 : TypeId
ty_v2i64 = 19

abbrev pub ty_v4i32 : TypeId
ty_v4i32 = 20

abbrev pub ty_v4f32 : TypeId
ty_v4f32 = 21

unfoldable pub ty_ptr : TypeId → TypeId
ty_ptr pointee =
    if pointee == 4
    then 9
    else if pointee == 3
    then 10
    else if pointee == 6
    then 11
    else if pointee == 5
    then 12
    else if pointee == 7
    then 13
    else if pointee == 8
    then 14
    else if pointee == 2
    then 15
    else 0

unfoldable pub type_desc : TypeId → TypeDesc
type_desc t = if ltb t type_count then get_or type_table t (plain none) else plain none

unfoldable pub ty_is_vector : TypeId → Bool
unfolding type_desc
ty_is_vector t = let k = (type_desc t).ty in k is v2f64 || k is v2i64 || k is v4i32 || k is v4f32

unfoldable pub ty_lanes : TypeId → ℕ
unfolding type_desc ty_is_vector
ty_lanes t =
    if ty_is_vector t
    then (if (type_desc t).ty is v2f64 || (type_desc t).ty is v2i64 then 2 else 4)
    else 1

lane_id : Ty → TypeId
lane_id f64 = ty_f64
lane_id i64 = ty_i64
lane_id i32 = ty_i32
lane_id f32 = ty_f32
lane_id _ = ty_none

-- The scalar lane type of a vector; ty_none for any other type.
unfoldable pub ty_lane_type : TypeId → TypeId
unfolding type_desc ty_is_vector lane_id
ty_lane_type t = if ty_is_vector t then lane_id (type_desc t).pointee else ty_none

unfoldable pub ty_vector_of : TypeId → ℕ → TypeId
ty_vector_of scalar lanes =
    if lanes == 2
    then (if scalar == ty_f64 then ty_v2f64 else if scalar == ty_i64 then ty_v2i64 else ty_none)
    else if lanes == 4
    then (if scalar == ty_i32 then ty_v4i32 else if scalar == ty_f32 then ty_v4f32 else ty_none)
    else ty_none

unfoldable pub ty_is_int : TypeId → Bool
unfolding type_desc
ty_is_int t = let k = (type_desc t).ty in k is i32 || k is i64 || k is u32 || k is u64 || k is i1

unfoldable pub ty_is_signed : TypeId → Bool
unfolding type_desc
ty_is_signed t = let k = (type_desc t).ty in k is i32 || k is i64 || k is i1

unfoldable pub ty_is_float : TypeId → Bool
unfolding type_desc
ty_is_float t = let k = (type_desc t).ty in k is f32 || k is f64

unfoldable pub ty_is_ptr : TypeId → Bool
unfolding type_desc
ty_is_ptr t = (type_desc t).ty is ptr

unfoldable pub ty_in_xmm : TypeId → Bool
unfolding ty_is_float ty_is_vector
ty_in_xmm t = ty_is_float t || ty_is_vector t

unfoldable pub ty_is_scalar : TypeId → Bool
unfolding ty_is_int ty_is_float ty_is_ptr
ty_is_scalar t = ty_is_int t || ty_is_float t || ty_is_ptr t

bits_of : Ty → ℕ
bits_of i1 = 8
bits_of i32 = 32
bits_of u32 = 32
bits_of f32 = 32
bits_of v2f64 = 128
bits_of v2i64 = 128
bits_of v4i32 = 128
bits_of v4f32 = 128
bits_of _ = 64

unfoldable pub ty_bits : TypeId → ℕ
unfolding type_desc bits_of
ty_bits t = bits_of (type_desc t).ty

store_bytes_of : Ty → ℕ
store_bytes_of i1 = 1
store_bytes_of i32 = 4
store_bytes_of u32 = 4
store_bytes_of f32 = 4
store_bytes_of v2f64 = 16
store_bytes_of v2i64 = 16
store_bytes_of v4i32 = 16
store_bytes_of v4f32 = 16
store_bytes_of _ = 8

unfoldable pub ty_store_bytes : TypeId → ℕ
unfolding type_desc store_bytes_of
ty_store_bytes t = store_bytes_of (type_desc t).ty

unfoldable pub ty_is_bool : TypeId → Bool
unfolding type_desc
ty_is_bool t = (type_desc t).ty is i1

pointee_id : Ty → TypeId
pointee_id i64 = ty_i64
pointee_id i32 = ty_i32
pointee_id u64 = ty_u64
pointee_id u32 = ty_u32
pointee_id f32 = ty_f32
pointee_id f64 = ty_f64
pointee_id i1 = ty_i1
pointee_id _ = ty_none

-- The pointee of a pointer type; ty_none for any other type.
unfoldable pub ty_pointee : TypeId → TypeId
unfolding type_desc pointee_id
ty_pointee p = if (type_desc p).ty is ptr then pointee_id (type_desc p).pointee else ty_none
