-- ===== src/Son/Node.antt =====
-- jules/src/core/son/node.h: the nodes of the graph and the predicates over their operations.
use jules.Prelude.{
  ℕ, ◌==◌, Bool, true, false, ◌||◌, Option, some, List, [], ◌∷◌, get_or, take, ◌≡◌, refl, sym, ap,
  ◌∙◌, eq_of_==,
}
use jules.Son.Types.{TypeId, ty_none, ty_mem}

abbrev pub NodeId : Type 0
NodeId = ℕ

-- kNoNode
abbrev pub no_node : NodeId
no_node = 0xFFFFFFFF

pub data Op : Type 0 where
  start region if_op if_true if_false jump return stop : Op
  const param phi bin cmp un cast select : Op
  load store alloc call : Op
  dead : Op

-- The enumerators' numbers: `==` on an enum class compares these.
abbrev pub op_code : Op → ℕ
op_code start = 0
op_code region = 1
op_code if_op = 2
op_code if_true = 3
op_code if_false = 4
op_code jump = 5
op_code return = 6
op_code stop = 7
op_code const = 8
op_code param = 9
op_code phi = 10
op_code bin = 11
op_code cmp = 12
op_code un = 13
op_code cast = 14
op_code select = 15
op_code load = 16
op_code store = 17
op_code alloc = 18
op_code call = 19
op_code dead = 20

infix 50 ◌is◌
abbrev pub ◌is◌ : Op → Op → Bool
a is b = op_code a == op_code b

pub data BinOp : Type 0 where
  add sub mul div mod_op and or xor shl shr min max and_not : BinOp

pub data CmpOp : Type 0 where
  eq ne lt le gt ge : CmpOp

pub data UnOp : Type 0 where
  neg not bnot : UnOp

pub data CastOp : Type 0 where
  zext sext trunc si_to_fp fp_to_si fp_ext fp_trunc ptr broadcast extract : CastOp

-- static_cast<u8>(op)
abbrev pub bin_code : BinOp → ℕ
bin_code add = 0
bin_code sub = 1
bin_code mul = 2
bin_code div = 3
bin_code mod_op = 4
bin_code and = 5
bin_code or = 6
bin_code xor = 7
bin_code shl = 8
bin_code shr = 9
bin_code min = 10
bin_code max = 11
bin_code and_not = 12

abbrev pub cmp_code : CmpOp → ℕ
cmp_code eq = 0
cmp_code ne = 1
cmp_code lt = 2
cmp_code le = 3
cmp_code gt = 4
cmp_code ge = 5

abbrev pub un_code : UnOp → ℕ
un_code neg = 0
un_code not = 1
un_code bnot = 2

-- static_cast<BinOp>(sub); `none` is a number with no enumerator, which no case of a switch takes.
abbrev pub to_bin : ℕ → Option BinOp
to_bin c =
    get_or
      (some add
        ∷ some sub
        ∷ some mul
        ∷ some div
        ∷ some mod_op
        ∷ some and
        ∷ some or
        ∷ some xor
        ∷ some shl
        ∷ some shr
        ∷ some min
        ∷ some max
        ∷ some and_not
        ∷ [])
      c Option.none

abbrev pub to_cmp : ℕ → Option CmpOp
to_cmp c = get_or (some eq ∷ some ne ∷ some lt ∷ some le ∷ some gt ∷ some ge ∷ []) c Option.none

abbrev pub to_un : ℕ → Option UnOp
to_un c = get_or (some neg ∷ some not ∷ some bnot ∷ []) c Option.none

abbrev pub to_cast : ℕ → Option CastOp
to_cast c =
    get_or
      (some zext
        ∷ some sext
        ∷ some trunc
        ∷ some si_to_fp
        ∷ some fp_to_si
        ∷ some fp_ext
        ∷ some fp_trunc
        ∷ some ptr
        ∷ some broadcast
        ∷ some extract
        ∷ [])
      c Option.none

-- kMaxInputs
abbrev pub max_inputs : ℕ
max_inputs = 16

-- The initial slots: the initialiser names twelve, and C++ sets the other four to 0.
abbrev pub initial_slots : List NodeId
initial_slots =
    no_node ∷ no_node ∷ no_node ∷ no_node ∷ no_node ∷ no_node ∷ no_node ∷ no_node ∷ no_node
    ∷ no_node ∷ no_node ∷ no_node ∷ 0 ∷ 0 ∷ 0 ∷ 0 ∷ []

-- `ival` is the bit pattern of an i64, `fval` of an f64; `slots` is the array `in`.
pub record Node : Type 0 where
  pub op : Op
  pub n_in : ℕ
  pub sub : ℕ
  pub flags : ℕ
  pub ty : TypeId
  pub aux : ℕ
  pub ival : ℕ
  pub fval : ℕ
  pub slots : List NodeId

abbrev pub default_node : Node
default_node = record {
  op = dead;
  n_in = 0;
  sub = 0;
  flags = 0;
  ty = ty_none;
  aux = 0;
  ival = 0;
  fval = 0;
  slots = initial_slots;
}

-- n.in[i]
abbrev pub input : Node → ℕ → NodeId
input n i = get_or n.slots i no_node

-- in[0], …, in[n_in - 1]
abbrev pub inputs : Node → List NodeId
inputs n = take n.n_in n.slots

unfoldable pub is_block_head : Op → Bool
is_block_head o = o is start || o is region || o is if_true || o is if_false || o is jump

unfoldable pub is_control_op : Op → Bool
unfolding is_block_head
is_control_op o = is_block_head o || o is if_op || o is return || o is stop

unfoldable pub is_effect_op : Op → Bool
is_effect_op o = o is store || o is call || o is alloc

unfoldable pub is_mem_version : Op → TypeId → Bool
is_mem_version start t = true
is_mem_version store t = true
is_mem_version call t = true
is_mem_version alloc t = true
is_mem_version phi t = t == ty_mem
is_mem_version _ t = false

unfoldable pub is_pure_op : Op → Bool
is_pure_op const = true
is_pure_op param = true
is_pure_op bin = true
is_pure_op cmp = true
is_pure_op un = true
is_pure_op cast = true
is_pure_op select = true
is_pure_op _ = false

unfoldable pub is_value_op : Op → Bool
unfolding is_pure_op
is_value_op o = is_pure_op o || o is phi || o is load || o is call || o is alloc

op_of_code : ℕ → Op
op_of_code c =
    get_or
      (start ∷ region ∷ if_op ∷ if_true ∷ if_false ∷ jump ∷ return ∷ stop ∷ const ∷ param ∷ phi
        ∷ bin ∷ cmp ∷ un ∷ cast ∷ select ∷ load ∷ store ∷ alloc ∷ call ∷ [])
      c dead

op_of_code-op_code : (o : Op) → op_of_code (op_code o) ≡ o
unfolding op_of_code
op_of_code-op_code start = refl
op_of_code-op_code _ = refl

-- The test decides equality.
pub eq_of_is : (a b : Op) → (a is b) ≡ true → a ≡ b
eq_of_is a b h =
    sym (op_of_code-op_code a)
    ∙ ap op_of_code (eq_of_== (op_code a) (op_code b) h)
    ∙ op_of_code-op_code b
