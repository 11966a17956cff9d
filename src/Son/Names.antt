-- ===== src/Son/Names.antt =====
-- jules/src/core/son/graph.cpp: the names of the operations, which dumps and diagnostics print.
use jules.Frontend.Diag.{Text, bytes}
use jules.Son.Node.{Op, BinOp, CmpOp, UnOp, CastOp}

unfoldable pub op_name : Op → Text
op_name Op.start = bytes "Start"
op_name Op.region = bytes "Region"
op_name Op.if_op = bytes "If"
op_name Op.if_true = bytes "IfTrue"
op_name Op.if_false = bytes "IfFalse"
op_name Op.jump = bytes "Jump"
op_name Op.return = bytes "Return"
op_name Op.stop = bytes "Stop"
op_name Op.const = bytes "Const"
op_name Op.param = bytes "Param"
op_name Op.phi = bytes "Phi"
op_name Op.bin = bytes "Bin"
op_name Op.cmp = bytes "Cmp"
op_name Op.un = bytes "Un"
op_name Op.cast = bytes "Cast"
op_name Op.select = bytes "Select"
op_name Op.load = bytes "Load"
op_name Op.store = bytes "Store"
op_name Op.alloc = bytes "Alloc"
op_name Op.call = bytes "Call"
op_name Op.dead = bytes "Dead"

unfoldable pub bin_name : BinOp → Text
bin_name BinOp.add = bytes "add"
bin_name BinOp.sub = bytes "sub"
bin_name BinOp.mul = bytes "mul"
bin_name BinOp.div = bytes "div"
bin_name BinOp.mod_op = bytes "mod"
bin_name BinOp.and = bytes "and"
bin_name BinOp.or = bytes "or"
bin_name BinOp.xor = bytes "xor"
bin_name BinOp.shl = bytes "shl"
bin_name BinOp.shr = bytes "shr"
bin_name BinOp.min = bytes "min"
bin_name BinOp.max = bytes "max"
bin_name BinOp.and_not = bytes "andnot"

unfoldable pub cmp_name : CmpOp → Text
cmp_name CmpOp.eq = bytes "eq"
cmp_name CmpOp.ne = bytes "ne"
cmp_name CmpOp.lt = bytes "lt"
cmp_name CmpOp.le = bytes "le"
cmp_name CmpOp.gt = bytes "gt"
cmp_name CmpOp.ge = bytes "ge"

unfoldable pub un_name : UnOp → Text
un_name UnOp.neg = bytes "neg"
un_name UnOp.not = bytes "not"
un_name UnOp.bnot = bytes "bnot"

unfoldable pub cast_name : CastOp → Text
cast_name CastOp.zext = bytes "zext"
cast_name CastOp.sext = bytes "sext"
cast_name CastOp.trunc = bytes "trunc"
cast_name CastOp.si_to_fp = bytes "sitofp"
cast_name CastOp.fp_to_si = bytes "fptosi"
cast_name CastOp.fp_ext = bytes "fpext"
cast_name CastOp.fp_trunc = bytes "fptrunc"
cast_name CastOp.ptr = bytes "ptrcast"
cast_name CastOp.broadcast = bytes "broadcast"
cast_name CastOp.extract = bytes "extract"
