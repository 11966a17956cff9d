-- ===== src/Codegen.antt =====
-- jules/src/core/codegen: the parts of code generation that know no machine.
pub mod Ralloc
