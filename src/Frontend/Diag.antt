-- ===== src/Frontend/Diag.antt =====
-- jules/src/core/diagnostics/diag.h: the collector of errors and warnings. A text is the list of its
-- bytes.
use jules.Prelude.{ℕ, ◌+◌, ◌%◌, ◌^◌, ◌==◌, ltb, Bool, ◌&&◌, List, [], ◌∷◌, ◌++◌}
use Prim.Native.Char.{code}
use Prim.Native.String.{String}

abbrev pub Text : Type 0
Text = List ℕ

-- A literal's bytes.
abbrev pub bytes : String → Text
bytes String.[] = []
bytes (String.◌∷◌ c s) = code c ∷ bytes s

pub data Severity : Type 0 where
  info warning error : Severity

pub record SourcePos : Type 0 where
  pub line : ℕ
  pub col : ℕ

abbrev pub first_pos : SourcePos
first_pos = record { line = 1; col = 1 }

infix 50 ◌same_pos◌
unfoldable pub ◌same_pos◌ : SourcePos → SourcePos → Bool
p same_pos o = p.line == o.line && p.col == o.col

pub record Diagnostic : Type 0 where
  pub sev : Severity
  pub pos : SourcePos
  pub msg : Text

pub record Diagnostics : Type 0 where
  pub diags : List Diagnostic
  pub errors : ℕ
  pub warnings : ℕ

abbrev counted : Severity → Diagnostics → Diagnostics
counted Severity.error d = record d { errors = (d.errors + 1) % 2 ^ 32 }
counted Severity.warning d = record d { warnings = (d.warnings + 1) % 2 ^ 32 }
counted Severity.info d = d

abbrev pub report : Severity → SourcePos → Text → Diagnostics → Diagnostics
report s p m d =
    let c = counted s d in record c { diags = c.diags ++ record { sev = s; pos = p; msg = m } ∷ [] }

abbrev pub add_error : SourcePos → Text → Diagnostics → Diagnostics
add_error p m d = report Severity.error p m d

abbrev pub add_warning : SourcePos → Text → Diagnostics → Diagnostics
add_warning p m d = report Severity.warning p m d

abbrev pub add_info : SourcePos → Text → Diagnostics → Diagnostics
add_info p m d = report Severity.info p m d

abbrev pub clear : Diagnostics → Diagnostics
clear d = record { diags = []; errors = 0; warnings = 0 }

unfoldable pub has_errors : Diagnostics → Bool
has_errors d = ltb 0 d.errors
