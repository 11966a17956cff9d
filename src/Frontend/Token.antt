-- ===== src/Frontend/Token.antt =====
-- jules/src/core/lexer/token.h and the tables of lexer.cpp: the kinds of token, and their names.
use jules.Prelude.{ℕ, Bool, List, [], ◌∷◌}
use jules.Frontend.Diag.{SourcePos, Text, bytes}

pub data Tok : Type 0 where
  eof ident int_lit float_lit kw_fn kw_comptime kw_let kw_var kw_const : Tok
  kw_return kw_if kw_else kw_while kw_for kw_in kw_break kw_continue kw_true : Tok
  kw_false kw_as kw_module kw_use kw_import kw_struct kw_class kw_enum kw_bitfield : Tok
  kw_bitmask kw_alias kw_trait kw_impl kw_dyn kw_defer kw_extern l_paren r_paren : Tok
  l_brace r_brace l_bracket r_bracket comma semi colon arrow dot_dot : Tok
  attr pound dot plus minus star slash percent assign : Tok
  eq ne lt le gt ge not and_and or_or : Tok
  amp pipe caret tilde shl shr : Tok

-- `fp_value` is the bit pattern of an f64.
pub record Token : Type 0 where
  pub kind : Tok
  pub pos : SourcePos
  pub text : Text
  pub int_value : ℕ
  pub fp_value : ℕ
  pub is_signed_overflow : Bool

-- kKeywords
abbrev pub keywords : List (Text × Tok)
keywords =
    (bytes "fn", kw_fn)
    ∷ (bytes "comptime", kw_comptime)
    ∷ (bytes "let", kw_let)
    ∷ (bytes "var", kw_var)
    ∷ (bytes "const", kw_const)
    ∷ (bytes "return", kw_return)
    ∷ (bytes "if", kw_if)
    ∷ (bytes "else", kw_else)
    ∷ (bytes "while", kw_while)
    ∷ (bytes "for", kw_for)
    ∷ (bytes "in", kw_in)
    ∷ (bytes "break", kw_break)
    ∷ (bytes "continue", kw_continue)
    ∷ (bytes "true", kw_true)
    ∷ (bytes "false", kw_false)
    ∷ (bytes "as", kw_as)
    ∷ (bytes "module", kw_module)
    ∷ (bytes "use", kw_use)
    ∷ (bytes "import", kw_import)
    ∷ (bytes "struct", kw_struct)
    ∷ (bytes "class", kw_class)
    ∷ (bytes "enum", kw_enum)
    ∷ (bytes "bitfield", kw_bitfield)
    ∷ (bytes "bitmask", kw_bitmask)
    ∷ (bytes "alias", kw_alias)
    ∷ (bytes "trait", kw_trait)
    ∷ (bytes "impl", kw_impl)
    ∷ (bytes "dyn", kw_dyn)
    ∷ (bytes "defer", kw_defer)
    ∷ (bytes "extern", kw_extern)
    ∷ []

unfoldable pub tok_name : Tok → Text
tok_name eof = bytes "<eof>"
tok_name ident = bytes "identifier"
tok_name int_lit = bytes "integer literal"
tok_name float_lit = bytes "float literal"
tok_name kw_fn = bytes "'fn'"
tok_name kw_comptime = bytes "'comptime'"
tok_name kw_let = bytes "'let'"
tok_name kw_var = bytes "'var'"
tok_name kw_const = bytes "'const'"
tok_name kw_return = bytes "'return'"
tok_name kw_if = bytes "'if'"
tok_name kw_else = bytes "'else'"
tok_name kw_while = bytes "'while'"
tok_name kw_for = bytes "'for'"
tok_name kw_in = bytes "'in'"
tok_name kw_break = bytes "'break'"
tok_name kw_continue = bytes "'continue'"
tok_name kw_true = bytes "'true'"
tok_name kw_false = bytes "'false'"
tok_name kw_as = bytes "'as'"
tok_name kw_module = bytes "'module'"
tok_name kw_use = bytes "'use'"
tok_name kw_import = bytes "'import'"
tok_name kw_struct = bytes "'struct'"
tok_name kw_class = bytes "'class'"
tok_name kw_enum = bytes "'enum'"
tok_name kw_bitfield = bytes "'bitfield'"
tok_name kw_bitmask = bytes "'bitmask'"
tok_name kw_alias = bytes "'alias'"
tok_name kw_trait = bytes "'trait'"
tok_name kw_impl = bytes "'impl'"
tok_name kw_dyn = bytes "'dyn'"
tok_name kw_defer = bytes "'defer'"
tok_name kw_extern = bytes "'extern'"
tok_name l_paren = bytes "'('"
tok_name r_paren = bytes "')'"
tok_name l_brace = bytes "'{'"
tok_name r_brace = bytes "'}'"
tok_name l_bracket = bytes "'['"
tok_name r_bracket = bytes "']'"
tok_name comma = bytes "','"
tok_name semi = bytes "';'"
tok_name colon = bytes "':'"
tok_name arrow = bytes "'->'"
tok_name dot_dot = bytes "'..'"
tok_name attr = bytes "'#['"
tok_name pound = bytes "'#'"
tok_name dot = bytes "'.'"
tok_name plus = bytes "'+'"
tok_name minus = bytes "'-'"
tok_name star = bytes "'*'"
tok_name slash = bytes "'/'"
tok_name percent = bytes "'%'"
tok_name assign = bytes "'='"
tok_name eq = bytes "'=='"
tok_name ne = bytes "'!='"
tok_name lt = bytes "'<'"
tok_name le = bytes "'<='"
tok_name gt = bytes "'>'"
tok_name ge = bytes "'>='"
tok_name not = bytes "'!'"
tok_name and_and = bytes "'&&'"
tok_name or_or = bytes "'||'"
tok_name amp = bytes "'&'"
tok_name pipe = bytes "'|'"
tok_name caret = bytes "'^'"
tok_name tilde = bytes "'~'"
tok_name shl = bytes "'<<'"
tok_name shr = bytes "'>>'"
