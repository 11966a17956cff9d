-- ===== src/Frontend/Lexer.antt =====
-- jules/src/core/lexer/lexer.cpp: the lexer. `rest` is what `src_` holds from `i_` on.
pub mod Source
pub mod Laws
use jules.Prelude.{
  ℕ, zero, suc, ◌+◌, ◌-◌, ◌*◌, ◌%◌, ◌^◌, ◌<◌, ◌==◌, ltb, leb, Bool, true, false, not, ◌&&◌, ◌||◌,
  Option, none, some, List, [], ◌∷◌, ◌++◌, length, if◌then◌else◌,
}
use jules.Frontend.Diag.{SourcePos, first_pos, Text, bytes, Diagnostics, add_error}
use jules.Frontend.Token.{Tok, Token, keywords}

-- The part of the state that `advance` changes.
pub record Cursor : Type 0 where
  pub rest : Text
  pub pos : SourcePos

pub record Lexer : Type 0 where
  pub cur : Cursor
  pub tok_start : SourcePos
  pub out : List Token
  pub diag : Diagnostics

-- peek(0) and peek(1): 0 past the end.
abbrev pub peek : Text → ℕ
peek [] = 0
peek (c ∷ cs) = c

abbrev pub peek1 : Text → ℕ
peek1 [] = 0
peek1 (c ∷ cs) = peek cs

unfoldable pub next_pos : ℕ → SourcePos → SourcePos
next_pos c p =
    if c == b'\n'
    then record { line = (p.line + 1) % 2 ^ 32; col = 1 }
    else record p { col = (p.col + 1) % 2 ^ 32 }

-- advance(), where a character is left; every call of the code has tested that there is one.
abbrev step_over : Text → SourcePos → Cursor
step_over [] p = record { rest = []; pos = p }
step_over (c ∷ cs) p = record { rest = cs; pos = next_pos c p }

unfoldable pub advance : Cursor → Cursor
unfolding next_pos
advance k = step_over k.rest k.pos

unfoldable pub is_digit : ℕ → Bool
is_digit c = leb b'0' c && leb c b'9'

unfoldable pub is_ident_start : ℕ → Bool
is_ident_start c = (leb b'a' c && leb c b'z') || (leb b'A' c && leb c b'Z') || c == b'_'

unfoldable pub is_ident_char : ℕ → Bool
unfolding is_ident_start is_digit
is_ident_char c = is_ident_start c || is_digit c

unfoldable pub is_blank : ℕ → Bool
is_blank c = c == b' ' || c == b'\t' || c == b'\r' || c == b'\n'

-- `while (!at_end() && test(peek())) text.push_back(advance());`: the text, and the cursor behind it.
unfoldable pub eat : (ℕ → Bool) → Text → SourcePos → Text × Cursor
unfolding next_pos
eat test [] p = ([], record { rest = []; pos = p })
eat test (c ∷ cs) p = elim (test c) [
  | true ↦ let (text, k) = eat test cs (next_pos c p) in (c ∷ text, k)
  | false ↦ ([], record { rest = c ∷ cs; pos = p })
]

-- The loop inside a block comment: what is left of the depth, and the cursor.
unfoldable pub block_comment : ℕ → Text → SourcePos → ℕ × Cursor
unfolding next_pos
block_comment zero cs p = (0, record { rest = cs; pos = p })
block_comment (suc depth) [] p = (suc depth, record { rest = []; pos = p })
block_comment (suc depth) (c ∷ []) p = (suc depth, record { rest = []; pos = next_pos c p })
block_comment (suc depth) (c ∷ d ∷ cs) p = elim (c == b'/' && d == b'*') [
  | true ↦ block_comment (suc (suc depth)) cs (next_pos d (next_pos c p))
  | false ↦ elim (c == b'*' && d == b'/') [
    | true ↦ block_comment depth cs (next_pos d (next_pos c p))
    | false ↦ block_comment (suc depth) (d ∷ cs) (next_pos c p)
  ]
]

abbrev unterminated : ℕ → SourcePos → Diagnostics → Diagnostics
unterminated depth p d =
    if ltb 0 depth then add_error p (bytes "unterminated block comment") d else d

-- Each round of the loop that goes on has read a comment; `none` is a want of fuel.
unfoldable pub skip_ws_and_comments : ℕ → Cursor → Diagnostics → Option (Cursor × Diagnostics)
unfolding eat block_comment advance is_blank
skip_ws_and_comments zero k d = none
skip_ws_and_comments (suc fuel) k d =
    let c = (eat is_blank k.rest k.pos).1 in
    elim (peek c.rest == b'/' && peek1 c.rest == b'/') [
      | true ↦ skip_ws_and_comments fuel (eat (λ x. not (x == b'\n')) c.rest c.pos).1 d
      | false ↦ elim (peek c.rest == b'/' && peek1 c.rest == b'*') [
        | true ↦
            let opened = advance (advance c) in
            let (depth, k') = block_comment 1 opened.rest opened.pos in
            skip_ws_and_comments fuel k' (unterminated depth c.pos d)
        | false ↦ some (c, d)
      ]
    ]

-- emit(k, text) for a token without a number.
abbrev pub emit : Tok → Text → Lexer → Lexer × Bool
emit k text l = (
  record l {
    out =
        l.out
        ++ record {
          kind = k;
          pos = l.tok_start;
          text = text;
          int_value = 0;
          fp_value = 0;
          is_signed_overflow = false;
        }
          ∷ [];
  },
  true,
)

abbrev pub text_eq : Text → Text → Bool
text_eq [] [] = true
text_eq [] (b ∷ bs) = false
text_eq (a ∷ more) [] = false
text_eq (a ∷ more) (b ∷ bs) = a == b && text_eq more bs

-- The kind of a word: the first entry of the table that has it.
unfoldable pub word_kind : List (Text × Tok) → Text → Tok
word_kind [] text = Tok.ident
word_kind ((kw, k) ∷ table) text = if text_eq text kw then k else word_kind table text

unfoldable pub lex_ident : Lexer → Lexer × Bool
unfolding eat is_ident_char word_kind
lex_ident l =
    let (text, k) = eat is_ident_char l.cur.rest l.cur.pos in
    emit (word_kind keywords text) text (record l { cur = k })

-- std::strtoull of a text of decimal digits, which stops at the largest u64.
unfoldable pub strtoull : ℕ → Text → ℕ
strtoull acc [] = if ltb acc (2 ^ 64) then acc else 2 ^ 64 - 1
strtoull acc (c ∷ cs) = strtoull (acc * 10 + (c - b'0')) cs

-- `if (peek() == '.' && is_digit(peek(1)))`: more text, the cursor, and whether there is a fraction.
unfoldable pub fraction : Cursor → Text × Cursor × Bool
unfolding eat is_digit advance
fraction k =
    if peek k.rest == b'.' && is_digit (peek1 k.rest)
    then (let (text, k') = eat is_digit (advance k).rest (advance k).pos in (b'.' ∷ text, k', true))
    else ([], k, false)

-- `if (peek() == '+' || peek() == '-') exp.push_back(advance());`
abbrev exponent_sign : Cursor → Text × Cursor
exponent_sign k =
    if peek k.rest == b'+' || peek k.rest == b'-' then (peek k.rest ∷ [], advance k) else ([], k)

-- `if (peek() == 'e' || peek() == 'E')`: the same. Where no digit follows, `i_` goes back and `pos_`
-- does not.
unfoldable pub exponent : Cursor → Text × Cursor × Bool
unfolding eat is_digit advance
exponent k =
    if peek k.rest == b'e' || peek k.rest == b'E'
    then (let (sign, k') = exponent_sign (advance k) in
        if is_digit (peek k'.rest)
        then (let (text, k'') = eat is_digit k'.rest k'.pos in
            ((peek k.rest ∷ []) ++ sign ++ text, k'', true))
        else ([], record k' { rest = k.rest }, false))
    else ([], k, false)

-- std::strtod is a parameter: the bits of the double that a text stands for.
module _ (strtod : Text → ℕ) where
  abbrev number : Bool → Text → Lexer → Lexer
  number is_float text l =
      let v = strtoull 0 text in
      record l {
        out =
            l.out
            ++ record {
              kind = if is_float then Tok.float_lit else Tok.int_lit;
              pos = l.tok_start;
              text = text;
              int_value = if is_float then 0 else v;
              fp_value = if is_float then strtod text else 0;
              is_signed_overflow = not is_float && ltb (2 ^ 63 - 1) v;
            }
              ∷ [];
      }

  unfoldable pub lex_number : Lexer → Lexer × Bool
  unfolding eat is_digit fraction exponent is_ident_start strtoull
  lex_number l =
      let (whole, k1) = eat is_digit l.cur.rest l.cur.pos in
      let (frac, k2, has_frac) = fraction k1 in
      let (exp, k3, has_exp) = exponent k2 in
      let l' = record l { cur = k3 } in
      if is_ident_start (peek k3.rest)
      then (
        record l' {
          diag =
              add_error k3.pos
                (bytes "invalid numeric suffix (type is chosen by literal range, e.g. `123 as u8`)")
                l.diag;
        },
        false,
      )
      else (number (has_frac || has_exp) (whole ++ frac ++ exp) l', true)
