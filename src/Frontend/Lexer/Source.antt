-- ===== src/Frontend/Lexer/Source.antt =====
-- jules/src/core/lexer/lexer.cpp: punctuation, the choice of a token's lexer, and the whole source.
use jules.Prelude.{
  ℕ, zero, suc, ◌==◌, ltb, Bool, true, false, ◌&&◌, Option, none, some, List, [], ◌∷◌, ◌++◌, length,
  if◌then◌else◌,
}
use jules.Frontend.Diag.{first_pos, Text, bytes, Diagnostics, add_error}
use jules.Frontend.Token.{Tok, Token}
use jules.Frontend.Lexer.{
  Lexer, peek, advance, is_digit, is_ident_start, skip_ws_and_comments, emit, lex_ident, lex_number,
}

-- What a character of punctuation is: one token, or two that the next character tells apart.
pub data Punct : Type 0 where
  one : Tok → Punct
  two : ℕ → Tok → Tok → Punct
  three : ℕ → Tok → ℕ → Tok → Tok → Punct
  other : Punct

abbrev pub punct_table : List (ℕ × Punct)
punct_table =
    (b'(', one Tok.l_paren)
    ∷ (b')', one Tok.r_paren)
    ∷ (b'{', one Tok.l_brace)
    ∷ (b'}', one Tok.r_brace)
    ∷ (b'[', one Tok.l_bracket)
    ∷ (b']', one Tok.r_bracket)
    ∷ (b',', one Tok.comma)
    ∷ (b';', one Tok.semi)
    ∷ (b':', one Tok.colon)
    ∷ (b'+', one Tok.plus)
    ∷ (b'-', two b'>' Tok.arrow Tok.minus)
    ∷ (b'*', one Tok.star)
    ∷ (b'/', one Tok.slash)
    ∷ (b'%', one Tok.percent)
    ∷ (b'=', two b'=' Tok.eq Tok.assign)
    ∷ (b'!', two b'=' Tok.ne Tok.not)
    ∷ (b'<', three b'=' Tok.le b'<' Tok.shl Tok.lt)
    ∷ (b'>', three b'=' Tok.ge b'>' Tok.shr Tok.gt)
    ∷ (b'&', two b'&' Tok.and_and Tok.amp)
    ∷ (b'|', two b'|' Tok.or_or Tok.pipe)
    ∷ (b'^', one Tok.caret)
    ∷ (b'~', one Tok.tilde)
    ∷ (b'.', two b'.' Tok.dot_dot Tok.dot)
    ∷ (b'#', two b'[' Tok.attr Tok.pound)
    ∷ []

abbrev pub punct_of : List (ℕ × Punct) → ℕ → Punct
punct_of [] c = other
punct_of ((d, p) ∷ table) c = if c == d then p else punct_of table c

-- The switch on the character `c`, which has been read.
unfoldable pub punct_tok : Punct → ℕ → Lexer → Lexer × Bool
unfolding advance
punct_tok (one k) c l = emit k [] l
punct_tok (two c2 k2 k1) c l =
    if peek l.cur.rest == c2 then emit k2 [] (record l { cur = advance l.cur }) else emit k1 [] l
punct_tok (three c2 k2 c3 k3 k1) c l =
    if peek l.cur.rest == c2
    then emit k2 [] (record l { cur = advance l.cur })
    else if peek l.cur.rest == c3
    then emit k3 [] (record l { cur = advance l.cur })
    else emit k1 [] l
punct_tok other c l = (
  record l {
    diag =
        add_error l.cur.pos (bytes "unexpected character '" ++ (c ∷ []) ++ bytes "' in source")
          l.diag;
  },
  false,
)

unfoldable pub lex_punct : Lexer → Lexer × Bool
unfolding punct_tok advance
lex_punct l =
    let c = peek l.cur.rest in
    punct_tok (punct_of punct_table c) c (record l { cur = advance l.cur })

abbrev pub eof_token : Lexer → Token
eof_token l = record {
  kind = Tok.eof;
  pos = l.cur.pos;
  text = bytes "<eof>";
  int_value = 0;
  fp_value = 0;
  is_signed_overflow = false;
}

abbrev finish : Lexer → Bool → Lexer × Bool
finish l ok = (record l { out = l.out ++ eof_token l ∷ [] }, ok)

module _ (strtod : Text → ℕ) where
  unfoldable pub lex_one : Lexer → Lexer × Bool
  unfolding is_ident_start is_digit lex_ident lex_number lex_punct
  lex_one l0 =
      let l = record l0 { tok_start = l0.cur.pos } in
      let c = peek l.cur.rest in
      if is_ident_start c
      then lex_ident l
      else if is_digit c
      then lex_number strtod l
      else lex_punct l

  -- The rounds of `run`, each after its spaces and comments; `none` is a want of fuel.
  unfoldable pub run : ℕ → Lexer → Bool → Option (Lexer × Bool)
  unfolding skip_ws_and_comments lex_one
  run zero l ok = none
  run (suc fuel) l ok = elim (skip_ws_and_comments (suc (length l.cur.rest)) l.cur l.diag) [
    | none ↦ none
    | some (k, d) ↦
        let l1 = record l { cur = k; diag = d } in
        elim k.rest [
          | [] ↦ some (finish l1 ok)
          | c ∷ cs ↦
              let (l2, one_ok) = lex_one l1 in
              elim (ltb 200 l2.diag.errors) [
                | true ↦ some (finish l2 (ok && one_ok))
                | false ↦ run fuel l2 (ok && one_ok)
              ]
        ]
  ]

  unfoldable pub lex_source : Text → Diagnostics → Option (Lexer × Bool)
  unfolding run
  lex_source source d =
      run (suc (length source))
        (record {
          cur = record { rest = source; pos = first_pos };
          tok_start = first_pos;
          out = [];
          diag = d;
        })
        true
