-- ===== src/Frontend/Lexer/Laws.antt =====
-- The lexer ends: each of its loops reads on, within its fuel.
use jules.Prelude.{
  ℕ, zero, suc, ◌≤◌, ◌<◌, ◌≡◌, refl, sym, arith, ◌==◌, ltb, Bool, true, ◌&&◌, not, Option, some,
  List, [], ◌∷◌, ◌++◌, length, Bool-cases, inl, inr, ◌⊎◌, subst,
}
use jules.Frontend.Diag.{SourcePos, first_pos, Text, Diagnostics}
use jules.Frontend.Token.{Token}
use jules.Frontend.Lexer.{
  Cursor, Lexer, peek, peek1, advance, next_pos, is_digit, is_ident_start, is_ident_char, is_blank,
  eat, block_comment, skip_ws_and_comments, lex_ident, fraction, exponent, lex_number,
}
use jules.Frontend.Lexer.Source.{
  Punct, one, two, three, other, punct_of, punct_table, punct_tok, lex_punct, lex_one, eof_token,
  run, lex_source,
}

abbrev left : Cursor → ℕ
left k = length k.rest

left-eat : (test : ℕ → Bool) (cs : Text) (p : SourcePos) → left (eat test cs p).1 ≤ length cs
unfolding eat
left-eat test [] p = omega arith
left-eat test (c ∷ cs) p = ground (arith, left-eat test cs (next_pos c p))

left-eat_first :
    (test : ℕ → Bool) (c : ℕ) (cs : Text) (p : SourcePos)
    → test c ≡ true
    → left (eat test (c ∷ cs) p).1 ≤ length cs
unfolding eat
left-eat_first test c cs p e = ground (arith, left-eat test cs (next_pos c p))

left-block_comment :
    (depth : ℕ) (cs : Text) (p : SourcePos) → left (block_comment depth cs p).1 ≤ length cs
unfolding block_comment
left-block_comment zero cs p = omega arith
left-block_comment (suc depth) [] p = omega arith
left-block_comment (suc depth) (c ∷ []) p = omega arith
left-block_comment (suc depth) (c ∷ d ∷ cs) p = ground (
  arith,
  left-block_comment (suc (suc depth)) cs (next_pos d (next_pos c p)),
  left-block_comment depth cs (next_pos d (next_pos c p)),
  left-block_comment (suc depth) (d ∷ cs) (next_pos c p),
)

left-advance :
    (cs : Text) (p : SourcePos) → left (advance (record { rest = cs; pos = p })) ≤ length cs
unfolding advance
left-advance [] p = omega arith
left-advance (c ∷ cs) p = omega arith

left-advance_first :
    (c : ℕ) (cs : Text) (p : SourcePos)
    → left (advance (record { rest = c ∷ cs; pos = p })) ≤ length cs
unfolding advance
left-advance_first c cs p = omega arith

List-cases : (cs : Text) → (cs ≡ []) ⊎ ((c : ℕ) × (rest : Text) × (cs ≡ c ∷ rest))
List-cases [] = inl refl
List-cases (c ∷ cs) = inr (c, cs, refl)

-- Behind `/*`.
left-advance_two :
    (cs : Text) (p : SourcePos)
    → (peek1 cs == b'*') ≡ true
    → left (advance (advance (record { rest = cs; pos = p }))) < length cs
unfolding advance
left-advance_two [] p e = absurd (ground arith)
left-advance_two (c ∷ []) p e = absurd (ground arith)
left-advance_two (c ∷ d ∷ cs) p e = omega arith

-- A line comment is read on.
left-line_comment :
    (cs : Text) (p : SourcePos)
    → (peek cs == b'/') ≡ true
    → left (eat (λ x. not (x == b'\n')) cs p).1 < length cs
left-line_comment [] p e = absurd (ground arith)
left-line_comment (c ∷ cs) p e =
    omega (arith, left-eat_first (λ x. not (x == b'\n')) c cs p (ground arith))

abbrev Skips : ℕ → Option (Cursor × Diagnostics) → Type 0
Skips n o = (k : Cursor) × (d : Diagnostics) × (o ≡ some (k, d)) × (left k ≤ n)

Skips-le : (m n : ℕ) (o : Option (Cursor × Diagnostics)) → m ≤ n → Skips m o → Skips n o
Skips-le m n o h (k, d, e, le) = (k, d, e, omega arith)

skip-Skips :
    (fuel : ℕ) (k : Cursor) (d : Diagnostics)
    → left k < fuel
    → Skips (left k) (skip_ws_and_comments fuel k d)
unfolding skip_ws_and_comments
skip-Skips zero k d h = absurd (omega arith)
skip-Skips (suc fuel) k d h =
    let c = (eat is_blank k.rest k.pos).1 in
    let le = left-eat is_blank k.rest k.pos in
    elim (Bool-cases (peek c.rest == b'/' && peek1 c.rest == b'/')) [
      | inl e ↦
          let lt = left-line_comment c.rest c.pos (ground arith) in
          rw (e, skip_ws_and_comments)
            (Skips-le _ (left k) _ (omega arith)
              (skip-Skips fuel (eat (λ x. not (x == b'\n')) c.rest c.pos).1 d (omega arith)))
      | inr e ↦ elim (Bool-cases (peek c.rest == b'/' && peek1 c.rest == b'*')) [
        | inl q ↦
            let opened = advance (advance c) in
            let lt = left-advance_two c.rest c.pos (ground arith) in
            let body = left-block_comment 1 opened.rest opened.pos in
            rw (e, q, skip_ws_and_comments)
              (Skips-le _ (left k) _ (omega arith)
                (skip-Skips fuel (block_comment 1 opened.rest opened.pos).1 _ (omega arith)))
        | inr q ↦ rw (e, q, skip_ws_and_comments) (c, d, refl, le)
      ]
    ]

left-lex_ident :
    (l : Lexer) (c : ℕ) (cs : Text)
    → l.cur.rest ≡ c ∷ cs
    → is_ident_start c ≡ true
    → left (lex_ident l).0.cur ≤ length cs
unfolding lex_ident is_ident_char
left-lex_ident l c cs e h = rw e (left-eat_first is_ident_char c cs l.cur.pos (ground arith))

left-fraction : (k : Cursor) → left (fraction k).1 ≤ left k
unfolding fraction
left-fraction k =
    ground (arith, left-advance k.rest k.pos, left-eat is_digit (advance k).rest (advance k).pos)

left-exponent : (k : Cursor) → left (exponent k).1 ≤ left k
unfolding exponent
left-exponent k =
    let k1 = advance k in
    let k2 = advance k1 in
    ground (
      arith,
      left-advance k.rest k.pos,
      left-advance k1.rest k1.pos,
      left-eat is_digit k1.rest k1.pos,
      left-eat is_digit k2.rest k2.pos,
    )

left-lex_number :
    (strtod : Text → ℕ) (l : Lexer) (c : ℕ) (cs : Text)
    → l.cur.rest ≡ c ∷ cs
    → is_digit c ≡ true
    → left (lex_number strtod l).0.cur ≤ length cs
unfolding lex_number
left-lex_number strtod l c cs e h =
    let k1 = (eat is_digit l.cur.rest l.cur.pos).1 in
    let k2 = (fraction k1).1 in
    let a : left k1 ≤ length cs = rw e (left-eat_first is_digit c cs l.cur.pos h) in
    ground (arith, a, left-fraction k1, left-exponent k2)

left-punct_tok : (p : Punct) (c : ℕ) (l : Lexer) → left (punct_tok p c l).0.cur ≤ left l.cur
unfolding punct_tok
left-punct_tok (one k) c l = omega arith
left-punct_tok (two c2 k2 k1) c l = ground (arith, left-advance l.cur.rest l.cur.pos)
left-punct_tok (three c2 k2 c3 k3 k1) c l = ground (arith, left-advance l.cur.rest l.cur.pos)
left-punct_tok other c l = omega arith

left-lex_punct :
    (l : Lexer) (c : ℕ) (cs : Text) → l.cur.rest ≡ c ∷ cs → left (lex_punct l).0.cur ≤ length cs
unfolding lex_punct
left-lex_punct l c cs e =
    let c0 = peek l.cur.rest in
    let l' = record l { cur = advance l.cur } in
    omega (
      arith,
      left-punct_tok (punct_of punct_table c0) c0 l',
      subst (λ r. left (advance (record { rest = r; pos = l.cur.pos })) ≤ length cs) (sym e)
          (left-advance_first c cs l.cur.pos),
    )

-- Every token takes at least a character.
left-lex_one :
    (strtod : Text → ℕ) (l : Lexer) (c : ℕ) (cs : Text)
    → l.cur.rest ≡ c ∷ cs
    → left (lex_one strtod l).0.cur ≤ length cs
unfolding lex_one
left-lex_one strtod l0 c cs e =
    let l = record l0 { tok_start = l0.cur.pos } in
    let is_first : peek l0.cur.rest ≡ c = rw e refl in
    elim (Bool-cases (is_ident_start (peek l0.cur.rest))) [
      | inl h ↦ rw h (left-lex_ident l c cs e (rw is_first at h))
      | inr h ↦ elim (Bool-cases (is_digit (peek l0.cur.rest))) [
        | inl q ↦ rw (h, q) (left-lex_number strtod l c cs e (rw is_first at q))
        | inr q ↦ rw (h, q) (left-lex_punct l c cs e)
      ]
    ]

-- The tokens end with the end-of-file token, and only a want of fuel gives none.
abbrev pub Finishes : Option (Lexer × Bool) → Type 0
Finishes o =
    (l : Lexer) × (ok : Bool) × (before : List Token) × (o ≡ some (l, ok))
    × (l.out ≡ before ++ eof_token l ∷ [])
    × ((l.cur.rest ≡ []) ⊎ (200 < l.diag.errors))

run-Finishes :
    (strtod : Text → ℕ) (fuel : ℕ) (l : Lexer) (ok : Bool)
    → left l.cur < fuel
    → Finishes (run strtod fuel l ok)
unfolding run
run-Finishes strtod zero l ok h = absurd (omega arith)
run-Finishes strtod (suc fuel) l ok h =
    let (k, d, e, le) = skip-Skips (suc (left l.cur)) l.cur l.diag (omega arith) in
    let l1 = record l { cur = k; diag = d } in
    elim (List-cases k.rest) [
      | inl q ↦
          rw (e, q, run)
            (record l1 { out = l1.out ++ eof_token l1 ∷ [] }, ok, l1.out, refl, refl, inl q)
      | inr (c, cs, q) ↦
          let l2 = (lex_one strtod l1).0 in
          let ok2 = ok && (lex_one strtod l1).1 in
          let shorter = left-lex_one strtod l1 c cs q in
          let fits : suc (length cs) ≤ left l.cur = rw q at le in
          elim (Bool-cases (ltb 200 l2.diag.errors)) [
            | inl many ↦
                rw (e, q, many, run)
                  (
                    record l2 { out = l2.out ++ eof_token l2 ∷ [] },
                    ok2,
                    l2.out,
                    refl,
                    refl,
                    inr (ground arith),
                  )
            | inr few ↦ rw (e, q, few, run) (run-Finishes strtod fuel l2 ok2 (omega arith))
          ]
    ]

-- For every source text and whatever std::strtod gives, the loops of the lexer end within their
-- fuel; the tokens end with the end-of-file token, and the text is then read to its end unless
-- more than 200 errors were reported.
pub lex_source-Finishes :
    (strtod : Text → ℕ) (source : Text) (d : Diagnostics) → Finishes (lex_source strtod source d)
unfolding lex_source
lex_source-Finishes strtod source d =
    run-Finishes strtod (suc (length source))
      (record {
        cur = record { rest = source; pos = first_pos };
        tok_start = first_pos;
        out = [];
        diag = d;
      })
      true (omega arith)
