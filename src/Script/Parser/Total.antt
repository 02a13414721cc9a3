-- ===== src/Script/Parser/Total.antt =====
-- `parse` of kernel/src/script/parser.rs ends on every list of tokens, with a program or an error.
use vibra.Common.{
  ℕ, zero, suc, ◌≤◌, ◌<◌, List, [], ◌∷◌, Bool, true, false, Bool-cases, inl, inr, arith, length,
}
use vibra.Script.{
  Token, ident, assign_mark, lbrace, semicolon, comma, newline, kw_var, kw_if, kw_else, kw_while,
  kw_print, kw_beep, kw_sleep, kw_exit,
}
use vibra.Script.{Text, Expr, Stmt, then_stmt, no_more, expr_stmt}
use vibra.Script.Parser.{Parsed, parsed, peek, and_then, is_lbrace, is_assign, expect, expr_of}
use vibra.Script.Parser.Statements.{
  skip_separators, ends_print, skip_comma, print_args, Place, block_end, separator, statement,
  block_place, top_place, block, body_of, braced, else_part, parse_if, parse_while, declaration,
  assignment, stmt_at, stmt, parse_loop, parse,
}
use vibra.Script.Parser.Ends.{Ends, EndsBelow, and_then-Ends, more-Ends, expect-Ends, expr_of-Ends}

length-skip_separators : (ts : List Token) → length (skip_separators ts) ≤ length ts
length-skip_separators [] = omega arith
length-skip_separators (semicolon ∷ ts) = let h = length-skip_separators ts in omega arith
length-skip_separators (newline ∷ ts) = let h = length-skip_separators ts in omega arith
length-skip_separators (t ∷ ts) = omega arith

length-skip_comma : (ts : List Token) → length (skip_comma ts) ≤ length ts
length-skip_comma [] = omega arith
length-skip_comma (comma ∷ ts) = omega arith
length-skip_comma (t ∷ ts) = omega arith

print_args-Ends :
    (n : ℕ) (ts : List Token) → length ts < n → Ends (suc (length ts)) (print_args n ts)
unfolding print_args
print_args-Ends zero ts lt = absurd (omega arith)
print_args-Ends (suc n) ts lt = elim (Bool-cases (ends_print (peek ts))) [
  | inl e ↦ rw (print_args, e) (omega arith)
  | inr e ↦
      rw (print_args, e)
        (and_then-Ends (suc (length ts)) (length ts) (expr_of ts) _ (expr_of-Ends ts)
          (λ x rest less.
            let le = length-skip_comma rest in
            and_then-Ends (suc (length ts)) (suc (length (skip_comma rest)))
              (print_args n (skip_comma rest)) _ (print_args-Ends n (skip_comma rest) (omega arith))
              (λ es after fewer. omega arith)))
]

-- An expression, then something that uses up no more than there is.
expr_then :
    {A : Type 0} (ts : List Token) (f : Expr → List Token → Parsed A)
    → ((e : Expr) (rest : List Token) → length rest < length ts → Ends (length ts) (f e rest))
    → Ends (length ts) (and_then (expr_of ts) f)
expr_then ts f h = and_then-Ends (length ts) (length ts) (expr_of ts) f (expr_of-Ends ts) h

declaration-Ends : (ts : List Token) → Ends (suc (length ts)) (declaration ts)
unfolding declaration
declaration-Ends (ident name ∷ ts) =
    and_then-Ends (suc (suc (length ts))) (suc (length ts)) (expect is_assign assign_mark ts) _
      (expect-Ends is_assign assign_mark ts)
      (λ x rest less.
        and_then-Ends (suc (suc (length ts))) (length rest) (expr_of rest) _ (expr_of-Ends rest)
          (λ e after fewer. omega arith))
declaration-Ends ts = tt

assignment-Ends : (name : Text) (ts : List Token) → Ends (suc (length ts)) (assignment name ts)
unfolding assignment
assignment-Ends name (assign_mark ∷ ts) =
    and_then-Ends (suc (suc (length ts))) (length ts) (expr_of ts) _ (expr_of-Ends ts)
      (λ e rest less. omega arith)
assignment-Ends name ts = omega arith

module _ (m : ℕ) (inner : List Token → Parsed Stmt) (ends : EndsBelow m inner) where
  block-Ends :
      (n : ℕ) (skips : Bool) (ts : List Token)
      → length ts < n
      → length ts < m
      → Ends (suc (length ts)) (block n skips inner ts)
  unfolding block
  block-Ends zero skips ts lt below = absurd (omega arith)
  block-Ends (suc n) skips [] lt below = omega arith
  block-Ends (suc n) skips (t ∷ ts) lt below =
      go (block_place skips t) (λ rest one two. block-Ends n skips rest one two)
    where
      go :
          (at : Place)
          → ((rest : List Token)
              → length rest < n
              → length rest < m
              → Ends (suc (length rest)) (block n skips inner rest))
          → Ends (suc (suc (length ts))) (elim at [
            | block_end ↦ parsed no_more ts
            | separator ↦ block n skips inner ts
            | statement ↦ and_then (inner (t ∷ ts)) (λ s rest.
                and_then (block n skips inner rest) (λ more after. parsed (then_stmt s more) after))
          ])
      go block_end on = omega arith
      go separator on =
          more-Ends (suc (length ts)) (suc (suc (length ts))) (block n skips inner ts) (omega arith)
            (on ts (omega arith) (omega arith))
      go statement on =
          and_then-Ends (suc (suc (length ts))) (suc (length ts)) (inner (t ∷ ts)) _
            (ends (t ∷ ts) below)
            (λ s rest less.
              and_then-Ends (suc (suc (length ts))) (suc (length rest)) (block n skips inner rest) _
                (on rest (omega arith) (omega arith)) (λ more after fewer. omega arith))

  body_of-Ends :
      (skips : Bool) (ts : List Token)
      → length ts < m
      → Ends (suc (length ts)) (body_of skips inner ts)
  unfolding body_of
  body_of-Ends skips ts below = block-Ends (suc (length ts)) skips ts (omega arith) below

  braced-Ends :
      (skips : Bool) (ts : List Token)
      → length ts < m
      → Ends (suc (length ts)) (braced skips inner ts)
  unfolding braced
  braced-Ends skips ts below =
      and_then-Ends (suc (length ts)) (suc (length ts)) (expect is_lbrace lbrace ts) _
        (expect-Ends is_lbrace lbrace ts)
        (λ x rest less.
          more-Ends (suc (length rest)) (suc (length ts)) (body_of skips inner rest) (omega arith)
            (body_of-Ends skips rest (omega arith)))

  else_part-Ends : (ts : List Token) → length ts < m → Ends (suc (length ts)) (else_part inner ts)
  unfolding else_part
  else_part-Ends [] below = omega arith
  else_part-Ends (kw_else ∷ ts) below =
      more-Ends (suc (length ts)) (suc (suc (length ts))) (braced false inner ts) (omega arith)
        (braced-Ends false ts (omega arith))
  else_part-Ends (t ∷ ts) below = omega arith

  parse_if-Ends : (ts : List Token) → length ts < m → Ends (length ts) (parse_if inner ts)
  unfolding parse_if
  parse_if-Ends ts below = expr_then ts _ (λ cond rest less.
      and_then-Ends (length ts) (suc (length rest)) (braced false inner rest) _
        (braced-Ends false rest (omega arith))
        (λ then_body after fewer.
          and_then-Ends (length ts) (suc (length after)) (else_part inner after) _
            (else_part-Ends after (omega arith)) (λ else_body last least. omega arith)))

  parse_while-Ends : (ts : List Token) → length ts < m → Ends (length ts) (parse_while inner ts)
  unfolding parse_while
  parse_while-Ends ts below = expr_then ts _ (λ cond rest less.
      and_then-Ends (length ts) (suc (length rest)) (braced true inner rest) _
        (braced-Ends true rest (omega arith)) (λ body after fewer. omega arith))

  stmt_at-EndsBelow : EndsBelow (suc m) (stmt_at inner)
  unfolding stmt_at
  stmt_at-EndsBelow (kw_var ∷ ts) lt = declaration-Ends ts
  stmt_at-EndsBelow (kw_if ∷ ts) lt =
      more-Ends (length ts) (suc (length ts)) (parse_if inner ts) (omega arith)
        (parse_if-Ends ts (omega arith))
  stmt_at-EndsBelow (kw_while ∷ ts) lt =
      more-Ends (length ts) (suc (length ts)) (parse_while inner ts) (omega arith)
        (parse_while-Ends ts (omega arith))
  stmt_at-EndsBelow (kw_print ∷ ts) lt =
      and_then-Ends (suc (length ts)) (suc (length ts)) (print_args (suc (length ts)) ts) _
        (print_args-Ends (suc (length ts)) ts (omega arith)) (λ es rest less. less)
  stmt_at-EndsBelow (kw_beep ∷ ts) lt =
      and_then-Ends (suc (length ts)) (length ts) (expr_of ts) _ (expr_of-Ends ts)
        (λ e rest less. omega arith)
  stmt_at-EndsBelow (kw_sleep ∷ ts) lt =
      and_then-Ends (suc (length ts)) (length ts) (expr_of ts) _ (expr_of-Ends ts)
        (λ e rest less. omega arith)
  stmt_at-EndsBelow (kw_exit ∷ ts) lt = omega arith
  stmt_at-EndsBelow (lbrace ∷ ts) lt =
      and_then-Ends (suc (length ts)) (suc (length ts)) (body_of false inner ts) _
        (body_of-Ends false ts (omega arith)) (λ b rest less. less)
  stmt_at-EndsBelow (ident name ∷ ts) lt = assignment-Ends name ts
  stmt_at-EndsBelow ts lt = expr_then ts (λ e rest. parsed (expr_stmt e) rest) (λ e rest less. less)

stmt-EndsBelow : (fuel : ℕ) → EndsBelow fuel (stmt fuel)
unfolding stmt
stmt-EndsBelow zero ts lt = absurd (omega arith)
stmt-EndsBelow (suc fuel) ts lt =
    let le = length-skip_separators ts in
    more-Ends (length (skip_separators ts)) (length ts) (stmt_at (stmt fuel) (skip_separators ts))
      le
      (stmt_at-EndsBelow fuel (stmt fuel) (stmt-EndsBelow fuel) (skip_separators ts) (omega arith))

parse_loop-Ends :
    (n depth : ℕ) (ts : List Token)
    → length ts < n
    → length ts < depth
    → Ends (suc (length ts)) (parse_loop n depth ts)
unfolding parse_loop
parse_loop-Ends zero depth ts lt below = absurd (omega arith)
parse_loop-Ends (suc n) depth [] lt below = omega arith
parse_loop-Ends (suc n) depth (t ∷ ts) lt below =
    go (top_place t) (λ rest one two. parse_loop-Ends n depth rest one two)
  where
    go :
        (at : Place)
        → ((rest : List Token)
            → length rest < n
            → length rest < depth
            → Ends (suc (length rest)) (parse_loop n depth rest))
        → Ends (suc (suc (length ts))) (elim at [
          | block_end ↦ parsed no_more (t ∷ ts)
          | separator ↦ parse_loop n depth ts
          | statement ↦ and_then (stmt depth (t ∷ ts)) (λ s rest.
              and_then (parse_loop n depth rest) (λ more after. parsed (then_stmt s more) after))
        ])
    go block_end on = omega arith
    go separator on =
        more-Ends (suc (length ts)) (suc (suc (length ts))) (parse_loop n depth ts) (omega arith)
          (on ts (omega arith) (omega arith))
    go statement on =
        and_then-Ends (suc (suc (length ts))) (suc (length ts)) (stmt depth (t ∷ ts)) _
          (stmt-EndsBelow depth (t ∷ ts) below)
          (λ s rest less.
            and_then-Ends (suc (suc (length ts))) (suc (length rest)) (parse_loop n depth rest) _
              (on rest (omega arith) (omega arith)) (λ more after fewer. omega arith))

-- The parser returns a program or an error for every list of tokens.
pub parse-Ends : (ts : List Token) → Ends (suc (length ts)) (parse ts)
unfolding parse
parse-Ends ts = parse_loop-Ends (suc (length ts)) (suc (length ts)) ts (omega arith) (omega arith)
