-- ===== src/Script/Parser/Statements.antt =====
-- The statements of kernel/src/script/parser.rs. A block in a block has fuel; the loops have as much as
-- there are tokens left.
use vibra.Common.{ℕ, zero, suc, List, [], ◌∷◌, Bool, true, false, if◌then◌else◌, length}
use vibra.Script.{
  Text, Token, ident, assign_mark, lbrace, rbrace, semicolon, comma, newline, eof, kw_var, kw_if,
  kw_else, kw_while, kw_print, kw_beep, kw_sleep, kw_exit,
}
use vibra.Script.{
  Expr, num, var, Stmt, var_decl, assign, print, if_else, while_do, beep, sleep, exit, expr_stmt,
  Body, no_more, then_stmt,
}
use vibra.Script.Parser.{
  Parsed, parsed, failed, out_of_fuel, expected_name, peek, advance, and_then, is_lbrace, is_assign,
  expect, expr_of,
}

abbrev pub skip_separators : List Token → List Token
skip_separators (semicolon ∷ ts) = skip_separators ts
skip_separators (newline ∷ ts) = skip_separators ts
skip_separators ts = ts

-- The three places where the loop over the arguments of `print` stops.
abbrev pub ends_print : Token → Bool
ends_print newline = true
ends_print eof = true
ends_print semicolon = true
ends_print _ = false

abbrev pub skip_comma : List Token → List Token
skip_comma (comma ∷ ts) = ts
skip_comma ts = ts

unfoldable pub print_args : ℕ → List Token → Parsed (List Expr)
unfolding and_then expr_of
print_args zero ts = out_of_fuel
print_args (suc n) ts =
    if ends_print (peek ts)
    then parsed [] ts
    else and_then (expr_of ts)
        (λ e rest. and_then (print_args n (skip_comma rest)) (λ es after. parsed (e ∷ es) after))

-- What the loop over the statements of a block does at a token. Only that of `while` skips semicolons.
pub data Place : Type 0 where
  block_end separator statement : Place

abbrev pub block_place : Bool → Token → Place
block_place skips rbrace = block_end
block_place skips eof = block_end
block_place skips newline = separator
block_place skips semicolon = if skips then separator else statement
block_place skips _ = statement

unfoldable pub block : ℕ → Bool → (List Token → Parsed Stmt) → List Token → Parsed Body
unfolding and_then
block zero skips stmt ts = out_of_fuel
block (suc n) skips stmt ts = elim (block_place skips (peek ts)) [
  | block_end ↦ parsed no_more (advance ts)
  | separator ↦ block n skips stmt (advance ts)
  | statement ↦
      and_then (stmt ts) (λ s rest.
        and_then (block n skips stmt rest) (λ more after. parsed (then_stmt s more) after))
]

unfoldable pub body_of : Bool → (List Token → Parsed Stmt) → List Token → Parsed Body
unfolding block
body_of skips stmt ts = block (suc (length ts)) skips stmt ts

-- `expect(LBrace)`, then the block.
unfoldable pub braced : Bool → (List Token → Parsed Stmt) → List Token → Parsed Body
unfolding body_of expect and_then
braced skips stmt ts = and_then (expect is_lbrace lbrace ts) (λ x rest. body_of skips stmt rest)

unfoldable pub else_part : (List Token → Parsed Stmt) → List Token → Parsed Body
unfolding braced
else_part stmt (kw_else ∷ ts) = braced false stmt ts
else_part stmt ts = parsed no_more ts

unfoldable pub parse_if : (List Token → Parsed Stmt) → List Token → Parsed Stmt
unfolding braced else_part and_then expr_of
parse_if stmt ts = and_then (expr_of ts) (λ cond rest.
    and_then (braced false stmt rest) (λ then_body after.
      and_then (else_part stmt after)
        (λ else_body last. parsed (if_else cond then_body else_body) last)))

unfoldable pub parse_while : (List Token → Parsed Stmt) → List Token → Parsed Stmt
unfolding braced and_then expr_of
parse_while stmt ts = and_then (expr_of ts) (λ cond rest.
    and_then (braced true stmt rest) (λ body after. parsed (while_do cond body) after))

unfoldable pub declaration : List Token → Parsed Stmt
unfolding and_then expect expr_of
declaration (ident name ∷ ts) =
    and_then (expect is_assign assign_mark ts)
      (λ x rest. and_then (expr_of rest) (λ e after. parsed (var_decl name e) after))
declaration ts = failed (expected_name (peek ts))

unfoldable pub assignment : Text → List Token → Parsed Stmt
unfolding and_then expr_of
assignment name (assign_mark ∷ ts) = and_then (expr_of ts) (λ e rest. parsed (assign name e) rest)
assignment name ts = parsed (expr_stmt (var name)) ts

-- `stmt` behind the separators; `inner` parses the statements of a block.
unfoldable pub stmt_at : (List Token → Parsed Stmt) → List Token → Parsed Stmt
unfolding declaration parse_if parse_while print_args and_then expr_of body_of assignment
stmt_at inner (kw_var ∷ ts) = declaration ts
stmt_at inner (kw_if ∷ ts) = parse_if inner ts
stmt_at inner (kw_while ∷ ts) = parse_while inner ts
stmt_at inner (kw_print ∷ ts) =
    and_then (print_args (suc (length ts)) ts) (λ es rest. parsed (print es) rest)
stmt_at inner (kw_beep ∷ ts) = and_then (expr_of ts) (λ e rest. parsed (beep e) rest)
stmt_at inner (kw_sleep ∷ ts) = and_then (expr_of ts) (λ e rest. parsed (sleep e) rest)
stmt_at inner (kw_exit ∷ ts) = parsed exit ts
stmt_at inner (lbrace ∷ ts) =
    and_then (body_of false inner ts) (λ b rest. parsed (expr_stmt (num 0)) rest)
stmt_at inner (ident name ∷ ts) = assignment name ts
stmt_at inner ts = and_then (expr_of ts) (λ e rest. parsed (expr_stmt e) rest)

unfoldable pub stmt : ℕ → List Token → Parsed Stmt
unfolding stmt_at
stmt zero ts = out_of_fuel
stmt (suc fuel) ts = stmt_at (stmt fuel) (skip_separators ts)

-- The loop of `parse` at a token: it stops at `eof` and skips separators.
abbrev pub top_place : Token → Place
top_place eof = block_end
top_place newline = separator
top_place semicolon = separator
top_place _ = statement

unfoldable pub parse_loop : ℕ → ℕ → List Token → Parsed Body
unfolding stmt and_then
parse_loop zero depth ts = out_of_fuel
parse_loop (suc n) depth ts = elim (top_place (peek ts)) [
  | block_end ↦ parsed no_more ts
  | separator ↦ parse_loop n depth (advance ts)
  | statement ↦
      and_then (stmt depth ts) (λ s rest.
        and_then (parse_loop n depth rest) (λ more after. parsed (then_stmt s more) after))
]

unfoldable pub parse : List Token → Parsed Body
unfolding parse_loop
parse ts = parse_loop (suc (length ts)) (suc (length ts)) ts
