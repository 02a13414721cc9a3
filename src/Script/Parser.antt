-- ===== src/Script/Parser.antt =====
-- The parser, kernel/src/script/parser.rs, over the tokens that are left: `peek` is `eof` behind the
-- last one, as in the source. The nesting of parentheses and of blocks has fuel, and so has each loop.
pub mod Statements
pub mod RoundTrip
pub mod Ends
pub mod Total
use vibra.Common.{
  ℕ, zero, suc, List, [], ◌∷◌, ◌++◌, Option, none, some, Bool, true, false, if◌then◌else◌, length,
  not, ◌||◌,
}
use vibra.Script.{
  Text, Token, number, str, ident, plus, minus, star, slash, percent, eq_mark, ne_mark, lt_mark,
  gt_mark, le_mark, ge_mark, assign_mark, not_mark, lparen, rparen, lbrace, rbrace, semicolon,
  comma, newline, eof, kw_var, kw_if, kw_else, kw_while, kw_print, kw_beep, kw_sleep, kw_exit,
}
use vibra.Script.{
  BinOp, add, sub, mul, div, mod_op, eq_op, ne_op, lt_op, gt_op, le_op, ge_op, UnOp, not_op, neg,
  Expr, num, text, var, bin_op, un_op,
}

pub data Error : Type 0 where
  expected : Token → Token → Error
  expected_name : Token → Error
  unexpected : Token → Error

pub data Parsed (A : Type 0) : Type 0 where
  parsed : A → List Token → Parsed A
  failed : Error → Parsed A
  out_of_fuel : Parsed A

abbrev pub peek : List Token → Token
peek [] = eof
peek (t ∷ ts) = t

abbrev pub advance : List Token → List Token
advance [] = []
advance (t ∷ ts) = ts

-- A result put to use, as `?` does.
unfoldable pub and_then : {A B : Type 0} → Parsed A → (A → List Token → Parsed B) → Parsed B
and_then (parsed a ts) k = k a ts
and_then (failed e) k = failed e
and_then out_of_fuel k = out_of_fuel

abbrev pub is_rparen : Token → Bool
is_rparen rparen = true
is_rparen _ = false

abbrev pub is_lbrace : Token → Bool
is_lbrace lbrace = true
is_lbrace _ = false

abbrev pub is_assign : Token → Bool
is_assign assign_mark = true
is_assign _ = false

-- `expect`: the test is equality with the token.
unfoldable pub expect : (Token → Bool) → Token → List Token → Parsed (Unit {0})
expect is t ts = if is (peek ts) then parsed tt (advance ts) else failed (expected t (peek ts))

-- The operators of the three levels.
abbrev pub comparison : Token → Option BinOp
comparison eq_mark = some eq_op
comparison ne_mark = some ne_op
comparison lt_mark = some lt_op
comparison gt_mark = some gt_op
comparison le_mark = some le_op
comparison ge_mark = some ge_op
comparison _ = none

abbrev pub product : Token → Option BinOp
product star = some mul
product slash = some div
product percent = some mod_op
product _ = none

abbrev pub sum : Token → Option BinOp
sum plus = some add
sum minus = some sub
sum _ = none

abbrev pub prefix : Token → Option UnOp
prefix minus = some neg
prefix not_mark = some not_op
prefix _ = none

-- `left = BinOp(left, op, next()?)` for as long as an operator of the level follows.
unfoldable pub chain :
    ℕ → (Token → Option BinOp) → (List Token → Parsed Expr) → Expr → List Token → Parsed Expr
unfolding and_then
chain zero level operand left ts = out_of_fuel
chain (suc n) level operand left ts = elim (level (peek ts)) [
  | none ↦ parsed left ts
  | some o ↦
      and_then (operand (advance ts))
        (λ right rest. chain n level operand (bin_op left o right) rest)
]

unfoldable pub chain_of :
    (Token → Option BinOp) → (List Token → Parsed Expr) → List Token → Parsed Expr
unfolding chain and_then
chain_of level operand ts =
    and_then (operand ts) (λ left rest. chain (suc (length rest)) level operand left rest)

-- `atom`; `inner` is the parser of what stands in parentheses.
unfoldable pub atom : (List Token → Parsed Expr) → List Token → Parsed Expr
unfolding and_then expect
atom inner (number n ∷ ts) = parsed (num n) ts
atom inner (str s ∷ ts) = parsed (text s) ts
atom inner (ident name ∷ ts) = parsed (var name) ts
atom inner (lparen ∷ ts) =
    and_then (inner ts)
      (λ e rest. and_then (expect is_rparen rparen rest) (λ x after. parsed e after))
atom inner ts = failed (unexpected (peek ts))

unfoldable pub unary : (List Token → Parsed Expr) → List Token → Parsed Expr
unfolding atom and_then
unary inner ts = elim (prefix (peek ts)) [
  | none ↦ atom inner ts
  | some o ↦ and_then (atom inner (advance ts)) (λ e rest. parsed (un_op o e) rest)
]

unfoldable pub factor : (List Token → Parsed Expr) → List Token → Parsed Expr
unfolding chain_of unary
factor inner = chain_of comparison (unary inner)

unfoldable pub term : (List Token → Parsed Expr) → List Token → Parsed Expr
unfolding chain_of factor
term inner = chain_of product (factor inner)

unfoldable pub expr : ℕ → List Token → Parsed Expr
unfolding chain_of term
expr zero ts = out_of_fuel
expr (suc fuel) ts = chain_of sum (term (expr fuel)) ts

-- Enough for every nesting.
unfoldable pub expr_of : List Token → Parsed Expr
unfolding expr
expr_of ts = expr (suc (length ts)) ts
