-- ===== src/Script/Parser/RoundTrip.antt =====
-- Expressions written with parentheses are read back by kernel/src/script/parser.rs.
use vibra.Common.{
  ℕ, zero, suc, ◌+◌, ◌≤◌, ◌≡◌, refl, List, ◌∷◌, Option, none, some, max, arith, length,
}
use vibra.Script.{
  Token, number, str, ident, plus, minus, star, slash, percent, eq_mark, ne_mark, lt_mark, gt_mark,
  le_mark, ge_mark, not_mark, lparen, rparen,
}
use vibra.Script.{
  BinOp, add, sub, mul, div, mod_op, eq_op, ne_op, lt_op, gt_op, le_op, ge_op, UnOp, not_op, neg,
  Expr, num, text, var, bin_op, un_op,
}
use vibra.Script.Parser.{
  Parsed, parsed, and_then, expect, comparison, product, sum, prefix, expr_of, chain, chain_of,
  atom, unary, factor, term, expr, peek,
}

abbrev pub bin_token : BinOp → Token
bin_token add = plus
bin_token sub = minus
bin_token mul = star
bin_token div = slash
bin_token mod_op = percent
bin_token eq_op = eq_mark
bin_token ne_op = ne_mark
bin_token lt_op = lt_mark
bin_token gt_op = gt_mark
bin_token le_op = le_mark
bin_token ge_op = ge_mark

abbrev pub un_token : UnOp → Token
un_token not_op = not_mark
un_token neg = minus

-- The tokens of an expression, every operator in parentheses, before `rest`.
abbrev pub tokens_of : Expr → List Token → List Token
tokens_of (num n) rest = number n ∷ rest
tokens_of (text s) rest = str s ∷ rest
tokens_of (var x) rest = ident x ∷ rest
tokens_of (bin_op l o r) rest = lparen ∷ tokens_of l (bin_token o ∷ tokens_of r (rparen ∷ rest))
tokens_of (un_op o e) rest = lparen ∷ un_token o ∷ tokens_of e (rparen ∷ rest)

-- How deep the parentheses nest.
abbrev pub depth : Expr → ℕ
depth (bin_op l o r) = suc (max (depth l) (depth r))
depth (un_op o e) = suc (depth e)
depth _ = 0

-- No operator of a level follows.
abbrev Stops : (Token → Option BinOp) → List Token → Type 0
Stops level ts = level (peek ts) ≡ none

chain_of-Stops :
    (level : Token → Option BinOp) (operand : List Token → Parsed Expr) (ts rest : List Token)
    (e : Expr)
    → operand ts ≡ parsed e rest
    → Stops level rest
    → chain_of level operand ts ≡ parsed e rest
unfolding chain_of chain and_then
chain_of-Stops level operand ts rest e read stops = rw read (rw (chain, stops) refl)

chain_of-once :
    (level : Token → Option BinOp) (operand : List Token → Parsed Expr) (ts after rest : List Token)
    (mark : Token) (o : BinOp) (l r : Expr)
    → operand ts ≡ parsed l (mark ∷ after)
    → level mark ≡ some o
    → operand after ≡ parsed r rest
    → Stops level rest
    → chain_of level operand ts ≡ parsed (bin_op l o r) rest
unfolding chain_of chain and_then
chain_of-once level operand ts after rest mark o l r left at right stops =
    rw left (rw (chain, at) (rw right (rw (chain, stops) refl)))

-- A parenthesised expression begins with no prefix operator.
unprefixed : (e : Expr) (rest : List Token) → prefix (peek (tokens_of e rest)) ≡ none
unprefixed (num n) rest = refl
unprefixed (text s) rest = refl
unprefixed (var x) rest = refl
unprefixed (bin_op l o r) rest = refl
unprefixed (un_op o e) rest = refl

module _ (inner : List Token → Parsed Expr) where
  -- An expression that `atom` reads, whatever follows.
  abbrev Reads : Expr → Type 0
  Reads e = (rest : List Token) → atom inner (tokens_of e rest) ≡ parsed e rest

  unary-Reads :
      (e : Expr) (rest : List Token) → Reads e → unary inner (tokens_of e rest) ≡ parsed e rest
  unfolding unary
  unary-Reads e rest h = rw (unary, unprefixed e rest) (h rest)

  factor-Reads :
      (e : Expr) (rest : List Token)
      → Reads e
      → Stops comparison rest
      → factor inner (tokens_of e rest) ≡ parsed e rest
  unfolding factor
  factor-Reads e rest h stops =
      chain_of-Stops comparison (unary inner) (tokens_of e rest) rest e (unary-Reads e rest h) stops

  term-Reads :
      (e : Expr) (rest : List Token)
      → Reads e
      → Stops comparison rest
      → Stops product rest
      → term inner (tokens_of e rest) ≡ parsed e rest
  unfolding term
  term-Reads e rest h stops stops' =
      chain_of-Stops product (factor inner) (tokens_of e rest) rest e (factor-Reads e rest h stops)
        stops'

  comparison_once :
      (o : BinOp) (l r : Expr) (rest : List Token)
      → Reads l
      → Reads r
      → comparison (bin_token o) ≡ some o
      → chain_of sum (term inner) (tokens_of l (bin_token o ∷ tokens_of r (rparen ∷ rest)))
        ≡ parsed (bin_op l o r) (rparen ∷ rest)
  unfolding term factor
  comparison_once o l r rest hl hr is =
      chain_of-Stops sum (term inner) (tokens_of l (bin_token o ∷ tokens_of r (rparen ∷ rest)))
        (rparen ∷ rest) (bin_op l o r)
        (chain_of-Stops product (factor inner)
          (tokens_of l (bin_token o ∷ tokens_of r (rparen ∷ rest))) (rparen ∷ rest) (bin_op l o r)
          (chain_of-once comparison (unary inner)
            (tokens_of l (bin_token o ∷ tokens_of r (rparen ∷ rest))) (tokens_of r (rparen ∷ rest))
            (rparen ∷ rest) (bin_token o) o l r
            (unary-Reads l (bin_token o ∷ tokens_of r (rparen ∷ rest)) hl) is
            (unary-Reads r (rparen ∷ rest) hr) refl)
          refl)
        refl

  product_once :
      (o : BinOp) (l r : Expr) (rest : List Token)
      → Reads l
      → Reads r
      → comparison (bin_token o) ≡ none
      → product (bin_token o) ≡ some o
      → chain_of sum (term inner) (tokens_of l (bin_token o ∷ tokens_of r (rparen ∷ rest)))
        ≡ parsed (bin_op l o r) (rparen ∷ rest)
  unfolding term
  product_once o l r rest hl hr low is =
      chain_of-Stops sum (term inner) (tokens_of l (bin_token o ∷ tokens_of r (rparen ∷ rest)))
        (rparen ∷ rest) (bin_op l o r)
        (chain_of-once product (factor inner)
          (tokens_of l (bin_token o ∷ tokens_of r (rparen ∷ rest))) (tokens_of r (rparen ∷ rest))
          (rparen ∷ rest) (bin_token o) o l r
          (factor-Reads l (bin_token o ∷ tokens_of r (rparen ∷ rest)) hl low) is
          (factor-Reads r (rparen ∷ rest) hr refl) refl)
        refl

  sum_once :
      (o : BinOp) (l r : Expr) (rest : List Token)
      → Reads l
      → Reads r
      → comparison (bin_token o) ≡ none
      → product (bin_token o) ≡ none
      → sum (bin_token o) ≡ some o
      → chain_of sum (term inner) (tokens_of l (bin_token o ∷ tokens_of r (rparen ∷ rest)))
        ≡ parsed (bin_op l o r) (rparen ∷ rest)
  sum_once o l r rest hl hr low flat is =
      chain_of-once sum (term inner) (tokens_of l (bin_token o ∷ tokens_of r (rparen ∷ rest)))
        (tokens_of r (rparen ∷ rest)) (rparen ∷ rest) (bin_token o) o l r
        (term-Reads l (bin_token o ∷ tokens_of r (rparen ∷ rest)) hl low flat) is
        (term-Reads r (rparen ∷ rest) hr refl refl) refl

  bin_op-Reads :
      (o : BinOp) (l r : Expr) (rest : List Token)
      → Reads l
      → Reads r
      → chain_of sum (term inner) (tokens_of l (bin_token o ∷ tokens_of r (rparen ∷ rest)))
        ≡ parsed (bin_op l o r) (rparen ∷ rest)
  bin_op-Reads add l r rest hl hr = sum_once add l r rest hl hr refl refl refl
  bin_op-Reads sub l r rest hl hr = sum_once sub l r rest hl hr refl refl refl
  bin_op-Reads mul l r rest hl hr = product_once mul l r rest hl hr refl refl
  bin_op-Reads div l r rest hl hr = product_once div l r rest hl hr refl refl
  bin_op-Reads mod_op l r rest hl hr = product_once mod_op l r rest hl hr refl refl
  bin_op-Reads eq_op l r rest hl hr = comparison_once eq_op l r rest hl hr refl
  bin_op-Reads ne_op l r rest hl hr = comparison_once ne_op l r rest hl hr refl
  bin_op-Reads lt_op l r rest hl hr = comparison_once lt_op l r rest hl hr refl
  bin_op-Reads gt_op l r rest hl hr = comparison_once gt_op l r rest hl hr refl
  bin_op-Reads le_op l r rest hl hr = comparison_once le_op l r rest hl hr refl
  bin_op-Reads ge_op l r rest hl hr = comparison_once ge_op l r rest hl hr refl

  unary-un_op :
      (o : UnOp) (e : Expr) (rest : List Token)
      → Reads e
      → unary inner (un_token o ∷ tokens_of e rest) ≡ parsed (un_op o e) rest
  unfolding unary and_then
  unary-un_op not_op e rest h = rw (h rest) refl
  unary-un_op neg e rest h = rw (h rest) refl

  un_op-Reads :
      (o : UnOp) (e : Expr) (rest : List Token)
      → Reads e
      → chain_of sum (term inner) (un_token o ∷ tokens_of e (rparen ∷ rest))
        ≡ parsed (un_op o e) (rparen ∷ rest)
  unfolding term factor
  un_op-Reads o e rest h =
      chain_of-Stops sum (term inner) (un_token o ∷ tokens_of e (rparen ∷ rest)) (rparen ∷ rest)
        (un_op o e)
        (chain_of-Stops product (factor inner) (un_token o ∷ tokens_of e (rparen ∷ rest))
          (rparen ∷ rest) (un_op o e)
          (chain_of-Stops comparison (unary inner) (un_token o ∷ tokens_of e (rparen ∷ rest))
            (rparen ∷ rest) (un_op o e) (unary-un_op o e (rparen ∷ rest) h) refl)
          refl)
        refl

atom-tokens_of :
    (fuel : ℕ) (e : Expr) (rest : List Token)
    → depth e ≤ fuel
    → atom (expr fuel) (tokens_of e rest) ≡ parsed e rest
unfolding atom expr and_then expect
atom-tokens_of fuel (num n) rest le = refl
atom-tokens_of fuel (text s) rest le = refl
atom-tokens_of fuel (var x) rest le = refl
atom-tokens_of zero (bin_op l o r) rest le = absurd (omega arith)
atom-tokens_of (suc fuel) (bin_op l o r) rest le =
    rw
      (bin_op-Reads (expr fuel) o l r rest (λ after. atom-tokens_of fuel l after (omega arith))
        (λ after. atom-tokens_of fuel r after (omega arith)))
      refl
atom-tokens_of zero (un_op o e) rest le = absurd (omega arith)
atom-tokens_of (suc fuel) (un_op o e) rest le =
    rw (un_op-Reads (expr fuel) o e rest (λ after. atom-tokens_of fuel e after (omega arith))) refl

depth-tokens_of : (e : Expr) (rest : List Token) → depth e + length rest ≤ length (tokens_of e rest)
depth-tokens_of (num n) rest = omega arith
depth-tokens_of (text s) rest = omega arith
depth-tokens_of (var x) rest = omega arith
depth-tokens_of (bin_op l o r) rest =
    let right = depth-tokens_of r (rparen ∷ rest) in
    let left = depth-tokens_of l (bin_token o ∷ tokens_of r (rparen ∷ rest)) in omega arith
depth-tokens_of (un_op o e) rest = let inner = depth-tokens_of e (rparen ∷ rest) in omega arith

-- The tokens of any expression of numbers, strings, variables and operators, written with
-- parentheses around each operator, are read back by `expr` as that expression, its fuel being
-- enough, with the tokens behind it left over, when those do not begin with a binary operator.
pub expr_of-tokens_of :
    (e : Expr) (rest : List Token)
    → comparison (peek rest) ≡ none
    → product (peek rest) ≡ none
    → sum (peek rest) ≡ none
    → expr_of (tokens_of e rest) ≡ parsed e rest
unfolding expr_of expr
expr_of-tokens_of e rest low flat none_of =
    let fuel = length (tokens_of e rest) in
    let enough = depth-tokens_of e rest in
    chain_of-Stops sum (term (expr fuel)) (tokens_of e rest) rest e
      (term-Reads (expr fuel) e rest (λ after. atom-tokens_of fuel e after (omega arith)) low flat)
      none_of
