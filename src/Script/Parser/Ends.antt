-- ===== src/Script/Parser/Ends.antt =====
-- The parser of kernel/src/script/parser.rs ends on every list of tokens: each loop and each nesting uses up
-- tokens, so the fuel is enough.
use vibra.Common.{
  ℕ, zero, suc, ◌≤◌, ◌<◌, List, [], ◌∷◌, Option, none, some, Bool, Bool-cases, inl, inr, arith,
  length,
}
use vibra.Script.{Token, number, str, ident, lparen, rparen, BinOp, bin_op, Expr, UnOp, un_op}
use vibra.Script.Parser.{
  Parsed, parsed, failed, out_of_fuel, peek, advance, and_then, is_rparen, expect, comparison,
  product, sum, prefix, chain, chain_of, atom, unary, factor, term, expr, expr_of,
}

-- A result other than a lack of fuel, with fewer than `n` tokens left.
abbrev pub Ends : {A : Type 0} → ℕ → Parsed A → Type 0
Ends n (parsed a rest) = length rest < n
Ends n (failed e) = Unit
Ends n out_of_fuel = ⊥

pub and_then-Ends :
    {A B : Type 0} (n k : ℕ) (r : Parsed A) (f : A → List Token → Parsed B)
    → Ends k r
    → ((a : A) (rest : List Token) → length rest < k → Ends n (f a rest))
    → Ends n (and_then r f)
unfolding and_then
and_then-Ends n k (parsed a rest) f h g = g a rest h
and_then-Ends n k (failed e) f h g = tt
and_then-Ends n k out_of_fuel f h g = h

pub more-Ends : {A : Type 0} (n k : ℕ) (r : Parsed A) → n ≤ k → Ends n r → Ends k r
more-Ends n k (parsed a rest) le h = omega arith
more-Ends n k (failed e) le h = tt
more-Ends n k out_of_fuel le h = h

pub length-advance : (ts : List Token) → length (advance ts) ≤ length ts
length-advance [] = omega arith
length-advance (t ∷ ts) = omega arith

pub expect-Ends :
    (is : Token → Bool) (t : Token) (ts : List Token) → Ends (suc (length ts)) (expect is t ts)
unfolding expect
expect-Ends is t ts =
    let le = length-advance ts in
    elim (Bool-cases (is (peek ts))) [
      | inl e ↦ rw (expect, e) (omega arith)
      | inr e ↦ rw (expect, e) tt
    ]

-- A parser that ends on lists of fewer than `m` tokens, and uses one up.
abbrev pub EndsBelow : {A : Type 0} → ℕ → (List Token → Parsed A) → Type 0
EndsBelow m p = (ts : List Token) → length ts < m → Ends (length ts) (p ts)

module _ (level : Token → Option BinOp) (m : ℕ) (operand : List Token → Parsed Expr)
    (ends : EndsBelow m operand) where
  chain-Ends :
      (n k : ℕ) (left : Expr) (ts : List Token)
      → length ts < n
      → length ts < k
      → length ts < m
      → Ends k (chain n level operand left ts)
  unfolding chain
  chain-Ends zero k left ts more lt below = absurd (omega arith)
  chain-Ends (suc n) k left ts more lt below =
      go (level (peek ts)) (λ left' rest one two three. chain-Ends n k left' rest one two three)
    where
      go :
          (o : Option BinOp)
          → ((left' : Expr) (rest : List Token)
              → length rest < n
              → length rest < k
              → length rest < m
              → Ends k (chain n level operand left' rest))
          → Ends k (elim o [
            | none ↦ parsed left ts
            | some o ↦
                and_then
                  (operand (advance ts))
                  (λ right rest. chain n level operand (bin_op left o right) rest)
          ])
      go none on = lt
      go (some o) on =
          let le = length-advance ts in
          and_then-Ends k (length (advance ts)) (operand (advance ts)) _
            (ends (advance ts) (omega arith))
            (λ right rest less.
              on (bin_op left o right) rest (omega arith) (omega arith) (omega arith))

  chain_of-EndsBelow : EndsBelow m (chain_of level operand)
  unfolding chain_of
  chain_of-EndsBelow ts lt =
      and_then-Ends (length ts) (length ts) (operand ts) _ (ends ts lt) (λ left rest less.
        chain-Ends (suc (length rest)) (length ts) left rest (omega arith) less (omega arith))

module _ (m : ℕ) (inner : List Token → Parsed Expr) (ends : EndsBelow m inner) where
  atom-EndsBelow : EndsBelow (suc m) (atom inner)
  unfolding atom
  atom-EndsBelow (number n ∷ ts) lt = omega arith
  atom-EndsBelow (str s ∷ ts) lt = omega arith
  atom-EndsBelow (ident x ∷ ts) lt = omega arith
  atom-EndsBelow (lparen ∷ ts) lt =
      and_then-Ends (suc (length ts)) (length ts) (inner ts) _ (ends ts (omega arith))
        (λ e rest less.
          and_then-Ends (suc (length ts)) (suc (length rest)) (expect is_rparen rparen rest) _
            (expect-Ends is_rparen rparen rest) (λ x after fewer. omega arith))
  atom-EndsBelow ts lt = tt

  unary-EndsBelow : EndsBelow (suc m) (unary inner)
  unfolding unary
  unary-EndsBelow ts lt = go (prefix (peek ts))
    where
      go :
          (o : Option UnOp)
          → Ends (length ts) (elim o [
            | none ↦ atom inner ts
            | some o ↦ and_then (atom inner (advance ts)) (λ e rest. parsed (un_op o e) rest)
          ])
      go none = atom-EndsBelow ts lt
      go (some o) =
          let le = length-advance ts in
          and_then-Ends (length ts) (length (advance ts)) (atom inner (advance ts)) _
            (atom-EndsBelow (advance ts) (omega arith))
            (λ e rest less. let r : length rest < length ts = omega arith in r)

  term-EndsBelow : EndsBelow (suc m) (term inner)
  unfolding term factor
  term-EndsBelow =
      chain_of-EndsBelow product (suc m) (factor inner)
        (chain_of-EndsBelow comparison (suc m) (unary inner) unary-EndsBelow)

expr-EndsBelow : (fuel : ℕ) → EndsBelow fuel (expr fuel)
unfolding expr
expr-EndsBelow zero ts lt = absurd (omega arith)
expr-EndsBelow (suc fuel) ts lt =
    chain_of-EndsBelow sum (suc fuel) (term (expr fuel))
      (term-EndsBelow fuel (expr fuel) (expr-EndsBelow fuel)) ts lt

pub expr_of-Ends : (ts : List Token) → Ends (length ts) (expr_of ts)
unfolding expr_of
expr_of-Ends ts = expr-EndsBelow (suc (length ts)) ts (omega arith)
