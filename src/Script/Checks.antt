-- ===== src/Script/Checks.antt =====
-- Runs of the tokenizer and the parser of kernel/src/script, and the theorems on them at concrete texts.
use vibra.Common.{
  ℕ, ◌^◌, ap, replicate, ◌⊎◌, some, ◌+◌, ◌-◌, ◌≡◌, arith, u64_mod, refl, [], ◌∷◌, none, length,
}
use vibra.Script.{
  Text, rbrace, num, var, bin_op, un_op, add, lt_op, neg, while_do, no_more, then_stmt, print,
}
use vibra.Script.Lexer.{
  tokenize, tokenize_from, next_token, read_number, read_name, keyword, keyword_in, text_eq, mark,
  mark_in, with_equals,
}
use vibra.Script.Parser.{
  parsed, failed, unexpected, and_then, expect, chain, chain_of, atom, unary, factor, term, expr,
  expr_of,
}
use vibra.Script.Parser.Statements.{
  block, stmt, stmt_at, parse, parse_loop, print_args, parse_if, braced, body_of, else_part,
}
use vibra.Script.Parser.Ends.{Ends}
use vibra.Script.Parser.RoundTrip.{tokens_of, expr_of-tokens_of}
use vibra.Script.Vm.{
  Vm, line, and_run, over_limit, is_true, eval, eval_all, exec, exec_body, to_num,
}
use vibra.Script.Vm.{divide, remainder}
use vibra.Script.Vm.Division.{IsTruncated, divide-remainder}
use vibra.Script.Vm.Loops.{Runs, exec-over_limit}
use vibra.Script.Front.{program_of, program_of-Ends}

-- `if x<3{print 1}`
abbrev source : Text
source = 105 ∷ 102 ∷ 32 ∷ 120 ∷ 60 ∷ 51 ∷ 123 ∷ 112 ∷ 114 ∷ 105 ∷ 110 ∷ 116 ∷ 32 ∷ 49 ∷ 125 ∷ []

-- `print` takes the brace for an argument, so a body on one line is refused.
one_line : program_of source ≡ failed (unexpected rbrace)
unfolding program_of tokenize tokenize_from next_token read_number read_name keyword keyword_in
    text_eq mark mark_in with_equals parse parse_loop stmt stmt_at parse_if braced body_of block
    print_args expr_of expr term factor unary atom chain chain_of and_then expect else_part
one_line = refl

program_of-Ends_example : Ends (length source + 2) (program_of source)
program_of-Ends_example = program_of-Ends source

expr_of-tokens_of_example :
    expr_of
      (tokens_of (bin_op (num 1) add (bin_op (var source) lt_op (un_op neg (num 2)))) (rbrace ∷ []))
    ≡ parsed (bin_op (num 1) add (bin_op (var source) lt_op (un_op neg (num 2)))) (rbrace ∷ [])
expr_of-tokens_of_example =
    expr_of-tokens_of (bin_op (num 1) add (bin_op (var source) lt_op (un_op neg (num 2))))
      (rbrace ∷ []) refl refl refl

-- `while 1 { print }`.
abbrev idle : Vm
idle = record { vars = []; events = []; cancels = [] }

-- One line was printed in each turn.
abbrev Printed : ℕ → Vm → Type 0
Printed k vm = (vm.cancels ≡ []) × (vm.events ≡ replicate k (line []))

for_ever :
    Runs Printed
      (λ v. is_true (λ t. none) (λ n. []) 3 (eval (λ t. none) (λ n. []) 3 v (num 1)))
      (λ v. exec_body (λ t. none) (λ n. []) 3 (then_stmt (print []) no_more) v)
unfolding eval eval_all exec exec_body to_num and_run
for_ever = record {
  quiet = λ k vm p. p.0;
  true_cond = λ k vm p. refl;
  steps = λ k vm p. (_, refl, (p.0, ap (λ es. line [] ∷ es) p.1));
}

exec-over_limit_example :
    (last : Vm) × (exec
        (λ t. none)
        (λ n. [])
        3
        (while_do (num 1) (then_stmt (print []) no_more))
        idle
      ≡ over_limit last)
    × Printed 3 last
exec-over_limit_example =
    exec-over_limit (λ t. none) (λ n. []) 3 Printed (num 1) (then_stmt (print []) no_more) idle
      for_ever (refl, refl)

abbrev minus_seven : ℕ
minus_seven = u64_mod - 7

abbrev two : ℕ
two = 2

divide-remainder_example :
    ((two ≡ 0) × (divide minus_seven two ≡ some 0) × (remainder minus_seven two ≡ none))
    ⊎ (((minus_seven ≡ 2 ^ 63)
          × (two ≡ u64_mod - 1)
          × (divide minus_seven two ≡ none)
          × (remainder minus_seven two ≡ none))
        ⊎ ((q : ℕ) × ((r : ℕ) × (divide minus_seven two ≡ some q)
              × (remainder minus_seven two ≡ some r)
              × IsTruncated minus_seven two q r)))
divide-remainder_example = divide-remainder minus_seven two (omega arith) (omega arith)
