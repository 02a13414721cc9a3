-- ===== src/Script/Front.antt =====
-- The front of `run_script` of kernel/src/script/mod.rs: the tokens of a text, then its statements.
use vibra.Common.{ℕ, suc, ◌+◌, ◌≡◌, refl, List, ◌∷◌, none, some, true, false, arith, length}
use vibra.Script.{Text, Token, Body, no_more, semicolon, rbrace}
use vibra.Script.Lexer.{tokenize}
use vibra.Script.Lexer.Ends.{tokenize_total}
use vibra.Script.Parser.{
  Parsed, parsed, failed, out_of_fuel, unexpected, and_then, chain_of, atom, unary, factor, term,
  expr, expr_of,
}
use vibra.Script.Parser.Statements.{block, stmt, stmt_at, parse}
use vibra.Script.Parser.Ends.{Ends, more-Ends}
use vibra.Script.Parser.Total.{parse-Ends}

unfoldable pub program_of : Text → Parsed Body
unfolding tokenize parse
program_of source = elim (tokenize source) [ none ↦ out_of_fuel | some ts ↦ parse ts ]

-- For every source text, the tokenizer and the parser of a script return a program or an error:
-- every loop and every nesting uses up characters or tokens, so as much fuel as there are of them
-- is enough.
pub program_of-Ends : (source : Text) → Ends (length source + 2) (program_of source)
unfolding program_of
program_of-Ends source =
    let (ts, e, short) = tokenize_total source in
    rw (program_of, e)
      (more-Ends (suc (length ts)) (length source + 2) (parse ts) (omega arith) (parse-Ends ts))

-- A semicolon right before the closing brace ends the block of a `while`, but in a block of `if`,
-- `else` or alone it is refused as an unexpected brace, whatever follows.
pub block-semicolon :
    (n fuel : ℕ) (ts : List Token)
    → (block (suc (suc n)) false (stmt (suc fuel)) (semicolon ∷ rbrace ∷ ts)
        ≡ failed (unexpected rbrace))
      × (block (suc (suc n)) true (stmt (suc fuel)) (semicolon ∷ rbrace ∷ ts) ≡ parsed no_more ts)
unfolding block stmt stmt_at expr_of expr term factor unary chain_of atom and_then
block-semicolon n fuel ts = (refl, refl)
