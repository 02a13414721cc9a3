-- ===== src/Script.antt =====
-- Vibra Script, kernel/src/script: the tokens of lexer.rs, and the expressions and statements of
-- parser.rs. A text is the list of its characters, an i64 its word of 64 bits.
pub mod Lexer
pub mod Parser
pub mod Front
pub mod Vm
mod Checks
use vibra.Common.{ℕ, List}

abbrev pub Text : Type 0
Text = List ℕ

pub data Token : Type 0 where
  number : ℕ → Token
  str : Text → Token
  ident : Text → Token
  kw_var kw_if kw_else kw_while kw_fn kw_return kw_exit kw_print kw_beep kw_sleep kw_exec kw_let :
      Token
  plus minus star slash percent eq_mark ne_mark lt_mark gt_mark le_mark ge_mark assign_mark
        not_mark :
      Token
  lparen rparen lbrace rbrace semicolon comma colon : Token
  newline eof : Token

pub data BinOp : Type 0 where
  add sub mul div mod_op eq_op ne_op lt_op gt_op le_op ge_op : BinOp

pub data UnOp : Type 0 where
  not_op neg : UnOp

-- `Call` of the source is made nowhere: the parser has no syntax for it.
pub data Expr : Type 0 where
  num : ℕ → Expr
  text : Text → Expr
  var : Text → Expr
  bin_op : Expr → BinOp → Expr → Expr
  un_op : UnOp → Expr → Expr

mutual
  pub data Stmt : Type 0 where
    var_decl : Text → Expr → Stmt
    assign : Text → Expr → Stmt
    print : List Expr → Stmt
    if_else : Expr → Body → Body → Stmt
    while_do : Expr → Body → Stmt
    beep : Expr → Stmt
    sleep : Expr → Stmt
    exit : Stmt
    expr_stmt : Expr → Stmt

  -- `Vec<Stmt>`.
  pub data Body : Type 0 where
    no_more : Body
    then_stmt : Stmt → Body → Body
