-- ===== src/Script/Vm.antt =====
-- The virtual machine, kernel/src/script/vm.rs. An i64 is its word of 64 bits. The console, the speaker
-- and the scheduler are a list of events, the last one first; `cancels` is what the next calls of
-- `is_cancelled` read, false behind its end. `parse_i64` and `show_i64` are `str::parse` and `format!`.
pub mod Loops
pub mod Division
use vibra.Common.{
  ℕ, zero, suc, ◌+◌, ◌-◌, ◌*◌, ◌/◌, ◌%◌, ◌^◌, List, [], ◌∷◌, ◌++◌, Option, none, some, Bool, true,
  false, ltb, leb, ◌==◌, not, ◌&&◌, ◌||◌, if◌then◌else◌, u64_mod,
}
use vibra.Script.{
  Text, BinOp, add, sub, mul, div, mod_op, eq_op, ne_op, lt_op, gt_op, le_op, ge_op, UnOp, not_op,
  neg, Expr, num, text, var, bin_op, un_op,
}
use vibra.Script.{
  Stmt, var_decl, assign, print, if_else, while_do, beep, sleep, exit, expr_stmt, Body, no_more,
  then_stmt,
}
use vibra.Script.Lexer.{text_eq}

pub data Value : Type 0 where
  num_value : ℕ → Value
  str_value : Text → Value
  nil : Value

pub data Event : Type 0 where
  line : List Text → Event
  cancelled : Event
  beeped slept : ℕ → Event

pub record Vm : Type 0 where
  pub vars : List (Text × Value)
  pub events : List Event
  pub cancels : List Bool

abbrev pub max_iterations : ℕ
max_iterations = 10_000_000

unfoldable pub find_var : Text → List (Text × Value) → Value
unfolding text_eq
find_var name [] = nil
find_var name ((x, v) ∷ rest) = if text_eq x name then v else find_var name rest

-- The newest value of a name stands first.
unfoldable pub set_var : Text → Value → Vm → Vm
set_var name v vm = record vm { vars = (name, v) ∷ vm.vars }

unfoldable pub add_event : Event → Vm → Vm
add_event e vm = record vm { events = e ∷ vm.events }

-- `is_cancelled()`, with the `reset_cancel` behind it.
unfoldable pub poll_cancel : Vm → Bool × Vm
poll_cancel vm = elim vm.cancels [ [] ↦ (false, vm) | c ∷ cs ↦ (c, record vm { cancels = cs }) ]

abbrev pub is_negative : ℕ → Bool
is_negative w = leb (2 ^ 63) w

abbrev pub magnitude : ℕ → ℕ
magnitude w = if is_negative w then u64_mod - w else w

abbrev pub signed : Bool → ℕ → ℕ
signed negative m = if negative then (u64_mod - m) % u64_mod else m

abbrev pub differ : Bool → Bool → Bool
differ true b = not b
differ false b = b

-- The signed order, as the order of the words with the upper bit turned over.
abbrev pub less : ℕ → ℕ → Bool
less a b = ltb ((a + 2 ^ 63) % u64_mod) ((b + 2 ^ 63) % u64_mod)

abbrev pub truth : Bool → ℕ
truth b = if b then 1 else 0

-- Division rounds to zero; the least number by -1 overflows, which panics: `none`.
unfoldable pub overflows : ℕ → ℕ → Bool
overflows a b = a == 2 ^ 63 && b == u64_mod - 1

unfoldable pub divide : ℕ → ℕ → Option ℕ
unfolding overflows
divide a b =
    if b == 0
    then some 0
    else if overflows a b
    then none
    else some (signed (differ (is_negative a) (is_negative b)) (magnitude a / magnitude b))

unfoldable pub remainder : ℕ → ℕ → Option ℕ
unfolding overflows
remainder a b =
    if b == 0 || overflows a b
    then none
    else some (signed (is_negative a) (magnitude a % magnitude b))

unfoldable pub compute : BinOp → ℕ → ℕ → Option ℕ
unfolding divide remainder
compute add a b = some ((a + b) % u64_mod)
compute sub a b = some ((u64_mod + a - b) % u64_mod)
compute mul a b = some (a * b % u64_mod)
compute div a b = divide a b
compute mod_op a b = remainder a b
compute eq_op a b = some (truth (a == b))
compute ne_op a b = some (truth (not (a == b)))
compute lt_op a b = some (truth (less a b))
compute gt_op a b = some (truth (less b a))
compute le_op a b = some (truth (not (less b a)))
compute ge_op a b = some (truth (not (less a b)))

-- `Ok`, the error of a loop that ran too long, or a panic.
pub data Ending : Type 0 where
  finished over_limit : Vm → Ending
  panicked : Ending

unfoldable pub and_run : Ending → (Vm → Ending) → Ending
and_run (finished vm) k = k vm
and_run (over_limit vm) k = over_limit vm
and_run panicked k = panicked

-- A turn of the loop of `while`: `cond` is the value of its condition, `c` what `is_cancelled` reads then.
unfoldable pub turn : Option Bool → Bool × Vm → Vm → (Vm → Ending) → Ending
unfolding add_event
turn none c vm on = panicked
turn (some false) c vm on = finished vm
turn (some true) (true, vm') vm on = finished (add_event cancelled vm')
turn (some true) (false, vm') vm on = on vm'

-- The loop; `n` turns are left before the limit.
unfoldable pub while_loop : ℕ → (Vm → Option Bool) → (Vm → Ending) → Vm → Ending
unfolding turn poll_cancel and_run
while_loop zero cond body vm = turn (cond vm) (poll_cancel vm) vm over_limit
while_loop (suc n) cond body vm =
    turn (cond vm) (poll_cancel vm) vm
      (λ vm'. and_run (body vm') (λ after. while_loop n cond body after))

module _ (parse_i64 : Text → Option ℕ) (show_i64 : ℕ → Text) (limit : ℕ) where
  unfoldable pub to_num : Value → ℕ
  to_num (num_value n) = n
  to_num (str_value s) = elim (parse_i64 s) [ none ↦ 0 | some n ↦ n ]
  to_num nil = 0

  unfoldable pub to_str : Value → Text
  to_str (num_value n) = show_i64 n
  to_str (str_value s) = s
  to_str nil = 110 ∷ 117 ∷ 108 ∷ 108 ∷ []

  abbrev pub as_number : Option ℕ → Option Value
  as_number none = none
  as_number (some n) = some (num_value n)

  unfoldable pub apply : BinOp → Value → Value → Option Value
  unfolding to_num compute
  apply add (str_value a) (str_value b) = some (str_value (a ++ b))
  apply o l r = as_number (compute o (to_num l) (to_num r))

  unfoldable pub apply_un : UnOp → Value → Value
  unfolding to_num
  apply_un not_op v = num_value (truth (to_num v == 0))
  apply_un neg v = num_value ((u64_mod - to_num v) % u64_mod)

  -- `eval`; `none` is a panic.
  unfoldable pub eval : Vm → Expr → Option Value
  unfolding apply apply_un find_var
  eval vm (num n) = some (num_value n)
  eval vm (text s) = some (str_value s)
  eval vm (var x) = some (find_var x vm.vars)
  eval vm (bin_op l o r) =
      let left = eval vm l in
      let right = eval vm r in
      elim left [ none ↦ none | some a ↦ elim right [ none ↦ none | some b ↦ apply o a b ] ]
  eval vm (un_op o e) = let v = eval vm e in elim v [ none ↦ none | some a ↦ some (apply_un o a) ]

  unfoldable pub eval_all : Vm → List Expr → Option (List Text)
  unfolding eval to_str
  eval_all vm [] = some []
  eval_all vm (e ∷ es) =
      let rest = eval_all vm es in
      elim (eval vm e) [
        | none ↦ none
        | some v ↦ elim rest [ none ↦ none | some ts ↦ some (to_str v ∷ ts) ]
      ]

  abbrev pub is_true : Option Value → Option Bool
  is_true none = none
  is_true (some v) = some (not (to_num v == 0))

  abbrev pub with_value : Option Value → (Value → Ending) → Ending
  with_value none k = panicked
  with_value (some v) k = k v

  abbrev pub with_lines : Option (List Text) → Vm → Ending
  with_lines none vm = panicked
  with_lines (some ts) vm = finished (record vm { events = line ts ∷ vm.events })

  abbrev pub branch : Option Bool → Ending → Ending → Ending
  branch none a b = panicked
  branch (some true) a b = a
  branch (some false) a b = b

  unfoldable mutual
    unfolding eval eval_all set_var add_event while_loop and_run

    pub exec : Stmt → Vm → Ending
    exec (var_decl x e) vm = with_value (eval vm e) (λ v. finished (set_var x v vm))
    exec (assign x e) vm = with_value (eval vm e) (λ v. finished (set_var x v vm))
    exec (print es) vm = with_lines (eval_all vm es) vm
    exec (if_else cond then_body else_body) vm =
        branch (is_true (eval vm cond)) (exec_body then_body vm) (exec_body else_body vm)
    exec (while_do cond body) vm =
        while_loop limit (λ v. is_true (eval v cond)) (λ v. exec_body body v) vm
    exec (beep e) vm =
        with_value (eval vm e) (λ v. finished (add_event (beeped (to_num v % 2 ^ 32)) vm))
    exec (sleep e) vm = with_value (eval vm e) (λ v. finished (add_event (slept (to_num v)) vm))
    exec exit vm = finished vm
    exec (expr_stmt e) vm = with_value (eval vm e) (λ v. finished vm)

    pub exec_body : Body → Vm → Ending
    exec_body no_more vm = finished vm
    exec_body (then_stmt s more) vm = and_run (exec s vm) (λ after. exec_body more after)

  -- `run`: it looks for a cancellation before each statement.
  unfoldable pub run_statements : Body → Vm → Ending
  unfolding exec and_run poll_cancel add_event
  run_statements no_more vm = finished vm
  run_statements (then_stmt s more) vm =
      let (c, vm') = poll_cancel vm in
      if c
      then finished (add_event cancelled vm')
      else and_run (exec s vm') (λ after. run_statements more after)

  -- `execute`: no variable is set, nothing has been shown.
  unfoldable pub execute : List Bool → Body → Ending
  unfolding run_statements
  execute cancels program =
      run_statements program (record { vars = []; events = []; cancels = cancels })
