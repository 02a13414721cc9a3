-- ===== src/Script/Vm/Loops.antt =====
-- The loop of `while` of kernel/src/script/vm.rs: a loop that would run for ever ends with the error.
use vibra.Common.{
  ℕ, zero, suc, ◌+◌, arith, ◌≡◌, refl, ap, List, [], ◌∷◌, Option, some, Bool, true, false,
}
use vibra.Script.{Text, Expr, while_do, Body}
use vibra.Script.Vm.{
  Vm, Ending, finished, over_limit, and_run, poll_cancel, turn, while_loop, is_true, eval, exec,
  exec_body,
}

-- What holds after each number of turns: the condition is true there, nobody cancels, and the body leads on
-- without an error.
pub record Runs (P : ℕ → Vm → Type 0) (cond : Vm → Option Bool) (body : Vm → Ending) : Type 0 where
  pub quiet : (k : ℕ) (vm : Vm) → P k vm → vm.cancels ≡ []
  pub true_cond : (k : ℕ) (vm : Vm) → P k vm → cond vm ≡ some true
  pub steps :
      (k : ℕ) (vm : Vm) → P k vm → (after : Vm) × (body vm ≡ finished after) × P (suc k) after

poll_cancel-quiet : (vm : Vm) → vm.cancels ≡ [] → poll_cancel vm ≡ (false, vm)
unfolding poll_cancel
poll_cancel-quiet vm e =
    ap
      (λ (cancels : List Bool). elim cancels [
        | [] ↦ (false, vm)
        | c ∷ cs ↦ (c, record { vars = vm.vars; events = vm.events; cancels = cs })
      ])
      e

while_loop-over_limit :
    (P : ℕ → Vm → Type 0) (cond : Vm → Option Bool) (body : Vm → Ending) (n k : ℕ) (vm : Vm)
    → Runs P cond body
    → P k vm
    → (last : Vm) × (while_loop n cond body vm ≡ over_limit last) × P (k + n) last
unfolding while_loop turn and_run
while_loop-over_limit P cond body zero k vm r p =
    let same : k + 0 ≡ k = omega arith in
    (vm, rw (r.true_cond k vm p, poll_cancel-quiet vm (r.quiet k vm p)) refl, rw same p)
while_loop-over_limit P cond body (suc n) k vm r p =
    let (after, e, p') = r.steps k vm p in
    let (last, ran, q) = while_loop-over_limit P cond body n (suc k) after r p' in
    let same : k + suc n ≡ suc k + n = omega arith in
    (last, rw (r.true_cond k vm p, poll_cancel-quiet vm (r.quiet k vm p)) (rw e ran), rw same q)

module _ (parse_i64 : Text → Option ℕ) (show_i64 : ℕ → Text) (limit : ℕ) where
  -- Let a predicate say what holds after each number of turns of a `while` statement, from 0
  -- turns on: nobody cancels, the condition is true, and the body leads without an error to a
  -- state of the next number. Then the statement ends with the error of the iteration limit, in a
  -- state that holds after exactly as many turns as the limit, whatever the limit.
  pub exec-over_limit :
      (P : ℕ → Vm → Type 0) (cond : Expr) (body : Body) (vm : Vm)
      → Runs P
          (λ v. is_true parse_i64 show_i64 limit (eval parse_i64 show_i64 limit v cond))
          (λ v. exec_body parse_i64 show_i64 limit body v)
      → P 0 vm
      → (last : Vm) × (exec parse_i64 show_i64 limit (while_do cond body) vm ≡ over_limit last)
        × P limit last
  unfolding exec
  exec-over_limit P cond body vm r p =
      let (last, e, q) = while_loop-over_limit P _ _ limit 0 vm r p in
      let same : 0 + limit ≡ limit = omega arith in (last, e, rw same at q)
