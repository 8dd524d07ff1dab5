-- ===== src/Timewheel/Runs.antt =====
-- Any run of `Arm`, `Cancel` and `Advance` calls, against the table of armed times.
use uio.Prelude.Keys.{mem}
use uio.Prelude.{ℕ, ◌+◌, ◌≡◌, refl, ap, ◌∙◌, none, some, List, [], ◌∷◌, ◌==◌, if◌then◌else◌, arith}
use uio.Timewheel.Advance.{advance}
use uio.Timewheel.Plan.Advances.{advance-mem, advance-IsTimed, advance-planned}
use uio.Timewheel.Plan.Entries.{cancel-planned, arm_entry-planned}
use uio.Timewheel.Plan.{Plan, planned, after, is_due}
use uio.Timewheel.Wheel.Operations.{cancel-IsTimed, arm_entry-IsTimed}
use uio.Timewheel.Wheel.Window.{IsTimed}
use uio.Timewheel.Wheel.{Wheel, cancel, arm_entry}

pub data Call : Type 0 where
  arm_call : ℕ → ℕ → ℕ → Call
  cancel_call : ℕ → Call
  advance_call : ℕ → Call

abbrev pub call : Wheel → Call → Wheel
call w (arm_call e t period) = arm_entry w e t period
call w (cancel_call e) = cancel w e
call w (advance_call now) = (advance w now).0

unfoldable pub run_all : Wheel → List Call → Wheel
run_all w [] = w
run_all w (c ∷ cs) = run_all (call w c) cs

-- How often a run reports an entry.
abbrev pub report_count : Wheel → Call → ℕ → ℕ
report_count w (arm_call e t period) x = 0
report_count w (cancel_call e) x = 0
report_count w (advance_call now) x = if mem x (advance w now).1 then 1 else 0

unfoldable pub report_total : Wheel → List Call → ℕ → ℕ
report_total w [] x = 0
report_total w (c ∷ cs) x = report_count w c x + report_total (call w c) cs x

-- The same of one entry's plan alone.
abbrev pub plan_after : Call → ℕ → Plan → Plan
plan_after (arm_call e t period) x p =
    if e == x then (if t == 0 then none else some (t, period)) else p
plan_after (cancel_call e) x p = if e == x then none else p
plan_after (advance_call now) x p = after now p

abbrev pub plan_all : List Call → ℕ → Plan → Plan
plan_all [] x p = p
plan_all (c ∷ cs) x p = plan_all cs x (plan_after c x p)

abbrev pub due_count : Call → Plan → ℕ
due_count (arm_call e t period) p = 0
due_count (cancel_call e) p = 0
due_count (advance_call now) p = if is_due now p then 1 else 0

abbrev pub due_total : List Call → ℕ → Plan → ℕ
due_total [] x p = 0
due_total (c ∷ cs) x p = due_count c p + due_total cs x (plan_after c x p)

pub call-IsTimed : (w : Wheel) (c : Call) → IsTimed w → IsTimed (call w c)
call-IsTimed w (arm_call e t period) v = arm_entry-IsTimed w e t period v
call-IsTimed w (cancel_call e) v = cancel-IsTimed w e v
call-IsTimed w (advance_call now) v = (advance-IsTimed w now v).0

call-planned :
    (w : Wheel) (c : Call) (x : ℕ) → IsTimed w → planned (call w c) x ≡ plan_after c x (planned w x)
call-planned w (arm_call e t period) x v = arm_entry-planned w e t period x v
call-planned w (cancel_call e) x v = cancel-planned w e x v
call-planned w (advance_call now) x v = advance-planned w now x v

call-count :
    (w : Wheel) (c : Call) (x : ℕ) → IsTimed w → report_count w c x ≡ due_count c (planned w x)
call-count w (arm_call e t period) x v = refl
call-count w (cancel_call e) x v = refl
call-count w (advance_call now) x v = ap (λ b. if b then 1 else 0) ((advance-mem w now v).1 x)

-- From a wheel where `IsTimed` holds, it holds after any run of Arm, Cancel and Advance calls: each
-- slot, the heap and the summary agree with the entries' places, every entry is in the slot of its
-- tick or past the window on the heap, `count` is the number of entries, and `earliest` is the least
-- of their times, or 0 when there is none.
pub run_all-IsTimed : (w : Wheel) (cs : List Call) → IsTimed w → IsTimed (run_all w cs)
unfolding run_all
run_all-IsTimed w [] v = v
run_all-IsTimed w (c ∷ cs) v = run_all-IsTimed (call w c) cs (call-IsTimed w c v)

-- From a wheel where `IsTimed` holds, any run of Arm, Cancel and Advance calls leaves each entry
-- armed, with the time and the period, as the run leaves a plan of that entry alone.
pub run_all-planned :
    (w : Wheel) (cs : List Call) (x : ℕ)
    → IsTimed w
    → planned (run_all w cs) x ≡ plan_all cs x (planned w x)
unfolding run_all
run_all-planned w [] x v = refl
run_all-planned w (c ∷ cs) x v =
    run_all-planned (call w c) cs x (call-IsTimed w c v) ∙ ap (plan_all cs x) (call-planned w c x v)

-- From a wheel where `IsTimed` holds, a run of Arm, Cancel and Advance calls reports each entry as
-- often as there are Advance calls at which the plan of that entry alone is due.
pub report_total-due_total :
    (w : Wheel) (cs : List Call) (x : ℕ)
    → IsTimed w
    → report_total w cs x ≡ due_total cs x (planned w x)
unfolding report_total
report_total-due_total w [] x v = refl
report_total-due_total w (c ∷ cs) x v =
    let rest = report_total-due_total (call w c) cs x (call-IsTimed w c v) in
    let same = ap (due_total cs x) (call-planned w c x v) in
    omega (arith, call-count w c x v, rest, same)
