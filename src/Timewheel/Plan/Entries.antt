-- ===== src/Timewheel/Plan/Entries.antt =====
-- `Cancel` and `Arm` on the table of armed times.
use uio.Prelude.{
  ℕ, ◌≡◌, ap, sym, ◌∙◌, Bool, true, false, not, ◌&&◌, ◌||◌, none, some, ltb, ◌==◌, if◌then◌else◌,
  if-elim,
}
use uio.Timewheel.Wheel.Detach.{detach-Detached}
use uio.Timewheel.Wheel.Operations.{IsTimed-IsPlaced, detach-held, armed, armed-Armed}
use uio.Timewheel.Wheel.Window.{IsTimed, is_held}
use uio.Timewheel.Wheel.{Wheel, is_out, detach, rearm_earliest, cancel, arm_entry}
use uio.Timewheel.Plan.{Plan, planned, plan}

-- `Cancel` takes the entry's plan and leaves the others.
pub cancel-planned :
    (w : Wheel) (e x : ℕ)
    → IsTimed w
    → planned (cancel w e) x ≡ (if e == x then none else planned w x)
unfolding cancel rearm_earliest
cancel-planned w e x v =
    let d = detach-Detached w e (IsTimed-IsPlaced w v) in
    let left = detach w e in
    let done =
      cut-plan (e == x) (is_held w x) _ (w.when_of x) _ (w.period_of x) _
        (detach-held w e (IsTimed-IsPlaced w v) x) (d.fixed.when_of x) (d.fixed.period_of x) in
    if-elim (λ (r : Wheel). planned r x ≡ (if e == x then none else planned w x))
      (w.when_of e == w.earliest && not (is_out (w.bucket e))) (rearm_earliest left) left
      (λ h. done) (λ h. done)
  where
    cut-plan :
        (same h k : Bool) (t u p q : ℕ)
        → k ≡ (not same && h)
        → u ≡ t
        → q ≡ p
        → plan k u q ≡ (if same then none else plan h t p)
    cut-plan true h k t u p q a b c = ap (λ j. plan j u q) a
    cut-plan false h k t u p q a b c =
        ap (λ j. plan j u q) a ∙ (ap (λ j. plan h j q) b ∙ ap (plan h t) c)

set-plan :
    (same h k : Bool) (t u v p q r : ℕ)
    → k ≡ (same || h)
    → u ≡ (if same then v else t)
    → q ≡ (if same then r else p)
    → plan k u q ≡ (if same then some (v, r) else plan h t p)
set-plan true h k t u v p q r a b c =
    ap (λ j. plan j u q) a ∙ (ap (λ j. plan true j q) b ∙ ap (plan true v) c)
set-plan false h k t u v p q r a b c =
    ap (λ j. plan j u q) a ∙ (ap (λ j. plan h j q) b ∙ ap (plan h t) c)

-- On a wheel where `IsTimed` holds, `Arm` gives the entry its time and period, or takes it off for
-- the zero time, and leaves every other entry as it is armed.
pub arm_entry-planned :
    (w : Wheel) (e t period x : ℕ)
    → IsTimed w
    → planned (arm_entry w e t period) x
      ≡ (if e == x then (if t == 0 then none else some (t, period)) else planned w x)
unfolding arm_entry rearm_earliest
arm_entry-planned w e t period x v =
    let a = armed-Armed w e t period (IsTimed-IsPlaced w v) in
    let r = armed w e t period in
    let again : Bool = r.earliest == 0 || (ltb t r.earliest || w.when_of e == w.earliest) in
    let set : Wheel = if again then rearm_earliest r else r in
    let done =
      set-plan (e == x) (is_held w x) (is_held r x) (w.when_of x) (r.when_of x) t (w.period_of x)
        (r.period_of x) period (a.held x) (a.time x) (a.period_at x) in
    if-elim
      (λ (q : Wheel).
        planned q x ≡ (if e == x then (if t == 0 then none else some (t, period)) else planned w x))
      (t == 0) (cancel w e) set
      (λ z. cancel-planned w e x v ∙ choose (e == x) true (t == 0) (planned w x) z)
      (λ z.
        if-elim (λ (q : Wheel). planned q x ≡ (if e == x then some (t, period) else planned w x))
          again (rearm_earliest r) r (λ h. done) (λ h. done)
        ∙ choose (e == x) false (t == 0) (planned w x) z)
  where
    choose :
        (same b c : Bool) (p : Plan)
        → c ≡ b
        → (if same then (if b then none else some (t, period)) else p)
          ≡ (if same then (if c then none else some (t, period)) else p)
    choose same b c p f =
        ap (λ j. if same then (if j then none else some (t, period)) else p) (sym f)
