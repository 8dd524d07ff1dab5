-- ===== src/Timewheel/Plan/Advances.antt =====
-- `Advance` on the table of armed times.
use uio.Prelude.Keys.{mem, distinct}
use uio.Prelude.{
  ℕ, ◌≡◌, refl, ap, ◌∙◌, Bool, true, false, not, ◌&&◌, ◌||◌, none, some, List, ltb, leb,
  if◌then◌else◌, arith, ◌<◌,
}
use uio.Timewheel.Advance.Again.{Again, again_all-Again, next_time}
use uio.Timewheel.Advance.Promote.{swept, swept-Run, swept-Cleared, swept-Rested, held-future}
use uio.Timewheel.Advance.{advance, advance_into, again_all}
use uio.Timewheel.Wheel.Unlink.{IsPlaced}
use uio.Timewheel.Wheel.Rearm.{rearmed-IsTimed}
use uio.Timewheel.Wheel.Window.{IsTimed, is_held}
use uio.Timewheel.Wheel.{Wheel, rearm_earliest}
use uio.Timewheel.Plan.{planned, plan, after, is_due}

swept-IsPlaced : (w : Wheel) (now : ℕ) → IsTimed w → IsPlaced (swept w now).0
swept-IsPlaced w now v =
    let run = swept-Run w now v.wheel in
    record {
      wheel = record { base = run.base; count = omega (arith, run.count) };
      windowed = (swept-Cleared w now v).windowed;
      late = λ e on. (swept-Rested w now v.wheel e on).1;
    }

swept-Again :
    (w : Wheel) (now : ℕ)
    → IsTimed w
    → Again now (swept w now).0 (swept w now).1 (again_all (swept w now).0 (swept w now).1 now)
swept-Again w now v =
    let run = swept-Run w now v.wheel in
    again_all-Again now (swept w now).1 (swept w now).0 (swept-IsPlaced w now v) run.once
      (λ e m. (run.ready e m).1)

-- The due entries are exactly the held ones whose time has come.
swept-mem :
    (w : Wheel) (now e : ℕ)
    → IsTimed w
    → mem e (swept w now).1 ≡ (is_held w e && leb (w.when_of e) now)
swept-mem w now e v =
    let run = swept-Run w now v.wheel in
    ground (arith, run.split e, run.ready e, held-future w now e v)

swept-held :
    (w : Wheel) (now e : ℕ)
    → IsTimed w
    → is_held (swept w now).0 e ≡ (is_held w e && ltb now (w.when_of e))
swept-held w now e v =
    let run = swept-Run w now v.wheel in
    ground (arith, run.split e, run.ready e, held-future w now e v)

-- On a wheel where `IsTimed` holds, the entries that `Advance` returns are the armed ones whose time
-- is not after `now`, each once.
pub advance-mem :
    (w : Wheel) (now : ℕ)
    → IsTimed w
    → distinct (advance w now).1 ≡ true
      × ((e : ℕ) → mem e (advance w now).1 ≡ is_due now (planned w e))
unfolding advance advance_into
advance-mem w now v =
    ((swept-Run w now v.wheel).once, (λ e. (let m = swept-mem w now e v in at_plan e m)))
  where
    by_held :
        (h : Bool) (t period : ℕ)
        → (h && leb t now) ≡ is_due now (if h then some (t, period) else none)
    by_held true t period = refl
    by_held false t period = refl

    at_plan :
        (e : ℕ)
        → {b : Bool} → b ≡ (is_held w e && leb (w.when_of e) now)
        → b ≡ is_due now (planned w e)
    at_plan e m = m ∙ by_held (is_held w e) (w.when_of e) (w.period_of e)

abbrev rung : Wheel → ℕ → Wheel
rung w now = again_all (swept w now).0 (swept w now).1 now

-- How the entries stand after the periodic ones are armed again.
rung-held :
    (w : Wheel) (now e : ℕ)
    → IsTimed w
    → is_held (rung w now) e ≡ (is_held w e && (ltb now (w.when_of e) || ltb 0 (w.period_of e)))
rung-held w now e v =
    let run = swept-Run w now v.wheel in
    ground (
      arith,
      (swept-Again w now v).held e,
      swept-held w now e v,
      swept-mem w now e v,
      run.fixed.period_of e,
    )

rung-time :
    (w : Wheel) (now e : ℕ)
    → IsTimed w
    → is_held w e ≡ true
    → (rung w now).when_of e ≡ (
        if leb (w.when_of e) now && ltb 0 (w.period_of e)
        then next_time (w.when_of e) (w.period_of e) now
        else w.when_of e)
rung-time w now e v held =
    let run = swept-Run w now v.wheel in
    by_due (swept w now).1 ((swept-Again w now v).time e) (swept-mem w now e v)
      (run.fixed.when_of e) (run.fixed.period_of e)
  where
    by_due :
        (due : List ℕ) {n t p : ℕ}
        → n ≡ (if mem e due && ltb 0 p then next_time t p now else t)
        → mem e due ≡ (is_held w e && leb (w.when_of e) now)
        → t ≡ w.when_of e
        → p ≡ w.period_of e
        → n ≡ (
            if leb (w.when_of e) now && ltb 0 (w.period_of e)
            then next_time (w.when_of e) (w.period_of e) now
            else w.when_of e)
    by_due due {n} {t} {p} a m b c =
        a
        ∙ (ap (λ d. if d && ltb 0 p then next_time t p now else t) (m ∙ (ground (arith, held)))
            ∙ (ap (λ j. if leb (w.when_of e) now && ltb 0 p then next_time j p now else j) b
                ∙ ap
                    (λ q.
                      if leb (w.when_of e) now && ltb 0 q
                      then next_time (w.when_of e) q now
                      else w.when_of e)
                    c))

rung-future :
    (w : Wheel) (now e : ℕ)
    → IsTimed w
    → is_held (rung w now) e ≡ true
    → now < (rung w now).when_of e
rung-future w now e v held =
    let h : is_held w e ≡ true = ground (arith, rung-held w now e v, held) in
    let t = rung-time w now e v h in later (rung-held w now e v) t held h
  where
    later :
        {b : Bool} {n : ℕ}
        → b ≡ (is_held w e && (ltb now (w.when_of e) || ltb 0 (w.period_of e)))
        → n ≡ (
            if leb (w.when_of e) now && ltb 0 (w.period_of e)
            then next_time (w.when_of e) (w.period_of e) now
            else w.when_of e)
        → b ≡ true
        → is_held w e ≡ true
        → now < n
    later a t b h = ground (arith, a, t, b, h)

-- On a wheel where `IsTimed` holds, it holds after `Advance`, and the time of every entry that is
-- then armed is after `now`.
pub advance-IsTimed :
    (w : Wheel) (now : ℕ)
    → IsTimed w
    → IsTimed (advance w now).0
      × ((e : ℕ) → is_held (advance w now).0 e ≡ true → now < (advance w now).0.when_of e)
unfolding advance advance_into rearm_earliest
advance-IsTimed w now v =
    let a = (swept-Again w now v).placed in
    (
      rearmed-IsTimed (rung w now) a.wheel a.windowed a.late
          (λ e h. (let f = rung-future w now e v h in omega (arith, f))),
      (λ e h. rung-future w now e v h),
    )

plan-cases :
    (a b c : Bool) (n t p : ℕ)
    → c ≡ not a
    → plan (a || b) (if c && b then n else t) p
      ≡ (if a then some (t, p) else if b then some (n, p) else none)
plan-cases true b c n t p e = ap (λ d. plan true (if d && b then n else t) p) e
plan-cases false true c n t p e = ap (λ d. plan true (if d && true then n else t) p) e
plan-cases false false c n t p e = refl

after-plan :
    (now : ℕ) (h k : Bool) (t u p q : ℕ)
    → k ≡ (h && (ltb now t || ltb 0 p))
    → (h ≡ true → u ≡ (if leb t now && ltb 0 p then next_time t p now else t))
    → q ≡ p
    → plan k u q ≡ after now (plan h t p)
after-plan now false k t u p q a b c = ap (λ j. plan j u q) a
after-plan now true k t u p q a b c =
    ap (λ j. plan j u q) a
    ∙ (ap (λ j. plan (ltb now t || ltb 0 p) j q) (b refl)
        ∙ (ap
              (λ j.
                plan (ltb now t || ltb 0 p) (if leb t now && ltb 0 p then next_time t p now else t)
                  j)
              c
            ∙ plan-cases (ltb now t) (ltb 0 p) (leb t now) (next_time t p now) t p (ground arith)))

-- `Advance` leaves the plans that come after `now`, and gives a periodic entry its next time.
pub advance-planned :
    (w : Wheel) (now e : ℕ) → IsTimed w → planned (advance w now).0 e ≡ after now (planned w e)
unfolding advance advance_into rearm_earliest
advance-planned w now e v =
    after-plan now (is_held w e) (is_held (rung w now) e) (w.when_of e) ((rung w now).when_of e)
      (w.period_of e) ((rung w now).period_of e) (rung-held w now e v) (rung-time w now e v)
      ((swept-Again w now v).period e ∙ (swept-Run w now v.wheel).fixed.period_of e)
