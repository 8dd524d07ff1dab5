-- ===== src/Timewheel/Advance/Exact.antt =====
-- No entry whose time has passed is left on the wheel by the phases of `AdvanceInto`.
use uio.Prelude.Keys.{mem}
use uio.Prelude.{
  ℕ, ◌+◌, ◌-◌, ◌≡◌, ◌≢◌, ap, true, not, ◌&&◌, [], ltb, leb, ◌==◌, arith, ◌≤◌, ◌<◌, if-elim,
}
use uio.Timewheel.Advance.Keeps.{
  Steady, report_slot-AllIn, report_slot-keeps, IsWindowed-Steady, IsAhead, IsAhead-Steady,
  step_ticks-IsWindowed, step_ticks-cursor,
}
use uio.Timewheel.Advance.Partition.{Run-start}
use uio.Timewheel.Advance.Phases.{cursor-Run, sweep-Run, step_ticks-Run}
use uio.Timewheel.Advance.Run.{Run, free}
use uio.Timewheel.Advance.Sweep.{AllDue, sweep-Vacant}
use uio.Timewheel.Advance.{Report, report_slot, sweep, step_ticks, catch_up, report_parked}
use uio.Timewheel.Summary.{word_count}
use uio.Timewheel.Wheel.Earliest.{counted, held_in}
use uio.Timewheel.Wheel.Link.{link-elim}
use uio.Timewheel.Wheel.Ticks.{tick_of-lt}
use uio.Timewheel.Wheel.Window.{Slotted, IsWindowed, is_held, IsWheel, IsTracked}
use uio.Timewheel.Wheel.{Wheel, tick_of, next_slot}

pub record Caught (now : ℕ) (r : Report) : Type 0 where
  pub windowed : IsWindowed r.0
  pub reached : tick_of r.0.tick now ≤ r.0.cursor

gap-AllDue :
    (w : Wheel) (now : ℕ)
    → 0 < w.tick
    → IsWindowed w
    → w.cursor + w.buckets < tick_of w.tick now
    → AllDue now w
gap-AllDue w now pos v gap s e m =
    let t = (v s e m).0 in
    let lt = tick_of-lt w.tick (w.when_of e) now pos (omega (arith, t, gap)) in omega (arith, lt)

catch_up-swept :
    (w : Wheel) (now : ℕ)
    → IsWheel w
    → IsWindowed w
    → w.cursor + w.buckets < tick_of w.tick now
    → let swept =
        sweep
          (word_count w.buckets)
          0
          (record w { cursor = tick_of w.tick now - w.buckets }, [])
          now in
      Caught now (record (swept.0) { cursor = tick_of w.tick now }, swept.1)
catch_up-swept w now v window gap =
    let current = tick_of w.tick now in
    let words = word_count w.buckets in
    let back : Report = (record w { cursor = current - w.buckets }, []) in
    let started = cursor-Run w w now (current - w.buckets) [] [] (Run-start w now v) in
    let run = sweep-Run w now words 0 back started in
    let due = gap-AllDue w now v.base.tick_pos window gap in
    record {
      windowed = λ s e m.
          (let lt = (run.base.ring_in s e m).0 in
            let none =
              sweep-Vacant w now words 0 back s started due (omega arith)
                (ground (arith, lt, run.fixed.buckets)) in
            absurd (ground (arith, ap (mem e) none, m)));
      reached = (let same = ap (λ t. tick_of t now) run.fixed.tick in omega (arith, same));
    }

pub catch_up-Caught : (w : Wheel) (now : ℕ) → IsWheel w → IsWindowed w → Caught now (catch_up w now)
unfolding catch_up
catch_up-Caught w now v window =
    let current = tick_of w.tick now in
    let swept =
      sweep (word_count w.buckets) 0 (record w { cursor = current - w.buckets }, []) now in
    if-elim (λ (r : Report). Caught now r) (ltb (w.cursor + w.buckets) current)
      (record (swept.0) { cursor = current }, swept.1) (step_ticks (current - w.cursor) (w, []) now)
      (λ h. catch_up-swept w now v window (ground (arith, h)))
      (λ h. record {
        windowed = step_ticks-IsWindowed now (current - w.cursor) (w, []) window;
        reached =
            (let same =
                ap (λ t. tick_of t now)
                  (step_ticks-Run w now (current - w.cursor) (w, [])
                    (Run-start w now v)).fixed.tick in
              omega (arith, same, step_ticks-cursor now (current - w.cursor) (w, [])));
      })

-- Only the slot ahead of the cursor may hold a due entry.
off_parked :
    (w : Wheel) (now s e : ℕ)
    → 0 < w.tick
    → Slotted w s e
    → tick_of w.tick now ≤ w.cursor
    → s ≢ next_slot w
    → now < w.when_of e
off_parked w now s e pos v reached ne =
    tick_of-lt w.tick now (w.when_of e) pos (ground (arith, v, reached, ne))

held_before :
    (start : Wheel) (now : ℕ) (r : Report) (e : ℕ)
    → Run start now r []
    → is_held r.0 e ≡ true
    → is_held start e ≡ true
held_before start now r e v h = ground (arith, v.split e, h)

pub record Cleared (now : ℕ) (r : Report) : Type 0 where
  pub windowed : IsWindowed r.0
  pub reached : tick_of r.0.tick now ≤ r.0.cursor
  pub ahead : IsAhead now r.0

pub tick-Steady : (now : ℕ) → Steady now (λ r. tick_of r.tick now ≤ r.cursor)
tick-Steady now = record {
  freed = λ w e n v. v;
  linked = λ w e h v. link-elim (λ r. tick_of r.tick now ≤ r.cursor) (free w e) e (λ l. v) (λ l. v);
}

pub report_parked-Cleared :
    (start : Wheel) (now : ℕ) (r : Report)
    → IsTracked start
    → Run start now r []
    → Caught now r
    → Cleared now (report_parked r now)
unfolding report_parked
report_parked-Cleared start now (w, due) tracked v c =
    let slot = next_slot w in
    if-elim (λ (r : Report). Cleared now r)
      (ltb 0 w.count && (not (w.earliest == 0) && leb w.earliest now))
      (report_slot (w, due) slot now) (w, due)
      (λ h. record {
        windowed =
            report_slot-AllIn now IsWindowed (Slotted w) w due slot (IsWindowed-Steady now)
              (λ s e m ne. c.windowed s e m) (λ a. a) (λ a. a);
        reached =
            report_slot-keeps now (λ r. tick_of r.tick now ≤ r.cursor) w due slot (tick-Steady now)
              (λ z. c.reached) c.reached;
        ahead =
            report_slot-AllIn now (IsAhead now) (λ s e. now < w.when_of e) w due slot
              (IsAhead-Steady now)
              (λ s e m ne. off_parked w now s e v.base.tick_pos (c.windowed s e m) c.reached ne)
              (λ a. a) (λ a. a);
      })
      (λ h. record {
        windowed = c.windowed;
        reached = c.reached;
        ahead = λ s e m.
            (let t = tracked e (held_before start now (w, due) e v (held_in w s e v.base m)) in
              let some = counted w s e v.base m in
              ground (arith, t, some, h, v.fixed.earliest, v.fixed.when_of e, v.count));
      })
