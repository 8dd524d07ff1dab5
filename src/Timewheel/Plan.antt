-- ===== src/Timewheel/Plan.antt =====
-- What the wheel promises: a table of the armed times, of which `Advance` takes the due ones.
pub mod Advances
pub mod Entries
use uio.Prelude.Keys.{mem, distinct}
use uio.Prelude.{
  ℕ, ◌≡◌, refl, ap, sym, ◌∙◌, Bool, true, false, not, ◌&&◌, ◌||◌, Option, none, some, List, ltb,
  leb, ◌==◌, if◌then◌else◌, arith, ◌<◌, if-elim,
}
use uio.Timewheel.Advance.Again.{Again, again_all-Again, next_time}
use uio.Timewheel.Advance.Promote.{swept, swept-Run, swept-Cleared, swept-Rested, held-future}
use uio.Timewheel.Advance.{advance, advance_into, again_all}
use uio.Timewheel.Wheel.Detach.{detach-Detached}
use uio.Timewheel.Wheel.Unlink.{IsPlaced}
use uio.Timewheel.Wheel.Operations.{IsTimed-IsPlaced, detach-held, armed, armed-Armed}
use uio.Timewheel.Wheel.Rearm.{rearmed-IsTimed}
use uio.Timewheel.Wheel.Window.{IsTimed, is_held}
use uio.Timewheel.Wheel.{Wheel, is_out, detach, rearm_earliest, cancel, arm_entry}

-- The time and the period of an armed entry.
abbrev pub Plan : Type 0
Plan = Option (ℕ × ℕ)

abbrev pub planned : Wheel → ℕ → Plan
planned w e = if is_held w e then some (w.when_of e, w.period_of e) else none

-- What is left of a plan after `now`.
abbrev pub after : ℕ → Plan → Plan
after now none = none
after now (some (t, period)) =
    if ltb now t
    then some (t, period)
    else if ltb 0 period
    then some (next_time t period now, period)
    else none

abbrev pub is_due : ℕ → Plan → Bool
is_due now none = false
is_due now (some (t, period)) = leb t now

abbrev pub plan : Bool → ℕ → ℕ → Plan
plan held t period = if held then some (t, period) else none
