-- ===== src/Tests/Timewheel.antt =====
-- Runs of the timer wheel, and the wheel's theorems at them.
use uio.Prelude.Keys.{mem, distinct}
use uio.Prelude.{ℕ, ◌+◌, ◌-◌, ◌≡◌, refl, true, false, some, List, [], ◌∷◌, arith, ◌<◌}
use uio.Timewheel.Advance.{
  advance, advance_into, again_all, again, promote, report_parked, catch_up, step_ticks, sweep,
  sweep_word, report_slot, report_entries, report_entry,
}
use uio.Timewheel.Overflow.Operations.{
  IsHeap, Pushed, Removed, heap_push-Pushed, heap_remove-Removed,
}
use uio.Timewheel.Overflow.{
  Overflow, empty_overflow, heap_push, heap_pop, heap_remove, heap_up, heap_down, up, down,
}
use uio.Timewheel.Plan.Advances.{advance-mem, advance-IsTimed}
use uio.Timewheel.Plan.Entries.{arm_entry-planned}
use uio.Timewheel.Plan.{planned, is_due}
use uio.Timewheel.Runs.{
  Call, arm_call, cancel_call, advance_call, run_all, report_total, run_all-IsTimed,
  run_all-planned, report_total-due_total,
}
use uio.Timewheel.Summary.First.{IsFirst, first_occupied-IsFirst}
use uio.Timewheel.Summary.{first_occupied, trailing_zeros64}
use uio.Timewheel.Wheel.Earliest.{occupied}
use uio.Timewheel.Wheel.Operations.{fresh_wheel-IsTimed}
use uio.Timewheel.Wheel.Rearm.{occupied-lt}
use uio.Timewheel.Wheel.Window.{IsTimed, is_held}
use uio.Timewheel.Wheel.{
  Wheel, unix_epoch, fresh_wheel, tick_of, link, attach, unlink, detach_from, rearm_earliest,
  cancel, arm_entry,
}

abbrev start_wheel : Wheel
start_wheel = fresh_wheel 10 4 0 false

start_wheel-IsTimed : IsTimed start_wheel
start_wheel-IsTimed = fresh_wheel-IsTimed 10 4 0 false (omega arith) (omega arith)

-- One entry within the window, and a periodic one past it.
abbrev first_calls : List Call
first_calls =
    arm_call 1 (unix_epoch + 15) 0
    ∷ arm_call 2 (unix_epoch + 95) 20
    ∷ arm_call 3 (unix_epoch + 33) 0
    ∷ []

abbrev busy_wheel : Wheel
busy_wheel = run_all start_wheel first_calls

busy_wheel-IsTimed : IsTimed busy_wheel
busy_wheel-IsTimed = run_all-IsTimed start_wheel first_calls start_wheel-IsTimed

abbrev calls : List Call
calls =
    arm_call 1 (unix_epoch + 15) 0
    ∷ arm_call 2 (unix_epoch + 95) 20
    ∷ arm_call 3 (unix_epoch + 33) 0
    ∷ advance_call (unix_epoch + 20)
    ∷ cancel_call 3
    ∷ advance_call (unix_epoch + 100)
    ∷ []

run_all_reports : (advance busy_wheel (unix_epoch + 20)).1 ≡ 1 ∷ []
unfolding run_all arm_entry cancel rearm_earliest detach_from unlink attach link tick_of advance
    advance_into again_all again promote report_parked catch_up step_ticks sweep sweep_word
    report_slot report_entries report_entry heap_push heap_pop heap_remove heap_up heap_down up down
    first_occupied trailing_zeros64
run_all_reports = refl

run_all-planned_example : planned (run_all start_wheel calls) 2 ≡ some (unix_epoch + 115, 20)
run_all-planned_example = run_all-planned start_wheel calls 2 start_wheel-IsTimed

report_total-due_total_example : report_total start_wheel calls 2 ≡ 1
report_total-due_total_example = report_total-due_total start_wheel calls 2 start_wheel-IsTimed

run_all-IsTimed_example : IsTimed (run_all start_wheel calls)
run_all-IsTimed_example = run_all-IsTimed start_wheel calls start_wheel-IsTimed

advance-mem_example :
    distinct (advance busy_wheel (unix_epoch + 40)).1 ≡ true
    × ((e : ℕ)
        → mem e (advance busy_wheel (unix_epoch + 40)).1
          ≡ is_due (unix_epoch + 40) (planned busy_wheel e))
advance-mem_example = advance-mem busy_wheel (unix_epoch + 40) busy_wheel-IsTimed

advance-IsTimed_example :
    IsTimed (advance busy_wheel (unix_epoch + 40)).0
    × ((e : ℕ)
        → is_held (advance busy_wheel (unix_epoch + 40)).0 e ≡ true
        → unix_epoch + 40 < (advance busy_wheel (unix_epoch + 40)).0.when_of e)
advance-IsTimed_example = advance-IsTimed busy_wheel (unix_epoch + 40) busy_wheel-IsTimed

arm_entry_run : planned (arm_entry busy_wheel 3 (unix_epoch + 70) 5) 3 ≡ some (unix_epoch + 70, 5)
arm_entry_run = arm_entry-planned busy_wheel 3 (unix_epoch + 70) 5 3 busy_wheel-IsTimed

first_occupied-IsFirst_example :
    IsFirst
      (occupied busy_wheel)
      busy_wheel.buckets
      0
      (first_occupied busy_wheel.summary busy_wheel.buckets 0)
first_occupied-IsFirst_example =
    first_occupied-IsFirst busy_wheel.summary (occupied busy_wheel) busy_wheel.buckets 0
      busy_wheel-IsTimed.wheel.base.bits
      (λ s o. occupied-lt busy_wheel s busy_wheel-IsTimed.wheel.base o)
      busy_wheel-IsTimed.wheel.base.pos

abbrev time_of : ℕ → ℕ
time_of e = 10 - e

empty_overflow-IsHeap : IsHeap time_of empty_overflow
empty_overflow-IsHeap = record {
  placed = record { noted = λ i h. absurd (omega (arith, h)); held = λ e h. absurd (h refl) };
  ordered = λ c p q. absurd (omega (arith, q));
}

abbrev one_heap : Overflow
one_heap = heap_push time_of empty_overflow 1

one_heap-Pushed : Pushed time_of empty_overflow one_heap 1
one_heap-Pushed = heap_push-Pushed time_of empty_overflow 1 empty_overflow-IsHeap refl

abbrev two_heap : Overflow
two_heap = heap_push time_of one_heap 2

two_heap-Pushed : Pushed time_of one_heap two_heap 2
two_heap-Pushed =
    heap_push-Pushed time_of one_heap 2 one_heap-Pushed.heap
      (one_heap-Pushed.others.off 2 (λ h. absurd (omega (arith, h))) refl)

heap_remove-Removed_example :
    (heap_remove time_of two_heap 2).1 ≡ true
    × Removed time_of two_heap (heap_remove time_of two_heap 2).0 2
heap_remove-Removed_example =
    heap_remove-Removed time_of two_heap 2 two_heap-Pushed.heap two_heap-Pushed.here
