-- ===== src/Timewheel/Advance.antt =====
-- internal/timewheel/wheel.go: `AdvanceInto`, with the loops that report and re-arm entries.
pub mod Run
pub mod Phases
pub mod Partition
pub mod Keeps
pub mod Sweep
pub mod Exact
pub mod Promote
pub mod Again
use uio.Prelude.Store.{store}
use uio.Prelude.{
  ℕ, zero, suc, ◌+◌, ◌-◌, ◌*◌, ◌%◌, Bool, true, false, not, ◌&&◌, List, [], ◌∷◌, ◌++◌, ltb, leb,
  ◌==◌, if◌then◌else◌,
}
use uio.Timewheel.Overflow.{heap_pop}
use uio.Timewheel.Summary.{Word, clear_summary, trailing_zeros64, is_zero, word_count}
use uio.Timewheel.Wheel.{
  Wheel, Place, not_in_wheel, tick_of, next_slot, link, attach, rearm_earliest,
}

-- The wheel, and the entries that are due.
abbrev pub Report : Type 0
Report = Wheel × List ℕ

-- An entry cut from its slot is due, or it is linked again.
unfoldable pub report_entry : Report → ℕ → ℕ → Report
report_entry (w, due) e now =
    let free = record w { bucket = store w.bucket e not_in_wheel } in
    if leb (w.when_of e) now
    then (record free { count = w.count - 1 }, due ++ (e ∷ []))
    else (link free e, due)

unfoldable pub report_entries : Report → List ℕ → ℕ → Report
report_entries r [] now = r
report_entries r (e ∷ es) now = report_entries (report_entry r e now) es now

abbrev pub report_list : Report → ℕ → List ℕ → ℕ → Report
report_list r slot [] now = r
report_list (w, due) slot (e ∷ es) now =
    report_entries
      (record w { ring = store w.ring slot []; summary = clear_summary w.summary slot }, due)
      (e ∷ es) now

unfoldable pub report_slot : Report → ℕ → ℕ → Report
report_slot r slot now = report_list r slot (r.0.ring slot) now

-- The slots of one word of the summary, on fuel.
unfoldable pub sweep_word : ℕ → Report → ℕ → Word → ℕ → Report
sweep_word zero r word occupied now = r
sweep_word (suc fuel) r word occupied now =
    let bit = trailing_zeros64 occupied in
    let rest =
      sweep_word fuel (report_slot r (word * 64 + bit) now) word (store occupied bit false) now in
    if is_zero occupied then r else rest

unfoldable pub sweep : ℕ → ℕ → Report → ℕ → Report
sweep zero word r now = r
sweep (suc words) word r now =
    sweep words (suc word) (sweep_word 64 r word (r.0.summary word) now) now

-- `steps` ticks, one slot each.
unfoldable pub step_ticks : ℕ → Report → ℕ → Report
step_ticks zero r now = r
step_ticks (suc steps) (w, due) now =
    let cursor = w.cursor + 1 in
    step_ticks steps (report_slot (record w { cursor = cursor }, due) (cursor % w.buckets) now) now

-- A gap longer than the window passes over every slot.
unfoldable pub catch_up : Wheel → ℕ → Report
catch_up w now =
    let current = tick_of w.tick now in
    let (swept, due) =
      sweep (word_count w.buckets) 0 (record w { cursor = current - w.buckets }, []) now in
    if ltb (w.cursor + w.buckets) current
    then (record swept { cursor = current }, due)
    else step_ticks (current - w.cursor) (w, []) now

-- The parked entries, if the earliest of all is due.
unfoldable pub report_parked : Report → ℕ → Report
report_parked (w, due) now =
    if ltb 0 w.count && (not (w.earliest == 0) && leb w.earliest now)
    then report_slot (w, due) (next_slot w) now
    else (w, due)

-- The heap's entries that are due or come within the window, on fuel.
unfoldable pub promote : ℕ → Report → ℕ → Report
promote zero r now = r
promote (suc fuel) (w, due) now =
    let e = w.overflow.slots 0 in
    let popped = record w { overflow = heap_pop w.when_of w.overflow } in
    let rest = promote fuel (report_entry (popped, due) e now) now in
    if w.overflow.size == 0
    then (w, due)
    else if ltb now (w.when_of e) && ltb (w.cursor + w.buckets) (tick_of w.tick (w.when_of e))
    then (w, due)
    else rest

-- A periodic entry that was due is armed again.
unfoldable pub again : Wheel → ℕ → ℕ → Wheel
again w e now =
    let period = w.period_of e in
    let t = w.when_of e + period in
    let t' = if leb t now then now + period else t in
    if ltb 0 period then attach (record w { when_of = store w.when_of e t' }) e else w

unfoldable pub again_all : Wheel → List ℕ → ℕ → Wheel
again_all w [] now = w
again_all w (e ∷ es) now = again_all (again w e now) es now

-- `AdvanceInto`: the entries that are due come behind those that were given.
unfoldable pub advance_into : Wheel → ℕ → List ℕ → Wheel × List ℕ
advance_into w now given =
    let r = report_parked (catch_up w now) now in
    let (left, due) = promote r.0.overflow.size r now in
    (rearm_earliest (again_all left due now), given ++ due)

unfoldable pub advance : Wheel → ℕ → Wheel × List ℕ
advance w now = advance_into w now []
