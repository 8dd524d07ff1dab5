-- ===== src/Timewheel/Advance/Promote.antt =====
-- The heap's part of `AdvanceInto`: on enough fuel, what it leaves is past the window and in the future.
use uio.Prelude.{
  ℕ, zero, suc, ◌+◌, ◌-◌, ◌≡◌, ◌≢◌, refl, ap, ◌∙◌, Bool, true, false, not, ◌&&◌, List, [], ◌∷◌,
  ◌++◌, ltb, leb, ◌==◌, if◌then◌else◌, arith, ◌≤◌, ◌<◌, if-elim,
}
use uio.Timewheel.Advance.Exact.{Cleared, catch_up-Caught, report_parked-Cleared, tick-Steady}
use uio.Timewheel.Advance.Keeps.{
  Steady, report_entry-keeps, IsWindowed-Steady, IsAhead, IsAhead-Steady,
}
use uio.Timewheel.Advance.Partition.{popped, popped-Run, promote-Run, catch_up-Run}
use uio.Timewheel.Advance.Phases.{report_parked-Run}
use uio.Timewheel.Advance.Run.{Run, free, report_entry-Run}
use uio.Timewheel.Advance.{Report, report_entry, catch_up, report_parked, promote}
use uio.Timewheel.Overflow.Operations.{heap_pop-Removed}
use uio.Timewheel.Overflow.Order.{root_least}
use uio.Timewheel.Wheel.Link.{is_late, link-elim}
use uio.Timewheel.Wheel.Ticks.{tick_of_mono}
use uio.Timewheel.Wheel.Window.{Base, IsWindowed, is_at, is_held, on_heap, IsWheel, IsTimed}
use uio.Timewheel.Wheel.{Wheel, Place, not_in_wheel, in_overflow, in_slot, tick_of, link, is_out}

promote-keeps :
    (now fuel : ℕ) (P : Wheel → Type 0) (r : Report)
    → Steady now P
    → ((w : Wheel) → P w → P (popped w))
    → P r.0
    → P (promote fuel r now).0
unfolding promote
promote-keeps now zero P r k p v = v
promote-keeps now (suc fuel) P (w, due) k p v =
    let e = w.overflow.slots 0 in
    let rest = promote fuel (report_entry (popped w, due) e now) now in
    let stay : Bool =
      ltb now (w.when_of e) && ltb (w.cursor + w.buckets) (tick_of w.tick (w.when_of e)) in
    let tail : Report = if stay then (w, due) else rest in
    if-elim (λ (r : Report). P r.0) (w.overflow.size == 0) (w, due) tail (λ h. v)
      (λ h.
        if-elim (λ (r : Report). P r.0) stay (w, due) rest (λ s. v)
          (λ s.
            promote-keeps now fuel P (report_entry (popped w, due) e now) k p
              (report_entry-keeps now P (popped w, due) e k (p w v))))

pub promote-Cleared : (now fuel : ℕ) (r : Report) → Cleared now r → Cleared now (promote fuel r now)
promote-Cleared now fuel r c = record {
  windowed = promote-keeps now fuel IsWindowed r (IsWindowed-Steady now) (λ w v. v) c.windowed;
  reached =
      promote-keeps now fuel (λ r. tick_of r.tick now ≤ r.cursor) r (tick-Steady now) (λ w v. v)
        c.reached;
  ahead = promote-keeps now fuel (IsAhead now) r (IsAhead-Steady now) (λ w v. v) c.ahead;
}

-- An entry that is due, or not late, does not go back on the heap.
report_entry-size :
    (now : ℕ) (w : Wheel) (due : List ℕ) (e : ℕ)
    → (ltb now (w.when_of e) && is_late w e) ≡ false
    → (report_entry (w, due) e now).0.overflow.size ≡ w.overflow.size
unfolding report_entry
report_entry-size now w due e go =
    if-elim (λ (r : Report). r.0.overflow.size ≡ w.overflow.size) (leb (w.when_of e) now)
      (record (free w e) { count = w.count - 1 }, due ++ (e ∷ [])) (link (free w e) e, due)
      (λ h. refl)
      (λ h.
        link-elim (λ r. r.overflow.size ≡ w.overflow.size) (free w e) e
          (λ l. absurd (ground (arith, go, h, l))) (λ l. refl))

-- The heap holds future entries past the window.
abbrev pub Rested : ℕ → Wheel → Type 0
Rested now w =
    (e : ℕ)
    → w.overflow.heap e ≢ 0
    → now < w.when_of e × w.cursor + w.buckets < tick_of w.tick (w.when_of e)

top-Rested :
    (w : Wheel) (now : ℕ)
    → Base w []
    → (ltb now (w.when_of (w.overflow.slots 0)) && is_late w (w.overflow.slots 0)) ≡ true
    → Rested now w
top-Rested w now v stay e on =
    let h = v.heap.placed.held e on in
    let i = w.overflow.heap e - 1 in
    let least =
      root_least w.when_of i w.overflow i v.heap.ordered (omega (arith, h, on)) (omega arith) in
    let same = ap w.when_of h.1 in
    let le : w.when_of (w.overflow.slots 0) ≤ w.when_of e = omega (arith, least, same) in
    let ticks = tick_of_mono w.tick (w.when_of (w.overflow.slots 0)) (w.when_of e) v.tick_pos le in
    ground (arith, stay, le, ticks)

pub promote-Rested :
    (start : Wheel) (now fuel : ℕ) (r : Report)
    → Run start now r []
    → r.0.overflow.size ≤ fuel
    → Rested now (promote fuel r now).0
unfolding promote
promote-Rested start now zero (w, due) v le =
    λ e on. absurd (ground (arith, v.base.heap.placed.held e on, on, le))
promote-Rested start now (suc fuel) (w, due) v le =
    let e = w.overflow.slots 0 in
    let rest = promote fuel (report_entry (popped w, due) e now) now in
    let stay : Bool =
      ltb now (w.when_of e) && ltb (w.cursor + w.buckets) (tick_of w.tick (w.when_of e)) in
    let tail : Report = if stay then (w, due) else rest in
    if-elim (λ (r : Report). Rested now r.0) (w.overflow.size == 0) (w, due) tail
      (λ h. λ x on. absurd (ground (arith, v.base.heap.placed.held x on, on, h)))
      (λ h.
        if-elim (λ (r : Report). Rested now r.0) stay (w, due) rest (λ s. top-Rested w now v.base s)
          (λ s.
            let some : 0 < w.overflow.size = ground (arith, h) in
            promote-Rested start now fuel (report_entry (popped w, due) e now)
              (report_entry-Run start (popped w) now due e [] (popped-Run start w now due v some))
              (omega (
                arith,
                le,
                report_entry-size now (popped w) due e s,
                (heap_pop-Removed w.when_of w.overflow v.base.heap some).size,
              ))))

-- What the phases leave.
abbrev pub swept : Wheel → ℕ → Report
swept w now = let r = report_parked (catch_up w now) now in promote r.0.overflow.size r now

parked-Run : (w : Wheel) (now : ℕ) → IsWheel w → Run w now (report_parked (catch_up w now) now) []
parked-Run w now v = report_parked-Run w now (catch_up w now) (catch_up-Run w now v)

pub swept-Run : (w : Wheel) (now : ℕ) → IsWheel w → Run w now (swept w now) []
swept-Run w now v =
    let r = report_parked (catch_up w now) now in
    promote-Run w now r.0.overflow.size r (parked-Run w now v)

pub swept-Cleared : (w : Wheel) (now : ℕ) → IsTimed w → Cleared now (swept w now)
swept-Cleared w now v =
    let r = report_parked (catch_up w now) now in
    promote-Cleared now r.0.overflow.size r (
      report_parked-Cleared w now (catch_up w now) v.tracked (catch_up-Run w now v.wheel)
        (catch_up-Caught w now v.wheel v.windowed))

pub swept-Rested : (w : Wheel) (now : ℕ) → IsWheel w → Rested now (swept w now).0
swept-Rested w now v =
    let r = report_parked (catch_up w now) now in
    promote-Rested w now r.0.overflow.size r (parked-Run w now v) (omega arith)

-- Every entry that is still held is in the future.
pub held-future :
    (w : Wheel) (now e : ℕ) → IsTimed w → is_held (swept w now).0 e ≡ true → now < w.when_of e
held-future w now e v held =
    let r = (swept w now).0 in
    let run = swept-Run w now v.wheel in
    let later =
      at_place r run.base (r.bucket e) refl held (swept-Cleared w now v).ahead
        (swept-Rested w now v.wheel) in
    omega (arith, later, run.fixed.when_of e)
  where
    at_place :
        (r : Wheel)
        → Base r []
        → (p : Place) → r.bucket e ≡ p
        → not (is_out (r.bucket e)) ≡ true
        → IsAhead now r
        → Rested now r
        → now < r.when_of e
    at_place r b not_in_wheel h held a q = absurd (ground (arith, ap is_out h, held))
    at_place r b in_overflow h held a q = (q e (b.heap_of e (ap on_heap h) refl)).0
    at_place r b (in_slot s) h held a q =
        a s e (b.ring_of s e (ap (λ p. is_at p s) h ∙ ground arith) refl)
