-- ===== src/Timewheel/Advance/Partition.antt =====
-- What `AdvanceInto` reports: its phases put together.
use uio.Prelude.Keys.{mem}
use uio.Prelude.{
  ℕ, zero, suc, ◌+◌, ◌-◌, ◌≡◌, refl, ap, sym, ◌∙◌, Bool, true, false, ◌&&◌, List, [], ◌∷◌, ltb,
  ◌==◌, if◌then◌else◌, arith, ◌≤◌, ◌<◌, if-elim, ℕ_discrete,
}
use uio.Timewheel.Advance.Phases.{cursor-Run, sweep-Run, step_ticks-Run}
use uio.Timewheel.Advance.Run.{Run, report_entry-Run}
use uio.Timewheel.Advance.{Report, report_entry, sweep, step_ticks, catch_up, promote}
use uio.Timewheel.Overflow.Operations.{Removed, heap_pop-Removed}
use uio.Timewheel.Overflow.{heap_pop}
use uio.Timewheel.Summary.{word_count}
use uio.Timewheel.Wheel.Link.{Fixed-refl, Fixed-trans}
use uio.Timewheel.Wheel.Window.{Base, is_at, on_heap, IsWheel}
use uio.Timewheel.Wheel.{Wheel, Place, not_in_wheel, in_overflow, in_slot, is_out, tick_of}

pub Run-start : (w : Wheel) (now : ℕ) → IsWheel w → Run w now (w, []) []
Run-start w now v = record {
  base = v.base;
  fixed = Fixed-refl w;
  count = omega (arith, v.count);
  ready = λ e m. absurd (ground (arith, m));
  split = λ e. ground arith;
  once = refl;
}

pub catch_up-Run : (w : Wheel) (now : ℕ) → IsWheel w → Run w now (catch_up w now) []
unfolding catch_up
catch_up-Run w now v =
    let current = tick_of w.tick now in
    let swept =
      sweep (word_count w.buckets) 0 (record w { cursor = current - w.buckets }, []) now in
    if-elim (λ (r : Report). Run w now r []) (ltb (w.cursor + w.buckets) current)
      (record (swept.0) { cursor = current }, swept.1) (step_ticks (current - w.cursor) (w, []) now)
      (λ h. cursor-Run w swept.0 now current swept.1 [] (
        sweep-Run w now (word_count w.buckets) 0 (record w { cursor = current - w.buckets }, [])
          (cursor-Run w w now (current - w.buckets) [] [] (Run-start w now v))))
      (λ h. step_ticks-Run w now (current - w.cursor) (w, []) (Run-start w now v))

abbrev pub popped : Wheel → Wheel
popped w = record w { overflow = heap_pop w.when_of w.overflow }

popped-Base :
    (w : Wheel) → Base w [] → 0 < w.overflow.size → Base (popped w) (w.overflow.slots 0 ∷ [])
popped-Base w v pos = record {
  pos = v.pos;
  tick_pos = v.tick_pos;
  ring_in = λ s x m. (let old = v.ring_in s x m in (old.0, old.1, off s x m));
  ring_of = λ s x a l. v.ring_of s x a refl;
  once = v.once;
  bits = v.bits;
  heap = r.heap;
  heap_in = λ x h. elim (ℕ_discrete x top) [
    | yes e ↦ absurd (h (ap p_heap e ∙ r.gone))
    | no ne ↦ ((v.heap_in x (λ z. h (r.others.off x ne z))).0, (ground (arith, ne)))
  ];
  heap_of = λ x o l z. v.heap_of x o refl (r.others.on x (λ e. absurd (ground (arith, e, l))) z);
  loose_once = refl;
}
  where
    top : ℕ
    top = w.overflow.slots 0

    p_heap : ℕ → ℕ
    p_heap = (heap_pop w.when_of w.overflow).heap

    r : Removed w.when_of w.overflow (heap_pop w.when_of w.overflow) (w.overflow.slots 0)
    r = heap_pop-Removed w.when_of w.overflow v.heap pos

    at_top : on_heap (w.bucket (w.overflow.slots 0)) ≡ true
    at_top =
        (v.heap_in (w.overflow.slots 0)
          (λ z. absurd (ground (arith, v.heap.placed.noted 0, pos, z)))).0

    both : (p : Place) (s : ℕ) → on_heap p ≡ true → is_at p s ≡ true → 1 ≤ 0
    both not_in_wheel s a b = absurd (ground (arith, a))
    both in_overflow s a b = absurd (ground (arith, b))
    both (in_slot t) s a b = absurd (ground (arith, a))

    off : (s x : ℕ) → mem x (w.ring s) ≡ true → mem x (w.overflow.slots 0 ∷ []) ≡ false
    off s x m = elim (ℕ_discrete (w.overflow.slots 0) x) [
      | yes e ↦ absurd (
          omega (
            arith,
            both (w.bucket x) s (ap (λ j. on_heap (w.bucket j)) (sym e) ∙ at_top)
                (v.ring_in s x m).1,
          ))
      | no ne ↦ (ground (arith, ne))
    ]

pub popped-Run :
    (start w : Wheel) (now : ℕ) (due : List ℕ)
    → Run start now (w, due) []
    → 0 < w.overflow.size
    → Run start now (popped w, due) (w.overflow.slots 0 ∷ [])
popped-Run start w now due v pos = record {
  base = popped-Base w v.base pos;
  fixed = Fixed-trans start w _ v.fixed (record {
    tick = refl;
    buckets = refl;
    when_of = λ x. refl;
    period_of = λ x. refl;
    earliest = refl;
  });
  count = omega (arith, v.count, (heap_pop-Removed w.when_of w.overflow v.base.heap pos).size);
  ready = λ x m. ((v.ready x m).0, (v.ready x m).1, other x (v.ready x m).1);
  split = λ x. ground (arith, v.split x, out_of x);
  once = v.once;
}
  where
    held : is_out (w.bucket (w.overflow.slots 0)) ≡ false
    held =
        at_held (w.bucket (w.overflow.slots 0))
          (v.base.heap_in (w.overflow.slots 0)
            (λ z. absurd (ground (arith, v.base.heap.placed.noted 0, pos, z)))).0
      where
        at_held : (p : Place) → on_heap p ≡ true → is_out p ≡ false
        at_held not_in_wheel a = absurd (ground (arith, a))
        at_held in_overflow a = refl
        at_held (in_slot t) a = refl

    out_of : (x : ℕ) → w.overflow.slots 0 ≡ x → is_out (w.bucket x) ≡ false
    out_of x e = ap (λ j. is_out (w.bucket j)) (sym e) ∙ held

    other : (x : ℕ) → is_out (w.bucket x) ≡ true → mem x (w.overflow.slots 0 ∷ []) ≡ false
    other x o = elim (ℕ_discrete (w.overflow.slots 0) x) [
      | yes e ↦ absurd (ground (arith, out_of x e, o))
      | no ne ↦ (ground (arith, ne))
    ]

pub promote-Run :
    (start : Wheel) (now fuel : ℕ) (r : Report)
    → Run start now r []
    → Run start now (promote fuel r now) []
unfolding promote
promote-Run start now zero r v = v
promote-Run start now (suc fuel) (w, due) v =
    let e = w.overflow.slots 0 in
    let rest = promote fuel (report_entry (popped w, due) e now) now in
    let stay : Bool =
      ltb now (w.when_of e) && ltb (w.cursor + w.buckets) (tick_of w.tick (w.when_of e)) in
    let tail : Report = if stay then (w, due) else rest in
    if-elim (λ (r : Report). Run start now r []) (w.overflow.size == 0) (w, due) tail (λ h. v)
      (λ h.
        if-elim (λ (r : Report). Run start now r []) stay (w, due) rest (λ s. v)
          (λ s. promote-Run start now fuel (report_entry (popped w, due) e now) (
            report_entry-Run start (popped w) now due e []
              (popped-Run start w now due v (ground (arith, h))))))
