-- ===== src/Timewheel/Advance/Phases.antt =====
-- The loops of `AdvanceInto`, each of which keeps what `Run` says.
use uio.Prelude.Keys.{mem, distinct}
use uio.Prelude.Store.{store, store-elim}
use uio.Prelude.{
  ℕ, zero, suc, ◌+◌, ◌*◌, ◌%◌, ◌≡◌, refl, ap, subst, ◌∙◌, true, false, not, ◌&&◌, List, [], ◌∷◌,
  ltb, leb, ◌==◌, arith, ◌≤◌, ◌<◌, if-elim, Bool-cases, inl, inr,
}
use uio.Timewheel.Advance.Run.{Run, report_entries-Run, empty_slot}
use uio.Timewheel.Advance.{
  Report, report_list, report_slot, sweep_word, sweep, step_ticks, report_parked,
}
use uio.Timewheel.Summary.{Word, trailing_zeros64, is_zero}
use uio.Timewheel.Wheel.Link.{Fixed-trans, store-sum}
use uio.Timewheel.Wheel.Window.{Base, is_at, on_heap, mem-store, put_bit-bits}
use uio.Timewheel.Wheel.{Wheel, Place, not_in_wheel, in_overflow, in_slot, is_out, next_slot}

pub cursor-Base :
    (w : Wheel) (c : ℕ) (loose : List ℕ) → Base w loose → Base (record w { cursor = c }) loose
cursor-Base w c loose v = record {
  pos = v.pos;
  tick_pos = v.tick_pos;
  ring_in = v.ring_in;
  ring_of = v.ring_of;
  once = v.once;
  bits = v.bits;
  heap = v.heap;
  heap_in = v.heap_in;
  heap_of = v.heap_of;
  loose_once = v.loose_once;
}

pub cursor-Run :
    (start w : Wheel) (now c : ℕ) (due loose : List ℕ)
    → Run start now (w, due) loose
    → Run start now (record w { cursor = c }, due) loose
cursor-Run start w now c due loose v = record {
  base = cursor-Base w c loose v.base;
  fixed = Fixed-trans start w _ v.fixed (record {
    tick = refl;
    buckets = refl;
    when_of = λ x. refl;
    period_of = λ x. refl;
    earliest = refl;
  });
  count = v.count;
  ready = v.ready;
  split = v.split;
  once = v.once;
}

-- Two slots do not share an entry.
pub one_slot :
    (w : Wheel) (loose : List ℕ) (s slot x : ℕ)
    → Base w loose
    → mem x (w.ring s) ≡ true
    → mem x (w.ring slot) ≡ true
    → slot ≡ s
one_slot w loose s slot x v m n = at_one (w.bucket x) (v.ring_in s x m).1 (v.ring_in slot x n).1
  where
    at_one : (p : Place) → is_at p s ≡ true → is_at p slot ≡ true → slot ≡ s
    at_one not_in_wheel a b = absurd (ground (arith, a))
    at_one in_overflow a b = absurd (ground (arith, a))
    at_one (in_slot t) a b = ground (arith, a, b)

pub empty_slot-Base : (w : Wheel) (slot : ℕ) → Base w [] → Base (empty_slot w slot) (w.ring slot)
empty_slot-Base w slot v = record {
  pos = v.pos;
  tick_pos = v.tick_pos;
  ring_in = λ s x m. inside s x m;
  ring_of = λ s x a l.
      (let old = v.ring_of s x a refl in
        ground (arith, mem-store w.ring slot [] s x, old, l, same s x));
  once = λ s. store-elim (λ l. distinct l ≡ true) w.ring slot s [] (λ e. refl) (λ ne. v.once s);
  bits = λ s. put_bit-bits w slot [] v.bits s;
  heap = v.heap;
  heap_in = λ x h. (let old = v.heap_in x h in (old.0, off x old.0));
  heap_of = λ x o l. v.heap_of x o refl;
  loose_once = v.once slot;
}
  where
    same : (s x : ℕ) → slot ≡ s → mem x (w.ring s) ≡ true → mem x (w.ring slot) ≡ true
    same s x e m = ap (λ j. mem x (w.ring j)) e ∙ m

    off : (x : ℕ) → on_heap (w.bucket x) ≡ true → mem x (w.ring slot) ≡ false
    off x o = elim (Bool-cases (mem x (w.ring slot))) [
      | inl m ↦ absurd (omega (arith, both (w.bucket x) o (v.ring_in slot x m).1))
      | inr m ↦ m
    ]
      where
        both : (p : Place) → on_heap p ≡ true → is_at p slot ≡ true → 1 ≤ 0
        both not_in_wheel a b = absurd (ground (arith, a))
        both in_overflow a b = absurd (ground (arith, b))
        both (in_slot t) a b = absurd (ground (arith, a))

    inside :
        (s x : ℕ)
        → mem x (store w.ring slot [] s) ≡ true
        → s < w.buckets × is_at (w.bucket x) s ≡ true × mem x (w.ring slot) ≡ false
    inside s x m =
        let here : mem x (w.ring s) ≡ true = ground (arith, mem-store w.ring slot [] s x, m) in
        let ne : (slot == s) ≡ false = ground (arith, mem-store w.ring slot [] s x, m) in
        let old = v.ring_in s x here in
        (
          old.0,
          old.1,
          (elim (Bool-cases (mem x (w.ring slot))) [
            | inl n ↦ absurd (ground (arith, one_slot w [] s slot x v here n, ne))
            | inr n ↦ n
          ]),
        )

-- A cleared slot was one of the ring's.
some_slot :
    (w : Wheel) (slot e : ℕ) (es : List ℕ) → Base w [] → w.ring slot ≡ e ∷ es → slot < w.buckets
some_slot w slot e es v l = (v.ring_in slot e (ap (mem e) l ∙ ground arith)).0

pub report_list-Run :
    (start w : Wheel) (now : ℕ) (due : List ℕ) (slot : ℕ) (l : List ℕ)
    → w.ring slot ≡ l
    → Run start now (w, due) []
    → Run start now (report_list (w, due) slot l now) []
report_list-Run start w now due slot [] h v = v
report_list-Run start w now due slot (e ∷ es) h v =
    report_entries-Run start now (e ∷ es) (empty_slot w slot, due)
      (subst (λ l. Run start now (empty_slot w slot, due) l) h
        (record {
          base = empty_slot-Base w slot v.base;
          fixed = Fixed-trans start w _ v.fixed (record {
            tick = refl;
            buckets = refl;
            when_of = λ x. refl;
            period_of = λ x. refl;
            earliest = refl;
          });
          count =
              omega (
                arith,
                v.count,
                store-sum w.ring slot [] w.buckets (some_slot w slot e es v.base h),
              );
          ready = λ x m. ((v.ready x m).0, (v.ready x m).1, loose_out x (v.ready x m).1);
          split = λ x. (let m = v.split x in ground (arith, m, held x));
          once = v.once;
        }))
  where
    held : (x : ℕ) → mem x (w.ring slot) ≡ true → is_out (w.bucket x) ≡ false
    held x m = at_held (w.bucket x) (v.base.ring_in slot x m).1
      where
        at_held : (p : Place) → is_at p slot ≡ true → is_out p ≡ false
        at_held not_in_wheel a = absurd (ground (arith, a))
        at_held in_overflow a = refl
        at_held (in_slot t) a = refl

    loose_out : (x : ℕ) → is_out (w.bucket x) ≡ true → mem x (w.ring slot) ≡ false
    loose_out x o = elim (Bool-cases (mem x (w.ring slot))) [
      | inl m ↦ absurd (ground (arith, held x m, o))
      | inr m ↦ m
    ]

pub report_slot-Run :
    (start : Wheel) (now : ℕ) (r : Report) (slot : ℕ)
    → Run start now r []
    → Run start now (report_slot r slot now) []
unfolding report_slot
report_slot-Run start now (w, due) slot v =
    report_list-Run start w now due slot (w.ring slot) refl v

pub sweep_word-Run :
    (start : Wheel) (now fuel : ℕ) (r : Report) (word : ℕ) (occupied : Word)
    → Run start now r []
    → Run start now (sweep_word fuel r word occupied now) []
unfolding sweep_word
sweep_word-Run start now zero r word occupied v = v
sweep_word-Run start now (suc fuel) r word occupied v =
    let bit = trailing_zeros64 occupied in
    let next = report_slot r (word * 64 + bit) now in
    if-elim (λ (s : Report). Run start now s []) (is_zero occupied) r
      (sweep_word fuel next word (store occupied bit false) now) (λ h. v)
      (λ h.
        sweep_word-Run start now fuel next word (store occupied bit false)
          (report_slot-Run start now r (word * 64 + bit) v))

pub sweep-Run :
    (start : Wheel) (now words word : ℕ) (r : Report)
    → Run start now r []
    → Run start now (sweep words word r now) []
unfolding sweep
sweep-Run start now zero word r v = v
sweep-Run start now (suc words) word r v =
    sweep-Run start now words (suc word) (sweep_word 64 r word (r.0.summary word) now)
      (sweep_word-Run start now 64 r word (r.0.summary word) v)

pub step_ticks-Run :
    (start : Wheel) (now steps : ℕ) (r : Report)
    → Run start now r []
    → Run start now (step_ticks steps r now) []
unfolding step_ticks
step_ticks-Run start now zero r v = v
step_ticks-Run start now (suc steps) (w, due) v =
    let c = w.cursor + 1 in
    step_ticks-Run start now steps (report_slot (record w { cursor = c }, due) (c % w.buckets) now)
      (report_slot-Run start now (record w { cursor = c }, due) (c % w.buckets)
        (cursor-Run start w now c due [] v))

pub report_parked-Run :
    (start : Wheel) (now : ℕ) (r : Report)
    → Run start now r []
    → Run start now (report_parked r now) []
unfolding report_parked
report_parked-Run start now (w, due) v =
    if-elim (λ (r : Report). Run start now r [])
      (ltb 0 w.count && (not (w.earliest == 0) && leb w.earliest now))
      (report_slot (w, due) (next_slot w) now) (w, due)
      (λ h. report_slot-Run start now (w, due) (next_slot w) v) (λ h. v)
