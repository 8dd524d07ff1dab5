-- ===== src/Timewheel/Advance/Run.antt =====
-- What holds of the wheel and of the due entries within `AdvanceInto`, while some entries are loose.
use uio.Prelude.Keys.{mem, distinct, mem-snoc}
use uio.Prelude.Store.{store}
use uio.Prelude.{
  ℕ, ◌+◌, ◌-◌, ◌≡◌, refl, true, false, not, ◌||◌, List, [], ◌∷◌, ◌++◌, length, leb, ◌==◌,
  if◌then◌else◌, arith, ◌≤◌, if-elim, Bool-cases, inl, inr,
}
use uio.Timewheel.Advance.{Report, report_entry, report_entries}
use uio.Timewheel.Summary.{clear_summary}
use uio.Timewheel.Wheel.Link.{
  Fixed, Fixed-trans, link-Base, link-out, link-Fixed, link-count, link-population,
}
use uio.Timewheel.Wheel.Window.{
  Base, is_at, on_heap, is_held, is_at-store, on_heap-store, is_out-store, population,
}
use uio.Timewheel.Wheel.{Wheel, not_in_wheel, is_out, link}

pub record Run (start : Wheel) (now : ℕ) (r : Report) (loose : List ℕ) : Type 0 where
  pub base : Base r.0 loose
  pub fixed : Fixed start r.0
  pub count : r.0.count ≡ population r.0 + length loose
  pub ready :
      (e : ℕ)
      → mem e r.1 ≡ true
      → start.when_of e ≤ now × is_out (r.0.bucket e) ≡ true × mem e loose ≡ false
  pub split :
      (e : ℕ) → (not (is_out (r.0.bucket e)) || (mem e loose || mem e r.1)) ≡ is_held start e
  pub once : distinct r.1 ≡ true

abbrev pub free : Wheel → ℕ → Wheel
free w e = record w { bucket = store w.bucket e not_in_wheel }

at_free :
    (w : Wheel) (e x s : ℕ)
    → is_at ((free w e).bucket x) s ≡ (if e == x then false else is_at (w.bucket x) s)
at_free w e x s = is_at-store w.bucket e not_in_wheel x s

on_free :
    (w : Wheel) (e x : ℕ)
    → on_heap ((free w e).bucket x) ≡ (if e == x then false else on_heap (w.bucket x))
on_free w e x = on_heap-store w.bucket e not_in_wheel x

out_free :
    (w : Wheel) (e x : ℕ)
    → is_out ((free w e).bucket x) ≡ (if e == x then true else is_out (w.bucket x))
out_free w e x = is_out-store w.bucket e not_in_wheel x

-- A loose entry may be freed, and then it need not count as loose.
pub free-loose :
    (w : Wheel) (e : ℕ) (loose : List ℕ) → Base w (e ∷ loose) → Base (free w e) (e ∷ loose)
free-loose w e loose v = record {
  pos = v.pos;
  tick_pos = v.tick_pos;
  once = v.once;
  bits = v.bits;
  heap = v.heap;
  loose_once = v.loose_once;
  ring_in = λ s x m. ground (arith, at_free w e x s, v.ring_in s x, m);
  ring_of = λ s x a l. ground (arith, at_free w e x s, v.ring_of s x, a, l);
  heap_in = λ x h. (let old = v.heap_in x h in ground (arith, on_free w e x, old));
  heap_of = λ x o l. v.heap_of x (ground (arith, on_free w e x, o)) l;
}

pub free-Base : (w : Wheel) (e : ℕ) (loose : List ℕ) → Base w (e ∷ loose) → Base (free w e) loose
free-Base w e loose v = record {
  pos = v.pos;
  tick_pos = v.tick_pos;
  once = v.once;
  bits = v.bits;
  heap = v.heap;
  ring_in = λ s x m. ground (arith, at_free w e x s, v.ring_in s x, m);
  ring_of = λ s x a l. ground (arith, at_free w e x s, v.ring_of s x, a, l);
  heap_in = λ x h. (let old = v.heap_in x h in ground (arith, on_free w e x, old));
  heap_of =
      λ x o l. v.heap_of x (ground (arith, on_free w e x, o)) (ground (arith, on_free w e x, o, l));
  loose_once = ground (arith, v.loose_once);
}

pub count-Base :
    (w : Wheel) (n : ℕ) (loose : List ℕ) → Base w loose → Base (record w { count = n }) loose
count-Base w n loose v = record {
  pos = v.pos;
  tick_pos = v.tick_pos;
  ring_in = v.ring_in;
  ring_of = v.ring_of;
  once = v.once;
  bits = v.bits;
  heap = v.heap;
  heap_in = v.heap_in;
  heap_of = v.heap_of;
  loose_once = v.loose_once;
}

pub free-Fixed : (w : Wheel) (e : ℕ) → Fixed w (free w e)
free-Fixed w e = record {
  tick = refl;
  buckets = refl;
  when_of = λ x. refl;
  period_of = λ x. refl;
  earliest = refl;
}

-- An entry that is handled is due or linked.
pub report_entry-Run :
    (start w : Wheel) (now : ℕ) (due : List ℕ) (e : ℕ) (loose : List ℕ)
    → Run start now (w, due) (e ∷ loose)
    → Run start now (report_entry (w, due) e now) loose
unfolding report_entry
report_entry-Run start w now due e loose v =
    if-elim (λ (r : Report). Run start now r loose) (leb (w.when_of e) now)
      (record (free w e) { count = w.count - 1 }, due ++ (e ∷ [])) (link (free w e) e, due)
      (λ h. record {
        base = count-Base (free w e) (w.count - 1) loose (free-Base w e loose v.base);
        fixed = Fixed-trans start w _ v.fixed (record {
          tick = refl;
          buckets = refl;
          when_of = λ x. refl;
          period_of = λ x. refl;
          earliest = refl;
        });
        count = ground (arith, v.count);
        ready = λ x m. ground (
          arith,
          mem-snoc x e due,
          out_free w e x,
          v.ready x,
          v.fixed.when_of x,
          v.base.loose_once,
          h,
          m,
        );
        split = λ x. ground (arith, mem-snoc x e due, out_free w e x, v.split x);
        once = distinct-snoc e due v.once (fresh v);
      })
      (λ h. record {
        base = link-Base (free w e) loose e (free-loose w e loose v.base);
        fixed =
            Fixed-trans start w _ v.fixed
              (Fixed-trans w (free w e) _ (free-Fixed w e) (link-Fixed (free w e) e));
        count = omega (
          arith,
          v.count,
          link-count (free w e) e,
          link-population (free w e) loose e (free-loose w e loose v.base),
        );
        ready = λ x m. ground (arith, link-out (free w e) e x, out_free w e x, v.ready x, m);
        split = λ x. ground (arith, link-out (free w e) e x, out_free w e x, v.split x);
        once = v.once;
      })
  where
    fresh : Run start now (w, due) (e ∷ loose) → mem e due ≡ false
    fresh v = elim (Bool-cases (mem e due)) [
      | inl m ↦ (let r = (v.ready e m).2 in absurd (ground (arith, r)))
      | inr m ↦ m
    ]

    distinct-snoc :
        (i : ℕ) (is : List ℕ)
        → distinct is ≡ true
        → mem i is ≡ false
        → distinct (is ++ (i ∷ [])) ≡ true
    distinct-snoc i [] d m = refl
    distinct-snoc i (j ∷ is) d m = ground (arith, distinct-snoc i is, mem-snoc j i is, d, m)

pub report_entries-Run :
    (start : Wheel) (now : ℕ) (loose : List ℕ) (r : Report)
    → Run start now r loose
    → Run start now (report_entries r loose now) []
unfolding report_entries
report_entries-Run start now [] r v = v
report_entries-Run start now (e ∷ es) (w, due) v =
    report_entries-Run start now es (report_entry (w, due) e now)
      (report_entry-Run start w now due e es v)

-- The entries of a slot are loose when it is cleared.
abbrev pub empty_slot : Wheel → ℕ → Wheel
empty_slot w slot = record w { ring = store w.ring slot []; summary = clear_summary w.summary slot }
