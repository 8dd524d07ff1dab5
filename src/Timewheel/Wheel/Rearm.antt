-- ===== src/Timewheel/Wheel/Rearm.antt =====
-- `rearmEarliestLocked` tracks the earliest time of all entries.
use uio.Prelude.Keys.{mem}
use uio.Prelude.{
  ℕ, ◌-◌, ◌≡◌, ◌≢◌, refl, ap, ◌∙◌, true, not, List, [], ◌∷◌, ◌==◌, if◌then◌else◌, arith, ◌≤◌, ◌<◌,
  if-elim, inl, inr,
}
use uio.Timewheel.Overflow.Order.{root_least}
use uio.Timewheel.Summary.First.{first_occupied-IsFirst}
use uio.Timewheel.Summary.{first_occupied}
use uio.Timewheel.Wheel.Earliest.{earliest_slot-Lowest, occupied, counted}
use uio.Timewheel.Wheel.Window.{Base, IsWindowed, IsLate, IsWheel, IsTimed, is_at, on_heap, is_held}
use uio.Timewheel.Wheel.{
  Wheel, Place, not_in_wheel, in_overflow, in_slot, next_slot, is_empty, is_out, earliest_slot,
  find_earliest, rearm_earliest,
}

-- The least time of the entries held, or 0 when there is none.
pub record IsMinimum (w : Wheel) (t : ℕ) : Type 0 where
  pub least : (e : ℕ) → is_held w e ≡ true → 0 < t × t ≤ w.when_of e
  pub attained : 0 < t → (e : ℕ) × (is_held w e ≡ true × w.when_of e ≡ t)

-- A held entry is in the ring or on the heap.
pub held-elim :
    (P : Type 0) (w : Wheel) (e : ℕ)
    → Base w []
    → is_held w e ≡ true
    → ((s : ℕ) → mem e (w.ring s) ≡ true → P)
    → (w.overflow.heap e ≢ 0 → P)
    → P
held-elim P w e v held ring heap = at_place (w.bucket e) refl
  where
    at_place : (p : Place) → w.bucket e ≡ p → P
    at_place not_in_wheel h = absurd (ground (arith, ap is_out h, held))
    at_place in_overflow h = heap (v.heap_of e (ap on_heap h) refl)
    at_place (in_slot s) h = ring s (v.ring_of s e (ap (λ p. is_at p s) h ∙ ground arith) refl)

pub held_heap : (w : Wheel) (e : ℕ) → Base w [] → w.overflow.heap e ≢ 0 → is_held w e ≡ true
held_heap w e v on = at_held (w.bucket e) (v.heap_in e on).0
  where
    at_held : (p : Place) → on_heap p ≡ true → not (is_out p) ≡ true
    at_held not_in_wheel a = absurd (ground (arith, a))
    at_held in_overflow a = refl
    at_held (in_slot t) a = absurd (ground (arith, a))

abbrev top_time : Wheel → ℕ
top_time w = if w.overflow.size == 0 then 0 else w.when_of (w.overflow.slots 0)

top-on : (w : Wheel) → Base w [] → 0 < w.overflow.size → w.overflow.heap (w.overflow.slots 0) ≢ 0
top-on w v pos z = absurd (ground (arith, v.heap.placed.noted 0, pos, z))

top_least :
    (w : Wheel) (e : ℕ)
    → Base w []
    → w.overflow.heap e ≢ 0
    → 0 < w.overflow.size × w.when_of (w.overflow.slots 0) ≤ w.when_of e
top_least w e v on =
    let h = v.heap.placed.held e on in
    let i = w.overflow.heap e - 1 in
    let least =
      root_least w.when_of i w.overflow i v.heap.ordered (omega (arith, h, on)) (omega arith) in
    let same = ap w.when_of h.1 in ((omega (arith, h, on)), (omega (arith, least, same)))

pub occupied-lt : (w : Wheel) (s : ℕ) → Base w [] → occupied w s ≡ true → s < w.buckets
occupied-lt w s b o = by_ring (w.ring s) refl
  where
    by_ring : (l : List ℕ) → w.ring s ≡ l → s < w.buckets
    by_ring [] h = absurd (ground (arith, ap is_empty h, o))
    by_ring (e ∷ es) h = (b.ring_in s e (ap (mem e) h ∙ ground arith)).0

find_earliest-IsMinimum :
    (w : Wheel)
    → IsWheel w
    → IsWindowed w
    → ((e : ℕ) → is_held w e ≡ true → 0 < w.when_of e)
    → IsMinimum w (find_earliest w)
find_earliest-IsMinimum w v window pos =
    let b = v.base in
    let found = first_occupied w.summary w.buckets (next_slot w) in
    let first =
      first_occupied-IsFirst w.summary (occupied w) w.buckets (next_slot w) (λ s. b.bits s)
        (λ s o. occupied-lt w s b o) (ground (arith, b.pos)) in
    let low = earliest_slot-Lowest w (top_time w) found b window pos first in
    if-elim (λ (t : ℕ). IsMinimum w t) (w.count == 0) 0 (earliest_slot w (top_time w) found)
      (λ h. record {
        least = λ e held.
            held-elim (0 < 0 × 0 ≤ w.when_of e) w e b held
              (λ s m. (let c = counted w s e b m in absurd (ground (arith, v.count, h, c))))
              (λ on. (let c = top_least w e b on in absurd (ground (arith, v.count, h, c))));
        attained = λ p. absurd (omega (arith, p));
      })
      (λ h. record {
        least = λ e held.
            held-elim _ w e b held (λ s m. low.listed s e m)
              (λ on.
                let top = top_least w e b on in
                let time =
                  pos (w.overflow.slots 0)
                    (held_heap w (w.overflow.slots 0) b (top-on w b top.0)) in
                let given = low.given (ground (arith, top.0, time)) in
                (given.0, (ground (arith, given, top))));
        attained = λ p. elim low.found [
          | inl f ↦
              (let some : 0 < w.overflow.size = ground (arith, f, p) in
                (
                  w.overflow.slots 0,
                  (held_heap w (w.overflow.slots 0) b (top-on w b some), ground (arith, f, some)),
                ))
          | inr f ↦ f
        ];
      })

pub rearmed-IsTimed :
    (w : Wheel)
    → IsWheel w
    → IsWindowed w
    → IsLate w
    → ((e : ℕ) → is_held w e ≡ true → 0 < w.when_of e)
    → IsTimed (rearm_earliest w)
unfolding rearm_earliest
rearmed-IsTimed w v window late pos =
    let m = find_earliest-IsMinimum w v window pos in
    record {
      wheel = record { base = rearm-Base w v.base; count = v.count };
      windowed = window;
      late = late;
      tracked = m.least;
      attained = m.attained;
    }
  where
    rearm-Base : (w : Wheel) → Base w [] → Base (rearm_earliest w) []
    rearm-Base w v = record {
      pos = v.pos;
      tick_pos = v.tick_pos;
      ring_in = v.ring_in;
      ring_of = v.ring_of;
      once = v.once;
      bits = v.bits;
      heap = v.heap;
      heap_in = v.heap_in;
      heap_of = v.heap_of;
      loose_once = v.loose_once;
    }
