-- ===== src/Timewheel/Wheel/Detach.antt =====
-- `detachLocked` takes one entry off the wheel and leaves the others where they are.
use uio.Prelude.Store.{store}
use uio.Prelude.{
  ℕ, ◌-◌, ◌≡◌, refl, ap, sym, ◌∙◌, true, false, not, [], ◌==◌, if◌then◌else◌, arith, if-elim,
  ℕ_discrete,
}
use uio.Timewheel.Overflow.Operations.{Removed, heap_remove-Removed}
use uio.Timewheel.Overflow.{heap_remove}
use uio.Timewheel.Wheel.Link.{Fixed-refl}
use uio.Timewheel.Wheel.Window.{Base, is_at, on_heap, is_at-store, on_heap-store, is_out-store}
use uio.Timewheel.Wheel.{
  Wheel, Place, not_in_wheel, in_overflow, in_slot, is_out, unlink, detach_from, detach,
}
use uio.Timewheel.Wheel.Unlink.{IsPlaced, Detached, cut_out-Detached}

abbrev lifted : Wheel → ℕ → Wheel
lifted w e = record w {
  bucket = store w.bucket e not_in_wheel;
  overflow = (heap_remove w.when_of w.overflow e).0;
  count = w.count - 1;
}

lifted-Base :
    (w : Wheel) (e : ℕ)
    → Base w []
    → w.bucket e ≡ in_overflow
    → Removed w.when_of w.overflow (heap_remove w.when_of w.overflow e).0 e
    → Base (lifted w e) []
lifted-Base w e v b r = record {
  pos = v.pos;
  tick_pos = v.tick_pos;
  ring_in = λ s x m.
      (let old = v.ring_in s x m in (old.0, (ground (arith, at x s, old.1, off x s)), refl));
  ring_of = λ s x a l. v.ring_of s x (ground (arith, at x s, a)) refl;
  once = v.once;
  bits = v.bits;
  heap = r.heap;
  heap_in = λ x h. elim (ℕ_discrete x e) [
    | yes f ↦ absurd (h (ap p_heap f ∙ r.gone))
    | no ne ↦ ((ground (arith, on x, ne, (v.heap_in x (λ z. h (r.others.off x ne z))).0)), refl)
  ];
  heap_of = λ x o l z.
      v.heap_of x (ground (arith, on x, o)) refl
        (r.others.on x (λ f. absurd (ground (arith, on x, f, o))) z);
  loose_once = refl;
}
  where
    p_heap : ℕ → ℕ
    p_heap = (heap_remove w.when_of w.overflow e).0.heap

    at :
        (x s : ℕ)
        → is_at (store w.bucket e not_in_wheel x) s
          ≡ (if e == x then false else is_at (w.bucket x) s)
    at x s = is_at-store w.bucket e not_in_wheel x s

    on :
        (x : ℕ)
        → on_heap (store w.bucket e not_in_wheel x)
          ≡ (if e == x then false else on_heap (w.bucket x))
    on x = on_heap-store w.bucket e not_in_wheel x

    off : (x s : ℕ) → e ≡ x → is_at (w.bucket x) s ≡ false
    off x s f = ap (λ j. is_at (w.bucket j) s) (sym f) ∙ ap (λ p. is_at p s) b

lifted-Detached :
    (w : Wheel) (e : ℕ)
    → IsPlaced w
    → w.bucket e ≡ in_overflow
    → Removed w.when_of w.overflow (heap_remove w.when_of w.overflow e).0 e
    → Detached w e (lifted w e)
lifted-Detached w e v b r = record {
  placed = record {
    wheel = record {
      base = lifted-Base w e v.wheel.base b r;
      count = omega (arith, v.wheel.count, r.size);
    };
    windowed = v.windowed;
    late = λ x on. elim (ℕ_discrete x e) [
      | yes f ↦ absurd (on (ap p_heap f ∙ r.gone))
      | no ne ↦ v.late x (λ z. on (r.others.off x ne z))
    ];
  };
  out = λ x. is_out-store w.bucket e not_in_wheel x;
  fixed = record {
    tick = refl;
    buckets = refl;
    when_of = λ x. refl;
    period_of = λ x. refl;
    earliest = refl;
  };
}
  where
    p_heap : ℕ → ℕ
    p_heap = (heap_remove w.when_of w.overflow e).0.heap

-- The three places an entry may be in.
detach_from-Detached :
    (w : Wheel) (e : ℕ) (p : Place) → IsPlaced w → w.bucket e ≡ p → Detached w e (detach_from w e p)
unfolding detach_from unlink
detach_from-Detached w e not_in_wheel v b = record {
  placed = v;
  out = λ x. elim (ℕ_discrete e x) [
    | yes f ↦
        (let o : is_out (w.bucket x) ≡ true = ap (λ j. is_out (w.bucket j)) (sym f) ∙ ap is_out b in
          ground (arith, o, f))
    | no ne ↦ (ground (arith, ne))
  ];
  fixed = Fixed-refl w;
}
detach_from-Detached w e in_overflow v b =
    let on = v.wheel.base.heap_of e (ap on_heap b) refl in
    let r = heap_remove-Removed w.when_of w.overflow e v.wheel.base.heap on in
    if-elim (λ (q : Wheel). Detached w e q) (not (heap_remove w.when_of w.overflow e).1)
      (record w { bucket = store w.bucket e not_in_wheel }) (lifted w e)
      (λ h. absurd (ground (arith, h, r.0))) (λ h. lifted-Detached w e v b r.1)
detach_from-Detached w e (in_slot slot) v b = cut_out-Detached w slot e v b

pub detach-Detached : (w : Wheel) (e : ℕ) → IsPlaced w → Detached w e (detach w e)
detach-Detached w e v = detach_from-Detached w e (w.bucket e) v refl
