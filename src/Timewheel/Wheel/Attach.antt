-- ===== src/Timewheel/Wheel/Attach.antt =====
-- `attachLocked` of an entry that is on no wheel, with the time it is given first.
use uio.Prelude.Store.{store}
use uio.Prelude.{
  ℕ, ◌+◌, ◌-◌, ◌/◌, ◌%◌, ◌≡◌, ◌≢◌, refl, ap, sym, subst, true, ◌||◌, [], ◌∷◌, leb, ◌==◌,
  if◌then◌else◌, arith, ◌≤◌, ◌<◌, ℕ_discrete,
}
use uio.Timewheel.Overflow.Operations.{IsHeap, heap_push-Pushed}
use uio.Timewheel.Wheel.Unlink.{IsPlaced}
use uio.Timewheel.Wheel.Earliest.{held_in}
use uio.Timewheel.Wheel.Link.{
  Fixed, link-elim, link-Base, link-out, link-Fixed, link-count, link-population,
}
use uio.Timewheel.Wheel.Rearm.{held_heap}
use uio.Timewheel.Wheel.Ticks.{link-IsWindowed}
use uio.Timewheel.Wheel.Window.{Base, IsWindowed, IsLate, is_held}
use uio.Timewheel.Wheel.{Wheel, tick_of, is_out, link, attach}

abbrev pub retimed : Wheel → ℕ → ℕ → (ℕ → ℕ) → Wheel
retimed w e t periods = record w { when_of = store w.when_of e t; period_of = periods }

module _ (w : Wheel) (e t : ℕ) (periods : ℕ → ℕ) (v : IsPlaced w)
    (out : is_out (w.bucket e) ≡ true) where
  not_held : (x : ℕ) → is_held w x ≡ true → e ≢ x
  not_held x h f = absurd (ground (arith, ap (λ j. is_out (w.bucket j)) f, out, h))

  off : w.overflow.heap e ≡ 0
  off = elim (ℕ_discrete (w.overflow.heap e) 0) [
    | yes z ↦ z
    | no on ↦ (let h = held_heap w e v.wheel.base on in absurd (ground (arith, h, out)))
  ]

  old_time : (x : ℕ) → e ≢ x → store w.when_of e t x ≡ w.when_of x
  old_time x ne = ground (arith, ne)

  -- The heap does not read the time of an entry it does not hold.
  retimed-IsHeap : IsHeap (store w.when_of e t) w.overflow
  retimed-IsHeap = record {
    placed = v.wheel.base.heap.placed;
    ordered = λ c p q.
        (let old = v.wheel.base.heap.ordered c p q in
          let here = old_time (w.overflow.slots c) (differ c q) in
          let there =
            old_time (w.overflow.slots ((c - 1) / 2)) (differ ((c - 1) / 2) (omega (arith, q))) in
          omega (arith, old, here, there));
  }
    where
      differ : (i : ℕ) → i < w.overflow.size → e ≢ w.overflow.slots i
      differ i lt f =
          absurd (ground (arith, v.wheel.base.heap.placed.noted i, lt, ap w.overflow.heap f, off))

  retimed-Base : Base (retimed w e t periods) (e ∷ [])
  retimed-Base = record {
    pos = v.wheel.base.pos;
    tick_pos = v.wheel.base.tick_pos;
    ring_in = λ s x m.
        (let old = v.wheel.base.ring_in s x m in
          (old.0, old.1, (ground (arith, not_held x (held_in w s x v.wheel.base m)))));
    ring_of = λ s x a l. v.wheel.base.ring_of s x a refl;
    once = v.wheel.base.once;
    bits = v.wheel.base.bits;
    heap = retimed-IsHeap;
    heap_in = λ x h.
        ((v.wheel.base.heap_in x h).0, (ground (arith, not_held x (held_heap w x v.wheel.base h))));
    heap_of = λ x o l. v.wheel.base.heap_of x o refl;
    loose_once = refl;
  }

  retimed-IsWindowed : IsWindowed (retimed w e t periods)
  retimed-IsWindowed s x m =
      subst
        (λ n.
          let u = tick_of w.tick n in
          u ≤ w.cursor + w.buckets
          × s ≡ (if leb u w.cursor then (w.cursor % w.buckets + 1) % w.buckets else u % w.buckets))
        (sym (old_time x (not_held x (held_in w s x v.wheel.base m)))) (v.windowed s x m)

  retimed-IsLate : IsLate (retimed w e t periods)
  retimed-IsLate x on =
      subst (λ n. w.cursor + w.buckets < tick_of w.tick n)
        (sym (old_time x (not_held x (held_heap w x v.wheel.base on)))) (v.late x on)

  link-IsLate : IsLate (link (retimed w e t periods) e)
  link-IsLate =
      let r = retimed w e t periods in
      let p = heap_push-Pushed r.when_of r.overflow e retimed-IsHeap off in
      link-elim (λ q. IsLate q) r e
        (λ h. λ x on. elim (ℕ_discrete x e) [
          | yes f ↦
              subst (λ j. r.cursor + r.buckets < tick_of r.tick (r.when_of j)) (sym f)
                (ground (arith, h))
          | no ne ↦ retimed-IsLate x (λ z. on (p.others.off x ne z))
        ])
        (λ h. retimed-IsLate)

  attach-Base : (q : Wheel) (n : ℕ) → Base q [] → Base (record q { count = n }) []
  attach-Base q n b = record {
    pos = b.pos;
    tick_pos = b.tick_pos;
    ring_in = b.ring_in;
    ring_of = b.ring_of;
    once = b.once;
    bits = b.bits;
    heap = b.heap;
    heap_in = b.heap_in;
    heap_of = b.heap_of;
    loose_once = b.loose_once;
  }

  pub attach-IsPlaced : IsPlaced (attach (retimed w e t periods) e)
  unfolding attach
  attach-IsPlaced =
      let r = retimed w e t periods in
      record {
        wheel = record {
          base = attach-Base (link r e) ((link r e).count + 1) (link-Base r [] e retimed-Base);
          count = omega (arith, v.wheel.count, link-count r e, link-population r [] e retimed-Base);
        };
        windowed = link-IsWindowed r e retimed-IsWindowed;
        late = link-IsLate;
      }

  pub attach-held : (x : ℕ) → is_held (attach (retimed w e t periods) e) x ≡ (e == x || is_held w x)
  unfolding attach
  attach-held x = ground (arith, link-out (retimed w e t periods) e x)

  pub attach-Fixed : Fixed (retimed w e t periods) (attach (retimed w e t periods) e)
  unfolding attach
  attach-Fixed =
      let f = link-Fixed (retimed w e t periods) e in
      record {
        tick = f.tick;
        buckets = f.buckets;
        when_of = f.when_of;
        period_of = f.period_of;
        earliest = f.earliest;
      }
