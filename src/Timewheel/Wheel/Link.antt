-- ===== src/Timewheel/Wheel/Link.antt =====
-- Where linking, freeing and unlinking leave the entries of the wheel.
use uio.Prelude.Store.{store}
use uio.Prelude.Sums.{sum_below, sum_below-change}
use uio.Prelude.{
  ℕ, ◌+◌, ◌%◌, ◌≡◌, refl, ap, sym, ◌∙◌, Bool, true, false, List, ◌∷◌, length, ltb, leb, ◌==◌,
  if◌then◌else◌, arith, ◌<◌, if-elim, ℕ_discrete,
}
use uio.Timewheel.Overflow.{heap_push}
use uio.Timewheel.Overflow.Operations.{Pushed, heap_push-Pushed}
use uio.Timewheel.Wheel.Window.{
  Base, is_at, on_heap, is_at-store, on_heap-store, is_out-store, loose-out, put, put-Base,
  population,
}
use uio.Timewheel.Wheel.{Wheel, in_overflow, in_slot, tick_of, next_slot, is_out, link}

abbrev pub slot_of : Wheel → ℕ → ℕ
slot_of w e =
    let t = tick_of w.tick (w.when_of e) in if leb t w.cursor then next_slot w else t % w.buckets

abbrev pub park : Wheel → ℕ → Wheel
park w e = record w {
  bucket = store w.bucket e in_overflow;
  overflow = heap_push w.when_of w.overflow e;
}

abbrev pub is_late : Wheel → ℕ → Bool
is_late w e = ltb (w.cursor + w.buckets) (tick_of w.tick (w.when_of e))

pub link-elim :
    (P : Wheel → Type 0) (w : Wheel) (e : ℕ)
    → (is_late w e ≡ true → P (park w e))
    → (is_late w e ≡ false → P (put w e (slot_of w e)))
    → P (link w e)
unfolding link
link-elim P w e late soon = if-elim P (is_late w e) (park w e) (put w e (slot_of w e)) late soon

pub slot_of-lt : (w : Wheel) (e : ℕ) → 0 < w.buckets → slot_of w e < w.buckets
slot_of-lt w e h = ground (arith, h)

off_heap : (w : Wheel) (loose : List ℕ) (e : ℕ) → Base w (e ∷ loose) → w.overflow.heap e ≡ 0
off_heap w loose e v = elim (ℕ_discrete (w.overflow.heap e) 0) [
  | yes z ↦ z
  | no on ↦ (let r = (v.heap_in e on).1 in absurd (ground (arith, r)))
]

park-Base : (w : Wheel) (loose : List ℕ) (e : ℕ) → Base w (e ∷ loose) → Base (park w e) loose
park-Base w loose e v = record {
  pos = v.pos;
  tick_pos = v.tick_pos;
  ring_in = λ s x m. ground (arith, at x s, loose-out w loose e s v, v.ring_in s x, m);
  ring_of = λ s x a l. ground (arith, at x s, v.ring_of s x, a, l);
  once = v.once;
  bits = v.bits;
  heap = p.heap;
  heap_in = λ x h. elim (ℕ_discrete x e) [
    | yes f ↦ ground (arith, on x, f, v.loose_once)
    | no ne ↦
        (let old = v.heap_in x (λ z. h (p.others.off x ne z)) in ground (arith, on x, ne, old))
  ];
  heap_of = λ x o l z. elim (ℕ_discrete x e) [
    | yes f ↦ p.here (ap p_heap (sym f) ∙ z)
    | no ne ↦ v.heap_of x (ground (arith, on x, ne, o)) (ground (arith, ne, l)) (p.others.on x ne z)
  ];
  loose_once = ground (arith, v.loose_once);
}
  where
    p : Pushed w.when_of w.overflow (heap_push w.when_of w.overflow e) e
    p = heap_push-Pushed w.when_of w.overflow e v.heap (off_heap w loose e v)

    p_heap : ℕ → ℕ
    p_heap = (heap_push w.when_of w.overflow e).heap

    at :
        (x s : ℕ)
        → is_at (store w.bucket e in_overflow x) s
          ≡ (if e == x then false else is_at (w.bucket x) s)
    at x s = is_at-store w.bucket e in_overflow x s

    on :
        (x : ℕ)
        → on_heap (store w.bucket e in_overflow x) ≡ (if e == x then true else on_heap (w.bucket x))
    on x = on_heap-store w.bucket e in_overflow x

pub link-Base : (w : Wheel) (loose : List ℕ) (e : ℕ) → Base w (e ∷ loose) → Base (link w e) loose
link-Base w loose e v =
    link-elim (λ r. Base r loose) w e (λ h. park-Base w loose e v)
      (λ h. put-Base w loose e (slot_of w e) v (slot_of-lt w e v.pos))

pub link-out :
    (w : Wheel) (e x : ℕ)
    → is_out ((link w e).bucket x) ≡ (if e == x then false else is_out (w.bucket x))
link-out w e x =
    link-elim (λ r. is_out (r.bucket x) ≡ (if e == x then false else is_out (w.bucket x))) w e
      (λ h. is_out-store w.bucket e in_overflow x)
      (λ h. is_out-store w.bucket e (in_slot (slot_of w e)) x)

-- The fields that linking, reporting and cutting leave alone.
pub record Fixed (w r : Wheel) : Type 0 where
  pub tick : r.tick ≡ w.tick
  pub buckets : r.buckets ≡ w.buckets
  pub when_of : (e : ℕ) → r.when_of e ≡ w.when_of e
  pub period_of : (e : ℕ) → r.period_of e ≡ w.period_of e
  pub earliest : r.earliest ≡ w.earliest

pub Fixed-refl : (w : Wheel) → Fixed w w
Fixed-refl w = record {
  tick = refl;
  buckets = refl;
  when_of = λ e. refl;
  period_of = λ e. refl;
  earliest = refl;
}

pub Fixed-trans : (w r s : Wheel) → Fixed w r → Fixed r s → Fixed w s
Fixed-trans w r s a b = record {
  tick = b.tick ∙ a.tick;
  buckets = b.buckets ∙ a.buckets;
  when_of = λ e. b.when_of e ∙ a.when_of e;
  period_of = λ e. b.period_of e ∙ a.period_of e;
  earliest = b.earliest ∙ a.earliest;
}

pub link-Fixed : (w : Wheel) (e : ℕ) → Fixed w (link w e)
link-Fixed w e =
    link-elim (λ r. Fixed w r) w e
      (λ h. record {
        tick = refl;
        buckets = refl;
        when_of = λ x. refl;
        period_of = λ x. refl;
        earliest = refl;
      })
      (λ h. record {
        tick = refl;
        buckets = refl;
        when_of = λ x. refl;
        period_of = λ x. refl;
        earliest = refl;
      })

pub link-cursor : (w : Wheel) (e : ℕ) → (link w e).cursor ≡ w.cursor
link-cursor w e = link-elim (λ r. r.cursor ≡ w.cursor) w e (λ h. refl) (λ h. refl)

pub link-count : (w : Wheel) (e : ℕ) → (link w e).count ≡ w.count
link-count w e = link-elim (λ r. r.count ≡ w.count) w e (λ h. refl) (λ h. refl)

pub store-sum :
    (ring : ℕ → List ℕ) (slot : ℕ) (l : List ℕ) (n : ℕ)
    → slot < n
    → sum_below (λ s. length (store ring slot l s)) n + length (ring slot)
      ≡ sum_below (λ s. length (ring s)) n + length l
store-sum ring slot l n h =
    let r =
      sum_below-change (λ s. length (store ring slot l s)) (λ s. length (ring s)) slot n h
        (λ j ne. ground (arith, ne)) in
    ground (arith, r)

pub link-population :
    (w : Wheel) (loose : List ℕ) (e : ℕ)
    → Base w (e ∷ loose)
    → population (link w e) ≡ population w + 1
link-population w loose e v =
    link-elim (λ r. population r ≡ population w + 1) w e
      (λ h.
        omega (arith, (heap_push-Pushed w.when_of w.overflow e v.heap (off_heap w loose e v)).size))
      (λ h. omega (
        arith,
        store-sum w.ring (slot_of w e) (e ∷ w.ring (slot_of w e)) w.buckets (slot_of-lt w e v.pos),
      ))
