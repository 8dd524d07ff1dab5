-- ===== src/Timewheel/Wheel/Operations.antt =====
-- `New`, `Arm` and `Cancel` keep the wheel's invariant.
use uio.Prelude.Store.{store}
use uio.Prelude.Sums.{sum_below-zero}
use uio.Prelude.{
  ℕ, ◌-◌, ◌^◌, ◌≡◌, refl, ap, sym, ◌∙◌, Bool, true, false, not, ◌&&◌, ◌||◌, Option, none, some, ltb,
  ◌==◌, if◌then◌else◌, arith, ◌≤◌, ◌<◌, if-elim, ℕ_discrete,
}
use uio.Timewheel.Wheel.Attach.{retimed, attach-IsPlaced, attach-held, attach-Fixed}
use uio.Timewheel.Wheel.Detach.{detach-Detached}
use uio.Timewheel.Wheel.Unlink.{IsPlaced, Detached}
use uio.Timewheel.Wheel.Rearm.{rearmed-IsTimed}
use uio.Timewheel.Wheel.Window.{IsTimed, is_held}
use uio.Timewheel.Wheel.{
  Wheel, is_out, tick_of, attach, detach, rearm_earliest, cancel, arm_entry, new_wheel, fresh_wheel,
}

pub IsTimed-IsPlaced : (w : Wheel) → IsTimed w → IsPlaced w
IsTimed-IsPlaced w v = record { wheel = v.wheel; windowed = v.windowed; late = v.late }

positive : (w : Wheel) → IsTimed w → (x : ℕ) → is_held w x ≡ true → 0 < w.when_of x
positive w v x h = (let t = v.tracked x h in omega (arith, t))

pub detach-held :
    (w : Wheel) (e : ℕ)
    → IsPlaced w
    → (x : ℕ) → is_held (detach w e) x ≡ (not (e == x) && is_held w x)
detach-held w e v x = ground (arith, (detach-Detached w e v).out x)

pub cancel-IsTimed : (w : Wheel) (e : ℕ) → IsTimed w → IsTimed (cancel w e)
unfolding cancel
cancel-IsTimed w e v =
    let d = detach-Detached w e (IsTimed-IsPlaced w v) in
    let held = detach-held w e (IsTimed-IsPlaced w v) in
    let left = detach w e in
    if-elim (λ (r : Wheel). IsTimed r) (w.when_of e == w.earliest && not (is_out (w.bucket e)))
      (rearm_earliest left) left
      (λ h.
        rearmed-IsTimed left d.placed.wheel d.placed.windowed d.placed.late
          (λ x k. ground (arith, positive w v x, held x, k, d.fixed.when_of x)))
      (λ h. record {
        wheel = d.placed.wheel;
        windowed = d.placed.windowed;
        late = d.placed.late;
        tracked = λ x k.
            (let t = v.tracked x (ground (arith, held x, k)) in
              omega (arith, t, d.fixed.earliest, d.fixed.when_of x));
        attained = λ p. kept d held h (v.attained (omega (arith, p, d.fixed.earliest)));
      })
  where
    kept :
        Detached w e (detach w e)
        → ((x : ℕ) → is_held (detach w e) x ≡ (not (e == x) && is_held w x))
        → (w.when_of e == w.earliest && not (is_out (w.bucket e))) ≡ false
        → (x : ℕ) × (is_held w x ≡ true × w.when_of x ≡ w.earliest)
        → (x : ℕ) × (is_held (detach w e) x ≡ true × (detach w e).when_of x ≡ (detach w e).earliest)
    kept d held h (x, (k, f)) = (
      x,
      (
        elim (ℕ_discrete e x) [
          | yes g ↦
              (let a : w.when_of e ≡ w.when_of x = ap w.when_of g in
                let b : is_out (w.bucket e) ≡ is_out (w.bucket x) =
                  ap (λ j. is_out (w.bucket j)) g in
                absurd (ground (arith, a, b, h, k, f)))
          | no ne ↦ (ground (arith, held x, ne, k))
        ],
        d.fixed.when_of x ∙ (f ∙ sym d.fixed.earliest),
      ),
    )

abbrev pub armed : Wheel → ℕ → ℕ → ℕ → Wheel
armed w e t period =
    let left = detach w e in attach (retimed left e t (store left.period_of e period)) e

-- What arming does to the entries, before the earliest is found.
pub record Armed (w : Wheel) (e t period : ℕ) (r : Wheel) : Type 0 where
  pub placed : IsPlaced r
  pub held : (x : ℕ) → is_held r x ≡ (e == x || is_held w x)
  pub time : (x : ℕ) → r.when_of x ≡ (if e == x then t else w.when_of x)
  pub period_at : (x : ℕ) → r.period_of x ≡ (if e == x then period else w.period_of x)
  pub earliest : r.earliest ≡ w.earliest

pub armed-Armed :
    (w : Wheel) (e t period : ℕ) → IsPlaced w → Armed w e t period (armed w e t period)
armed-Armed w e t period v =
    let d = detach-Detached w e v in
    let left = detach w e in
    let out : is_out (left.bucket e) ≡ true = ground (arith, d.out e) in
    let f = attach-Fixed left e t (store left.period_of e period) d.placed out in
    record {
      placed = attach-IsPlaced left e t (store left.period_of e period) d.placed out;
      held = λ x. ground (
        arith,
        attach-held left e t (store left.period_of e period) d.placed out x,
        detach-held w e v x,
      );
      time = λ x. ground (arith, f.when_of x, d.fixed.when_of x);
      period_at = λ x. ground (arith, f.period_of x, d.fixed.period_of x);
      earliest = f.earliest ∙ d.fixed.earliest;
    }

Armed-positive :
    (w r : Wheel) (e t period : ℕ)
    → IsTimed w
    → Armed w e t period r
    → 0 < t
    → (x : ℕ) → is_held r x ≡ true
    → 0 < r.when_of x
Armed-positive w r e t period v a pos x h =
    ground (arith, a.held x, a.time x, positive w v x, pos, h)

Armed-kept :
    (w r : Wheel) (e t period : ℕ)
    → IsTimed w
    → Armed w e t period r
    → (r.earliest == 0 || (ltb t r.earliest || w.when_of e == w.earliest)) ≡ false
    → IsTimed r
Armed-kept w r e t period v a h = record {
  wheel = a.placed.wheel;
  windowed = a.placed.windowed;
  late = a.placed.late;
  tracked = λ x k. elim (ℕ_discrete e x) [
    | yes f ↦ (ground (arith, a.time x, a.earliest, h, f))
    | no ne ↦
        (let t = v.tracked x (ground (arith, a.held x, ne, k)) in
          ground (arith, a.time x, a.earliest, t, ne))
  ];
  attained = λ p. kept (v.attained (omega (arith, p, a.earliest)));
}
  where
    kept :
        (x : ℕ) × (is_held w x ≡ true × w.when_of x ≡ w.earliest)
        → (x : ℕ) × (is_held r x ≡ true × r.when_of x ≡ r.earliest)
    kept (x, (k, f)) = (
      x,
      (
        (ground (arith, a.held x, k)),
        (elim (ℕ_discrete e x) [
          | yes g ↦
              (let same : w.when_of e ≡ w.when_of x = ap w.when_of g in
                absurd (ground (arith, same, h, f)))
          | no ne ↦ (ground (arith, a.time x, a.earliest, ne, f))
        ]),
      ),
    )

pub arm_entry-IsTimed : (w : Wheel) (e t period : ℕ) → IsTimed w → IsTimed (arm_entry w e t period)
unfolding arm_entry
arm_entry-IsTimed w e t period v =
    let a = armed-Armed w e t period (IsTimed-IsPlaced w v) in
    let r = armed w e t period in
    let again : Bool = r.earliest == 0 || (ltb t r.earliest || w.when_of e == w.earliest) in
    let set : Wheel = if again then rearm_earliest r else r in
    if-elim (λ (q : Wheel). IsTimed q) (t == 0) (cancel w e) set (λ h. cancel-IsTimed w e v)
      (λ z.
        if-elim (λ (q : Wheel). IsTimed q) again (rearm_earliest r) r
          (λ h.
            rearmed-IsTimed r a.placed.wheel a.placed.windowed a.placed.late
              (Armed-positive w r e t period v a (ground (arith, z))))
          (λ h. Armed-kept w r e t period v a h))

-- What `New` gives, or nothing.
abbrev pub Holds : (Wheel → Type 0) → Option Wheel → Type 0
Holds P none = 0 ≤ 0
Holds P (some w) = P w

pub fresh_wheel-IsTimed :
    (tick buckets cursor : ℕ) (has_arm : Bool)
    → 0 < tick
    → 0 < buckets
    → IsTimed (fresh_wheel tick buckets cursor has_arm)
fresh_wheel-IsTimed tick buckets cursor has_arm t b = record {
  wheel = record {
    base = record {
      pos = b;
      tick_pos = t;
      ring_in = λ s e m. absurd (ground (arith, m));
      ring_of = λ s e a l. absurd (ground (arith, a));
      once = λ s. refl;
      bits = λ s. refl;
      heap = record {
        placed = record { noted = λ i h. absurd (omega (arith, h)); held = λ e h. absurd (h refl) };
        ordered = λ c p q. absurd (omega (arith, q));
      };
      heap_in = λ e h. absurd (h refl);
      heap_of = λ e a l. absurd (ground (arith, a));
      loose_once = refl;
    };
    count = (let none = sum_below-zero (λ s. 0) buckets (λ s. refl) in omega (arith, none));
  };
  windowed = λ s e m. absurd (ground (arith, m));
  late = λ e h. absurd (h refl);
  tracked = λ e h. absurd (ground (arith, h));
  attained = λ p. absurd (omega (arith, p));
}

pub new_wheel-IsTimed :
    (tick buckets now : ℕ) (has_arm : Bool) → Holds IsTimed (new_wheel tick buckets now has_arm)
unfolding new_wheel
new_wheel-IsTimed tick buckets now has_arm =
    if-elim (λ (o : Option Wheel). Holds IsTimed o)
      (tick == 0 || (buckets == 0 || (ltb (2 ^ 31 - 1) buckets || now == 0))) none _
      (λ h. omega arith)
      (λ h.
        fresh_wheel-IsTimed tick buckets (tick_of tick now) has_arm (ground (arith, h))
          (ground (arith, h)))
