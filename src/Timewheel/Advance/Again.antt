-- ===== src/Timewheel/Advance/Again.antt =====
-- The periodic entries that were due are armed again, each for a time after `now`.
use uio.Prelude.Keys.{mem, distinct}
use uio.Prelude.Store.{store}
use uio.Prelude.{
  ℕ, ◌+◌, ◌≡◌, refl, ap, ◌∙◌, Bool, true, false, ◌&&◌, ◌||◌, List, [], ◌∷◌, ltb, leb, ◌==◌,
  if◌then◌else◌, arith, if-elim, Bool-cases, inl, inr, ℕ_discrete,
}
use uio.Timewheel.Advance.{again, again_all}
use uio.Timewheel.Wheel.Attach.{retimed, attach-IsPlaced, attach-held, attach-Fixed}
use uio.Timewheel.Wheel.Unlink.{IsPlaced}
use uio.Timewheel.Wheel.Window.{is_held}
use uio.Timewheel.Wheel.{Wheel, is_out, attach}

-- When a periodic entry is due next: no burst follows a late call.
abbrev pub next_time : ℕ → ℕ → ℕ → ℕ
next_time t period now = if leb (t + period) now then now + period else t + period

pub record Again (now : ℕ) (w : Wheel) (es : List ℕ) (r : Wheel) : Type 0 where
  pub placed : IsPlaced r
  pub held : (x : ℕ) → is_held r x ≡ (is_held w x || (mem x es && ltb 0 (w.period_of x)))
  pub time :
      (x : ℕ)
      → r.when_of x ≡ (
          if mem x es && ltb 0 (w.period_of x)
          then next_time (w.when_of x) (w.period_of x) now
          else w.when_of x)
  pub period : (x : ℕ) → r.period_of x ≡ w.period_of x

again-Again :
    (now : ℕ) (w : Wheel) (e : ℕ)
    → IsPlaced w
    → is_out (w.bucket e) ≡ true
    → Again now w (e ∷ []) (again w e now)
unfolding again
again-Again now w e v out =
    let t = next_time (w.when_of e) (w.period_of e) now in
    let f = attach-Fixed w e t w.period_of v out in
    if-elim (λ (r : Wheel). Again now w (e ∷ []) r) (ltb 0 (w.period_of e))
      (attach (retimed w e t w.period_of) e) w
      (λ h. record {
        placed = attach-IsPlaced w e t w.period_of v out;
        held = λ x. at_held h x (attach-held w e t w.period_of v out x);
        time = λ x. at_time h x (f.when_of x);
        period = f.period_of;
      })
      (λ h. record {
        placed = v;
        held = λ x. (let p = same x in ground (arith, p, h));
        time = λ x. (let p = same x in ground (arith, p, h));
        period = λ x. refl;
      })
  where
    same : (x : ℕ) → e ≡ x → w.period_of e ≡ w.period_of x
    same x f = ap w.period_of f

    at_held :
        ltb 0 (w.period_of e) ≡ true
        → (x : ℕ) → {b : Bool} → b ≡ (e == x || is_held w x)
        → b ≡ (is_held w x || (mem x (e ∷ []) && ltb 0 (w.period_of x)))
    at_held h x a = (let p = same x in ground (arith, p, h, a))

    at_time :
        ltb 0 (w.period_of e) ≡ true
        → (x : ℕ) → {n : ℕ} → n ≡ store w.when_of e (next_time (w.when_of e) (w.period_of e) now) x
        → n ≡ (
            if mem x (e ∷ []) && ltb 0 (w.period_of x)
            then next_time (w.when_of x) (w.period_of x) now
            else w.when_of x)
    at_time h x a = elim (ℕ_discrete e x) [
      | yes f ↦
          (let p = ap w.period_of f in let q = ap w.when_of f in ground (arith, p, q, h, a, f))
      | no ne ↦ (ground (arith, a, ne))
    ]

pub again_all-Again :
    (now : ℕ) (es : List ℕ) (w : Wheel)
    → IsPlaced w
    → distinct es ≡ true
    → ((e : ℕ) → mem e es ≡ true → is_out (w.bucket e) ≡ true)
    → Again now w es (again_all w es now)
unfolding again_all
again_all-Again now [] w v d out = record {
  placed = v;
  held = λ x. ground arith;
  time = λ x. refl;
  period = λ x. refl;
}
again_all-Again now (e ∷ es) w v d out =
    let first = again-Again now w e v (out e (ground arith)) in
    let r = again w e now in
    let rest =
      again_all-Again now es r first.placed (ground (arith, d))
        (λ x m. ground (arith, first.held x, out x, m, d, apart x m)) in
    record {
      placed = rest.placed;
      held = λ x. ground (arith, rest.held x, first.held x, first.period x);
      time = λ x. at_time x (rest.time x) (first.time x) (first.period x);
      period = λ x. rest.period x ∙ first.period x;
    }
  where
    apart : (x : ℕ) → mem x es ≡ true → (e == x) ≡ false
    apart x m = elim (ℕ_discrete e x) [
      | yes f ↦ (let k = ap (λ j. mem j es) f in absurd (ground (arith, k, m, d)))
      | no ne ↦ (ground (arith, ne))
    ]

    at_time :
        (x : ℕ) {n k p : ℕ}
        → n ≡ (if mem x es && ltb 0 p then next_time k p now else k)
        → k ≡ (
            if mem x (e ∷ []) && ltb 0 (w.period_of x)
            then next_time (w.when_of x) (w.period_of x) now
            else w.when_of x)
        → p ≡ w.period_of x
        → n ≡ (
            if mem x (e ∷ es) && ltb 0 (w.period_of x)
            then next_time (w.when_of x) (w.period_of x) now
            else w.when_of x)
    at_time x a b c = elim (Bool-cases (mem x es)) [
      | inl m ↦ (ground (arith, a, b, c, m, apart x m))
      | inr m ↦ (ground (arith, a, b, c, m))
    ]
