-- ===== src/Timewheel/Wheel/Ticks.antt =====
-- Ticks against times, and what all entries of the ring satisfy.
use native.Mathlib.Nat.{le-div_iff_mul-le, div-mul-le_self}
use uio.Prelude.Keys.{mem}
use uio.Prelude.Store.{store}
use uio.Prelude.{
  ℕ, ◌-◌, ◌/◌, ◌^◌, ◌≡◌, refl, ap, subst, true, ◌||◌, List, [], ◌∷◌, leb, ◌==◌, if◌then◌else◌,
  arith, ◌≤◌, ◌<◌, Bool-cases, inl, inr, ℕ_discrete,
}
use uio.Timewheel.Wheel.Link.{slot_of, link-elim}
use uio.Timewheel.Wheel.Window.{Slotted, IsWindowed, mem-store, put}
use uio.Timewheel.Wheel.{Wheel, tick_of, link, unix_epoch}

div_mono : (k a b : ℕ) → 0 < k → a ≤ b → a / k ≤ b / k
div_mono k a b pos le =
    (le-div_iff_mul-le {x = a / k} {y = b} pos).1 (omega (arith, div-mul-le_self a k, le))

-- A later time has no earlier tick.
pub tick_of_mono : (tick s t : ℕ) → 0 < tick → s ≤ t → tick_of tick s ≤ tick_of tick t
unfolding tick_of
tick_of_mono tick s t pos le = ground (
  arith,
  le,
  div_mono tick (s - unix_epoch) (t - unix_epoch) pos (omega (arith, le)),
  div_mono tick (s - unix_epoch) (2 ^ 63 - 1) pos,
  div_mono tick (2 ^ 63 - 1) (t - unix_epoch) pos,
)

pub tick_of-lt : (tick s t : ℕ) → 0 < tick → tick_of tick s < tick_of tick t → s < t
tick_of-lt tick s t pos lt = elim (Bool-cases (leb t s)) [
  | inl h ↦ (let r = tick_of_mono tick t s pos (ground (arith, h)) in absurd (omega (arith, r, lt)))
  | inr h ↦ ground (arith, h)
]

abbrev pub AllIn : (ℕ → ℕ → Type 0) → (ℕ → List ℕ) → Type 0
AllIn Q ring = (s e : ℕ) → mem e (ring s) ≡ true → Q s e

pub put-AllIn :
    (Q : ℕ → ℕ → Type 0) (w : Wheel) (e slot : ℕ)
    → AllIn Q w.ring
    → Q slot e
    → AllIn Q (put w e slot).ring
put-AllIn Q w e slot all q s x m = elim (ℕ_discrete slot s) [
  | yes f ↦ (elim (ℕ_discrete e x) [
    | yes g ↦ subst (λ j. Q j x) f (subst (λ j. Q slot j) g q)
    | no ne ↦ all s x (ground (arith, at, f, ne, same f))
  ])
  | no ne ↦ all s x (ground (arith, at, ne))
]
  where
    at :
        mem x (store w.ring slot (e ∷ w.ring slot) s)
        ≡ (if slot == s then (e == x || mem x (w.ring slot)) else mem x (w.ring s))
    at = mem-store w.ring slot (e ∷ w.ring slot) s x

    same : slot ≡ s → mem x (w.ring slot) ≡ mem x (w.ring s)
    same f = ap (λ j. mem x (w.ring j)) f

pub store-AllIn :
    (Q : ℕ → ℕ → Type 0) (ring : ℕ → List ℕ) (slot : ℕ)
    → AllIn Q ring
    → AllIn Q (store ring slot [])
store-AllIn Q ring slot all s x m = all s x (ground (arith, mem-store ring slot [] s x, m))

pub link-IsWindowed : (w : Wheel) (e : ℕ) → IsWindowed w → IsWindowed (link w e)
link-IsWindowed w e v =
    link-elim (λ r. IsWindowed r) w e (λ h. v)
      (λ h. put-AllIn (Slotted w) w e (slot_of w e) v ((ground (arith, h)), refl))
