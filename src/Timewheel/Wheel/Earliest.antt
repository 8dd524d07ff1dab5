-- ===== src/Timewheel/Wheel/Earliest.antt =====
-- `rearmEarliestLocked` finds the earliest time of all entries.
use native.Mathlib.Nat.{mod-add-mod, mod-lt, mod-eq_of_lt, mod-eq-sub-mod}
use uio.Prelude.Keys.{mem}
use uio.Prelude.Sums.{sum_below-ge}
use uio.Prelude.{
  ℕ, ◌+◌, ◌-◌, ◌%◌, ◌≡◌, ◌≢◌, refl, ap, sym, ◌∙◌, Bool, true, not, ◌||◌, Option, none, some, List,
  [], ◌∷◌, length, ltb, leb, ◌==◌, if◌then◌else◌, arith, ◌≤◌, ◌<◌, ◌⊎◌, if-elim, Bool-cases, inl,
  inr, ℕ_discrete,
}
use uio.Timewheel.Summary.First.{distance, IsFirst}
use uio.Timewheel.Wheel.Ticks.{tick_of-lt}
use uio.Timewheel.Wheel.Window.{Base, Slotted, IsWindowed, is_at, is_held, population}
use uio.Timewheel.Wheel.{
  Wheel, Place, not_in_wheel, in_overflow, in_slot, tick_of, next_slot, is_empty, is_out,
  earliest_in, earliest_slot,
}

-- The least of a time and some entries' times, where 0 is no time.
record Least (when_of : ℕ → ℕ) (t : ℕ) (l : List ℕ) (r : ℕ) : Type 0 where
  pub given : 0 < t → 0 < r × r ≤ t
  pub listed : (e : ℕ) → mem e l ≡ true → 0 < r × r ≤ when_of e
  pub found : r ≡ t ⊎ ((e : ℕ) × (mem e l ≡ true × when_of e ≡ r))

earliest_in-Least :
    (when_of : ℕ → ℕ) (t : ℕ) (l : List ℕ)
    → ((e : ℕ) → mem e l ≡ true → 0 < when_of e)
    → Least when_of t l (earliest_in when_of t l)
earliest_in-Least when_of t [] pos = record {
  given = λ h. (h, (omega arith));
  listed = λ e m. absurd (ground (arith, m));
  found = inl refl;
}
earliest_in-Least when_of t (e ∷ es) pos =
    let next = if t == 0 || ltb (when_of e) t then when_of e else t in
    let head : 0 < when_of e = pos e (ground arith) in
    let rest = earliest_in-Least when_of next es (λ x m. pos x (ground (arith, m))) in
    let some_next : 0 < next = ground (arith, head) in
    let low = rest.given some_next in
    record {
      given = λ h. ground (arith, low, h);
      listed = λ x m. elim (ℕ_discrete e x) [
        | yes f ↦ (let same = ap when_of f in ground (arith, low, same))
        | no ne ↦ rest.listed x (ground (arith, m, ne))
      ];
      found = elim rest.found [
        | inl f ↦
            if-elim
              (λ (n : ℕ).
                (earliest_in when_of next es ≡ n)
                → earliest_in when_of next es ≡ t
                  ⊎ ((x : ℕ) × (mem x (e ∷ es) ≡ true × when_of x ≡ earliest_in when_of next es)))
              (t == 0 || ltb (when_of e) t) (when_of e) t (λ c g. inr (e, ((ground arith), sym g)))
              (λ c g. inl g) f
        | inr (x, (m, f)) ↦ inr (x, ((ground (arith, m)), f))
      ];
    }

-- The distance of a slot from the one ahead of the cursor is that of the ticks.
around : (m d b : ℕ) → m < b → d < b → distance b m ((m + d) % b) ≡ d
around m d b hm hd = elim (Bool-cases (ltb (m + d) b)) [
  | inl h ↦
      (let low : (m + d) % b ≡ m + d = mod-eq_of_lt (ground (arith, h)) in ground (arith, low))
  | inr h ↦
      (let high : (m + d) % b ≡ (m + d - b) % b = mod-eq-sub-mod (ground (arith, h)) in
        let low : (m + d - b) % b ≡ m + d - b = mod-eq_of_lt (omega (arith, hm, hd)) in
        ground (arith, high, low, h, hm, hd))
]

slot_distance :
    (c t b : ℕ) → 0 < b → c < t → t ≤ c + b → distance b ((c + 1) % b) (t % b) ≡ t - (c + 1)
slot_distance c t b pos lo hi =
    let m = (c + 1) % b in
    let d = t - (c + 1) in
    let eq : (m + d) % b ≡ t % b = mod-add-mod (c + 1) b d ∙ ap (λ x. x % b) (omega (arith, lo)) in
    sym (ap (distance b m) eq) ∙ around m d b (mod-lt (c + 1) pos) (omega (arith, lo, hi, pos))

pub Slotted-distance :
    (w : Wheel) (s e : ℕ)
    → 0 < w.buckets
    → Slotted w s e
    → distance w.buckets (next_slot w) s ≡ tick_of w.tick (w.when_of e) - (w.cursor + 1)
Slotted-distance w s e pos v =
    let t = tick_of w.tick (w.when_of e) in
    let next : next_slot w ≡ (w.cursor + 1) % w.buckets = mod-add-mod w.cursor w.buckets 1 in
    elim (Bool-cases (leb t w.cursor)) [
      | inl h ↦ (let at : s ≡ next_slot w = ground (arith, v, h) in ground (arith, at, h))
      | inr h ↦
          (let at : s ≡ t % w.buckets = ground (arith, v, h) in
            let d = slot_distance w.cursor t w.buckets pos (ground (arith, h)) v.0 in
            ap (distance w.buckets (next_slot w)) at
            ∙ (ap (λ n. distance w.buckets n (t % w.buckets)) next ∙ d))
    ]

-- Slots that differ have ticks that differ.
apart :
    (c tf te mf me m n r s : ℕ)
    → r ≡ (if leb tf c then n else mf)
    → s ≡ (if leb te c then n else me)
    → n ≡ m
    → (tf ≡ te → mf ≡ me)
    → (tf ≡ c + 1 → mf ≡ m)
    → tf - (c + 1) ≤ te - (c + 1)
    → r ≢ s
    → tf < te
apart c tf te mf me m n r s at_f at_e next same first gap ne = elim (Bool-cases (leb tf c)) [
  | inl h ↦ ground (arith, h, at_f, at_e, ne)
  | inr h ↦ (elim (Bool-cases (leb te c)) [
    | inl k ↦ ground (arith, h, k, at_f, at_e, ne, gap, next, first)
    | inr k ↦ ground (arith, h, k, at_f, at_e, ne, gap, same)
  ])
]

-- An entry of a nearer slot is earlier.
nearer :
    (w : Wheel) (r f s e : ℕ)
    → Base w []
    → Slotted w r f
    → Slotted w s e
    → r ≢ s
    → distance w.buckets (next_slot w) r ≤ distance w.buckets (next_slot w) s
    → w.when_of f < w.when_of e
nearer w r f s e v a b ne le =
    let tf = tick_of w.tick (w.when_of f) in
    let te = tick_of w.tick (w.when_of e) in
    let next : next_slot w ≡ (w.cursor + 1) % w.buckets = mod-add-mod w.cursor w.buckets 1 in
    let same : tf ≡ te → tf % w.buckets ≡ te % w.buckets = λ h. ap (λ t. t % w.buckets) h in
    let first : tf ≡ w.cursor + 1 → tf % w.buckets ≡ (w.cursor + 1) % w.buckets =
      λ h. ap (λ t. t % w.buckets) h in
    let df = Slotted-distance w r f v.pos a in
    let de = Slotted-distance w s e v.pos b in
    let gap : tf - (w.cursor + 1) ≤ te - (w.cursor + 1) = omega (arith, df, de, le) in
    tick_of-lt w.tick (w.when_of f) (w.when_of e) v.tick_pos (
      apart w.cursor tf te (tf % w.buckets) (te % w.buckets) ((w.cursor + 1) % w.buckets)
        (next_slot w) r s a.1 b.1 next same first gap ne)

-- The summary's first slot holds the ring's earliest.
some_in : (l : List ℕ) → not (is_empty l) ≡ true → (e : ℕ) × (mem e l ≡ true)
some_in [] h = absurd (ground (arith, h))
some_in (e ∷ es) h = (e, ground arith)

pub not_empty : (e : ℕ) (l : List ℕ) → mem e l ≡ true → not (is_empty l) ≡ true
not_empty e [] m = absurd (ground (arith, m))
not_empty e (i ∷ is) m = refl

pub record Lowest (w : Wheel) (t r : ℕ) : Type 0 where
  pub given : 0 < t → 0 < r × r ≤ t
  pub listed : (s e : ℕ) → mem e (w.ring s) ≡ true → 0 < r × r ≤ w.when_of e
  pub found : r ≡ t ⊎ ((e : ℕ) × (is_held w e ≡ true × w.when_of e ≡ r))

abbrev pub occupied : Wheel → ℕ → Bool
occupied w s = not (is_empty (w.ring s))

pub held_in : (w : Wheel) (s e : ℕ) → Base w [] → mem e (w.ring s) ≡ true → is_held w e ≡ true
held_in w s e v m = at_held (w.bucket e) (v.ring_in s e m).1
  where
    at_held : (p : Place) → is_at p s ≡ true → not (is_out p) ≡ true
    at_held not_in_wheel a = absurd (ground (arith, a))
    at_held in_overflow a = refl
    at_held (in_slot t) a = refl

pub earliest_slot-Lowest :
    (w : Wheel) (t : ℕ) (o : Option ℕ)
    → Base w []
    → IsWindowed w
    → ((e : ℕ) → is_held w e ≡ true → 0 < w.when_of e)
    → IsFirst (occupied w) w.buckets (next_slot w) o
    → Lowest w t (earliest_slot w t o)
earliest_slot-Lowest w t none v window pos f = record {
  given = λ h. (h, (omega arith));
  listed = λ s e m. absurd (ground (arith, not_empty e (w.ring s) m, f s));
  found = inl refl;
}
earliest_slot-Lowest w t (some r) v window pos f =
    let least = earliest_in-Least w.when_of t (w.ring r) (λ e m. pos e (held_in w r e v m)) in
    let first = some_in (w.ring r) f.0 in
    record {
      given = least.given;
      listed = λ s e m. elim (ℕ_discrete r s) [
        | yes h ↦ least.listed e (ap (λ j. mem e (w.ring j)) h ∙ m)
        | no ne ↦
            (let low = least.listed first.0 first.1 in
              let lt =
                nearer w r first.0 s e v (window r first.0 first.1) (window s e m) ne
                  (f.1 s (not_empty e (w.ring s) m)) in
              (low.0, (omega (arith, low.1, lt))))
      ];
      found = elim least.found [
        | inl h ↦ inl h
        | inr (e, (m, h)) ↦ inr (e, (held_in w r e v m, h))
      ];
    }

-- An entry of the ring is counted.
pub counted : (w : Wheel) (s e : ℕ) → Base w [] → mem e (w.ring s) ≡ true → 0 < population w
counted w s e v m =
    let ge = sum_below-ge (λ s. length (w.ring s)) s w.buckets (v.ring_in s e m).0 in
    let one = long (w.ring s) m in omega (arith, ge, one)
  where
    long : (l : List ℕ) → mem e l ≡ true → 0 < length l
    long [] n = absurd (ground (arith, n))
    long (i ∷ is) n = omega arith
