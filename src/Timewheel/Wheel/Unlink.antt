-- ===== src/Timewheel/Wheel/Unlink.antt =====
-- `unlinkLocked` takes one entry out of its slot and leaves the others where they are.
use uio.Prelude.Keys.{
  mem, distinct, cut, mem-cut, mem-cut_other, distinct-cut, mem-cut_same, length-cut,
}
use uio.Prelude.Store.{store, store-elim}
use uio.Prelude.{
  ℕ, ◌-◌, ◌/◌, ◌%◌, ◌≡◌, refl, ap, sym, ◌∙◌, Bool, true, false, not, List, [], ◌∷◌, ◌==◌,
  if◌then◌else◌, arith, ◌<◌, if-elim, Bool-cases, inl, inr, ℕ_discrete,
}
use uio.Timewheel.Summary.{clear_summary}
use uio.Timewheel.Wheel.Link.{Fixed, store-sum}
use uio.Timewheel.Wheel.Window.{
  Base, IsWindowed, IsLate, IsWheel, is_at, on_heap, mem-store, is_at-store, on_heap-store,
  is_out-store, put_bit-bits,
}
use uio.Timewheel.Wheel.{Wheel, Place, not_in_wheel, in_slot, is_empty, is_out}

-- The wheel with its entries where their times put them, whatever time it tracks.
pub record IsPlaced (w : Wheel) : Type 0 where
  pub wheel : IsWheel w
  pub windowed : IsWindowed w
  pub late : IsLate w

pub record Detached (w : Wheel) (e : ℕ) (r : Wheel) : Type 0 where
  pub placed : IsPlaced r
  pub out : (x : ℕ) → is_out (r.bucket x) ≡ (if e == x then true else is_out (w.bucket x))
  pub fixed : Fixed w r

abbrev cut_out : Wheel → ℕ → ℕ → Wheel
cut_out w slot e = record w {
  ring = store w.ring slot (cut e (w.ring slot));
  summary = if is_empty (cut e (w.ring slot)) then clear_summary w.summary slot else w.summary;
  bucket = store w.bucket e not_in_wheel;
  count = w.count - 1;
}

at_one : (p : Place) (s slot : ℕ) → is_at p s ≡ true → p ≡ in_slot slot → slot ≡ s
at_one p s slot a h =
    (let b : (slot == s) ≡ true = ap (λ q. is_at q s) (sym h) ∙ a in ground (arith, b))

cut_out-bits :
    (w : Wheel) (slot e : ℕ)
    → Base w []
    → mem e (w.ring slot) ≡ true
    → (s : ℕ)
    → (cut_out w slot e).summary (s / 64) (s % 64) ≡ not (is_empty ((cut_out w slot e).ring s))
cut_out-bits w slot e v m s =
    let left = cut e (w.ring slot) in
    if-elim (λ (f : ℕ → ℕ → Bool). f (s / 64) (s % 64) ≡ not (is_empty (store w.ring slot left s)))
      (is_empty left) (clear_summary w.summary slot) w.summary
      (λ h. put_bit-bits w slot [] v.bits s ∙ store-both [] left h)
      (λ h.
        store-elim (λ x. w.summary (s / 64) (s % 64) ≡ not (is_empty x)) w.ring slot s left
          (λ f.
            ap (λ j. w.summary (j / 64) (j % 64)) (sym f)
            ∙ (v.bits slot ∙ (filled (w.ring slot) m ∙ sym (ap not h))))
          (λ ne. v.bits s))
  where
    filled : (l : List ℕ) → mem e l ≡ true → not (is_empty l) ≡ true
    filled [] n = absurd (ground (arith, n))
    filled (i ∷ is) n = refl

    store-both :
        (a b : List ℕ)
        → is_empty b ≡ true
        → not (is_empty (store w.ring slot [] s)) ≡ not (is_empty (store w.ring slot b s))
    store-both a [] h = refl
    store-both a (i ∷ is) h = absurd (ground (arith, h))

cut_out-Base :
    (w : Wheel) (slot e : ℕ)
    → Base w []
    → w.bucket e ≡ in_slot slot
    → mem e (w.ring slot) ≡ true
    → Base (cut_out w slot e) []
cut_out-Base w slot e v b m = record {
  pos = v.pos;
  tick_pos = v.tick_pos;
  ring_in = λ s x n. inside s x n;
  ring_of = λ s x a l.
      (let old = v.ring_of s x (ground (arith, at x s, a)) refl in
        kept s x (ground (arith, at x s, a)) old);
  once = λ s.
      store-elim (λ l. distinct l ≡ true) w.ring slot s (cut e (w.ring slot))
        (λ f. distinct-cut e (w.ring slot) (v.once slot)) (λ ne. v.once s);
  bits = cut_out-bits w slot e v m;
  heap = v.heap;
  heap_in = λ x h. ((ground (arith, on x, (v.heap_in x h).0, off x)), refl);
  heap_of = λ x o l. v.heap_of x (ground (arith, on x, o)) refl;
  loose_once = refl;
}
  where
    at :
        (x s : ℕ)
        → is_at (store w.bucket e not_in_wheel x) s
          ≡ (if e == x then false else is_at (w.bucket x) s)
    at x s = is_at-store w.bucket e not_in_wheel x s

    on :
        (x : ℕ)
        → on_heap (store w.bucket e not_in_wheel x)
          ≡ (if e == x then false else on_heap (w.bucket x))
    on x = on_heap-store w.bucket e not_in_wheel x

    off : (x : ℕ) → e ≡ x → on_heap (w.bucket x) ≡ false
    off x f = ap (λ j. on_heap (w.bucket j)) (sym f) ∙ ap on_heap b

    kept :
        (s x : ℕ)
        → (e == x) ≡ false
        → mem x (w.ring s) ≡ true
        → mem x (store w.ring slot (cut e (w.ring slot)) s) ≡ true
    kept s x ne old =
        store-elim (λ l. mem x l ≡ true) w.ring slot s (cut e (w.ring slot))
          (λ f. mem-cut_other x e (w.ring slot) ne (ap (λ j. mem x (w.ring j)) f ∙ old)) (λ n. old)

    other :
        (s x : ℕ)
        → mem x (store w.ring slot (cut e (w.ring slot)) s) ≡ true
        → mem x (w.ring s) ≡ true × (e == x) ≡ false
    other s x n = elim (ℕ_discrete slot s) [
      | yes f ↦
          (let here : mem x (cut e (w.ring slot)) ≡ true =
              ground (arith, mem-store w.ring slot (cut e (w.ring slot)) s x, f, n) in
            (ap (λ j. mem x (w.ring j)) (sym f) ∙ mem-cut x e (w.ring slot) here, differ here))
      | no ne ↦
          (let here : mem x (w.ring s) ≡ true =
              ground (arith, mem-store w.ring slot (cut e (w.ring slot)) s x, ne, n) in
            (
              here,
              (elim (Bool-cases (e == x)) [
                | inl g ↦ absurd (
                    ne (
                      at_one (w.bucket x) s slot (v.ring_in s x here).1
                        (at_e x (ground (arith, g)))))
                | inr g ↦ g
              ]),
            ))
    ]
      where
        at_e : (x : ℕ) → e ≡ x → w.bucket x ≡ in_slot slot
        at_e x g = ap w.bucket (sym g) ∙ b

        differ : mem x (cut e (w.ring slot)) ≡ true → (e == x) ≡ false
        differ here = elim (ℕ_discrete e x) [
          | yes g ↦
              (let gone = mem-cut_same e (w.ring slot) (v.once slot) in
                let there = ap (λ j. mem j (cut e (w.ring slot))) g in
                absurd (ground (arith, gone, there, here)))
          | no ne ↦ (ground (arith, ne))
        ]

    inside :
        (s x : ℕ)
        → mem x (store w.ring slot (cut e (w.ring slot)) s) ≡ true
        → s < w.buckets × is_at (store w.bucket e not_in_wheel x) s ≡ true × false ≡ false
    inside s x n =
        let o = other s x n in
        let old = v.ring_in s x o.0 in (old.0, (ground (arith, at x s, o.1, old.1)), refl)

-- What is left in the ring was there.
cut_out-sub :
    (w : Wheel) (slot e s x : ℕ)
    → mem x ((cut_out w slot e).ring s) ≡ true
    → mem x (w.ring s) ≡ true
cut_out-sub w slot e s x n = elim (ℕ_discrete slot s) [
  | yes f ↦
      ap (λ j. mem x (w.ring j)) (sym f)
      ∙ mem-cut x e (w.ring slot)
          (ground (arith, mem-store w.ring slot (cut e (w.ring slot)) s x, f, n))
  | no ne ↦ (ground (arith, mem-store w.ring slot (cut e (w.ring slot)) s x, ne, n))
]

pub cut_out-Detached :
    (w : Wheel) (slot e : ℕ)
    → IsPlaced w
    → w.bucket e ≡ in_slot slot
    → Detached w e (cut_out w slot e)
cut_out-Detached w slot e v b =
    let at : is_at (w.bucket e) slot ≡ true = ap (λ p. is_at p slot) b ∙ ground arith in
    let m = v.wheel.base.ring_of slot e at refl in
    let lt = (v.wheel.base.ring_in slot e m).0 in
    record {
      placed = record {
        wheel = record {
          base = cut_out-Base w slot e v.wheel.base b m;
          count = omega (
            arith,
            v.wheel.count,
            store-sum w.ring slot (cut e (w.ring slot)) w.buckets lt,
            length-cut e (w.ring slot) m,
          );
        };
        windowed = λ s x n. v.windowed s x (cut_out-sub w slot e s x n);
        late = v.late;
      };
      out = λ x. is_out-store w.bucket e not_in_wheel x;
      fixed = record {
        tick = refl;
        buckets = refl;
        when_of = λ x. refl;
        period_of = λ x. refl;
        earliest = refl;
      };
    }
