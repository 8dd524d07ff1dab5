-- ===== src/Timewheel/Wheel/Window.antt =====
-- What holds of the wheel's lists, heap and summary, while some entries are cut loose.
use uio.Prelude.Keys.{mem, distinct}
use uio.Prelude.Store.{store, store-elim}
use uio.Prelude.Sums.{sum_below}
use uio.Prelude.{
  ℕ, ◌+◌, ◌/◌, ◌%◌, ◌≡◌, ◌≢◌, refl, ap, sym, ◌∙◌, Bool, true, false, not, ◌&&◌, ◌||◌, List, [], ◌∷◌,
  length, leb, ◌==◌, if◌then◌else◌, arith, ◌≤◌, ◌<◌, if-elim, Bool-cases, inl, inr,
}
use uio.Timewheel.Overflow.Operations.{IsHeap}
use uio.Timewheel.Summary.{set_summary, put_bit}
use uio.Timewheel.Wheel.{
  Wheel, Place, not_in_wheel, in_overflow, in_slot, tick_of, next_slot, is_empty, is_out,
}

abbrev pub is_at : Place → ℕ → Bool
is_at not_in_wheel s = false
is_at in_overflow s = false
is_at (in_slot t) s = t == s

abbrev pub on_heap : Place → Bool
on_heap not_in_wheel = false
on_heap in_overflow = true
on_heap (in_slot t) = false

abbrev pub is_held : Wheel → ℕ → Bool
is_held w e = not (is_out (w.bucket e))

-- The loose entries are in no list and off the heap, whatever their fields say.
pub record Base (w : Wheel) (loose : List ℕ) : Type 0 where
  pub pos : 0 < w.buckets
  pub tick_pos : 0 < w.tick
  pub ring_in :
      (s e : ℕ)
      → mem e (w.ring s) ≡ true
      → s < w.buckets × is_at (w.bucket e) s ≡ true × mem e loose ≡ false
  pub ring_of :
      (s e : ℕ) → is_at (w.bucket e) s ≡ true → mem e loose ≡ false → mem e (w.ring s) ≡ true
  pub once : (s : ℕ) → distinct (w.ring s) ≡ true
  pub bits : (s : ℕ) → w.summary (s / 64) (s % 64) ≡ not (is_empty (w.ring s))
  pub heap : IsHeap w.when_of w.overflow
  pub heap_in : (e : ℕ) → w.overflow.heap e ≢ 0 → on_heap (w.bucket e) ≡ true × mem e loose ≡ false
  pub heap_of : (e : ℕ) → on_heap (w.bucket e) ≡ true → mem e loose ≡ false → w.overflow.heap e ≢ 0
  pub loose_once : distinct loose ≡ true

-- The slot of an entry is that of its tick, or the parked one when its tick has come.
abbrev pub Slotted : Wheel → ℕ → ℕ → Type 0
Slotted w s e =
    let t = tick_of w.tick (w.when_of e) in
    t ≤ w.cursor + w.buckets × s ≡ (if leb t w.cursor then next_slot w else t % w.buckets)

abbrev pub IsWindowed : Wheel → Type 0
IsWindowed w = (s e : ℕ) → mem e (w.ring s) ≡ true → Slotted w s e

abbrev pub IsLate : Wheel → Type 0
IsLate w = (e : ℕ) → w.overflow.heap e ≢ 0 → w.cursor + w.buckets < tick_of w.tick (w.when_of e)

abbrev pub population : Wheel → ℕ
population w = sum_below (λ s. length (w.ring s)) w.buckets + w.overflow.size

-- The wheel between two calls.
pub record IsWheel (w : Wheel) : Type 0 where
  pub base : Base w []
  pub count : w.count ≡ population w

-- The tracked time is no later than any entry's, and none is 0.
abbrev pub IsTracked : Wheel → Type 0
IsTracked w = (e : ℕ) → is_held w e ≡ true → 0 < w.earliest × w.earliest ≤ w.when_of e

-- The tracked time, if there is one, is an entry's.
abbrev pub IsAttained : Wheel → Type 0
IsAttained w = 0 < w.earliest → (e : ℕ) × (is_held w e ≡ true × w.when_of e ≡ w.earliest)

-- The wheel with its entries where their times put them.
pub record IsTimed (w : Wheel) : Type 0 where
  pub wheel : IsWheel w
  pub windowed : IsWindowed w
  pub late : IsLate w
  pub tracked : IsTracked w
  pub attained : IsAttained w

put_bit-at :
    (f : ℕ → ℕ → Bool) (a b : ℕ) (v : Bool) (c d : ℕ)
    → store f a (store (f a) b v) c d ≡ (if a == c && b == d then v else f c d)
put_bit-at f a b v c d = ground arith

-- The summary after a change of one slot.
pub put_bit-bits :
    (w : Wheel) (slot : ℕ) (l : List ℕ)
    → ((s : ℕ) → w.summary (s / 64) (s % 64) ≡ not (is_empty (w.ring s)))
    → (s : ℕ)
    → put_bit w.summary slot (not (is_empty l)) (s / 64) (s % 64)
      ≡ not (is_empty (store w.ring slot l s))
put_bit-bits w slot l bits s =
    put_bit-at w.summary (slot / 64) (slot % 64) (not (is_empty l)) (s / 64) (s % 64)
    ∙ store-elim
        (λ x.
          (if slot / 64 == s / 64 && slot % 64 == s % 64
            then not (is_empty l)
            else w.summary (s / 64) (s % 64))
          ≡ not (is_empty x))
        w.ring slot s l
        (λ e. when_true {b = (slot / 64 == s / 64 && slot % 64 == s % 64)} _ (ground (arith, e)))
        (λ ne.
          when_false {b = (slot / 64 == s / 64 && slot % 64 == s % 64)} _ (ground (arith, ne))
            (bits s))
  where
    when_true : {b : Bool} {x : Bool} (y : Bool) → b ≡ true → (if b then x else y) ≡ x
    when_true y h = rw h refl

    when_false : {b : Bool} {y z : Bool} (x : Bool) → b ≡ false → y ≡ z → (if b then x else y) ≡ z
    when_false x h e = rw h e

-- The lists and the places after a change, as tests.
pub mem-store :
    (ring : ℕ → List ℕ) (slot : ℕ) (l : List ℕ) (s x : ℕ)
    → mem x (store ring slot l s) ≡ (if slot == s then mem x l else mem x (ring s))
mem-store ring slot l s x = elim (Bool-cases (slot == s)) [ inl e ↦ rw e refl | inr e ↦ rw e refl ]

pub is_at-store :
    (bucket : ℕ → Place) (e : ℕ) (p : Place) (x s : ℕ)
    → is_at (store bucket e p x) s ≡ (if e == x then is_at p s else is_at (bucket x) s)
is_at-store bucket e p x s = ground arith

pub on_heap-store :
    (bucket : ℕ → Place) (e : ℕ) (p : Place) (x : ℕ)
    → on_heap (store bucket e p x) ≡ (if e == x then on_heap p else on_heap (bucket x))
on_heap-store bucket e p x = ground arith

pub is_out-store :
    (bucket : ℕ → Place) (e : ℕ) (p : Place) (x : ℕ)
    → is_out (store bucket e p x) ≡ (if e == x then is_out p else is_out (bucket x))
is_out-store bucket e p x = ground arith

-- An entry put at the head of a slot.
abbrev pub put : Wheel → ℕ → ℕ → Wheel
put w e slot = record w {
  bucket = store w.bucket e (in_slot slot);
  ring = store w.ring slot (e ∷ w.ring slot);
  summary = if is_empty (w.ring slot) then set_summary w.summary slot else w.summary;
}

put-bits :
    (w : Wheel) (e slot : ℕ)
    → ((s : ℕ) → w.summary (s / 64) (s % 64) ≡ not (is_empty (w.ring s)))
    → (s : ℕ) → (put w e slot).summary (s / 64) (s % 64) ≡ not (is_empty ((put w e slot).ring s))
put-bits w e slot bits s =
    if-elim (λ (f : ℕ → ℕ → Bool). f (s / 64) (s % 64) ≡ not (is_empty ((put w e slot).ring s)))
      (is_empty (w.ring slot)) (set_summary w.summary slot) w.summary
      (λ h. put_bit-bits w slot (e ∷ w.ring slot) bits s)
      (λ h.
        store-elim (λ x. w.summary (s / 64) (s % 64) ≡ not (is_empty x)) w.ring slot s
          (e ∷ w.ring slot)
          (λ f. ap (λ j. w.summary (j / 64) (j % 64)) (sym f) ∙ (bits slot ∙ ap not h))
          (λ ne. bits s))

-- Where a loose entry is not.
pub loose-out :
    (w : Wheel) (loose : List ℕ) (e s : ℕ) → Base w (e ∷ loose) → mem e (w.ring s) ≡ false
loose-out w loose e s v = elim (Bool-cases (mem e (w.ring s))) [
  | inl m ↦ (let r = (v.ring_in s e m).2 in absurd (ground (arith, r)))
  | inr m ↦ m
]

pub put-Base :
    (w : Wheel) (loose : List ℕ) (e slot : ℕ)
    → Base w (e ∷ loose)
    → slot < w.buckets
    → Base (put w e slot) loose
put-Base w loose e slot v lt = record {
  pos = v.pos;
  tick_pos = v.tick_pos;
  ring_in = λ s x m. inside s x m;
  ring_of = λ s x a l. ground (arith, at x s, mem_at s x, v.ring_of s x, a, l);
  once = λ s.
      store-elim (λ l. distinct l ≡ true) w.ring slot s (e ∷ w.ring slot)
        (λ f. ground (arith, loose-out w loose e slot v, v.once slot)) (λ ne. v.once s);
  bits = put-bits w e slot v.bits;
  heap = v.heap;
  heap_in = λ x h. (let o = v.heap_in x h in ground (arith, on x, o));
  heap_of = λ x o l. ground (arith, on x, v.heap_of x, o, l);
  loose_once = ground (arith, v.loose_once);
}
  where
    at :
        (x s : ℕ)
        → is_at (store w.bucket e (in_slot slot) x) s
          ≡ (if e == x then slot == s else is_at (w.bucket x) s)
    at x s = is_at-store w.bucket e (in_slot slot) x s

    on :
        (x : ℕ)
        → on_heap (store w.bucket e (in_slot slot) x)
          ≡ (if e == x then false else on_heap (w.bucket x))
    on x = on_heap-store w.bucket e (in_slot slot) x

    mem_at :
        (s x : ℕ)
        → mem x (store w.ring slot (e ∷ w.ring slot) s)
          ≡ (if slot == s then (e == x || mem x (w.ring slot)) else mem x (w.ring s))
    mem_at s x = mem-store w.ring slot (e ∷ w.ring slot) s x

    inside :
        (s x : ℕ)
        → mem x (store w.ring slot (e ∷ w.ring slot) s) ≡ true
        → s < w.buckets × is_at (store w.bucket e (in_slot slot) x) s ≡ true × mem x loose ≡ false
    inside s x m =
        ground (arith, at x s, mem_at s x, v.ring_in s x, v.ring_in slot x, lt, v.loose_once, m)
