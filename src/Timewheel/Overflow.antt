-- ===== src/Timewheel/Overflow.antt =====
-- The overflow heap of internal/timewheel/wheel.go. An entry is the number of its allocation, and
-- `heap` is the field of that name; entries are fewer than 2 ^ 31, so their places fit an int32.
pub mod Order
pub mod Up
pub mod Down
pub mod Operations
use uio.Prelude.Store.{store}
use uio.Prelude.{
  ℕ, zero, suc, ◌+◌, ◌-◌, ◌*◌, ◌/◌, Bool, true, false, not, ◌&&◌, ◌||◌, ltb, leb, ◌==◌,
  if◌then◌else◌,
}

-- The slice, with its length, and each entry's place in it plus one.
pub record Overflow : Type 0 where
  pub slots : ℕ → ℕ
  pub size : ℕ
  pub heap : ℕ → ℕ

abbrev pub empty_overflow : Overflow
empty_overflow = record { slots = λ i. 0; size = 0; heap = λ e. 0 }

-- Two entries change places, and each notes its new one.
abbrev pub swap : Overflow → ℕ → ℕ → Overflow
swap o i j = record o {
  slots = store (store o.slots i (o.slots j)) j (o.slots i);
  heap = store (store o.heap (o.slots j) (i + 1)) (o.slots i) (j + 1);
}

module _ (when_of : ℕ → ℕ) where
  abbrev pub key : Overflow → ℕ → ℕ
  key o i = when_of (o.slots i)

  -- The loop of `heapUpLocked`, on fuel.
  unfoldable pub up : ℕ → Overflow → ℕ → Overflow
  up zero o i = o
  up (suc fuel) o i =
      let parent = (i - 1) / 2 in
      let rest = up fuel (swap o i parent) parent in
      if i == 0 then o else if leb (key o parent) (key o i) then o else rest

  unfoldable pub heap_up : Overflow → ℕ → Overflow
  heap_up o i = up i o i

  abbrev pub smallest : Overflow → ℕ → ℕ
  smallest o i =
      let left = 2 * i + 1 in
      let right = 2 * i + 2 in
      let s = if ltb left o.size && ltb (key o left) (key o i) then left else i in
      if ltb right o.size && ltb (key o right) (key o s) then right else s

  -- The loop of `heapDownLocked`, on fuel.
  unfoldable pub down : ℕ → Overflow → ℕ → Overflow
  down zero o i = o
  down (suc fuel) o i =
      let s = smallest o i in let rest = down fuel (swap o i s) s in if s == i then o else rest

  unfoldable pub heap_down : Overflow → ℕ → Overflow
  heap_down o i = down o.size o i

  unfoldable pub heap_push : Overflow → ℕ → Overflow
  heap_push o e =
      heap_up
        (record o {
          slots = store o.slots o.size e;
          size = o.size + 1;
          heap = store o.heap e (o.size + 1);
        })
        o.size

  unfoldable pub heap_pop : Overflow → Overflow
  heap_pop o =
      let last = o.size - 1 in
      let off = store o.heap (o.slots 0) 0 in
      let moved = o.slots last in
      if last == 0
      then record o { size = 0; heap = off }
      else heap_down
          (record o { slots = store o.slots 0 moved; size = last; heap = store off moved 1 }) 0

  -- Whether the entry was on the heap.
  unfoldable pub heap_remove : Overflow → ℕ → Overflow × Bool
  heap_remove o e =
      let i = o.heap e - 1 in
      let last = o.size - 1 in
      let moved = o.slots last in
      let put = record o {
        slots = store o.slots i moved;
        size = last;
        heap = store (store o.heap moved (i + 1)) e 0;
      } in
      if o.heap e == 0 || (leb o.size i || not (o.slots i == e))
      then (o, false)
      else if i == last
      then (record o { size = last; heap = store o.heap e 0 }, true)
      else if ltb 0 i && ltb (when_of moved) (key put ((i - 1) / 2))
      then (heap_up put i, true)
      else (heap_down put i, true)
