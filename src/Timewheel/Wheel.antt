-- ===== src/Timewheel/Wheel.antt =====
-- internal/timewheel/wheel.go: the wheel. An entry is the number of its allocation, and its fields
-- are maps of the wheel. A slot's doubly linked list is the list of its entries. A time is the
-- nanoseconds since the zero time.
pub mod Window
pub mod Link
pub mod Ticks
pub mod Earliest
pub mod Rearm
pub mod Unlink
pub mod Detach
pub mod Attach
pub mod Operations
use uio.Prelude.Keys.{cut}
use uio.Prelude.Store.{store}
use uio.Prelude.{
  ℕ, zero, suc, ◌+◌, ◌-◌, ◌*◌, ◌/◌, ◌%◌, ◌^◌, Bool, true, false, not, ◌&&◌, ◌||◌, Option, none,
  some, List, [], ◌∷◌, ◌++◌, ltb, leb, ◌==◌, if◌then◌else◌,
}
use uio.Timewheel.Overflow.{Overflow, empty_overflow, heap_push, heap_pop, heap_remove}
use uio.Timewheel.Summary.{
  Word, Summary, set_summary, clear_summary, trailing_zeros64, is_zero, word_count, first_occupied,
}

-- Where an entry is: `notInWheel`, `inOverflow`, or a slot of the ring plus one.
pub data Place : Type 0 where
  not_in_wheel in_overflow : Place
  in_slot : ℕ → Place

-- A period that is not positive is 0. `arms` is what the arm callback heard, if there is one.
pub record Wheel : Type 0 where
  pub tick : ℕ
  pub buckets : ℕ
  pub ring : ℕ → List ℕ
  pub summary : Summary
  pub cursor : ℕ
  pub overflow : Overflow
  pub count : ℕ
  pub earliest : ℕ
  pub has_arm : Bool
  pub arms : List ℕ
  pub bucket : ℕ → Place
  pub when_of : ℕ → ℕ
  pub period_of : ℕ → ℕ

abbrev pub unix_epoch : ℕ
unix_epoch = 62135596800 * 10 ^ 9

abbrev pub last_nano : ℕ
last_nano = unix_epoch + (2 ^ 63 - 1)

unfoldable pub tick_of : ℕ → ℕ → ℕ
tick_of tick t =
    if ltb t unix_epoch
    then 0
    else if ltb last_nano t
    then (2 ^ 63 - 1) / tick
    else (t - unix_epoch) / tick

abbrev pub fresh_wheel : ℕ → ℕ → ℕ → Bool → Wheel
fresh_wheel tick buckets cursor has_arm = record {
  tick = tick;
  buckets = buckets;
  ring = λ slot. [];
  summary = λ word bit. false;
  cursor = cursor;
  overflow = empty_overflow;
  count = 0;
  earliest = 0;
  has_arm = has_arm;
  arms = [];
  bucket = λ e. not_in_wheel;
  when_of = λ e. 0;
  period_of = λ e. 0;
}

-- none is the panic on a bad argument.
unfoldable pub new_wheel : ℕ → ℕ → ℕ → Bool → Option Wheel
new_wheel tick buckets now has_arm =
    if tick == 0 || (buckets == 0 || (ltb (2 ^ 31 - 1) buckets || now == 0))
    then none
    else some (fresh_wheel tick buckets (tick_of tick now) has_arm)

abbrev pub next_slot : Wheel → ℕ
next_slot w = (w.cursor % w.buckets + 1) % w.buckets

abbrev pub is_empty : List ℕ → Bool
is_empty [] = true
is_empty (e ∷ es) = false

-- `linkLocked`: an entry past the window waits on the heap, and one whose tick has come is parked.
unfoldable pub link : Wheel → ℕ → Wheel
link w e =
    let t = tick_of w.tick (w.when_of e) in
    let slot = if leb t w.cursor then next_slot w else t % w.buckets in
    if ltb (w.cursor + w.buckets) t
    then record w {
      bucket = store w.bucket e in_overflow;
      overflow = heap_push w.when_of w.overflow e;
    }
    else record w {
      bucket = store w.bucket e (in_slot slot);
      ring = store w.ring slot (e ∷ w.ring slot);
      summary = if is_empty (w.ring slot) then set_summary w.summary slot else w.summary;
    }

unfoldable pub attach : Wheel → ℕ → Wheel
attach w e = let linked = link w e in record linked { count = linked.count + 1 }

unfoldable pub unlink : Wheel → ℕ → ℕ → Wheel
unlink w slot e =
    let left = cut e (w.ring slot) in
    record w {
      ring = store w.ring slot left;
      summary = if is_empty left then clear_summary w.summary slot else w.summary;
    }

-- An entry that says it is on the heap and is not is only freed.
unfoldable pub detach_from : Wheel → ℕ → Place → Wheel
detach_from w e not_in_wheel = w
detach_from w e in_overflow =
    let (heap, was) = heap_remove w.when_of w.overflow e in
    if not was
    then record w { bucket = store w.bucket e not_in_wheel }
    else record w { bucket = store w.bucket e not_in_wheel; overflow = heap; count = w.count - 1 }
detach_from w e (in_slot slot) =
    let left = unlink w slot e in
    record left { bucket = store w.bucket e not_in_wheel; count = w.count - 1 }

abbrev pub detach : Wheel → ℕ → Wheel
detach w e = detach_from w e (w.bucket e)

-- The earliest time of some entries and one more, 0 for none.
abbrev pub earliest_in : (ℕ → ℕ) → ℕ → List ℕ → ℕ
earliest_in when_of t [] = t
earliest_in when_of t (e ∷ es) =
    earliest_in when_of (if t == 0 || ltb (when_of e) t then when_of e else t) es

abbrev pub earliest_slot : Wheel → ℕ → Option ℕ → ℕ
earliest_slot w t none = t
earliest_slot w t (some slot) = earliest_in w.when_of t (w.ring slot)

abbrev pub find_earliest : Wheel → ℕ
find_earliest w =
    if w.count == 0
    then 0
    else earliest_slot w (if w.overflow.size == 0 then 0 else w.when_of (w.overflow.slots 0))
        (first_occupied w.summary w.buckets (next_slot w))

unfoldable pub rearm_earliest : Wheel → Wheel
rearm_earliest w =
    let t = find_earliest w in
    record w { earliest = t; arms = if w.has_arm then w.arms ++ (t ∷ []) else w.arms }

abbrev pub is_out : Place → Bool
is_out not_in_wheel = true
is_out in_overflow = false
is_out (in_slot slot) = false

unfoldable pub cancel : Wheel → ℕ → Wheel
cancel w e =
    let left = detach w e in
    if w.when_of e == w.earliest && not (is_out (w.bucket e)) then rearm_earliest left else left

-- `Arm`.
unfoldable pub arm_entry : Wheel → ℕ → ℕ → ℕ → Wheel
arm_entry w e t period =
    let left = detach w e in
    let armed =
      attach
        (record left {
          when_of = store left.when_of e t;
          period_of = store left.period_of e period;
        })
        e in
    if t == 0
    then cancel w e
    else if armed.earliest == 0 || (ltb t armed.earliest || w.when_of e == w.earliest)
    then rearm_earliest armed
    else armed

abbrev pub empty : Wheel → Bool
empty w = w.count == 0

abbrev pub len : Wheel → ℕ
len w = w.count
