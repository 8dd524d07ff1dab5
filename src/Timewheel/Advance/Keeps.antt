-- ===== src/Timewheel/Advance/Keeps.antt =====
-- What handling the due entries keeps: a property of the wheel that freeing an entry and linking a
-- future one keep.
use native.Mathlib.Nat.{mod-add-mod}
use uio.Prelude.Keys.{mem}
use uio.Prelude.Store.{store}
use uio.Prelude.{
  ℕ, zero, suc, ◌+◌, ◌-◌, ◌%◌, ◌≡◌, ◌≢◌, refl, ap, true, false, List, [], ◌∷◌, ◌++◌, leb, arith,
  ◌<◌, if-elim,
}
use uio.Timewheel.Advance.Run.{free, empty_slot}
use uio.Timewheel.Advance.{
  Report, report_entry, report_entries, report_list, report_slot, step_ticks,
}
use uio.Timewheel.Wheel.Link.{slot_of, link-elim}
use uio.Timewheel.Wheel.Ticks.{AllIn, put-AllIn, link-IsWindowed}
use uio.Timewheel.Wheel.Window.{Slotted, IsWindowed, mem-store}
use uio.Timewheel.Wheel.{Wheel, tick_of, next_slot, link}

pub record Steady (now : ℕ) (P : Wheel → Type 0) : Type 0 where
  pub freed : (w : Wheel) (e n : ℕ) → P w → P (record (free w e) { count = n })
  pub linked : (w : Wheel) (e : ℕ) → now < w.when_of e → P w → P (link (free w e) e)

pub report_entry-keeps :
    (now : ℕ) (P : Wheel → Type 0) (r : Report) (e : ℕ)
    → Steady now P
    → P r.0
    → P (report_entry r e now).0
unfolding report_entry
report_entry-keeps now P (w, due) e k v =
    if-elim (λ (r : Report). P r.0) (leb (w.when_of e) now)
      (record (free w e) { count = w.count - 1 }, due ++ (e ∷ [])) (link (free w e) e, due)
      (λ h. k.freed w e (w.count - 1) v) (λ h. k.linked w e (ground (arith, h)) v)

pub report_entries-keeps :
    (now : ℕ) (P : Wheel → Type 0) (es : List ℕ) (r : Report)
    → Steady now P
    → P r.0
    → P (report_entries r es now).0
unfolding report_entries
report_entries-keeps now P [] r k v = v
report_entries-keeps now P (e ∷ es) r k v =
    report_entries-keeps now P es (report_entry r e now) k (report_entry-keeps now P r e k v)

report_list-keeps :
    (now : ℕ) (P : Wheel → Type 0) (w : Wheel) (due : List ℕ) (slot : ℕ) (l : List ℕ)
    → Steady now P
    → (l ≡ [] → P w)
    → P (empty_slot w slot)
    → P (report_list (w, due) slot l now).0
report_list-keeps now P w due slot [] k v c = v refl
report_list-keeps now P w due slot (e ∷ es) k v c =
    report_entries-keeps now P (e ∷ es) (empty_slot w slot, due) k c

pub report_slot-keeps :
    (now : ℕ) (P : Wheel → Type 0) (w : Wheel) (due : List ℕ) (slot : ℕ)
    → Steady now P
    → (w.ring slot ≡ [] → P w)
    → P (empty_slot w slot)
    → P (report_slot (w, due) slot now).0
unfolding report_slot
report_slot-keeps now P w due slot k v c = report_list-keeps now P w due slot (w.ring slot) k v c

-- A property of the other slots' entries is one of all entries when a slot is handled.
pub report_slot-AllIn :
    (now : ℕ) (P : Wheel → Type 0) (Q : ℕ → ℕ → Type 0) (w : Wheel) (due : List ℕ) (slot : ℕ)
    → Steady now P
    → ((s e : ℕ) → mem e (w.ring s) ≡ true → s ≢ slot → Q s e)
    → (AllIn Q w.ring → P w)
    → (AllIn Q (store w.ring slot []) → P (empty_slot w slot))
    → P (report_slot (w, due) slot now).0
report_slot-AllIn now P Q w due slot k q v c =
    report_slot-keeps now P w due slot k
      (λ z. v (λ s e m. q s e m (λ h. absurd (ground (arith, at e z, of s e h, m)))))
      (c (λ s e m.
        q s e (ground (arith, mem-store w.ring slot [] s e, m))
          (λ h. absurd (ground (arith, mem-store w.ring slot [] s e, m, h)))))
  where
    at : (e : ℕ) → w.ring slot ≡ [] → mem e (w.ring slot) ≡ false
    at e z = ap (mem e) z

    of : (s e : ℕ) → s ≡ slot → mem e (w.ring s) ≡ mem e (w.ring slot)
    of s e h = ap (λ j. mem e (w.ring j)) h

pub IsWindowed-Steady : (now : ℕ) → Steady now IsWindowed
IsWindowed-Steady now = record {
  freed = λ w e n v. v;
  linked = λ w e h v. link-IsWindowed (free w e) e v;
}

-- The entries of the ring are in the future.
abbrev pub IsAhead : ℕ → Wheel → Type 0
IsAhead now w = AllIn (λ s e. now < w.when_of e) w.ring

pub IsAhead-Steady : (now : ℕ) → Steady now (IsAhead now)
IsAhead-Steady now = record {
  freed = λ w e n v. v;
  linked = λ w e h v.
      link-elim (λ r. IsAhead now r) (free w e) e (λ l. v)
        (λ l. put-AllIn (λ s x. now < w.when_of x) (free w e) e (slot_of (free w e) e) v h);
}

pub next_slot-mod : (w : Wheel) → next_slot w ≡ (w.cursor + 1) % w.buckets
next_slot-mod w = mod-add-mod w.cursor w.buckets 1

-- One tick moves the window of every slot but the one whose turn it is.
pub tick-Slotted :
    (w : Wheel) (s e : ℕ)
    → Slotted w s e
    → s ≢ (w.cursor + 1) % w.buckets
    → Slotted (record w { cursor = w.cursor + 1 }) s e
tick-Slotted w s e v ne = ((omega (arith, v)), ground (arith, v, ne, next_slot-mod w, last))
  where
    last :
        tick_of w.tick (w.when_of e) ≡ w.cursor + 1
        → tick_of w.tick (w.when_of e) % w.buckets ≡ (w.cursor + 1) % w.buckets
    last h = ap (λ t. t % w.buckets) h

pub step_ticks-IsWindowed :
    (now steps : ℕ) (r : Report) → IsWindowed r.0 → IsWindowed (step_ticks steps r now).0
unfolding step_ticks
step_ticks-IsWindowed now zero r v = v
step_ticks-IsWindowed now (suc steps) (w, due) v =
    let next = record w { cursor = w.cursor + 1 } in
    let slot = (w.cursor + 1) % w.buckets in
    step_ticks-IsWindowed now steps (report_slot (next, due) slot now) (
      report_slot-AllIn now IsWindowed (Slotted next) next due slot (IsWindowed-Steady now)
        (λ s e m ne. tick-Slotted w s e (v s e m) ne) (λ a. a) (λ a. a))

pub cursor-Steady : (now c : ℕ) → Steady now (λ r. r.cursor ≡ c)
cursor-Steady now c = record {
  freed = λ w e n v. v;
  linked = λ w e h v. link-elim (λ r. r.cursor ≡ c) (free w e) e (λ l. v) (λ l. v);
}

pub step_ticks-cursor :
    (now steps : ℕ) (r : Report) → (step_ticks steps r now).0.cursor ≡ r.0.cursor + steps
unfolding step_ticks
step_ticks-cursor now zero r = omega arith
step_ticks-cursor now (suc steps) (w, due) =
    let next = record w { cursor = w.cursor + 1 } in
    let slot = (w.cursor + 1) % w.buckets in
    let at =
      report_slot-keeps now (λ r. r.cursor ≡ w.cursor + 1) next due slot
        (cursor-Steady now (w.cursor + 1)) (λ z. refl) refl in
    omega (arith, at, step_ticks-cursor now steps (report_slot (next, due) slot now))
