-- ===== src/Timewheel/Advance/Sweep.antt =====
-- The sweep of a gap longer than the window: when every entry of the ring is due, it empties the ring.
use uio.Prelude.Keys.{mem}
use uio.Prelude.Store.{store, store-elim}
use uio.Prelude.{
  ℕ, zero, suc, ◌+◌, ◌-◌, ◌*◌, ◌/◌, ◌%◌, ◌≡◌, ◌≢◌, refl, ap, sym, subst, ◌∙◌, true, false, not,
  List, [], ◌∷◌, ◌++◌, ltb, leb, arith, ◌≤◌, ◌<◌, if-elim, Bool-cases, inl, inr, ℕ_discrete,
}
use uio.Timewheel.Advance.Phases.{sweep_word-Run}
use uio.Timewheel.Advance.Run.{Run, free, empty_slot}
use uio.Timewheel.Advance.{
  Report, report_entry, report_entries, report_list, report_slot, sweep_word, sweep,
}
use uio.Timewheel.Summary.First.{IsLowest, trailing_zeros64-IsLowest}
use uio.Timewheel.Summary.{Word, trailing_zeros64, is_zero}
use uio.Timewheel.Wheel.Ticks.{AllIn, store-AllIn}
use uio.Timewheel.Wheel.Window.{Base}
use uio.Timewheel.Wheel.{Wheel, link, is_empty}

abbrev pub AllDue : ℕ → Wheel → Type 0
AllDue now w = AllIn (λ s e. w.when_of e ≤ now) w.ring

-- What clearing a slot and freeing its entries keep.
pub record Clears (P : Wheel → Type 0) : Type 0 where
  pub freed : (w : Wheel) (e n : ℕ) → P w → P (record (free w e) { count = n })
  pub cleared : (w : Wheel) (slot : ℕ) → P w → P (empty_slot w slot)

report_entries-due :
    (now : ℕ) (P : Wheel → Type 0) (es : List ℕ) (r : Report)
    → Clears P
    → ((e : ℕ) → mem e es ≡ true → r.0.when_of e ≤ now)
    → P r.0
    → P (report_entries r es now).0
unfolding report_entries report_entry
report_entries-due now P [] r k d v = v
report_entries-due now P (e ∷ es) (w, due) k d v =
    let head : w.when_of e ≤ now = d e (ground arith) in
    let both =
      if-elim (λ (r : Report). ((x : ℕ) → mem x es ≡ true → r.0.when_of x ≤ now) × P r.0)
        (leb (w.when_of e) now) (record (free w e) { count = w.count - 1 }, due ++ (e ∷ []))
        (link (free w e) e, due)
        (λ h. ((λ x m. d x (ground (arith, m))), k.freed w e (w.count - 1) v))
        (λ h. absurd (ground (arith, h, head))) in
    report_entries-due now P es _ k both.0 both.1

report_slot-due :
    (now : ℕ) (P : Wheel → Type 0) (w : Wheel) (due : List ℕ) (slot : ℕ) (l : List ℕ)
    → w.ring slot ≡ l
    → Clears P
    → AllDue now w
    → (w.ring slot ≡ [] → P w)
    → P (empty_slot w slot)
    → P (report_list (w, due) slot l now).0
report_slot-due now P w due slot [] h k d v c = v h
report_slot-due now P w due slot (e ∷ es) h k d v c =
    report_entries-due now P (e ∷ es) (empty_slot w slot, due) k
      (λ x m. d slot x (ap (mem x) h ∙ m)) c

AllDue-Clears : (now : ℕ) → Clears (AllDue now)
AllDue-Clears now = record {
  freed = λ w e n v. v;
  cleared = λ w slot v. store-AllIn (λ s e. w.when_of e ≤ now) w.ring slot v;
}

abbrev pub Vacant : ℕ → Wheel → Type 0
Vacant s w = w.ring s ≡ []

Vacant-Clears : (s : ℕ) → Clears (Vacant s)
Vacant-Clears s = record {
  freed = λ w e n v. v;
  cleared = λ w slot v. store-elim (λ l. l ≡ []) w.ring slot s [] (λ e. refl) (λ ne. v);
}

report_slot-AllDue :
    (now : ℕ) (r : Report) (slot : ℕ) → AllDue now r.0 → AllDue now (report_slot r slot now).0
unfolding report_slot
report_slot-AllDue now (w, due) slot d =
    report_slot-due now (AllDue now) w due slot (w.ring slot) refl (AllDue-Clears now) d (λ z. d)
      ((AllDue-Clears now).cleared w slot d)

report_slot-Vacant :
    (now : ℕ) (r : Report) (slot s : ℕ)
    → AllDue now r.0
    → (s ≢ slot → Vacant s r.0)
    → Vacant s (report_slot r slot now).0
unfolding report_slot
report_slot-Vacant now (w, due) slot s d v =
    report_slot-due now (Vacant s) w due slot (w.ring slot) refl (Vacant-Clears s) d
      (λ z. elim (ℕ_discrete s slot) [ yes e ↦ ap w.ring e ∙ z | no ne ↦ v ne ])
      (store-elim (λ l. l ≡ []) w.ring slot s [] (λ e. refl) (λ ne. v (λ e. ne (sym e))))

sweep_word-AllDue :
    (now fuel : ℕ) (r : Report) (word : ℕ) (occupied : Word)
    → AllDue now r.0
    → AllDue now (sweep_word fuel r word occupied now).0
unfolding sweep_word
sweep_word-AllDue now zero r word occupied d = d
sweep_word-AllDue now (suc fuel) r word occupied d =
    let bit = trailing_zeros64 occupied in
    let next = report_slot r (word * 64 + bit) now in
    if-elim (λ (s : Report). AllDue now s.0) (is_zero occupied) r
      (sweep_word fuel next word (store occupied bit false) now) (λ h. d)
      (λ h.
        sweep_word-AllDue now fuel next word (store occupied bit false)
          (report_slot-AllDue now r (word * 64 + bit) d))

sweep_word-stays :
    (now fuel : ℕ) (r : Report) (word : ℕ) (occupied : Word) (s : ℕ)
    → AllDue now r.0
    → Vacant s r.0
    → Vacant s (sweep_word fuel r word occupied now).0
unfolding sweep_word
sweep_word-stays now zero r word occupied s d v = v
sweep_word-stays now (suc fuel) r word occupied s d v =
    let bit = trailing_zeros64 occupied in
    let next = report_slot r (word * 64 + bit) now in
    if-elim (λ (q : Report). Vacant s q.0) (is_zero occupied) r
      (sweep_word fuel next word (store occupied bit false) now) (λ h. v)
      (λ h.
        sweep_word-stays now fuel next word (store occupied bit false) s
          (report_slot-AllDue now r (word * 64 + bit) d)
          (report_slot-Vacant now r (word * 64 + bit) s d (λ ne. v)))

-- The fuel is enough: the bits below 64 less the fuel are done.
sweep_word-Vacant :
    (now fuel : ℕ) (r : Report) (word : ℕ) (occupied : Word) (b : ℕ)
    → AllDue now r.0
    → ((i : ℕ) → i + fuel < 64 → occupied i ≡ false)
    → (occupied b ≡ false → Vacant (word * 64 + b) r.0)
    → b < 64
    → Vacant (word * 64 + b) (sweep_word fuel r word occupied now).0
unfolding sweep_word
sweep_word-Vacant now zero r word occupied b d clear v h = v (clear b (omega (arith, h)))
sweep_word-Vacant now (suc fuel) r word occupied b d clear v h =
    let bit = trailing_zeros64 occupied in
    let low = trailing_zeros64-IsLowest occupied in
    let next = report_slot r (word * 64 + bit) now in
    if-elim (λ (q : Report). Vacant (word * 64 + b) q.0) (is_zero occupied) r
      (sweep_word fuel next word (store occupied bit false) now)
      (λ z. v (low.clear b (ground (arith, z, h, low.below)) h))
      (λ z.
        let in_word : bit < 64 = ground (arith, z, low.below) in
        sweep_word-Vacant now fuel next word (store occupied bit false) b
          (report_slot-AllDue now r (word * 64 + bit) d) (λ i lt. done i lt low in_word)
          (λ f.
            report_slot-Vacant now r (word * 64 + bit) (word * 64 + b) d
              (λ ne. v (ground (arith, ne, f))))
          h)
  where
    done :
        (i : ℕ)
        → i + fuel < 64
        → IsLowest occupied (trailing_zeros64 occupied)
        → trailing_zeros64 occupied < 64
        → store occupied (trailing_zeros64 occupied) false i ≡ false
    done i lt low in_word = ground (
      arith,
      lt,
      low.here in_word,
      low.clear i,
      clear i,
      clear (trailing_zeros64 occupied),
      in_word,
    )

sweep-stays :
    (now words word : ℕ) (r : Report) (s : ℕ)
    → AllDue now r.0
    → Vacant s r.0
    → Vacant s (sweep words word r now).0
unfolding sweep
sweep-stays now zero word r s d v = v
sweep-stays now (suc words) word r s d v =
    sweep-stays now words (suc word) _ s (sweep_word-AllDue now 64 r word (r.0.summary word) d)
      (sweep_word-stays now 64 r word (r.0.summary word) s d v)

pub sweep-Vacant :
    (start : Wheel) (now words word : ℕ) (r : Report) (s : ℕ)
    → Run start now r []
    → AllDue now r.0
    → word * 64 ≤ s
    → s < (word + words) * 64
    → Vacant s (sweep words word r now).0
unfolding sweep
sweep-Vacant start now zero word r s v d lo hi = absurd (omega (arith, lo, hi))
sweep-Vacant start now (suc words) word r s v d lo hi =
    let occupied = r.0.summary word in
    let d' = sweep_word-AllDue now 64 r word occupied d in
    elim (Bool-cases (ltb s (suc word * 64))) [
      | inl h ↦
          (let b : ℕ = s - word * 64 in
            let at : word * 64 + b ≡ s = omega (arith, lo) in
            let lt : b < 64 = ground (arith, h, lo) in
            let here =
              sweep_word-Vacant now 64 r word occupied b d (λ i f. absurd (omega (arith, f)))
                (λ f. bits r word b lt v.base f) lt in
            sweep-stays now words (suc word) _ s d'
              (subst (λ j. Vacant j (sweep_word 64 r word occupied now).0) at here))
      | inr h ↦
          sweep-Vacant start now words (suc word) _ s
            (sweep_word-Run start now 64 r word occupied v) d' (ground (arith, h))
            (omega (arith, hi))
    ]
  where
    empty : (l : List ℕ) → not (is_empty l) ≡ false → l ≡ []
    empty [] h = refl
    empty (e ∷ es) h = absurd (ground (arith, h))

    bits :
        (r : Report) (word b : ℕ)
        → b < 64
        → Base r.0 []
        → r.0.summary word b ≡ false
        → Vacant (word * 64 + b) r.0
    bits r word b lt v f =
        let at = v.bits (word * 64 + b) in
        let high : (word * 64 + b) / 64 ≡ word = ground (arith, lt) in
        let low : (word * 64 + b) % 64 ≡ b = ground (arith, lt) in
        empty (r.0.ring (word * 64 + b)) (
          sym at
          ∙ (ap (λ j. r.0.summary j ((word * 64 + b) % 64)) high ∙ (ap (r.0.summary word) low ∙ f)))
