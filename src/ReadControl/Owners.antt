-- ===== src/ReadControl/Owners.antt =====
-- The count of owners is the number of flags that are set, whatever is called in whatever order.
use uio.Prelude.{
  ℕ, zero, suc, ◌+◌, ◌^◌, ◌≤◌, ◌<◌, ◌≡◌, ◌≢◌, ◌↔◌, ◌⊎◌, dec_lt, refl, ap, sym, ◌∙◌, Bool-cases, inl,
  inr, Bool, true, false, Option, none, some, List, [], ◌∷◌, ◌++◌, length, get_or, set,
  length-append, ◌==◌, if◌then◌else◌, arith,
}
use uio.ReadControl.{
  Control, Call, new, new_pause, manual_or_new, pause, resume, application, pause_reads,
  resume_reads, reads_paused, is_held, consumer_runs, step, run, new_owner, pauses, resumes,
  app_pauses, app_resumes, consumer, resume_asked, increment, decrement,
}

-- How many flags are set.
abbrev pub count : List Bool → ℕ
count [] = 0
count (b ∷ bs) = (if b then 1 else 0) + count bs

count-le : (bs : List Bool) → count bs ≤ length bs
count-le [] = omega arith
count-le (b ∷ bs) = ground (arith, count-le bs)

count-snoc : (bs : List Bool) → count (bs ++ (false ∷ [])) ≡ count bs
count-snoc [] = refl
count-snoc (b ∷ bs) = omega (arith, count-snoc bs)

count-set :
    (bs : List Bool) (i : ℕ) (b : Bool)
    → i < length bs
    → count (set bs i b) + (if get_or bs i false then 1 else 0) ≡ count bs + (if b then 1 else 0)
count-set [] i b h = absurd (omega arith)
count-set (c ∷ bs) zero b h = omega arith
count-set (c ∷ bs) (suc i) b h = omega (arith, count-set bs i b)

length-set : (bs : List Bool) (i : ℕ) (b : Bool) → length (set bs i b) ≡ length bs
length-set [] i b = refl
length-set (c ∷ bs) zero b = refl
length-set (c ∷ bs) (suc i) b = ap suc (length-set bs i b)

get_or-snoc : (bs : List Bool) (i : ℕ) → get_or (bs ++ (false ∷ [])) i false ≡ get_or bs i false
get_or-snoc [] zero = refl
get_or-snoc [] (suc i) = refl
get_or-snoc (b ∷ bs) zero = refl
get_or-snoc (b ∷ bs) (suc i) = get_or-snoc bs i

get_or-set :
    (bs : List Bool) (i j : ℕ) (b : Bool)
    → i < length bs
    → get_or (set bs i b) j false ≡ (if i == j then b else get_or bs j false)
get_or-set [] i j b h = absurd (omega arith)
get_or-set (c ∷ bs) zero zero b h = refl
get_or-set (c ∷ bs) zero (suc j) b h = ground arith
get_or-set (c ∷ bs) (suc i) zero b h = ground arith
get_or-set (c ∷ bs) (suc i) (suc j) b h = ground (arith, get_or-set bs i j b)

count-found : (bs : List Bool) → 0 < count bs → (p : ℕ) × (get_or bs p false ≡ true)
count-found [] h = absurd (omega arith)
count-found (true ∷ bs) h = (0, refl)
count-found (false ∷ bs) h = let (p, e) = count-found bs (omega arith) in (suc p, e)

count-pos : (bs : List Bool) (p : ℕ) → get_or bs p false ≡ true → 0 < count bs
count-pos [] p e = cc
count-pos (b ∷ bs) zero e = ground arith
count-pos (b ∷ bs) (suc p) e = omega (arith, count-pos bs p e)

-- An owner that was made, of `n`; a nil owner is always known.
abbrev pub KnownOf : ℕ → Option ℕ → Type 0
KnownOf n none = Unit
KnownOf n (some p) = p < n

abbrev pub Known : Control → Option ℕ → Type 0
Known c p = KnownOf (length c.pauses) p

KnownOf-mono : {m n : ℕ} (p : Option ℕ) → m ≤ n → KnownOf m p → KnownOf n p
KnownOf-mono none h k = k
KnownOf-mono (some p) h k = omega arith

pub record Inv (c : Control) : Type 0 where
  pub counted : c.owners ≡ count c.pauses
  pub few : length c.pauses < 2 ^ 32
  pub manual_known : Known c c.manual

-- Setting or clearing a flag, with the count that goes with it.
flag-Inv :
    (c : Control) (p n : ℕ) (owed b : Bool)
    → Inv c
    → p < length c.pauses
    → n ≡ count (set c.pauses p b)
    → Inv (record c { owners = n; owed = owed; pauses = set c.pauses p b })
flag-Inv c p n owed b v k e = record {
  counted = e;
  few = omega (arith, length-set c.pauses p b, v.few);
  manual_known = KnownOf-mono c.manual (omega (arith, length-set c.pauses p b)) v.manual_known;
}

pause-Inv : (c : Control) (p : Option ℕ) (f : Bool) → Inv c → Known c p → Inv (pause c p f).0
unfolding pause
pause-Inv c none f v k = v
pause-Inv c (some p) true v k = v
pause-Inv c (some p) false v k = elim (Bool-cases (get_or c.pauses p false)) [
  | inl e ↦ rw e v
  | inr e ↦ rw e (
      flag-Inv c p (increment c.owners) c.owed true v k (
        ground (
          arith,
          count-set c.pauses p true,
          count-le (set c.pauses p true),
          length-set c.pauses p true,
          v.few,
          v.counted,
        )))
]

resume-Inv : (c : Control) (p : Option ℕ) → Inv c → Known c p → Inv (resume c p).0
unfolding resume
resume-Inv c none v k = v
resume-Inv c (some p) v k = elim (Bool-cases (get_or c.pauses p false)) [
  | inl e ↦ rw e (
      flag-Inv c p (decrement c.owners) true false v k
        (ground (arith, count-set c.pauses p false, count-le c.pauses, v.few, v.counted)))
  | inr e ↦ rw e v
]

-- A new owner starts without a pause.
snoc-Inv :
    (c : Control) (manual : Option ℕ)
    → Inv c
    → length c.pauses + 1 < 2 ^ 32
    → KnownOf (length c.pauses + 1) manual
    → Inv (record c { manual = manual; pauses = c.pauses ++ (false ∷ []) })
snoc-Inv c manual v room k = record {
  counted = v.counted ∙ sym (count-snoc c.pauses);
  few = omega (arith, length-append c.pauses (false ∷ []));
  manual_known = KnownOf-mono manual (omega (arith, length-append c.pauses (false ∷ []))) k;
}

manual_or_new-Inv :
    (c : Control) (m : Option ℕ)
    → Inv c
    → KnownOf (length c.pauses) m
    → length c.pauses + 1 < 2 ^ 32
    → Inv (manual_or_new c m).0 × ((manual_or_new c m).1 < length (manual_or_new c m).0.pauses)
unfolding manual_or_new
manual_or_new-Inv c none v k room = (
  snoc-Inv c (some (length c.pauses)) v room (omega arith),
  omega (arith, length-append c.pauses (false ∷ [])),
)
manual_or_new-Inv c (some p) v k room = (v, k)

application-Inv :
    (c : Control)
    → Inv c
    → length c.pauses + 1 < 2 ^ 32
    → Inv (application c).0 × ((application c).1 < length (application c).0.pauses)
unfolding application
application-Inv c v room = manual_or_new-Inv c c.manual v v.manual_known room

-- The calls that a program can make: on owners that exist, and not 2 ^ 32 of them.
abbrev pub CanCall : Control → Call → Type 0
CanCall c (pauses p) = Known c p
CanCall c (resumes p) = Known c p
CanCall c consumer = Unit
CanCall c call = length c.pauses + 1 < 2 ^ 32

abbrev pub CanRun : Control → List (Call × Bool) → Type 0
CanRun c [] = Unit
CanRun c ((call, f) ∷ calls) = CanCall c call × CanRun (step c call f) calls

consumer_runs-Inv : (c : Control) → Inv c → Inv (consumer_runs c)
unfolding consumer_runs
consumer_runs-Inv c v = elim (Bool-cases c.owed) [
  | inl e ↦ simp e (record { counted = v.counted; few = v.few; manual_known = v.manual_known })
  | inr e ↦ simp e v
]

step-Inv : (c : Control) (call : Call) (f : Bool) → Inv c → CanCall c call → Inv (step c call f)
unfolding step
step-Inv c new_owner f v k =
    unfold new_pause in snoc-Inv c c.manual v k (KnownOf-mono c.manual (omega arith) v.manual_known)
step-Inv c (pauses p) f v k = pause-Inv c p f v k
step-Inv c (resumes p) f v k = resume-Inv c p v k
step-Inv c app_pauses f v k =
    unfold pause_reads in
    pause-Inv _ (some (application c).1) f (application-Inv c v k).0 (application-Inv c v k).1
step-Inv c app_resumes f v k =
    unfold resume_reads in
    resume-Inv _ (some (application c).1) (application-Inv c v k).0 (application-Inv c v k).1
step-Inv c consumer f v k = ground (arith, consumer_runs-Inv c v)

run-Inv : (c : Control) (calls : List (Call × Bool)) → Inv c → CanRun c calls → Inv (run c calls)
unfolding run
run-Inv c [] v k = v
run-Inv c ((call, f) ∷ calls) v k = run-Inv (step c call f) calls (step-Inv c call f v k.0) k.1

new-Inv : Inv new
new-Inv = record { counted = refl; few = omega arith; manual_known = tt }

-- After any calls on a new control, by any owners in any order, input is paused exactly when some
-- owner's flag is set. The calls name owners that exist, and fewer than 2 ^ 32 owners are made.
pub reads_paused_iff :
    (calls : List (Call × Bool))
    → CanRun new calls
    → let c = run new calls in
      (reads_paused c ≡ true) ↔ ((p : ℕ) × (get_or c.pauses p false ≡ true))
unfolding reads_paused
reads_paused_iff calls k =
    let c = run new calls in
    let v : Inv c = run-Inv new calls new-Inv k in
    (
      λ e. count-found c.pauses (ground (arith, v.counted)),
      λ found.
          let pos : 0 < count c.pauses = count-pos c.pauses found.0 found.1 in
          ground (arith, v.counted),
    )

pause-held :
    (c : Control) (p : Option ℕ) (f : Bool)
    → Inv c
    → Known c p
    → is_held c ≡ true
    → is_held (pause c p f).0 ≡ true
unfolding pause is_held
pause-held c none f v k h = h
pause-held c (some p) true v k h = h
pause-held c (some p) false v k h = elim (Bool-cases (get_or c.pauses p false)) [
  | inl e ↦ rw e h
  | inr e ↦ rw e (
      ground (
        arith,
        count-set c.pauses p true,
        count-le (set c.pauses p true),
        length-set c.pauses p true,
        v.few,
        v.counted,
      ))
]

resume-held : (c : Control) (p : Option ℕ) → is_held c ≡ true → is_held (resume c p).0 ≡ true
unfolding resume is_held
resume-held c none h = h
resume-held c (some p) h = ground arith

application-held : (c : Control) → is_held c ≡ true → is_held (application c).0 ≡ true
unfolding application is_held manual_or_new
application-held c h = held_of c.manual
  where
    held_of : (m : Option ℕ) → is_held (manual_or_new c m).0 ≡ true
    held_of none = h
    held_of (some p) = h

none_set : (bs : List Bool) (q : ℕ) → count bs ≡ 0 → get_or bs q false ≡ false
none_set bs q h = elim (Bool-cases (get_or bs q false)) [
  | inl e ↦ absurd (omega (arith, count-pos bs q e))
  | inr e ↦ e
]

-- Clearing flag `p` leaves none exactly when no other flag was set.
clear-count :
    (bs : List Bool) (p : ℕ)
    → p < length bs
    → (count (set bs p false) ≡ 0) ↔ ((q : ℕ) → q ≢ p → get_or bs q false ≡ false)
clear-count bs p k = (
  λ zero_left q ne.
      ground (arith, get_or-set bs p q false k, none_set (set bs p false) q zero_left),
  λ others. elim (dec_lt 0 (count (set bs p false))) [
    | no h ↦ omega arith
    | yes h ↦
        (let (q, e) = count-found (set bs p false) h in
          absurd (ground (arith, get_or-set bs p q false k, others q)))
  ],
)

-- In a well-formed control, a resume of an owner that exists asks for a turn exactly when it lifts the
-- last pause: the flag of the owner was set, and that of no other.
pub resume_asks_iff :
    (c : Control) (p : ℕ)
    → Inv c
    → p < length c.pauses
    → ((resume c (some p)).1 ≡ resume_asked)
      ↔ ((get_or c.pauses p false ≡ true) × ((q : ℕ) → q ≢ p → get_or c.pauses q false ≡ false))
unfolding resume
resume_asks_iff c p v k = elim (Bool-cases (get_or c.pauses p false)) [
  | inl e ↦
      (let one : count (set c.pauses p false) + 1 ≡ count c.pauses =
          ground (arith, count-set c.pauses p false) in
        let left : decrement c.owners ≡ count (set c.pauses p false) =
          omega (arith, v.counted, count-le c.pauses, v.few) in
        let last = clear-count c.pauses p k in
        (λ asked. (e, last.0 (ground (arith, left))), λ only. ground (arith, left, last.1 only.1)))
  | inr e ↦ (λ asked. absurd (ground arith), λ only. cc)
]

-- In a well-formed control that is held, a call that a program can make leaves it held, but for the
-- consumer's own callback, and that only while no pause is held.
pub held-step :
    (c : Control) (call : Call) (f : Bool)
    → Inv c
    → CanCall c call
    → is_held c ≡ true
    → (is_held (step c call f) ≡ true) ⊎ ((call ≡ consumer) × (reads_paused c ≡ false))
unfolding step is_held
held-step c new_owner f v k h = unfold new_pause in inl h
held-step c (pauses p) f v k h = inl (pause-held c p f v k h)
held-step c (resumes p) f v k h = inl (resume-held c p h)
held-step c app_pauses f v k h =
    unfold pause_reads in
    inl (
      pause-held _ (some (application c).1) f (application-Inv c v k).0 (application-Inv c v k).1
        (application-held c h))
held-step c app_resumes f v k h =
    unfold resume_reads in inl (resume-held _ (some (application c).1) (application-held c h))
held-step c consumer f v k h = elim (Bool-cases (reads_paused c)) [
  | inl e ↦ rw e (inl h)
  | inr e ↦ inr (refl, e)
]
