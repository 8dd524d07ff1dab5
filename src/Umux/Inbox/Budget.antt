-- ===== src/Umux/Inbox/Budget.antt =====
-- The receive budget of a session: what is charged is what its streams hold unread.
use uio.Prelude.Int64.{half, sub64, sle, slt}
use native.Mathlib.Decide.{ℕ_discrete}
use uio.Prelude.Store.{store, store-elim, store-other}
use uio.Prelude.{
  ℕ, zero, suc, ◌+◌, ◌-◌, ◌≡◌, refl, ap, true, false, ◌&&◌, length, if◌then◌else◌, arith, ◌≤◌, ◌<◌,
  if-elim,
}
use uio.Umux.Inbox.{Receiver, Inbox, low_water, release_inbound}

-- The bytes that the streams below a bound hold.
abbrev pub total : (ℕ → Receiver) → ℕ → ℕ
total f zero = 0
total f (suc n) = total f n + length (f n).unread.run

pub total-same :
    (f g : ℕ → Receiver) (n : ℕ)
    → ((i : ℕ) → i < n → length (f i).unread.run ≡ length (g i).unread.run)
    → total f n ≡ total g n
total-same f g zero e = refl
total-same f g (suc n) e =
    omega (arith, total-same f g n (λ i lt. e i (omega (arith, lt))), e n (omega arith))

-- One stream changes the total by what it gained or lost.
pub total-store :
    (f : ℕ → Receiver) (id : ℕ) (st : Receiver) (n : ℕ)
    → id < n
    → total (store f id st) n + length (f id).unread.run ≡ total f n + length st.unread.run
total-store f id st zero lt = absurd (omega (arith, lt))
total-store f id st (suc n) lt = elim (ℕ_discrete id n) [
  | yes e ↦
      (let hit =
          ap (λ (x : Receiver). length x.unread.run)
            (store-elim (λ x. x ≡ st) f id n st (λ e. refl) (λ ne. absurd (ne e))) in
        let same = ap (λ i. length (f i).unread.run) e in
        omega (
          arith,
          hit,
          same,
          total-same (store f id st) f n (λ i below.
              ap (λ (x : Receiver). length x.unread.run)
                (store-other f id i st (λ g. absurd (omega (arith, below, g, e))))),
        ))
  | no ne ↦
      (let miss = ap (λ (x : Receiver). length x.unread.run) (store-other f id n st ne) in
        omega (arith, miss, total-store f id st n (omega (arith, lt, ne))))
]

pub total-zero :
    (f : ℕ → Receiver) (n : ℕ) → ((i : ℕ) → length (f i).unread.run ≡ 0) → total f n ≡ 0
total-zero f zero e = refl
total-zero f (suc n) e = omega (arith, total-zero f n e, e n)

pub low_water-le :
    (budget window : ℕ) → budget < half → window < half → low_water budget window ≤ budget
unfolding low_water
low_water-le budget window b w = ground (arith, b, w)

-- The mark that a held session has to fall to, and whether its reads are held.
abbrev pub mark : Inbox → ℕ
mark s = low_water s.session_window s.window_size

-- What a release of `n` charged bytes does.
pub record Released (s : Inbox) (n : ℕ) (t : Inbox) : Type 0 where
  pub pending : t.pending_bytes ≡ s.pending_bytes - n
  pub streams : t.streams ≡ s.streams
  pub window : t.window_size ≡ s.window_size
  pub budget : t.session_window ≡ s.session_window
  pub held : t.read_held ≡ true → s.read_held ≡ true × mark s < t.pending_bytes
  pub woken : s.read_held ≡ true → t.read_held ≡ false → t.wakes ≡ suc s.wakes

left-exact : (p n : ℕ) → p < half → n ≤ p → (if slt (sub64 p n) 0 then 0 else sub64 p n) ≡ p - n
left-exact p n small le = ground (arith, small, le)

pub sle-above : (a b : ℕ) → a < half → b < half → sle a b ≡ false → b < a
sle-above a b x y e = ground (arith, x, y, e)

pub release-Released :
    (s : Inbox) (n : ℕ)
    → s.session_window < half
    → s.window_size < half
    → s.pending_bytes < half
    → n ≤ s.pending_bytes
    → Released s n (release_inbound s n)
unfolding release_inbound
release-Released s n b w p le =
    let left = if slt (sub64 s.pending_bytes n) 0 then 0 else sub64 s.pending_bytes n in
    let exact : left ≡ s.pending_bytes - n = left-exact s.pending_bytes n p le in
    if-elim (λ (t : Inbox). Released s n t) (s.read_held && sle left (mark s))
      (record s { pending_bytes = left; read_held = false; wakes = suc s.wakes })
      (record s { pending_bytes = left })
      (λ e. record {
        pending = exact;
        streams = refl;
        window = refl;
        budget = refl;
        held = λ h. absurd cc;
        woken = λ h g. refl;
      })
      (λ e. record {
        pending = exact;
        streams = refl;
        window = refl;
        budget = refl;
        held = λ h. (
          h,
          sle-above left (mark s) (omega (arith, exact, p))
              (omega (arith, b, low_water-le s.session_window s.window_size b w))
              (ground (arith, e, h)),
        );
        woken = λ h g. absurd cc;
      })

pub total-ge : (f : ℕ → Receiver) (id n : ℕ) → id < n → length (f id).unread.run ≤ total f n
total-ge f id zero lt = absurd (omega (arith, lt))
total-ge f id (suc n) lt = elim (ℕ_discrete id n) [
  | yes e ↦ (let same = ap (λ i. length (f i).unread.run) e in omega (arith, same))
  | no ne ↦ omega (arith, total-ge f id n (omega (arith, lt, ne)))
]

-- Bytes that are charged are some stream's.
pub some_unread :
    (f : ℕ → Receiver) (n : ℕ) → 0 < total f n → (id : ℕ) × 0 < length (f id).unread.run
some_unread f zero pos = absurd (omega (arith, pos))
some_unread f (suc n) pos =
    here_or_below (length (f n).unread.run) refl (λ e. some_unread f n (omega (arith, pos, e)))
  where
    here_or_below :
        (k : ℕ)
        → length (f n).unread.run ≡ k
        → (length (f n).unread.run ≡ 0 → (id : ℕ) × 0 < length (f id).unread.run)
        → (id : ℕ) × 0 < length (f id).unread.run
    here_or_below zero e below = below e
    here_or_below (suc k) e below = (n, omega (arith, e))
