-- ===== src/Umux/Inbox/Change.antt =====
-- What each operation changes: one stream, and the budget by what that stream gained or lost.
use uio.Prelude.Int64.{half, sle}
use uio.Prelude.Store.{store, store-elim}
use uio.Prelude.{
  ℕ, ◌+◌, ◌^◌, ◌≡◌, refl, ap, sym, subst, ◌∙◌, true, false, length, arith, ◌<◌, if-elim,
}
use uio.Umux.Inbox.{Receiver, Inbox, put_stream, low_water, release_inbound, send_window_update}
use uio.Umux.Inbox.Budget.{mark, total, total-same, total-store, total-ge, release-Released}
use uio.Umux.Inbox.Stream.{StreamOk}

-- A session whose streams have numbers below the bound.
pub record Ok (bound : ℕ) (s : Inbox) : Type 0 where
  pub stream : (id : ℕ) → StreamOk s.window_size (s.streams id)
  pub charged : s.pending_bytes ≡ total s.streams bound
  pub few : s.pending_bytes < half
  pub held : s.read_held ≡ true → mark s < s.pending_bytes
  pub window_small : s.window_size < 2 ^ 62
  pub budget_small : s.session_window < half

-- The stream `id` became `st`; a session that held its reads holds them or was woken.
pub record Change (s : Inbox) (id : ℕ) (st : Receiver) (t : Inbox) : Type 0 where
  pub streams : (j : ℕ) → t.streams j ≡ store s.streams id st j
  pub pending :
      t.pending_bytes + length (s.streams id).unread.run ≡ s.pending_bytes + length st.unread.run
  pub window : t.window_size ≡ s.window_size
  pub budget : t.session_window ≡ s.session_window
  pub held : t.read_held ≡ true → mark s < t.pending_bytes
  pub woken : s.read_held ≡ true → t.read_held ≡ false → s.wakes < t.wakes

pub Change-Ok :
    {bound : ℕ} (s t : Inbox) (id : ℕ) (st : Receiver)
    → Ok bound s
    → id < bound
    → StreamOk s.window_size st
    → t.pending_bytes < half
    → Change s id st t
    → Ok bound t
Change-Ok {bound = bound} s t id st v lt ok few c = record {
  stream = λ j.
      subst (λ w. StreamOk w (t.streams j)) (sym c.window)
        (subst (λ x. StreamOk s.window_size x) (sym (c.streams j))
          (store-elim (λ x. StreamOk s.window_size x) s.streams id j st (λ e. ok)
            (λ ne. v.stream j)));
  charged =
      let gained = total-store s.streams id st bound lt in
      let same =
        total-same t.streams (store s.streams id st) bound
          (λ i below. ap (λ (x : Receiver). length x.unread.run) (c.streams i)) in
      omega (arith, v.charged, gained, same, c.pending);
  few = few;
  held = λ h. subst (λ x. x < t.pending_bytes) (same_mark c.budget c.window) (c.held h);
  window_small = omega (arith, c.window, v.window_small);
  budget_small = omega (arith, c.budget, v.budget_small);
}
  where
    same_mark :
        t.session_window ≡ s.session_window → t.window_size ≡ s.window_size → mark s ≡ mark t
    same_mark e f =
        ap (λ x. low_water x s.window_size) (sym e) ∙ ap (λ y. low_water t.session_window y) (sym f)

-- Nothing changed but what the budget does not name.
pub quiet-Change :
    {bound : ℕ} (s t : Inbox) (id : ℕ) (st : Receiver)
    → Ok bound s
    → ((j : ℕ) → t.streams j ≡ store s.streams id st j)
    → length st.unread.run ≡ length (s.streams id).unread.run
    → t.pending_bytes ≡ s.pending_bytes
    → t.window_size ≡ s.window_size
    → t.session_window ≡ s.session_window
    → t.read_held ≡ s.read_held
    → Change s id st t
quiet-Change s t id st v e len pending window budget held = record {
  streams = e;
  pending = omega (arith, pending, len);
  window = window;
  budget = budget;
  held = λ h. omega (arith, pending, v.held (sym held ∙ h));
  woken = λ h g. absurd (clash (sym h ∙ (sym held ∙ g)));
}
  where
    clash : true ≡ false → ⊥
    clash h = cc

pub same-Change : {bound : ℕ} (s : Inbox) (id : ℕ) → Ok bound s → Change s id (s.streams id) s
same-Change s id v =
    quiet-Change s s id (s.streams id) v
      (λ j.
        store-elim (λ x. s.streams j ≡ x) s.streams id j (s.streams id) (λ e. ap s.streams (sym e))
          (λ ne. refl))
      refl refl refl refl refl

-- A stream loses `n` bytes, and the budget gets them back.
pub freed-Change :
    {bound : ℕ} (s : Inbox) (id : ℕ) (st : Receiver) (n : ℕ)
    → Ok bound s
    → id < bound
    → length st.unread.run + n ≡ length (s.streams id).unread.run
    → Change s id st (release_inbound (put_stream s id st) n)
freed-Change {bound = bound} s id st n v lt len =
    let some_ = total-ge s.streams id bound lt in
    let r =
      release-Released (put_stream s id st) n v.budget_small (omega (arith, v.window_small)) v.few
        (omega (arith, len, some_, v.charged)) in
    record {
      streams = λ j. ap (λ (f : ℕ → Receiver). f j) r.streams;
      pending = omega (arith, r.pending, len, some_, v.charged);
      window = r.window;
      budget = r.budget;
      held = λ h. (r.held h).1;
      woken = λ h g. omega (arith, r.woken h g);
    }

-- A window update only reaches the sending side.
pub updated-Change :
    (s : Inbox) (id : ℕ) (st : Receiver) (t : Inbox) (i delta : ℕ)
    → Change s id st t
    → Change s id st (send_window_update t i delta)
unfolding send_window_update
updated-Change s id st t i delta c =
    if-elim (λ (u : Inbox). Change s id st u) (sle delta 0) _ _ (λ e. c)
      (λ e. record {
        streams = c.streams;
        pending = c.pending;
        window = c.window;
        budget = c.budget;
        held = c.held;
        woken = c.woken;
      })
