-- ===== src/Umux/Inbox/Stream.antt =====
-- One stream of a session's receiving side: its unread bytes are what its window counts.
use uio.Prelude.Int64.{half}
use uio.Prelude.{
  ℕ, ◌+◌, ◌-◌, ◌^◌, ◌≡◌, refl, ap, sym, ◌∙◌, Bool, true, false, ◌&&◌, none, some, List, [], ◌∷◌,
  ◌++◌, length, drop, length-append, length-drop, drop-all, ◌==◌, arith, ◌≤◌, ◌<◌, if-elim,
}
use uio.Umux.Window as Window
use uio.Umux.Window.{RecvWindow, WindowError, exceeded, retune, new_recv_window, on_data}
use uio.Umux.Inbound as Inbound
use uio.Umux.Inbound.{set_borrowed, append, own, drop_all}
use uio.Umux.Inbound.Bytes as Bytes
use uio.Umux.Outbound.{Cause}
use uio.Umux.Inbox.{Receiver, new_receiver, receive}

-- What Go's `append` allocates holds what is asked for.
abbrev pub Enough : (ℕ → ℕ → ℕ) → Type 0
Enough grown = (c n : ℕ) → n ≤ grown c n

pub record StreamOk (window : ℕ) (st : Receiver) : Type 0 where
  pub sound : Bytes.Inv st.unread
  pub size : st.recv_win.size ≡ window
  pub counted : st.closed_local ≡ false → st.recv_win.buffered ≡ length st.unread.run
  pub emptied : st.closed_local ≡ true → st.unread.run ≡ []
  pub within : length st.unread.run ≤ window

pub receive-run :
    (grown : ℕ → ℕ → ℕ) (b : Inbound.Inbound) (p : List ℕ) (p_cap : ℕ) (borrowed : Bool)
    → Enough grown
    → Bytes.Inv b
    → length p ≤ p_cap
    → (receive grown b p p_cap borrowed).run ≡ b.run ++ p
      × Bytes.Inv (receive grown b p p_cap borrowed)
unfolding set_borrowed
receive-run grown b p p_cap borrowed enough v fits =
    if-elim (λ (c : Inbound.Inbound). c.run ≡ b.run ++ p × Bytes.Inv c)
      (length b.run == 0 && borrowed) _ _
      (λ e. (
        first b.run e,
        record { tail = λ f. absurd cc; off_le = λ f. absurd cc; fits = λ f. absurd cc },
      ))
      (λ e. let a = Bytes.append-run grown b p p_cap enough v fits in (a.0, a.2))
  where
    first : (run : List ℕ) → (length run == 0 && borrowed) ≡ true → p ≡ run ++ p
    first [] e = refl
    first (x ∷ xs) e = absurd (ground (arith, e))

-- A frame that the window covers is counted.
pub on_data-fits :
    (w : RecvWindow) (n : ℕ)
    → w.size < 2 ^ 62
    → w.buffered ≤ w.size
    → n < 2 ^ 62
    → ((on_data w n).0.size ≡ w.size)
      × ((on_data w n).0.buffered ≡ w.buffered + n)
      × ((on_data w n).1 ≡ none → w.buffered + n ≤ w.size)
      × (w.buffered + n ≤ w.size → (on_data w n).1 ≡ none)
unfolding on_data
on_data-fits w n small le few = (
  ground arith,
  ground (arith, small, le, few),
  λ e. ground (arith, small, le, few, e),
  λ h. ground (arith, small, few, h),
)

pub on_data-exceeded :
    (w : RecvWindow) (n : ℕ)
    → w.size < 2 ^ 62
    → w.buffered ≤ w.size
    → n < 2 ^ 62
    → w.size < w.buffered + n
    → (on_data w n).1 ≡ some exceeded
unfolding on_data
on_data-exceeded w n small le few over = ground (arith, small, le, few, over)

pub tuned-StreamOk :
    (window : ℕ) (st : Receiver) (peer : ℕ)
    → StreamOk window st
    → StreamOk window (record st { recv_win = retune st.recv_win peer })
unfolding retune
tuned-StreamOk window st peer v = record {
  sound = v.sound;
  size = v.size;
  counted = v.counted;
  emptied = v.emptied;
  within = v.within;
}

pub new-StreamOk : (window : ℕ) → StreamOk window (new_receiver window)
unfolding new_recv_window retune
new-StreamOk window = record {
  sound = record { tail = λ e. refl; off_le = λ e. omega arith; fits = λ e. omega arith };
  size = refl;
  counted = λ e. refl;
  emptied = λ e. refl;
  within = omega arith;
}

pub consume-exact :
    (w : RecvWindow) (n : ℕ)
    → w.buffered < half
    → n ≤ w.buffered
    → ((Window.consume w n).0.size ≡ w.size) × ((Window.consume w n).0.buffered ≡ w.buffered - n)
unfolding Window.consume
consume-exact w n small le = ground (arith, small, le)

consume-size : (w : RecvWindow) (n : ℕ) → (Window.consume w n).0.size ≡ w.size
unfolding Window.consume
consume-size w n = ground arith

-- Bytes of an open stream are used.
pub used-StreamOk :
    (window : ℕ) (st : Receiver) (n : ℕ)
    → window < 2 ^ 62
    → StreamOk window st
    → n ≤ length st.unread.run
    → StreamOk window (record st {
      unread = Inbound.consume st.unread n;
      recv_win = (Window.consume st.recv_win n).0;
    })
used-StreamOk window st n small v le =
    let held = Bytes.consume-run st.unread n v.sound le in
    let left : length (Inbound.consume st.unread n).run ≡ length st.unread.run - n =
      ap length held.0 ∙ length-drop n st.unread.run in
    record {
      sound = held.1;
      size = consume-size st.recv_win n ∙ v.size;
      counted = λ e.
          (let same = v.counted e in
            omega (
              arith,
              left,
              same,
              consume-exact st.recv_win n (omega (arith, same, small, v.within))
                  (omega (arith, same, le)),
            ));
      emptied = λ e. held.0 ∙ (ap (drop n) (v.emptied e) ∙ drop-all n [] (omega arith));
      within = omega (arith, left, v.within);
    }

pub closed-StreamOk :
    (window : ℕ) (st : Receiver) (err : Cause)
    → StreamOk window st
    → StreamOk window
        (record st { closed_local = true; closed_err = some err; unread = drop_all st.unread })
unfolding drop_all
closed-StreamOk window st err v = record {
  sound = record { tail = λ e. refl; off_le = λ e. omega arith; fits = λ e. omega arith };
  size = v.size;
  counted = λ e. absurd cc;
  emptied = λ e. refl;
  within = omega arith;
}

-- What the invariant does not name may change.
pub noted-StreamOk :
    (window : ℕ) (st : Receiver) (fin told : Bool)
    → StreamOk window st
    → StreamOk window (record st { peer_fin = fin; close_delivered = told })
noted-StreamOk window st fin told v = record {
  sound = v.sound;
  size = v.size;
  counted = v.counted;
  emptied = v.emptied;
  within = v.within;
}

pub owned-StreamOk :
    (window : ℕ) (grown : ℕ → ℕ → ℕ) (st : Receiver)
    → Enough grown
    → StreamOk window st
    → StreamOk window (record st { unread = own grown st.unread })
owned-StreamOk window grown st enough v =
    let o = Bytes.own-run grown st.unread enough v.sound in
    record {
      sound = o.2;
      size = v.size;
      counted = λ e. v.counted e ∙ ap length (sym o.0);
      emptied = λ e. o.0 ∙ v.emptied e;
      within = omega (arith, ap length o.0, v.within);
    }

-- A frame that the window covers joins the unread bytes.
pub filled-StreamOk :
    (window : ℕ) (grown : ℕ → ℕ → ℕ) (st : Receiver) (p : List ℕ) (p_cap : ℕ) (borrowed : Bool)
    → window < 2 ^ 62
    → length p < 2 ^ 62
    → Enough grown
    → length p ≤ p_cap
    → StreamOk window st
    → st.closed_local ≡ false
    → (on_data st.recv_win (length p)).1 ≡ none
    → StreamOk window (record st {
      recv_win = (on_data st.recv_win (length p)).0;
      unread = receive grown st.unread p p_cap borrowed;
    })
filled-StreamOk window grown st p p_cap borrowed small few enough fits v open_ ok =
    let r = receive-run grown st.unread p p_cap borrowed enough v.sound fits in
    let longer : length (receive grown st.unread p p_cap borrowed).run
        ≡ length st.unread.run + length p =
      ap length r.0 ∙ length-append st.unread.run p in
    let d =
      on_data-fits st.recv_win (length p) (omega (arith, v.size, small))
        (omega (arith, v.size, v.counted open_, v.within)) few in
    record {
      sound = r.1;
      size = d.0 ∙ v.size;
      counted = λ e. omega (arith, d.1, longer, v.counted open_);
      emptied = λ e. absurd cc;
      within = omega (arith, longer, d.2 ok, v.size, v.counted open_);
    }
