-- ===== src/Umux/Inbox/Resets.antt =====
-- umux/stream.go: a stream that is reset gives back what it held.
use uio.Prelude.Store.{store, store-elim, store-same, store-other}
use uio.Prelude.{
  ℕ, suc, ◌≤◌, ◌≡◌, refl, ap, sym, subst, ◌∙◌, true, some, [], ◌∷◌, ◌++◌, length, if◌then◌else◌,
  arith, ◌<◌, if-elim,
}
use uio.Umux.Inbound.{drop_all}
use uio.Umux.Outbound.{Cause}
use uio.Umux.Inbox.{Receiver, Inbox, put_stream, release_inbound, deliver_close, reset_stream}
use uio.Umux.Inbox.Stream.{closed-StreamOk, noted-StreamOk}
use uio.Umux.Inbox.Change.{Ok, Change, freed-Change}
use uio.Umux.Inbox.Operations.{Fine, shrunk-Fine, same-Fine}

-- A stream that changed twice.
restore :
    (f g : ℕ → Receiver) (id j : ℕ) (st st2 : Receiver)
    → ((i : ℕ) → g i ≡ store f id st i)
    → store g id st2 j ≡ store f id st2 j
restore f g id j st st2 e =
    store-elim (λ x. x ≡ store f id st2 j) g id j st2
      (λ h. store-elim (λ y. st2 ≡ y) f id j st2 (λ k. refl) (λ ne. absurd (ne h)))
      (λ ne. e j ∙ (store-other f id j st ne ∙ sym (store-other f id j st2 ne)))

abbrev told_of : Receiver → Receiver
told_of st = record st { close_delivered = true }

-- A stream's `OnClose` is noted.
deliver_close-Change :
    (s : Inbox) (t : Inbox) (id : ℕ) (st : Receiver) (err : Cause)
    → Change s id st t
    → (t.streams id ≡ st)
    → Change s id (told_of st) (deliver_close t id err)
unfolding deliver_close
deliver_close-Change s t id st err c e =
    let told = put_stream t id (told_of (t.streams id)) in
    let heard = record told { closes = t.closes ++ ((id, err) ∷ []) } in
    let awake = record heard { wakes = suc heard.wakes } in
    if-elim (λ (u : Inbox). Change s id (told_of st) u) (t.streams id).close_delivered t
      (if t.has_handler then (if t.closed then heard else awake) else told)
      (λ h.
        subst (λ x. Change s id x t)
          (ap (λ b. record st { close_delivered = b })
            (ap (λ (x : Receiver). x.close_delivered) (sym e) ∙ h))
          c)
      (λ h.
        if-elim (λ (u : Inbox). Change s id (told_of st) u) t.has_handler
          (if t.closed then heard else awake) told
          (λ k.
            if-elim (λ (u : Inbox). Change s id (told_of st) u) t.closed heard awake
              (λ l. noted heard (λ j. refl) refl refl refl refl (omega arith))
              (λ l. noted awake (λ j. refl) refl refl refl refl (omega arith)))
          (λ k. noted told (λ j. refl) refl refl refl refl (omega arith)))
  where
    noted :
        (u : Inbox)
        → ((j : ℕ) → u.streams j ≡ store t.streams id (told_of (t.streams id)) j)
        → u.pending_bytes ≡ t.pending_bytes
        → u.window_size ≡ t.window_size
        → u.session_window ≡ t.session_window
        → u.read_held ≡ t.read_held
        → t.wakes ≤ u.wakes
        → Change s id (told_of st) u
    noted u streams pending window budget held wakes = record {
      streams = λ j.
          streams j
          ∙ (ap (λ x. store t.streams id (told_of x) j) e
              ∙ restore s.streams t.streams id j st (told_of st) c.streams);
      pending = omega (arith, pending, c.pending);
      window = window ∙ c.window;
      budget = budget ∙ c.budget;
      held = λ h. omega (arith, pending, c.held (sym held ∙ h));
      woken = λ h g. omega (arith, wakes, c.woken h (sym held ∙ g));
    }

abbrev pub ResetFine : Inbox → ℕ → Inbox → Type 0
ResetFine s id t = Fine s id t × (t.streams id).unread.run ≡ []

pub reset_stream-Fine :
    {bound : ℕ} (s : Inbox) (id : ℕ) (err : Cause)
    → Ok bound s
    → id < bound
    → ResetFine s id (reset_stream s id err)
unfolding reset_stream drop_all
reset_stream-Fine s id err v lt =
    let st = s.streams id in
    let closed = record st {
      closed_local = true;
      closed_err = some err;
      unread = drop_all st.unread;
    } in
    let next = release_inbound (put_stream s id closed) (length st.unread.run) in
    let freed = freed-Change s id closed (length st.unread.run) v lt (omega arith) in
    let ok = closed-StreamOk s.window_size st err (v.stream id) in
    if-elim (ResetFine s id) st.closed_local s (deliver_close next id err)
      (λ e. (same-Fine s id v, (v.stream id).emptied e))
      (λ e.
        let told =
          deliver_close-Change s next id closed err freed
            (freed.streams id ∙ store-same s.streams id closed) in
        (
          shrunk-Fine s (deliver_close next id err) id (told_of closed) v
              (noted-StreamOk s.window_size closed closed.peer_fin true ok) (omega arith) told,
          ap (λ (x : Receiver). x.unread.run)
              (told.streams id ∙ store-same s.streams id (told_of closed)),
        ))
