-- ===== src/Umux/Outbound/Owned.antt =====
-- umux/stream.go: `WriteOwned` queues all of its buffer or nothing.
use uio.Prelude.Int64.{half, slt}
use uio.Prelude.Store.{store-same}
use uio.Prelude.{
  ℕ, ◌+◌, ◌^◌, ◌≤◌, ◌≡◌, refl, ap, ◌∙◌, ◌⊎◌, inl, inr, Bool, true, false, ◌||◌, Option, none, some,
  List, ◌++◌, length, All, ◌==◌, if◌then◌else◌, arith, ◌<◌, if-elim,
}
use uio.Umux.Window as Window
use uio.Umux.Window.{SendWindow}
use uio.Umux.Outbound.{
  Cause, outbound_overflow, closed_error, or_closed, write_owned, frame_data, put_stream, Sender,
  Outbound,
}
use uio.Umux.Outbound.Framing.{
  IsDataFrame, payloads, Framed, frame_data-Framed, frame_data-send_win,
}

-- Whether the stream takes no more writes.
abbrev pub shut : Sender → Bool
shut st = st.closed_local || (st.opening || st.local_fin)

-- The frames of the whole buffer join the queue, and its bytes are charged to the stream's credit.
pub record Queued (id max_frame : ℕ) (p : List ℕ) (s t : Outbound) : Type 0 where
  pub charged : (t.streams id).send_win.avail + length p ≡ (s.streams id).send_win.avail
  pub framed :
      (frames : List (List ℕ)) × ((t.streams id).out ≡ (s.streams id).out ++ frames
        × payloads frames ≡ p
        × All (IsDataFrame id max_frame) frames)

-- What `write_owned` leaves in each case: an empty buffer, a stream that takes no writes, too little
-- credit, and enough.
abbrev pub WroteOwned : ℕ → ℕ → List ℕ → Outbound → Outbound × ℕ × Option Cause → Type 0
WroteOwned id max_frame p s r =
    let st = s.streams id in
    (length p ≡ 0 × r ≡ (s, 0, none))
    ⊎ ((0 < length p × shut st ≡ true × r ≡ (s, 0, some (or_closed st.closed_err)))
        ⊎ ((0 < length p
              × shut st ≡ false
              × st.send_win.avail < length p
              × r ≡ (s, 0, some outbound_overflow))
            ⊎ (0 < length p
                × shut st ≡ false
                × length p ≤ st.send_win.avail
                × r.1 ≡ length p
                × r.2 ≡ none
                × Queued id max_frame p s r.0)))

take-spends :
    (w : SendWindow) (n : ℕ)
    → w.avail < half
    → n < half
    → n ≤ w.avail
    → (Window.take w n).0.avail + n ≡ w.avail
unfolding Window.take
take-spends w n small few le = ground (arith, small, few, le)

-- An owned buffer is queued whole, as data frames of the stream behind the earlier ones, charged to
-- the stream's credit and with no error, exactly when the stream takes writes and has the credit.
-- Otherwise the session is as it was, and the error is how the stream closed, or an overflow when
-- only the credit is missing; an empty buffer does nothing. The stream is one that the session holds,
-- and its credit and the buffer are below 2 ^ 63.
pub write_owned-WroteOwned :
    (s : Outbound) (id : ℕ) (p : List ℕ) (max_frame : ℕ)
    → id < 2 ^ 32
    → 0 < max_frame
    → max_frame < 2 ^ 32
    → (s.streams id).live ≡ true
    → (s.streams id).send_win.avail < half
    → length p < half
    → WroteOwned id max_frame p s (write_owned s id p max_frame)
unfolding write_owned
write_owned-WroteOwned s id p max_frame i pos m live small few =
    let st = s.streams id in
    let avail = st.send_win.avail in
    let charged = record st { send_win = (Window.take st.send_win (length p)).0 } in
    let taken = put_stream s id charged in
    let r = frame_data (length p) max_frame taken id p in
    let same = store-same s.streams id charged in
    let framed =
      frame_data-Framed (length p) max_frame taken id p i pos m
        (ap (λ (x : Sender). x.live) same ∙ live) (omega arith) in
    let win =
      frame_data-send_win (length p) max_frame taken id p ∙ ap (λ (x : Sender). x.send_win) same in
    let done : Outbound × ℕ × Option Cause =
      (r.0, length p, if r.1 then none else some closed_error) in
    let credited : Outbound × ℕ × Option Cause =
      if slt avail (length p) then (s, 0, some outbound_overflow) else done in
    let T = WroteOwned id max_frame p s in
    if-elim T (length p == 0) (s, 0, none)
      (if shut st then (s, 0, some (or_closed st.closed_err)) else credited)
      (λ e. inl (ground (arith, e), refl))
      (λ e.
        let some_ : 0 < length p = ground (arith, e) in
        if-elim T (shut st) (s, 0, some (or_closed st.closed_err)) credited
          (λ f. inr (inl (some_, f, refl)))
          (λ f.
            if-elim T (slt avail (length p)) (s, 0, some outbound_overflow) done
              (λ g. inr (inr (inl (some_, f, (ground (arith, g, small, few)), refl))))
              (λ g.
                let enough : length p ≤ avail = ground (arith, g, small, few) in
                let spent = take-spends st.send_win (length p) small few enough in
                inr (
                  inr (
                    inr (
                      some_,
                      f,
                      enough,
                      refl,
                      accepted_all r.1 framed.0,
                      whole (ap (λ (x : Sender). x.out) same) r
                          (ap (λ (w : SendWindow). w.avail + length p) win ∙ spent) framed,
                    ))))))
  where
    accepted_all : (b : Bool) → b ≡ true → (if b then none else some closed_error) ≡ none
    accepted_all b h = rw h refl

    whole :
        {mid : List (List ℕ)}
        → mid ≡ (s.streams id).out
        → (r : Outbound × Bool)
        → (r.0.streams id).send_win.avail + length p ≡ (s.streams id).send_win.avail
        → Framed id max_frame p mid r
        → Queued id max_frame p s r.0
    whole e r spent (held, (fs, (queue, bytes, all))) = record {
      charged = spent;
      framed = (fs, (queue ∙ ap (λ o. o ++ fs) e, bytes, all));
    }
