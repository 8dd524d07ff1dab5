-- ===== src/Umux/Inbox/Refusals.antt =====
-- umux/stream.go: when an arriving frame is refused.
use uio.Prelude.{
  ℕ, ◌+◌, ◌^◌, ◌≡◌, refl, ap, ◌∙◌, Bool, true, false, ◌&&◌, ◌||◌, Option, none, some, List, length,
  ltb, leb, if◌then◌else◌, arith, ◌<◌, if-elim, Bool-cases, inl, inr,
}
use uio.Umux.Window.{WindowError, exceeded, on_data}
use uio.Umux.Inbox.{
  Receiver, Inbox, is_some, put_stream, release_inbound, reserve_inbound, push_data,
}
use uio.Umux.Inbox.Stream.{StreamOk, on_data-fits, on_data-exceeded}
use uio.Umux.Inbox.Change.{Ok}
use uio.Umux.Inbox.Arrivals.{filled}

abbrev verdict : Bool → Option WindowError
verdict b = if b then none else some exceeded

verdict-true : (b : Bool) → b ≡ true → none ≡ verdict b
verdict-true b h = rw h refl

verdict-false : (b : Bool) → b ≡ false → some exceeded ≡ verdict b
verdict-false b h = rw h refl

-- The window's answer to a frame of an open stream.
answer_of :
    (window : ℕ) (st : Receiver) (n : ℕ)
    → window < 2 ^ 62
    → StreamOk window st
    → st.closed_local ≡ false
    → n < 2 ^ 62
    → (on_data st.recv_win n).1 ≡ verdict (leb (length st.unread.run + n) window)
answer_of window st n small v e few = elim (Bool-cases (leb (length st.unread.run + n) window)) [
  | inl l ↦
      ((on_data-fits st.recv_win n (omega (arith, v.size, small))
            (omega (arith, v.size, v.counted e, v.within)) few).3
          (ground (arith, v.size, v.counted e, l))
        ∙ verdict-true (leb (length st.unread.run + n) window) l)
  | inr l ↦
      (on_data-exceeded st.recv_win n (omega (arith, v.size, small))
          (omega (arith, v.size, v.counted e, v.within)) few
          (ground (arith, v.size, v.counted e, l))
        ∙ verdict-false (leb (length st.unread.run + n) window) l)
]

unsome : (o : Option WindowError) → is_some o ≡ false → none ≡ o
unsome none h = refl
unsome (some e) h = absurd (clash h)
  where
    clash : true ≡ false → ⊥
    clash h = cc

-- A frame is refused exactly when the stream is open and its unread bytes with the frame's would
-- exceed the window; the error is then `errWindowExceeded`. The windows are below 2 ^ 62.
pub push_data-error :
    {bound : ℕ} (grown : ℕ → ℕ → ℕ) (s : Inbox) (id : ℕ) (payload : List ℕ) (p_cap : ℕ)
    (fin borrowed : Bool)
    → Ok bound s
    → length payload < 2 ^ 62
    → (push_data grown s id payload p_cap fin borrowed).1 ≡ (
        if (s.streams id).closed_local
          || leb (length ((s.streams id).unread.run) + length payload) s.window_size
        then none
        else some exceeded)
unfolding push_data
push_data-error grown s id payload p_cap fin borrowed v few =
    let st = s.streams id in
    let n = length payload in
    let r = if ltb 0 n then reserve_inbound s n else s in
    let (w, err) = on_data st.recv_win n in
    let kept = if ltb 0 n then filled grown st payload p_cap borrowed else st in
    let dropped : Inbox × Option WindowError = (release_inbound r n, none) in
    let refused : Inbox × Option WindowError =
      (release_inbound (put_stream r id (record st { recv_win = w })) n, err) in
    let accepted : Inbox × Option WindowError =
      (put_stream r id (record kept { peer_fin = kept.peer_fin || fin }), none) in
    let covered = leb (length st.unread.run + n) s.window_size in
    let answer = verdict (st.closed_local || covered) in
    if-elim (λ (x : Inbox × Option WindowError). x.1 ≡ answer) st.closed_local dropped
      (if ltb 0 n && is_some err then refused else accepted)
      (λ e. verdict-true (st.closed_local || covered) (ground (arith, e)))
      (λ e.
        let said = answer_of s.window_size st n v.window_small (v.stream id) e few in
        let same : verdict covered ≡ answer = ap verdict (open_or st.closed_local covered e) in
        if-elim (λ (x : Inbox × Option WindowError). x.1 ≡ answer) (ltb 0 n && is_some err) refused
          accepted (λ h. said ∙ same)
          (λ h. elim (Bool-cases (ltb 0 n)) [
            | inl k ↦ unsome err (ground (arith, h, k)) ∙ (said ∙ same)
            | inr k ↦
                verdict-true (st.closed_local || covered) (ground (arith, k, (v.stream id).within))
          ]))
  where
    open_or : (a b : Bool) → a ≡ false → b ≡ (a || b)
    open_or a b h = ground (arith, h)
