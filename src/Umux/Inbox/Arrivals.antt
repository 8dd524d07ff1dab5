-- ===== src/Umux/Inbox/Arrivals.antt =====
-- Frames that arrive, and the tests by which a session over its budget holds its reads.
use uio.Prelude.Int64.{half, add64}
use uio.Prelude.Store.{store-same}
use uio.Prelude.{
  ℕ, ◌+◌, ◌^◌, ◌≡◌, refl, ap, sym, subst, ◌∙◌, Bool, true, false, ◌&&◌, ◌||◌, Option, none, some,
  List, [], ◌∷◌, ◌++◌, length, length-append, ltb, if◌then◌else◌, arith, ◌≤◌, ◌<◌, if-elim,
  Bool-cases, inl, inr, append-nil,
}
use uio.Umux.Window.{WindowError, on_data}
use uio.Umux.Inbox.{
  Receiver, Inbox, is_some, put_stream, release_inbound, reserve_inbound, push_data, receive,
}
use uio.Umux.Inbox.Budget.{release-Released}
use uio.Umux.Inbox.Stream.{Enough, StreamOk, noted-StreamOk, filled-StreamOk, receive-run}
use uio.Umux.Inbox.Change.{Ok, same-Change}
use uio.Umux.Inbox.Operations.{Fine}

-- A stream that the session keeps took the frame, or it is closed and the frame is dropped.
abbrev pub filled : (ℕ → ℕ → ℕ) → Receiver → List ℕ → ℕ → Bool → Receiver
filled grown st payload p_cap borrowed = record st {
  recv_win = (on_data st.recv_win (length payload)).0;
  unread = receive grown st.unread payload p_cap borrowed;
}

-- What is charged and at once given back changes nothing else.
returned-Fine :
    {bound : ℕ} (s : Inbox) (id n p : ℕ)
    → Ok bound s
    → p ≡ s.pending_bytes + n
    → p < half
    → Fine s id (release_inbound (record s { pending_bytes = p }) n)
      × (release_inbound (record s { pending_bytes = p }) n).streams ≡ s.streams
returned-Fine s id n p v e small =
    let r =
      release-Released (record s { pending_bytes = p }) n v.budget_small
        (omega (arith, v.window_small)) small (omega (arith, e)) in
    (
      record {
        now = s.streams id;
        ok = v.stream id;
        change = record {
          streams = λ j. ap (λ (f : ℕ → Receiver). f j) r.streams ∙ (same-Change s id v).streams j;
          pending = omega (arith, r.pending, e);
          window = r.window;
          budget = r.budget;
          held = λ h. (r.held h).1;
          woken = λ h g. omega (arith, r.woken h g);
        };
        few = omega (arith, r.pending, e, v.few);
      },
      r.streams,
    )

-- A stream that grew by what the session was charged.
grown-Fine :
    {bound : ℕ} (s : Inbox) (id n p : ℕ) (st : Receiver)
    → Ok bound s
    → p ≡ s.pending_bytes + n
    → p < half
    → StreamOk s.window_size st
    → length st.unread.run ≡ length (s.streams id).unread.run + n
    → Fine s id (put_stream (record s { pending_bytes = p }) id st)
grown-Fine s id n p st v e small ok len = record {
  now = st;
  ok = ok;
  change = record {
    streams = λ j. refl;
    pending = omega (arith, e, len);
    window = refl;
    budget = refl;
    held = λ h. omega (arith, e, v.held h);
    woken = λ h g. absurd (clash (sym h ∙ g));
  };
  few = small;
}
  where
    clash : true ≡ false → ⊥
    clash h = cc

abbrev run_of : Inbox → ℕ → List ℕ
run_of s id = (s.streams id).unread.run

-- What a push does when it reports no error: the account is kept, and the stream has `more`.
abbrev Took : Inbox → ℕ → List ℕ → Inbox × Option WindowError → Type 0
Took s id more r = r.1 ≡ none → Fine s id r.0 × run_of r.0 id ≡ run_of s id ++ more

-- What an arriving payload adds to a stream.
abbrev pub arriving : Inbox → ℕ → List ℕ → List ℕ
arriving s id payload = if (s.streams id).closed_local then [] else payload

module _ (grown : ℕ → ℕ → ℕ) (enough : Enough grown) (bound : ℕ) (s : Inbox) (id : ℕ)
    (payload : List ℕ) (p_cap : ℕ) (fin borrowed : Bool) (v : Ok bound s)
    (fits : length payload ≤ p_cap) (few : length payload < 2 ^ 62)
    (room : s.pending_bytes + length payload < half) where
  -- The session's budget after the charge.
  charged-exact : add64 s.pending_bytes (length payload) ≡ s.pending_bytes + length payload
  charged-exact = ground (arith, room)

  dropped-Took : Took s id [] (
    release_inbound
        (if ltb 0 (length payload) then reserve_inbound s (length payload) else s)
        (length payload),
    none,
  )
  unfolding reserve_inbound
  dropped-Took e =
      if-elim
        (λ (r : Inbox).
          Fine s id (release_inbound r (length payload))
          × run_of (release_inbound r (length payload)) id ≡ run_of s id ++ [])
        (ltb 0 (length payload)) (reserve_inbound s (length payload)) s
        (λ h. back (
          returned-Fine s id (length payload) (add64 s.pending_bytes (length payload)) v
            charged-exact (omega (arith, charged-exact, room))))
        (λ h.
          back (returned-Fine s id (length payload) s.pending_bytes v (ground (arith, h)) v.few))
    where
      back :
          {t : Inbox}
          → Fine s id t × t.streams ≡ s.streams
          → Fine s id t × run_of t id ≡ run_of s id ++ []
      back (f, e) =
          (f, ap (λ (g : ℕ → Receiver). (g id).unread.run) e ∙ sym (append-nil (run_of s id)))

  taken-Took :
      (s.streams id).closed_local ≡ false
      → (on_data (s.streams id).recv_win (length payload)).1 ≡ none
      → Took s id payload (
        put_stream
            (reserve_inbound s (length payload))
            id
            (record (filled grown (s.streams id) payload p_cap borrowed) {
              peer_fin = (s.streams id).peer_fin || fin;
            }),
        none,
      )
  unfolding reserve_inbound
  taken-Took e ok h =
      let st = s.streams id in
      let full = filled grown st payload p_cap borrowed in
      let next = record full { peer_fin = st.peer_fin || fin } in
      let run =
        (receive-run grown st.unread payload p_cap borrowed enough (v.stream id).sound fits).0 in
      (
        grown-Fine s id (length payload) (add64 s.pending_bytes (length payload)) next v
            charged-exact (omega (arith, charged-exact, room))
            (noted-StreamOk s.window_size full (st.peer_fin || fin) st.close_delivered (
              filled-StreamOk s.window_size grown st payload p_cap borrowed v.window_small few
                enough fits (v.stream id) e ok))
            (ap length run ∙ length-append st.unread.run payload),
        ap (λ (x : Receiver). x.unread.run) (store-same s.streams id next) ∙ run,
      )

  empty-Took :
      payload ≡ []
      → Took s id payload (
        put_stream s id (record (s.streams id) { peer_fin = (s.streams id).peer_fin || fin }),
        none,
      )
  empty-Took e h =
      let st = s.streams id in
      let next = record st { peer_fin = st.peer_fin || fin } in
      (
        grown-Fine s id 0 s.pending_bytes next v (omega arith) v.few
            (noted-StreamOk s.window_size st (st.peer_fin || fin) st.close_delivered (v.stream id))
            (omega arith),
        ap (λ (x : Receiver). x.unread.run) (store-same s.streams id next)
            ∙ (sym (append-nil st.unread.run) ∙ ap (λ p. st.unread.run ++ p) (sym e)),
      )

  pub push_data-Took :
      Took s id (arriving s id payload) (push_data grown s id payload p_cap fin borrowed)
  unfolding push_data
  push_data-Took =
      let st = s.streams id in
      let n = length payload in
      let r = if ltb 0 n then reserve_inbound s n else s in
      let (w, err) = on_data st.recv_win n in
      let kept = if ltb 0 n then filled grown st payload p_cap borrowed else st in
      let dropped : Inbox × Option WindowError = (release_inbound r n, none) in
      let refused : Inbox × Option WindowError =
        (release_inbound (put_stream r id (record st { recv_win = w })) n, err) in
      let accepted : Inbox × Option WindowError =
        (put_stream r id (record kept { peer_fin = kept.peer_fin || fin }), none) in
      if-elim (Took s id (arriving s id payload)) st.closed_local dropped
        (if ltb 0 n && is_some err then refused else accepted) (λ e. closed e dropped dropped-Took)
        (λ e.
          if-elim (Took s id (arriving s id payload)) (ltb 0 n && is_some err) refused accepted
            (λ h f. absurd (some_none err (ground (arith, h)) f))
            (λ h. open_ e accepted (elim (Bool-cases (ltb 0 n)) [
              | inl k ↦ rw k (taken-Took e (unrefused err (ground (arith, h, k))))
              | inr k ↦ rw k (empty-Took (no_bytes payload k))
            ])))
    where
      closed :
          (s.streams id).closed_local ≡ true
          → (x : Inbox × Option WindowError) → Took s id [] x
          → Took s id (arriving s id payload) x
      closed e x t = subst (λ m. Took s id m x) (sym (one (s.streams id).closed_local e)) t
        where
          one : (b : Bool) → b ≡ true → (if b then [] else payload) ≡ []
          one b h = rw h refl

      open_ :
          (s.streams id).closed_local ≡ false
          → (x : Inbox × Option WindowError) → Took s id payload x
          → Took s id (arriving s id payload) x
      open_ e x t = subst (λ m. Took s id m x) (sym (two (s.streams id).closed_local e)) t
        where
          two : (b : Bool) → b ≡ false → (if b then [] else payload) ≡ payload
          two b h = rw h refl

      some_none : (err : Option WindowError) → is_some err ≡ true → err ≡ none → ⊥
      some_none err a b = none_is (sym (ap is_some b) ∙ a)
        where
          none_is : false ≡ true → ⊥
          none_is h = cc

      unrefused : (err : Option WindowError) → is_some err ≡ false → err ≡ none
      unrefused none h = refl
      unrefused (some e) h = absurd (true_is h)
        where
          true_is : true ≡ false → ⊥
          true_is h = cc

      no_bytes : (p : List ℕ) → ltb 0 (length p) ≡ false → p ≡ []
      no_bytes [] h = refl
      no_bytes (x ∷ xs) h = absurd (ground (arith, h))
