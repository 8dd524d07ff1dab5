-- ===== src/Umux/Inbox/Account.antt =====
-- What holds however a session's receiving side runs.
use uio.Prelude.Int64.{half, sle}
use uio.Prelude.Store.{store-same}
use native.Mathlib.Decide.{ℕ_discrete}
use uio.Prelude.{
  ℕ, ◌^◌, ◌≡◌, refl, ap, sym, subst, ◌∙◌, Bool, true, false, not, List, [], ◌++◌, append_assoc,
  append-nil, length, take, if◌then◌else◌, arith, ◌≤◌, ◌<◌, if-elim,
}
use uio.Umux.Window.{retune}
use uio.Umux.Inbound.{own}
use uio.Umux.Inbound.Bytes as Bytes
use uio.Umux.Inbox.{
  Receiver, Inbox, new_receiver, new_inbox, tune, read, discard, own_inbound, exhausted_budget,
  held_reads,
}
use uio.Umux.Inbox.Budget.{mark, some_unread, total, total-zero, sle-above, low_water-le}
use uio.Umux.Inbox.Stream.{Enough, new-StreamOk, tuned-StreamOk}
use uio.Umux.Inbox.Change.{Ok, quiet-Change}
use uio.Umux.Inbox.Operations.{
  Fine, Fine-Ok, shrunk-Fine, own_inbound-Fine, read-Fine, discard-Fine, discard-run,
}
use uio.Umux.Inbox.Resets.{reset_stream-Fine}
use uio.Umux.Inbox.Arrivals.{arriving, push_data-Took}
use uio.Umux.Inbox.Runs.{
  Step, pushes, owns, tunes, reads, discards, resets, exhausts, holds, ends, Run, here, next,
  arrived, left, arrivals, departures, run_of, on, others, came, went,
}

-- A step keeps the account, wakes the transport when it lets a held session go on, and keeps the
-- bytes of the stream `id` in order.
record Effect (bound : ℕ) (s t : Inbox) (id : ℕ) (came_in went_out : List ℕ) : Type 0 where
  ok : Ok bound t
  woken : s.read_held ≡ true → t.read_held ≡ false → s.wakes < t.wakes
  order : run_of s id ++ came_in ≡ went_out ++ run_of t id

still :
    (s t : Inbox) (i id : ℕ)
    → Fine s i t
    → run_of t i ≡ run_of s i
    → run_of s id ++ [] ≡ run_of t id
still s t i id f e = append-nil (run_of s id) ∙ elim (ℕ_discrete i id) [
  | yes h ↦ subst (λ j. run_of s j ≡ run_of t j) h (sym e)
  | no ne ↦ sym (others s t i id f ne)
]

op-Effect :
    {bound : ℕ} (s t : Inbox) (i id : ℕ) (came_in went_out : List ℕ)
    → Ok bound s
    → i < bound
    → Fine s i t
    → run_of s id ++ came_in ≡ went_out ++ run_of t id
    → Effect bound s t id came_in went_out
op-Effect s t i id came_in went_out v lt f order = record {
  ok = Fine-Ok s t i v lt f;
  woken = f.change.woken;
  order = order;
}

clash : true ≡ false → ⊥
clash h = cc

-- The tests of the budget change only whether reads are held.
exhausted-Effect :
    {bound : ℕ} (s : Inbox) (id : ℕ) → Ok bound s → Effect bound s (exhausted_budget s).0 id [] []
unfolding exhausted_budget
exhausted-Effect {bound = bound} s id v =
    if-elim (λ (r : Inbox × Bool). Effect bound s r.0 id [] [])
      (sle s.pending_bytes s.session_window) (s, false) (record s { read_held = true }, true)
      (λ e. record {
        ok = v;
        woken = λ h g. absurd (clash (sym h ∙ g));
        order = append-nil (run_of s id);
      })
      (λ e. record {
        ok = record {
          stream = v.stream;
          charged = v.charged;
          few = v.few;
          held = λ h. omega (
            arith,
            sle-above s.pending_bytes s.session_window v.few v.budget_small e,
            low_water-le s.session_window s.window_size v.budget_small
                (omega (arith, v.window_small)),
          );
          window_small = v.window_small;
          budget_small = v.budget_small;
        };
        woken = λ h g. absurd (clash g);
        order = append-nil (run_of s id);
      })

held-Effect :
    {bound : ℕ} (s : Inbox) (id : ℕ) → Ok bound s → Effect bound s (held_reads s).0 id [] []
unfolding held_reads
held-Effect {bound = bound} s id v =
    if-elim (λ (r : Inbox × Bool). Effect bound s r.0 id [] []) (not s.read_held) (s, false)
      (if sle s.pending_bytes (mark s) then (record s { read_held = false }, false) else (s, true))
      (λ e. same)
      (λ e.
        if-elim (λ (r : Inbox × Bool). Effect bound s r.0 id [] []) (sle s.pending_bytes (mark s))
          (record s { read_held = false }, false) (s, true)
          (λ f. record {
            ok = record {
              stream = v.stream;
              charged = v.charged;
              few = v.few;
              held = λ h. absurd (clash (sym h));
              window_small = v.window_small;
              budget_small = v.budget_small;
            };
            woken =
                λ h g. absurd (omega (arith, below s.pending_bytes (mark s) v.few (v.held h) f));
            order = append-nil (run_of s id);
          })
          (λ f. same))
  where
    same : Effect bound s s id [] []
    same = record {
      ok = v;
      woken = λ h g. absurd (clash (sym h ∙ g));
      order = append-nil (run_of s id);
    }

    below : (p m : ℕ) → p < half → m < p → sle p m ≡ true → 1 ≤ 0
    below p m few above e = absurd (ground (arith, few, above, e))

owned-Effect :
    {bound : ℕ} (grown : ℕ → ℕ → ℕ) (s : Inbox) (i id : ℕ)
    → Enough grown
    → Ok bound s
    → i < bound
    → Effect bound s (own_inbound grown s i) id [] []
unfolding own_inbound
owned-Effect grown s i id enough v lt =
    let f = own_inbound-Fine grown s i enough v in
    let st = s.streams i in
    op-Effect s (own_inbound grown s i) i id [] [] v lt f (
      still s (own_inbound grown s i) i id f (
        ap (λ (x : Receiver). x.unread.run)
          (store-same s.streams i (record st { unread = own grown st.unread }))
        ∙ (Bytes.own-run grown st.unread enough (v.stream i).sound).0))

tuned-Effect :
    {bound : ℕ} (s : Inbox) (i peer id : ℕ)
    → Ok bound s
    → i < bound
    → Effect bound s (tune s i peer) id [] []
unfolding tune
tuned-Effect s i peer id v lt =
    let st = s.streams i in
    let tuned = record st { recv_win = retune st.recv_win peer } in
    let f =
      shrunk-Fine s (tune s i peer) i tuned v (tuned-StreamOk s.window_size st peer (v.stream i))
        (omega arith)
        (quiet-Change s (tune s i peer) i tuned v (λ j. refl) refl refl refl refl refl) in
    op-Effect s (tune s i peer) i id [] [] v lt f (
      still s (tune s i peer) i id f
        (ap (λ (x : Receiver). x.unread.run) (store-same s.streams i tuned)))

Step-Effect :
    {grown : ℕ → ℕ → ℕ} {bound : ℕ} (s t : Inbox) (id : ℕ)
    → Enough grown
    → Ok bound s
    → (st : Step grown bound s t) → Effect bound s t id (arrived id st) (left id st)
Step-Effect {grown = grown} {bound = bound} s t id enough v
      (pushes i payload p_cap fin borrowed lt fits few room ok) =
    let took =
      push_data-Took grown enough bound s i payload p_cap fin borrowed v fits few room ok in
    op-Effect s _ i id (on i (arriving s i payload) id) [] v lt took.0
      (came s _ i id (arriving s i payload) took.0 took.1)
Step-Effect {grown = grown} s t id enough v (owns i lt) = owned-Effect grown s i id enough v lt
Step-Effect s t id enough v (tunes i peer lt) = tuned-Effect s i peer id v lt
Step-Effect s t id enough v (reads i room lt) =
    let f = read-Fine s i room v lt in
    op-Effect s _ i id [] (on i (read s i room).1 id) v lt f.0
      (append-nil (run_of s id) ∙ went s _ i id (read s i room).1 f.0 f.1)
Step-Effect s t id enough v (discards i n lt few) =
    let f = discard-Fine s i n v lt few in
    op-Effect s _ i id [] (on i (take (discard s i n).1 (run_of s i)) id) v lt f (
      append-nil (run_of s id)
      ∙ went s _ i id (take (discard s i n).1 (run_of s i)) f (discard-run s i n v lt few))
Step-Effect s t id enough v (resets i err lt) =
    let f = reset_stream-Fine s i err v lt in
    op-Effect s _ i id [] (on i (run_of s i) id) v lt f.0 (
      append-nil (run_of s id)
      ∙ went s _ i id (run_of s i) f.0 (ap (λ r. run_of s i ++ r) f.1 ∙ append-nil (run_of s i)))
Step-Effect s t id enough v exhausts = exhausted-Effect s id v
Step-Effect s t id enough v holds = held-Effect s id v
Step-Effect s t id enough v ends = record {
  ok = record {
    stream = v.stream;
    charged = v.charged;
    few = v.few;
    held = v.held;
    window_small = v.window_small;
    budget_small = v.budget_small;
  };
  woken = λ h g. absurd (clash (sym h ∙ g));
  order = append-nil (run_of s id);
}

module _ (grown : ℕ → ℕ → ℕ) (enough : Enough grown) (bound window budget : ℕ) (handled : Bool)
    (window_small : window < 2 ^ 62) (budget_small : budget < half) where
  new-Ok : Ok bound (new_inbox window budget handled)
  new-Ok = record {
    stream = λ id. new-StreamOk window;
    charged = sym (total-zero (λ id. new_receiver window) bound (λ i. refl));
    few = omega arith;
    held = λ h. absurd (clash (sym h));
    window_small = window_small;
    budget_small = budget_small;
  }

  pub Run-Ok : (t : Inbox) → Run grown bound (new_inbox window budget handled) t → Ok bound t
  Run-Ok t here = new-Ok
  Run-Ok t (next {t = u} r st) = (Step-Effect u t 0 enough (Run-Ok u r) st).ok

  -- Whatever order frames, reads, discards and resets come in on a new session: what was read or
  -- discarded of a stream, or dropped by its reset, followed by what it holds unread, is what
  -- arrived on it while it was open, in order. `append` allocates what is asked for, the window is
  -- below 2 ^ 62 and the budget below 2 ^ 63, every frame was within its stream's window, and the
  -- session holds less than 2 ^ 63 bytes.
  pub received_in_order :
      (t : Inbox) (id : ℕ)
      → (r : Run grown bound (new_inbox window budget handled) t)
      → arrivals id r ≡ departures id r ++ (t.streams id).unread.run
  received_in_order t id here = refl
  received_in_order t id (next {t = u} r st) =
      ap (λ a. a ++ arrived id st) (received_in_order u id r)
      ∙ (append_assoc (departures id r) (run_of u id) (arrived id st)
          ∙ (ap (λ a. departures id r ++ a) (Step-Effect u t id enough (Run-Ok u r) st).order
              ∙ sym (append_assoc (departures id r) (left id st) (run_of t id))))

  -- In any run of a new session whose frames keep within the windows (the window below 2 ^ 62, the
  -- budget and the bytes held below 2 ^ 63, `append` allocating what is asked for), the budget is
  -- charged exactly what the streams hold unread, no stream holds more than the window, and a
  -- session that holds its reads is above the low-water mark.
  pub account_exact :
      (t : Inbox)
      → Run grown bound (new_inbox window budget handled) t
      → t.pending_bytes ≡ total t.streams bound
        × ((id : ℕ) → length (t.streams id).unread.run ≤ t.window_size)
        × (t.read_held ≡ true → mark t < t.pending_bytes)
  account_exact t r = let v = Run-Ok t r in (v.charged, λ id. (v.stream id).within, v.held)

  -- In any run of a new session whose frames keep within the windows (the window below 2 ^ 62, the
  -- budget and the bytes held below 2 ^ 63, `append` allocating what is asked for), a session that
  -- holds its reads has a stream with unread bytes, and a step that lets it go on wakes the
  -- transport.
  pub held_is_woken :
      (s t : Inbox)
      → Run grown bound (new_inbox window budget handled) s
      → Step grown bound s t
      → s.read_held ≡ true
      → ((id : ℕ) × 0 < length (s.streams id).unread.run)
        × (t.read_held ≡ false → s.wakes < t.wakes)
  held_is_woken s t r st h =
      let v = Run-Ok s r in
      (
        some_unread s.streams bound (omega (arith, v.held h, v.charged)),
        (Step-Effect s t 0 enough v st).woken h,
      )
