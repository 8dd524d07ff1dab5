-- ===== src/Umux/Outbound/Drain.antt =====
-- A flush whose transport takes every frame.
use uio.Prelude.Store.{store, store-elim}
use uio.Prelude.{
  ℕ, zero, suc, ◌+◌, ◌≡◌, refl, ap, sym, subst, ◌∙◌, Bool, true, false, not, ◌&&◌, ◌||◌, List, [],
  ◌∷◌, ◌++◌, append-nil, length, ◌==◌, arith, ◌≤◌, Bool-cases, inl, inr, if-elim,
}
use uio.Umux.Outbound.{
  Sender, fin_sent, Sent, control_frame, data_frame, fin_frame, Outbound, is_queued,
}
use uio.Umux.Outbound.Flush.{
  Round, again, stop, Transport, accepted, after_control, after_fin, after_data, flush_stream,
  flush_pending, flush_queues, flush_round, flush_from, max_flush_frames, flush,
}
use uio.Umux.Outbound.Queues.{mem, has_work, frames_of, flow}
use uio.Umux.Outbound.Order.{flush_keeps}
use uio.Umux.Outbound.Runs.{Reach, Reach-Inv}

-- The rounds that the queued streams ask for: one for each frame, and one for the FIN or to leave.
abbrev pub demand : (ℕ → Sender) → List ℕ → ℕ
demand streams [] = 0
demand streams (id ∷ is) = suc (length (streams id).out + demand streams is)

abbrev pub work : Outbound → ℕ
work s = length s.control + demand s.streams s.pending

demand_mono :
    (f g : ℕ → Sender) (is : List ℕ)
    → ((j : ℕ) → length (f j).out ≤ length (g j).out)
    → demand f is ≤ demand g is
demand_mono f g [] le = omega arith
demand_mono f g (i ∷ is) le = omega (arith, le i, demand_mono f g is le)

demand-snoc :
    (f : ℕ → Sender) (is : List ℕ) (i : ℕ)
    → demand f (is ++ (i ∷ [])) ≡ demand f is + suc (length (f i).out)
demand-snoc f [] i = omega arith
demand-snoc f (j ∷ is) i = omega (arith, demand-snoc f is i)

-- The round makes progress, or it ends the flush with nothing queued.
abbrev Shrinks : ℕ → Round → Type 0
Shrinks n (again t) = suc (work t) ≤ n
Shrinks n (stop t broken) = t.control ≡ [] × t.pending ≡ [] × broken ≡ false

Shrinks-le : (m n : ℕ) (r : Round) → m ≤ n → Shrinks m r → Shrinks n r
Shrinks-le m n (again t) le h = omega (arith, le, h)
Shrinks-le m n (stop t broken) le h = h

-- A stream that did not grow leaves the demand of the others as it was, or less.
store-demand :
    (f : ℕ → Sender) (id : ℕ) (st : Sender) (is : List ℕ)
    → length st.out ≤ length (f id).out
    → demand (store f id st) is ≤ demand f is
store-demand f id st is le = demand_mono (store f id st) f is (λ j.
    store-elim (λ x. length x.out ≤ length (f j).out) f id j st
      (λ e. subst (λ i. length st.out ≤ length (f i).out) e le) (λ ne. omega arith))

after_control-Shrinks :
    (s : Outbound) (frame : List ℕ) (rest : List (List ℕ))
    → Shrinks (suc (length rest + demand s.streams s.pending)) (after_control s frame rest accepted)
after_control-Shrinks s frame rest = omega arith

after_fin-Shrinks :
    (s : Outbound) (id : ℕ) (rest : List ℕ)
    → s.control ≡ []
    → Shrinks (suc (demand s.streams rest)) (after_fin s id rest accepted)
after_fin-Shrinks s id rest e =
    let st = record (s.streams id) { queued = false; fin_state = fin_sent } in
    omega (arith, ap length e, store-demand s.streams id st rest (omega arith))

after_data-Shrinks :
    (s : Outbound) (id : ℕ) (rest frame : List ℕ) (frames : List (List ℕ))
    → s.control ≡ []
    → (s.streams id).out ≡ frame ∷ frames
    → Shrinks
        (suc (suc (length frames + demand s.streams rest)))
        (after_data s id rest frame frames accepted)
after_data-Shrinks s id rest frame frames e o =
    let st = record (s.streams id) { out = frames } in
    let left = record st { queued = false } in
    let shorter = ap length o in
    if-elim (λ (t : Outbound). suc (work t) ≤ suc (suc (length frames + demand s.streams rest)))
      (length frames == 0 && not (is_queued st.fin_state)) _ _
      (λ b.
        omega (arith, ap length e, store-demand s.streams id left rest (omega (arith, shorter))))
      (λ b. omega (
        arith,
        ap length e,
        store-demand s.streams id st rest (omega (arith, shorter)),
        demand-snoc (store s.streams id st) rest id,
        store-elim (λ x. length x.out ≡ length frames) s.streams id id st (λ f. refl)
            (λ ne. absurd (ne refl)),
      ))

module _ (transport : Transport)
    (takes : (w : List Sent) (f : Sent) → transport w f ≡ accepted) where
  flush_stream-Shrinks :
      (s : Outbound) (id : ℕ) (rest : List ℕ) (out : List (List ℕ))
      → s.control ≡ []
      → (s.streams id).out ≡ out
      → Shrinks (suc (length out + demand s.streams rest)) (flush_stream transport s id rest out)
  flush_stream-Shrinks s id rest [] e o =
      Shrinks-le (suc (demand s.streams rest)) (suc (0 + demand s.streams rest)) _ (omega arith) (
        if-elim (Shrinks (suc (demand s.streams rest))) (not (is_queued (s.streams id).fin_state)) _
          _
          (λ b. omega (
            arith,
            ap length e,
            store-demand s.streams id (record (s.streams id) { queued = false }) rest (omega arith),
          ))
          (λ b. rw (takes s.wire (fin_frame id)) (after_fin-Shrinks s id rest e)))
  flush_stream-Shrinks s id rest (frame ∷ frames) e o = rw (takes s.wire (data_frame id frame)) (
      Shrinks-le (suc (suc (length frames + demand s.streams rest)))
        (suc (length (frame ∷ frames) + demand s.streams rest))
        (after_data s id rest frame frames accepted) (omega arith)
        (after_data-Shrinks s id rest frame frames e o))

  flush_pending-Shrinks :
      (s : Outbound) (pending : List ℕ)
      → s.control ≡ []
      → s.pending ≡ pending
      → Shrinks (demand s.streams pending) (flush_pending transport s pending)
  flush_pending-Shrinks s [] e o = (e, o, refl)
  flush_pending-Shrinks s (id ∷ rest) e o =
      if-elim (Shrinks (demand s.streams (id ∷ rest))) (not (s.streams id).live) _ _
        (λ b. omega (arith, ap length e))
        (λ b. flush_stream-Shrinks s id rest (s.streams id).out e refl)

  flush_queues-Shrinks :
      (s : Outbound) (control : List (List ℕ))
      → s.control ≡ control
      → Shrinks (length control + demand s.streams s.pending) (flush_queues transport s control)
  flush_queues-Shrinks s [] e =
      Shrinks-le (demand s.streams s.pending) (0 + demand s.streams s.pending)
        (flush_pending transport s s.pending) (omega arith)
        (flush_pending-Shrinks s s.pending e refl)
  flush_queues-Shrinks s (frame ∷ rest) e = rw (takes s.wire (control_frame frame)) (
      Shrinks-le (suc (length rest + demand s.streams s.pending))
        (length (frame ∷ rest) + demand s.streams s.pending) (after_control s frame rest accepted)
        (omega arith) (after_control-Shrinks s frame rest))

  flush_round-Shrinks : (s : Outbound) → Shrinks (work s) (flush_round transport s)
  unfolding flush_round
  flush_round-Shrinks s = elim (Bool-cases (s.go_away_sent && length s.control == 0)) [
    | inl e ↦ rw e (flush_queues-Shrinks (record s { go_away_flushed = true }) s.control refl)
    | inr e ↦ rw e (flush_queues-Shrinks s s.control refl)
  ]

  abbrev Drained : Outbound × Bool → Type 0
  Drained (t, broken) = t.control ≡ [] × t.pending ≡ [] × broken ≡ false

  flush_from-Drained :
      (budget : ℕ) (s : Outbound) → work s ≤ budget → Drained (flush_from budget transport s)
  unfolding flush_from
  flush_from-Drained zero s le = nothing s.control s.pending le
    where
      nothing :
          (control : List (List ℕ)) (pending : List ℕ)
          → length control + demand s.streams pending ≤ 0
          → control ≡ [] × pending ≡ [] × false ≡ false
      nothing [] [] h = (refl, refl, refl)
      nothing [] (i ∷ is) h = absurd (omega (arith, h))
      nothing (c ∷ cs) pending h = absurd (omega (arith, h))
  flush_from-Drained (suc budget) s le =
      go_on (flush_round transport s) (flush_round-Shrinks s) (λ t h. flush_from-Drained budget t h)
    where
      go_on :
          (r : Round)
          → Shrinks (work s) r
          → ((t : Outbound) → work t ≤ budget → Drained (flush_from budget transport t))
          → Drained
              (elim r [ again t ↦ flush_from budget transport t | stop t broken ↦ (t, broken) ])
      go_on (again t) h next = next t (omega (arith, h, le))
      go_on (stop t broken) h next = h

  flush-Drained :
      (s : Outbound)
      → s.has_conn ≡ true
      → s.closed ≡ false
      → work s ≤ max_flush_frames
      → Drained (flush transport s)
  unfolding flush
  flush-Drained s conn open_ le =
      if-elim Drained (not s.has_conn || s.closed) (s, false)
        (flush_from max_flush_frames transport s) (λ e. absurd (ground (arith, e, conn, open_)))
        (λ e. flush_from-Drained max_flush_frames s le)

  -- On a connection that takes every frame, one flush of at most `max_flush_frames` rounds of work
  -- sends all that is queued: no control frame, no stream's frame and no FIN waits, and every
  -- stream's data went in the order in which it was queued.
  pub flush_sends_all :
      (s : Outbound) (id : ℕ)
      → Reach s
      → s.has_conn ≡ true
      → s.closed ≡ false
      → work s ≤ max_flush_frames
      → let (t, broken) = flush transport s in
        broken ≡ false
        × t.control ≡ []
        × has_work (t.streams id) ≡ false
        × frames_of id t.wire ≡ flow id s
  flush_sends_all s id r conn open_ le =
      let t = flush transport s in
      let kept = flush_keeps transport s id (Reach-Inv r) in
      let (no_control, no_pending, sound) = flush-Drained s conn open_ le in
      let idle =
        no_work (t.0.streams id) t.0.pending kept.0.work_queued kept.0.queued_pending no_pending in
      (sound, no_control, idle, wire_only _ _ (nothing_out (t.0.streams id) idle) (kept.1 sound))
    where
      clash : false ≡ true → ⊥
      clash h = cc

      no_work :
          (st : Sender) (pending : List ℕ)
          → (has_work st ≡ true → st.queued ≡ true)
          → (st.queued ≡ true → mem id pending ≡ true)
          → pending ≡ []
          → has_work st ≡ false
      no_work st pending queued place none_pending = elim (Bool-cases (has_work st)) [
        | inl e ↦ absurd (clash (sym (ap (mem id) none_pending) ∙ place (queued e)))
        | inr e ↦ e
      ]

      none_left :
          (out : List (List ℕ)) (queued : Bool)
          → (not (length out == 0) || queued) ≡ false
          → out ≡ []
      none_left [] queued e = refl
      none_left (x ∷ xs) queued e = absurd (ground (arith, e))

      nothing_out : (st : Sender) → has_work st ≡ false → st.out ≡ []
      nothing_out st e = none_left st.out (is_queued st.fin_state) e

      wire_only : (w out : List (List ℕ)) {x : List (List ℕ)} → out ≡ [] → (w ++ out) ≡ x → w ≡ x
      wire_only w out o e = sym (append-nil w) ∙ (ap (λ y. w ++ y) (sym o) ∙ e)
