-- ===== src/Umux/Outbound/Steps.antt =====
-- Queueing a data frame or a FIN keeps the order of a stream's frames.
use uio.Prelude.Store.{store-elim}
use uio.Prelude.{
  ℕ, zero, suc, ◌≡◌, refl, ap, sym, subst, ◌∙◌, Bool, true, false, not, ◌||◌, List, [], ◌∷◌, ◌++◌,
  length, drop, min, ◌==◌, if◌then◌else◌, arith, ◌≤◌, if-elim,
}
use uio.Umux.Outbound.{
  chunk_frame, Sender, FinState, fin_none, fin_queued, fin_sent, Outbound, is_none, put_stream,
  schedule, enqueue_fin, enqueue, frame_data,
}
use uio.Umux.Outbound.Queues.{mem, is_sent, ended, mem-snoc, has_work, StreamInv}
use uio.Umux.Outbound.Invariant.{Inv, StreamInv-other}

-- A stream changed in what the invariant does not name.
pub put_stream-Inv :
    (s : Outbound) (i : ℕ) (st : Sender)
    → Inv s
    → StreamInv i st s.pending s.wire
    → Inv (put_stream s i st)
put_stream-Inv s i st v own id =
    store-elim (λ x. StreamInv id x s.pending s.wire) s.streams i id st
      (λ e. subst (λ j. StreamInv j st s.pending s.wire) e own) (λ ne. v id)

-- A stream that keeps everything but its place in the queue.
schedule-Inv :
    (s : Outbound) (i : ℕ) (st : Sender)
    → Inv s
    → st.live ≡ true
    → st.queued ≡ (s.streams i).queued
    → (is_none st.fin_state ≡ false → st.local_fin ≡ true)
    → (is_sent st.fin_state ≡ true → st.out ≡ [])
    → (ended i s.wire ≡ true → is_sent st.fin_state ≡ true)
    → Inv (schedule s i st)
schedule-Inv s i st v live same local empty over =
    if-elim (λ (t : Outbound). Inv t) st.queued _ _
      (λ e.
        put_stream-Inv s i st v
          (on_queue st.queued s.pending (λ q. (v i).queued_pending (sym same ∙ q)) (λ w. e)))
      (λ e id.
        store-elim (λ x. StreamInv id x (s.pending ++ (i ∷ [])) s.wire) s.streams i id
          (record st { queued = true })
          (λ f.
            subst (λ j. StreamInv j (record st { queued = true }) (s.pending ++ (i ∷ [])) s.wire) f
              (on_queue true (s.pending ++ (i ∷ [])) (λ q. ground (arith, mem-snoc i i s.pending))
                (λ w. refl)))
          (λ ne.
            StreamInv-other id (s.streams id) s.pending (s.pending ++ (i ∷ [])) s.wire (v id)
              (λ m. ground (arith, mem-snoc id i s.pending, m))))
  where
    on_queue :
        (q : Bool) (pending : List ℕ)
        → (q ≡ true → mem i pending ≡ true)
        → (has_work st ≡ true → q ≡ true)
        → StreamInv i (record st { queued = q }) pending s.wire
    on_queue q pending place work = record {
      fin_local = local;
      sent_empty = empty;
      work_queued = work;
      queued_pending = place;
      dead_idle = λ d. absurd (ground (arith, live));
      last = (v i).last;
      over = λ b l. over b;
    }

enqueue-Inv :
    (s : Outbound) (i : ℕ) (frame : List ℕ)
    → Inv s
    → is_none (s.streams i).fin_state ≡ true
    → Inv (enqueue s i frame).0
unfolding enqueue
enqueue-Inv s i frame v open_ =
    let st = s.streams i in
    if-elim (λ (r : Outbound × Bool). Inv r.0) (not st.live) _ _ (λ e. v)
      (λ e.
        schedule-Inv s i (record st { out = st.out ++ (frame ∷ []) }) v (ground arith) refl
          (v i).fin_local (λ b. absurd (omega (arith, sent_is_not_none st.fin_state b open_)))
          (λ b. (v i).over b (ground arith)))
  where
    sent_is_not_none : (f : FinState) → is_sent f ≡ true → is_none f ≡ true → 1 ≤ 0
    sent_is_not_none fin_none a b = absurd cc
    sent_is_not_none fin_queued a b = absurd cc
    sent_is_not_none fin_sent a b = absurd cc

pub enqueue_fin-Inv :
    (s : Outbound) (i : ℕ) → Inv s → (s.streams i).local_fin ≡ true → Inv (enqueue_fin s i)
unfolding enqueue_fin
enqueue_fin-Inv s i v local =
    let st = s.streams i in
    if-elim (λ (r : Outbound). Inv r) (not (is_none st.fin_state) || not st.live) _ _ (λ e. v)
      (λ e.
        schedule-Inv s i (record st { fin_state = fin_queued }) v (ground arith) refl (λ b. local)
          (λ b. absurd cc) (λ b. absurd (ground (arith, (v i).over b))))

schedule-same :
    (s : Outbound) (i : ℕ) (st : Sender) → ((schedule s i st).streams i).fin_state ≡ st.fin_state
schedule-same s i st =
    if-elim (λ (t : Outbound). (t.streams i).fin_state ≡ st.fin_state) st.queued _ _
      (λ e.
        store-elim (λ x. x.fin_state ≡ st.fin_state) s.streams i i st (λ f. refl)
          (λ ne. absurd (ne refl)))
      (λ e.
        store-elim (λ x. x.fin_state ≡ st.fin_state) s.streams i i (record st { queued = true })
          (λ f. refl) (λ ne. absurd (ne refl)))

enqueue-same :
    (s : Outbound) (i : ℕ) (frame : List ℕ)
    → ((enqueue s i frame).0.streams i).fin_state ≡ (s.streams i).fin_state
unfolding enqueue
enqueue-same s i frame =
    let st = s.streams i in
    if-elim (λ (r : Outbound × Bool). (r.0.streams i).fin_state ≡ st.fin_state) (not st.live) _ _
      (λ e. refl) (λ e. schedule-same s i (record st { out = st.out ++ (frame ∷ []) }))

pub frame_data-Inv :
    (fuel max_frame : ℕ) (s : Outbound) (i : ℕ) (p : List ℕ)
    → Inv s
    → is_none (s.streams i).fin_state ≡ true
    → Inv (frame_data fuel max_frame s i p).0
unfolding frame_data
frame_data-Inv zero max_frame s i p v open_ = v
frame_data-Inv (suc fuel) max_frame s i p v open_ =
    let chunk = min (length p) max_frame in
    let r = enqueue s i (chunk_frame i chunk p) in
    let w = enqueue-Inv s i (chunk_frame i chunk p) v open_ in
    let next =
      frame_data-Inv fuel max_frame r.0 i (drop chunk p) w
        (ap is_none (enqueue-same s i (chunk_frame i chunk p)) ∙ open_) in
    let more = frame_data fuel max_frame r.0 i (drop chunk p) in
    if-elim (λ (q : Outbound × Bool). Inv q.0) (length p == 0) (s, true)
      (if r.1 then more else (r.0, false)) (λ e. v)
      (λ e. if-elim (λ (q : Outbound × Bool). Inv q.0) r.1 more (r.0, false) (λ f. next) (λ f. w))
