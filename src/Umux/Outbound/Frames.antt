-- ===== src/Umux/Outbound/Frames.antt =====
-- A round of the flush that sends one frame of a stream.
use uio.Prelude.Store.{store, store-elim}
use uio.Prelude.{
  ℕ, ◌≡◌, ◌≢◌, refl, ap, sym, subst, ◌∙◌, Bool, true, false, not, ◌&&◌, List, [], ◌∷◌, ◌++◌,
  append_assoc, length, ◌==◌, arith, Bool-cases, inl, inr,
}
use uio.Umux.Outbound.{Sent, data_frame, Outbound, is_queued}
use uio.Umux.Outbound.Flush.{Answer, accepted, overflow, failed, after_data}
use uio.Umux.Outbound.Queues.{
  mem, is_sent, data_of, frames_of, ended, fin_last, mem-snoc, frames_of-snoc, ended-snoc,
  fin_last-snoc, has_work, StreamInv, flow,
}
use uio.Umux.Outbound.Invariant.{Inv, Good, StreamInv-wire, frames_of-away}
use uio.Umux.Outbound.Fins.{behind, rotated}

module _ (i : ℕ) (rest : List ℕ) (s : Outbound) (head : s.pending ≡ i ∷ rest) (v : Inv s) where
  not_sent :
      (frame : List ℕ) (frames : List (List ℕ))
      → (s.streams i).out ≡ frame ∷ frames
      → is_sent (s.streams i).fin_state ≡ false
  not_sent frame frames out = elim (Bool-cases (is_sent (s.streams i).fin_state)) [
    | inl e ↦ (let none_left = (v i).sent_empty e in absurd cc)
    | inr e ↦ e
  ]

  -- Stream `i` with its first frame gone, if it is scheduled while it has more.
  taken-StreamInv :
      (frame : List ℕ) (frames : List (List ℕ)) (q : Bool) (pending : List ℕ) (wire : List Sent)
      → let st = record (s.streams i) { out = frames; queued = q } in
        (s.streams i).out ≡ frame ∷ frames
        → (s.streams i).live ≡ true
        → (has_work st ≡ true → q ≡ true)
        → (q ≡ true → mem i pending ≡ true)
        → fin_last i wire ≡ true
        → ended i wire ≡ ended i s.wire
        → StreamInv i st pending wire
  taken-StreamInv frame frames q pending wire out live work place last same = record {
    fin_local = (v i).fin_local;
    sent_empty = λ e. absurd (ground (arith, not_sent frame frames out));
    work_queued = work;
    queued_pending = place;
    dead_idle = λ d. absurd (ground (arith, live));
    last = last;
    over = λ e l. (v i).over (sym same ∙ e) l;
  }

  after_accepted-Good :
      (id : ℕ) (frame : List ℕ) (frames : List (List ℕ)) (q : Bool) (pending : List ℕ)
      → let st = record (s.streams i) { out = frames; queued = q } in
        (s.streams i).out ≡ frame ∷ frames
        → (s.streams i).live ≡ true
        → (has_work st ≡ true → q ≡ true)
        → (q ≡ true → mem i pending ≡ true)
        → (i ≢ id → StreamInv id (s.streams id) pending s.wire)
        → StreamInv id (store s.streams i st id) pending (s.wire ++ (data_frame i frame ∷ []))
          × (frames_of id (s.wire ++ (data_frame i frame ∷ [])) ++ (store s.streams i st id).out
              ≡ flow id s)
  after_accepted-Good id frame frames q pending out live work place others =
      let st = record (s.streams i) { out = frames; queued = q } in
      let wire = s.wire ++ (data_frame i frame ∷ []) in
      let f = data_frame i frame in
      let open_ : ended i s.wire ≡ false =
        ground (arith, (v i).over, live, not_sent frame frames out) in
      let last : fin_last i wire ≡ true =
        ground (arith, fin_last-snoc i s.wire f, (v i).last, open_) in
      let own_frame : data_of i f ≡ frame ∷ [] = ground arith in
      let same : ended i wire ≡ ended i s.wire = ground (arith, ended-snoc i s.wire f) in
      (
        store-elim (λ x. StreamInv id x pending wire) s.streams i id st
            (λ e.
              subst (λ j. StreamInv j st pending wire) e
                (taken-StreamInv frame frames q pending wire out live work place last same))
            (λ ne.
              StreamInv-wire id (s.streams id) pending s.wire f (others ne) (ground arith) refl),
        store-elim (λ x. frames_of id wire ++ x.out ≡ flow id s) s.streams i id st
            (λ e.
              subst (λ j. frames_of j wire ++ frames ≡ flow j s) e
                (ap (λ w. w ++ frames)
                    (frames_of-snoc i s.wire f ∙ ap (λ d. frames_of i s.wire ++ d) own_frame)
                  ∙ append_assoc (frames_of i s.wire) (frame ∷ []) frames
                  ∙ ap (◌++◌ (frames_of i s.wire)) (sym out)))
            (λ ne. ap (λ w. w ++ (s.streams id).out) (frames_of-away id s.wire f (ground arith))),
      )

  pub after_data-Good :
      (id : ℕ) (frame : List ℕ) (frames : List (List ℕ)) (a : Answer)
      → (s.streams i).out ≡ frame ∷ frames
      → (s.streams i).live ≡ true
      → Good id s (after_data s i rest frame frames a)
  after_data-Good id frame frames overflow out live = (v id, λ e. refl)
  after_data-Good id frame frames failed out live =
      let u = v i in
      let q = (s.streams i).queued in
      let busy : q ≡ true = u.work_queued (ground (arith, out)) in
      (
        store-elim (λ x. StreamInv id x s.pending s.wire) s.streams i id
            (record (s.streams i) { out = frames })
            (λ e.
              subst (λ j. StreamInv j (record (s.streams i) { out = frames }) s.pending s.wire) e
                (taken-StreamInv frame frames q s.pending s.wire out live (λ w. busy)
                  u.queued_pending u.last refl))
            (λ ne. v id),
        λ e. absurd cc,
      )
  after_data-Good id frame frames accepted out live =
      let done = length frames == 0 && not (is_queued (s.streams i).fin_state) in
      let busy : (s.streams i).queued ≡ true = (v i).work_queued (ground (arith, out)) in
      elim (Bool-cases done) [
        | inl e ↦
            (let r =
                after_accepted-Good id frame frames false rest out live
                  (λ w. absurd (ground (arith, e))) (λ q. absurd (ground arith))
                  (behind i rest s head v id) in
              rw e (r.0, λ b. r.1))
        | inr e ↦
            (let r =
                after_accepted-Good id frame frames (s.streams i).queued (rest ++ (i ∷ [])) out live
                  (λ w. busy) (λ q. ground (arith, mem-snoc i i rest))
                  (λ ne. rotated i rest s head v id) in
              rw e (r.0, λ b. r.1))
      ]
