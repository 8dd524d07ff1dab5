-- ===== src/Umux/Outbound/Fins.antt =====
-- A round of the flush that sends a FIN or drops a stale entry of the queue.
use uio.Prelude.Store.{store-elim}
use uio.Prelude.{
  ℕ, ◌≡◌, ◌≢◌, refl, ap, ap₂, sym, subst, ◌∙◌, true, false, List, [], ◌∷◌, ◌++◌, arith,
}
use uio.Umux.Outbound.{fin_sent, fin_frame, Outbound, is_queued, put_stream}
use uio.Umux.Outbound.Flush.{again, Answer, accepted, overflow, failed, after_fin}
use uio.Umux.Outbound.Queues.{mem, frames_of, ended, fin_last-snoc, StreamInv}
use uio.Umux.Outbound.Invariant.{
  Inv, Good, StreamInv-other, StreamInv-wire, frames_of-away, mem-tail, mem-rotate,
}

module _ (i : ℕ) (rest : List ℕ) (s : Outbound) (head : s.pending ≡ i ∷ rest) (v : Inv s) where
  -- Another stream, once stream `i` left the head of the queue.
  pub behind : (id : ℕ) → i ≢ id → StreamInv id (s.streams id) rest s.wire
  behind id ne =
      StreamInv-other id (s.streams id) s.pending rest s.wire (v id)
        (λ m. mem-tail id i rest ne (ap (mem id) (sym head) ∙ m))

  pub rotated : (id : ℕ) → StreamInv id (s.streams id) (rest ++ (i ∷ [])) s.wire
  rotated id =
      StreamInv-other id (s.streams id) s.pending (rest ++ (i ∷ [])) s.wire (v id)
        (λ m. mem-rotate id i rest (ap (mem id) (sym head) ∙ m))

  fin_sent-StreamInv :
      (s.streams i).out ≡ []
      → is_queued (s.streams i).fin_state ≡ true
      → (s.streams i).live ≡ true
      → StreamInv i
          (record (s.streams i) { queued = false; fin_state = fin_sent })
          rest
          (s.wire ++ (fin_frame i ∷ []))
  fin_sent-StreamInv empty fin live =
      let u = v i in
      let open_ : ended i s.wire ≡ false = ground (arith, u.over, fin) in
      record {
        fin_local = λ e. u.fin_local (ground (arith, fin));
        sent_empty = λ e. empty;
        work_queued = λ w. absurd (ground (arith, empty));
        queued_pending = λ q. absurd (ground arith);
        dead_idle = λ d. refl;
        last = ground (arith, fin_last-snoc i s.wire (fin_frame i), u.last, open_);
        over = λ e l. refl;
      }

  pub after_fin-Good :
      (id : ℕ) (a : Answer)
      → (s.streams i).out ≡ []
      → is_queued (s.streams i).fin_state ≡ true
      → (s.streams i).live ≡ true
      → Good id s (after_fin s i rest a)
  after_fin-Good id overflow empty fin live = (v id, λ e. refl)
  after_fin-Good id failed empty fin live = (v id, λ e. refl)
  after_fin-Good id accepted empty fin live =
      let st = record (s.streams i) { queued = false; fin_state = fin_sent } in
      (
        store-elim (λ x. StreamInv id x rest (s.wire ++ (fin_frame i ∷ []))) s.streams i id st
            (λ e.
              subst (λ j. StreamInv j st rest (s.wire ++ (fin_frame i ∷ []))) e
                (fin_sent-StreamInv empty fin live))
            (λ ne.
              StreamInv-wire id (s.streams id) rest s.wire (fin_frame i) (behind id ne)
                (ground arith) (ground arith)),
        λ e. ap₂ ◌++◌ (frames_of-away id s.wire (fin_frame i) refl) (
            store-elim (λ x. x.out ≡ (s.streams id).out) s.streams i id st
              (λ e. ap (λ j. (s.streams j).out) e) (λ ne. refl)),
      )

  -- A stale entry of the queue: no data and no FIN to submit.
  pub stale-Good :
      (id : ℕ)
      → (s.streams i).out ≡ []
      → is_queued (s.streams i).fin_state ≡ false
      → Good id s (
          again
            (record (put_stream s i (record (s.streams i) { queued = false })) { pending = rest }))
  stale-Good id empty fin =
      let st = record (s.streams i) { queued = false } in
      (
        store-elim (λ x. StreamInv id x rest s.wire) s.streams i id st
            (λ e.
              subst (λ j. StreamInv j st rest s.wire) e
                (let u = v i in
                  record {
                    fin_local = u.fin_local;
                    sent_empty = u.sent_empty;
                    work_queued = λ w. absurd (ground (arith, empty, fin));
                    queued_pending = λ q. absurd (ground arith);
                    dead_idle = λ d. refl;
                    last = u.last;
                    over = u.over;
                  }))
            (λ ne. behind id ne),
        λ e. ap (◌++◌ (frames_of id s.wire)) (
            store-elim (λ x. x.out ≡ (s.streams id).out) s.streams i id st
              (λ e. ap (λ j. (s.streams j).out) e) (λ ne. refl)),
      )
