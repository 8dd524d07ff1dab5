-- ===== src/Umux/Outbound/Order.antt =====
-- The session sends each stream's frames in order, its FIN last, and leaves nothing behind.
use uio.Prelude.{
  ℕ, zero, suc, ◌≡◌, refl, subst, ◌∙◌, Bool, true, false, not, ◌&&◌, ◌||◌, List, [], ◌∷◌, length,
  ◌==◌, arith, ℕ_discrete, Bool-cases, inl, inr,
}
use uio.Umux.Outbound.{control_frame, data_frame, fin_frame, Outbound, is_queued}
use uio.Umux.Outbound.Flush.{
  Round, again, stop, Transport, flush_stream, flush_pending, flush_queues, flush_round, flush_from,
  flush, max_flush_frames,
}
use uio.Umux.Outbound.Queues.{StreamInv, flow}
use uio.Umux.Outbound.Invariant.{Inv, Post, Good, after_control-Good}
use uio.Umux.Outbound.Fins.{behind, after_fin-Good, stale-Good}
use uio.Umux.Outbound.Frames.{after_data-Good}

module _ (i : ℕ) (rest : List ℕ) (s : Outbound) (head : s.pending ≡ i ∷ rest) (v : Inv s) where
  flush_stream-Good :
      (transport : Transport) (id : ℕ) (out : List (List ℕ))
      → (s.streams i).out ≡ out
      → (s.streams i).live ≡ true
      → Good id s (flush_stream transport s i rest out)
  flush_stream-Good transport id [] out live =
      elim (Bool-cases (is_queued (s.streams i).fin_state)) [
        | inl e ↦
            rw e (after_fin-Good i rest s head v id (transport s.wire (fin_frame i)) out e live)
        | inr e ↦ rw e (stale-Good i rest s head v id out e)
      ]
  flush_stream-Good transport id (frame ∷ frames) out live =
      after_data-Good i rest s head v id frame frames (transport s.wire (data_frame i frame)) out
        live

  flush_head-Good :
      (transport : Transport) (id : ℕ) → Good id s (flush_pending transport s (i ∷ rest))
  flush_head-Good transport id = elim (Bool-cases (s.streams i).live) [
    | inl e ↦ rw e (flush_stream-Good transport id (s.streams i).out refl e)
    | inr e ↦ rw e (
      elim (ℕ_discrete i id) [
        | yes same ↦
            subst (λ j. StreamInv j (s.streams j) rest s.wire) same
              (let u = v i in
                record {
                  fin_local = u.fin_local;
                  sent_empty = u.sent_empty;
                  work_queued = u.work_queued;
                  queued_pending = λ q. absurd (ground (arith, u.dead_idle e));
                  dead_idle = u.dead_idle;
                  last = u.last;
                  over = u.over;
                })
        | no ne ↦ behind i rest s head v id ne
      ],
      λ b. refl,
    )
  ]

flush_pending-Good :
    (transport : Transport) (s : Outbound) (id : ℕ) (pending : List ℕ)
    → Inv s
    → s.pending ≡ pending
    → Good id s (flush_pending transport s pending)
flush_pending-Good transport s id [] v e = (v id, λ b. refl)
flush_pending-Good transport s id (i ∷ rest) v e = flush_head-Good i rest s e v transport id

flush_queues-Good :
    (transport : Transport) (s : Outbound) (id : ℕ) (control : List (List ℕ))
    → Inv s
    → Good id s (flush_queues transport s control)
flush_queues-Good transport s id [] v = flush_pending-Good transport s id s.pending v refl
flush_queues-Good transport s id (frame ∷ rest) v =
    after_control-Good id s frame rest (transport s.wire (control_frame frame)) (v id)

Good-flag :
    (id : ℕ) (s : Outbound) (flag : Bool) (r : Round)
    → Good id (record s { go_away_flushed = flag }) r
    → Good id s r
Good-flag id s flag (again t) g = g
Good-flag id s flag (stop t broken) g = g

flush_round-Good :
    (transport : Transport) (s : Outbound) (id : ℕ) → Inv s → Good id s (flush_round transport s)
unfolding flush_round
flush_round-Good transport s id v = elim (Bool-cases (s.go_away_sent && length s.control == 0)) [
  | inl e ↦ rw e (
      Good-flag id s true (flush_queues transport (record s { go_away_flushed = true }) s.control)
        (flush_queues-Good transport (record s { go_away_flushed = true }) id s.control v))
  | inr e ↦ rw e (flush_queues-Good transport s id s.control v)
]

abbrev flush_on : ℕ → Transport → Round → Outbound × Bool
flush_on budget transport (again t) = flush_from budget transport t
flush_on budget transport (stop t broken) = (t, broken)

flush_from-Post :
    (budget : ℕ) (transport : Transport) (s : Outbound)
    → Inv s
    → (id : ℕ) → let (t, broken) = flush_from budget transport s in Post id s t broken
unfolding flush_from
flush_from-Post zero transport s v id = (v id, λ e. refl)
flush_from-Post (suc budget) transport s v id =
    go_on (flush_round transport s) (λ j. flush_round-Good transport s j v)
      (λ t w. flush_from-Post budget transport t w id)
  where
    go_on :
        (r : Round)
        → ((j : ℕ) → Good j s r)
        → ((t : Outbound)
            → Inv t
            → let (u, broken) = flush_from budget transport t in Post id t u broken)
        → let (u, broken) = flush_on budget transport r in Post id s u broken
    go_on (again t) g ih = let rest = ih t (λ j. (g j).0) in (rest.0, λ b. rest.1 b ∙ (g id).1 refl)
    go_on (stop t broken) g ih = g id

-- A flush keeps the invariant. Unless the transport failed, each stream's frames that went and those
-- that wait are together what they were, in the same order, whatever the transport accepted.
pub flush_keeps :
    (transport : Transport) (s : Outbound) (id : ℕ)
    → Inv s
    → let (t, broken) = flush transport s in
      StreamInv id (t.streams id) t.pending t.wire × (broken ≡ false → flow id t ≡ flow id s)
unfolding flush
flush_keeps transport s id v = elim (Bool-cases (not s.has_conn || s.closed)) [
  | inl e ↦ rw e (v id, λ b. refl)
  | inr e ↦ rw e (flush_from-Post max_flush_frames transport s v id)
]
