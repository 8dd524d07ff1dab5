-- ===== src/Umux/Outbound/Flush.antt =====
-- umux/session.go: `flushLocked`. The transport's answer may depend on all that it accepted before.
use uio.Prelude.{
  ℕ, zero, suc, Bool, true, false, not, ◌&&◌, ◌||◌, List, [], ◌∷◌, ◌++◌, length, ◌==◌,
  if◌then◌else◌,
}
use uio.Umux.Outbound.{
  fin_sent, Sent, control_frame, data_frame, fin_frame, Outbound, put_stream, is_queued,
}

pub data Answer : Type 0 where
  accepted overflow failed : Answer

abbrev pub Transport : Type 0
Transport = List Sent → Sent → Answer

-- What one round of the flush loop does: go on, or return with whether the transport failed.
pub data Round : Type 0 where
  again : Outbound → Round
  stop : Outbound → Bool → Round

abbrev pub put_wire : Outbound → Sent → Outbound
put_wire s f = record s { wire = s.wire ++ (f ∷ []) }

abbrev pub after_control : Outbound → List ℕ → List (List ℕ) → Answer → Round
after_control s frame rest accepted =
    again (record (put_wire s (control_frame frame)) { control = rest })
after_control s frame rest overflow = stop s false
after_control s frame rest failed = stop s true

-- The FIN stays queued until the transport accepts it.
abbrev pub after_fin : Outbound → ℕ → List ℕ → Answer → Round
after_fin s id rest accepted =
    again
      (record (put_stream (put_wire s (fin_frame id)) id
        (record (s.streams id) { queued = false; fin_state = fin_sent })) {
          pending = rest;
          fin_flushed = s.fin_flushed ++ (id ∷ []);
        })
after_fin s id rest overflow = stop s false
after_fin s id rest failed = stop s true

-- An emptied stream leaves the queue; another goes to its back.
abbrev pub after_accepted : Outbound → ℕ → List ℕ → List (List ℕ) → Outbound
after_accepted s id rest frames =
    let st = record (s.streams id) { out = frames } in
    if length frames == 0 && not (is_queued st.fin_state)
    then record (put_stream s id (record st { queued = false })) {
      pending = rest;
      drained = if s.hears_drains then s.drained ++ (id ∷ []) else s.drained;
    }
    else record (put_stream s id st) { pending = rest ++ (id ∷ []) }

-- A frame that overflows goes back to the front; one that fails is lost.
abbrev pub after_data : Outbound → ℕ → List ℕ → List ℕ → List (List ℕ) → Answer → Round
after_data s id rest frame frames accepted =
    again (after_accepted (put_wire s (data_frame id frame)) id rest frames)
after_data s id rest frame frames overflow = stop s false
after_data s id rest frame frames failed =
    stop (put_stream s id (record (s.streams id) { out = frames })) true

-- The stream `id` at the head of the queue, with its outbound frames.
abbrev pub flush_stream : Transport → Outbound → ℕ → List ℕ → List (List ℕ) → Round
flush_stream transport s id rest [] =
    if not (is_queued (s.streams id).fin_state)
    then again
        (record (put_stream s id (record (s.streams id) { queued = false })) { pending = rest })
    else after_fin s id rest (transport s.wire (fin_frame id))
flush_stream transport s id rest (frame ∷ frames) =
    after_data s id rest frame frames (transport s.wire (data_frame id frame))

abbrev pub flush_pending : Transport → Outbound → List ℕ → Round
flush_pending transport s [] = stop s false
flush_pending transport s (id ∷ rest) =
    if not (s.streams id).live
    then again (record s { pending = rest })
    else flush_stream transport s id rest (s.streams id).out

abbrev pub flush_queues : Transport → Outbound → List (List ℕ) → Round
flush_queues transport s [] = flush_pending transport s s.pending
flush_queues transport s (frame ∷ rest) =
    after_control s frame rest (transport s.wire (control_frame frame))

unfoldable pub flush_round : Transport → Outbound → Round
flush_round transport s =
    let t =
      if s.go_away_sent && length s.control == 0 then record s { go_away_flushed = true } else s in
    flush_queues transport t t.control

unfoldable pub flush_from : ℕ → Transport → Outbound → Outbound × Bool
flush_from zero transport s = (s, false)
flush_from (suc budget) transport s = elim (flush_round transport s) [
  | again t ↦ flush_from budget transport t
  | stop t broken ↦ (t, broken)
]

abbrev pub max_flush_frames : ℕ
max_flush_frames = 256

-- `flushLocked`; whether the transport failed.
unfoldable pub flush : Transport → Outbound → Outbound × Bool
flush transport s =
    if not s.has_conn || s.closed then (s, false) else flush_from max_flush_frames transport s
