-- ===== src/Umux/Opening/Sessions.antt =====
-- Opens, accepts and removals in any order.
use uio.Prelude.{
  ℕ, suc, All, ap, subst, [], ◌∷◌, ◌++◌, ◌+◌, ◌%◌, ◌^◌, ◌≡◌, refl, Bool, true, false, not, Option,
  none, some, List, length, leb, if◌then◌else◌, arith, ◌≤◌, ◌<◌, if-elim,
}
use uio.Umux.Frame.{flag_ack, flag_rst}
use uio.Umux.Outbound.Queues.{mem}
use uio.Umux.Opening.{
  Table, Outcome, nothing, flush_error, protocol_error, new_table, insert, send, remove_stream,
  abort_stream, open_stream, check_peer_stream_id, refuse, backlog_full, hand_over, admit,
  admit_next, accept_check, accept_admit, queue_stream, vetted_next, too_many, stream, handle_ack,
}
use uio.Umux.Opening.Numbers.{
  Inv, Fine, IsKnown, waiting, All-insert, length-insert, send-Inv, remove_stream-Inv,
  abort_stream-Inv, handle_ack-Inv, open_stream-Inv, next_is_new, check_peer_stream_id-parity,
}

refuse-Inv : (t : Table) (id : ℕ) (broken : Bool) → Inv t → Fine (refuse t id broken)
refuse-Inv t id broken v = send-Inv t flag_rst id v

admit-Inv :
    (t : Table) (id : ℕ) (vetted broken : Bool)
    → Inv t
    → IsKnown t.client t.next_id id
    → length (waiting t.vetting) + length t.streams ≤ t.max_streams
    → Fine (admit t id vetted broken)
unfolding admit
admit-Inv t id vetted broken v known below =
    let added = record t { streams = insert id t.streams } in
    let admitted = send added flag_ack id in
    let done : Table × Outcome =
      if broken then (admitted, flush_error) else (admitted, stream id) in
    let going : Table × Outcome = if t.go_away then refuse t id broken else done in
    let up : Table × Outcome = if t.closed then (t, nothing) else going in
    let w = send-Inv added flag_ack id (record {
      known = All-insert (IsKnown t.client t.next_id) id t.streams known v.known;
      parity = v.parity;
      bounded = omega (arith, length-insert id t.streams, below);
      vetted = v.vetted;
      next_pos = v.next_pos;
    }) in
    if-elim Fine (not vetted) (refuse t id broken) up (λ e. refuse-Inv t id broken v)
      (λ e.
        if-elim Fine t.closed (t, nothing) going (λ f. v)
          (λ f.
            if-elim Fine t.go_away (refuse t id broken) done (λ g. refuse-Inv t id broken v)
              (λ g.
                if-elim Fine broken (admitted, flush_error) (admitted, stream id) (λ h. w)
                  (λ h. w))))

admit_next-Inv :
    (o : Option ℕ) (t : Table) (vetted broken : Bool)
    → t.vetting ≡ o
    → Inv t
    → Fine (admit_next o t vetted broken)
admit_next-Inv none t vetted broken e v = v
admit_next-Inv (some id) t vetted broken e v =
    let room = ap (λ o. length (waiting o)) e in
    let known = subst (λ o. All (IsKnown t.client t.next_id) (waiting o)) e v.vetted in
    admit-Inv (record t { vetting = none }) id vetted broken
      (record {
        known = v.known;
        parity = v.parity;
        bounded = omega (arith, v.bounded);
        vetted = tt;
        next_pos = v.next_pos;
      })
      known.0 (omega (arith, v.bounded, room))

queue_stream-Inv : (o : Option ℕ) (t : Table) (id : ℕ) → Inv t → Fine (queue_stream o t id)
queue_stream-Inv none t id v = v
queue_stream-Inv (some room) t id v =
    let more = record t { accepted = t.accepted ++ (id ∷ []) } in
    let last : Table × Outcome =
      if leb room (length t.accepted) then (t, too_many) else (more, stream id) in
    if-elim Fine t.closed (t, nothing) last (λ e. v)
      (λ e.
        if-elim Fine (leb room (length t.accepted)) (t, too_many) (more, stream id) (λ f. v)
          (λ f. record {
            known = v.known;
            parity = v.parity;
            bounded = v.bounded;
            vetted = v.vetted;
            next_pos = v.next_pos;
          }))

accept_check-Inv :
    (t : Table) (id : ℕ) (broken : Bool) → Inv t → id < 2 ^ 32 → Fine (accept_check t id broken)
unfolding accept_check
accept_check-Inv t id broken v small =
    let no = refuse t id broken in
    let next : Table × Outcome = (record t { vetting = some id }, vetted_next) in
    let queued : Table × Outcome = if backlog_full t.backlog t.accepted then no else next in
    let fresh : Table × Outcome = if mem id t.streams then (t, protocol_error) else queued in
    let room : Table × Outcome = if leb t.max_streams (length t.streams) then no else fresh in
    let going : Table × Outcome = if t.go_away then no else room in
    let up : Table × Outcome = if t.closed then (t, nothing) else going in
    let refused = refuse-Inv t id broken v in
    if-elim Fine (not (check_peer_stream_id t.client id)) (t, protocol_error) up (λ e. v)
      (λ e.
        if-elim Fine t.closed (t, nothing) going (λ f. v)
          (λ f.
            if-elim Fine t.go_away no room (λ g. refused)
              (λ g.
                if-elim Fine (leb t.max_streams (length t.streams)) no fresh (λ h. refused)
                  (λ h.
                    if-elim Fine (mem id t.streams) (t, protocol_error) queued (λ k. v)
                      (λ k.
                        if-elim Fine (backlog_full t.backlog t.accepted) no next (λ l. refused)
                          (λ l.
                            let p = check_peer_stream_id-parity t.client id (ground (arith, e)) in
                            record {
                              known = v.known;
                              parity = v.parity;
                              bounded = ground (arith, h);
                              vetted = ((p.0, small, λ q. absurd (omega (arith, p.1 q))), tt);
                              next_pos = v.next_pos;
                            }))))))

-- One stretch under the session's lock. An open numbers its stream below 2 ^ 32 - 2: the numbers did
-- not wrap around. The transport hands over one frame at a time, so that no stream is checked while
-- another waits for its admission.
pub data Step : Table → Table → Type 0 where
  opens : {t : Table} (broken : Bool) → t.next_id + 2 < 2 ^ 32 → Step t (open_stream t broken).0
  checks :
      {t : Table} (id : ℕ) (broken : Bool)
      → id < 2 ^ 32
      → t.vetting ≡ none
      → Step t (accept_check t id broken).0
  admits : {t : Table} (vetted broken : Bool) → Step t (accept_admit t vetted broken).0
  hands : {t : Table} (id : ℕ) → Step t (hand_over t id).0
  acks : {t : Table} (id : ℕ) → Step t (handle_ack t id)
  removes : {t : Table} (id : ℕ) → Step t (remove_stream t id)
  aborts : {t : Table} (id : ℕ) → Step t (abort_stream t id)
  ends :
      {t : Table} (closed go_away : Bool) → Step t (record t { closed = closed; go_away = go_away })
  takes : {t : Table} (accepted : List ℕ) → Step t (record t { accepted = accepted })

pub data Reach (client : Bool) (max_streams : ℕ) (backlog : Option ℕ) : Table → Type 0 where
  starts : Reach client max_streams backlog (new_table client max_streams backlog)
  steps :
      {t u : Table}
      → Reach client max_streams backlog t
      → Step t u
      → Reach client max_streams backlog u

admitted-Inv : (t : Table) (vetted broken : Bool) → Inv t → Fine (accept_admit t vetted broken)
unfolding accept_admit
admitted-Inv t vetted broken v = admit_next-Inv t.vetting t vetted broken refl v

handed-Inv : (t : Table) (id : ℕ) → Inv t → Fine (hand_over t id)
unfolding hand_over
handed-Inv t id v = queue_stream-Inv t.backlog t id v

Step-Inv : {t u : Table} → Inv t → Step t u → Inv u
Step-Inv {t = t} v (opens broken small) = open_stream-Inv t broken v small
Step-Inv {t = t} v (checks id broken small e) = accept_check-Inv t id broken v small
Step-Inv {t = t} v (admits vetted broken) = admitted-Inv t vetted broken v
Step-Inv {t = t} v (hands id) = handed-Inv t id v
Step-Inv {t = t} v (acks id) = handle_ack-Inv t id v
Step-Inv {t = t} v (removes id) = remove_stream-Inv t id v
Step-Inv {t = t} v (aborts id) = abort_stream-Inv t id v
Step-Inv v (ends closed go_away) = record {
  known = v.known;
  parity = v.parity;
  vetted = v.vetted;
  bounded = v.bounded;
  next_pos = v.next_pos;
}
Step-Inv v (takes accepted) = record {
  known = v.known;
  parity = v.parity;
  vetted = v.vetted;
  bounded = v.bounded;
  next_pos = v.next_pos;
}

new-Inv :
    (client : Bool) (max_streams : ℕ) (backlog : Option ℕ)
    → Inv (new_table client max_streams backlog)
new-Inv true max_streams backlog = record {
  known = tt;
  parity = refl;
  vetted = tt;
  bounded = omega arith;
  next_pos = omega arith;
}
new-Inv false max_streams backlog = record {
  known = tt;
  parity = refl;
  vetted = tt;
  bounded = omega arith;
  next_pos = omega arith;
}

Reach-Inv :
    {client : Bool} {max_streams : ℕ} {backlog : Option ℕ} {t : Table}
    → Reach client max_streams backlog t
    → Inv t
Reach-Inv {client = client} {max_streams = max_streams} {backlog = backlog} starts =
    new-Inv client max_streams backlog
Reach-Inv (steps r st) = Step-Inv (Reach-Inv r) st

own_number :
    (client : Bool) (id : ℕ)
    → 0 < id
    → id % 2 ≡ (if client then 1 else 0)
    → check_peer_stream_id (not client) id ≡ true × check_peer_stream_id client id ≡ false
unfolding check_peer_stream_id
own_number true id pos e = (ground (arith, pos, e), ground (arith, e))
own_number false id pos e = (ground (arith, pos, e), ground (arith, e))

-- However the locked stretches of a session that opens, checks, admits, hands over and removes
-- streams follow each other, before its numbers wrap around and with one frame of the peer handled
-- at a time: its table holds at most one stream more than `MaxStreams`, and the number of the next
-- open is one that the table does not hold, that the peer's check admits, and that this end's check
-- refuses to the peer.
pub numbers_apart :
    (client : Bool) (max_streams : ℕ) (backlog : Option ℕ) (t : Table)
    → Reach client max_streams backlog t
    → length t.streams ≤ suc t.max_streams
      × mem t.next_id t.streams ≡ false
      × check_peer_stream_id (not t.client) t.next_id ≡ true
      × check_peer_stream_id t.client t.next_id ≡ false
numbers_apart client max_streams backlog t r =
    let v = Reach-Inv r in
    let apart = own_number t.client t.next_id v.next_pos v.parity in
    (omega (arith, v.bounded), next_is_new t v, apart.0, apart.1)
