-- ===== src/Umux/Opening/Numbers.antt =====
-- Who may open which number: the two ends of a session never use each other's.
use uio.Prelude.{
  ℕ, suc, ◌+◌, ◌%◌, ◌^◌, ◌≡◌, refl, subst, ◌∙◌, Bool, true, false, Option, none, some, List, [],
  ◌∷◌, ◌++◌, All, length, leb, ◌==◌, if◌then◌else◌, arith, ◌≤◌, ◌<◌, if-elim, Bool-cases, inl, inr,
}
use uio.Umux.Frame.{flag_syn, flag_rst}
use uio.Umux.Outbound.Queues.{mem}
use uio.Umux.Opening.{
  Table, Outcome, flush_error, closed_session, going_away, too_many, stream, insert, remove, send,
  remove_stream, abort_stream, open_stream, check_peer_stream_id, handle_ack,
}

-- A number that this end opened earlier, or one of the peer's.
abbrev pub IsKnown : Bool → ℕ → ℕ → Type 0
IsKnown client next id = 0 < id × id < 2 ^ 32 × ((id % 2 ≡ (if client then 1 else 0)) → id < next)

-- The stream between its check and its admission.
abbrev pub waiting : Option ℕ → List ℕ
waiting none = []
waiting (some id) = id ∷ []

-- At most `MaxStreams` streams, and one that was checked before others were opened.
pub record Inv (t : Table) : Type 0 where
  pub known : All (IsKnown t.client t.next_id) t.streams
  pub parity : t.next_id % 2 ≡ (if t.client then 1 else 0)
  pub bounded : length (waiting t.vetting) + length t.streams ≤ suc t.max_streams
  pub vetted : All (IsKnown t.client t.next_id) (waiting t.vetting)
  pub next_pos : 0 < t.next_id

All-remove : (P : ℕ → Type 0) (id : ℕ) (ids : List ℕ) → All P ids → All P (remove id ids)
All-remove P id [] a = tt
All-remove P id (i ∷ is) a =
    if-elim (All P) (i == id) (remove id is) (i ∷ remove id is) (λ e. All-remove P id is a.1)
      (λ e. (a.0, All-remove P id is a.1))

length-remove : (id : ℕ) (ids : List ℕ) → length (remove id ids) ≤ length ids
length-remove id [] = omega arith
length-remove id (i ∷ is) =
    if-elim (λ (r : List ℕ). length r ≤ suc (length is)) (i == id) (remove id is) (i ∷ remove id is)
      (λ e. omega (arith, length-remove id is)) (λ e. omega (arith, length-remove id is))

All-map : (P Q : ℕ → Type 0) (ids : List ℕ) → ((i : ℕ) → P i → Q i) → All P ids → All Q ids
All-map P Q [] f a = tt
All-map P Q (i ∷ is) f a = (f i a.0, All-map P Q is f a.1)

-- A number that no known stream has.
not-mem : (P : ℕ → Type 0) (id : ℕ) (ids : List ℕ) → All P ids → (P id → 1 ≤ 0) → mem id ids ≡ false
not-mem P id [] a never = refl
not-mem P id (i ∷ is) a never = elim (Bool-cases (i == id)) [
  | inl e ↦ absurd (omega (arith, never (subst P (same i id e) a.0)))
  | inr e ↦ ground (arith, e, not-mem P id is a.1 never)
]
  where
    same : (i j : ℕ) → (i == j) ≡ true → i ≡ j
    same i j e = ground (arith, e)

-- The number that the next open takes is not in the table.
pub next_is_new : (t : Table) → Inv t → mem t.next_id t.streams ≡ false
next_is_new t v =
    not-mem (IsKnown t.client t.next_id) t.next_id t.streams v.known
      (λ k. omega (arith, k.2 v.parity))

pub check_peer_stream_id-parity :
    (client : Bool) (id : ℕ)
    → check_peer_stream_id client id ≡ true
    → 0 < id × (id % 2 ≡ (if client then 1 else 0) → 1 ≤ 0)
unfolding check_peer_stream_id
check_peer_stream_id-parity true id e = (ground (arith, e), λ h. absurd (ground (arith, e, h)))
check_peer_stream_id-parity false id e = (ground (arith, e), λ h. absurd (ground (arith, e, h)))

pub All-insert : (P : ℕ → Type 0) (id : ℕ) (ids : List ℕ) → P id → All P ids → All P (insert id ids)
All-insert P id ids p a = if-elim (All P) (mem id ids) ids (id ∷ ids) (λ e. a) (λ e. (p, a))

pub length-insert : (id : ℕ) (ids : List ℕ) → length (insert id ids) ≤ suc (length ids)
length-insert id ids =
    if-elim (λ (r : List ℕ). length r ≤ suc (length ids)) (mem id ids) ids (id ∷ ids)
      (λ e. omega arith) (λ e. omega arith)

-- A control frame changes nothing of the table.
pub send-Inv : (t : Table) (flags id : ℕ) → Inv t → Inv (send t flags id)
send-Inv t flags id v = if-elim Inv t.closed t _ (λ e. v) (λ e. kept)
  where
    kept : Inv (record t { sent = t.sent ++ ((flags, id) ∷ []) })
    kept = record {
      known = v.known;
      vetted = v.vetted;
      parity = v.parity;
      bounded = v.bounded;
      next_pos = v.next_pos;
    }

pub remove_stream-Inv : (t : Table) (id : ℕ) → Inv t → Inv (remove_stream t id)
unfolding remove_stream
remove_stream-Inv t id v = record {
  known = All-remove (IsKnown t.client t.next_id) id t.streams v.known;
  parity = v.parity;
  vetted = v.vetted;
  bounded = omega (arith, v.bounded, length-remove id t.streams);
  next_pos = v.next_pos;
}

pub abort_stream-Inv : (t : Table) (id : ℕ) → Inv t → Inv (abort_stream t id)
unfolding abort_stream remove_stream
abort_stream-Inv t id v =
    if-elim Inv (mem id t.streams) (send (remove_stream t id) flag_rst id) (remove_stream t id)
      (λ e. send-Inv (remove_stream t id) flag_rst id (remove_stream-Inv t id v))
      (λ e. remove_stream-Inv t id v)

pub handle_ack-Inv : (t : Table) (id : ℕ) → Inv t → Inv (handle_ack t id)
unfolding handle_ack
handle_ack-Inv t id v = record {
  known = v.known;
  parity = v.parity;
  vetted = v.vetted;
  bounded = v.bounded;
  next_pos = v.next_pos;
}

abbrev pub Fine : Table × Outcome → Type 0
Fine r = Inv r.0

pub length-waiting : (o : Option ℕ) → length (waiting o) ≤ 1
length-waiting none = omega arith
length-waiting (some id) = omega arith

-- The table with the number of an open.
opened-Inv :
    (t : Table)
    → Inv t
    → t.next_id + 2 < 2 ^ 32
    → length t.streams < t.max_streams
    → Inv (record t {
      next_id = (t.next_id + 2) % 2 ^ 32;
      streams = insert t.next_id t.streams;
      open_wait = insert t.next_id t.open_wait;
    })
opened-Inv t v small below =
    let next : (t.next_id + 2) % 2 ^ 32 ≡ t.next_id + 2 = omega (arith, small) in
    record {
      known =
          All-insert (IsKnown t.client ((t.next_id + 2) % 2 ^ 32)) t.next_id t.streams
            (v.next_pos, omega (arith, small), λ e. omega (arith, next))
            (All-map (IsKnown t.client t.next_id) (IsKnown t.client ((t.next_id + 2) % 2 ^ 32))
              t.streams (λ i k. (k.0, k.1, λ e. omega (arith, k.2 e, next))) v.known);
      parity = omega (arith, next) ∙ v.parity;
      vetted =
          All-map (IsKnown t.client t.next_id) (IsKnown t.client ((t.next_id + 2) % 2 ^ 32))
            (waiting t.vetting) (λ i k. (k.0, k.1, λ e. omega (arith, k.2 e, next))) v.vetted;
      bounded = omega (arith, length-insert t.next_id t.streams, below, length-waiting t.vetting);
      next_pos = omega (arith, next);
    }

pub open_stream-Inv :
    (t : Table) (broken : Bool) → Inv t → t.next_id + 2 < 2 ^ 32 → Inv (open_stream t broken).0
unfolding open_stream
open_stream-Inv t broken v small =
    let id = t.next_id in
    let added = record t {
      next_id = (id + 2) % 2 ^ 32;
      streams = insert id t.streams;
      open_wait = insert id t.open_wait;
    } in
    let opened = send added flag_syn id in
    let done : Table × Outcome = if broken then (opened, flush_error) else (opened, stream id) in
    let room : Table × Outcome =
      if leb t.max_streams (length t.streams) then (t, too_many) else done in
    let going : Table × Outcome = if t.go_away then (t, going_away) else room in
    if-elim Fine t.closed (t, closed_session) going (λ e. v)
      (λ e.
        if-elim Fine t.go_away (t, going_away) room (λ f. v)
          (λ f.
            if-elim Fine (leb t.max_streams (length t.streams)) (t, too_many) done (λ g. v)
              (λ g.
                let w = send-Inv added flag_syn id (opened-Inv t v small (ground (arith, g))) in
                if-elim Fine broken (opened, flush_error) (opened, stream id) (λ h. w) (λ h. w))))
