-- ===== src/Umux/Window/Credit.antt =====
-- One direction of a stream as a whole: the sender's window of one end, the receiver's window of
-- the other, and what travels between them. Each end announces its window when the stream opens.
-- `Stream.Write` takes credit and queues data frames, `Stream.pushData` accounts them, `Stream.Read`
-- consumes and sends a grant, which a frame carries as a `uint32`, and `Stream.grantWindow` adds it.
use uio.Prelude.Int64.{modulus, half, slt}
use uio.Prelude.{
  Bool-cases, inl, inr, subst, All, All-append, ℕ, ◌+◌, ◌-◌, ◌/◌, ◌%◌, ◌^◌, ◌≤◌, ◌<◌, min, max, ◌≡◌,
  ◌∙◌, true, none, List, [], ◌∷◌, ◌++◌, arith, ltb, if◌then◌else◌,
}
use uio.Umux.Window.{
  SendWindow, RecvWindow, new_send_window, reset, take, grant, new_recv_window, retune, on_data,
  consume,
}

pub record Link : Type 0 where
  pub sender : SendWindow
  pub frames : List ℕ
  pub receiver : RecvWindow
  pub grants : List ℕ

abbrev pub sum : List ℕ → ℕ
sum [] = 0
sum (x ∷ xs) = x + sum xs

pub sum-append : (xs ys : List ℕ) → sum (xs ++ ys) ≡ sum xs + sum ys
sum-append [] ys = omega arith
sum-append (x ∷ xs) ys = omega (arith, sum-append xs ys)

-- `sendWindowUpdate`: a grant of 0 sends nothing, and a frame carries the low 32 bits.
abbrev pub send_grant : List ℕ → ℕ → List ℕ
send_grant gs g = if ltb 0 g then gs ++ (g % 2 ^ 32 ∷ []) else gs

abbrev pub min_window : ℕ
min_window = 2 ^ 18

-- `Config.resolve` of a window size.
abbrev pub resolve_window : ℕ → ℕ
resolve_window size = if slt size min_window then min_window else size

-- What the peer of an end with this window reads in its SYN or ACK.
abbrev pub announced : ℕ → ℕ
announced size = min_window + (size - min_window) % 2 ^ 32

-- `peerWindow`: the announced window, capped at the end's own.
abbrev pub peer_window : ℕ → ℕ → ℕ
peer_window own w = if slt own w then own else w

pub data Step : Link → Link → Type 0 where
  write :
      (s : Link) (n : ℕ)
      → 0 < n
      → n < modulus
      → (take s.sender n).1 ≡ true
      → Step s (record s { sender = (take s.sender n).0; frames = s.frames ++ (n ∷ []) })
  arrive :
      (s : Link) (n : ℕ) (rest : List ℕ)
      → s.frames ≡ n ∷ rest
      → Step s (record s { frames = rest; receiver = (on_data s.receiver n).0 })
  read :
      (s : Link) (n : ℕ)
      → n < modulus
      → Step s (record s {
        receiver = (consume s.receiver n).0;
        grants = send_grant s.grants (consume s.receiver n).1;
      })
  credit :
      (s : Link) (g : ℕ) (rest : List ℕ)
      → s.grants ≡ g ∷ rest
      → Step s (record s { sender = (grant s.sender g).0; grants = rest })

pub data Reach (s : Link) : Link → Type 0 where
  here : Reach s s
  next : {t u : Link} → Reach s t → Step t u → Reach s u

-- The link after both ends announced their windows, from the configured sizes of the receiving and
-- of the sending end.
unfoldable pub start : ℕ → ℕ → Link
start size peer =
    let window = resolve_window size in
    let own = resolve_window peer in
    record {
      sender = reset (new_send_window min_window) (peer_window own (announced window));
      frames = [];
      receiver = retune (new_recv_window window) (announced own);
      grants = [];
    }

abbrev in_transit : Link → ℕ
in_transit s =
    s.sender.avail + sum s.frames + s.receiver.buffered + s.receiver.consumed + sum s.grants

-- Every byte of credit is in at most one place, and in exactly one when a frame can carry the whole
-- window: `window` is the receiver's, `top` the sender's ceiling, `due` the grant threshold.
record Inv (window top due : ℕ) (s : Link) : Type 0 where
  pub positive : 0 < top
  pub below : top ≤ window
  pub bounded : window < half
  pub due_pos : 0 < due
  pub due_lt : due < half
  pub ceiling_eq : s.sender.ceiling ≡ top
  pub size_eq : s.receiver.size ≡ window
  pub grant_eq : s.receiver.grant ≡ due
  pub consumed_lt : s.receiver.consumed < due
  pub total : in_transit s ≤ top
  pub exact : top < 2 ^ 32 → in_transit s ≡ top
  pub grants_pos : top < 2 ^ 32 → All (λ g. 0 < g) s.grants

abbrev top_of : ℕ → ℕ → ℕ
top_of size peer = min (announced (resolve_window size)) (resolve_window peer)

abbrev due_of : ℕ → ℕ → ℕ
due_of size peer = max 1 (min (resolve_window size) (announced (resolve_window peer)) / 4)

resolved : (size : ℕ) → size < half → min_window ≤ resolve_window size × resolve_window size < half
resolved size h = ground (arith, h)

opened-Inv :
    (window own : ℕ)
    → min_window ≤ window
    → min_window ≤ own
    → window < half
    → own < half
    → Inv window (min (announced window) own) (max 1 (min window (announced own) / 4)) (record {
      sender = reset (new_send_window min_window) (peer_window own (announced window));
      frames = [];
      receiver = retune (new_recv_window window) (announced own);
      grants = [];
    })
unfolding reset new_send_window retune new_recv_window
opened-Inv window own lw lo bw bo = ground arith

start-Inv :
    (size peer : ℕ)
    → size < half
    → peer < half
    → Inv (resolve_window size) (top_of size peer) (due_of size peer) (start size peer)
unfolding start
start-Inv size peer bs bp =
    opened-Inv (resolve_window size) (resolve_window peer) (resolved size bs).0 (resolved peer bp).0
      (resolved size bs).1 (resolved peer bp).1

write-Inv :
    (window top due n : ℕ) {s : Link}
    → Inv window top due s
    → 0 < n
    → n < modulus
    → (take s.sender n).1 ≡ true
    → Inv window top due (record s { sender = (take s.sender n).0; frames = s.frames ++ (n ∷ []) })
unfolding take
write-Inv window top due n {s} v pos lt ok = ground (arith, sum-append s.frames (n ∷ []))

arrive-Inv :
    (window top due n : ℕ) (rest : List ℕ) {s : Link}
    → Inv window top due s
    → s.frames ≡ n ∷ rest
    → Inv window top due (record s { frames = rest; receiver = (on_data s.receiver n).0 })
      × ((on_data s.receiver n).1 ≡ none)
unfolding on_data
arrive-Inv window top due n rest v e = ground arith

sum-send_grant : (gs : List ℕ) (g : ℕ) → sum (send_grant gs g) ≡ sum gs + g % 2 ^ 32
sum-send_grant gs g = ground (arith, sum-append gs (g % 2 ^ 32 ∷ []))

send_grant-pos :
    (gs : List ℕ) (g : ℕ) → g < 2 ^ 32 → All (λ k. 0 < k) gs → All (λ k. 0 < k) (send_grant gs g)
send_grant-pos gs g small h = elim (Bool-cases (ltb 0 g)) [
  | inl e ↦ rw e (All-append (λ k. 0 < k) gs (g % 2 ^ 32 ∷ []) h (ground (arith, e, small), tt))
  | inr e ↦ rw e h
]

-- `consume` of any int64 keeps the window's size and threshold, moves bytes from unread to consumed
-- or into the returned grant without losing one, and leaves less consumed than the threshold. The
-- window holds counts below 2 ^ 63, less consumed than its threshold.
pub consume-total :
    (w : RecvWindow) (n : ℕ)
    → w.buffered < half
    → w.consumed < half
    → w.buffered + w.consumed < half
    → n < modulus
    → w.consumed < w.grant
    → w.grant < half
    → ((consume w n).0.size ≡ w.size)
      × ((consume w n).0.grant ≡ w.grant)
      × ((consume w n).0.consumed < w.grant)
      × ((consume w n).0.buffered + (consume w n).0.consumed + (consume w n).1
          ≡ w.buffered + w.consumed)
unfolding consume
consume-total w n = ground arith

read-Inv :
    (window top due n : ℕ) {s : Link}
    → Inv window top due s
    → n < modulus
    → Inv window top due (record s {
      receiver = (consume s.receiver n).0;
      grants = send_grant s.grants (consume s.receiver n).1;
    })
read-Inv window top due n {s} v lt =
    let kept =
      consume-total s.receiver n (omega (arith, v.total, v.below, v.bounded))
        (omega (arith, v.total, v.below, v.bounded)) (omega (arith, v.total, v.below, v.bounded)) lt
        (omega (arith, v.consumed_lt, v.grant_eq)) (omega (arith, v.due_lt, v.grant_eq)) in
    let sent = sum-send_grant s.grants (consume s.receiver n).1 in
    let narrow : (consume s.receiver n).1 % 2 ^ 32 ≤ (consume s.receiver n).1 = omega arith in
    record {
      positive = v.positive;
      below = v.below;
      bounded = v.bounded;
      due_pos = v.due_pos;
      due_lt = v.due_lt;
      ceiling_eq = v.ceiling_eq;
      size_eq = kept.0 ∙ v.size_eq;
      grant_eq = kept.1 ∙ v.grant_eq;
      consumed_lt = omega (arith, kept, v.grant_eq);
      total = omega (arith, kept, sent, narrow, v.total);
      exact = λ small. omega (arith, kept, sent, v.total, small, v.exact small);
      grants_pos = λ small.
          send_grant-pos s.grants (consume s.receiver n).1 (omega (arith, kept, v.total, small))
            (v.grants_pos small);
    }

credit-Inv :
    (window top due g : ℕ) (rest : List ℕ) {s : Link}
    → Inv window top due s
    → s.grants ≡ g ∷ rest
    → Inv window top due (record s { sender = (grant s.sender g).0; grants = rest })
unfolding grant
credit-Inv window top due g rest v e = ground arith

granted :
    (window top due g : ℕ) (rest : List ℕ) {s : Link}
    → Inv window top due s
    → top < 2 ^ 32
    → s.grants ≡ g ∷ rest
    → (grant s.sender g).1 ≡ none
unfolding grant
granted window top due g rest v small e =
    let pos : All (λ g. 0 < g) (g ∷ rest) = subst (All (λ g. 0 < g)) e (v.grants_pos small) in
    ground arith

step-Inv :
    (window top due : ℕ) {s t : Link} → Inv window top due s → Step s t → Inv window top due t
step-Inv window top due v (write s n pos lt ok) = write-Inv window top due n v pos lt ok
step-Inv window top due v (arrive s n rest e) = (arrive-Inv window top due n rest v e).0
step-Inv window top due v (read s n lt) = read-Inv window top due n v lt
step-Inv window top due v (credit s g rest e) = credit-Inv window top due g rest v e

Reach-Inv :
    (window top due : ℕ) {s t : Link} → Inv window top due s → Reach s t → Inv window top due t
Reach-Inv window top due v here = v
Reach-Inv window top due v (next r st) = step-Inv window top due (Reach-Inv window top due v r) st

module _ (size peer : ℕ) (bs : size < half) (bp : peer < half) {s : Link}
    (run : Reach (start size peer) s) where
  reached : Inv (resolve_window size) (top_of size peer) (due_of size peer) s
  reached =
      Reach-Inv (resolve_window size) (top_of size peer) (due_of size peer)
        (start-Inv size peer bs bp) run

  -- Between two ends of this package, with configured windows below 2 ^ 63, in any state that
  -- writes, arrivals, reads and grants reach in any order: the next data frame to arrive does not
  -- overrun the receiver's window.
  pub no_overrun : {n : ℕ} {rest : List ℕ} → s.frames ≡ n ∷ rest → (on_data s.receiver n).1 ≡ none
  no_overrun {n} {rest} e =
      (arrive-Inv (resolve_window size) (top_of size peer) (due_of size peer) n rest reached e).1

module _ (size peer : ℕ) (bs : size < 2 ^ 32) (bp : peer < 2 ^ 32) {s : Link}
    (run : Reach (start size peer) s) where
  small_top : top_of size peer < 2 ^ 32
  small_top = ground (arith, bp)

  held : Inv (resolve_window size) (top_of size peer) (due_of size peer) s
  held = reached size peer (omega (arith, bs)) (omega (arith, bp)) run

  -- Between two ends of this package, with configured windows below 2 ^ 32, in any state that
  -- writes, arrivals, reads and grants reach in any order: the next window update to arrive is
  -- accepted, it is positive and does not raise the credit over the sender's ceiling.
  pub no_overgrant : {g : ℕ} {rest : List ℕ} → s.grants ≡ g ∷ rest → (grant s.sender g).1 ≡ none
  no_overgrant {g} {rest} e =
      granted (resolve_window size) (top_of size peer) (due_of size peer) g rest held small_top e

  -- Credit is never lost. With configured windows below 2 ^ 32, in any reachable state where no
  -- frame and no grant travels and nothing is unread, the sender has credit, and all of the smaller
  -- resolved window but less than a quarter of it, or 1 when that is 0.
  pub never_stalls :
      s.frames ≡ []
      → s.grants ≡ []
      → s.receiver.buffered ≡ 0
      → (0 < s.sender.avail)
        × (min (resolve_window size) (resolve_window peer)
            < s.sender.avail + max 1 (min (resolve_window size) (resolve_window peer) / 4))
  never_stalls f g b =
      let v = held in ground (arith, v.exact small_top, v.consumed_lt, v.positive, bs, bp, f, g, b)
