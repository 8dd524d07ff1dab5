-- ===== src/Umux/Inbox/Operations.antt =====
-- Each operation of the receiving side keeps the session's account.
use uio.Prelude.Int64.{half, slt}
use uio.Prelude.Store.{store-same}
use uio.Prelude.{
  ℕ, ◌-◌, ◌^◌, ◌≡◌, refl, ap, ◌∙◌, ◌||◌, Option, none, some, List, [], ◌++◌, length, drop, take,
  min, length-drop, ltb, ◌==◌, if◌then◌else◌, arith, ◌≤◌, ◌<◌, if-elim, take-append-drop,
}
use uio.Umux.Window as Window
use uio.Umux.Window.{WindowError, on_data}
use uio.Umux.Inbound as Inbound
use uio.Umux.Inbound.{drop_all, own}
use uio.Umux.Inbound.Bytes as Bytes
use uio.Umux.Outbound.{Cause, eof}
use uio.Umux.Inbox.{
  Receiver, Inbox, put_stream, release_inbound, send_window_update, use_bytes, or_eof, read,
  discard, own_inbound,
}
use uio.Umux.Inbox.Stream.{Enough, StreamOk, used-StreamOk, owned-StreamOk}
use uio.Umux.Inbox.Change.{
  Ok, Change, quiet-Change, same-Change, freed-Change, updated-Change, Change-Ok,
}

-- An operation on the stream `id`: what the stream is then, in good order.
pub record Fine (s : Inbox) (id : ℕ) (t : Inbox) : Type 0 where
  pub now : Receiver
  pub ok : StreamOk s.window_size now
  pub change : Change s id now t
  pub few : t.pending_bytes < half

pub Fine-Ok :
    {bound : ℕ} (s t : Inbox) (id : ℕ) → Ok bound s → id < bound → Fine s id t → Ok bound t
Fine-Ok s t id v lt f = Change-Ok s t id f.now v lt f.ok f.few f.change

-- A stream that did not grow leaves the budget small.
pub shrunk-Fine :
    {bound : ℕ} (s t : Inbox) (id : ℕ) (st : Receiver)
    → Ok bound s
    → StreamOk s.window_size st
    → length st.unread.run ≤ length (s.streams id).unread.run
    → Change s id st t
    → Fine s id t
shrunk-Fine s t id st v ok le c = record {
  now = st;
  ok = ok;
  change = c;
  few = omega (arith, c.pending, le, v.few);
}

pub same-Fine : {bound : ℕ} (s : Inbox) (id : ℕ) → Ok bound s → Fine s id s
same-Fine s id v =
    shrunk-Fine s s id (s.streams id) v (v.stream id) (omega arith) (same-Change s id v)

abbrev used : Receiver → ℕ → Receiver
used st n = record st {
  unread = Inbound.consume st.unread n;
  recv_win = (Window.consume st.recv_win n).0;
}

used-run :
    {bound : ℕ} (s : Inbox) (id n : ℕ)
    → Ok bound s
    → n ≤ length (s.streams id).unread.run
    → (Inbound.consume (s.streams id).unread n).run ≡ drop n (s.streams id).unread.run
used-run s id n v le = (Bytes.consume-run (s.streams id).unread n (v.stream id).sound le).0

used-length :
    {bound : ℕ} (s : Inbox) (id n : ℕ)
    → Ok bound s
    → n ≤ length (s.streams id).unread.run
    → length (Inbound.consume (s.streams id).unread n).run ≡ length (s.streams id).unread.run - n
used-length s id n v le = ap length (used-run s id n v le) ∙ length-drop n (s.streams id).unread.run

use_bytes-Change :
    {bound : ℕ} (s : Inbox) (id n : ℕ)
    → Ok bound s
    → id < bound
    → n ≤ length (s.streams id).unread.run
    → Change s id (used (s.streams id) n) (use_bytes s id n)
use_bytes-Change s id n v lt le =
    let st = s.streams id in
    let freed = freed-Change s id (used st n) n v lt (omega (arith, used-length s id n v le, le)) in
    let next = release_inbound (put_stream s id (used st n)) n in
    let grant = (Window.consume st.recv_win n).1 in
    if-elim (λ (t : Inbox). Change s id (used st n) t) (slt 0 grant)
      (send_window_update next id grant) next
      (λ e. updated-Change s id (used st n) next id grant freed) (λ e. freed)

use_bytes-Fine :
    {bound : ℕ} (s : Inbox) (id n : ℕ)
    → Ok bound s
    → id < bound
    → n ≤ length (s.streams id).unread.run
    → Fine s id (use_bytes s id n)
use_bytes-Fine s id n v lt le =
    shrunk-Fine s (use_bytes s id n) id (used (s.streams id) n) v
      (used-StreamOk s.window_size (s.streams id) n v.window_small (v.stream id) le)
      (omega (arith, used-length s id n v le)) (use_bytes-Change s id n v lt le)

-- What is left unread after `n` bytes were used.
pub use_bytes-run :
    {bound : ℕ} (s : Inbox) (id n : ℕ)
    → Ok bound s
    → id < bound
    → n ≤ length (s.streams id).unread.run
    → ((use_bytes s id n).streams id).unread.run ≡ drop n (s.streams id).unread.run
use_bytes-run s id n v lt le =
    ap (λ (x : Receiver). x.unread.run) ((use_bytes-Change s id n v lt le).streams id)
    ∙ (ap (λ (x : Receiver). x.unread.run) (store-same s.streams id (used (s.streams id) n))
        ∙ used-run s id n v le)

pub own_inbound-Fine :
    {bound : ℕ} (grown : ℕ → ℕ → ℕ) (s : Inbox) (id : ℕ)
    → Enough grown
    → Ok bound s
    → Fine s id (own_inbound grown s id)
unfolding own_inbound
own_inbound-Fine grown s id enough v =
    let st = s.streams id in
    let same = ap length (Bytes.own-run grown st.unread enough (v.stream id).sound).0 in
    let owned = record st { unread = own grown st.unread } in
    shrunk-Fine s (put_stream s id owned) id owned v
      (owned-StreamOk s.window_size grown st enough (v.stream id)) (omega (arith, same))
      (quiet-Change s (put_stream s id owned) id owned v (λ j. refl) same refl refl refl refl)

abbrev pub ReadFine : Inbox → ℕ → Inbox × List ℕ × Option Cause → Type 0
ReadFine s id r = Fine s id r.0 × (r.1 ++ (r.0.streams id).unread.run ≡ (s.streams id).unread.run)

-- A read keeps the account, and what it read, with what is left, is what was unread.
pub read-Fine :
    {bound : ℕ} (s : Inbox) (id room : ℕ) → Ok bound s → id < bound → ReadFine s id (read s id room)
unfolding read
read-Fine s id room v lt =
    let st = s.streams id in
    let run = st.unread.run in
    let n = min room (length run) in
    let ended : Inbox × List ℕ × Option Cause =
      if st.peer_fin then (s, [], some eof) else (s, [], none) in
    let shut : Inbox × List ℕ × Option Cause =
      if st.closed_local then (s, [], some (or_eof st.closed_err)) else ended in
    let full : Inbox × List ℕ × Option Cause =
      if ltb 0 (length run) then (use_bytes s id n, take n run, none) else shut in
    if-elim (ReadFine s id) (room == 0) (s, [], none) full (λ e. (same-Fine s id v, refl))
      (λ e.
        if-elim (ReadFine s id) (ltb 0 (length run)) (use_bytes s id n, take n run, none) shut
          (λ f. (
            use_bytes-Fine s id n v lt (omega arith),
            ap (λ r. take n run ++ r) (use_bytes-run s id n v lt (omega arith))
                ∙ take-append-drop n run,
          ))
          (λ f.
            if-elim (ReadFine s id) st.closed_local (s, [], some (or_eof st.closed_err)) ended
              (λ g. (same-Fine s id v, refl))
              (λ g.
                if-elim (ReadFine s id) st.peer_fin (s, [], some eof) (s, [], none)
                  (λ h. (same-Fine s id v, refl)) (λ h. (same-Fine s id v, refl)))))

-- A count that the code takes is at most what is unread.
pub discard-count :
    (held n : ℕ) → held < half → n < 2 ^ 64 → (if slt n 0 || slt held n then held else n) ≤ held
discard-count held n small few = ground (arith, small, few)

pub discard-Fine :
    {bound : ℕ} (s : Inbox) (id n : ℕ)
    → Ok bound s
    → id < bound
    → n < 2 ^ 64
    → Fine s id (discard s id n).0
unfolding discard
discard-Fine s id n v lt few =
    let held = length (s.streams id).unread.run in
    use_bytes-Fine s id (if slt n 0 || slt held n then held else n) v lt
      (discard-count held n (omega (arith, (v.stream id).within, v.window_small)) few)

-- What was discarded, with what is left, is what was unread.
pub discard-run :
    {bound : ℕ} (s : Inbox) (id n : ℕ)
    → Ok bound s
    → id < bound
    → n < 2 ^ 64
    → let (t, k) = discard s id n in
      take k (s.streams id).unread.run ++ (t.streams id).unread.run ≡ (s.streams id).unread.run
unfolding discard
discard-run s id n v lt few =
    let run = (s.streams id).unread.run in
    let held = length run in
    let k = if slt n 0 || slt held n then held else n in
    ap (λ r. take k run ++ r)
      (use_bytes-run s id k v lt
        (discard-count held n (omega (arith, (v.stream id).within, v.window_small)) few))
    ∙ take-append-drop k run
