-- ===== src/Umux/Window.antt =====
-- umux/window.go: the credit windows of one stream, as int64 bit patterns.
pub mod Credit
use uio.Prelude.Int64.{add64, sub64, slt, sle, quot}
use uio.Prelude.{ℕ, Bool, true, false, Option, none, some, if◌then◌else◌, ◌||◌}

-- What the two errors of the file are.
pub data WindowError : Type 0 where
  exceeded invalid : WindowError

-- `sendWindow`: the credit left and its ceiling.
pub record SendWindow : Type 0 where
  pub avail : ℕ
  pub ceiling : ℕ

-- A method returns the new window and its error, `none` for nil.
abbrev pub Step : Type 0 → Type 0
Step W = W × Option WindowError

unfoldable pub new_send_window : ℕ → SendWindow
new_send_window size = record { avail = size; ceiling = size }

unfoldable pub reset : SendWindow → ℕ → SendWindow
reset w size = record { avail = size; ceiling = size }

unfoldable pub take : SendWindow → ℕ → SendWindow × Bool
take w n =
    if slt n 0 || slt w.avail n then (w, false) else (record w { avail = sub64 w.avail n }, true)

unfoldable pub grant : SendWindow → ℕ → Step SendWindow
grant w delta =
    if sle delta 0
    then (w, some invalid)
    else if slt w.ceiling (add64 w.avail delta)
    then (w, some exceeded)
    else (record w { avail = add64 w.avail delta }, none)

abbrev pub available : SendWindow → ℕ
available w = w.avail

-- `recvWindow`: the advertised size, the unread bytes, the consumption not yet granted back, and
-- the consumption that earns a grant.
pub record RecvWindow : Type 0 where
  pub size : ℕ
  pub buffered : ℕ
  pub consumed : ℕ
  pub grant : ℕ

unfoldable pub retune : RecvWindow → ℕ → RecvWindow
retune w peer_window =
    let small = if slt peer_window w.size then peer_window else w.size in
    let t = quot small 4 in record w { grant = if slt t 1 then 1 else t }

unfoldable pub new_recv_window : ℕ → RecvWindow
unfolding retune
new_recv_window size = retune (record { size = size; buffered = 0; consumed = 0; grant = 0 }) size

unfoldable pub on_data : RecvWindow → ℕ → Step RecvWindow
on_data w n =
    if slt n 0
    then (w, some invalid)
    else let w' = record w { buffered = add64 w.buffered n } in
      (w', if slt w'.size w'.buffered then some exceeded else none)

-- The returned number is the grant to send now, 0 for none.
unfoldable pub consume : RecvWindow → ℕ → RecvWindow × ℕ
consume w n =
    if sle n 0 || slt w.buffered n
    then (w, 0)
    else let w' = record w { buffered = sub64 w.buffered n; consumed = add64 w.consumed n } in
      let threshold = if sle w'.grant 0 then 1 else w'.grant in
      if sle threshold w'.consumed then (record w' { consumed = 0 }, w'.consumed) else (w', 0)

abbrev pub buffered_bytes : RecvWindow → ℕ
buffered_bytes w = w.buffered
