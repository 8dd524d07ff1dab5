-- ===== src/Umux/Inbox/Runs.antt =====
-- Any sequence of arrivals, reads, discards and resets on a session that received nothing at first.
use uio.Prelude.Int64.{half}
use uio.Prelude.Store.{store, store-elim, store-other}
use uio.Prelude.{
  ℕ, ◌+◌, ◌^◌, ◌≡◌, ◌≢◌, ap, sym, subst, ◌∙◌, Bool, true, none, List, [], ◌++◌, append-nil, length,
  take, ◌≤◌, ◌<◌,
}
use uio.Umux.Outbound.{Cause}
use uio.Umux.Inbox.{
  Receiver, Inbox, tune, read, discard, reset_stream, push_data, own_inbound, exhausted_budget,
  held_reads,
}
use uio.Umux.Inbox.Operations.{Fine}
use uio.Umux.Inbox.Arrivals.{arriving}

-- One operation on the session, whose streams have numbers below the bound. A frame that breaks the
-- window ends the session, and what its streams hold stays below 2 ^ 63 bytes.
pub data Step (grown : ℕ → ℕ → ℕ) (bound : ℕ) : Inbox → Inbox → Type 0 where
  pushes :
      {s : Inbox} (id : ℕ) (payload : List ℕ) (p_cap : ℕ) (fin borrowed : Bool)
      → id < bound
      → length payload ≤ p_cap
      → length payload < 2 ^ 62
      → s.pending_bytes + length payload < half
      → (push_data grown s id payload p_cap fin borrowed).1 ≡ none
      → Step grown bound s (push_data grown s id payload p_cap fin borrowed).0
  owns : {s : Inbox} (id : ℕ) → id < bound → Step grown bound s (own_inbound grown s id)
  tunes : {s : Inbox} (id peer : ℕ) → id < bound → Step grown bound s (tune s id peer)
  reads : {s : Inbox} (id room : ℕ) → id < bound → Step grown bound s (read s id room).0
  discards :
      {s : Inbox} (id n : ℕ) → id < bound → n < 2 ^ 64 → Step grown bound s (discard s id n).0
  resets :
      {s : Inbox} (id : ℕ) (err : Cause) → id < bound → Step grown bound s (reset_stream s id err)
  exhausts : {s : Inbox} → Step grown bound s (exhausted_budget s).0
  holds : {s : Inbox} → Step grown bound s (held_reads s).0
  ends : {s : Inbox} → Step grown bound s (record s { closed = true })

pub data Run (grown : ℕ → ℕ → ℕ) (bound : ℕ) (s : Inbox) : Inbox → Type 0 where
  here : Run grown bound s s
  next : {t u : Inbox} → Run grown bound s t → Step grown bound t u → Run grown bound s u

-- Bytes on one stream alone.
abbrev pub on : ℕ → List ℕ → ℕ → List ℕ
on i bytes id = store (λ j. []) i bytes id

-- The bytes that a step brought to the stream `id`, and those that left it: read, discarded, or
-- dropped by a reset.
abbrev pub arrived :
    {grown : ℕ → ℕ → ℕ} {bound : ℕ} {s t : Inbox} → ℕ → Step grown bound s t → List ℕ
arrived {s = s} id (pushes i payload p_cap fin borrowed lt fits few room ok) =
    on i (arriving s i payload) id
arrived id (owns i lt) = []
arrived id (tunes i peer lt) = []
arrived id (reads i room lt) = []
arrived id (discards i n lt few) = []
arrived id (resets i err lt) = []
arrived id exhausts = []
arrived id holds = []
arrived id ends = []

abbrev pub left : {grown : ℕ → ℕ → ℕ} {bound : ℕ} {s t : Inbox} → ℕ → Step grown bound s t → List ℕ
left id (pushes i payload p_cap fin borrowed lt fits few room ok) = []
left id (owns i lt) = []
left id (tunes i peer lt) = []
left {s = s} id (reads i room lt) = on i (read s i room).1 id
left {s = s} id (discards i n lt few) = on i (take (discard s i n).1 (s.streams i).unread.run) id
left {s = s} id (resets i err lt) = on i (s.streams i).unread.run id
left id exhausts = []
left id holds = []
left id ends = []

abbrev pub arrivals :
    {grown : ℕ → ℕ → ℕ} {bound : ℕ} {s t : Inbox} → ℕ → Run grown bound s t → List ℕ
arrivals id here = []
arrivals id (next r st) = arrivals id r ++ arrived id st

abbrev pub departures :
    {grown : ℕ → ℕ → ℕ} {bound : ℕ} {s t : Inbox} → ℕ → Run grown bound s t → List ℕ
departures id here = []
departures id (next r st) = departures id r ++ left id st

abbrev pub run_of : Inbox → ℕ → List ℕ
run_of s id = (s.streams id).unread.run

-- The other streams of an operation keep what they hold.
pub others : (s t : Inbox) (i id : ℕ) → Fine s i t → i ≢ id → run_of t id ≡ run_of s id
others s t i id f ne =
    ap (λ (x : Receiver). x.unread.run) (f.change.streams id ∙ store-other s.streams i id f.now ne)

-- Bytes came to the stream `i`, or left it.
pub came :
    (s t : Inbox) (i id : ℕ) (bytes : List ℕ)
    → Fine s i t
    → run_of t i ≡ run_of s i ++ bytes
    → run_of s id ++ on i bytes id ≡ run_of t id
came s t i id bytes f e =
    store-elim (λ m. run_of s id ++ m ≡ run_of t id) (λ j. []) i id bytes
      (λ h. subst (λ j. run_of s j ++ bytes ≡ run_of t j) h (sym e))
      (λ ne. append-nil (run_of s id) ∙ sym (others s t i id f ne))

pub went :
    (s t : Inbox) (i id : ℕ) (bytes : List ℕ)
    → Fine s i t
    → bytes ++ run_of t i ≡ run_of s i
    → run_of s id ≡ on i bytes id ++ run_of t id
went s t i id bytes f e =
    store-elim (λ m. run_of s id ≡ m ++ run_of t id) (λ j. []) i id bytes
      (λ h. subst (λ j. run_of s j ≡ bytes ++ run_of t j) h (sym e))
      (λ ne. sym (others s t i id f ne))
