-- ===== src/Umux/Inbound.antt =====
-- umux/stream.go: the unread receive queue of a stream. A slice is its bytes, with the capacity where
-- the code asks for it. What Go's `append` allocates for more bytes than fit is a parameter.
pub mod Bytes
use uio.Prelude.{
  ℕ, ◌+◌, ◌-◌, ◌*◌, Bool, true, false, not, ◌&&◌, List, [], ◌∷◌, ◌++◌, length, drop, ltb, leb, ◌==◌,
  if◌then◌else◌,
}

-- `run` is what is unread; one that is owned is the arena from `off` on.
pub record Inbound : Type 0 where
  pub run : List ℕ
  pub borrowed : Bool
  pub arena : List ℕ
  pub arena_cap : ℕ
  pub off : ℕ
  pub borrows : ℕ

unfoldable pub set_borrowed : Inbound → List ℕ → Inbound
set_borrowed b run = record b { run = run; borrowed = true }

-- `run_cap` is the capacity of the given slice.
unfoldable pub set_owned : Inbound → List ℕ → ℕ → Inbound
set_owned b run run_cap = record b {
  run = run;
  borrowed = false;
  arena = run;
  arena_cap = run_cap;
  off = 0;
}

unfoldable pub drop_all : Inbound → Inbound
drop_all b = record b { run = []; borrowed = false; arena = []; arena_cap = 0; off = 0 }

unfoldable pub consume : Inbound → ℕ → Inbound
consume b n =
    let left = drop n b.run in
    if b.borrowed
    then record b { run = left }
    else if length left == 0
    then record b { run = []; arena = []; off = 0 }
    else record b { run = left; off = b.off + n }

-- The capacity after `append` of `n` bytes in all to a slice of capacity `c`.
abbrev pub cap_after : (ℕ → ℕ → ℕ) → ℕ → ℕ → ℕ
cap_after grown c n = if leb n c then c else grown c n

unfoldable pub own : (ℕ → ℕ → ℕ) → Inbound → Inbound
own grown b = if not b.borrowed then b else record b {
  borrowed = false;
  arena = b.run;
  arena_cap = cap_after grown (if b.borrows == 0 then b.arena_cap else 0) (length b.run);
  off = 0;
}

-- Room for `n` more bytes behind the run: by moving it to the start of the arena, or in a new arena.
unfoldable pub make_room : Inbound → ℕ → Inbound
make_room b n =
    let need = b.off + length b.run + n in
    let size = if ltb (2 * b.arena_cap) need then need else 2 * b.arena_cap in
    if leb need b.arena_cap
    then b
    else if b.borrows == 0 && (ltb 0 b.off && leb (length b.run + n) b.arena_cap)
    then record b { arena = b.run; off = 0 }
    else record b { arena = b.run; arena_cap = size; off = 0 }

-- `append` once the run is owned; `p_cap` is the capacity of `p`.
unfoldable pub append_owned : (ℕ → ℕ → ℕ) → Inbound → List ℕ → ℕ → Inbound
append_owned grown b p p_cap =
    let c = make_room b (length p) in
    let arena = c.arena ++ p in
    if length b.run == 0 && (b.off == 0 && b.arena_cap == 0)
    then set_owned b p p_cap
    else record c {
      run = drop c.off arena;
      arena = arena;
      arena_cap = cap_after grown c.arena_cap (length arena);
    }

unfoldable pub append : (ℕ → ℕ → ℕ) → Inbound → List ℕ → ℕ → Inbound
append grown b p p_cap = append_owned grown (own grown b) p p_cap
