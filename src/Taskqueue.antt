-- ===== src/Taskqueue.antt =====
-- internal/taskqueue/queue.go: the intrusive queue of an event loop. Each method is one step, as its
-- lock makes it. A node is its address; `Links` is the memory that holds the `next` field of each.
pub mod Fifo
use uio.Prelude.{
  ℕ, zero, suc, Bool, true, false, not, Option, none, some, List, [], ◌∷◌, ◌==◌, if◌then◌else◌,
}

abbrev pub Links : Type 0
Links = ℕ → Option ℕ

abbrev pub set_next : Links → ℕ → Option ℕ → Links
set_next links n v m = if n == m then v else links m

-- `TakeNext`.
unfoldable pub take_next : Links → ℕ → Links × Option ℕ
take_next links n = (set_next links n none, links n)

pub record Queue : Type 0 where
  pub head : Option ℕ
  pub tail : Option ℕ
  pub accepting : Bool

-- The queue with the memory that it links.
pub record Heap : Type 0 where
  pub queue : Queue
  pub links : Links

abbrev pub new : Queue
new = record { head = none; tail = none; accepting = true }

-- `none` is the panic on an invalid node.
abbrev pub is_linked : Option ℕ → Bool
is_linked none = false
is_linked (some n) = true

abbrev pub link_behind : Heap → Option ℕ → ℕ → Heap
link_behind h none n = record h { queue = record h.queue { head = some n; tail = some n } }
link_behind h (some t) n = record {
  queue = record h.queue { tail = some n };
  links = set_next h.links t (some n);
}

unfoldable pub push_locked : Heap → Option ℕ → Option Heap
push_locked h none = none
push_locked h (some n) = if is_linked (h.links n) then none else some (link_behind h h.queue.tail n)

abbrev pub with_result : Option Heap → Option (Heap × Bool)
with_result none = none
with_result (some h) = some (h, true)

unfoldable pub push : Heap → Option ℕ → Option (Heap × Bool)
push h n = if not h.queue.accepting then some (h, false) else with_result (push_locked h n)

unfoldable pub stop : Heap → Option ℕ → Option (Heap × Bool)
stop h n =
    if not h.queue.accepting
    then some (h, false)
    else with_result (push_locked (record h { queue = record h.queue { accepting = false } }) n)

unfoldable pub drain : Heap → Heap × Option ℕ
drain h = (record h { queue = record h.queue { head = none; tail = none } }, h.queue.head)

unfoldable pub has_pending : Heap → Bool
has_pending h = is_linked h.queue.head

unfoldable pub is_accepting : Heap → Bool
is_accepting h = h.queue.accepting

-- What the consumer does with a drained batch: `TakeNext` of each node, on fuel.
abbrev pub walk : ℕ → Links → Option ℕ → Links × List ℕ
walk zero links first = (links, [])
walk (suc fuel) links none = (links, [])
walk (suc fuel) links (some n) =
    let (rest, nodes) = walk fuel (take_next links n).0 (take_next links n).1 in (rest, n ∷ nodes)
