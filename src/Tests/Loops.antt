-- ===== src/Tests/Loops.antt =====
-- Tests for internal/readcontrol, internal/fdmap and internal/taskqueue.
use uio.Prelude.{
  ℕ, ◌-◌, ◌^◌, ◌<◌, ◌≤◌, ◌≡◌, ◌≢◌, ◌↔◌, ◌⊎◌, ◌&&◌, refl, Bool, true, false, none, some, List, [],
  ◌∷◌, get_or, ◌==◌, if◌then◌else◌, arith,
}
use uio.ReadControl as Control
use uio.ReadControl.{
  Call, new_owner, pauses, resumes, app_pauses, app_resumes, consumer, resume_asked, step, run, new,
  pause, new_pause, application, manual_or_new, pause_reads, reads_paused, is_held, consumer_runs,
  resume,
}
use uio.ReadControl.Owners.{Inv, CanRun, reads_paused_iff, resume_asks_iff, held-step}
use uio.Fdmap.{
  Table, same, open_file_capacity, new_map, put, get, slot, delete_value, clear, out_of_range,
  segment_of, slot_of, max_open_files_ceiling, max_segments, segment_slots,
}
use uio.Fdmap.Lookup.{get-put, get-delete_value, get-clear, new_map-get, place_unique}
use uio.Taskqueue.{Links, Heap, push, push_locked, stop, drain, walk}
use uio.Taskqueue.Fifo.{Holds, push-Holds, stopped-refuses, drain-walk}

-- An owner pauses, the application pauses, the owner resumes.
abbrev calls : List (Call × Bool)
calls =
    (new_owner, false)
    ∷ (pauses (some 0), false)
    ∷ (app_pauses, false)
    ∷ (resumes (some 0), false)
    ∷ []

still_paused : reads_paused (run new calls) ≡ true
unfolding reads_paused run step new_pause pause pause_reads application manual_or_new resume
still_paused = refl

calls-CanRun : CanRun new calls
unfolding step new_pause pause pause_reads application manual_or_new
calls-CanRun = (omega arith, (omega arith, (omega arith, (omega arith, tt))))

reads_paused_iff_example :
    (reads_paused (run new calls) ≡ true)
    ↔ ((p : ℕ) × (get_or (run new calls).pauses p false ≡ true))
reads_paused_iff_example = reads_paused_iff calls calls-CanRun

-- Owner 1 of two holds the only pause.
abbrev paused_once : Control.Control
paused_once = record { owners = 1; owed = false; manual = none; pauses = false ∷ true ∷ [] }

paused_once-Inv : Inv paused_once
paused_once-Inv = record { counted = refl; few = omega arith; manual_known = tt }

resume_asks_run : ((resume paused_once (some 1)).1 ≡ resume_asked) ↔ (
    (get_or paused_once.pauses 1 false ≡ true)
    × ((q : ℕ) → q ≢ 1 → get_or paused_once.pauses q false ≡ false))
resume_asks_run = resume_asks_iff paused_once 1 paused_once-Inv (omega arith)

held_run :
    (is_held (step paused_once (resumes (some 1)) false) ≡ true)
    ⊎ ((resumes (some 1) ≡ consumer) × (reads_paused paused_once ≡ false))
unfolding is_held
held_run = held-step paused_once (resumes (some 1)) false paused_once-Inv (omega arith) refl

abbrev table : Table
table = new_map 1000

abbrev filled : Table
filled = (put table 7 (some 42)).0

capacities :
    (open_file_capacity 0 ≡ 2 ^ 20)
    × (open_file_capacity 1024 ≡ 1024)
    × (open_file_capacity (2 ^ 64 - 1) ≡ 2 ^ 20)
unfolding open_file_capacity
capacities = (refl, refl, refl)

found :
    (get filled 7 ≡ some 42) × (get filled 8 ≡ none) × ((put table 1000 none).1 ≡ some out_of_range)
unfolding get put slot new_map
found = (refl, refl, refl)

-- Another value's holder does not delete it.
kept : get (delete_value filled 7 (some 41)) 7 ≡ some 42
unfolding get put slot new_map delete_value
kept = refl

get-put_example :
    ((7 < table.limit)
      × ((put table 7 (some 42)).1 ≡ none)
      × ((j : ℕ) → get (put table 7 (some 42)).0 j ≡ (if 7 == j then some 42 else get table j)))
    ⊎ ((table.limit ≤ 7)
        × ((put table 7 (some 42)).1 ≡ some out_of_range)
        × ((put table 7 (some 42)).0 ≡ table))
get-put_example = get-put table 7 (some 42)

delete_value_run :
    get (delete_value filled 7 (some 42)) 7
    ≡ (if (7 == 7) && same (get filled 7) (some 42) then none else get filled 7)
delete_value_run = get-delete_value filled 7 7 (some 42)

get_after_clear : get (clear filled) 7 ≡ none
unfolding put new_map
get_after_clear = get-clear filled 7 (omega arith)

new_map-get_example :
    ((new_map 1000).limit ≤ max_open_files_ceiling) × (get (new_map 1000) 7 ≡ none)
new_map-get_example = new_map-get 1000 7

place_unique_example :
    (segment_of 40000 < max_segments)
    × (slot_of 40000 < segment_slots)
    × (((segment_of 40000 ≡ segment_of 7) × (slot_of 40000 ≡ slot_of 7)) ↔ (◌≡◌ {A = ℕ} 40000 7))
place_unique_example = place_unique 40000 7 (omega arith)

-- Node 3, then node 5, which is the last.
abbrev links : Links
links n = if n == 3 then some 5 else none

abbrev two_nodes : Heap
two_nodes = record {
  queue = record { head = some 3; tail = some 5; accepting = true };
  links = links;
}

abbrev stopped : Heap
stopped = record two_nodes { queue = record two_nodes.queue { accepting = false } }

two_nodes-Holds : Holds two_nodes (3 ∷ 5 ∷ [])
two_nodes-Holds = record {
  chain = (refl, (refl, refl));
  tail_eq = refl;
  distinct = ((omega arith, tt), (tt, tt));
}

-- The last node passes the test of its own link, but a node behind it does not.
linked_node : (push two_nodes (some 3) ≡ none) × (push two_nodes none ≡ none)
unfolding push push_locked
linked_node = (refl, refl)

push-Holds_example :
    ((d : Heap) × (push two_nodes (some 7) ≡ some (d, true))
      × Holds d (3 ∷ 5 ∷ 7 ∷ [])
      × (d.queue.accepting ≡ true))
    × ((d : Heap) × (stop two_nodes (some 7) ≡ some (d, true))
        × Holds d (3 ∷ 5 ∷ 7 ∷ [])
        × (d.queue.accepting ≡ false))
push-Holds_example =
    push-Holds two_nodes (3 ∷ 5 ∷ []) 7 two_nodes-Holds refl refl (omega arith, (omega arith, tt))

stopped_run :
    (push stopped (some 7) ≡ some (stopped, false))
    × (stop stopped (some 7) ≡ some (stopped, false))
stopped_run = stopped-refuses stopped (some 7) refl

drain-walk_example :
    Holds (drain two_nodes).0 []
    × ((drain two_nodes).0.queue.accepting ≡ true)
    × ((walk 2 (drain two_nodes).0.links (drain two_nodes).1).1 ≡ 3 ∷ 5 ∷ [])
drain-walk_example = drain-walk two_nodes (3 ∷ 5 ∷ []) 2 two_nodes-Holds (omega arith)
