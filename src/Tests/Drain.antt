-- ===== src/Tests/Drain.antt =====
-- Runs of a session's shutdown, and its theorems at them.
use uio.Prelude.{◌≡◌, refl, true, false, none, some, List, [], ◌∷◌}
use uio.Umux.Drain.Once.{steps-Stays}
use uio.Umux.Drain.Settled.{Inv, new_drain-Inv, steps-Inv}
use uio.Umux.Drain.{
  Drain, Flush, nil, ctx_error, new_drain, Step, shutdown_step, leave_step, flush_step, force_step,
  check_step, admit_step, steps, shutdown, maybe_finish, finish_drain, leave, is_none,
}
use uio.Umux.Opening.{
  new_table, accept_check, accept_admit, admit, check_peer_stream_id, remove_stream,
}

abbrev sent_all : Flush
sent_all = record { emptied = true; broken = false }

abbrev start : Drain
start = new_drain (new_table false 8 none)

-- Two streams leave after the shutdown; a third, checked before it, is refused.
abbrev leaving : List Step
leaving =
    check_step 1 sent_all
    ∷ admit_step true sent_all
    ∷ check_step 3 sent_all
    ∷ admit_step true sent_all
    ∷ check_step 5 sent_all
    ∷ shutdown_step sent_all
    ∷ admit_step true sent_all
    ∷ leave_step 3
    ∷ leave_step 1
    ∷ []

leaving_ends : (steps start leaving).ended ≡ some nil
unfolding steps accept_check accept_admit admit check_peer_stream_id remove_stream shutdown
    maybe_finish finish_drain leave
leaving_ends = refl

steps-Inv_example : Inv (steps start leaving)
steps-Inv_example = steps-Inv start leaving (new_drain-Inv (new_table false 8 none))

leaving_is_over : is_none (steps start leaving).ended ≡ false
unfolding steps accept_check accept_admit admit check_peer_stream_id remove_stream shutdown
    maybe_finish finish_drain leave
leaving_is_over = refl

steps-Stays_example :
    (steps
      (steps start leaving)
      (flush_step sent_all ∷ force_step (ctx_error 1) (λ id. sent_all) ∷ [])).ended
    ≡ (steps start leaving).ended
steps-Stays_example =
    steps-Stays (steps start leaving)
      (flush_step sent_all ∷ force_step (ctx_error 1) (λ id. sent_all) ∷ []) leaving_is_over
