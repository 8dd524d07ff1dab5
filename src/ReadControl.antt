-- ===== src/ReadControl.antt =====
-- internal/readcontrol: who holds the input of a connection back. Each call runs as one step, as the
-- owner's lock makes it. An owner is its number in order of creation.
pub mod Owners
use uio.Prelude.{
  ℕ, zero, suc, ◌+◌, ◌-◌, ◌%◌, ◌^◌, Bool, true, false, not, ◌&&◌, ◌||◌, Option, none, some, List,
  [], ◌∷◌, ◌++◌, length, get_or, set, ◌==◌, if◌then◌else◌,
}

-- `pauses` holds the flag of each owner, `manual` the application's owner once it is made.
pub record Control : Type 0 where
  pub owners : ℕ
  pub owed : Bool
  pub manual : Option ℕ
  pub pauses : List Bool

-- What a call returns: nil, ErrUnsupported, the error of the boundary's check, or a resume turn
-- asked of the boundary.
pub data Reply : Type 0 where
  done unsupported refused resume_asked : Reply

abbrev pub new : Control
new = record { owners = 0; owed = false; manual = none; pauses = [] }

unfoldable pub new_pause : Control → Control × ℕ
new_pause c = (record c { pauses = c.pauses ++ (false ∷ []) }, length c.pauses)

-- `atomic.Int32.Add`
abbrev pub increment : ℕ → ℕ
increment n = (n + 1) % 2 ^ 32

abbrev pub decrement : ℕ → ℕ
decrement n = (n + (2 ^ 32 - 1)) % 2 ^ 32

-- `check_fails` is whether the boundary's check refuses a new pause; `none` is a nil owner.
unfoldable pub pause : Control → Option ℕ → Bool → Control × Reply
pause c none check_fails = (c, unsupported)
pause c (some p) check_fails =
    if check_fails
    then (c, refused)
    else if not (get_or c.pauses p false)
    then (record c { owners = increment c.owners; pauses = set c.pauses p true }, done)
    else (c, done)

unfoldable pub resume : Control → Option ℕ → Control × Reply
resume c none = (c, unsupported)
resume c (some p) =
    if get_or c.pauses p false
    then (
      record c { owners = decrement c.owners; owed = true; pauses = set c.pauses p false },
      if decrement c.owners == 0 then resume_asked else done,
    )
    else (c, done)

-- `application`, given what `manual` holds.
unfoldable pub manual_or_new : Control → Option ℕ → Control × ℕ
manual_or_new c (some p) = (c, p)
manual_or_new c none = (
  record c { pauses = c.pauses ++ (false ∷ []); manual = some (length c.pauses) },
  length c.pauses,
)

unfoldable pub application : Control → Control × ℕ
unfolding manual_or_new
application c = manual_or_new c c.manual

unfoldable pub pause_reads : Control → Bool → Control × Reply
pause_reads c check_fails = let (d, p) = application c in pause d (some p) check_fails

unfoldable pub resume_reads : Control → Control × Reply
resume_reads c = let (d, p) = application c in resume d (some p)

unfoldable pub reads_paused : Control → Bool
reads_paused c = not (c.owners == 0)

unfoldable pub is_held : Control → Bool
is_held c = not (c.owners == 0) || c.owed

unfoldable pub consumer_runs : Control → Control
consumer_runs c = if c.owed then record c { owed = false } else c

-- Whether an owner holds its own pause; a nil owner does not.
abbrev pub is_paused : Control → Option ℕ → Bool
is_paused c none = false
is_paused c (some p) = get_or c.pauses p false

pub data Call : Type 0 where
  new_owner : Call
  pauses resumes : Option ℕ → Call
  app_pauses app_resumes : Call
  consumer : Call

-- The calls that reach one control, each with the state of the boundary's check. The consumer's
-- callback starts only while no pause is held.
unfoldable pub step : Control → Call → Bool → Control
step c new_owner check_fails = (new_pause c).0
step c (pauses p) check_fails = (pause c p check_fails).0
step c (resumes p) check_fails = (resume c p).0
step c app_pauses check_fails = (pause_reads c check_fails).0
step c app_resumes check_fails = (resume_reads c).0
step c consumer check_fails = if reads_paused c then c else consumer_runs c

unfoldable pub run : Control → List (Call × Bool) → Control
run c [] = c
run c ((call, check_fails) ∷ calls) = run (step c call check_fails) calls
