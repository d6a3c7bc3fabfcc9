-- ===== src/Core/Tasks.antt =====
-- crates/lakefs-auth-core/src/tasks.rs: the supervisor of a background task. Durations
-- are in nanoseconds.
use lakefs_auth.Common.{ℕ, ◌*◌, ◌≤◌, ◌<◌, ◌≡◌, refl, List, [], ◌∷◌, ltb, if◌then◌else◌, arith}
use Prim.Native.Nat.{min}

abbrev pub initial_restart_delay : ℕ
initial_restart_delay = 1000000000

abbrev pub max_restart_delay : ℕ
max_restart_delay = 30000000000

-- How a run of the task ended: it returned, it panicked, or it was cancelled.
pub data Exit : Type 0 where
  returned panicked cancelled : Exit

-- The delay after a run that lasted so long.
abbrev pub restart_delay : ℕ → ℕ → ℕ
restart_delay elapsed delay = if ltb max_restart_delay elapsed then initial_restart_delay else delay

-- What the supervisor does: it starts the task, or sleeps.
pub data Event : Type 0 where
  started : Event
  slept : ℕ → Event

-- The loop over the runs of the task, each with how it ended and how long it lasted.
unfoldable pub supervise_from : ℕ → List (Exit × ℕ) → List Event
supervise_from delay [] = []
supervise_from delay ((cancelled, elapsed) ∷ runs) = started ∷ []
supervise_from delay ((returned, elapsed) ∷ runs) =
    let pause = restart_delay elapsed delay in
    started ∷ slept pause ∷ supervise_from (min (pause * 2) max_restart_delay) runs
supervise_from delay ((panicked, elapsed) ∷ runs) =
    let pause = restart_delay elapsed delay in
    started ∷ slept pause ∷ supervise_from (min (pause * 2) max_restart_delay) runs

unfoldable pub supervise : List (Exit × ℕ) → List Event
unfolding supervise_from
supervise runs = supervise_from initial_restart_delay runs

abbrev pub IsDelay : ℕ → Type 0
IsDelay d = (initial_restart_delay ≤ d) × (d ≤ max_restart_delay)

restart_delay-IsDelay : (elapsed delay : ℕ) → IsDelay delay → IsDelay (restart_delay elapsed delay)
restart_delay-IsDelay elapsed delay h = ground arith

doubled-IsDelay : (d : ℕ) → IsDelay d → IsDelay (min (d * 2) max_restart_delay)
doubled-IsDelay d (low, high) = (omega arith, omega arith)

-- A pause after a run: it is bounded, and a run that was long enough brings it back to the start.
abbrev pub IsPause : ℕ → ℕ → Type 0
IsPause elapsed pause =
    IsDelay pause × (max_restart_delay < elapsed → pause ≡ initial_restart_delay)

restart_delay-IsPause :
    (elapsed delay : ℕ) → IsDelay delay → IsPause elapsed (restart_delay elapsed delay)
restart_delay-IsPause elapsed delay h =
    (restart_delay-IsDelay elapsed delay h, λ long. ground (arith, long))

-- A run that is not the last one is followed by one pause and by the next run; a cancelled run is the
-- last one.
abbrev pub IsPaced : List (Exit × ℕ) → List Event → Type 0
IsPaced [] events = events ≡ []
IsPaced ((cancelled, elapsed) ∷ runs) events = events ≡ started ∷ []
IsPaced ((returned, elapsed) ∷ runs) events =
    (pause : ℕ) × (rest : List Event) × (events ≡ started ∷ slept pause ∷ rest)
    × IsPause elapsed pause
    × IsPaced runs rest
IsPaced ((panicked, elapsed) ∷ runs) events =
    (pause : ℕ) × (rest : List Event) × (events ≡ started ∷ slept pause ∷ rest)
    × IsPause elapsed pause
    × IsPaced runs rest

supervise_from-IsPaced :
    (delay : ℕ) (runs : List (Exit × ℕ)) → IsDelay delay → IsPaced runs (supervise_from delay runs)
unfolding supervise_from
supervise_from-IsPaced delay [] h = refl
supervise_from-IsPaced delay ((cancelled, elapsed) ∷ runs) h = refl
supervise_from-IsPaced delay ((returned, elapsed) ∷ runs) h =
    let pause = restart_delay elapsed delay in
    let (bounded, reset) = restart_delay-IsPause elapsed delay h in
    let next = min (pause * 2) max_restart_delay in
    (
      pause,
      supervise_from next runs,
      refl,
      (bounded, reset),
      supervise_from-IsPaced next runs (doubled-IsDelay pause bounded),
    )
supervise_from-IsPaced delay ((panicked, elapsed) ∷ runs) h =
    let pause = restart_delay elapsed delay in
    let (bounded, reset) = restart_delay-IsPause elapsed delay h in
    let next = min (pause * 2) max_restart_delay in
    (
      pause,
      supervise_from next runs,
      refl,
      (bounded, reset),
      supervise_from-IsPaced next runs (doubled-IsDelay pause bounded),
    )

-- However the runs of a task end and however long they last, the supervisor sleeps once after each
-- run that was not cancelled, between one second and thirty, and one second after a run of more than
-- thirty, and then starts the next; a run that was cancelled is the last one.
pub supervise-IsPaced : (runs : List (Exit × ℕ)) → IsPaced runs (supervise runs)
unfolding supervise
supervise-IsPaced runs =
    supervise_from-IsPaced initial_restart_delay runs (omega arith, omega arith)
