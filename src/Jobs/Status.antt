-- ===== src/Jobs/Status.antt =====
-- app/domain/status.py and app/domain/state_machine.py: the statuses of a job and the table of
-- legal transitions.
pub mod Graph
pub mod Ends
use agent_learn.Base.{Bool, true, false, not, ◌||◌, List, [], ◌∷◌}

pub data JobStatus : Type 0 where
  queued running retrying success failed cancelled dead : JobStatus

abbrev pub status_eq : JobStatus → JobStatus → Bool
status_eq queued queued = true
status_eq running running = true
status_eq retrying retrying = true
status_eq success success = true
status_eq failed failed = true
status_eq cancelled cancelled = true
status_eq dead dead = true
status_eq _ _ = false

-- `s in set`.
abbrev contains_status : JobStatus → List JobStatus → Bool
contains_status s [] = false
contains_status s (t ∷ ts) = status_eq s t || contains_status s ts

-- `_TRANSITIONS`.
unfoldable pub transitions : JobStatus → List JobStatus
transitions queued = running ∷ cancelled ∷ []
transitions running = success ∷ failed ∷ retrying ∷ cancelled ∷ queued ∷ []
transitions retrying = queued ∷ running ∷ failed ∷ cancelled ∷ dead ∷ []
transitions failed = dead ∷ []
transitions dead = queued ∷ []
transitions success = []
transitions cancelled = []

unfoldable pub can_transition : JobStatus → JobStatus → Bool
unfolding transitions
can_transition from to = contains_status to (transitions from)

-- `not cls._TRANSITIONS.get(status)`: no status may follow.
unfoldable pub is_terminal : JobStatus → Bool
unfolding transitions
is_terminal s = elim (transitions s) [ [] ↦ true | _ ↦ false ]
