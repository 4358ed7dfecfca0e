-- ===== src/Jobs/Status/Graph.antt =====
-- The documented diagram and the table of the state machine, and what the table allows along histories.
use mathlib.Core.Bool.{true≢false}
use agent_learn.Base.{sym, ◌∙◌, Bool-cases, ◌⊎◌, inl, inr, ◌≡◌, refl, ◌↔◌, true, false, arith}
use agent_learn.Jobs.Status.{
  JobStatus, queued, running, retrying, success, failed, cancelled, dead, can_transition,
  is_terminal,
}

-- The arrows of the table.
infix 40 ◌⟶◌ ◌⟶*◌
pub data ◌⟶◌ : JobStatus → JobStatus → Type 0 where
  start : queued ⟶ running
  drop : queued ⟶ cancelled
  succeed : running ⟶ success
  fail : running ⟶ failed
  back_off : running ⟶ retrying
  stop : running ⟶ cancelled
  recover : running ⟶ queued
  requeue : retrying ⟶ queued
  restart : retrying ⟶ running
  give_up : retrying ⟶ failed
  abandon : retrying ⟶ cancelled
  exhaust : retrying ⟶ dead
  bury : failed ⟶ dead
  revive : dead ⟶ queued

pub data ◌⟶*◌ : JobStatus → JobStatus → Type 0 where
  here : {s : JobStatus} → s ⟶* s
  via : {s t u : JobStatus} → s ⟶ t → t ⟶* u → s ⟶* u

pub ruleset edges = (
  start, drop, succeed, fail, back_off, stop, recover, requeue, restart, give_up, abandon, exhaust,
  bury, revive,
)

edge_allowed : {s t : JobStatus} → s ⟶ t → can_transition s t ≡ true
unfolding can_transition
edge_allowed start = refl
edge_allowed drop = refl
edge_allowed succeed = refl
edge_allowed fail = refl
edge_allowed back_off = refl
edge_allowed stop = refl
edge_allowed recover = refl
edge_allowed requeue = refl
edge_allowed restart = refl
edge_allowed give_up = refl
edge_allowed abandon = refl
edge_allowed exhaust = refl
edge_allowed bury = refl
edge_allowed revive = refl

pub allowed_edge : (s t : JobStatus) → can_transition s t ≡ true → s ⟶ t
unfolding can_transition
allowed_edge s t h = grind (arith, edges)

terminal_stuck : {s t : JobStatus} → s ⟶ t → is_terminal s ≡ true → ⊥
unfolding is_terminal
terminal_stuck start h = cc
terminal_stuck drop h = cc
terminal_stuck succeed h = cc
terminal_stuck fail h = cc
terminal_stuck back_off h = cc
terminal_stuck stop h = cc
terminal_stuck recover h = cc
terminal_stuck requeue h = cc
terminal_stuck restart h = cc
terminal_stuck give_up h = cc
terminal_stuck abandon h = cc
terminal_stuck exhaust h = cc
terminal_stuck bury h = cc
terminal_stuck revive h = cc

stuck_terminal : (s : JobStatus) → ((t : JobStatus) → ¬ (s ⟶ t)) → is_terminal s ≡ true
unfolding is_terminal
stuck_terminal queued h = absurd (h running start)
stuck_terminal running h = absurd (h success succeed)
stuck_terminal retrying h = absurd (h queued requeue)
stuck_terminal success h = refl
stuck_terminal failed h = absurd (h dead bury)
stuck_terminal cancelled h = refl
stuck_terminal dead h = absurd (h queued revive)

-- What the class comment and the README draw, with the two arrows that the comment adds below.
data Drawn : JobStatus → JobStatus → Type 0 where
  to_work : Drawn queued running
  unwanted : Drawn queued cancelled
  ends_well : Drawn running success
  backs_off : Drawn running retrying
  fails : Drawn running failed
  is_stopped : Drawn running cancelled
  again : Drawn retrying queued
  at_once : Drawn retrying running
  to_dlq : Drawn failed dead
  lease_lost : Drawn running queued
  by_hand : Drawn dead queued

-- What nothing draws: a job that backs off may end there and then.
abbrev Undrawn : JobStatus → JobStatus → Type 0
Undrawn s t = (s ≡ retrying) × ((t ≡ failed) ⊎ ((t ≡ cancelled) ⊎ (t ≡ dead)))

edge-Drawn : {s t : JobStatus} → s ⟶ t → Drawn s t ⊎ Undrawn s t
edge-Drawn start = inl to_work
edge-Drawn drop = inl unwanted
edge-Drawn succeed = inl ends_well
edge-Drawn fail = inl fails
edge-Drawn back_off = inl backs_off
edge-Drawn stop = inl is_stopped
edge-Drawn recover = inl lease_lost
edge-Drawn requeue = inl again
edge-Drawn restart = inl at_once
edge-Drawn give_up = inr (refl, inl refl)
edge-Drawn abandon = inr (refl, inr (inl refl))
edge-Drawn exhaust = inr (refl, inr (inr refl))
edge-Drawn bury = inl to_dlq
edge-Drawn revive = inl by_hand

Drawn-allowed : {s t : JobStatus} → Drawn s t → can_transition s t ≡ true
unfolding can_transition
Drawn-allowed to_work = refl
Drawn-allowed unwanted = refl
Drawn-allowed ends_well = refl
Drawn-allowed backs_off = refl
Drawn-allowed fails = refl
Drawn-allowed is_stopped = refl
Drawn-allowed again = refl
Drawn-allowed at_once = refl
Drawn-allowed to_dlq = refl
Drawn-allowed lease_lost = refl
Drawn-allowed by_hand = refl

Undrawn-allowed : (s t : JobStatus) → Undrawn s t → can_transition s t ≡ true
unfolding can_transition
Undrawn-allowed s t h = ground (arith, h)

-- `can_transition` answers true for the arrows that the class comment draws or adds, for the three
-- from RETRYING to FAILED, CANCELLED and DEAD that it does not, and for no others; and `is_terminal`
-- exactly for the statuses that `can_transition` lets no job leave.
can_transition-diagram :
    ((s t : JobStatus) → (can_transition s t ≡ true) ↔ (Drawn s t ⊎ Undrawn s t))
    × ((s : JobStatus) → (is_terminal s ≡ true) ↔ ((t : JobStatus) → can_transition s t ≡ false))
can_transition-diagram = (
  λ s t. (
    λ h. edge-Drawn (allowed_edge s t h),
    λ h. elim h [ inl drawn ↦ Drawn-allowed drawn | inr more ↦ Undrawn-allowed s t more ],
  ),
  λ s. (
    λ h t. elim (Bool-cases (can_transition s t)) [
      | inl e ↦ absurd (terminal_stuck (allowed_edge s t e) h)
      | inr e ↦ e
    ],
    λ h. stuck_terminal s λ t e. true≢false (sym (edge_allowed e) ∙ h t),
  ),
)

pub terminal_absorbs : {s t : JobStatus} → is_terminal s ≡ true → s ⟶* t → t ≡ s
terminal_absorbs h here = refl
terminal_absorbs h (via e p) = absurd (terminal_stuck e h)

reach_success : (s : JobStatus) → is_terminal s ≡ false → s ⟶* success
unfolding is_terminal
reach_success queued h = via start (via succeed here)
reach_success running h = via succeed here
reach_success retrying h = via restart (via succeed here)
reach_success success h = here
reach_success failed h = via bury (via revive (via start (via succeed here)))
reach_success cancelled h = cc
reach_success dead h = via revive (via start (via succeed here))

-- Along the arrows of the diagram, a terminal status is never left, and from every status that is
-- not terminal there is a path to `success`.
pub can_transition-terminal :
    (s : JobStatus)
    → (is_terminal s ≡ true → (t : JobStatus) → s ⟶* t → t ≡ s)
      × (is_terminal s ≡ false → s ⟶* success)
can_transition-terminal s = (λ h t p. terminal_absorbs h p, reach_success s)
