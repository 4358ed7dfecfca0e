-- ===== src/Jobs/Status/Ends.antt =====
-- Where the table of domain/state_machine.py leads without the way out of the dead letter queue.
use agent_learn.Base.{◌≡◌, refl, ◌⊎◌, inl, inr, Bool, true, false}
use agent_learn.Jobs.Status.{
  JobStatus, queued, running, retrying, success, failed, cancelled, dead, is_terminal,
}
use agent_learn.Jobs.Status.Graph.{
  ◌⟶◌, ◌⟶*◌, here, via, terminal_absorbs, start, drop, succeed, fail, back_off, stop, recover,
  requeue, restart, give_up, abandon, exhaust, bury, revive,
}

-- The one way out of the dead letter queue.
abbrev pub is_dead : JobStatus → Bool
is_dead dead = true
is_dead queued = false
is_dead running = false
is_dead retrying = false
is_dead success = false
is_dead failed = false
is_dead cancelled = false

abbrev pub revival : JobStatus → JobStatus → Bool
revival s queued = is_dead s
revival s running = false
revival s retrying = false
revival s success = false
revival s failed = false
revival s cancelled = false
revival s dead = false

-- Along the table without that way.
infix 40 ◌↝*◌
pub data ◌↝*◌ : JobStatus → JobStatus → Type 0 where
  still : {s : JobStatus} → s ↝* s
  onward : {s t u : JobStatus} → s ⟶ t → revival s t ≡ false → t ↝* u → s ↝* u

pub with_revivals : {s t : JobStatus} → s ↝* t → s ⟶* t
with_revivals still = here
with_revivals (onward e h p) = via e (with_revivals p)

-- Where a job that has ended may still be: the dead letter queue takes it after a failure.
abbrev pub Ended : JobStatus → JobStatus → Type 0
Ended success t = t ≡ success
Ended cancelled t = t ≡ cancelled
Ended dead t = t ≡ dead
Ended failed t = (t ≡ failed) ⊎ (t ≡ dead)
Ended queued t = Unit
Ended running t = Unit
Ended retrying t = Unit

dead_stays : {s t : JobStatus} → s ↝* t → s ≡ dead → t ≡ dead
dead_stays still h = h
dead_stays (onward e calm p) h = absurd (out e calm h)
  where
    out : {s t : JobStatus} → s ⟶ t → revival s t ≡ false → s ≡ dead → ⊥
    out start c h = cc
    out drop c h = cc
    out succeed c h = cc
    out fail c h = cc
    out back_off c h = cc
    out stop c h = cc
    out recover c h = cc
    out requeue c h = cc
    out restart c h = cc
    out give_up c h = cc
    out abandon c h = cc
    out exhaust c h = cc
    out bury c h = cc
    out revive c h = cc

failed_stays : {s t : JobStatus} → s ↝* t → s ≡ failed → (t ≡ failed) ⊎ (t ≡ dead)
failed_stays still h = inl h
failed_stays (onward e calm p) h = inr (dead_stays p (to_dead e h))
  where
    to_dead : {s t : JobStatus} → s ⟶ t → s ≡ failed → t ≡ dead
    to_dead start h = cc
    to_dead drop h = cc
    to_dead succeed h = cc
    to_dead fail h = cc
    to_dead back_off h = cc
    to_dead stop h = cc
    to_dead recover h = cc
    to_dead requeue h = cc
    to_dead restart h = cc
    to_dead give_up h = cc
    to_dead abandon h = cc
    to_dead exhaust h = cc
    to_dead bury h = refl
    to_dead revive h = cc

pub Ended-stays : (s t : JobStatus) → s ↝* t → Ended s t
unfolding is_terminal
Ended-stays success t p = terminal_absorbs refl (with_revivals p)
Ended-stays cancelled t p = terminal_absorbs refl (with_revivals p)
Ended-stays dead t p = dead_stays p refl
Ended-stays failed t p = failed_stays p refl
Ended-stays queued t p = tt
Ended-stays running t p = tt
Ended-stays retrying t p = tt
