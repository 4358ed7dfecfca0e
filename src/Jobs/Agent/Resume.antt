-- ===== src/Jobs/Agent/Resume.antt =====
-- A run that goes on from a checkpoint does each missing step once, and no step again.
use agent_learn.Base.{
  ℕ, zero, suc, ◌≤◌, ◌<◌, ◌≡◌, refl, sym, ◌∙◌, ap, subst, inl, inr, true, false, not, ◌||◌, Option,
  none, some, List, [], ◌∷◌, ◌++◌, arith, ◌==◌, Bool-cases, ==_iff, ==_refl, Option-cases, contains,
  filter, lookup, insert, length, lookup-insert_self,
}
use mathlib.Core.List.{append_assoc, append-nil}
use agent_learn.Jobs.Job.{Job}
use agent_learn.Jobs.Agent.{
  AgentState, ToolRun, next_step, apply, drive, to_checkpoint, from_checkpoint, tool, run_tool,
  running, success,
}

contains-snoc : (x y : ℕ) (c : List ℕ) → contains x (c ++ y ∷ []) ≡ contains x c || (y == x)
contains-snoc x y [] = ground arith
contains-snoc x y (z ∷ c) = ground (arith, contains-snoc x y c)

abbrev pub missing : List ℕ → List ℕ → ℕ
missing c steps = length (filter (λ x. not (contains x c)) steps)

missing-snoc-le :
    (c : List ℕ) (y : ℕ) (steps : List ℕ) → missing (c ++ y ∷ []) steps ≤ missing c steps
missing-snoc-le c y [] = omega arith
missing-snoc-le c y (x ∷ steps) = ground (arith, contains-snoc x y c, missing-snoc-le c y steps)

missing-snoc-lt :
    (c : List ℕ) (y : ℕ) (steps : List ℕ)
    → contains y c ≡ false
    → contains y steps ≡ true
    → missing (c ++ y ∷ []) steps < missing c steps
missing-snoc-lt c y [] new there = cc
missing-snoc-lt c y (x ∷ steps) new there = elim (Bool-cases (x == y)) [
  | inl hit ↦
      let same : x ≡ y = (==_iff x y).0 hit in
      rw same (ground (arith, contains-snoc y y c, missing-snoc-le c y steps, ==_refl y))
  | inr miss ↦ ground (arith, contains-snoc x y c, missing-snoc-lt c y steps new)
]

next_step-new :
    (steps : List ℕ) (s : AgentState) (x : ℕ)
    → next_step steps s ≡ some x
    → (contains x s.completed_steps ≡ false) × (contains x steps ≡ true)
unfolding next_step
next_step-new [] s x e = cc
next_step-new (y ∷ steps) s x e = ground (arith, next_step-new steps s x)

-- Each of `ran` is one of the steps, and was not complete when it ran.
abbrev pub EachOnce : List ℕ → List ℕ → List ℕ → Type 0
EachOnce steps done [] = Unit
EachOnce steps done (x ∷ ran) =
    (contains x done ≡ false) × (contains x steps ≡ true) × EachOnce steps (done ++ x ∷ []) ran

apply-completed :
    (s : AgentState) (x v : ℕ) (steps : List ℕ)
    → contains x s.completed_steps ≡ false
    → (apply s x v steps).completed_steps ≡ s.completed_steps ++ x ∷ []
unfolding apply
apply-completed s x v steps new = rw new

module _ (execute : ℕ → AgentState → ℕ) (steps : List ℕ) (fuel : ℕ) (s : AgentState) where
  drive-ends : next_step steps s ≡ none → drive execute steps (suc fuel) s ≡ some ([], s)
  unfolding drive
  drive-ends e = rw (e, drive)

  drive-goes :
      (x : ℕ) (ran : List ℕ) (end : AgentState)
      → next_step steps s ≡ some x
      → drive execute steps fuel (apply s x (execute x s) steps) ≡ some (ran, end)
      → drive execute steps (suc fuel) s ≡ some (x ∷ ran, end)
  unfolding drive
  drive-goes x ran end e r = rw (e, drive) (rw r)

-- Whatever the steps answer, a run with more fuel than it has missing steps ends; it ran exactly
-- the missing steps, each once and none that was complete, it records them in order after the
-- steps of the checkpoint, and no step is left.
pub drive-completes :
    (execute : ℕ → AgentState → ℕ) (steps : List ℕ) (fuel : ℕ) (s : AgentState)
    → missing s.completed_steps steps < fuel
    → (ran : List ℕ) × (end : AgentState) × (drive execute steps fuel s ≡ some (ran, end))
      × (next_step steps end ≡ none)
      × (end.completed_steps ≡ s.completed_steps ++ ran)
      × EachOnce steps s.completed_steps ran
drive-completes execute steps zero s h = elim h [ ]
drive-completes execute steps (suc fuel) s h = elim (Option-cases (next_step steps s)) [
  | inl e ↦ ([], s, drive-ends execute steps fuel s e, e, sym (append-nil s.completed_steps), tt)
  | inr (x, e) ↦
      let (new, there) = next_step-new steps s x e in
      let s' = apply s x (execute x s) steps in
      let grown : s'.completed_steps ≡ s.completed_steps ++ x ∷ [] =
        apply-completed s x (execute x s) steps new in
      let (ran, end, ends, none_left, all, once) =
        drive-completes execute steps fuel s'
          (rw grown (omega (arith, missing-snoc-lt s.completed_steps x steps new there))) in
      (
        x ∷ ran,
        end,
        drive-goes execute steps fuel s x ran end e ends,
        none_left,
        all ∙ ap (λ c. c ++ ran) grown ∙ append_assoc s.completed_steps (x ∷ []) ran,
        (new, there, subst (λ c. EachOnce steps c ran) grown once),
      )
]

-- What a call gives when the result is on record.
abbrev pub skipped : AgentState → ℕ → ToolRun
skipped s v = record { state = s; saved = []; ran = false; returned = some v }

tool_recorded :
    (s : AgentState) (k v : ℕ) (answer : Option ℕ)
    → lookup k s.tool_records ≡ some (success v)
    → tool s k answer ≡ skipped s v
unfolding tool
tool_recorded s k v answer e = rw (e, tool)

tool_begun :
    (s : AgentState) (k : ℕ) (answer : Option ℕ)
    → lookup k s.tool_records ≡ some running
    → tool s k answer ≡ run_tool s k answer
unfolding tool
tool_begun s k answer e = rw (e, tool)

tool_new :
    (s : AgentState) (k : ℕ) (answer : Option ℕ)
    → lookup k s.tool_records ≡ none
    → tool s k answer ≡ run_tool s k answer
unfolding tool
tool_new s k answer e = rw (e, tool)

run_tool_ran : (s : AgentState) (k : ℕ) (answer : Option ℕ) → (run_tool s k answer).ran ≡ true
unfolding run_tool
run_tool_ran s k none = refl
run_tool_ran s k (some v) = refl

-- A tool call that succeeded is not made again: a second call with the same id returns the recorded
-- result and does not run the tool, in the same run and in any run that goes on from the checkpoint
-- saved at its end. A run that goes on from the checkpoint saved before the tool ran, as it stands
-- after a crash, runs it again.
pub tool-once :
    (job : Job) (s : AgentState) (call_id v : ℕ) (answer : Option ℕ)
    → lookup call_id s.tool_records ≡ none
    → let first = run_tool s call_id (some v) in
      let crashed = run_tool s call_id none in
      let resumed = from_checkpoint job (some (to_checkpoint first.state)) in
      (tool s call_id (some v) ≡ first)
      × (first.returned ≡ some v)
      × (first.saved ≡ to_checkpoint crashed.state ∷ to_checkpoint first.state ∷ [])
      × (tool first.state call_id answer ≡ skipped first.state v)
      × (tool resumed call_id answer ≡ skipped resumed v)
      × ((tool (from_checkpoint job (some (to_checkpoint crashed.state))) call_id answer).ran
          ≡ true)
unfolding run_tool to_checkpoint from_checkpoint
tool-once job s call_id v answer e =
    let begun = insert call_id running s.tool_records in
    let done : lookup call_id (insert call_id (success v) begun) ≡ some (success v) =
      lookup-insert_self call_id (success v) begun in
    let crashed = from_checkpoint job (some (to_checkpoint (run_tool s call_id none).state)) in
    (
      tool_new s call_id (some v) e,
      refl,
      refl,
      tool_recorded (run_tool s call_id (some v)).state call_id v answer done,
      tool_recorded (from_checkpoint job (some (to_checkpoint (run_tool s call_id (some v)).state)))
          call_id v answer done,
      ap (λ r. r.ran)
            (tool_begun crashed call_id answer (lookup-insert_self call_id running s.tool_records))
          ∙ run_tool_ran crashed call_id answer,
    )
