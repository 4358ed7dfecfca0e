-- ===== src/Workflow/Attempts.antt =====
-- How often a step is tried, and with what end.
use agent_learn.Base.{
  ℕ, zero, suc, ◌+◌, ◌-◌, ◌≤◌, ◌<◌, ◌≡◌, refl, subst, ◌∙◌, ◌⊎◌, inl, inr, Option, none, some, List,
  arith, ◌==◌, ==_iff, ltb, insert, lookup-insert_self, Bool-cases, Option-cases,
}
use agent_learn.Workflow.{Options, Context, budget_of, attempt}

-- Attempt `k` fails: a failure is injected, or the handler raises.
abbrev pub Fails : Options → ℕ → Context → ℕ → ℕ → Type 0
Fails o id context injected k = (k ≤ injected) ⊎ (o.handler id k context ≡ none)

-- The end of the attempts after `tried`, with `injected` failures in all: the last one produced what
-- came out, and was no injected failure; or all of them failed.
abbrev pub Tried : Options → ℕ → Context → ℕ → ℕ → ℕ → ℕ × List (ℕ × ℕ) × Option Context → Type 0
Tried o id context injected tried most (n, budget, none) =
    (n ≡ most) × ((k : ℕ) → tried < k → k ≤ most → Fails o id context injected k)
Tried o id context injected tried most (n, budget, some out) =
    (n ≤ most)
    × ((tried < n)
        × ((injected < n)
            × ((o.handler id n context ≡ some out)
                × ((k : ℕ) → tried < k → k < n → Fails o id context injected k))))

budget_of-insert : (id n : ℕ) (budget : List (ℕ × ℕ)) → budget_of id (insert id n budget) ≡ n
budget_of-insert id n budget = rw (lookup-insert_self id n budget, budget_of) refl

Fails-from :
    (o : Options) (id : ℕ) (context : Context) (injected tried k : ℕ)
    → Fails o id context injected (tried + 1)
    → (tried + 1 < k → Fails o id context injected k)
    → tried < k
    → Fails o id context injected k
Fails-from o id context injected tried k fails more low = elim (Bool-cases (tried + 1 == k)) [
  | inl e ↦ subst (Fails o id context injected) ((==_iff (tried + 1) k).0 e) fails
  | inr e ↦ more (ground (arith, e, low))
]

-- One failed attempt before the others.
Tried-before :
    (o : Options) (id : ℕ) (context : Context) (injected tried most : ℕ)
    (end : ℕ × List (ℕ × ℕ) × Option Context)
    → Fails o id context injected (tried + 1)
    → Tried o id context injected (tried + 1) most end
    → Tried o id context injected tried most end
Tried-before o id context injected tried most (n, budget, none) fails (last, all) = (
  last,
  λ k low high. Fails-from o id context injected tried k fails (λ later. all k later high) low,
)
Tried-before o id context injected tried most (n, budget, some out) fails
      (high, (low, (over, (out', all)))) =
    (
      high,
      (
        omega arith,
        (
          over,
          (
            out',
            λ k low' high'.
                Fails-from o id context injected tried k fails (λ later. all k later high') low',
          ),
        ),
      ),
    )

attempt-Tried :
    (o : Options) (id : ℕ) (context : Context) (left tried injected : ℕ) (budget : List (ℕ × ℕ))
    → budget_of id budget ≡ injected - tried
    → Tried o id context injected tried (tried + left) (attempt o id context left tried budget)
unfolding attempt
attempt-Tried o id context zero tried injected budget h =
    (omega arith, λ k low high. absurd (omega arith))
attempt-Tried o id context (suc left) tried injected budget h =
    let n = budget_of id budget in
    let most : tried + 1 + left ≡ tried + suc left = omega arith in
    elim (Bool-cases (ltb 0 n)) [
      | inl e ↦
          let end = attempt o id context left (tried + 1) (insert id (n - 1) budget) in
          let next =
            attempt-Tried o id context left (tried + 1) injected (insert id (n - 1) budget)
              (budget_of-insert id (n - 1) budget ∙ omega (arith, h)) in
          let injects : tried + 1 ≤ injected = ground (arith, e, h) in
          rw (e, attempt)
            (Tried-before o id context injected tried (tried + suc left) end (inl injects)
              (subst (λ m. Tried o id context injected (tried + 1) m end) most next))
      | inr e ↦
          let spent : injected ≤ tried = ground (arith, e, h) in
          elim (Option-cases (o.handler id (tried + 1) context)) [
            | inr (out, p) ↦
                rw (e, p, attempt)
                  (
                    omega arith,
                    (omega arith, (omega arith, (p, λ k low high. absurd (omega arith)))),
                  )
            | inl p ↦
                let end = attempt o id context left (tried + 1) budget in
                let next =
                  attempt-Tried o id context left (tried + 1) injected budget
                    (omega (arith, h, spent)) in
                rw (e, p, attempt)
                  (Tried-before o id context injected tried (tried + suc left) end (inr p)
                    (subst (λ m. Tried o id context injected (tried + 1) m end) most next))
          ]
    ]

-- For any step, blackboard, retry limit, injected failures and handler, the attempts of `_run_step` end,
-- and: either the last attempt is at most one more than the retry limit, was not made to fail, and
-- produced what comes out, and each attempt before it failed; or there were as many attempts as the
-- retry limit and one, and each of them failed.
pub attempt-outcome :
    (o : Options) (id : ℕ) (context : Context) (budget : List (ℕ × ℕ))
    → Tried o id context
        (budget_of id budget)
        0
        (o.max_retries + 1)
        (attempt o id context (o.max_retries + 1) 0 budget)
attempt-outcome o id context budget =
    subst
      (λ m.
        Tried o id context (budget_of id budget) 0 m
          (attempt o id context (o.max_retries + 1) 0 budget))
      (omega arith)
      (attempt-Tried o id context (o.max_retries + 1) 0 (budget_of id budget) budget (omega arith))
