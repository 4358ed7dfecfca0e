-- ===== src/Gateway/Window/Quota.antt =====
-- The quota of a sliding window holds in every window, not only in those that begin on a grid.
use mathlib.Core.List.{append_assoc, append-nil}
use agent_learn.Base.{
  ℕ, suc, ◌+◌, ◌≤◌, ◌<◌, ◌≡◌, refl, sym, subst, ◌∙◌, ap, inl, inr, ◌&&◌, List, [], ◌∷◌, ◌++◌, arith,
  ltb, leb, if◌then◌else◌, Bool-cases, length, length-append, All, All-map, All-append, leb→le,
  ltb→lt,
}
use agent_learn.Gateway.Window.{Counter, new, evict, allow}

-- The times at which a list of requests is let through, in order.
pub admitted : Counter → List ℕ → List ℕ
admitted c [] = []
admitted c (t ∷ ts) =
    let (c', ok) = allow c t in let rest = admitted c' ts in if ok then t ∷ rest else rest

-- How many of `xs` lie in the window that ends at `t`, after `t - w` and not after `t`.
pub in_window : ℕ → ℕ → List ℕ → ℕ
in_window w t [] = 0
in_window w t (x ∷ xs) =
    let rest = in_window w t xs in if ltb t (x + w) && leb x t then suc rest else rest

-- Times do not go back.
abbrev Rising : ℕ → List ℕ → Type 0
Rising t [] = Unit
Rising t (x ∷ xs) = (t ≤ x) × Rising x xs

in_window-append :
    (w t : ℕ) (xs ys : List ℕ) → in_window w t (xs ++ ys) ≡ in_window w t xs + in_window w t ys
unfolding in_window
in_window-append w t [] ys = omega arith
in_window-append w t (x ∷ xs) ys = ground (arith, in_window-append w t xs ys)

in_window-le : (w t : ℕ) (xs : List ℕ) → in_window w t xs ≤ length xs
unfolding in_window
in_window-le w t [] = omega arith
in_window-le w t (x ∷ xs) = ground (arith, in_window-le w t xs)

-- Marks that have left the window, and marks to come.
in_window-gone : (w t : ℕ) (xs : List ℕ) → All (λ x. x + w ≤ t) xs → in_window w t xs ≡ 0
unfolding in_window
in_window-gone w t [] all = refl
in_window-gone w t (x ∷ xs) all = ground (arith, in_window-gone w t xs all.1)

in_window-ahead : (w t : ℕ) (xs : List ℕ) → All (λ x. t < x) xs → in_window w t xs ≡ 0
unfolding in_window
in_window-ahead w t [] all = refl
in_window-ahead w t (x ∷ xs) all = ground (arith, in_window-ahead w t xs all.1)

-- What `evict` takes off, and what it keeps.
evict-split :
    (w now : ℕ) (ms : List ℕ)
    → (gone : List ℕ) × (ms ≡ gone ++ evict w now ms) × All (λ x. x + w ≤ now) gone
unfolding evict
evict-split w now [] = ([], refl, tt)
evict-split w now (m ∷ ms) = elim (Bool-cases (leb (m + w) now)) [
  | inl old ↦
      let (gone, e, all) = evict-split w now ms in
      (m ∷ gone, rw old (ap (λ l. m ∷ l) e), (leb→le (m + w) now old, all))
  | inr fresh ↦ ([], rw fresh, tt)
]

-- The counter `c` at time `now`, when the requests at the times `past` have been let through.
record Kept (c : Counter) (now : ℕ) (past : List ℕ) : Type 0 where
  gone : List ℕ
  split : past ≡ gone ++ c.marks
  old : All (λ x. x + c.window_ms ≤ now) gone
  quota : (t : ℕ) → in_window c.window_ms t past ≤ c.limit

abbrev kept : Counter → ℕ → List ℕ
kept c now = evict c.window_ms now c.marks

abbrev let_through : Counter → ℕ → Counter
let_through c now = record c { marks = kept c now ++ now ∷ [] }

abbrev turned_away : Counter → ℕ → Counter
turned_away c now = record c { marks = kept c now; rejected = c.rejected + 1 }

module _ (c : Counter) (now x : ℕ) (past : List ℕ) (k : Kept c now past) (le : now ≤ x) where
  evicted : (gone : List ℕ) × (past ≡ gone ++ kept c x) × All (λ y. y + c.window_ms ≤ x) gone
  evicted =
      let (g, e, all) = evict-split c.window_ms x c.marks in
      (
        k.gone ++ g,
        k.split ∙ ap (λ l. k.gone ++ l) e ∙ sym (append_assoc k.gone g (kept c x)),
        All-append (λ y. y + c.window_ms ≤ x) k.gone g (All-map (λ y h. omega arith) k.gone k.old)
            all,
      )

  turned_away-Kept : Kept (turned_away c x) x past
  turned_away-Kept =
      let (g, e, all) = evicted in record { gone = g; split = e; old = all; quota = k.quota }

  let_through-quota :
      length (kept c x) < c.limit → (t : ℕ) → in_window c.window_ms t (past ++ x ∷ []) ≤ c.limit
  let_through-quota room t = elim (Bool-cases (ltb t x)) [
    | inl early ↦ omega (
      arith,
      in_window-append c.window_ms t past (x ∷ []),
      in_window-ahead c.window_ms t (x ∷ []) (ltb→lt t x early, tt),
      k.quota t,
    )
    | inr late ↦
        let (g, e, all) = evicted in
        let after : x ≤ t = ground arith in
        omega (
          arith,
          ap (λ l. in_window c.window_ms t (l ++ x ∷ [])) e,
          ap (in_window c.window_ms t) (append_assoc g (kept c x) (x ∷ [])),
          in_window-append c.window_ms t g (kept c x ++ x ∷ []),
          in_window-gone c.window_ms t g (All-map (λ y h. omega arith) g all),
          in_window-le c.window_ms t (kept c x ++ x ∷ []),
          length-append {0} (kept c x) (x ∷ []),
        )
  ]

  let_through-Kept : length (kept c x) < c.limit → Kept (let_through c x) x (past ++ x ∷ [])
  let_through-Kept room =
      let (g, e, all) = evicted in
      record {
        gone = g;
        split = ap (λ l. l ++ x ∷ []) e ∙ append_assoc g (kept c x) (x ∷ []);
        old = all;
        quota = let_through-quota room;
      }

admitted-quota :
    (c : Counter) (now : ℕ) (past ts : List ℕ)
    → Kept c now past
    → Rising now ts
    → (t : ℕ) → in_window c.window_ms t (past ++ admitted c ts) ≤ c.limit
unfolding admitted allow
admitted-quota c now past [] k r t = rw (append-nil past) (k.quota t)
admitted-quota c now past (x ∷ ts) k r t = elim (Bool-cases (ltb (length (kept c x)) c.limit)) [
  | inl room ↦ rw room (
      subst (λ l. in_window c.window_ms t l ≤ c.limit)
        (append_assoc past (x ∷ []) (admitted (let_through c x) ts))
        (admitted-quota (let_through c x) x (past ++ x ∷ []) ts
          (let_through-Kept c now x past k r.0 (ltb→lt (length (kept c x)) c.limit room)) r.1 t))
  | inr full ↦
      rw full
        (admitted-quota (turned_away c x) x past ts (turned_away-Kept c now x past k r.0) r.1 t)
]

-- However the requests are spread, as long as time does not go back, every window of the configured
-- length, wherever it begins, holds at most `limit` requests that were let through.
pub window_quota :
    (limit window_ms : ℕ) (times : List ℕ)
    → Rising 0 times
    → (t : ℕ) → in_window window_ms t (admitted (new limit window_ms) times) ≤ limit
unfolding new in_window
window_quota limit window_ms times r t =
    admitted-quota (new limit window_ms) 0 [] times
      (record { gone = []; split = refl; old = tt; quota = λ u. omega arith }) r t
