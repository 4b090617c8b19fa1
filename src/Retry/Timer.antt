-- ===== src/Retry/Timer.antt =====
-- retry.go, retry-continous.go: the goroutines of the two timers, as steps.
use mefs_sdk_go.Prelude.{
  ℕ, zero, suc, ◌+◌, ◌-◌, ◌*◌, ◌≤◌, ◌<◌, List, [], ◌∷◌, length, ltb, if◌then◌else◌, ◌≡◌, refl, ap,
  arith, Option, none, some, Bool-cases, inl, inr, ltb→lt, ◌⊎◌, ◌⊎◌,
}

-- The timer offers an attempt, sleeps after it, or has closed its channel.
pub data TimerState : Type 0 where
  offering sleeping : ℕ → TimerState
  closed : TimerState

-- the test of the loop of newRetryTimer
unfoldable pub next_round : ℕ → ℕ → TimerState
next_round max_retry i = if ltb i max_retry then offering i else closed

-- A step of newRetryTimer, with the attempt that it sends, if any.
pub data RetryStep (max_retry : ℕ) : TimerState → Option ℕ → TimerState → Type 0 where
  sent : (i : ℕ) → RetryStep max_retry (offering i) (some (i + 1)) (sleeping i)
  stopped : (i : ℕ) → RetryStep max_retry (offering i) none closed
  woken : (i : ℕ) → RetryStep max_retry (sleeping i) none (next_round max_retry (i + 1))

abbrev pub sent_attempts : Option ℕ → List ℕ → List ℕ
sent_attempts none l = l
sent_attempts (some n) l = n ∷ l

-- A run of `steps` steps, and what it sends.
pub data RetryRun (max_retry : ℕ) : TimerState → ℕ → List ℕ → TimerState → Type 0 where
  here : (s : TimerState) → RetryRun max_retry s 0 [] s
  step :
      {s t u : TimerState} {o : Option ℕ} {steps : ℕ} {l : List ℕ}
      → RetryStep max_retry s o t
      → RetryRun max_retry t steps l u
      → RetryRun max_retry s (suc steps) (sent_attempts o l) u

abbrev pub start : ℕ → TimerState
start max_retry = next_round max_retry 0

-- The numbers from `i + 1` on, `n` of them.
abbrev pub numbers : ℕ → ℕ → List ℕ
numbers i zero = []
numbers i (suc n) = (i + 1) ∷ numbers (i + 1) n

-- How many steps are left at most.
abbrev budget : ℕ → TimerState → ℕ
budget max_retry (offering i) = 2 * (max_retry - i)
budget max_retry (sleeping i) = 2 * (max_retry - i) - 1
budget max_retry closed = 0

-- The attempts before the state, which are at most the number of retries.
abbrev IsBelow : ℕ → TimerState → Type 0
IsBelow max_retry (offering i) = i < max_retry
IsBelow max_retry (sleeping i) = i < max_retry
IsBelow max_retry closed = Unit

next_round-IsBelow : (max_retry i : ℕ) → IsBelow max_retry (next_round max_retry i)
unfolding next_round
next_round-IsBelow max_retry i = elim (Bool-cases (ltb i max_retry)) [
  | inl e ↦ rw (e, next_round) (ltb→lt i max_retry e)
  | inr f ↦ rw (f, next_round) tt
]

step-IsBelow :
    (max_retry : ℕ) (s t : TimerState) (o : Option ℕ)
    → RetryStep max_retry s o t
    → IsBelow max_retry s
    → IsBelow max_retry t
step-IsBelow max_retry _ _ _ (sent i) h = h
step-IsBelow max_retry _ _ _ (stopped i) h = tt
step-IsBelow max_retry _ _ _ (woken i) h = next_round-IsBelow max_retry (i + 1)

budget-next_round :
    (max_retry i : ℕ) → budget max_retry (next_round max_retry i) ≤ 2 * (max_retry - i)
unfolding next_round
budget-next_round max_retry i = elim (Bool-cases (ltb i max_retry)) [
  | inl e ↦ rw (e, next_round) (omega arith)
  | inr f ↦ rw (f, next_round) (omega arith)
]

step_budget :
    (max_retry : ℕ) (s t : TimerState) (o : Option ℕ)
    → RetryStep max_retry s o t
    → IsBelow max_retry s
    → budget max_retry t < budget max_retry s
step_budget max_retry _ _ _ (sent i) h = omega arith
step_budget max_retry _ _ _ (stopped i) h = omega arith
step_budget max_retry _ _ _ (woken i) h = omega (arith, budget-next_round max_retry (i + 1))

run_budget :
    (max_retry steps : ℕ) (s u : TimerState) (l : List ℕ)
    → RetryRun max_retry s steps l u
    → IsBelow max_retry s
    → steps + budget max_retry u ≤ budget max_retry s
run_budget max_retry _ s _ _ (here _) h = omega arith
run_budget max_retry _ s u _ (step {t = t} {o = o} one rest) h = omega (
  arith,
  step_budget max_retry s t o one h,
  run_budget max_retry _ t u _ rest (step-IsBelow max_retry s t o one h),
)

-- What a run from a state sends: the numbers that follow.
abbrev Numbered : TimerState → List ℕ → Type 0
Numbered (offering i) l = l ≡ numbers i (length l)
Numbered (sleeping i) l = l ≡ numbers (i + 1) (length l)
Numbered closed l = l ≡ []

nothing-Numbered : (s : TimerState) → Numbered s []
nothing-Numbered (offering i) = refl
nothing-Numbered (sleeping i) = refl
nothing-Numbered closed = refl

woken-Numbered :
    (max_retry i : ℕ) (l : List ℕ)
    → Numbered (next_round max_retry (i + 1)) l
    → Numbered (sleeping i) l
unfolding next_round
woken-Numbered max_retry i l = elim (Bool-cases (ltb (i + 1) max_retry)) [
  | inl e ↦ rw (e, next_round) (λ h. h)
  | inr f ↦ rw (f, next_round) (λ h. rw h refl)
]

step-Numbered :
    (max_retry : ℕ) (s t : TimerState) (o : Option ℕ) (l : List ℕ)
    → RetryStep max_retry s o t
    → Numbered t l
    → Numbered s (sent_attempts o l)
step-Numbered max_retry _ _ _ l (sent i) h = ap (λ r. (i + 1) ∷ r) h
step-Numbered max_retry _ _ _ l (stopped i) h = rw h refl
step-Numbered max_retry _ _ _ l (woken i) h = woken-Numbered max_retry i l h

run-Numbered :
    (max_retry steps : ℕ) (s u : TimerState) (l : List ℕ)
    → RetryRun max_retry s steps l u
    → Numbered s l
run-Numbered max_retry _ s _ _ (here _) = nothing-Numbered s
run-Numbered max_retry _ s u _ (step {t = t} {o = o} {l = l} one rest) =
    step-Numbered max_retry s t o l one (run-Numbered max_retry _ t u l rest)

-- How many attempts are left at most.
abbrev room : ℕ → TimerState → ℕ
room max_retry (offering i) = max_retry - i
room max_retry (sleeping i) = max_retry - (i + 1)
room max_retry closed = 0

woken_room : (max_retry i : ℕ) → room max_retry (next_round max_retry (i + 1)) ≤ max_retry - (i + 1)
unfolding next_round
woken_room max_retry i = elim (Bool-cases (ltb (i + 1) max_retry)) [
  | inl e ↦ rw (e, next_round) (omega arith)
  | inr f ↦ rw (f, next_round) (omega arith)
]

step_room :
    (max_retry : ℕ) (s t : TimerState) (o : Option ℕ) (l : List ℕ)
    → RetryStep max_retry s o t
    → IsBelow max_retry s
    → length l ≤ room max_retry t
    → length (sent_attempts o l) ≤ room max_retry s
step_room max_retry _ _ _ l (sent i) b h = omega arith
step_room max_retry _ _ _ l (stopped i) b h = omega arith
step_room max_retry _ _ _ l (woken i) b h = omega (arith, woken_room max_retry i)

run_room :
    (max_retry steps : ℕ) (s u : TimerState) (l : List ℕ)
    → RetryRun max_retry s steps l u
    → IsBelow max_retry s
    → length l ≤ room max_retry s
run_room max_retry _ s _ _ (here _) h = omega arith
run_room max_retry _ s u _ (step {t = t} {o = o} {l = l} one rest) h =
    step_room max_retry s t o l one h
      (run_room max_retry _ t u l rest (step-IsBelow max_retry s t o one h))

-- A timer that has not closed its channel can go on.
goes_on :
    (max_retry : ℕ) (s : TimerState)
    → (s ≡ closed) ⊎ ((o : Option ℕ) × (t : TimerState) × RetryStep max_retry s o t)
goes_on max_retry (offering i) = inr (some (i + 1), sleeping i, sent i)
goes_on max_retry (sleeping i) = inr (none, next_round max_retry (i + 1), woken i)
goes_on max_retry closed = inl refl

start_budget : (max_retry : ℕ) → budget max_retry (start max_retry) ≤ 2 * max_retry
start_budget max_retry = omega (arith, budget-next_round max_retry 0)

start_sends :
    (max_retry : ℕ) (l : List ℕ)
    → Numbered (start max_retry) l
    → length l ≤ room max_retry (start max_retry)
    → (l ≡ numbers 0 (length l)) × (length l ≤ max_retry)
unfolding next_round
start_sends max_retry l = elim (Bool-cases (ltb 0 max_retry)) [
  | inl e ↦ rw (e, next_round) (λ h k. (h, omega arith))
  | inr f ↦ rw (f, next_round) (λ h k. (rw h refl, omega arith))
]

-- Every run of the retry timer ends within twice as many steps as there are retries: it sends the
-- attempts 1, 2 and so on, without a gap and no more than the number of retries, and as long as it has
-- not closed its channel it can make another step.
pub RetryRun-ends :
    (max_retry steps : ℕ) (l : List ℕ) (u : TimerState)
    → RetryRun max_retry (start max_retry) steps l u
    → (steps ≤ 2 * max_retry)
      × (l ≡ numbers 0 (length l))
      × (length l ≤ max_retry)
      × ((u ≡ closed) ⊎ ((o : Option ℕ) × (t : TimerState) × RetryStep max_retry u o t))
RetryRun-ends max_retry steps l u run =
    let below = next_round-IsBelow max_retry 0 in
    let (numbered, few) =
      start_sends max_retry l (run-Numbered max_retry steps _ u l run)
        (run_room max_retry steps _ u l run below) in
    (
      omega (arith, run_budget max_retry steps _ u l run below, start_budget max_retry),
      numbered,
      few,
      goes_on max_retry u,
    )
