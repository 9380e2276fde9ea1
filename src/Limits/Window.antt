-- ===== src/Limits/Window.antt =====
-- `SlidingWindowLimiter.check` of src/rra/api/rate_limiter.py over a run of requests and cleanups.
use mathlib.Core.Path.{ap₂}
use rra_module.Prelude.{
  ℕ, ◌+◌, ◌*◌, ◌≤◌, ◌≡◌, refl, sym, subst, Bool, ◌&&◌, inl, inr, List, [], ◌∷◌, ◌++◌, arith, Text,
  text_key, ◌==◌, ltb, leb, if◌then◌else◌, length, max, Bool-cases,
}
use rra_module.Limits.Backend.{
  second, day, Backend, new_backend, recent, increment_counter, cleanup,
}
use rra_module.Limits.Limiters.{Verdict, SlidingWindowLimiter, verdict, check}
use rra_module.Limits.Counting.{
  times_of, Remembers, Remembers-weaken, new_backend-Remembers, increment_counter-Remembers,
  increment_counter-count, cleanup-Remembers,
}

pub data Event : Type 0 where
  request : Text → ℕ → Event
  clean : ℕ → Event

abbrev pub time_of : Event → ℕ
time_of (request key now) = now
time_of (clean now) = now

-- The times do not decrease.
abbrev pub AreAfter : ℕ → List Event → Type 0
AreAfter now [] = Unit
AreAfter now (e ∷ events) = (now ≤ time_of e) × AreAfter (time_of e) events

-- The answers to the requests.
unfoldable pub run : SlidingWindowLimiter → List Event → Backend → List Verdict
unfolding check cleanup
run l [] b = []
run l (request key now ∷ events) b = let (b', v) = check l key now b in v ∷ run l events b'
run l (clean now ∷ events) b = run l events (cleanup now b)

-- The answers of a limiter that keeps every request and counts those in the window.
abbrev pub ideal_run : SlidingWindowLimiter → List Event → List (Text × ℕ) → List Verdict
unfolding second
ideal_run l [] requests = []
ideal_run l (request key now ∷ events) requests =
    verdict l (length (recent now (l.window * second) (times_of key requests)) + 1)
    ∷ ideal_run l events (requests ++ (key, now) ∷ [])
ideal_run l (clean now ∷ events) requests = ideal_run l events requests

run-ideal_run_from :
    (l : SlidingWindowLimiter) (now : ℕ) (events : List Event) (requests : List (Text × ℕ))
    (b : Backend)
    → l.window * second ≤ day
    → AreAfter now events
    → Remembers (l.window * second) now requests b
    → run l events b ≡ ideal_run l events requests
unfolding run second check cleanup
run-ideal_run_from l now [] requests b w h k = refl
run-ideal_run_from l now (request key t ∷ events) requests b w h k =
    let k' = Remembers-weaken (l.window * second) now t requests b h.0 k in
    ap₂ (λ n rest. verdict l n ∷ rest) (increment_counter-count l.window t key requests b k')
      (run-ideal_run_from l t events (requests ++ (key, t) ∷ [])
        (increment_counter key l.window t b).0 w h.1
        (increment_counter-Remembers l.window t key requests b k'))
run-ideal_run_from l now (clean t ∷ events) requests b w h k =
    run-ideal_run_from l t events requests (cleanup t b) w h.1 (
      cleanup-Remembers (l.window * second) t requests b w
        (Remembers-weaken (l.window * second) now t requests b h.0 k))

-- Over such a run, a sliding window of at most a day gives the same answers as one that keeps
-- every request for good and counts those of the key in the window: what the requests and the
-- cleanups throw away is never missed.
pub run-ideal_run :
    (l : SlidingWindowLimiter) (events : List Event)
    → l.window ≤ 86400
    → AreAfter 0 events
    → run l events new_backend ≡ ideal_run l events []
unfolding second day
run-ideal_run l events w h =
    run-ideal_run_from l 0 events [] new_backend (omega arith) h (new_backend-Remembers _ 0)

-- The time is one from which the look back over the window still sees t.
abbrev pub sees : ℕ → ℕ → ℕ → Bool
sees window now t = leb t now && ltb now (t + window)

-- How many requests of the key in the window were let through.
abbrev pub let_through : ℕ → Text → ℕ → List Event → List Verdict → ℕ
let_through window key now [] answers = 0
let_through window key now (request j t ∷ events) [] = 0
let_through window key now (request j t ∷ events) (v ∷ answers) =
    (if (j == key) && (sees window now t && v.allowed) then 1 else 0)
    + let_through window key now events answers
let_through window key now (clean t ∷ events) answers = let_through window key now events answers

abbrev within : ℕ → Text → ℕ → List (Text × ℕ) → ℕ
within window key now [] = 0
within window key now ((j, t) ∷ requests) =
    (if (j == key) && sees window now t then 1 else 0) + within window key now requests

within-append :
    (window : ℕ) (key : Text) (now : ℕ) (xs ys : List (Text × ℕ))
    → within window key now (xs ++ ys) ≡ within window key now xs + within window key now ys
within-append window key now [] ys = omega arith
within-append window key now ((j, t) ∷ xs) ys = omega (arith, within-append window key now xs ys)

within-le_recent :
    (window : ℕ) (key : Text) (now t : ℕ) (requests : List (Text × ℕ))
    → t ≤ now
    → within window key now requests ≤ length (recent t window (times_of key requests))
within-le_recent window key now t [] h = omega arith
within-le_recent window key now t ((j, s) ∷ requests) h =
    ground (arith, within-le_recent window key now t requests h)

ideal_run-let_through :
    (l : SlidingWindowLimiter) (key : Text) (now : ℕ) (events : List Event)
    (requests : List (Text × ℕ))
    → within (l.window * second) key now requests
        + let_through (l.window * second) key now events (ideal_run l events requests)
      ≤ max l.limit (within (l.window * second) key now requests)
unfolding second
ideal_run-let_through l key now [] requests = ground arith
ideal_run-let_through l key now (clean t ∷ events) requests =
    ideal_run-let_through l key now events requests
ideal_run-let_through l key now (request j t ∷ events) requests =
    let rest = ideal_run-let_through l key now events (requests ++ (j, t) ∷ []) in
    let split = within-append (l.window * second) key now requests ((j, t) ∷ []) in
    elim (Bool-cases (j == key)) [
      | inl hit ↦ elim (Bool-cases (sees (l.window * second) now t)) [
        | inl seen ↦
            let before : t ≤ now = ground (arith, seen) in
            let e : j ≡ key = (text_key.same_iff j key).0 hit in
            let fits : within (l.window * second) key now requests
                ≤ length (recent t (l.window * second) (times_of j requests)) =
              subst
                (λ k.
                  within (l.window * second) key now requests
                  ≤ length (recent t (l.window * second) (times_of k requests)))
                (sym e) (within-le_recent (l.window * second) key now t requests before) in
            ground (arith, hit, seen, fits, rest, split)
        | inr missed ↦ ground (arith, hit, missed, rest, split)
      ]
      | inr miss ↦ ground (arith, miss, rest, split)
    ]

-- Over any run of requests and cleanups from an empty backend, at times that do not decrease, a
-- sliding window of at most a day lets at most its limit of requests of one key through in
-- every stretch of time as long as the window.
pub run-let_through :
    (l : SlidingWindowLimiter) (key : Text) (now : ℕ) (events : List Event)
    → l.window ≤ 86400
    → AreAfter 0 events
    → let_through (l.window * second) key now events (run l events new_backend) ≤ l.limit
unfolding second
run-let_through l key now events w h =
    rw (run-ideal_run l events w h)
      (let bound = ideal_run-let_through l key now events [] in omega (arith, bound))
