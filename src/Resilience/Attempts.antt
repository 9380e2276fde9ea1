-- ===== src/Resilience/Attempts.antt =====
-- What `execute` of network_resilience.py guarantee.
use rra_module.Prelude.{
  ℕ, zero, suc, ◌+◌, ◌≤◌, ◌<◌, ◌≡◌, ◌≢◌, ◌↔◌, ◌⊎◌, refl, ◌∙◌, ap, sym, inl, inr, Bool, true, false,
  Option, none, some, arith, Text, ltb, Option-cases, Bool-cases,
}
use rra_module.Resilience.Breaker.{allow_request, record_failure}
use rra_module.Resilience.Client.{
  Reply, returned, raised, escaped, Outcome, succeeded, queued, failed, circuit_open, index_error,
  propagated, ResilientClient, enqueue, attempt_all, put_off, execute, switch_to_fallback,
}

module _ {B : Type 0} where
  pub Reply-cases :
      (r : Reply B)
      → ((v : B) × (r ≡ returned v))
        ⊎ ((why : Text) × (r ≡ raised why))
        ⊎ ((why : Text) × (r ≡ escaped why))
  Reply-cases (returned v) = inl (v, refl)
  Reply-cases (raised why) = inr (inl (why, refl))
  Reply-cases (escaped why) = inr (inr (why, refl))

  -- The attempts before the k-th, from `first` on, raise exceptions that are tried again.
  abbrev pub RaiseBefore : (ℕ → Reply B) → ℕ → ℕ → Type 0
  RaiseBefore service first k =
      (j : ℕ) → first ≤ j → j < k → (why : Text) × (service j ≡ raised why)

  abbrev pub Returns : (ℕ → Reply B) → ℕ → ℕ → B → Type 0
  Returns service left attempt v =
      (k : ℕ) × (attempt ≤ k)
      × (k < attempt + left)
      × (service k ≡ returned v)
      × RaiseBefore service attempt k

  -- A reply that is raised at the first attempt adds itself to those before the k-th.
  RaiseBefore-first :
      (service : ℕ → Reply B) (first k : ℕ) (why : Text)
      → service first ≡ raised why
      → RaiseBefore service (suc first) k
      → RaiseBefore service first k
  RaiseBefore-first service first k why e h j low high = elim (Bool-cases (ltb first j)) [
    | inl later ↦ h j (ground (arith, later)) high
    | inr now ↦ let same : j ≡ first = ground (arith, now) in (why, ap service same ∙ e)
  ]

module _ {A B : Type 0} (clock : ℕ → ℕ) (service : ℕ → Reply B) where
  -- The client at the next attempt.
  abbrev pub next_client : ℕ → ℕ → ResilientClient A → ResilientClient A
  unfolding record_failure
  next_client left attempt c =
      let c' = record c { circuit_breaker = record_failure (clock attempt) c.circuit_breaker } in
      elim left [ zero ↦ c' | suc l ↦ (switch_to_fallback c').0 ]

  attempt_all-succeeded :
      (left attempt : ℕ) (error : Option Text) (c : ResilientClient A) (v : B)
      → (attempt_all clock service left attempt error c).1 ≡ some (succeeded v)
      → Returns service left attempt v
  unfolding attempt_all
  attempt_all-succeeded zero attempt error c v h = cc
  attempt_all-succeeded (suc left) attempt error c v h = elim (Reply-cases (service attempt)) [
    | inl (w, e) ↦
        let got : some (succeeded w) ≡ some (succeeded v) = rw (e, attempt_all) at h in
        (
          attempt,
          omega arith,
          omega arith,
          e ∙ ground (arith, got),
          λ j low high. absurd (omega arith),
        )
    | inr (inr (why, e)) ↦
        let got : some (propagated why) ≡ some (succeeded v) = rw (e, attempt_all) at h in cc
    | inr (inl (why, e)) ↦
        let (k, low, high, back, before) =
          attempt_all-succeeded left (suc attempt) (some why) (next_client left attempt c) v
            (rw (e, attempt_all) at h) in
        (k, omega arith, omega arith, back, RaiseBefore-first service attempt k why e before)
  ]

  Returns-attempt_all :
      (left attempt : ℕ) (error : Option Text) (c : ResilientClient A) (v : B)
      → Returns service left attempt v
      → (attempt_all clock service left attempt error c).1 ≡ some (succeeded v)
  unfolding attempt_all
  Returns-attempt_all zero attempt error c v (k, low, high, back, before) = absurd (omega arith)
  Returns-attempt_all (suc left) attempt error c v (k, low, high, back, before) =
      elim (Bool-cases (ltb attempt k)) [
        | inr first ↦
            let same : attempt ≡ k = ground (arith, first) in
            rw (ap service same ∙ back, attempt_all) refl
        | inl later ↦
            let (why, e) = before attempt (omega arith) (ground (arith, later)) in
            rw (e, attempt_all)
              (Returns-attempt_all left (suc attempt) (some why) (next_client left attempt c) v (
                k,
                ground (arith, later),
                omega arith,
                back,
                λ j low' high'. before j (omega arith) high',
              ))
      ]

-- What is put off did not succeed.
put_off-fails :
    {A B : Type 0} (sanitize : A → A) (id now : Text) (call : A) (queue_on_failure : Bool)
    (error : Option Text) (otherwise : Outcome B) (c : ResilientClient A) (v : B)
    → otherwise ≢ succeeded v
    → (put_off sanitize id now call queue_on_failure error otherwise c).1 ≢ succeeded v
unfolding put_off
put_off-fails sanitize id now call false error otherwise c v ne h = ne h
put_off-fails sanitize id now call true error otherwise c v ne h = elim (Option-cases c.queue) [
  | inl none_kept ↦ ne (rw (none_kept, put_off) at h)
  | inr (q, kept) ↦ elim (Option-cases (enqueue sanitize id now call q)) [
    | inl no_place ↦ let got : index_error ≡ succeeded v = rw (kept, no_place, put_off) at h in cc
    | inr (q', placed) ↦
        let got : queued id error ≡ succeeded v = rw (kept, placed, put_off) at h in cc
  ]
]

module _ {A B : Type 0} (sanitize : A → A) (id now_text : Text) (call : A) (queue_on_failure : Bool)
    (now : ℕ) (clock : ℕ → ℕ) (service : ℕ → Reply B) (c : ResilientClient A) (v : B) where
  abbrev FirstReturn : Type 0
  FirstReturn = (k : ℕ) × (k ≤ c.max_retries) × (service k ≡ returned v) × RaiseBefore service 0 k

  abbrev admitted : ResilientClient A
  admitted = record c { circuit_breaker = (allow_request now c.circuit_breaker).0 }

  FirstReturn-execute :
      (allow_request now c.circuit_breaker).1 ≡ true
      → (execute sanitize id now_text call queue_on_failure now clock service c).1 ≡ succeeded v
      → FirstReturn
  unfolding execute
  FirstReturn-execute allowed h =
      let tried = attempt_all clock service (c.max_retries + 1) 0 none admitted in
      elim (Option-cases tried.1) [
        | inl none_back ↦ absurd (
            put_off-fails sanitize id now_text call queue_on_failure tried.2 (failed tried.2)
              tried.0 v (λ e. cc) (rw (allowed, none_back, execute) at h))
        | inr (o, back) ↦
            let got : o ≡ succeeded v = rw (allowed, back, execute) at h in
            let (k, low, high, here, before) =
              attempt_all-succeeded clock service (c.max_retries + 1) 0 none admitted v
                (back ∙ ap some got) in
            (k, omega arith, here, before)
      ]

  execute-FirstReturn :
      (allow_request now c.circuit_breaker).1 ≡ true
      → FirstReturn
      → (execute sanitize id now_text call queue_on_failure now clock service c).1 ≡ succeeded v
  unfolding execute
  execute-FirstReturn allowed (k, low, back, before) =
      rw
        (
          allowed,
          Returns-attempt_all clock service (c.max_retries + 1) 0 none admitted v
              (k, omega arith, omega arith, back, before),
          execute,
        )
        refl

-- A call of the client succeeds with a value exactly if the circuit breaker lets it through and one
-- of the first max_retries + 1 attempts returns the value, all attempts before it having raised
-- exceptions that are tried again.
pub execute-succeeded_iff :
    {A B : Type 0} (sanitize : A → A) (id now_text : Text) (call : A) (queue_on_failure : Bool)
    (now : ℕ) (clock : ℕ → ℕ) (service : ℕ → Reply B) (c : ResilientClient A) (v : B)
    → ((execute sanitize id now_text call queue_on_failure now clock service c).1 ≡ succeeded v) ↔ (
        ((allow_request now c.circuit_breaker).1 ≡ true)
        × ((k : ℕ) × (k ≤ c.max_retries) × (service k ≡ returned v) × RaiseBefore service 0 k))
unfolding execute
execute-succeeded_iff {A} {B} sanitize id now_text call queue_on_failure now clock service c v =
    let c' = record c { circuit_breaker = (allow_request now c.circuit_breaker).0 } in
    elim (Bool-cases (allow_request now c.circuit_breaker).1) [
      | inr refused ↦ (
        (λ h. absurd (
            put_off-fails sanitize id now_text call queue_on_failure none circuit_open c' v
              (λ e. cc) (rw (refused, execute) at h))),
        (λ (allowed, r). let both : true ≡ false = sym allowed ∙ refused in cc),
      )
      | inl allowed ↦ (
        (λ h. (
          allowed,
          FirstReturn-execute sanitize id now_text call queue_on_failure now clock service c v
              allowed h,
        )),
        (λ (same, found).
            execute-FirstReturn sanitize id now_text call queue_on_failure now clock service c v
              allowed found),
      )
    ]
