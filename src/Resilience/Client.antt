-- ===== src/Resilience/Client.antt =====
-- The queue and the client of src/rra/integration/network_resilience.py. A call is a method with its
-- arguments, whose values that JSON cannot hold are replaced by `sanitize`. What the service does is an
-- argument, for each attempt; the copy of the queue on disk is left out.
use rra_module.Prelude.{
  ℕ, zero, suc, ◌+◌, Bool, true, false, not, Option, none, some, List, [], ◌∷◌, ◌++◌, Text, ltb,
  leb, if◌then◌else◌, ◌==◌, text_key, length,
}
use rra_module.Resilience.Breaker.{CircuitBreaker, record_success, record_failure, allow_request}

pub record QueuedRequest (A : Type 0) : Type 0 where
  pub id : Text
  pub call : A
  pub created_at : Text
  pub attempts : ℕ
  pub last_error : Option Text

pub record RequestQueue (A : Type 0) : Type 0 where
  pub max_size : ℕ
  pub queue : List (QueuedRequest A)

module _ {A : Type 0} where
  -- `queue.pop(0)`; on an empty list it raises an IndexError.
  abbrev pub pop_first : List (QueuedRequest A) → Option (List (QueuedRequest A))
  pop_first [] = none
  pop_first (r ∷ rs) = some rs

  -- `none` where the call raises, which it does if nothing may be queued.
  unfoldable pub enqueue : (A → A) → Text → Text → A → RequestQueue A → Option (RequestQueue A)
  enqueue sanitize id now call q =
      let request : QueuedRequest A = record {
        id = id;
        call = sanitize call;
        created_at = now;
        attempts = 0;
        last_error = none;
      } in
      if leb q.max_size (length q.queue)
      then elim (pop_first q.queue) [
        | none ↦ none
        | some rest ↦ some (record q { queue = rest ++ request ∷ [] })
      ]
      else some (record q { queue = q.queue ++ request ∷ [] })

  unfoldable pub dequeue : RequestQueue A → RequestQueue A × Option (QueuedRequest A)
  dequeue q = elim q.queue [ [] ↦ (q, none) | r ∷ rs ↦ (record q { queue = rs }, some r) ]

  unfoldable pub peek : RequestQueue A → Option (QueuedRequest A)
  peek q = elim q.queue [ [] ↦ none | r ∷ rs ↦ some r ]

  abbrev pub fail_first : Text → Text → List (QueuedRequest A) → List (QueuedRequest A)
  fail_first id why [] = []
  fail_first id why (r ∷ rs) =
      if r.id == id
      then record r { attempts = r.attempts + 1; last_error = some why } ∷ rs
      else r ∷ fail_first id why rs

  unfoldable pub mark_failed : Text → Text → RequestQueue A → RequestQueue A
  mark_failed id why q = record q { queue = fail_first id why q.queue }

  abbrev pub is_queued : Text → List (QueuedRequest A) → Bool
  is_queued id [] = false
  is_queued id (r ∷ rs) = if r.id == id then true else is_queued id rs

  abbrev pub remove_first : Text → List (QueuedRequest A) → List (QueuedRequest A)
  remove_first id [] = []
  remove_first id (r ∷ rs) = if r.id == id then rs else r ∷ remove_first id rs

  unfoldable pub remove : Text → RequestQueue A → RequestQueue A × Bool
  remove id q = (record q { queue = remove_first id q.queue }, is_queued id q.queue)

  unfoldable pub clear : RequestQueue A → RequestQueue A
  clear q = record q { queue = [] }

-- What one attempt at the service does: it returns, or raises an exception of those that are tried
-- again, or another one.
pub data Reply (B : Type 0) : Type 0 where
  returned : B → Reply B
  raised : Text → Reply B
  escaped : Text → Reply B

-- What `execute` does: it returns a pair, or raises.
pub data Outcome (B : Type 0) : Type 0 where
  succeeded : B → Outcome B
  queued : Text → Option Text → Outcome B
  failed : Option Text → Outcome B
  circuit_open index_error : Outcome B
  propagated : Text → Outcome B

-- The client object itself is what the replies come from.
pub record ResilientClient (A : Type 0) : Type 0 where
  pub max_retries : ℕ
  pub fallback_urls : List Text
  pub current_url_index : ℕ
  pub circuit_breaker : CircuitBreaker
  pub queue : Option (RequestQueue A)

module _ {A : Type 0} where
  unfoldable pub switch_to_fallback : ResilientClient A → ResilientClient A × Bool
  switch_to_fallback c =
      if ltb c.current_url_index (length c.fallback_urls)
      then (record c { current_url_index = c.current_url_index + 1 }, true)
      else (c, false)

module _ {A B : Type 0} where
  -- The loop over the attempts, of which `left` remain; `clock` gives the time of each, and `error` is
  -- the last one. It gives the last error where no attempt returned.
  unfoldable pub attempt_all :
      (ℕ → ℕ)
      → (ℕ → Reply B)
      → ℕ
      → ℕ
      → Option Text
      → ResilientClient A
      → ResilientClient A × Option (Outcome B) × Option Text
  unfolding record_success record_failure switch_to_fallback
  attempt_all clock service zero attempt error c = (c, none, error)
  attempt_all clock service (suc left) attempt error c = elim (service attempt) [
    | returned v ↦
        (record c { circuit_breaker = record_success c.circuit_breaker }, some (succeeded v), error)
    | escaped why ↦ (c, some (propagated why), error)
    | raised why ↦
        let c' = record c { circuit_breaker = record_failure (clock attempt) c.circuit_breaker } in
        attempt_all clock service left (suc attempt) (some why)
          (elim left [ zero ↦ c' | suc l ↦ (switch_to_fallback c').0 ])
  ]

  -- `if queue_on_failure and self.queue: ...`, and what is done else.
  unfoldable pub put_off :
      (A → A)
      → Text
      → Text
      → A
      → Bool
      → Option Text
      → Outcome B
      → ResilientClient A
      → ResilientClient A × Outcome B
  unfolding enqueue
  put_off sanitize id now call queue_on_failure error otherwise c =
      if queue_on_failure
      then elim c.queue [
        | none ↦ (c, otherwise)
        | some q ↦ elim (enqueue sanitize id now call q) [
          | none ↦ (c, index_error)
          | some q' ↦ (record c { queue = some q' }, queued id error)
        ]
      ]
      else (c, otherwise)

  -- `execute`, and `execute_async`, which does the same on a method that it awaits; `id` is the
  -- identifier drawn if the request is queued.
  unfoldable pub execute :
      (A → A)
      → Text
      → Text
      → A
      → Bool
      → ℕ
      → (ℕ → ℕ)
      → (ℕ → Reply B)
      → ResilientClient A
      → ResilientClient A × Outcome B
  execute sanitize id now_text call queue_on_failure now clock service c =
      let (b, allowed) = allow_request now c.circuit_breaker in
      let c' = record c { circuit_breaker = b } in
      if not allowed
      then put_off sanitize id now_text call queue_on_failure none circuit_open c'
      else let tried = attempt_all clock service (c.max_retries + 1) 0 none c' in
        elim tried.1 [
          | some o ↦ (tried.0, o)
          | none ↦
              put_off sanitize id now_text call queue_on_failure tried.2 (failed tried.2) tried.0
        ]

  -- One round of `process_queue`, and what it appends to the results; `none` where the loop ends.
  unfoldable pub process_next :
      ℕ → Reply B → RequestQueue A → ResilientClient A → ResilientClient A × Option (Text × Bool)
  unfolding peek remove mark_failed
  process_next now reply q c = elim (peek q) [
    | none ↦ (c, none)
    | some r ↦
        let (b, allowed) = allow_request now c.circuit_breaker in
        if not allowed
        then (record c { circuit_breaker = b }, none)
        else if leb 5 r.attempts
        then (record c { circuit_breaker = b; queue = some (remove r.id q).0 }, some (r.id, false))
        else elim reply [
          | returned v ↦ (
            record c { circuit_breaker = record_success b; queue = some (remove r.id q).0 },
            some (r.id, true),
          )
          | raised why ↦ (
            record c {
              circuit_breaker = record_failure now b;
              queue = some (mark_failed r.id why q);
            },
            some (r.id, false),
          )
          | escaped why ↦ (
            record c {
              circuit_breaker = record_failure now b;
              queue = some (mark_failed r.id why q);
            },
            some (r.id, false),
          )
        ]
  ]

  -- `process_queue`, of whose `max_items` rounds `left` remain.
  unfoldable pub process_queue :
      (ℕ → ℕ) → (ℕ → Reply B) → ℕ → ℕ → ResilientClient A → ResilientClient A × List (Text × Bool)
  unfolding process_next
  process_queue clock service zero processed c = (c, [])
  process_queue clock service (suc left) processed c = elim c.queue [
    | none ↦ (c, [])
    | some q ↦ elim (process_next (clock processed) (service processed) q c).1 [
      | none ↦ ((process_next (clock processed) (service processed) q c).0, [])
      | some r ↦
          let rest =
            process_queue clock service left (suc processed)
              (process_next (clock processed) (service processed) q c).0 in
          (rest.0, r ∷ rest.1)
    ]
  ]
