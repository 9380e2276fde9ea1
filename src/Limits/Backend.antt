-- ===== src/Limits/Backend.antt =====
-- `InMemoryBackend` of src/rra/api/rate_limiter.py. Times are whole numbers of ticks, of which a second
-- has a million; its lock is left out, since requests are handled one after another.
use rra_module.Prelude.{
  ℕ, ◌+◌, ◌*◌, none, some, List, [], ◌∷◌, ◌++◌, Text, text_key, ltb, length, select,
}
use rra_module.Prelude.Dict.{Dict, lookup, insert}

unfoldable pub second : ℕ
second = 1000000

-- 86400 seconds.
unfoldable pub day : ℕ
unfolding second
day = 86400 * second

-- A token count with the time of its last update, and the times of the counted requests.
pub record Backend : Type 0 where
  pub tokens : Dict Text (ℕ × ℕ)
  pub counters : Dict Text (List ℕ)

unfoldable pub new_backend : Backend
new_backend = record { tokens = []; counters = [] }

unfoldable pub get_tokens : Text → Backend → ℕ × ℕ
get_tokens key b = elim (lookup key b.tokens) [ none ↦ (0, 0) | some entry ↦ entry ]

unfoldable pub set_tokens : Text → ℕ → ℕ → Backend → Backend
set_tokens key tokens timestamp b = record b { tokens = insert key (tokens, timestamp) b.tokens }

-- `self._counters[key]`, once an empty list stands there if there was none.
abbrev pub counted : Text → Dict Text (List ℕ) → List ℕ
counted key d = elim (lookup key d) [ none ↦ [] | some times ↦ times ]

-- `[t for t in times if t > now - window]`, with the window in ticks.
abbrev pub recent : ℕ → ℕ → List ℕ → List ℕ
recent now window times = select (λ t. ltb now (t + window)) times

-- The window is in seconds.
unfoldable pub increment_counter : Text → ℕ → ℕ → Backend → Backend × ℕ
unfolding second
increment_counter key window now b =
    let times = recent now (window * second) (counted key b.counters) ++ now ∷ [] in
    (record b { counters = insert key times b.counters }, length times)

-- A counter with no times left is deleted.
abbrev pub keep : Text → List ℕ → Dict Text (List ℕ) → Dict Text (List ℕ)
keep key [] d = d
keep key (t ∷ times) d = (key, t ∷ times) ∷ d

-- The loop of `cleanup` over the counters.
unfoldable pub prune : ℕ → Dict Text (List ℕ) → Dict Text (List ℕ)
unfolding day
prune now [] = []
prune now ((key, times) ∷ d) = keep key (recent now day times) (prune now d)

unfoldable pub cleanup : ℕ → Backend → Backend
unfolding day prune
cleanup now b = record {
  tokens = select (λ (e : Text × (ℕ × ℕ)). ltb now (e.1.1 + day)) b.tokens;
  counters = prune now b.counters;
}
