-- ===== src/Limits/Counting.antt =====
-- What the backend of src/rra/api/rate_limiter.py keeps of the requests that it has counted.
use mathlib.Core.List.{append-nil}
use rra_module.Prelude.{
  ℕ, ◌+◌, ◌*◌, ◌≡◌, refl, ◌∙◌, ap, sym, subst, true, false, ◌≤◌, inl, inr, none, List, [], ◌∷◌,
  ◌++◌, length-append, arith, Text, text_key, ◌==◌, if◌then◌else◌, length, Bool-cases,
}
use rra_module.Prelude.Dict.{Dict, lookup, insert, IsNodup, lookup-insert, insert-IsNodup}
use rra_module.Limits.Backend.{
  second, day, Backend, new_backend, counted, recent, keep, increment_counter, prune, cleanup,
}

recent-append :
    (now window : ℕ) (xs ys : List ℕ)
    → recent now window (xs ++ ys) ≡ recent now window xs ++ recent now window ys
recent-append now window [] ys = refl
recent-append now window (x ∷ xs) ys = ground (arith, recent-append now window xs ys)

-- A later and shorter look at the times is not changed by an earlier and longer one.
recent-recent :
    (now now' window window' : ℕ) (times : List ℕ)
    → now ≤ now'
    → window' ≤ window
    → recent now' window' (recent now window times) ≡ recent now' window' times
recent-recent now now' window window' [] h k = refl
recent-recent now now' window window' (t ∷ times) h k =
    ground (arith, recent-recent now now' window window' times h k)

abbrev pub times_of : Text → List (Text × ℕ) → List ℕ
times_of key [] = []
times_of key ((j, t) ∷ requests) =
    if j == key then t ∷ times_of key requests else times_of key requests

times_of-append :
    (key : Text) (xs ys : List (Text × ℕ))
    → times_of key (xs ++ ys) ≡ times_of key xs ++ times_of key ys
times_of-append key [] ys = refl
times_of-append key ((j, t) ∷ xs) ys = ground (arith, times_of-append key xs ys)

-- From `now` on, nobody who looks back over the window can tell the times kept from those of all
-- requests.
abbrev pub Remembers : ℕ → ℕ → List (Text × ℕ) → Backend → Type 0
Remembers window now requests b =
    IsNodup b.counters
    × ((key : Text) (later : ℕ)
        → now ≤ later
        → recent later window (counted key b.counters)
          ≡ recent later window (times_of key requests))

pub Remembers-weaken :
    (window now now' : ℕ) (requests : List (Text × ℕ)) (b : Backend)
    → now ≤ now'
    → Remembers window now requests b
    → Remembers window now' requests b
Remembers-weaken window now now' requests b le h = (h.0, λ key later k. h.1 key later (omega arith))

pub new_backend-Remembers : (window now : ℕ) → Remembers window now [] new_backend
unfolding new_backend
new_backend-Remembers window now = (tt, λ key later h. refl)

pub counted-insert :
    (j key : Text) (times : List ℕ) (d : Dict Text (List ℕ))
    → counted key (insert j times d) ≡ (if j == key then times else counted key d)
counted-insert j key times d = ground (arith, lookup-insert key j times d)

recent-append_recent :
    (now later window : ℕ) (xs ys : List ℕ)
    → now ≤ later
    → recent later window (recent now window xs ++ ys)
      ≡ recent later window xs ++ recent later window ys
recent-append_recent now later window xs ys le =
    rw
      (
        recent-append later window (recent now window xs) ys,
        recent-recent now later window window xs le (omega arith),
      )
      refl

pub increment_counter-Remembers :
    (window now : ℕ) (key : Text) (requests : List (Text × ℕ)) (b : Backend)
    → Remembers (window * second) now requests b
    → Remembers
        (window * second)
        now
        (requests ++ (key, now) ∷ [])
        (increment_counter key window now b).0
unfolding increment_counter
increment_counter-Remembers window now key requests b h = (
  insert-IsNodup key _ b.counters h.0,
  λ j later le.
      rw
        (
          counted-insert key j (recent now (window * second) (counted key b.counters) ++ now ∷ [])
              b.counters,
          times_of-append j requests ((key, now) ∷ []),
          recent-append later (window * second) (times_of j requests)
              (times_of j ((key, now) ∷ [])),
        )
        (elim (Bool-cases (key == j)) [
          | inr miss ↦ rw miss (h.1 j later le ∙ sym (append-nil _))
          | inl hit ↦
              rw
                (
                  hit,
                  recent-append_recent now later (window * second) (counted key b.counters)
                      (now ∷ []) le,
                )
                (ap (λ times. times ++ recent later (window * second) (now ∷ []))
                  (subst
                    (λ i.
                      recent later (window * second) (counted key b.counters)
                      ≡ recent later (window * second) (times_of i requests))
                    ((text_key.same_iff key j).0 hit) (h.1 key later le)))
        ]),
)

pub increment_counter-count :
    (window now : ℕ) (key : Text) (requests : List (Text × ℕ)) (b : Backend)
    → Remembers (window * second) now requests b
    → (increment_counter key window now b).1
      ≡ length (recent now (window * second) (times_of key requests)) + 1
unfolding increment_counter
increment_counter-count window now key requests b h =
    rw (h.1 key now (omega arith)) (length-append _ (now ∷ []))

-- What a cleanup leaves of a counter.
counted-keep :
    (key : Text) (times : List ℕ) (d : Dict Text (List ℕ))
    → lookup key d ≡ none
    → counted key (keep key times d) ≡ times
counted-keep key [] d h = rw (counted, h) refl
counted-keep key (t ∷ times) d h = ground (arith, text_key.same_iff key key)

counted-first :
    (j key : Text) (times : List ℕ) (d : Dict Text (List ℕ))
    → (j == key) ≡ true
    → times ≡ counted key ((j, times) ∷ d)
counted-first j key times d h = ground arith

lookup-keep_ne :
    (j key : Text) (times : List ℕ) (d : Dict Text (List ℕ))
    → (j == key) ≡ false
    → lookup key (keep j times d) ≡ lookup key d
lookup-keep_ne j key [] d h = refl
lookup-keep_ne j key (t ∷ times) d h = rw h refl

lookup-prune-none :
    (now : ℕ) (key : Text) (d : Dict Text (List ℕ))
    → lookup key d ≡ none
    → lookup key (prune now d) ≡ none
unfolding prune
lookup-prune-none now key [] h = refl
lookup-prune-none now key ((j, times) ∷ d) h = elim (Bool-cases (j == key)) [
  | inl hit ↦ ground arith
  | inr miss ↦
      rw (lookup-keep_ne j key (recent now day times) (prune now d) miss)
        (lookup-prune-none now key d (rw miss at h))
]

counted-prune :
    (now : ℕ) (key : Text) (d : Dict Text (List ℕ))
    → IsNodup d
    → counted key (prune now d) ≡ recent now day (counted key d)
unfolding prune
counted-prune now key [] h = refl
counted-prune now key ((j, times) ∷ d) h = elim (Bool-cases (j == key)) [
  | inl hit ↦
      let e : j ≡ key = (text_key.same_iff j key).0 hit in
      ap (λ k. counted key (keep k (recent now day times) (prune now d))) e
      ∙ counted-keep key (recent now day times) (prune now d)
          (lookup-prune-none now key d (subst (λ k. lookup k d ≡ none) e h.0))
      ∙ ap (recent now day) (counted-first j key times d hit)
  | inr miss ↦ ground (
    arith,
    miss,
    lookup-keep_ne j key (recent now day times) (prune now d) miss,
    counted-prune now key d h.1,
  )
]

keep-IsNodup :
    (key : Text) (times : List ℕ) (d : Dict Text (List ℕ))
    → lookup key d ≡ none
    → IsNodup d
    → IsNodup (keep key times d)
keep-IsNodup key [] d h k = k
keep-IsNodup key (t ∷ times) d h k = (h, k)

prune-IsNodup : (now : ℕ) (d : Dict Text (List ℕ)) → IsNodup d → IsNodup (prune now d)
unfolding prune
prune-IsNodup now [] h = tt
prune-IsNodup now ((j, times) ∷ d) h =
    keep-IsNodup j (recent now day times) (prune now d) (lookup-prune-none now j d h.0)
      (prune-IsNodup now d h.1)

pub cleanup-Remembers :
    (window now : ℕ) (requests : List (Text × ℕ)) (b : Backend)
    → window ≤ day
    → Remembers window now requests b
    → Remembers window now requests (cleanup now b)
unfolding cleanup
cleanup-Remembers window now requests b within h = (
  prune-IsNodup now b.counters h.0,
  λ key later le.
      rw
        (
          counted-prune now key b.counters h.0,
          recent-recent now later day window (counted key b.counters) le within,
        )
        (h.1 key later le),
)
