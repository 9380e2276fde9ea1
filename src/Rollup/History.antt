-- ===== src/Rollup/History.antt =====
-- Any sequence of calls on the sequencer of sequencer.py and the batch processor below it.
use rra_module.Prelude.{
  ℕ, zero, suc, ◌+◌, ◌-◌, ◌≤◌, ◌<◌, ◌≡◌, ◌≢◌, refl, ◌∙◌, sym, subst, inl, inr, some, List, [], ◌∷◌,
  ◌++◌, arith, length, length-append, get_elem?, Bool-cases, number_key, same_number,
  same_number_iff,
}
use rra_module.Prelude.Dict.{
  Dict, lookup, insert, lookup-insert_self, lookup-insert_ne, AllEntries, AllEntries-insert,
}
use rra_module.Rollup.Bytes.{Bytes}
use rra_module.Rollup.Sequencer.{SequencerStatus, Transaction, StateTransition}
use rra_module.Rollup.Production.{View, extend}

-- A transition links the state roots before and after its number.
abbrev pub Links : ℕ → List Bytes → ℕ → StateTransition → Type 0
Links next roots k t =
    (t.transition_id ≡ k)
    × (1 ≤ k)
    × (k < next)
    × (get_elem? roots (k - 1) ≡ some t.prev_state_root)
    × (get_elem? roots k ≡ some t.new_state_root)

-- The history of state roots and transitions has no gap, and ends at the current state root.
pub record IsHistory (v : View) : Type 0 where
  pub counted : length v.state_roots ≡ v.next_transition_id
  pub height : v.current_block + 1 ≡ v.next_transition_id
  pub current : get_elem? v.state_roots v.current_block ≡ some v.current_state_root
  pub linked : AllEntries (Links v.next_transition_id v.state_roots) v.transitions
  pub complete :
      (k : ℕ)
      → 1 ≤ k
      → k < v.next_transition_id
      → (t : StateTransition) × (lookup k v.transitions ≡ some t)

get_elem?-append_old :
    (xs ys : List Bytes) (i : ℕ) {b : Bytes}
    → get_elem? xs i ≡ some b
    → get_elem? (xs ++ ys) i ≡ some b
get_elem?-append_old [] ys i h = cc
get_elem?-append_old (x ∷ xs) ys zero h = h
get_elem?-append_old (x ∷ xs) ys (suc i) h = get_elem?-append_old xs ys i h

get_elem?-append_end :
    (xs : List Bytes) (i : ℕ) (b : Bytes) → length xs ≡ i → get_elem? (xs ++ b ∷ []) i ≡ some b
get_elem?-append_end [] zero b h = refl
get_elem?-append_end [] (suc i) b h = absurd (omega arith)
get_elem?-append_end (x ∷ xs) zero b h = absurd (omega arith)
get_elem?-append_end (x ∷ xs) (suc i) b h = get_elem?-append_end xs i b (omega arith)

Links-append :
    (next : ℕ) (roots : List Bytes) (b : Bytes) (transitions : Dict ℕ StateTransition)
    → AllEntries (Links next roots) transitions
    → AllEntries (Links (next + 1) (roots ++ b ∷ [])) transitions
Links-append next roots b [] h = tt
Links-append next roots b ((k, t) ∷ transitions) h = (
  (
    h.0.0,
    h.0.1,
    omega arith,
    get_elem?-append_old roots (b ∷ []) (k - 1) h.0.3,
    get_elem?-append_old roots (b ∷ []) k h.0.4,
  ),
  Links-append next roots b transitions h.1,
)

pub extend-IsHistory :
    (t : StateTransition) (v : View)
    → IsHistory v
    → t.prev_state_root ≡ v.current_state_root
    → t.transition_id ≡ v.next_transition_id
    → IsHistory (extend t v)
extend-IsHistory t v h links numbered =
    let next = v.next_transition_id in
    let roots = v.state_roots ++ t.new_state_root ∷ [] in
    let last = get_elem?-append_end v.state_roots next t.new_state_root h.counted in
    let before : next - 1 ≡ v.current_block = omega (arith, h.height) in
    record {
      counted = omega (arith, h.counted, length-append {0} v.state_roots (t.new_state_root ∷ []));
      height = omega (arith, h.height);
      current = subst (λ k. get_elem? roots k ≡ some t.new_state_root) (sym h.height) last;
      linked =
          AllEntries-insert (Links (next + 1) roots) next t v.transitions
            (Links-append next v.state_roots t.new_state_root v.transitions h.linked)
            (
              numbered,
              omega (arith, h.height),
              omega arith,
              subst (λ b. get_elem? roots (next - 1) ≡ some b) (sym links)
                  (subst (λ k. get_elem? roots k ≡ some v.current_state_root) (sym before)
                    (get_elem?-append_old v.state_roots (t.new_state_root ∷ []) v.current_block
                      h.current)),
              last,
            );
      complete = λ k low high. elim (Bool-cases (same_number next k)) [
        | inl newest ↦
            let e : next ≡ k = (same_number_iff next k).0 newest in
            (
              t,
              subst (λ j. lookup j (insert next t v.transitions) ≡ some t) e
                  (lookup-insert_self next t v.transitions),
            )
        | inr older ↦
            let other : k ≢ next = λ e. ground (arith, e, older) in
            let (u, found) = h.complete k low (ground (arith, older)) in
            (u, lookup-insert_ne k next t v.transitions other ∙ found)
      ];
    }

-- What the history says of a view does not depend on its status and its pending transactions.
pub restate-IsHistory :
    (v : View) (st : SequencerStatus) (q : List Transaction)
    → IsHistory v
    → IsHistory (record v { status = st; pending_transactions = q })
restate-IsHistory v st q h = record {
  counted = h.counted;
  height = h.height;
  current = h.current;
  linked = h.linked;
  complete = h.complete;
}
