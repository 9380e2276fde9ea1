-- ===== src/Confirmation/System.antt =====
-- Any sequence of calls on the manager of confirmation.py.
use rra_module.Prelude.{
  ℕ, ◌≡◌, refl, inl, inr, Option-cases, Bool, Option, none, some, List, [], ◌∷◌, Text, number_key,
}
use rra_module.Prelude.Int.{ℤ}
use rra_module.Prelude.Dict.{lookup}
use rra_module.Confirmation.Manager.{
  CancellationReason, Callback, Manager, Offer, new, create_pending_transaction,
}
use rra_module.Confirmation.Steps.{
  confirm_transaction, cancel_transaction, get_pending_transaction, get_all_pending,
  cleanup_expired,
}
use rra_module.Confirmation.Invariant.{IsSound}
use rra_module.Confirmation.Soundness.{
  create_pending_transaction-IsSound, confirm_transaction-IsSound, cancel_transaction-IsSound,
  get_pending_transaction-IsSound,
}
use rra_module.Confirmation.Cleanup.{cleanup_expired-IsSound}

-- The calls that change the manager, each with its clock reading and the digests that it draws.
pub data Request : Type 0 where
  offer : ℕ → Text → ℕ → Offer → Request
  confirm cancel_by_user fetch : ℕ → ℕ → Request
  cancel : ℕ → ℕ → CancellationReason → Request
  clean : ℕ → Request
  list_all : ℕ → Option Text → Option Text → Request

abbrev pub kept : {A : Type 0} → Option (Manager × A) → Manager → Manager
kept none m = m
kept (some (m', result)) m = m'

unfoldable pub apply : Request → Manager → Manager
apply (offer id digest now o) m = (create_pending_transaction id digest now o m).0
apply (confirm now id) m = (confirm_transaction now id m).0
apply (cancel_by_user now id) m = (cancel_transaction now id CancellationReason.user_cancelled m).0
apply (fetch now id) m = (get_pending_transaction now id m).0
apply (cancel now id why) m = (cancel_transaction now id why m).0
apply (clean now) m = kept (cleanup_expired now m) m
apply (list_all now buyer seller) m = kept (get_all_pending now buyer seller m) m

unfoldable pub run : List Request → Manager → Manager
unfolding apply
run [] m = m
run (r ∷ rs) m = run rs (apply r m)

-- A new transaction draws an id under which none was completed.
abbrev pub DrawsFresh : Request → Manager → Type 0
DrawsFresh (offer id digest now o) m = lookup id m.completed_transactions ≡ none
DrawsFresh _ m = Unit

abbrev pub AllFresh : List Request → Manager → Type 0
AllFresh [] m = Unit
AllFresh (r ∷ rs) m = DrawsFresh r m × AllFresh rs (apply r m)

-- To list the transactions changes the manager as a cleanup does.
kept-get_all_pending :
    (now : ℕ) (buyer seller : Option Text) (m : Manager)
    → kept (get_all_pending now buyer seller m) m ≡ kept (cleanup_expired now m) m
unfolding get_all_pending
kept-get_all_pending now buyer seller m = elim (Option-cases (cleanup_expired now m)) [
  | inl raised ↦ rw (get_all_pending, raised) refl
  | inr (out, e) ↦ rw (get_all_pending, e) refl
]

apply-IsSound : (r : Request) (m : Manager) → DrawsFresh r m → IsSound m → IsSound (apply r m)
unfolding apply
apply-IsSound (offer id digest now o) m fresh s =
    create_pending_transaction-IsSound id now digest o m s fresh
apply-IsSound (confirm now id) m fresh s = confirm_transaction-IsSound now id m s
apply-IsSound (cancel_by_user now id) m fresh s =
    cancel_transaction-IsSound now id CancellationReason.user_cancelled m s
apply-IsSound (fetch now id) m fresh s = get_pending_transaction-IsSound now id m s
apply-IsSound (cancel now id why) m fresh s = cancel_transaction-IsSound now id why m s
apply-IsSound (clean now) m fresh s =
    let (m', runs, sound, kept_lem) = cleanup_expired-IsSound now m s in rw runs sound
apply-IsSound (list_all now buyer seller) m fresh s =
    let (m', runs, sound, kept_lem) = cleanup_expired-IsSound now m s in
    rw (kept-get_all_pending now buyer seller m, runs) sound

pub run-IsSound_from :
    (rs : List Request) (m : Manager) → AllFresh rs m → IsSound m → IsSound (run rs m)
unfolding run
run-IsSound_from [] m fresh s = s
run-IsSound_from (r ∷ rs) m fresh s =
    run-IsSound_from rs (apply r m) fresh.1 (apply-IsSound r m fresh.0 s)

-- After any sequence of calls on a new manager in which new transactions draw ids under which
-- none was completed, the stores are sound: no id stands twice or in both stores, every pending
-- transaction has its status so, lacks a confirmation and carries no reason for cancellation,
-- every completed one is confirmed with all its confirmations and no such reason, or cancelled
-- with a reason, or expired with the reason for that, and no price is below its floor.
pub run-stores-IsSound :
    (default_timeout : ℤ) (on_expired on_confirmed : Callback) (double : Bool)
    (min_timeout : Option ℕ) (rs : List Request)
    → AllFresh rs (new default_timeout on_expired on_confirmed double min_timeout)
    → IsSound (run rs (new default_timeout on_expired on_confirmed double min_timeout))
unfolding new
run-stores-IsSound default_timeout on_expired on_confirmed double min_timeout rs fresh =
    run-IsSound_from rs (new default_timeout on_expired on_confirmed double min_timeout) fresh
      (record {
        pending_distinct = tt;
        completed_distinct = tt;
        pending_sound = tt;
        completed_sound = tt;
        apart = λ id tx found. cc;
      })
