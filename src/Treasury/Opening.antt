-- ===== src/Treasury/Opening.antt =====
-- A dispute of coordinator.py is sound from its creation to the start of the vote.
use rra_module.Prelude.{
  ℕ, ◌≡◌, refl, sym, ◌∙◌, Bool, true, false, some, List, [], ◌∷◌, arith, number_key,
}
use rra_module.Prelude.Int.{ℤ, pos, ◌≤ℤ◌, int_laws}
use rra_module.Prelude.Dict.{
  Dict, lookup, insert, IsNodup, insert-IsNodup, AllValues, AllValues-insert, AllValues-lookup,
}
use rra_module.Treasury.Types.{TreasuryParticipant, TreasuryDispute, is_created, min_stake}
use rra_module.Treasury.Disputes.{
  new_participant, init_participants, new_dispute, start_voting, record_stake,
}
use rra_module.Treasury.Weights.{
  sum_by, sum_by-insert, sum_by-insert_same, ParticipantIsSound, sum_by-set_weights,
  set_weights-IsNodup, set_weights_sound,
}
use rra_module.Treasury.Invariant.{DisputeIsSound}

-- The parts of a new participant list: all sums are nil, and each entry is sound.
init_participants_sound :
    (ids : List ℕ) (ps : Dict ℕ TreasuryParticipant)
    → AllValues ParticipantIsSound ps
    → AllValues ParticipantIsSound (init_participants ids ps)
unfolding init_participants
init_participants_sound [] ps h = h
init_participants_sound (tid ∷ ids) ps h =
    init_participants_sound ids (insert tid (new_participant tid) ps)
      (AllValues-insert ParticipantIsSound tid (new_participant tid) ps h (ground arith))

init_participants-IsNodup :
    (ids : List ℕ) (ps : Dict ℕ TreasuryParticipant)
    → IsNodup ps
    → IsNodup (init_participants ids ps)
unfolding init_participants
init_participants-IsNodup [] ps h = h
init_participants-IsNodup (tid ∷ ids) ps h =
    init_participants-IsNodup ids (insert tid (new_participant tid) ps)
      (insert-IsNodup tid (new_participant tid) ps h)

abbrev IsFresh : TreasuryParticipant → Type 0
IsFresh p = (p.stake_amount ≡ pos 0) × (p.escrowed_amount ≡ pos 0)

init_participants-IsFresh :
    (ids : List ℕ) (ps : Dict ℕ TreasuryParticipant)
    → AllValues IsFresh ps
    → AllValues IsFresh (init_participants ids ps)
unfolding init_participants
init_participants-IsFresh [] ps h = h
init_participants-IsFresh (tid ∷ ids) ps h =
    init_participants-IsFresh ids (insert tid (new_participant tid) ps)
      (AllValues-insert IsFresh tid (new_participant tid) ps h (refl, refl))

sum_by-zero :
    (ps : Dict ℕ TreasuryParticipant)
    → AllValues IsFresh ps
    → (sum_by (λ p. p.stake_amount) ps ≡ pos 0) × (sum_by (λ p. p.escrowed_amount) ps ≡ pos 0)
sum_by-zero [] h = (refl, refl)
sum_by-zero ((k, p) ∷ ps) h = grind (int_laws, sum_by-zero ps h.1)

pub new_dispute-IsSound :
    (id now period creator : ℕ) (ids : List ℕ) (title uri : List ℕ) (binding : Bool)
    → DisputeIsSound (new_dispute id now period creator ids title uri binding)
unfolding new_dispute
new_dispute-IsSound id now period creator ids title uri binding =
    let sums = sum_by-zero (init_participants ids []) (init_participants-IsFresh ids [] tt) in
    record {
      keys_distinct = init_participants-IsNodup ids [] tt;
      stake_exact = sym sums.0;
      escrow_exact = sym sums.1;
      participants_sound = init_participants_sound ids [] tt;
      proposals_sound = tt;
      no_early_proposal = λ h. refl;
    }

-- Before the vote nothing is in the proposals, so a stake may be written.
pub record_stake-IsSound :
    (tid : ℕ) (amount : ℤ) (p : TreasuryParticipant) (d : TreasuryDispute)
    → DisputeIsSound d
    → is_created d.status ≡ true
    → lookup tid d.participants ≡ some p
    → p.has_staked ≡ false
    → pos min_stake ≤ℤ amount
    → DisputeIsSound (record_stake tid amount p d)
unfolding record_stake
record_stake-IsSound tid amount p d s early found unpaid enough =
    let sound = AllValues-lookup ParticipantIsSound tid d.participants s.participants_sound found in
    let p' : TreasuryParticipant = record p { stake_amount = amount; has_staked = true } in
    record {
      keys_distinct = insert-IsNodup tid p' d.participants s.keys_distinct;
      stake_exact = grind (
        int_laws,
        s.stake_exact,
        sound.unpaid unpaid,
        sum_by-insert (λ q. q.stake_amount) tid p' p d.participants found,
      );
      escrow_exact =
          s.escrow_exact
          ∙ sym (sum_by-insert_same (λ q. q.escrowed_amount) tid p' p d.participants found refl);
      participants_sound =
          AllValues-insert ParticipantIsSound tid p' d.participants s.participants_sound
            (ground (arith, sound.unpaid unpaid));
      proposals_sound = rw (s.no_early_proposal early) tt;
      no_early_proposal = s.no_early_proposal;
    }

pub start_voting-IsSound :
    (now period : ℕ) (d : TreasuryDispute)
    → DisputeIsSound d
    → d.proposals ≡ []
    → DisputeIsSound (start_voting now period d)
unfolding start_voting
start_voting-IsSound now period d s none_yet = record {
  keys_distinct = set_weights-IsNodup d.participants s.keys_distinct;
  stake_exact =
      s.stake_exact ∙ sym (sum_by-set_weights d.participants (λ p. p.stake_amount) (λ p. refl));
  escrow_exact =
      s.escrow_exact ∙ sym (sum_by-set_weights d.participants (λ p. p.escrowed_amount) (λ p. refl));
  participants_sound = set_weights_sound d.participants s.participants_sound;
  proposals_sound = rw none_yet tt;
  no_early_proposal = λ h. none_yet;
}
