-- ===== src/Treasury/Registry.antt =====
-- Treasury management of src/rra/treasury/coordinator.py: registration, signers, deactivation.
use rra_module.Prelude.{
  ℕ, ◌+◌, Bool, true, false, not, ◌&&◌, ◌||◌, Option, none, some, List, [], ◌∷◌, map, Text, leb,
  if◌then◌else◌, length, any, ◌==◌, text_key, number_key,
}
use rra_module.Prelude.Int.{ℤ, pos, ltb_ℤ}
use rra_module.Prelude.Dict.{Dict, lookup, insert, contains}
use rra_module.Treasury.Types.{
  TreasuryType, Treasury, Coordinator, Outcome, ret, raise, no_signer, bad_threshold,
}

-- Python's `str.lower` on ASCII text, which addresses are.
abbrev pub lower_code : ℕ → ℕ
lower_code c = if leb b'A' c && leb c b'Z' then c + 32 else c

abbrev pub lower : Text → Text
lower = map lower_code

-- `address.lower() in [s.lower() for s in self.signers]`
unfoldable pub is_signer : Treasury → Text → Bool
is_signer t address = any (λ s. s == lower address) (map lower t.signers)

-- `TreasuryCoordinator(...)`, with the periods in microseconds.
unfoldable pub new : ℕ → ℕ → Coordinator
new staking_period voting_period = record {
  staking_period = staking_period;
  voting_period = voting_period;
  treasuries = [];
  disputes = [];
  signer_to_treasury = [];
  on_dispute_created = false;
  on_voting_started = false;
  on_dispute_resolved = false;
  notices = [];
}

-- The loop that maps the signers to the treasury, unless they have one already.
unfoldable pub index_signers : ℕ → List Text → Dict Text ℕ → Dict Text ℕ
index_signers treasury_id [] index = index
index_signers treasury_id (s ∷ signers) index =
    index_signers treasury_id signers
      (if contains (lower s) index then index else insert (lower s) treasury_id index)

unfoldable pub new_treasury : ℕ → ℕ → Text → TreasuryType → List Text → ℤ → Treasury
new_treasury treasury_id now name treasury_type signers threshold = record {
  treasury_id = treasury_id;
  name = name;
  treasury_type = treasury_type;
  signers = map lower signers;
  signer_threshold = threshold;
  registered_at = now;
  total_disputes = 0;
  resolved_disputes = 0;
  total_stake = 0;
  is_active = true;
}

-- `treasury_id` is the digest that the source draws, and `now` the clock's reading.
unfoldable pub register_treasury :
    ℕ → ℕ → Text → TreasuryType → List Text → ℤ → Coordinator → Coordinator × Outcome Treasury
unfolding index_signers new_treasury
register_treasury treasury_id now name treasury_type signers threshold c =
    if leb (length signers) 0
    then (c, raise no_signer)
    else if ltb_ℤ threshold (pos 1) || ltb_ℤ (pos (length signers)) threshold
    then (c, raise bad_threshold)
    else let treasury = new_treasury treasury_id now name treasury_type signers threshold in
      (
        record c {
          treasuries = insert treasury_id treasury c.treasuries;
          signer_to_treasury = index_signers treasury_id signers c.signer_to_treasury;
        },
        ret treasury,
      )

unfoldable pub get_treasury : ℕ → Coordinator → Option Treasury
get_treasury treasury_id c = lookup treasury_id c.treasuries

-- The id found in the index is not empty, so the test `if treasury_id` passes.
unfoldable pub get_treasury_by_signer : Text → Coordinator → Option Treasury
get_treasury_by_signer signer c = elim (lookup (lower signer) c.signer_to_treasury) [
  | none ↦ none
  | some treasury_id ↦ lookup treasury_id c.treasuries
]

unfoldable pub update_treasury_signers : ℕ → List Text → ℤ → Text → Coordinator → Coordinator × Bool
unfolding is_signer
update_treasury_signers treasury_id new_signers new_threshold requester c =
    elim (lookup treasury_id c.treasuries) [
      | none ↦ (c, false)
      | some t ↦
          if not (is_signer t requester)
          then (c, false)
          else if ltb_ℤ new_threshold (pos 1) || ltb_ℤ (pos (length new_signers)) new_threshold
          then (c, false)
          else (
            record c {
              treasuries =
                  insert treasury_id
                    (record t { signers = map lower new_signers; signer_threshold = new_threshold })
                    c.treasuries;
            },
            true,
          )
    ]

unfoldable pub deactivate_treasury : ℕ → Text → Coordinator → Coordinator × Bool
unfolding is_signer
deactivate_treasury treasury_id requester c = elim (lookup treasury_id c.treasuries) [
  | none ↦ (c, false)
  | some t ↦ if not (is_signer t requester) then (c, false) else (
    record c { treasuries = insert treasury_id (record t { is_active = false }) c.treasuries },
    true,
  )
]

-- `treasury` is found under the id and `address` is one of its signers: the guard that the
-- dispute operations share, `not treasury or not treasury.is_signer(address)`, negated.
unfoldable pub is_authorized : ℕ → Text → Coordinator → Bool
unfolding is_signer
is_authorized treasury_id address c = elim (lookup treasury_id c.treasuries) [
  | none ↦ false
  | some t ↦ is_signer t address
]
