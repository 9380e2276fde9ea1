-- ===== src/Treasury/Signers.antt =====
-- Signers and thresholds in the treasury management of coordinator.py.
use rra_module.Prelude.{
  ℕ, ◌≡◌, ◌⊎◌, refl, sym, ◌++◌, subst, inl, inr, true, ◌||◌, none, some, List, [], ◌∷◌, arith,
  length, length-map, map, any, Option-cases, Bool-cases, Text, number_key, text_key, same_text,
  same_text_iff, leb, if◌then◌else◌,
}
use rra_module.Prelude.Int.{ℤ, pos, ◌≤ℤ◌, ltb_ℤ}
use rra_module.Prelude.Dict.{Dict, lookup, insert, lookup-insert, lookup-insert_self}
use rra_module.Treasury.Types.{
  TreasuryType, Treasury, Coordinator, ret, raise, no_signer, bad_threshold,
}
use rra_module.Treasury.Registry.{
  lower, is_signer, new_treasury, index_signers, register_treasury, get_treasury_by_signer,
  update_treasury_signers, is_authorized,
}

lower-lower : (s : Text) → lower (lower s) ≡ lower s
lower-lower [] = refl
lower-lower (c ∷ s) = ground (arith, lower-lower s)

map-lower-map-lower : (xs : List Text) → map lower (map lower xs) ≡ map lower xs
map-lower-map-lower [] = refl
map-lower-map-lower (x ∷ xs) = ground (arith, lower-lower x, map-lower-map-lower xs)

-- Signers are recognised whatever the case of the address that they give.
pub is_signer-lower :
    (t : Treasury) (address : Text) → is_signer t (lower address) ≡ is_signer t address
unfolding is_signer
is_signer-lower t address = rw (lower-lower address)

-- The number of signatures required can be met: it lies between 1 and the number of signers.
pub record ThresholdIsMet (t : Treasury) : Type 0 where
  pub at_least_one : pos 1 ≤ℤ t.signer_threshold
  pub at_most_all : t.signer_threshold ≤ℤ pos (length t.signers)

any-mem :
    (address : Text) (before after : List Text)
    → any (λ s. same_text s (lower address)) (map lower (map lower (before ++ address ∷ after)))
      ≡ true
any-mem address [] after =
    ground (arith, lower-lower address, same_text_iff (lower (lower address)) (lower address))
any-mem address (b ∷ before) after = ground (arith, any-mem address before after)

-- A refused registration changes nothing: with no signer, or with a threshold that is not between
-- 1 and the number of signers, the call raises. Any other stores a new active treasury with that
-- threshold, of which every address given is a signer.
pub register_treasury-cases :
    (id now : ℕ) (name : Text) (ttype : TreasuryType) (signers : List Text) (threshold : ℤ)
    (c : Coordinator)
    → let (c', r) = register_treasury id now name ttype signers threshold c in
      ((c' ≡ c) × ((r ≡ raise no_signer) ⊎ (r ≡ raise bad_threshold)))
      ⊎ ((t : Treasury) × (r ≡ ret t)
          × (lookup id c'.treasuries ≡ some t)
          × ThresholdIsMet t
          × (t.is_active ≡ true)
          × ((before after : List Text) (address : Text)
              → signers ≡ before ++ address ∷ after
              → is_authorized id address c' ≡ true))
unfolding register_treasury is_authorized is_signer
register_treasury-cases id now name ttype signers threshold c =
    elim (Bool-cases (leb (length signers) 0)) [
      | inl nobody ↦ inl (ground arith, inl (ground arith))
      | inr somebody ↦
          elim (Bool-cases (ltb_ℤ threshold (pos 1) || ltb_ℤ (pos (length signers)) threshold)) [
            | inl bad ↦ inl (ground arith, inr (ground arith))
            | inr good ↦
                let t = new_treasury id now name ttype signers threshold in
                inr (
                  t,
                  ground arith,
                  ground (arith, lookup-insert_self id t c.treasuries),
                  record {
                    at_least_one = ground arith;
                    at_most_all = ground (arith, length-map lower signers);
                  },
                  refl,
                  λ before after address e. ground (
                    arith,
                    lookup-insert_self id t c.treasuries,
                    subst
                        (λ l.
                          any (λ s. same_text s (lower address)) (map lower (map lower l)) ≡ true)
                        (sym e) (any-mem address before after),
                  ),
                )
          ]
    ]

-- What the index says of an address after a registration: what it said before, and else the new
-- treasury if the address is one of its signers.
lookup-index_signers :
    (id : ℕ) (key : Text) (signers : List Text) (index : Dict Text ℕ)
    → lookup key (index_signers id signers index) ≡ elim (lookup key index) [
      | some first ↦ some first
      | none ↦ if any (λ s. same_text s key) (map lower signers) then some id else none
    ]
unfolding index_signers
lookup-index_signers id key [] index = ground arith
lookup-index_signers id key (s ∷ signers) index = ground (
  arith,
  same_text_iff (lower s) key,
  lookup-insert key (lower s) id index,
  lookup-index_signers id key signers index,
  lookup-index_signers id key signers (insert (lower s) id index),
)

-- After a registration an address finds its first treasury: the one that the index had for it
-- before, and otherwise the new one if the address is among its signers, in any case of letters;
-- an address that neither holds for finds nothing.
pub get_treasury_by_signer-register :
    (id now : ℕ) (name : Text) (ttype : TreasuryType) (signers : List Text) (threshold : ℤ)
    (c : Coordinator) {t : Treasury} (address : Text)
    → let (c', r) = register_treasury id now name ttype signers threshold c in
      r ≡ ret t
      → get_treasury_by_signer address c' ≡ elim (lookup (lower address) c.signer_to_treasury) [
        | some first ↦ lookup first (insert id t c.treasuries)
        | none ↦ if is_signer t address then some t else none
      ]
unfolding register_treasury get_treasury_by_signer is_signer
get_treasury_by_signer-register id now name ttype signers threshold c {t} address ok =
    elim (Option-cases (lookup (lower address) c.signer_to_treasury)) [
      | inl unknown ↦ ground (
        arith,
        map-lower-map-lower signers,
        lookup-index_signers id (lower address) signers c.signer_to_treasury,
        lookup-insert_self id (new_treasury id now name ttype signers threshold) c.treasuries,
      )
      | inr (first, known) ↦
          ground (arith, lookup-index_signers id (lower address) signers c.signer_to_treasury)
    ]

-- Changing the signers leaves the index as it was: an address that the index leads to the treasury
-- still finds it, also when it is no longer a signer, and a new signer that the index does not
-- know finds nothing.
pub update_treasury_signers-stale_index :
    (id : ℕ) (new_signers : List Text) (threshold : ℤ) (requester : Text) (t : Treasury)
    (c : Coordinator)
    → lookup id c.treasuries ≡ some t
    → (update_treasury_signers id new_signers threshold requester c).1 ≡ true
    → let c' = (update_treasury_signers id new_signers threshold requester c).0 in
      ((address : Text)
        → lookup (lower address) c.signer_to_treasury ≡ some id
        → get_treasury_by_signer address c'
          ≡ some (record t { signers = map lower new_signers; signer_threshold = threshold }))
      × ((address : Text)
          → lookup (lower address) c.signer_to_treasury ≡ none
          → get_treasury_by_signer address c' ≡ none)
unfolding update_treasury_signers get_treasury_by_signer
update_treasury_signers-stale_index id new_signers threshold requester t c found ok = (
  λ address known. ground (
    arith,
    lookup-insert_self id
        (record t { signers = map lower new_signers; signer_threshold = threshold }) c.treasuries,
  ),
  λ address unknown. ground arith,
)
