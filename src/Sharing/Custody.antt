-- ===== src/Sharing/Custody.antt =====
-- The keys that `EscrowManager` of src/rra/crypto/shamir.py holds in escrow can be recovered.
use rra_module.Prelude.{
  ℕ, suc, ◌+◌, ◌^◌, ◌≤◌, ◌<◌, ◌≡◌, refl, ◌∙◌, ap, subst, inl, inr, Bool, true, none, some, List, [],
  ◌∷◌, Each, map, length, get_elem?, select, any, arith, Absent, AreDistinct, Text, text_key, leb,
  ◌==◌, Bool-cases,
}
use rra_module.Prelude.Dict.{Dict, lookup, insert, lookup-insert_self}
use rra_module.Rollup.Bytes.{Bytes, AreBytes, from_bytes}
use rra_module.Sharing.Inverses.{IsFermat}
use rra_module.Sharing.Shamir.{ShareHolder, KeyShare, Result, ok, split, reconstruct}
use rra_module.Sharing.Recovery.{
  Among, error-ne_ok, Result-cases, reconstruct-split_secret, split-IsShareOf,
}
use rra_module.Sharing.Secrecy.{Among-value}
use rra_module.Sharing.Escrow.{
  holder_key, EscrowManager, escrow_viewing_key, recover_viewing_key, shares_of,
  verify_reconstruction_possible,
}

-- From the i-th place on, each share's index is its place plus one.
abbrev IsNumbered : ℕ → List KeyShare → Type 0
IsNumbered i shares = (j : ℕ) (t : KeyShare) → get_elem? shares j ≡ some t → t.index ≡ i + j + 1

Absent-low :
    (i n : ℕ) (shares : List KeyShare)
    → n ≤ i
    → IsNumbered i shares
    → Absent n (map (λ (s : KeyShare). s.index) shares)
Absent-low i n [] low h = tt
Absent-low i n (s ∷ shares) low h = (
  λ e. absurd (omega (arith, h 0 s refl, e)),
  Absent-low (suc i) n shares (omega arith) (λ j t e. h (suc j) t e ∙ omega arith),
)

IsNumbered-AreDistinct :
    (i : ℕ) (shares : List KeyShare)
    → IsNumbered i shares
    → AreDistinct (map (λ (s : KeyShare). s.index) shares)
IsNumbered-AreDistinct i [] h = tt
IsNumbered-AreDistinct i (s ∷ shares) h =
    let later : IsNumbered (suc i) shares =
      λ (j : ℕ) (t : KeyShare) (e : get_elem? shares j ≡ some t). h (suc j) t e ∙ omega arith in
    (
      Absent-low (suc i) s.index shares (omega (arith, h 0 s refl)) later,
      IsNumbered-AreDistinct (suc i) shares later,
    )

module _ (p : KeyShare → Bool) where
  Absent-select :
      (n : ℕ) (shares : List KeyShare)
      → Absent n (map (λ (s : KeyShare). s.index) shares)
      → Absent n (map (λ (s : KeyShare). s.index) (select p shares))
  Absent-select n [] h = tt
  Absent-select n (s ∷ shares) h = elim (Bool-cases (p s)) [
    | inl here ↦ rw here (h.0, Absent-select n shares h.1)
    | inr out ↦ rw out (Absent-select n shares h.1)
  ]

  AreDistinct-select :
      (shares : List KeyShare)
      → AreDistinct (map (λ (s : KeyShare). s.index) shares)
      → AreDistinct (map (λ (s : KeyShare). s.index) (select p shares))
  AreDistinct-select [] h = tt
  AreDistinct-select (s ∷ shares) h = elim (Bool-cases (p s)) [
    | inl here ↦ rw here (Absent-select s.index shares h.0, AreDistinct-select shares h.1)
    | inr out ↦ rw out (AreDistinct-select shares h.1)
  ]

  Among-select :
      (all shares : List KeyShare)
      → ((t : KeyShare) → Among t shares → Among t all)
      → Each (λ t. Among t all) (select p shares)
  Among-select all [] f = tt
  Among-select all (s ∷ shares) f =
      let later = Among-select all shares (λ t a. f t (suc a.0, a.1)) in
      elim (Bool-cases (p s)) [ inl here ↦ rw here (f s (0, refl), later) | inr out ↦ rw out later ]

-- The shares that the manager keeps for a context.
abbrev pub cached : Text → EscrowManager → List KeyShare
cached context_id m = elim (lookup context_id m.shares_cache) [ none ↦ [] | some shares ↦ shares ]

recover-after :
    (keccak : Bytes → Bytes) (drawn : ℕ → ℕ) (now : ℕ) (key_bytes : Bytes) (context_id : Text)
    (m : EscrowManager) (shares : List KeyShare) (available : List ShareHolder)
    → 1 < m.modulus
    → IsFermat m.modulus
    → m.modulus ≤ 256 ^ 32
    → m.config.total_shares < m.modulus
    → 1 ≤ m.config.threshold
    → length m.config.holders ≡ m.config.total_shares
    → AreBytes key_bytes
    → from_bytes key_bytes < m.modulus
    → split keccak m.modulus drawn now key_bytes m.config context_id ≡ ok shares
    → m.config.threshold ≤ length (shares_of available shares)
    → reconstruct keccak m.modulus (shares_of available shares) ≡ ok key_bytes
recover-after keccak drawn now key_bytes context_id m shares available large fermat fits few one
      holders bytes low made enough =
    let kept : KeyShare → Bool = λ s. any (λ h. h == s.holder) available in
    let whole =
      (split-IsShareOf keccak m.modulus drawn now key_bytes m.config context_id shares made).0 in
    let numbered : IsNumbered 0 shares = λ j t e.
      (Among-value keccak m.modulus drawn now key_bytes m.config context_id shares (omega arith)
        fits holders whole made t (j, e)).1
      ∙ omega arith in
    reconstruct-split_secret keccak m.modulus drawn now key_bytes m.config context_id shares
      (select kept shares) large fermat fits few one bytes low made
      (Among-select kept shares shares (λ t a. a))
      (AreDistinct-select kept shares (IsNumbered-AreDistinct 0 shares numbered)) enough

-- After a key of bytes below the modulus was taken into escrow, the manager's answer that the
-- key can be reconstructed by the available holders is right: from the shares it keeps for
-- those holders the very key is recovered. The modulus passes Fermat's test, fits into 32 bytes
-- and is larger than the number of shares, each share has a holder, and the threshold is not
-- zero.
pub escrow-recover :
    (keccak : Bytes → Bytes) (drawn : ℕ → ℕ) (now : ℕ) (key_bytes : Bytes) (context_id : Text)
    (m m' : EscrowManager) (d : Dict ShareHolder KeyShare) (available : List ShareHolder)
    → 1 < m.modulus
    → IsFermat m.modulus
    → m.modulus ≤ 256 ^ 32
    → m.config.total_shares < m.modulus
    → 1 ≤ m.config.threshold
    → length m.config.holders ≡ m.config.total_shares
    → AreBytes key_bytes
    → from_bytes key_bytes < m.modulus
    → escrow_viewing_key keccak drawn now key_bytes context_id m ≡ (m', ok d)
    → verify_reconstruction_possible context_id available m' ≡ true
    → recover_viewing_key keccak context_id (shares_of available (cached context_id m')) m'
      ≡ ok key_bytes
unfolding escrow_viewing_key recover_viewing_key verify_reconstruction_possible
escrow-recover keccak drawn now key_bytes context_id m m' d available large fermat fits few one
      holders bytes low made possible =
    elim (Result-cases (split keccak m.modulus drawn now key_bytes m.config context_id)) [
      | inr (e, bad) ↦ absurd (
          error-ne_ok (
            ap (λ (t : EscrowManager × Result (Dict ShareHolder KeyShare)). t.1)
              (rw (bad, escrow_viewing_key) at made)))
      | inl (shares, good) ↦
          let after : EscrowManager = record m {
            shares_cache = insert context_id shares m.shares_cache;
          } in
          let stored = lookup-insert_self context_id shares m.shares_cache in
          let same : after ≡ m' =
            ap (λ (t : EscrowManager × Result (Dict ShareHolder KeyShare)). t.0)
              (rw (good, escrow_viewing_key) at made) in
          let keep : cached context_id after ≡ shares = rw (stored, cached) refl in
          let able : verify_reconstruction_possible context_id available after ≡ true =
            ap (verify_reconstruction_possible context_id available) same ∙ possible in
          let many : leb m.config.threshold (length (shares_of available shares)) ≡ true =
            rw (stored, verify_reconstruction_possible) at able in
          subst
            (λ (k : EscrowManager).
              recover_viewing_key keccak context_id (shares_of available (cached context_id k)) k
              ≡ ok key_bytes)
            same
            (ap (λ l. reconstruct keccak m.modulus (shares_of available l)) keep
              ∙ (recover-after keccak drawn now key_bytes context_id m shares available large fermat
                  fits few one holders bytes low good (ground (arith, many))))
    ]
