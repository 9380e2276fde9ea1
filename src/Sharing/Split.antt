-- ===== src/Sharing/Split.antt =====
-- What `split` of src/rra/crypto/shamir.py returns.
use native.Mathlib.Nat.{mod-lt}
use rra_module.Prelude.{
  ℕ, zero, suc, ◌+◌, ◌-◌, ◌*◌, ◌^◌, ◌≤◌, ◌<◌, ◌≡◌, refl, sym, ◌∙◌, ap, inl, inr, true, some, List,
  [], ◌∷◌, length, get_elem?, le-get_elem?-none, arith, Text, text_key, number_key, ltb, ◌==◌,
  Option-cases,
}
use rra_module.Rollup.Bytes.{Bytes, to_bytes, from_bytes}
use rra_module.Sharing.Arithmetic.{evaluate_polynomial}
use rra_module.Sharing.Shamir.{
  ShareHolder, ThresholdConfig, KeyShare, ok, to_bytes32, draw, make_share, make_shares, split,
}

pub evaluate_polynomial-lt : (p : ℕ) (cs : List ℕ) (x : ℕ) → 0 < p → evaluate_polynomial p cs x < p
unfolding evaluate_polynomial
evaluate_polynomial-lt p [] x h = h
evaluate_polynomial-lt p (c ∷ cs) x h = mod-lt (evaluate_polynomial p cs x * x + c) h

module _ (p : ℕ) (cs : List ℕ) (config : ThresholdConfig) (context_id : Text) (now : ℕ)
    (commitment : Bytes) (h : 0 < p) (fits : p ≤ 256 ^ 32) where
  -- The share of the i-th holder, once that holder is known.
  abbrev pub share_of : ℕ → ShareHolder → KeyShare
  share_of i holder = record {
    index = i + 1;
    value = to_bytes 32 (evaluate_polynomial p cs (i + 1));
    holder = holder;
    context_id = context_id;
    created_at = now;
    threshold = config.threshold;
    total_shares = config.total_shares;
    commitment = commitment;
  }

  make_share-returns :
      (i : ℕ)
      → i < length config.holders
      → (holder : ShareHolder) × (get_elem? config.holders i ≡ some holder)
        × (make_share p cs config context_id now commitment i ≡ ok (share_of i holder))
  unfolding make_share to_bytes32
  make_share-returns i low = elim (Option-cases (get_elem? config.holders i)) [
    | inl missing ↦ absurd (omega (arith, le-get_elem?-none config.holders i missing))
    | inr (holder, here) ↦
        let small = evaluate_polynomial-lt p cs (i + 1) h in
        let fitting : ltb (evaluate_polynomial p cs (i + 1)) (256 ^ 32) ≡ true =
          ground (arith, small, fits) in
        (holder, here, rw (fitting, here, make_share, to_bytes32) refl)
  ]

  -- At place j stands the share of the holder i + j.
  abbrev pub Stands : ℕ → List KeyShare → ℕ → Type 0
  Stands i shares j =
      (holder : ShareHolder) × (get_elem? config.holders (i + j) ≡ some holder)
      × (get_elem? shares j ≡ some (share_of (i + j) holder))

  Stands-cons :
      (i left : ℕ) (holder : ShareHolder) (shares : List KeyShare)
      → get_elem? config.holders i ≡ some holder
      → ((j : ℕ) → j < left → Stands (suc i) shares j)
      → (j : ℕ) → j < suc left
      → Stands i (share_of i holder ∷ shares) j
  Stands-cons i left holder shares here each zero below =
      let e : i ≡ i + 0 = omega arith in
      (
        holder,
        ap (λ n. get_elem? config.holders n) (sym e) ∙ here,
        ap (λ n. some (share_of n holder)) e,
      )
  Stands-cons i left holder shares here each (suc j) below =
      let (other, found, stands) = each j (omega arith) in
      let e : suc i + j ≡ i + suc j = omega arith in
      (
        other,
        ap (λ n. get_elem? config.holders n) (sym e) ∙ found,
        stands ∙ ap (λ n. some (share_of n other)) e,
      )

  pub make_shares-returns :
      (left i : ℕ)
      → i + left ≤ length config.holders
      → (shares : List KeyShare) × (make_shares p cs config context_id now commitment left i
          ≡ ok shares)
        × (length shares ≡ left)
        × ((j : ℕ) → j < left → Stands i shares j)
  unfolding make_shares
  make_shares-returns zero i low = ([], refl, refl, λ j below. absurd (omega arith))
  make_shares-returns (suc left) i low =
      let (holder, here, made) = make_share-returns i (omega arith) in
      let (shares, more, len, each) = make_shares-returns left (suc i) (omega arith) in
      (
        share_of i holder ∷ shares,
        rw (made, more, make_shares) refl,
        ap suc len,
        Stands-cons i left holder shares here each,
      )

-- With a secret of 32 bytes, a modulus that fits into 32 bytes and a holder for each share, split
-- returns as many shares as configured; the j-th has the index j + 1, the polynomial's value there as
-- 32 bytes, the j-th holder, the configuration's numbers and the digest of the secret.
pub split-returns :
    (keccak : Bytes → Bytes) (p : ℕ) (drawn : ℕ → ℕ) (now : ℕ) (secret : Bytes)
    (config : ThresholdConfig) (context_id : Text) (h : 0 < p) (fits : p ≤ 256 ^ 32)
    → length secret ≡ 32
    → length config.holders ≡ config.total_shares
    → (shares : List KeyShare) × (split keccak p drawn now secret config context_id ≡ ok shares)
      × (length shares ≡ config.total_shares)
      × ((j : ℕ)
          → j < config.total_shares
          → Stands p
              (from_bytes secret ∷ draw drawn (config.threshold - 1) 0)
              config
              context_id
              now
              (keccak secret)
              h
              fits
              0
              shares
              j)
unfolding split
split-returns keccak p drawn now secret config context_id h fits whole each =
    let same : (length secret == 32) ≡ true = ground (arith, whole) in
    let (shares, made, len, stands) =
      make_shares-returns p (from_bytes secret ∷ draw drawn (config.threshold - 1) 0) config
        context_id now (keccak secret) h fits config.total_shares 0 (omega arith) in
    (shares, rw (same, split) made, len, stands)
