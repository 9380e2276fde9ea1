-- ===== src/Sharing/Recovery.antt =====
-- What `reconstruct` of src/rra/crypto/shamir.py makes of shares that `split` made.
use native.Mathlib.Nat.{mod-lt, mod-eq_of_lt}
use rra_module.Prelude.{
  ℕ, zero, suc, ◌+◌, ◌-◌, ◌%◌, ◌^◌, ◌≤◌, ◌<◌, ◌≡◌, ◌≢◌, ◌⊎◌, refl, sym, ◌∙◌, ap, subst, inl, inr,
  Bool, true, false, not, some, List, [], ◌∷◌, Each, Each-map, Each-take, Each-get_elem?, map,
  map-take, length, length-map, take-length, take, get_elem?, arith, AreDistinct, AreDistinct-take,
  Text, text_key, number_key, same_text_iff, ltb, if◌then◌else◌, ◌==◌, Bool-cases, Option-cases,
}
use rra_module.Rollup.Bytes.{
  Bytes, to_bytes, from_bytes, from_bytes-to_bytes, AreBytes, to_bytes-from_bytes,
}
use rra_module.Sharing.Inverses.{IsFermat}
use rra_module.Sharing.Split.{split-returns}
use rra_module.Sharing.Lagrange.{lagrange_interpolate-secret}
use rra_module.Sharing.Arithmetic.{evaluate_polynomial, lagrange_interpolate}
use rra_module.Sharing.Shamir.{
  ThresholdConfig, KeyShare, ShamirError, Result, ok, error, commitment_mismatch, to_bytes32, draw,
  make_share, make_shares, split, recover, reconstruct,
}

-- One of the shares in the list.
abbrev pub Among : KeyShare → List KeyShare → Type 0
Among s shares = (i : ℕ) × (get_elem? shares i ≡ some s)

-- A share of the polynomial with the coefficients.
pub record IsShareOf (p : ℕ) (coefficients : List ℕ) (config : ThresholdConfig) (commitment : Bytes)
    (s : KeyShare) : Type 0 where
  pub low : s.index ≤ config.total_shares
  pub on_curve : from_bytes s.value ≡ evaluate_polynomial p coefficients s.index
  pub enough : s.threshold ≡ config.threshold
  pub committed : s.commitment ≡ commitment

abbrev value_or : {A : Type 0} → A → Result A → A
value_or a (ok b) = b
value_or a (error e) = a

pub ok-eq : {A : Type 0} {a b : A} → ok a ≡ ok b → a ≡ b
ok-eq {A} {a} e = ap (value_or a) e

abbrev is_ok : {A : Type 0} → Result A → Bool
is_ok (ok a) = true
is_ok (error e) = false

pub error-ne_ok : {A : Type 0} {e : ShamirError} {a : A} → error e ≢ ok a
error-ne_ok h = let both : false ≡ true = ap is_ok h in cc

pub Result-cases :
    {A : Type 0} (r : Result A) → ((a : A) × (r ≡ ok a)) ⊎ ((e : ShamirError) × (r ≡ error e))
Result-cases (ok a) = inl (a, refl)
Result-cases (error e) = inr (e, refl)

to_bytes32-value : (x : ℕ) (bs : Bytes) → to_bytes32 x ≡ ok bs → from_bytes bs ≡ x
unfolding to_bytes32
to_bytes32-value x bs h = elim (Bool-cases (ltb x (256 ^ 32))) [
  | inl fits ↦
      let same : ok (to_bytes 32 x) ≡ ok bs = rw (fits, to_bytes32) at h in
      ap from_bytes (sym (ok-eq same)) ∙ from_bytes-to_bytes 32 x (ground (arith, fits))
  | inr over ↦ absurd (error-ne_ok (rw (over, to_bytes32) at h))
]

module _ (p : ℕ) (coefficients : List ℕ) (config : ThresholdConfig) (context_id : Text) (now : ℕ)
    (commitment : Bytes) where
  make_share-IsShareOf :
      (i : ℕ) (s : KeyShare)
      → i < config.total_shares
      → make_share p coefficients config context_id now commitment i ≡ ok s
      → IsShareOf p coefficients config commitment s
  unfolding make_share
  make_share-IsShareOf i s low h =
      let y = evaluate_polynomial p coefficients (i + 1) in
      elim (Result-cases (to_bytes32 y)) [
        | inr (e, bad) ↦ absurd (error-ne_ok (rw (bad, make_share) at h))
        | inl (value, good) ↦ elim (Option-cases (get_elem? config.holders i)) [
          | inl missing ↦ absurd (error-ne_ok (rw (good, missing, make_share) at h))
          | inr (holder, here) ↦
              let made = rw (good, here, make_share) at h in
              subst (IsShareOf p coefficients config commitment) (ok-eq made) (record {
                low = omega arith;
                on_curve = to_bytes32-value y value good;
                enough = refl;
                committed = refl;
              })
        ]
      ]

  make_shares-IsShareOf :
      (left i : ℕ) (shares : List KeyShare)
      → i + left ≤ config.total_shares
      → make_shares p coefficients config context_id now commitment left i ≡ ok shares
      → Each (IsShareOf p coefficients config commitment) shares
  unfolding make_shares
  make_shares-IsShareOf zero i shares low h =
      subst (Each (IsShareOf p coefficients config commitment)) (ok-eq h) tt
  make_shares-IsShareOf (suc left) i shares low h =
      elim (Result-cases (make_share p coefficients config context_id now commitment i)) [
        | inr (e, bad) ↦ absurd (error-ne_ok (rw (bad, make_shares) at h))
        | inl (s, good) ↦
            elim (Result-cases
              (make_shares p coefficients config context_id now commitment left (suc i))) [
                | inr (e, bad) ↦ absurd (error-ne_ok (rw (good, bad, make_shares) at h))
                | inl (rest, more) ↦
                    subst (Each (IsShareOf p coefficients config commitment))
                      (ok-eq (rw (good, more, make_shares) at h))
                      (
                        make_share-IsShareOf i s (omega arith) good,
                        make_shares-IsShareOf left (suc i) rest (omega arith) more,
                      )
              ]
      ]

pub Each-of :
    {A B : Type 0} (P : A → Type 0) (Q : B → Type 0) (f : A → B)
    → ((a : A) → P a → Q (f a))
    → (xs : List A) → Each P xs
    → Each Q (map f xs)
Each-of P Q f g [] h = tt
Each-of P Q f g (x ∷ xs) h = (g x h.0, Each-of P Q f g xs h.1)

map-firsts :
    (shares : List KeyShare)
    → map (λ (s : KeyShare). s.index) shares
      ≡ map (λ (t : ℕ × ℕ). t.0) (map (λ (s : KeyShare). (s.index, from_bytes s.value)) shares)
map-firsts [] = refl
map-firsts (s ∷ shares) = ap (λ t. s.index ∷ t) (map-firsts shares)

module _ (keccak : Bytes → Bytes) (p : ℕ) where
  -- The secret modulo p, or the refusal of another commitment than its own.
  abbrev pub checked : Bytes → Bytes → Result Bytes
  checked back commitment =
      if not (keccak back == commitment) then error commitment_mismatch else ok back

  -- Shares of one polynomial, as many as it has coefficients.
  recover-checked :
      (secret : ℕ) (others : List ℕ) (config : ThresholdConfig) (commitment : Bytes)
      (shares : List KeyShare)
      → 1 < p
      → IsFermat p
      → p ≤ 256 ^ 32
      → config.total_shares < p
      → length (secret ∷ others) ≤ length shares
      → Each (IsShareOf p (secret ∷ others) config commitment) shares
      → AreDistinct (map (λ (s : KeyShare). s.index) shares)
      → recover keccak p commitment shares ≡ checked (to_bytes 32 (secret % p)) commitment
  unfolding recover to_bytes32
  recover-checked secret others config commitment shares large fermat fits few enough each
        distinct =
      let point : KeyShare → ℕ × ℕ = λ s. (s.index, from_bytes s.value) in
      let points = map point shares in
      let x = lagrange_interpolate p 0 points in
      let constant : x ≡ secret % p =
        lagrange_interpolate-secret p large fermat secret others points
          (Each-of _ _ point (λ s h. h.on_curve) shares each)
          (subst AreDistinct (map-firsts shares) distinct)
          (subst (Each (λ n. n < p)) (map-firsts shares)
            (Each-of _ _ (λ (s : KeyShare). s.index) (λ s h. omega (arith, h.low)) shares each))
          (omega (arith, length-map point shares)) in
      let fitting : ltb (secret % p) (256 ^ 32) ≡ true =
        let low' : secret % p < p = mod-lt secret (omega arith) in ground (arith, low') in
      rw (constant, fitting, recover, to_bytes32) refl

pub length-draw : (drawn : ℕ → ℕ) (n i : ℕ) → length (draw drawn n i) ≡ n
unfolding draw
length-draw drawn zero i = refl
length-draw drawn (suc n) i = ap suc (length-draw drawn n (suc i))

pub split-IsShareOf :
    (keccak : Bytes → Bytes) (p : ℕ) (drawn : ℕ → ℕ) (now : ℕ) (secret : Bytes)
    (config : ThresholdConfig) (context_id : Text) (shares : List KeyShare)
    → split keccak p drawn now secret config context_id ≡ ok shares
    → (length secret ≡ 32)
      × Each
          (IsShareOf p
            (from_bytes secret ∷ draw drawn (config.threshold - 1) 0)
            config
            (keccak secret))
          shares
unfolding split
split-IsShareOf keccak p drawn now secret config context_id shares made =
    elim (Bool-cases (length secret == 32)) [
      | inr other ↦ absurd (error-ne_ok (rw (other, split) at made))
      | inl whole ↦ (
        ground (arith, whole),
        make_shares-IsShareOf p (from_bytes secret ∷ draw drawn (config.threshold - 1) 0) config
            context_id now (keccak secret) config.total_shares 0 shares (omega arith)
            (rw (whole, split) at made),
      )
    ]

-- Shares that stand in the list which split returned, with distinct indices and at least as many as
-- the threshold, are put together to the secret modulo p if that has the secret's digest, and are
-- refused for their commitment otherwise; p passes Fermat's test, fits into 32 bytes and is larger
-- than the number of shares.
pub reconstruct-split :
    (keccak : Bytes → Bytes) (p : ℕ) (drawn : ℕ → ℕ) (now : ℕ) (secret : Bytes)
    (config : ThresholdConfig) (context_id : Text) (shares given : List KeyShare)
    → 1 < p
    → IsFermat p
    → p ≤ 256 ^ 32
    → config.total_shares < p
    → 1 ≤ config.threshold
    → split keccak p drawn now secret config context_id ≡ ok shares
    → Each (λ s. Among s shares) given
    → AreDistinct (map (λ (s : KeyShare). s.index) given)
    → config.threshold ≤ length given
    → reconstruct keccak p given
      ≡ checked keccak p (to_bytes 32 (from_bytes secret % p)) (keccak secret)
unfolding reconstruct
reconstruct-split keccak p drawn now secret config context_id shares [] large fermat fits few one
      made among distinct enough =
    absurd (omega arith)
reconstruct-split keccak p drawn now secret config context_id shares (first ∷ given) large fermat
      fits few one made among distinct enough =
    let n = config.threshold in
    let others = draw drawn (n - 1) 0 in
    let genuine = (split-IsShareOf keccak p drawn now secret config context_id shares made).1 in
    let each : Each (IsShareOf p (from_bytes secret ∷ others) config (keccak secret))
        (first ∷ given) =
      Each-map _ _ (first ∷ given) (λ s a. Each-get_elem? _ shares a.0 genuine a.1) among in
    let plenty : ltb (length (first ∷ given)) first.threshold ≡ false =
      ground (arith, enough, each.0.enough) in
    let taken : reconstruct keccak p (first ∷ given)
        ≡ recover keccak p first.commitment (take first.threshold (first ∷ given)) =
      rw (plenty, reconstruct) refl in
    taken
    ∙ ap (λ c. recover keccak p c (take first.threshold (first ∷ given))) each.0.committed
    ∙ ap (λ m. recover keccak p (keccak secret) (take m (first ∷ given))) each.0.enough
    ∙ recover-checked keccak p (from_bytes secret) others config (keccak secret)
        (take n (first ∷ given)) large fermat fits few
        (omega (arith, length-draw drawn (n - 1) 0, take-length n (first ∷ given)))
        (Each-take _ n (first ∷ given) each)
        (subst AreDistinct (sym (map-take (λ (s : KeyShare). s.index) n (first ∷ given)))
          (AreDistinct-take n (map (λ (s : KeyShare). s.index) (first ∷ given)) distinct))

-- A secret of bytes below p comes back: any shares of split with distinct indices, at least as
-- many as the threshold, which is not zero, are put together to the very bytes that were split.
-- The modulus p passes Fermat's test, fits into 32 bytes and is larger than the number of
-- shares.
pub reconstruct-split_secret :
    (keccak : Bytes → Bytes) (p : ℕ) (drawn : ℕ → ℕ) (now : ℕ) (secret : Bytes)
    (config : ThresholdConfig) (context_id : Text) (shares given : List KeyShare)
    → 1 < p
    → IsFermat p
    → p ≤ 256 ^ 32
    → config.total_shares < p
    → 1 ≤ config.threshold
    → AreBytes secret
    → from_bytes secret < p
    → split keccak p drawn now secret config context_id ≡ ok shares
    → Each (λ s. Among s shares) given
    → AreDistinct (map (λ (s : KeyShare). s.index) given)
    → config.threshold ≤ length given
    → reconstruct keccak p given ≡ ok secret
reconstruct-split_secret keccak p drawn now secret config context_id shares given large fermat fits
      few one bytes low made among distinct enough =
    let whole = (split-IsShareOf keccak p drawn now secret config context_id shares made).0 in
    let back : to_bytes 32 (from_bytes secret % p) ≡ secret =
      ap (to_bytes 32) (mod-eq_of_lt low)
      ∙ ap (λ n. to_bytes n (from_bytes secret)) (sym whole)
      ∙ to_bytes-from_bytes secret bytes in
    let same : (keccak secret == keccak secret) ≡ true =
      ground (arith, same_text_iff (keccak secret) (keccak secret)) in
    reconstruct-split keccak p drawn now secret config context_id shares given large fermat fits few
      one made among distinct enough
    ∙ ap (λ b. checked keccak p b (keccak secret)) back
    ∙ rw same refl

-- The shares of a split that made them.
abbrev pub shares_in : Result (List KeyShare) → List KeyShare
shares_in r = value_or [] r

-- Where 32 bytes and their remainder modulo p have different digests, as bytes that stand for a
-- number of at least p have but for a collision, split takes the bytes and makes shares of them, but
-- no shares of these, at least as many as the threshold, which is not zero, and of distinct
-- indices, can be put together again: they are refused for their commitment. The modulus p
-- passes Fermat's test, fits into 32 bytes and is larger than the number of shares, and each share
-- has a holder.
pub reconstruct-split_large :
    (keccak : Bytes → Bytes) (p : ℕ) (drawn : ℕ → ℕ) (now : ℕ) (secret : Bytes)
    (config : ThresholdConfig) (context_id : Text) (given : List KeyShare)
    → 1 < p
    → IsFermat p
    → p ≤ 256 ^ 32
    → config.total_shares < p
    → 1 ≤ config.threshold
    → length config.holders ≡ config.total_shares
    → length secret ≡ 32
    → keccak (to_bytes 32 (from_bytes secret % p)) ≢ keccak secret
    → Each (λ s. Among s (shares_in (split keccak p drawn now secret config context_id))) given
    → AreDistinct (map (λ (s : KeyShare). s.index) given)
    → config.threshold ≤ length given
    → (split keccak p drawn now secret config context_id
        ≡ ok (shares_in (split keccak p drawn now secret config context_id)))
      × (reconstruct keccak p given ≡ error commitment_mismatch)
reconstruct-split_large keccak p drawn now secret config context_id given large fermat fits few one
      holders whole apart among distinct enough =
    let (shares, made, len, stands) =
      split-returns keccak p drawn now secret config context_id (omega arith) fits whole holders in
    let all = shares_in (split keccak p drawn now secret config context_id) in
    let made' : split keccak p drawn now secret config context_id ≡ ok all =
      made ∙ sym (ap (λ r. ok (shares_in r)) made) in
    let back = to_bytes 32 (from_bytes secret % p) in
    let other : (keccak back == keccak secret) ≡ false =
      ground (arith, apart, same_text_iff (keccak back) (keccak secret)) in
    (
      made',
      reconstruct-split keccak p drawn now secret config context_id all given large fermat fits few
            one made' among distinct enough
          ∙ rw other refl,
    )
