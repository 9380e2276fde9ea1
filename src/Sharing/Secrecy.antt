-- ===== src/Sharing/Secrecy.antt =====
-- What fewer shares of src/rra/crypto/shamir.py than the threshold leave open.
use native.Mathlib.Nat.{mod-lt, mod-eq_of_lt}
use mathlib.Core.List.{append_assoc}
use rra_module.Prelude.{
  ℕ, zero, suc, ◌+◌, ◌-◌, ◌*◌, ◌^◌, ◌≤◌, ◌<◌, ◌≡◌, refl, sym, ◌∙◌, ap, subst, Option, none, some,
  List, [], ◌∷◌, ◌++◌, Each, Each-map, map, length, length-map, length-append, get_elem?,
  get_elem?-lt, arith, Text, text_key, number_key,
}
use rra_module.Rollup.Bytes.{Bytes, to_bytes, from_bytes}
use rra_module.Sharing.Ring.{Ring, add_left_comm, add_nil}
use rra_module.Sharing.Interpolation.{IsUnit, horner, constant}
use rra_module.Sharing.Modular.{residue, residue_self, residues}
use rra_module.Sharing.Inverses.{IsFermat, power, power-IsUnit}
use rra_module.Sharing.Lagrange.{evaluate_polynomial-horner}
use rra_module.Sharing.Masks.{masked, masked-same, constant-masked, length-masked}
use rra_module.Sharing.Arithmetic.{evaluate_polynomial}
use rra_module.Sharing.Shamir.{ThresholdConfig, KeyShare, ok, draw, split}
use rra_module.Sharing.Split.{share_of, split-returns}
use rra_module.Sharing.Recovery.{Among, ok-eq, length-draw, Each-of}

-- The i-th number of a list, as a source of draws.
abbrev pub drawn_from : List ℕ → ℕ → ℕ
drawn_from [] i = 0
drawn_from (k ∷ ks) zero = k
drawn_from (k ∷ ks) (suc i) = drawn_from ks i

drawn_from-lt : (p : ℕ) (ks : List ℕ) (i : ℕ) → 0 < p → Each (λ k. k < p) ks → drawn_from ks i < p
drawn_from-lt p [] i h low = h
drawn_from-lt p (k ∷ ks) zero h low = low.0
drawn_from-lt p (k ∷ ks) (suc i) h low = drawn_from-lt p ks i h low.1

drawn_from-append :
    (front : List ℕ) (k : ℕ) (ks : List ℕ) → drawn_from (front ++ k ∷ ks) (length front) ≡ k
drawn_from-append [] k ks = refl
drawn_from-append (f ∷ front) k ks = drawn_from-append front k ks

draw-drawn_from :
    (front ks : List ℕ) → draw (drawn_from (front ++ ks)) (length ks) (length front) ≡ ks
unfolding draw
draw-drawn_from front [] = refl
draw-drawn_from front (k ∷ ks) =
    let next : length (front ++ k ∷ []) ≡ suc (length front) =
      omega (arith, length-append {0} front (k ∷ [])) in
    ap (λ t. t ∷ draw (drawn_from (front ++ k ∷ ks)) (length ks) (suc (length front)))
      (drawn_from-append front k ks)
    ∙ ap (λ n. k ∷ draw (drawn_from (front ++ k ∷ ks)) (length ks) n) (sym next)
    ∙ ap (λ l. k ∷ draw (drawn_from l) (length ks) (length (front ++ k ∷ [])))
        (sym (append_assoc front (k ∷ []) ks))
    ∙ ap (λ t. k ∷ t) (draw-drawn_from (front ++ k ∷ []) ks)

module _ (p : ℕ) (large : 1 < p) (fermat : IsFermat p) where
  abbrev R : Ring
  R = residues p large

  open R use {K, ◌⊕◌, neg, add_comm, add_assoc, add_neg}

  infixl 65 ◌⊕◌
  evaluate_polynomial-lt : (cs : List ℕ) (x : ℕ) → evaluate_polynomial p cs x < p
  unfolding evaluate_polynomial
  evaluate_polynomial-lt [] x = omega arith
  evaluate_polynomial-lt (c ∷ cs) x = mod-lt (evaluate_polynomial p cs x * x + c) (omega arith)

  -- Coefficients with the constant s' that take the values of the old ones at each x.
  abbrev Alike : ℕ → List ℕ → List ℕ → ℕ → Type 0
  Alike s' cs new x = evaluate_polynomial p (s' ∷ new) x ≡ evaluate_polynomial p cs x

  numbers : List K → List ℕ
  numbers ks = map (λ (k : K). k.0) ks

  residues-numbers : (ks : List K) → map (residue p large) (map (λ (k : K). k.0) ks) ≡ ks
  residues-numbers [] = refl
  residues-numbers (k ∷ ks) =
      ap (λ t. t ∷ map (residue p large) (map (λ (k : K). k.0) ks)) (residue_self p large k)
      ∙ ap (λ t. k ∷ t) (residues-numbers ks)

  -- From coefficients in the ring to numbers.
  from_ring :
      (s' : ℕ) (cs : List ℕ) (xs : List ℕ) (ks : List K)
      → constant R (power p large) ks ≡ residue p large s'
      → length ks ≡ length cs
      → 0 < length cs
      → Each
          (λ x.
            horner R (power p large) ks (residue p large x)
            ≡ horner R (power p large) (map (residue p large) cs) (residue p large x))
          xs
      → (new : List ℕ) × (suc (length new) ≡ length cs)
        × Each (λ k. k < p) new
        × Each (Alike s' cs new) xs
  unfolding constant
  from_ring s' cs xs [] first len any same = absurd (omega (arith, len))
  from_ring s' cs xs (k ∷ ks) first len any same =
      let new = map (λ (k : K). k.0) ks in
      let whole : map (residue p large) (s' ∷ new) ≡ k ∷ ks =
        ap (λ t. t ∷ map (residue p large) new) (sym first)
        ∙ ap (λ t. k ∷ t) (residues-numbers ks) in
      (
        new,
        omega (arith, len, length-map (λ (k : K). k.0) ks),
        all_low ks,
        Each-map _ _ xs
            (λ x e.
              sym (mod-eq_of_lt (evaluate_polynomial-lt (s' ∷ new) x))
              ∙ ap (λ t. t.0)
                  (evaluate_polynomial-horner p large (s' ∷ new) x
                    ∙ ap (λ l. horner R (power p large) l (residue p large x)) whole
                    ∙ e
                    ∙ sym (evaluate_polynomial-horner p large cs x))
              ∙ mod-eq_of_lt (evaluate_polynomial-lt cs x))
            same,
      )
    where
      all_low : (ks : List K) → Each (λ k. k < p) (map (λ (k : K). k.0) ks)
      all_low [] = tt
      all_low (k ∷ ks) = (k.1, all_low ks)

  -- Fewer points than coefficients fit every constant.
  alike :
      (s s' : ℕ) (others xs : List ℕ)
      → Each (λ x. (0 < x) × (x < p)) xs
      → length xs ≤ length others
      → (new : List ℕ) × (suc (length new) ≡ length (s ∷ others))
        × Each (λ k. k < p) new
        × Each (Alike s' (s ∷ others) new) xs
  unfolding constant
  alike s s' others xs low few =
      let r = residue p large in
      let cs = map r (s ∷ others) in
      let c = r s' ⊕ neg (r s) in
      let ks = masked R (power p large) c (map r xs) cs in
      from_ring s' (s ∷ others) xs ks
        (constant-masked R (power p large) c (map r xs) cs
          ∙ add_left_comm R (r s) (r s') (neg (r s))
          ∙ ap (λ t. r s' ⊕ t) (add_neg (r s))
          ∙ add_nil R (r s'))
        (length-masked R (power p large) c (map r xs) cs
            (omega (arith, few, length-map r xs, length-map r others))
          ∙ length-map r (s ∷ others))
        (omega arith) (back _ xs (masked-same R (power p large) c (map r xs) cs (units xs low)))
    where
      units :
          (xs : List ℕ)
          → Each (λ x. (0 < x) × (x < p)) xs
          → Each (IsUnit R (power p large)) (map (residue p large) xs)
      units [] h = tt
      units (x ∷ xs) h = (
        power-IsUnit p large fermat (residue p large x)
            (λ e. absurd (omega (arith, h.0.0, sym (mod-eq_of_lt h.0.1) ∙ e))),
        units xs h.1,
      )

      back :
          (P : K → Type 0) (xs : List ℕ)
          → Each P (map (residue p large) xs)
          → Each (λ x. P (residue p large x)) xs
      back P [] h = tt
      back P (x ∷ xs) h = (h.0, back P xs h.1)

some-eq : {A : Type 0} {a b : A} → some a ≡ some b → a ≡ b
some-eq {A} {a} e = ap (λ (o : Option A). elim o [ none ↦ a | some c ↦ c ]) e

-- The share at the place j, below the total, with the polynomial's value at its index.
abbrev pub HasValueAt : ℕ → List ℕ → ℕ → ℕ → KeyShare → Type 0
HasValueAt p cs total j s =
    (j < total) × (s.index ≡ j + 1) × (s.value ≡ to_bytes 32 (evaluate_polynomial p cs (j + 1)))

abbrev HasValue : ℕ → List ℕ → ℕ → KeyShare → Type 0
HasValue p cs total s = (j : ℕ) × HasValueAt p cs total j s

Each-zip :
    {A B : Type 0} (P : A → Type 0) (Q : B → Type 0) (S : A → Type 0) (f : A → B) (xs : List A)
    → ((x : A) → P x → Q (f x) → S x)
    → Each P xs
    → Each Q (map f xs)
    → Each S xs
Each-zip P Q S f [] g hp hq = tt
Each-zip P Q S f (x ∷ xs) g hp hq = (g x hp.0 hq.0, Each-zip P Q S f xs g hp.1 hq.1)

-- The value that a share of split has at its index.
pub Among-value :
    (keccak : Bytes → Bytes) (p : ℕ) (drawn : ℕ → ℕ) (now : ℕ) (secret : Bytes)
    (config : ThresholdConfig) (context_id : Text) (shares : List KeyShare) (h : 0 < p)
    (fits : p ≤ 256 ^ 32)
    → length config.holders ≡ config.total_shares
    → length secret ≡ 32
    → split keccak p drawn now secret config context_id ≡ ok shares
    → (s : KeyShare) (a : Among s shares)
    → HasValueAt p
        (from_bytes secret ∷ draw drawn (config.threshold - 1) 0)
        config.total_shares
        a.0
        s
Among-value keccak p drawn now secret config context_id shares h fits holders whole made s
      (j, here) =
    let (all, again, len, stands) =
      split-returns keccak p drawn now secret config context_id h fits whole holders in
    let same : all ≡ shares = ok-eq (sym again ∙ made) in
    let at = subst (λ l. get_elem? l j ≡ some s) (sym same) here in
    let low : j < config.total_shares = omega (arith, get_elem?-lt all j at, len) in
    let (holder, found, other) = stands j low in
    let equal : share_of p (from_bytes secret ∷ draw drawn (config.threshold - 1) 0) config
          context_id now (keccak secret) h fits (0 + j) holder
        ≡ s =
      some-eq (sym other ∙ at) in
    (
      low,
      ap (λ (t : KeyShare). t.index) (sym equal) ∙ omega arith,
      ap (λ (t : KeyShare). t.value) (sym equal)
          ∙ ap
              (λ n.
                to_bytes 32 (
                  evaluate_polynomial p (from_bytes secret ∷ draw drawn (config.threshold - 1) 0)
                    n))
              (omega arith),
    )

-- Fewer shares than the threshold fit every secret: for every other 32 bytes there are draws
-- below p with which split makes shares of it that have the same values at the indices of the
-- given shares. The modulus p passes Fermat's test, fits into 32 bytes and is larger than the
-- number of shares, and each share has a holder.
pub split-fits_all :
    (keccak : Bytes → Bytes) (p : ℕ) (drawn : ℕ → ℕ) (now : ℕ) (secret other : Bytes)
    (config : ThresholdConfig) (context_id : Text) (shares given : List KeyShare)
    → 1 < p
    → IsFermat p
    → p ≤ 256 ^ 32
    → config.total_shares < p
    → length config.holders ≡ config.total_shares
    → length secret ≡ 32
    → length other ≡ 32
    → split keccak p drawn now secret config context_id ≡ ok shares
    → Each (λ s. Among s shares) given
    → length given < config.threshold
    → (again : ℕ → ℕ) × ((i : ℕ) → again i < p)
      × ((forged : List KeyShare) × (split keccak p again now other config context_id ≡ ok forged)
          × Each
              (λ s. (t : KeyShare) × Among t forged × (t.index ≡ s.index) × (t.value ≡ s.value))
              given)
split-fits_all keccak p drawn now secret other config context_id shares given large fermat fits few
      holders whole whole' made among short =
    let h : 0 < p = omega arith in
    let old = draw drawn (config.threshold - 1) 0 in
    let cs = from_bytes secret ∷ old in
    let facts : Each (HasValue p cs config.total_shares) given =
      Each-map _ _ given
        (λ s a. (
          a.0,
          Among-value keccak p drawn now secret config context_id shares h fits holders whole made s
              a,
        ))
        among in
    let (new, len, low, same) =
      alike p large fermat (from_bytes secret) (from_bytes other) old
        (map (λ (s : KeyShare). s.index) given)
        (Each-of _ _ (λ (s : KeyShare). s.index)
          (λ s a. (omega (arith, a.1.1), omega (arith, a.1.1, a.1.0))) given facts)
        (omega (
          arith,
          length-map (λ (s : KeyShare). s.index) given,
          length-draw drawn (config.threshold - 1) 0,
        )) in
    let again = drawn_from new in
    let (forged, made', len', stands) =
      split-returns keccak p again now other config context_id h fits whole' holders in
    let redrawn : draw again (config.threshold - 1) 0 ≡ new =
      ap (λ n. draw again n 0) (omega (arith, len, length-draw drawn (config.threshold - 1) 0))
      ∙ draw-drawn_from [] new in
    (
      again,
      λ i. drawn_from-lt p new i h low,
      (
        forged,
        made',
        Each-zip (HasValue p cs config.total_shares) _ _ (λ (s : KeyShare). s.index) given
            (λ s v e.
              let (holder, found, here) = stands v.0 v.1.0 in
              (
                share_of p (from_bytes other ∷ draw again (config.threshold - 1) 0) config
                    context_id now (keccak other) h fits (0 + v.0) holder,
                (v.0, here),
                omega (arith, v.1.1),
                ap (λ l. to_bytes 32 (evaluate_polynomial p (from_bytes other ∷ l) (0 + v.0 + 1)))
                      redrawn
                    ∙ ap (λ n. to_bytes 32 (evaluate_polynomial p (from_bytes other ∷ new) n))
                        (omega (arith, v.1.1))
                    ∙ ap (to_bytes 32) e
                    ∙ ap (λ n. to_bytes 32 (evaluate_polynomial p cs n)) v.1.1
                    ∙ sym v.1.2,
              ))
            facts same,
      ),
    )
