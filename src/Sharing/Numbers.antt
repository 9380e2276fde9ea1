-- ===== src/Sharing/Numbers.antt =====
-- What `reconstruct` of src/rra/privacy/secret_sharing.py makes of shares, and of which.
use native.Mathlib.Nat.{mod-eq_of_lt, add-mod-mod}
use rra_module.Prelude.{
  ℕ, zero, suc, ◌+◌, ◌-◌, ◌*◌, ◌%◌, ◌≤◌, ◌<◌, ◌≡◌, ◌≢◌, ◌↔◌, refl, sym, ◌∙◌, ap, subst, inl, inr,
  true, false, none, some, List, [], ◌∷◌, Each, Each-map, Each-take, Each-get_elem?, map, map-take,
  length, length-map, take-length, take, get_elem?, any, arith, Absent, AreDistinct,
  AreDistinct-take, number_key, ltb, ◌==◌, Bool-cases, Option-cases,
}
use rra_module.Prelude.Int.{
  ℤ, pos, ◌+ℤ◌, ◌<ℤ◌, ◌≤ℤ◌, mod_ℤ, leb_ℤ, mod_ℤ-lt, mod_ℤ-add, mod_ℤ-add_pos, mod_ℤ_self_iff,
}
use rra_module.Sharing.Modular.{mul-mod-mod}
use rra_module.Sharing.Inverses.{IsFermat, batch_modular_inverse-powers}
use rra_module.Sharing.Lagrange.{nodes-AreApart, denominators-ne_zero, lagrange_interpolate-secret}
use rra_module.Sharing.Recovery.{Each-of, length-draw}
use rra_module.Sharing.Arithmetic.{
  evaluate_polynomial, pow, product_row, product_rows, combine, lagrange_interpolate,
}
use rra_module.Sharing.Shamir.{draw}
use rra_module.Sharing.Threshold.{
  Share, SharingError, Outcome, done, failed, Scheme, new_scheme, share_out, split_number, evaluate,
  check_indices, interpolate, points_of, reconstruct_number,
}

-- Each share's term with its own inverse, as against the batch of them.
interpolate-combine :
    (p : ℕ) (points : List (ℕ × ℕ)) (i : ℕ) (rest : List (ℕ × ℕ)) (secret : ℕ)
    → let rows = product_rows p 0 points i rest in
      interpolate p points i rest secret
      ≡ combine p rest
          (map (λ (r : ℕ × ℕ). r.0) rows)
          (map (λ v. pow v (p - 2) p) (map (λ (r : ℕ × ℕ). r.1) rows))
          secret
unfolding interpolate product_rows combine
interpolate-combine p points i [] secret = refl
interpolate-combine p points i ((x, y) ∷ rest) secret =
    let row = product_row p 0 i x 0 points (1, 1) in
    let v = pow row.1 (p - 2) p in
    let turned : y * (row.0 * v) ≡ y * row.0 * v = omega arith in
    let step : (secret + y * ((row.0 * v) % p)) % p ≡ (secret + (y * row.0 * v) % p) % p =
      sym (add-mod-mod secret (y * ((row.0 * v) % p)) p)
      ∙ ap (λ t. (secret + t) % p) (mul-mod-mod y (row.0 * v) p ∙ ap (λ t. t % p) turned) in
    ap (interpolate p points (suc i) rest) step
    ∙ interpolate-combine p points (suc i) rest ((secret + (y * row.0 * v) % p) % p)

-- The interpolation of secret_sharing.py, with an inverse for each point, gives the same number
-- as that of shamir.py, with the batch of inverses, at points with distinct indices below the
-- modulus, which is larger than one and passes Fermat's test.
pub interpolate-lagrange_interpolate :
    (p : ℕ) (points : List (ℕ × ℕ))
    → 1 < p
    → IsFermat p
    → AreDistinct (map (λ (t : ℕ × ℕ). t.0) points)
    → Each (λ x. x < p) (map (λ (t : ℕ × ℕ). t.0) points)
    → interpolate p points 0 points 0 ≡ lagrange_interpolate p 0 points
unfolding lagrange_interpolate
interpolate-lagrange_interpolate p points large fermat distinct low =
    let rows = product_rows p 0 points 0 points in
    let dens = map (λ (r : ℕ × ℕ). r.1) rows in
    interpolate-combine p points 0 points 0
    ∙ ap (λ l. combine p points (map (λ (r : ℕ × ℕ). r.0) rows) l 0)
        (sym
          (batch_modular_inverse-powers p large fermat dens (
            denominators-ne_zero p large fermat points [] points 0 refl refl
              (nodes-AreApart p large fermat points distinct low))).0)

-- An index that may stand, after those in `seen`.
abbrev AreValid : List ℕ → List Share → Type 0
AreValid seen [] = Unit
AreValid seen (s ∷ shares) =
    ((1 ≤ s.index) × (s.index ≤ 255)) × Absent s.index seen × AreValid (s.index ∷ seen) shares

any-Absent : (i : ℕ) (seen : List ℕ) → (any (λ j. j == i) seen ≡ false) ↔ Absent i seen
any-Absent i [] = ground arith
any-Absent i (j ∷ seen) = ground (arith, any-Absent i seen)

check_indices_iff :
    (seen : List ℕ) (shares : List Share)
    → (check_indices seen shares ≡ none) ↔ AreValid seen shares
unfolding check_indices
check_indices_iff seen [] = ground arith
check_indices_iff seen (s ∷ shares) =
    ground (arith, any-Absent s.index seen, check_indices_iff (s.index ∷ seen) shares)

abbrev indices : List Share → List ℕ
indices shares = map (λ (s : Share). s.index) shares

-- Absence from a list, turned round.
Absent-indices :
    (i : ℕ) (seen : List ℕ) (shares : List Share)
    → Each (λ (s : Share). Absent s.index (i ∷ seen)) shares
    → Absent i (indices shares) × Each (λ (s : Share). Absent s.index seen) shares
Absent-indices i seen [] h = (tt, tt)
Absent-indices i seen (s ∷ shares) h =
    let (absent, rest) = Absent-indices i seen shares h.1 in
    ((λ e. h.0.0 (sym e), absent), (h.0.1, rest))

indices-Absent :
    (i : ℕ) (seen : List ℕ) (shares : List Share)
    → Absent i (indices shares)
    → Each (λ (s : Share). Absent s.index seen) shares
    → Each (λ (s : Share). Absent s.index (i ∷ seen)) shares
indices-Absent i seen [] absent h = tt
indices-Absent i seen (s ∷ shares) absent h =
    ((λ e. absent.0 (sym e), h.0), indices-Absent i seen shares absent.1 h.1)

AreValid-AreDistinct :
    (seen : List ℕ) (shares : List Share)
    → AreValid seen shares ↔ (
        Each (λ (s : Share). (1 ≤ s.index) × (s.index ≤ 255)) shares
        × AreDistinct (indices shares)
        × Each (λ (s : Share). Absent s.index seen) shares)
AreValid-AreDistinct seen [] = (λ h. (tt, tt, tt), λ h. tt)
AreValid-AreDistinct seen (s ∷ shares) = (
  λ h.
      let (range, distinct, fresh) = (AreValid-AreDistinct (s.index ∷ seen) shares).0 h.2 in
      let (absent, rest) = Absent-indices s.index seen shares fresh in
      ((h.0, range), (absent, distinct), (h.1, rest)),
  λ h. (
    h.0.0,
    h.2.0,
    (AreValid-AreDistinct (s.index ∷ seen) shares).1
        (h.0.1, h.1.1, indices-Absent s.index seen shares h.1.0 h.2.1),
  ),
)

Each-nothing : (shares : List Share) → Each (λ (s : Share). Absent s.index []) shares
Each-nothing [] = tt
Each-nothing (s ∷ shares) = (tt, Each-nothing shares)

outcome-done : {A : Type 0} {a b : A} → done a ≡ done b → a ≡ b
outcome-done {A} {a} e = ap (λ (o : Outcome A). elim o [ done c ↦ c | failed x ↦ a ]) e

failed-ne_done : {A : Type 0} {e : SharingError} {a : A} → failed e ≢ done a
failed-ne_done {A} h =
    let both : false ≡ true =
      ap (λ (o : Outcome A). elim o [ done c ↦ true | failed x ↦ false ]) h in
    cc

-- Shares are put together exactly if there are at least as many as the threshold and all their indices
-- lie between 1 and 255 and are distinct, also those of the shares that are not used.
pub reconstruct_number-done_iff :
    (shares : List Share) (s : Scheme)
    → ((secret : ℕ) × (reconstruct_number shares s ≡ done secret)) ↔ (
        (s.threshold ≤ length shares)
        × Each (λ (t : Share). (1 ≤ t.index) × (t.index ≤ 255)) shares
        × AreDistinct (map (λ (t : Share). t.index) shares))
unfolding reconstruct_number
reconstruct_number-done_iff shares s = (
  λ (secret, made). elim (Bool-cases (ltb (length shares) s.threshold)) [
    | inl few ↦ absurd (failed-ne_done (rw (few, reconstruct_number) at made))
    | inr enough ↦ elim (Option-cases (check_indices [] shares)) [
      | inr (e, bad) ↦ absurd (failed-ne_done (rw (enough, bad, reconstruct_number) at made))
      | inl good ↦
          let (range, distinct, fresh) =
            (AreValid-AreDistinct [] shares).0 ((check_indices_iff [] shares).0 good) in
          (ground (arith, enough), range, distinct)
    ]
  ],
  λ (enough, range, distinct).
      let plenty : ltb (length shares) s.threshold ≡ false = ground (arith, enough) in
      let good =
        (check_indices_iff [] shares).1
          ((AreValid-AreDistinct [] shares).1 (range, distinct, Each-nothing shares)) in
      let points = points_of (take s.threshold shares) in
      (interpolate s.prime points 0 points 0, rw (plenty, good, reconstruct_number) refl),
)

-- A share of the polynomial with the coefficients.
abbrev IsPoint : ℕ → List ℕ → ℕ → Share → Type 0
IsPoint p cs total t =
    (1 ≤ t.index) × (t.index ≤ total) × (t.value ≡ evaluate_polynomial p cs t.index)

share_out-IsPoint :
    (p : ℕ) (cs : List ℕ) (coefficients : List ℤ) (total left x : ℕ)
    → ((y : ℕ) → evaluate p coefficients y ≡ evaluate_polynomial p cs y)
    → 1 ≤ x
    → x + left ≤ total + 1
    → Each (IsPoint p cs total) (share_out p coefficients left x)
unfolding share_out
share_out-IsPoint p cs coefficients total zero x same low high = tt
share_out-IsPoint p cs coefficients total (suc left) x same low high = (
  (low, omega arith, same x),
  share_out-IsPoint p cs coefficients total left (suc x) same (omega arith) (omega arith),
)

evaluate-pos :
    (p : ℕ) (cs : List ℕ) (x : ℕ) → evaluate p (map pos cs) x ≡ evaluate_polynomial p cs x
unfolding evaluate evaluate_polynomial
evaluate-pos p [] x = refl
evaluate-pos p (c ∷ cs) x =
    ap (λ n. mod_ℤ (pos (n * x) +ℤ pos c) p) (evaluate-pos p cs x)
    ∙ mod_ℤ-add_pos (evaluate_polynomial p cs x * x) c p

-- A negative secret stands for its remainder.
evaluate-residue :
    (p : ℕ) (secret : ℤ) (cs : List ℕ) (x : ℕ)
    → 0 < p
    → evaluate p (secret ∷ map pos cs) x ≡ evaluate_polynomial p (mod_ℤ secret p ∷ cs) x
unfolding evaluate evaluate_polynomial
evaluate-residue p secret cs x h =
    ap (λ n. mod_ℤ (pos (n * x) +ℤ secret) p) (evaluate-pos p cs x)
    ∙ mod_ℤ-add (evaluate_polynomial p cs x * x) secret p h

points-firsts : (shares : List Share) → indices shares ≡ map (λ (t : ℕ × ℕ). t.0) (points_of shares)
points-firsts [] = refl
points-firsts (s ∷ shares) = ap (λ t. s.index ∷ t) (points-firsts shares)

interpolate-secret :
    (p secret : ℕ) (others : List ℕ) (total : ℕ) (shares : List Share)
    → 1 < p
    → IsFermat p
    → total < p
    → secret < p
    → suc (length others) ≤ length shares
    → Each (IsPoint p (secret ∷ others) total) shares
    → AreDistinct (indices shares)
    → interpolate p (points_of shares) 0 (points_of shares) 0 ≡ secret
interpolate-secret p secret others total shares large fermat few low enough each distinct =
    let point : Share → ℕ × ℕ = λ t. (t.index, t.value) in
    let points = points_of shares in
    let distinct' = subst AreDistinct (points-firsts shares) distinct in
    let below = subst (Each (λ x. x < p)) (points-firsts shares) (
      Each-of (IsPoint p (secret ∷ others) total) (λ x. x < p) (λ (t : Share). t.index)
        (λ t h. omega (arith, h.1)) shares each) in
    interpolate-lagrange_interpolate p points large fermat distinct' below
    ∙ lagrange_interpolate-secret p large fermat secret others points
        (Each-of _ _ point (λ t h. h.2) shares each) distinct' below
        (omega (arith, enough, length-map point shares))
    ∙ mod-eq_of_lt low

abbrev scheme_of : ℕ → ℕ → ℕ → Scheme
scheme_of threshold total p = record { threshold = threshold; total_shares = total; prime = p }

new_scheme-done :
    (threshold total p : ℕ) (s : Scheme)
    → new_scheme threshold total p ≡ done s
    → (scheme_of threshold total p ≡ s) × (2 ≤ threshold) × (threshold ≤ total) × (total ≤ 255)
unfolding new_scheme
new_scheme-done threshold total p s h = elim (Bool-cases (ltb threshold 2)) [
  | inl low ↦ absurd (failed-ne_done (rw (low, new_scheme) at h))
  | inr two ↦ elim (Bool-cases (ltb total threshold)) [
    | inl short ↦ absurd (failed-ne_done (rw (two, short, new_scheme) at h))
    | inr enough ↦ elim (Bool-cases (ltb 255 total)) [
      | inl many ↦ absurd (failed-ne_done (rw (two, enough, many, new_scheme) at h))
      | inr fits ↦ (
        outcome-done (rw (two, enough, fits, new_scheme) at h),
        ground (arith, two),
        ground (arith, enough),
        ground (arith, fits),
      )
    ]
  ]
]

split_number-done :
    (drawn : ℕ → ℕ) (secret : ℤ) (s : Scheme) (shares : List Share)
    → 0 < s.prime
    → split_number drawn secret s ≡ done shares
    → (secret <ℤ pos s.prime)
      × Each
          (IsPoint s.prime (mod_ℤ secret s.prime ∷ draw drawn (s.threshold - 1) 0) s.total_shares)
          shares
unfolding split_number
split_number-done drawn secret s shares positive h =
    let others = draw drawn (s.threshold - 1) 0 in
    elim (Bool-cases (leb_ℤ (pos s.prime) secret)) [
      | inl large ↦ absurd (failed-ne_done (rw (large, split_number) at h))
      | inr low ↦ (
        ground (arith, low),
        subst (Each (IsPoint s.prime (mod_ℤ secret s.prime ∷ others) s.total_shares))
            (outcome-done (rw (low, split_number) at h))
            (share_out-IsPoint s.prime (mod_ℤ secret s.prime ∷ others) (secret ∷ map pos others)
              s.total_shares s.total_shares 1
              (λ y. evaluate-residue s.prime secret others y positive) (omega arith) (omega arith)),
      )
    ]

reconstruct_number-points :
    (p secret : ℕ) (others : List ℕ) (threshold total : ℕ) (given : List Share)
    → 1 < p
    → IsFermat p
    → total < p
    → total ≤ 255
    → secret < p
    → suc (length others) ≡ threshold
    → threshold ≤ length given
    → Each (IsPoint p (secret ∷ others) total) given
    → AreDistinct (indices given)
    → reconstruct_number given (scheme_of threshold total p) ≡ done secret
unfolding reconstruct_number
reconstruct_number-points p secret others threshold total given large fermat few most low len enough
      each distinct =
    let plenty : ltb (length given) threshold ≡ false = ground (arith, enough) in
    let range : Each (λ (t : Share). (1 ≤ t.index) × (t.index ≤ 255)) given =
      Each-map _ _ given (λ (t : Share) h. (h.0, omega (arith, h.1))) each in
    let good =
      (check_indices_iff [] given).1
        ((AreValid-AreDistinct [] given).1 (range, distinct, Each-nothing given)) in
    rw (plenty, good, reconstruct_number)
      (ap done (
        interpolate-secret p secret others total (take threshold given) large fermat few low
          (omega (arith, len, take-length threshold given))
          (Each-take (IsPoint p (secret ∷ others) total) threshold given each)
          (subst AreDistinct (sym (map-take (λ (t : Share). t.index) threshold given))
            (AreDistinct-take threshold (indices given) distinct))))

-- What split makes of an integer, which is below the prime p, are shares of its remainder modulo p:
-- any of them with distinct indices, at least as many as the threshold, are put together to the
-- remainder. This is the integer that was split exactly if that is not negative. The prime passes
-- Fermat's test and is larger than the number of shares.
pub reconstruct_number-split_number :
    (p : ℕ) (drawn : ℕ → ℕ) (secret : ℤ) (threshold total : ℕ) (s : Scheme)
    (shares given : List Share)
    → 1 < p
    → IsFermat p
    → total < p
    → new_scheme threshold total p ≡ done s
    → split_number drawn secret s ≡ done shares
    → Each (λ t. (i : ℕ) × (get_elem? shares i ≡ some t)) given
    → AreDistinct (map (λ (t : Share). t.index) given)
    → threshold ≤ length given
    → (reconstruct_number given s ≡ done (mod_ℤ secret p))
      × ((pos (mod_ℤ secret p) ≡ secret) ↔ (pos 0 ≤ℤ secret))
reconstruct_number-split_number p drawn secret threshold total s shares given large fermat few
      scheme made among distinct enough =
    let (same, two, ordered, most) = new_scheme-done threshold total p s scheme in
    let (low, each) =
      split_number-done drawn secret (scheme_of threshold total p) shares (omega arith)
        (ap (split_number drawn secret) same ∙ made) in
    (
      ap (reconstruct_number given) (sym same)
          ∙ reconstruct_number-points p (mod_ℤ secret p) (draw drawn (threshold - 1) 0) threshold
              total given large fermat few most (mod_ℤ-lt secret p (omega arith))
              (omega (arith, length-draw drawn (threshold - 1) 0)) enough
              (Each-map _ _ given (λ t a. Each-get_elem? _ shares a.0 each a.1) among) distinct,
      mod_ℤ_self_iff secret p low,
    )
