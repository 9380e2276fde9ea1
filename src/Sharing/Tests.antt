-- ===== src/Sharing/Tests.antt =====
-- Shares modulo small primes, by crypto/shamir.py and secret_sharing.py, and the theorems at them.
use native.Mathlib.Nat.{div-add-mod, mod-lt, pow-suc, pow-zero, one-mul}
use rra_module.Prelude.{
  ℕ, zero, suc, ◌+◌, ◌*◌, ◌/◌, ◌%◌, ◌^◌, ◌≤◌, ◌<◌, ◌≡◌, ◌≢◌, ◌↔◌, refl, sym, ◌∙◌, ap, true, List,
  [], ◌∷◌, Each, map, get_elem?, length, arith, AreDistinct, Text,
}
use rra_module.Prelude.Int.{pos, negsuc, ◌+ℤ◌, ◌≤ℤ◌, mod_ℤ}
use rra_module.Rollup.Bytes.{Bytes, to_bytes, from_bytes}
use rra_module.Sharing.Inverses.{IsFermat, AreInverse, batch_modular_inverse-powers}
use rra_module.Sharing.Arithmetic.{
  evaluate_polynomial, pow, batch_modular_inverse, lagrange_interpolate,
}
use rra_module.Sharing.Shamir.{
  ShareHolder, user, dao_governance, protocol_multisig, ThresholdConfig, KeyShare, ok, error,
  commitment_mismatch, to_bytes32, draw, make_share, make_shares, split, reconstruct,
}
use rra_module.Sharing.Recovery.{
  Among, shares_in, reconstruct-split_secret, reconstruct-split_large,
}
use rra_module.Sharing.Escrow.{
  EscrowManager, by_holder, escrow_viewing_key, recover_viewing_key, shares_of,
  verify_reconstruction_possible,
}
use rra_module.Sharing.Custody.{cached, escrow-recover}
use rra_module.Sharing.Threshold.{
  Share, Scheme, done, new_scheme, evaluate, share_out, split_number, interpolate,
  reconstruct_number,
}
use rra_module.Sharing.Numbers.{
  interpolate-lagrange_interpolate, reconstruct_number-done_iff, reconstruct_number-split_number,
}
use rra_module.Sharing.Secrecy.{split-fits_all}

-- Fermat's little theorem for five, by the remainders.
fermat_five_at :
    (q r : ℕ) → r < 5 → r ≢ 0 → ((5 * q + r) * ((5 * q + r) * (5 * q + r) * (5 * q + r))) % 5 ≡ 1
fermat_five_at q zero low h = absurd (h refl)
fermat_five_at q (suc zero) low h = omega arith
fermat_five_at q (suc (suc zero)) low h = omega arith
fermat_five_at q (suc (suc (suc zero))) low h = omega arith
fermat_five_at q (suc (suc (suc (suc zero)))) low h = omega arith
fermat_five_at q (suc (suc (suc (suc (suc r))))) low h = absurd (omega (arith, low))

one_below : 1 < 5
one_below = omega arith

cube : (a : ℕ) → a ^ 3 ≡ a * a * a
cube a =
    let square : a ^ 2 ≡ a * a =
      pow-suc a 1
      ∙ ap (λ (t : ℕ). t * a) (pow-suc a 0 ∙ ap (λ (t : ℕ). t * a) (pow-zero a) ∙ one-mul a) in
    pow-suc a 2 ∙ ap (λ (t : ℕ). t * a) square

five-IsFermat : IsFermat 5
five-IsFermat a h =
    ap (λ (t : ℕ). (a * t) % 5) (cube a)
    ∙ ap (λ (t : ℕ). (t * (t * t * t)) % 5) (sym (div-add-mod a 5))
    ∙ fermat_five_at (a / 5) (a % 5) (mod-lt a (omega arith)) h

abbrev holders : List ShareHolder
holders = user ∷ dao_governance ∷ protocol_multisig ∷ []

abbrev two_of_three : ThresholdConfig
two_of_three = record { threshold = 2; total_shares = 3; holders = holders }

-- Thirty-one zeros and a byte.
abbrev secret : Bytes
secret =
    0 ∷ 0 ∷ 0 ∷ 0 ∷ 0 ∷ 0 ∷ 0 ∷ 0 ∷ 0 ∷ 0 ∷ 0 ∷ 0 ∷ 0 ∷ 0 ∷ 0 ∷ 0 ∷ 0 ∷ 0 ∷ 0 ∷ 0 ∷ 0 ∷ 0 ∷ 0 ∷ 0
    ∷ 0 ∷ 0 ∷ 0 ∷ 0 ∷ 0 ∷ 0 ∷ 0 ∷ 2 ∷ []

abbrev large_secret : Bytes
large_secret =
    0 ∷ 0 ∷ 0 ∷ 0 ∷ 0 ∷ 0 ∷ 0 ∷ 0 ∷ 0 ∷ 0 ∷ 0 ∷ 0 ∷ 0 ∷ 0 ∷ 0 ∷ 0 ∷ 0 ∷ 0 ∷ 0 ∷ 0 ∷ 0 ∷ 0 ∷ 0 ∷ 0
    ∷ 0 ∷ 0 ∷ 0 ∷ 0 ∷ 0 ∷ 0 ∷ 0 ∷ 7 ∷ []

abbrev digest : Bytes → Bytes
digest b = b

abbrev context : Text
context = b'c' ∷ []

abbrev fours : ℕ → ℕ
fours i = 4

-- f(x) = 2 + 4 x modulo 5 at 1, 2 and 3.
abbrev share_at : Bytes → ℕ → ℕ → ShareHolder → KeyShare
share_at bytes x y holder = record {
  index = x;
  value =
      0 ∷ 0 ∷ 0 ∷ 0 ∷ 0 ∷ 0 ∷ 0 ∷ 0 ∷ 0 ∷ 0 ∷ 0 ∷ 0 ∷ 0 ∷ 0 ∷ 0 ∷ 0 ∷ 0 ∷ 0 ∷ 0 ∷ 0 ∷ 0 ∷ 0 ∷ 0 ∷ 0
      ∷ 0 ∷ 0 ∷ 0 ∷ 0 ∷ 0 ∷ 0 ∷ 0 ∷ y ∷ [];
  holder = holder;
  context_id = context;
  created_at = 9;
  threshold = 2;
  total_shares = 3;
  commitment = bytes;
}

abbrev shares : Bytes → List KeyShare
shares bytes =
    share_at bytes 1 1 user
    ∷ share_at bytes 2 0 dao_governance
    ∷ share_at bytes 3 4 protocol_multisig
    ∷ []

shares_made : split digest 5 fours 9 secret two_of_three context ≡ ok (shares secret)
unfolding split from_bytes draw make_shares make_share evaluate_polynomial to_bytes32 to_bytes
shares_made = refl

large_made : split digest 5 fours 9 large_secret two_of_three context ≡ ok (shares large_secret)
unfolding split from_bytes draw make_shares make_share evaluate_polynomial to_bytes32 to_bytes
large_made = refl

abbrev given : Bytes → List KeyShare
given bytes = share_at bytes 3 4 protocol_multisig ∷ share_at bytes 1 1 user ∷ []

reconstruct-split_secret_example : reconstruct digest 5 (given secret) ≡ ok secret
unfolding from_bytes
reconstruct-split_secret_example =
    reconstruct-split_secret digest 5 fours 9 secret two_of_three context (shares secret)
      (given secret) (omega arith) five-IsFermat (omega arith) (omega arith) (omega arith)
      (omega arith) (omega arith) shares_made ((2, refl), ((0, refl), tt)) (omega arith)
      (omega arith)

digests_differ : digest (to_bytes 32 (from_bytes large_secret % 5)) ≢ digest large_secret
unfolding to_bytes from_bytes
digests_differ e =
    let last : ◌≡◌ {A = ℕ} 2 7 = ap (λ (bs : Bytes). from_bytes bs) e in
    absurd (omega (arith, last))

reconstruct-split_large_example :
    (split digest 5 fours 9 large_secret two_of_three context
      ≡ ok (shares_in (split digest 5 fours 9 large_secret two_of_three context)))
    × (reconstruct digest 5 (given large_secret) ≡ error commitment_mismatch)
reconstruct-split_large_example =
    reconstruct-split_large digest 5 fours 9 large_secret two_of_three context (given large_secret)
      (omega arith) five-IsFermat (omega arith) (omega arith) (omega arith) refl (omega arith)
      digests_differ
      (
        (2, ap (λ r. get_elem? (shares_in r) 2) large_made),
        ((0, ap (λ r. get_elem? (shares_in r) 0) large_made), tt),
      )
      (omega arith) (omega arith)

-- One share of two that are needed.
split-fits_all_example :
    (again : ℕ → ℕ) × ((i : ℕ) → again i < 5)
    × ((forged : List KeyShare) × (split digest 5 again 9 large_secret two_of_three context
          ≡ ok forged)
        × Each
            (λ (s : KeyShare).
              (t : KeyShare) × Among t forged × (t.index ≡ s.index) × (t.value ≡ s.value))
            (share_at secret 2 0 dao_governance ∷ []))
split-fits_all_example =
    split-fits_all digest 5 fours 9 secret large_secret two_of_three context (shares secret)
      (share_at secret 2 0 dao_governance ∷ []) (omega arith) five-IsFermat (omega arith)
      (omega arith) (omega arith) (omega arith) (omega arith) shares_made ((1, refl), tt)
      (omega arith)

batch_modular_inverse-powers_example :
    (batch_modular_inverse 5 (2 ∷ 3 ∷ 9 ∷ []) ≡ map (λ v. pow v 3 5) (2 ∷ 3 ∷ 9 ∷ []))
    × AreInverse 5 one_below (2 ∷ 3 ∷ 9 ∷ []) (batch_modular_inverse 5 (2 ∷ 3 ∷ 9 ∷ []))
batch_modular_inverse-powers_example =
    batch_modular_inverse-powers 5 one_below five-IsFermat (2 ∷ 3 ∷ 9 ∷ []) (omega arith)

abbrev manager : EscrowManager
manager = record { config = two_of_three; modulus = 5; shares_cache = [] }

abbrev held : EscrowManager
held = record { config = two_of_three; modulus = 5; shares_cache = (context, shares secret) ∷ [] }

escrowed :
    escrow_viewing_key digest fours 9 secret context manager
    ≡ (held, ok (by_holder [] (shares secret)))
unfolding escrow_viewing_key split from_bytes draw make_shares make_share evaluate_polynomial
    to_bytes32 to_bytes
escrowed = refl

abbrev able : List ShareHolder
able = protocol_multisig ∷ user ∷ []

possible : verify_reconstruction_possible context able held ≡ true
unfolding verify_reconstruction_possible
possible = refl

escrow-recover_example :
    recover_viewing_key digest context (shares_of able (cached context held)) held ≡ ok secret
unfolding from_bytes
escrow-recover_example =
    escrow-recover digest fours 9 secret context manager held (by_holder [] (shares secret)) able
      one_below five-IsFermat (omega arith) (omega arith) (omega arith) refl (omega arith)
      (omega arith) escrowed possible

abbrev scheme : Scheme
scheme = record { threshold = 2; total_shares = 3; prime = 5 }

abbrev numbers : List Share
numbers =
    record { index = 1; value = 1 }
    ∷ record { index = 2; value = 0 }
    ∷ record { index = 3; value = 4 }
    ∷ []

scheme_made : new_scheme 2 3 5 ≡ done scheme
unfolding new_scheme
scheme_made = refl

numbers_made : split_number fours (pos 2) scheme ≡ done numbers
unfolding split_number draw share_out evaluate ◌+ℤ◌ mod_ℤ
numbers_made = refl

abbrev two_numbers : List Share
two_numbers = record { index = 3; value = 4 } ∷ record { index = 2; value = 0 } ∷ []

-- Minus three is split like two, its remainder.
negative_made : split_number fours (negsuc 2) scheme ≡ done numbers
unfolding split_number draw share_out evaluate ◌+ℤ◌ mod_ℤ
negative_made = refl

reconstruct_number-split_number_example :
    (reconstruct_number two_numbers scheme ≡ done (mod_ℤ (negsuc 2) 5))
    × ((pos (mod_ℤ (negsuc 2) 5) ≡ negsuc 2) ↔ (pos 0 ≤ℤ negsuc 2))
reconstruct_number-split_number_example =
    reconstruct_number-split_number 5 fours (negsuc 2) 2 3 scheme numbers two_numbers one_below
      five-IsFermat (omega arith) scheme_made negative_made ((2, refl), ((1, refl), tt))
      (omega arith) (omega arith)

reconstruct_number-done_iff_example :
    ((secret : ℕ) × (reconstruct_number two_numbers scheme ≡ done secret)) ↔ (
      (2 ≤ length two_numbers)
      × Each (λ (t : Share). (1 ≤ t.index) × (t.index ≤ 255)) two_numbers
      × AreDistinct (map (λ (t : Share). t.index) two_numbers))
reconstruct_number-done_iff_example = reconstruct_number-done_iff two_numbers scheme

interpolate-lagrange_interpolate_example :
    interpolate 5 ((3, 4) ∷ (1, 1) ∷ []) 0 ((3, 4) ∷ (1, 1) ∷ []) 0
    ≡ lagrange_interpolate 5 0 ((3, 4) ∷ (1, 1) ∷ [])
interpolate-lagrange_interpolate_example =
    interpolate-lagrange_interpolate 5 ((3, 4) ∷ (1, 1) ∷ []) one_below five-IsFermat (omega arith)
      (omega arith)
