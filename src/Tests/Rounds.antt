-- ===== src/Tests/Rounds.antt =====
-- A voting round that the contract gives as a string.
use xrp_payguard.Base.{◌≡◌, ◌↔◌, refl}
use xrp_payguard.Base.Int.{pos}
use xrp_payguard.Text.{codes, lower, to_lower_case, text_eq, is_hex_digit, is_hex_run}
use xrp_payguard.Text.Decimal.{value_from, decimal_value, is_digit, is_decimal}
use xrp_payguard.Failure.{ok}
use xrp_payguard.Integrations.FdcRound.{
  given, VotingRound, string, normalize_timestamp, round_of, check_round, normalize_round,
  checked_address, normalize_address, read_round, derive_coston2_fdc_voting_round,
}
use xrp_payguard.Integrations.FdcRound.Laws.{IsVotingRound, derive_coston2_fdc_voting_round_iff}
use xrp_payguard.Tests.Toy.{toy, address40, is_toy_address, toy_address}

abbrev round : VotingRound
round = record {
  chain_id = pos 114;
  relay_address = address40 b'1';
  block_timestamp = pos 1700000000;
  voting_round_id = pos 921;
}

derives :
    derive_coston2_fdc_voting_round toy
      (λ a t. ok (string (codes "921")))
      (address40 b'1')
      (pos 1700000000)
    ≡ given round
unfolding lower to_lower_case text_eq is_hex_digit is_hex_run value_from decimal_value is_digit
    is_decimal normalize_timestamp round_of check_round normalize_round checked_address
    normalize_address read_round derive_coston2_fdc_voting_round is_toy_address toy_address
derives = refl

derive_coston2_fdc_voting_round_iff_example :
    (derive_coston2_fdc_voting_round toy
        (λ a t. ok (string (codes "921")))
        (address40 b'1')
        (pos 1700000000)
      ≡ given round)
    ↔ IsVotingRound toy (λ a t. ok (string (codes "921"))) (address40 b'1') (pos 1700000000) round
derive_coston2_fdc_voting_round_iff_example =
    derive_coston2_fdc_voting_round_iff toy (λ a t. ok (string (codes "921"))) (address40 b'1')
      (pos 1700000000) round
