-- ===== src/Tests/Toy.antt =====
-- An instance of viem: addresses of forty digits whose checksummed spelling is the lower case, one
-- digest for every text, and signatures that are the address of their signer.
use xrp_payguard.Base.{
  ℕ, suc, ◌-◌, ◌/◌, length, ap, arith, ◌≡◌, refl, Bool, true, false, ◌&&◌, ◌==◌, [], ◌∷◌, replicate,
  and-true,
}
use xrp_payguard.Text.{Text, to_lower_case, is_hex_run, is_hex_digits, is_hex, is_hex32}
use xrp_payguard.Text.Laws.{
  to_lower_case_idem, is_hex_run-to_lower_case, zero_digit, x_letter, is_hex_digits-is_hex_run,
}
use xrp_payguard.Failure.{Result, ok, err, external}
use xrp_payguard.Viem.{Viem, ViemLaws}

abbrev pub hash32 : ℕ → Text
hash32 c = b'0' ∷ b'x' ∷ replicate 64 c

abbrev pub address40 : ℕ → Text
address40 c = b'0' ∷ b'x' ∷ replicate 40 c

unfoldable pub is_toy_address : Text → Bool
unfolding is_hex_run
is_toy_address (z ∷ x ∷ t) = z == b'0' && (x == b'x' && is_hex_run 40 t)
is_toy_address _ = false

unfoldable pub toy_address : Bool → Text → Result Text
unfolding to_lower_case
toy_address true t = ok (to_lower_case t)
toy_address false t = err external

abbrev pub toy : Viem
toy = record {
  keccak256 = λ t. hash32 b'a';
  encode_abi_parameters = λ types values. ok [];
  is_address = is_toy_address;
  get_address = λ t. toy_address (is_toy_address t) t;
  string_to_hex = λ t. t;
  pad_right32 = λ t. hash32 b'b';
  hex_to_bytes_length = λ t. ok ((length t - 1) / 2);
  recover_message_address = λ digest signature. ok signature;
}

toy_address-eq :
    (t : Text) → is_toy_address t ≡ true → toy_address (is_toy_address t) t ≡ ok (to_lower_case t)
unfolding toy_address
toy_address-eq t h = rw h refl

is_toy_address-lower :
    (t : Text) → is_toy_address t ≡ true → is_toy_address (to_lower_case t) ≡ true
unfolding is_toy_address to_lower_case
is_toy_address-lower [] h = cc
is_toy_address-lower (z ∷ []) h = cc
is_toy_address-lower (z ∷ x ∷ t) h =
    let (first, rest) = and-true _ _ h in
    let (second, digits) = and-true _ _ rest in
    rw (zero_digit z first, x_letter x second, is_hex_run-to_lower_case 40 t digits)

is_toy_address-is_hex : (t : Text) → is_toy_address t ≡ true → is_hex t ≡ true
unfolding is_toy_address is_hex
is_toy_address-is_hex [] h = cc
is_toy_address-is_hex (z ∷ []) h = cc
is_toy_address-is_hex (z ∷ x ∷ t) h =
    let (first, rest) = and-true (z == b'0') _ h in
    let (second, digits) = and-true (x == b'x') (is_hex_run 40 t) rest in
    rw (first, second, is_hex_digits-is_hex_run 39 t digits) refl

is_hex-bytes :
    (t : Text)
    → is_hex t ≡ true
    → (n : ℕ) × (◌≡◌ {A = Result ℕ} (ok ((length t - 1) / 2)) (ok (suc n)))
unfolding is_hex is_hex_digits
is_hex-bytes [] h = cc
is_hex-bytes (z ∷ []) h = cc
is_hex-bytes (z ∷ x ∷ []) h = absurd (ground arith)
is_hex-bytes (z ∷ x ∷ c ∷ t) h = (length t / 2, ap ok (omega arith))

pub toy_laws : ViemLaws toy
unfolding is_hex32 to_lower_case
toy_laws = record {
  keccak256-is_hex32 = λ t. refl;
  keccak256-lower = λ t. refl;
  checksum = λ a h. to_lower_case a;
  get_address_lem = λ a h. toy_address-eq a h;
  checksum-is_address = λ a h. is_toy_address-lower a h;
  checksum_again = λ a h.
      rw (toy_address-eq (to_lower_case a) (is_toy_address-lower a h), to_lower_case_idem a) refl;
  lower-is_address = λ a h. is_toy_address-lower a h;
  get_address-lower = λ a h.
      rw (toy_address-eq (to_lower_case a) (is_toy_address-lower a h), to_lower_case_idem a) refl;
  checksum-lower = λ a h. to_lower_case_idem a;
  is_address-is_hex = λ a h. is_toy_address-is_hex a h;
  hex_to_bytes_length-is_hex = λ t h. is_hex-bytes t h;
}
