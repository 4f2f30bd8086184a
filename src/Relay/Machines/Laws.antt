-- ===== src/Relay/Machines/Laws.antt =====
-- The machines that pass validation are three, distinct in every identity, and name their signer by
-- its checksummed address.
use xrp_payguard.Base.{
  not-false, true-ne-false, ℕ, suc, ◌≡◌, ◌≢◌, refl, sym, ◌∙◌, ap, true, false, not, length, List,
  [], ◌∷◌, map, subst, All, Distinct, Member, here, there, All-member, arith, ◌==◌, or-false,
}
use xrp_payguard.Text.{Text, text_eq, to_lower_case, is_hex32}
use xrp_payguard.Text.Laws.{text_eq_iff}
use xrp_payguard.Failure.{ok, >>=-eq-ok, throw_if_then, ok-injective}
use xrp_payguard.Viem.{Viem, ViemLaws}
use xrp_payguard.Relay.Types.{MachineDescriptor, Platform}
use xrp_payguard.Relay.Machines.{
  is_malformed_machine, has, validate_machine, validate_from, validate_machines,
}

pub has_iff-not : (set : List Text) (t : Text) → has set t ≡ false → All (λ s. s ≢ t) set
unfolding has
has_iff-not [] t h = tt
has_iff-not (s ∷ set) t h =
    let (n, k) = or-false (text_eq s t) (has set t) h in
    (λ e. true-ne-false (sym ((text_eq_iff s t).1 e) ∙ n), has_iff-not set t k)

abbrev pub id_of : MachineDescriptor → Text
id_of m = to_lower_case m.machine_id

abbrev pub fingerprint_of : MachineDescriptor → Text
fingerprint_of m = to_lower_case m.key_fingerprint

abbrev pub signer_of : MachineDescriptor → Text
signer_of m = to_lower_case m.signer

-- The keys of the machines are new to the set and to the machines before them.
abbrev IsFresh : (MachineDescriptor → Text) → List Text → List MachineDescriptor → Type 0
IsFresh f seen [] = Unit
IsFresh f seen (m ∷ ms) = All (λ t. t ≢ f m) seen × IsFresh f (f m ∷ seen) ms

IsFresh-later :
    (f : MachineDescriptor → Text) (t : Text) (seen : List Text) (ms : List MachineDescriptor)
    → Member t seen
    → IsFresh f seen ms
    → All (λ u. u ≢ t) (map f ms)
IsFresh-later f t seen [] mem h = tt
IsFresh-later f t seen (m ∷ ms) mem (n, h) =
    (λ e. All-member (λ u. u ≢ f m) n mem (sym e), IsFresh-later f t (f m ∷ seen) ms (there mem) h)

IsFresh-Distinct :
    (f : MachineDescriptor → Text) (seen : List Text) (ms : List MachineDescriptor)
    → IsFresh f seen ms
    → Distinct (map f ms)
IsFresh-Distinct f seen [] h = tt
IsFresh-Distinct f seen (m ∷ ms) (n, h) =
    (IsFresh-later f (f m) (f m ∷ seen) ms here h, IsFresh-Distinct f (f m ∷ seen) ms h)

Member-map :
    (f : MachineDescriptor → Text) {m : MachineDescriptor} {ms : List MachineDescriptor}
    → Member m ms
    → Member (f m) (map f ms)
Member-map f here = here
Member-map f (there x) = there (Member-map f x)

-- Two machines of a list with distinct keys that share their key are one.
pub Distinct-unique :
    (f : MachineDescriptor → Text) (ms : List MachineDescriptor) (a b : MachineDescriptor)
    → Distinct (map f ms)
    → Member a ms
    → Member b ms
    → f a ≡ f b
    → a ≡ b
Distinct-unique f [] a b d x y e = elim x [ ]
Distinct-unique f (m ∷ ms) a b d here here e = refl
Distinct-unique f (m ∷ ms) a b d here (there y) e =
    absurd (All-member (λ t. t ≢ f m) d.0 (Member-map f y) (sym e))
Distinct-unique f (m ∷ ms) a b d (there x) here e =
    absurd (All-member (λ t. t ≢ f m) d.0 (Member-map f x) e)
Distinct-unique f (m ∷ ms) a b d (there x) (there y) e = Distinct-unique f ms a b d.1 x y e

three_of : (n : ℕ) → not (n == 3) ≡ false → n ≡ 3
three_of n h = ground arith

module _ (V : Viem) (P : Platform) where
  validate_machine_sound :
      (ids fingerprints signers : List Text) (m d : MachineDescriptor)
      → validate_machine V P ids fingerprints signers m ≡ ok d
      → (id_of d ≡ id_of m)
        × (fingerprint_of d ≡ fingerprint_of m)
        × (V.get_address m.signer ≡ ok d.signer)
        × All (λ t. t ≢ id_of d) ids
        × All (λ t. t ≢ fingerprint_of d) fingerprints
        × All (λ t. t ≢ signer_of d) signers
  unfolding validate_machine
  validate_machine_sound ids fingerprints signers m d h =
      let (formed, h1) = throw_if_then _ _ _ h in
      let (signer, named, h2) = >>=-eq-ok (V.get_address m.signer) _ h1 in
      let (new, h3) = throw_if_then _ _ _ h2 in
      let (endpoint, parsed, h4) = >>=-eq-ok (P.parse_url m.endpoint) _ h3 in
      let (secure, h5) = throw_if_then _ _ _ h4 in
      let (new_id, rest) = or-false (has ids (id_of m)) _ new in
      let (new_fingerprint, new_signer) = or-false (has fingerprints (fingerprint_of m)) _ rest in
      let e : record {
        machine_id = m.machine_id;
        key_fingerprint = m.key_fingerprint;
        signer = signer;
        endpoint = m.endpoint;
      }
          ≡ d =
        ok-injective h5 in
      let id : m.machine_id ≡ d.machine_id = ap (λ x. x.machine_id) e in
      let fp : m.key_fingerprint ≡ d.key_fingerprint = ap (λ x. x.key_fingerprint) e in
      let sg : signer ≡ d.signer = ap (λ x. x.signer) e in
      (
        ap to_lower_case (sym id),
        ap to_lower_case (sym fp),
        named ∙ ap ok sg,
        subst (λ t. All (λ u. u ≢ to_lower_case t) ids) id (has_iff-not ids _ new_id),
        subst (λ t. All (λ u. u ≢ to_lower_case t) fingerprints) fp
            (has_iff-not fingerprints _ new_fingerprint),
        subst (λ t. All (λ u. u ≢ to_lower_case t) signers) sg (has_iff-not signers _ new_signer),
      )

  -- The signer of each descriptor is the checksummed spelling of the given one.
  abbrev AreChecksummed : List MachineDescriptor → List MachineDescriptor → Type 0
  AreChecksummed [] [] = Unit
  AreChecksummed [] (_ ∷ _) = ⊥
  AreChecksummed (_ ∷ _) [] = ⊥
  AreChecksummed (m ∷ ms) (d ∷ ds) = (V.get_address m.signer ≡ ok d.signer) × AreChecksummed ms ds

  abbrev AreValidated :
      List Text → List Text → List Text → List MachineDescriptor → List MachineDescriptor → Type 0
  AreValidated ids fingerprints signers ms ds =
      (length ds ≡ length ms)
      × IsFresh id_of ids ds
      × IsFresh fingerprint_of fingerprints ds
      × IsFresh signer_of signers ds
      × AreChecksummed ms ds

  validate_from_sound :
      (ids fingerprints signers : List Text) (ms ds : List MachineDescriptor)
      → validate_from V P ids fingerprints signers ms ≡ ok ds
      → AreValidated ids fingerprints signers ms ds
  unfolding validate_from
  validate_from_sound ids fps sgs [] ds h =
      subst (AreValidated ids fps sgs []) (ok-injective h) (refl, tt, tt, tt, tt)
  validate_from_sound ids fps sgs (m ∷ ms) ds h =
      let (d, one, h1) = >>=-eq-ok (validate_machine V P ids fps sgs m) _ h in
      let (rest, others, h2) =
        >>=-eq-ok
          (validate_from V P (id_of m ∷ ids) (fingerprint_of m ∷ fps) (signer_of d ∷ sgs) ms) _
          h1 in
      let (same_id, same_fp, named, new_id, new_fp, new_sg) =
        validate_machine_sound ids fps sgs m d one in
      let (len, is, fs, ss, cs) =
        validate_from_sound (id_of m ∷ ids) (fingerprint_of m ∷ fps) (signer_of d ∷ sgs) ms rest
          others in
      subst (AreValidated ids fps sgs (m ∷ ms)) (ok-injective h2) (
        ap suc len,
        (new_id, subst (λ t. IsFresh id_of (t ∷ ids) rest) (sym same_id) is),
        (new_fp, subst (λ t. IsFresh fingerprint_of (t ∷ fps) rest) (sym same_fp) fs),
        (new_sg, ss),
        (named, cs),
      )

-- The signer of a machine that passed is the checksummed spelling, which is its own.
abbrev pub AreRegistered : Viem → List MachineDescriptor → Type 0
AreRegistered V ms = All (λ m. V.get_address m.signer ≡ ok m.signer) ms

validate_machine-registered :
    (V : Viem) (P : Platform) (L : ViemLaws V) (ids fingerprints signers : List Text)
    (m d : MachineDescriptor)
    → validate_machine V P ids fingerprints signers m ≡ ok d
    → V.get_address d.signer ≡ ok d.signer
unfolding validate_machine is_malformed_machine
validate_machine-registered V P L ids fingerprints signers m d h =
    let (formed, h1) = throw_if_then _ _ _ h in
    let (_, formed1) = or-false (not (is_hex32 m.machine_id)) _ formed in
    let (_, unsigned) = or-false (not (is_hex32 m.key_fingerprint)) _ formed1 in
    let (_, _, named, _, _, _) = validate_machine_sound V P ids fingerprints signers m d h in
    let address : V.is_address m.signer ≡ true = not-false _ unsigned in
    subst (λ t. V.get_address t ≡ ok t)
      (ok-injective (sym (L.get_address_lem m.signer address) ∙ named))
      (L.checksum_again m.signer address)

validate_from-registered :
    (V : Viem) (P : Platform) (L : ViemLaws V) (ids fingerprints signers : List Text)
    (ms ds : List MachineDescriptor)
    → validate_from V P ids fingerprints signers ms ≡ ok ds
    → AreRegistered V ds
unfolding validate_from
validate_from-registered V P L ids fps sgs [] ds h = subst (AreRegistered V) (ok-injective h) tt
validate_from-registered V P L ids fps sgs (m ∷ ms) ds h =
    let (d, one, h1) = >>=-eq-ok (validate_machine V P ids fps sgs m) _ h in
    let (rest, others, h2) =
      >>=-eq-ok (validate_from V P (id_of m ∷ ids) (fingerprint_of m ∷ fps) (signer_of d ∷ sgs) ms)
        _ h1 in
    subst (AreRegistered V) (ok-injective h2) (
      validate_machine-registered V P L ids fps sgs m d one,
      validate_from-registered V P L (id_of m ∷ ids) (fingerprint_of m ∷ fps) (signer_of d ∷ sgs) ms
          rest others,
    )

pub validate_machines-registered :
    (V : Viem) (P : Platform) (L : ViemLaws V) (ms ds : List MachineDescriptor)
    → validate_machines V P ms ≡ ok ds
    → AreRegistered V ds
unfolding validate_machines
validate_machines-registered V P L ms ds h =
    let (three, h1) = throw_if_then _ _ (validate_from V P [] [] [] ms) h in
    validate_from-registered V P L [] [] [] ms ds h1

-- Validation accepts exactly three machines whose identities are pairwise distinct, and so are their
-- key fingerprints and their checksummed signers, all whatever the case they are written in.
pub validate_machines_sound :
    (V : Viem) (P : Platform) (ms ds : List MachineDescriptor)
    → validate_machines V P ms ≡ ok ds
    → (length ds ≡ 3)
      × Distinct (map id_of ds)
      × Distinct (map fingerprint_of ds)
      × Distinct (map signer_of ds)
unfolding validate_machines
validate_machines_sound V P ms ds h =
    let (three, h1) = throw_if_then _ _ (validate_from V P [] [] [] ms) h in
    let (len, is, fs, ss, cs) = validate_from_sound V P [] [] [] ms ds h1 in
    (
      len ∙ three_of (length ms) three,
      IsFresh-Distinct id_of [] ds is,
      IsFresh-Distinct fingerprint_of [] ds fs,
      IsFresh-Distinct signer_of [] ds ss,
    )
