-- ===== src/Protocol/Codec/Lists.antt =====
-- What the sorted lists of a policy are: every value passes one test, and the list is sorted in lower
-- case with no duplicate. So the order in which they are given does not matter.
use mathlib.Core.List.{Perm, Permᴰ}
use mathlib.Core.List.Perm
use mathlib.Core.Logic.{∥∥₁_elim}
use xrp_payguard.Base.{
  ◌≡◌, refl, sym, ◌∙◌, subst, Bool, true, false, List, [], ◌∷◌, map, all, inl, inr, Bool-cases,
  and-true, arith, if◌then◌else◌,
}
use xrp_payguard.Text.{Text, to_lower_case, text_eq, is_hex32, sort}
use xrp_payguard.Text.Laws.{text_eq_iff, to_lower_case_idem, is_hex32-to_lower_case}
use xrp_payguard.Text.Sort.{sort-eq_of_perm, sort-permᴰ, sort_idem}
use xrp_payguard.Failure.{Result, ok, err, Error, labelled, ◌>>=◌, ok-injective}
use xrp_payguard.Viem.{Viem, ViemLaws}
use xrp_payguard.Protocol.Codec.Primitives.{
  bytes32, map_result, distinct, lower_address, address, sorted_addresses, sorted_bytes32,
  has_duplicate_neighbours,
}
use Prim.Native.String.{String}

all-permᴰ : (p : Text → Bool) {ts us : List Text} → Permᴰ ts us → all p ts ≡ all p us
all-permᴰ p Permᴰ.nil = refl
all-permᴰ p (Permᴰ.cons e h) = cc (e, all-permᴰ p h)
all-permᴰ p (Permᴰ.swap {a = a} {b = b} {l = l} e f) = rw (← e, ← f) (ground arith)
all-permᴰ p (Permᴰ.trans h k) = all-permᴰ p h ∙ all-permᴰ p k

bool_set : IsSet Bool
bool_set = hlevel

all-perm : (p : Text → Bool) {ts us : List Text} → Perm ts us → all p ts ≡ all p us
all-perm p h = ∥∥₁_elim h (bool_set _ _) (all-permᴰ p)

-- A test for each value, then the values in lower case, sorted and distinct.
pub canonical : (Text → Bool) → Error → String → List Text → Result (List Text)
canonical test e label ts =
    if all test ts then distinct (sort (map to_lower_case ts)) label else err e

pub canonical-perm :
    (test : Text → Bool) (e : Error) (label : String) {ts us : List Text}
    → Perm ts us
    → canonical test e label ts ≡ canonical test e label us
unfolding canonical
canonical-perm test e label h =
    rw (all-perm test h, sort-eq_of_perm (Perm.map to_lower_case h)) refl

map_result-eq :
    (f : Text → Result Text) (test : Text → Bool) (e : Error)
    → ((t : Text) → f t ≡ (if test t then ok (to_lower_case t) else err e))
    → (ts : List Text)
    → map_result f ts ≡ (if all test ts then ok (map to_lower_case ts) else err e)
unfolding map_result
map_result-eq f test e h [] = refl
map_result-eq f test e h (t ∷ ts) = elim (Bool-cases (test t)) [
  | inr bad ↦ rw (h t, bad) refl
  | inl good ↦
      rw (h t, good, map_result-eq f test e h ts)
        (elim (Bool-cases (all test ts)) [ inr bad ↦ rw bad refl | inl rest ↦ rw rest refl ])
]

canonical-eq :
    (test : Text → Bool) (e : Error) (label : String) (ts : List Text)
    → ((if all test ts then ok (map to_lower_case ts) else err e) >>= λ ns.
        distinct (sort ns) label)
      ≡ canonical test e label ts
unfolding canonical
canonical-eq test e label ts = elim (Bool-cases (all test ts)) [
  | inr bad ↦ rw bad refl
  | inl good ↦ rw good refl
]

bytes32-eq :
    (t : Text) (label : String)
    → bytes32 t label
      ≡ (if is_hex32 t then ok (to_lower_case t) else err (labelled label "must be bytes32"))
unfolding bytes32
bytes32-eq t label = ground arith

pub sorted_bytes32-canonical :
    (ts : List Text) (label : String)
    → sorted_bytes32 ts label ≡ canonical is_hex32 (labelled label "must be bytes32") label ts
unfolding sorted_bytes32
sorted_bytes32-canonical ts label =
    rw
      (map_result-eq (λ t. bytes32 t label) is_hex32 (labelled label "must be bytes32")
        (λ t. bytes32-eq t label) ts)
      (canonical-eq is_hex32 (labelled label "must be bytes32") label ts)

-- A list of texts that are their own lower case.
abbrev is_lower : Text → Bool
is_lower t = text_eq (to_lower_case t) t

all-is_lower : (ts : List Text) → all is_lower (map to_lower_case ts) ≡ true
all-is_lower [] = refl
all-is_lower (t ∷ ts) = rw ((text_eq_iff _ _).1 (to_lower_case_idem t), all-is_lower ts) refl

map-is_lower : (ts : List Text) → all is_lower ts ≡ true → map to_lower_case ts ≡ ts
map-is_lower [] h = refl
map-is_lower (t ∷ ts) h =
    let (first, rest) = and-true _ _ h in
    let e : to_lower_case t ≡ t = (text_eq_iff _ _).0 first in cc (e, map-is_lower ts rest)

all-map :
    (test : Text → Bool) (keeps : (t : Text) → test t ≡ true → test (to_lower_case t) ≡ true)
    (ts : List Text)
    → all test ts ≡ true
    → all test (map to_lower_case ts) ≡ true
all-map test keeps [] h = refl
all-map test keeps (t ∷ ts) h =
    let (first, rest) = and-true _ _ h in rw (keeps t first, all-map test keeps ts rest) refl

distinct-eq_ok :
    (ts us : List Text) (label : String)
    → distinct ts label ≡ ok us
    → (us ≡ ts) × (has_duplicate_neighbours ts ≡ false)
unfolding distinct
distinct-eq_ok ts us label h = elim (Bool-cases (has_duplicate_neighbours ts)) [
  | inl twice ↦ cc (rw twice at h)
  | inr once ↦ (sym (ok-injective (rw once at h)), once)
]

-- A test that holds of a value in lower case as well.
pub canonical_idem :
    (test : Text → Bool) (keeps : (t : Text) → test t ≡ true → test (to_lower_case t) ≡ true)
    (e : Error) (label : String) (ts us : List Text)
    → canonical test e label ts ≡ ok us
    → canonical test e label us ≡ ok us
unfolding canonical
canonical_idem test keeps e label ts us h = elim (Bool-cases (all test ts)) [
  | inr bad ↦ cc (rw bad at h)
  | inl good ↦
      let ns = map to_lower_case ts in
      let (eq, once) = distinct-eq_ok (sort ns) us label (rw good at h) in
      let tested : all test (sort ns) ≡ true =
        all-permᴰ test (sort-permᴰ ns) ∙ all-map test keeps ts good in
      let low : map to_lower_case (sort ns) ≡ sort ns =
        map-is_lower (sort ns) (all-permᴰ is_lower (sort-permᴰ ns) ∙ all-is_lower ts) in
      subst
        (λ vs.
          (if all test vs then distinct (sort (map to_lower_case vs)) label else err e) ≡ ok vs)
        (sym eq) (rw (tested, low, sort_idem ns) (unfold distinct in rw once refl))
]

-- Every value of the sorted list passes the test.
pub canonical-tested :
    (test : Text → Bool) (keeps : (t : Text) → test t ≡ true → test (to_lower_case t) ≡ true)
    (e : Error) (label : String) (ts us : List Text)
    → canonical test e label ts ≡ ok us
    → all test us ≡ true
unfolding canonical
canonical-tested test keeps e label ts us h = elim (Bool-cases (all test us)) [
  | inl good ↦ good
  | inr bad ↦ cc (rw bad at (canonical_idem test keeps e label ts us h))
]

module _ (V : Viem) (L : ViemLaws V) where
  lower_address-eq :
      (label : String) (t : Text)
      → lower_address V label t ≡ (
          if V.is_address t
          then ok (to_lower_case t)
          else err (labelled label "must be an address"))
  unfolding lower_address address
  lower_address-eq label t = elim (Bool-cases (V.is_address t)) [
    | inr bad ↦ rw bad refl
    | inl good ↦ rw (good, L.get_address_lem t good, L.checksum-lower t good) refl
  ]

  pub sorted_addresses-canonical :
      (ts : List Text) (label : String)
      → sorted_addresses V ts label
        ≡ canonical V.is_address (labelled label "must be an address") label ts
  unfolding sorted_addresses
  sorted_addresses-canonical ts label =
      rw
        (map_result-eq (lower_address V label) V.is_address (labelled label "must be an address")
          (lower_address-eq label) ts)
        (canonical-eq V.is_address (labelled label "must be an address") label ts)

  pub sorted_addresses-tested :
      (ts us : List Text) (label : String)
      → sorted_addresses V ts label ≡ ok us
      → all V.is_address us ≡ true
  sorted_addresses-tested ts us label h =
      canonical-tested V.is_address L.lower-is_address (labelled label "must be an address") label
        ts us (sym (sorted_addresses-canonical ts label) ∙ h)

  pub sorted_addresses_idem :
      (ts us : List Text) (label : String)
      → sorted_addresses V ts label ≡ ok us
      → sorted_addresses V us label ≡ ok us
  sorted_addresses_idem ts us label h =
      sorted_addresses-canonical us label
      ∙ canonical_idem V.is_address L.lower-is_address (labelled label "must be an address") label
          ts us (sym (sorted_addresses-canonical ts label) ∙ h)

pub sorted_bytes32-tested :
    (ts us : List Text) (label : String) → sorted_bytes32 ts label ≡ ok us → all is_hex32 us ≡ true
sorted_bytes32-tested ts us label h =
    canonical-tested is_hex32 is_hex32-to_lower_case (labelled label "must be bytes32") label ts us
      (sym (sorted_bytes32-canonical ts label) ∙ h)

pub sorted_bytes32_idem :
    (ts us : List Text) (label : String)
    → sorted_bytes32 ts label ≡ ok us
    → sorted_bytes32 us label ≡ ok us
sorted_bytes32_idem ts us label h =
    sorted_bytes32-canonical us label
    ∙ canonical_idem is_hex32 is_hex32-to_lower_case (labelled label "must be bytes32") label ts us
        (sym (sorted_bytes32-canonical ts label) ∙ h)
