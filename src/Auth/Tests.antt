-- ===== src/Auth/Tests.antt =====
-- Tokens that are the secret behind a mark.
use nexus_node.Common.{
  ◌≡◌, ◌↔◌, refl, Option, none, some, [], ◌∷◌, ◌++◌, false, Result, Done, ok, err, Bool, true,
  str_eq, eq_iff, if◌then◌else◌, arith,
}
use mathlib.Core.Path.{subst}
use nexus_node.Common.Text.{Bytes, codes, bytes_eq, bytes_eq_sound, bytes_eq_refl}
use nexus_node.Config.Secret.{Secret}
use nexus_node.Auth.{
  Method, hmac, other, hs256, TokenError, Jwt, generate_token, validate_token, Metadata, auth_func,
  bearer, jwt_unary_client_interceptor, core_new_payload, incomplete, outgoing, signed, round_trip,
  carried, responded, without,
}
use nexus_node.Auth.Accepts.{JwtLaws, has_key, validate_token_iff, interceptor_admitted}

fits : Bytes → Result TokenError Bytes → Option Bool
fits token (err e) = none
fits token (ok key) = if bytes_eq token (b'H' ∷ key) then some true else none

-- Only HS256 signs.
mark : Method → Bytes → Option Bytes
mark (other a) key = none
mark (hmac a) key = if str_eq a "HS256" then some (b'H' ∷ key) else none

mark_method : (m : Method) (key token : Bytes) → mark m key ≡ some token → m ≡ hs256
unfolding mark
mark_method (other a) key token h = absurd (cc)
mark_method (hmac a) key token h = ground (arith, (eq_iff a "HS256").0)

mark_token : (m : Method) (key token : Bytes) → mark m key ≡ some token → token ≡ b'H' ∷ key
unfolding mark
mark_token (other a) key token h = absurd (cc)
mark_token (hmac a) key token h = ground arith

jwt : Jwt
unfolding fits mark
jwt = record {
  signed_string = λ m iat key. mark m key;
  parse = λ now token f. fits token (f hs256);
}

fits_iff :
    (token : Bytes) (r : Result TokenError Bytes)
    → (fits token r ≡ some true) ↔ ((key : Bytes) × (r ≡ ok key) × (token ≡ b'H' ∷ key))
unfolding fits
fits_iff token (err e) = ((λ h. absurd (cc)), (λ b. absurd (ground (arith, b.1))))
fits_iff token (ok key) = (
  (λ h. (key, refl, bytes_eq_sound token (b'H' ∷ key) (ground arith))),
  (λ b.
      let same : token ≡ b'H' ∷ key = ground (arith, b.1, b.2) in
      rw (same, bytes_eq_refl (b'H' ∷ key)) refl),
)

laws : JwtLaws jwt
unfolding jwt mark
laws = record {
  Names = λ token m. m ≡ hs256;
  Verifies = λ token m key. token ≡ b'H' ∷ key;
  InOrder = λ token now. Unit;
  parses = λ now token f. (
    (λ h. let (key, e, same) = (fits_iff token (f hs256)).0 h in (hs256, key, refl, e, same, tt)),
    (λ b. (fits_iff token (f hs256)).1 (b.1, subst (λ m. f m ≡ ok b.1) b.2 b.3, b.4)),
  );
  signs = λ m iat key token h now. (mark_method m key token h, mark_token m key token h, tt);
}

abbrev secret : Secret
secret = record { secret = 1 ∷ 2 ∷ [] }

abbrev token : Bytes
token = b'H' ∷ 1 ∷ 2 ∷ []

validate_token_iff_example :
    (validate_token jwt secret 9 token ≡ ok tt)
    ↔ (laws.Names token hs256 × laws.Verifies token hs256 (1 ∷ 2 ∷ []) × laws.InOrder token 9)
validate_token_iff_example = validate_token_iff jwt laws secret 9 token

-- Behind the seven bytes of "Bearer " in the value of the first authorization entry.
drop_scheme : Bytes → Option Bytes
drop_scheme (_ ∷ _ ∷ _ ∷ _ ∷ _ ∷ _ ∷ _ ∷ rest) = some rest
drop_scheme _ = none

middleware : Metadata → Bytes → Option Bytes
unfolding drop_scheme
middleware [] scheme = none
middleware ((key, value) ∷ rest) scheme =
    let later = middleware rest scheme in
    if bytes_eq key (codes "authorization") then drop_scheme value else later

finds :
    (others rest : Metadata) (t : Bytes)
    → has_key (codes "authorization") others ≡ false
    → middleware (others ++ ((codes "authorization", bearer t) ∷ rest)) (codes "bearer") ≡ some t
unfolding middleware drop_scheme bytes_eq
finds [] rest t fresh = refl
finds ((key, value) ∷ others) rest t fresh =
    let later = finds others rest t in ground (arith, later)

abbrev traced : Metadata
traced = (codes "trace", 1 ∷ []) ∷ []

intercepted :
    jwt_unary_client_interceptor jwt secret 5 (λ m. m) traced
    ≡ ok (traced ++ ((codes "authorization", bearer token) ∷ []))
unfolding jwt_unary_client_interceptor outgoing generate_token signed jwt mark
intercepted = refl

untold : has_key (codes "authorization") traced ≡ false
unfolding bytes_eq
untold = refl

interceptor_admitted_example :
    auth_func jwt middleware secret 9 (traced ++ ((codes "authorization", bearer token) ∷ []))
    ≡ ok tt
interceptor_admitted_example =
    interceptor_admitted jwt laws secret middleware 5 9 traced
      (traced ++ ((codes "authorization", bearer token) ∷ [])) finds untold intercepted

-- The header replaces one that a request has.
header_set :
    round_trip {E = Done} jwt secret 5 ok ((codes "Authorization", 1 ∷ []) ∷ traced)
    ≡ ok (traced ++ ((codes "Authorization", bearer token) ∷ []))
unfolding round_trip carried responded without generate_token signed jwt mark bytes_eq
header_set = refl

-- A request without a block's header does not leave.
incomplete_request :
    core_new_payload {E = Done} {R = Done} {Header = Done} (λ h. ok tt) (some (some none))
    ≡ err incomplete
unfolding core_new_payload
incomplete_request = refl
