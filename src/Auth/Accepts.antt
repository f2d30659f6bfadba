-- ===== src/Auth/Accepts.antt =====
-- Which tokens a server accepts.
use nexus_node.Common.{
  ℕ, ◌≡◌, ◌↔◌, refl, sym, ap, ◌∙◌, Option, none, some, [], ◌∷◌, ◌++◌, if◌then◌else◌, Result, ok,
  Bool, true, false, eq_iff, Option-cases, Result-cases, inl, inr, arith, ok_injective,
}
use mathlib.Core.Path.{subst}
use nexus_node.Common.Text.{Bytes, codes, bytes_eq}
use nexus_node.Config.Secret.{Secret}
use nexus_node.Auth.{
  Method, hmac, other, hs256, TokenError, Jwt, signed, generate_token, key_for, judged,
  validate_token, Metadata, admitted, with_token, auth_func, bearer, outgoing,
  jwt_unary_client_interceptor,
}

-- What the JWT library documents. A token names a method, its signature is checked with the key that
-- the key function gives for the method, and its claims at the time; a token that was signed names the
-- method, and its signature is right for the key. Claims with `iat` alone are in order at any time, since
-- the parser is not asked to check `iat`.
pub record JwtLaws (jwt : Jwt) : Type 1 where
  pub Names : Bytes → Method → Type 0
  pub Verifies : Bytes → Method → Bytes → Type 0
  pub InOrder : Bytes → ℕ → Type 0
  pub parses :
      (now : ℕ) (token : Bytes) (f : Method → Result TokenError Bytes)
      → (jwt.parse now token f ≡ some true) ↔ (
          (m : Method) × (key : Bytes) × Names token m
          × (f m ≡ ok key)
          × Verifies token m key
          × InOrder token now)
  pub signs :
      (m : Method) (iat : ℕ) (key token : Bytes)
      → jwt.signed_string m iat key ≡ some token
      → (now : ℕ) → Names token m × Verifies token m key × InOrder token now

-- Whether metadata has an entry of the key.
abbrev pub has_key : Bytes → Metadata → Bool
has_key key [] = false
has_key key ((k, v) ∷ rest) = if bytes_eq k key then true else has_key key rest

key_for-hs256 :
    (s : Secret) (m : Method) (key : Bytes) → key_for s m ≡ ok key → (m ≡ hs256) × (key ≡ s.secret)
unfolding key_for
key_for-hs256 s (other a) key h = absurd (cc)
key_for-hs256 s (hmac a) key h =
    let same = (eq_iff a "HS256").0 in (ground (arith, same), ground (arith, same))

hs256-key_for : (s : Secret) → key_for s hs256 ≡ ok s.secret
unfolding key_for
hs256-key_for s = refl

judged-ok : (o : Option Bool) → (judged o ≡ ok tt) ↔ (o ≡ some true)
unfolding judged
judged-ok none = (λ h. absurd (cc), λ h. absurd (cc))
judged-ok (some false) = (λ h. absurd (cc), λ h. absurd (cc))
judged-ok (some true) = (λ h. refl, λ h. refl)

module _ (jwt : Jwt) (laws : JwtLaws jwt) (s : Secret) where
  -- `ValidateToken` accepts exactly the tokens that name HS256 and whose signature verifies with the
  -- secret, with claims in order: no other HMAC and no other kind of method gets through.
  pub validate_token_iff :
      (now : ℕ) (token : Bytes)
      → (validate_token jwt s now token ≡ ok tt)
        ↔ (laws.Names token hs256 × laws.Verifies token hs256 s.secret × laws.InOrder token now)
  unfolding validate_token
  validate_token_iff now token = (
    (λ h.
        let (m, key, names, chosen, right, fresh) =
          (laws.parses now token (key_for s)).0
            ((judged-ok (jwt.parse now token (key_for s))).0 h) in
        let (method, same) = key_for-hs256 s m key chosen in
        (
          subst (λ x. laws.Names token x) method names,
          subst (λ x. laws.Verifies token hs256 x) same
              (subst (λ x. laws.Verifies token x key) method right),
          fresh,
        )),
    (λ b.
        (judged-ok (jwt.parse now token (key_for s))).1 (
          (laws.parses now token (key_for s)).1 (hs256, s.secret, b.0, hs256-key_for s, b.1, b.2))),
  )

  generated :
      (iat now : ℕ) (token : Bytes)
      → generate_token jwt s iat ≡ ok token
      → validate_token jwt s now token ≡ ok tt
  unfolding generate_token signed
  generated iat now token h = elim (Option-cases (jwt.signed_string hs256 iat s.secret)) [
    | inl bad ↦ absurd (ground (arith, bad))
    | inr (t, good) ↦
        let same : t ≡ token = ground (arith, good) in
        subst (λ x. validate_token jwt s now x ≡ ok tt) same
          ((validate_token_iff now t).1 (laws.signs hs256 iat s.secret t good now))
  ]

  -- A request of the client's interceptor is let in by a server with the same secret, at whatever time it
  -- comes there, when its metadata had no authorization entry before: where the middleware takes the
  -- token of the first authorization entry, if that is behind the scheme "bearer", `AuthFunc` accepts
  -- what the interceptor hands to the call.
  pub interceptor_admitted :
      (auth_from_md : Metadata → Bytes → Option Bytes) (iat now : ℕ) (md sent : Metadata)
      → ((before rest : Metadata) (token : Bytes)
          → has_key (codes "authorization") before ≡ false
          → auth_from_md (before ++ ((codes "authorization", bearer token) ∷ rest)) (codes "bearer")
            ≡ some token)
      → has_key (codes "authorization") md ≡ false
      → jwt_unary_client_interceptor jwt s iat (λ m. m) md ≡ ok sent
      → auth_func jwt auth_from_md s now sent ≡ ok tt
  unfolding jwt_unary_client_interceptor outgoing auth_func with_token admitted
  interceptor_admitted auth_from_md iat now md sent finds fresh run =
      elim (Result-cases (generate_token jwt s iat)) [
        | inr (e, bad) ↦ absurd (ground (arith, bad))
        | inl (token, good) ↦
            let same : md ++ ((codes "authorization", bearer token) ∷ []) ≡ sent =
              ok_injective refl (sym (ap (outgoing (λ m. m) md) good) ∙ run) in
            subst (λ m. auth_func jwt auth_from_md s now m ≡ ok tt) same
              (ap (with_token jwt s now) (finds md [] token fresh)
                ∙ ap admitted (generated iat now token good))
      ]
