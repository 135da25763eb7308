-- ===== src/AccessTokens/RoundTrip.antt =====
-- quansec/core/tokens.py: a minted access token is accepted until it expires, if it grants anything.
use quansec_pqc_platform.Prelude.{
  ℕ, zero, suc, ◌+◌, ◌*◌, ◌<◌, ◌≡◌, refl, true, false, Option, some, List, [], ◌∷◌, Text, codes,
  eq_text, truthy, arith, if◌then◌else◌, ap, ◌∙◌, not, ◌/◌, ◌%◌,
}
use quansec_pqc_platform.Json.{Fields, str, arr, nat, get_field, strings, pos}
use quansec_pqc_platform.Scopes.{ScopeSet, expand, sort_scopes, nonempty}
use quansec_pqc_platform.AccessTokens.Decimal.{decimal, digits_of, parse_int-decimal}
use quansec_pqc_platform.AccessTokens.{
  Jwt, JwtSettings, verified, claims_of, token_error, missing_claims, missing, is_blank, int_of,
  check_claims, on_decoded, decode_access_token, minted_claims, create_access_token, ttl_or,
}
use quansec_pqc_platform.AccessTokens.Decode.{accepted_iff}

digits_of_full : (f n c : ℕ) (acc : Text) → truthy (digits_of f n (c ∷ acc)) ≡ true
unfolding digits_of
digits_of_full zero n c acc = refl
digits_of_full (suc f) n c acc = ground (arith, digits_of_full f (n / 10) (48 + n % 10) (c ∷ acc))

decimal_full : (n : ℕ) → truthy (decimal n) ≡ true
unfolding decimal digits_of
decimal_full n = ground (arith, digits_of_full n (n / 10) (48 + n % 10) [])

is_blank-str : (t : Text) → truthy t ≡ true → is_blank (str t) ≡ false
is_blank-str [] h = absurd (ground arith)
is_blank-str (c ∷ t) h = refl

is_blank-scopes : (g : ScopeSet) → is_blank (arr (strings (sort_scopes g))) ≡ not (nonempty g)
unfolding strings
is_blank-scopes g = ground arith

module _ (j : Jwt) (s : JwtSettings) where
  -- The library's promise about one signed dictionary: it verifies until `exp`, for its own issuer and
  -- audience.
  abbrev pub Honours : Fields → Type 0
  Honours c =
      (now e : ℕ)
      → get_field (codes "exp") c ≡ nat e
      → get_field (codes "iss") c ≡ str s.issuer
      → get_field (codes "aud") c ≡ str s.audience
      → now < e
      → j.decode (j.encode c) s.issuer s.audience now ≡ verified c

  -- The texts of a minted token that must not be empty.
  pub record IsFilled (role portal jti : Text) : Type 0 where
    pub has_role : truthy role ≡ true
    pub has_portal : truthy portal ≡ true
    pub has_jti : truthy jti ≡ true
    pub has_issuer : truthy s.issuer ≡ true
    pub has_audience : truthy s.audience ≡ true

  missing-minted :
      (user_id : ℕ) (email role portal : Text) (scopes : List Text) (now expires_at : ℕ)
      (jti : Text)
      → IsFilled role portal jti
      → missing (minted_claims j s user_id email role portal scopes now expires_at jti)
        ≡ (if nonempty (expand scopes) then [] else codes "scopes" ∷ [])
  unfolding missing get_field eq_text
  missing-minted user_id email role portal scopes now expires_at jti f = ground (
    arith,
    is_blank-str (decimal user_id) (decimal_full user_id),
    is_blank-str role f.has_role,
    is_blank-str portal f.has_portal,
    is_blank-str jti f.has_jti,
    is_blank-str s.issuer f.has_issuer,
    is_blank-str s.audience f.has_audience,
    is_blank-scopes (expand scopes),
  )

  module _ (user_id : ℕ) (email role portal : Text) (scopes : List Text) (ttl : Option ℕ) (now : ℕ)
      (jti : Text) where
    abbrev pub minted_now : Fields
    minted_now =
        minted_claims j s user_id email role portal scopes now (now + ttl_or ttl s.ttl_minutes * 60)
          jti

    verified_later :
        (later : ℕ)
        → Honours minted_now
        → later < now + ttl_or ttl s.ttl_minutes * 60
        → j.decode
            (create_access_token j s user_id email role portal scopes ttl now jti).token
            s.issuer
            s.audience
            later
          ≡ verified minted_now
    unfolding create_access_token get_field eq_text
    verified_later later h early =
        h later (now + ttl_or ttl s.ttl_minutes * 60) refl refl refl early

    -- A token minted with a role, a portal and a scope that is known, is accepted at every time before it
    -- expires, and its claims are those it was minted with: the subject reads as the user's id and the
    -- scopes are the closure of what was asked for.
    pub minted_accepted :
        (later : ℕ)
        → Honours minted_now
        → IsFilled role portal jti
        → nonempty (expand scopes) ≡ true
        → later < now + ttl_or ttl s.ttl_minutes * 60
        → (decode_access_token j s
              (create_access_token j s user_id email role portal scopes ttl now jti).token
              later
            ≡ claims_of minted_now)
          × (int_of (get_field (codes "sub") minted_now) ≡ some (pos user_id))
          × (get_field (codes "scopes") minted_now ≡ arr (strings (sort_scopes (expand scopes))))
    unfolding get_field eq_text
    minted_accepted later h f some_scope early =
        let subject = parse_int-decimal user_id in
        let whole =
          missing-minted user_id email role portal scopes now (now + ttl_or ttl s.ttl_minutes * 60)
            jti f in
        (
          (accepted_iff j s _ later minted_now).1 (
            verified_later later h early,
            record {
              complete = ground (arith, whole);
              access = refl;
              subject = ground (arith, subject);
              scopes = refl;
            },
          ),
          subject,
          refl,
        )

    -- A token minted for scopes of which none is known is signed, and always refused for its empty
    -- `scopes` claim: a user whose role grants nothing can log in and use no route.
    pub minted_without_scopes_refused :
        (later : ℕ)
        → Honours minted_now
        → IsFilled role portal jti
        → nonempty (expand scopes) ≡ false
        → later < now + ttl_or ttl s.ttl_minutes * 60
        → decode_access_token j s
            (create_access_token j s user_id email role portal scopes ttl now jti).token
            later
          ≡ token_error (missing_claims (codes "scopes" ∷ []))
    unfolding decode_access_token check_claims
    minted_without_scopes_refused later h f no_scope early =
        let whole =
          missing-minted user_id email role portal scopes now (now + ttl_or ttl s.ttl_minutes * 60)
            jti f in
        ap on_decoded (verified_later later h early) ∙ ground (arith, whole)
