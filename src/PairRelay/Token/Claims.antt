-- ===== src/PairRelay/Token/Claims.antt =====
-- The fields of a token's body are those of its claims, and the other way round.
use own_transit.Prelude.{
  ℕ, zero, suc, ◌*◌, ◌/◌, ◌^◌, ◌≤◌, ◌<◌, ◌≡◌, refl, sym, ap, ◌∙◌, subst, Bool, true, List, [], ◌∷◌,
  length, map, Bytes, IsByte, All, ok, arith,
}
use own_transit.Prelude.BigEndian.{
  be_put, be_get, length-be_put, be_get-be_put, be_put-be_get, be_get-lt,
}
use own_transit.Prelude.Fields.{field}
use own_transit.PairRelay.{TokenClaims, RouteLimits}
use own_transit.PairRelay.Ceilings.{second}
use own_transit.PairRelay.Token.{
  token_sizes, token_magic, max_int64, body_fields, claims_of, validate_token_claims,
  valid_route_limits,
}

-- The claims fit the fields of a token.
pub record Fitting (claims : TokenClaims) : Type 0 where
  pub receiver : length claims.receiver ≡ 32
  pub route : length claims.route ≡ 32
  pub admission_root : length claims.admission_root ≡ 32
  pub generation : claims.generation < 256 ^ 8
  pub issued : claims.issued ≤ max_int64
  pub expires : claims.expires ≤ max_int64

pub sizes-body_fields :
    (claims : TokenClaims) → Fitting claims → map length (body_fields claims) ≡ token_sizes
sizes-body_fields claims f =
    rw
      (
        f.receiver,
        f.route,
        f.admission_root,
        length-be_put 8 claims.generation,
        length-be_put 8 claims.issued,
        length-be_put 8 claims.expires,
        length-be_put 4 claims.limits.pending_pairings,
        length-be_put 4 claims.limits.pending_carriers,
        length-be_put 4 claims.limits.active_carriers,
        length-be_put 4 claims.limits.pairing_bytes,
        length-be_put 4 (claims.limits.session_lifetime / second),
      )
      refl

-- Limits that are valid fit 32 bits each, and their lifetime is a number of seconds.
pub record FittingLimits (l : RouteLimits) : Type 0 where
  pub pairings : l.pending_pairings < 256 ^ 4
  pub carriers : l.pending_carriers < 256 ^ 4
  pub active : l.active_carriers < 256 ^ 4
  pub bytes : l.pairing_bytes < 256 ^ 4
  pub lifetime : l.session_lifetime / second < 256 ^ 4
  pub whole : l.session_lifetime / second * second ≡ l.session_lifetime

pub valid_route_limits-FittingLimits :
    (l : RouteLimits) → valid_route_limits l ≡ true → FittingLimits l
unfolding valid_route_limits
valid_route_limits-FittingLimits l h = record {
  pairings = ground arith;
  carriers = ground arith;
  active = ground arith;
  bytes = ground arith;
  lifetime = ground arith;
  whole = ground arith;
}

pub validate_token_claims-limits :
    (claims : TokenClaims) (now : ℕ) (renewal : Bool)
    → validate_token_claims claims now renewal ≡ ok tt
    → valid_route_limits claims.limits ≡ true
unfolding validate_token_claims
validate_token_claims-limits claims now renewal h = ground arith

pub claims_of-body_fields :
    (claims : TokenClaims)
    → Fitting claims
    → FittingLimits claims.limits
    → claims_of (body_fields claims) ≡ claims
claims_of-body_fields claims f l =
    rw
      (
        be_get-be_put 8 claims.generation f.generation,
        be_get-be_put 8 claims.issued (omega (arith, f.issued)),
        be_get-be_put 8 claims.expires (omega (arith, f.expires)),
        be_get-be_put 4 claims.limits.pending_pairings l.pairings,
        be_get-be_put 4 claims.limits.pending_carriers l.carriers,
        be_get-be_put 4 claims.limits.active_carriers l.active,
        be_get-be_put 4 claims.limits.pairing_bytes l.bytes,
        be_get-be_put 4 (claims.limits.session_lifetime / second) l.lifetime,
        l.whole,
      )
      refl

abbrev pub nth : List ℕ → ℕ → ℕ
nth [] i = 0
nth (n ∷ ns) zero = n
nth (n ∷ ns) (suc i) = nth ns i

pub put_back : (k : ℕ) (f : Bytes) → length f ≡ k → All IsByte f → be_put k (be_get f) ≡ f
put_back k f h bytes = subst (λ n. be_put n (be_get f) ≡ f) h (be_put-be_get f bytes)

-- Fields of the right sizes, the first of them the magic, are the fields of their claims.
pub body_fields-claims_of :
    (fs : List Bytes)
    → map length fs ≡ token_sizes
    → All (All IsByte) fs
    → field fs 0 ≡ token_magic
    → body_fields (claims_of fs) ≡ fs
body_fields-claims_of (m ∷ a ∷ b ∷ c ∷ d ∷ e ∷ f ∷ g ∷ h ∷ i ∷ j ∷ k ∷ []) sizes
      (_, (_, (_, (_, (pd, (pe, (pf, (pg, (ph, (pi, (pj, (pk, _)))))))))))) magic =
    rw
      (
        put_back 8 d (size 4) pd,
        put_back 8 e (size 5) pe,
        put_back 8 f (size 6) pf,
        put_back 4 g (size 7) pg,
        put_back 4 h (size 8) ph,
        put_back 4 i (size 9) pi,
        put_back 4 j (size 10) pj,
        second_back (be_get k),
        put_back 4 k (size 11) pk,
      )
      (ap (λ x. x ∷ a ∷ b ∷ c ∷ d ∷ e ∷ f ∷ g ∷ h ∷ i ∷ j ∷ k ∷ []) (sym magic))
  where
    size :
        (n : ℕ)
        → nth (map length (m ∷ a ∷ b ∷ c ∷ d ∷ e ∷ f ∷ g ∷ h ∷ i ∷ j ∷ k ∷ [])) n
          ≡ nth token_sizes n
    size n = ap (λ l. nth l n) sizes

    second_back : (n : ℕ) → n * second / second ≡ n
    second_back n = omega arith
body_fields-claims_of _ sizes bytes magic = absurd (ground arith)

pub length-field : (fs : List Bytes) (i : ℕ) → length (field fs i) ≡ nth (map length fs) i
length-field [] i = refl
length-field (f ∷ fs) zero = refl
length-field (f ∷ fs) (suc i) = length-field fs i

pub field-IsByte : (fs : List Bytes) (i : ℕ) → All (All IsByte) fs → All IsByte (field fs i)
field-IsByte [] i h = tt
field-IsByte (f ∷ fs) zero h = h.0
field-IsByte (f ∷ fs) (suc i) h = field-IsByte fs i h.1

pub claims_of-Fitting :
    (fs : List Bytes)
    → map length fs ≡ token_sizes
    → All (All IsByte) fs
    → be_get (field fs 5) ≤ max_int64
    → be_get (field fs 6) ≤ max_int64
    → Fitting (claims_of fs)
claims_of-Fitting fs sizes bytes issued expires = record {
  receiver = size 1;
  route = size 2;
  admission_root = size 3;
  generation =
      subst (λ n. be_get (field fs 4) < 256 ^ n) (size 4)
        (be_get-lt (field fs 4) (field-IsByte fs 4 bytes));
  issued = issued;
  expires = expires;
}
  where
    size : (i : ℕ) → length (field fs i) ≡ nth token_sizes i
    size i = length-field fs i ∙ ap (λ l. nth l i) sizes
