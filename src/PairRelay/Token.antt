-- ===== src/PairRelay/Token.antt =====
-- internal/pairrelay/token.go: the route tokens. HMAC-SHA256 is a parameter, and a time is given in
-- nanoseconds since 1970; the zero time does not occur.
pub mod Claims
pub mod Sealing
pub mod Renewal
mod Runs
use own_transit.Prelude.{
  ℕ, ◌+◌, ◌-◌, ◌*◌, ◌/◌, ◌%◌, ◌^◌, ◌≡◌, Bool, true, false, not, ◌&&◌, ◌||◌, List, [], ◌∷◌, ◌++◌,
  length, take, drop, map, Bytes, bytes_eq, ltb, leb, ◌==◌, if◌then◌else◌, Outcome, ok, err, ◌>>=◌,
  ◌>>◌, fail_if,
}
use own_transit.Prelude.BigEndian.{be_put, be_get}
use own_transit.Prelude.Fields.{join, cut, field}
use own_transit.PairRelay.{TokenClaims, RouteLimits}
use own_transit.PairRelay.Ceilings.{second}
use own_transit.PairRelay.Wire.{zero_id, known_role, role_receiver, max_pairing_bytes}

pub data TokenError : Type 0 where
  invalid unauthorized expired : TokenError

-- The sizes of the fields of a token's body.
abbrev pub token_sizes : List ℕ
token_sizes = 8 ∷ 32 ∷ 32 ∷ 32 ∷ 8 ∷ 8 ∷ 8 ∷ 4 ∷ 4 ∷ 4 ∷ 4 ∷ 4 ∷ []

abbrev pub token_body_size : ℕ
token_body_size = 148

abbrev pub token_magic : Bytes
token_magic = b'O' ∷ b'T' ∷ b'R' ∷ b'T' ∷ b'O' ∷ b'K' ∷ 2 ∷ 0 ∷ []

abbrev pub max_int64 : ℕ
max_int64 = 2 ^ 63 - 1

abbrev pub max_token_validity : ℕ
max_token_validity = 2_592_000 * second

abbrev pub max_expired_renewal_grace : ℕ
max_expired_renewal_grace = 63_072_000 * second

unfoldable pub valid_route_limits : RouteLimits → Bool
valid_route_limits l = not (
    l.pending_pairings == 0
    || ltb 64 l.pending_pairings
    || l.pending_carriers == 0
    || ltb 64 l.pending_carriers
    || l.active_carriers == 0
    || ltb 64 l.active_carriers
    || l.pairing_bytes == 0
    || ltb max_pairing_bytes l.pairing_bytes
    || l.session_lifetime == 0
    || ltb max_token_validity l.session_lifetime
    || not (l.session_lifetime % second == 0))

-- `now` truncated to the second.
abbrev pub instant : ℕ → ℕ
instant now = now / second

unfoldable pub validate_token_claims : TokenClaims → ℕ → Bool → Outcome TokenError (Unit {0})
validate_token_claims claims now renewal = do
  fail_if
      (zero_id claims.receiver
        || zero_id claims.route
        || zero_id claims.admission_root
        || claims.generation == 0
        || claims.issued == 0
        || leb claims.expires claims.issued
        || ltb (max_token_validity / second) (claims.expires - claims.issued)
        || not (valid_route_limits claims.limits))
      invalid
  fail_if (ltb (instant now + 300) claims.issued) invalid
  fail_if
      (leb claims.expires (instant now)
        && not (renewal && leb ((instant now - claims.expires) * second) max_expired_renewal_grace))
      expired

abbrev pub body_fields : TokenClaims → List Bytes
body_fields claims =
    token_magic
    ∷ claims.receiver
    ∷ claims.route
    ∷ claims.admission_root
    ∷ be_put 8 claims.generation
    ∷ be_put 8 claims.issued
    ∷ be_put 8 claims.expires
    ∷ be_put 4 claims.limits.pending_pairings
    ∷ be_put 4 claims.limits.pending_carriers
    ∷ be_put 4 claims.limits.active_carriers
    ∷ be_put 4 claims.limits.pairing_bytes
    ∷ be_put 4 (claims.limits.session_lifetime / second)
    ∷ []

abbrev pub claims_of : List Bytes → TokenClaims
claims_of fs = record {
  receiver = field fs 1;
  route = field fs 2;
  admission_root = field fs 3;
  generation = be_get (field fs 4);
  issued = be_get (field fs 5);
  expires = be_get (field fs 6);
  limits = record {
    pending_pairings = be_get (field fs 7);
    pending_carriers = be_get (field fs 8);
    active_carriers = be_get (field fs 9);
    pairing_bytes = be_get (field fs 10);
    session_lifetime = be_get (field fs 11) * second;
  };
}

-- Every error of the claims but an expiry is a refusal.
abbrev pub or_unauthorized : {A : Type 0} → Outcome TokenError A → Outcome TokenError A
or_unauthorized (ok a) = ok a
or_unauthorized (err expired) = err expired
or_unauthorized (err _) = err unauthorized

pub record AuthenticatedPeer : Type 0 where
  pub receiver : Bytes
  pub route : Bytes
  pub admission_root : Bytes
  pub role : ℕ
  pub peer : Bytes

unfoldable pub same_authenticated_route : TokenClaims → AuthenticatedPeer → Bool
same_authenticated_route claims peer =
    known_role peer.role
    && not (zero_id peer.peer)
    && bytes_eq peer.receiver claims.receiver
    && bytes_eq peer.route claims.route
    && bytes_eq peer.admission_root claims.admission_root
    && (not (peer.role == role_receiver) || bytes_eq peer.peer claims.receiver)

-- The text that stands before the body under the HMAC.
abbrev pub token_domain : Bytes
token_domain =
    b'O' ∷ b'w' ∷ b'n' ∷ b'T' ∷ b'r' ∷ b'a' ∷ b'n' ∷ b's' ∷ b'i' ∷ b't' ∷ b' ' ∷ b'r' ∷ b'e' ∷ b'l'
    ∷ b'a' ∷ b'y' ∷ b' ' ∷ b'r' ∷ b'o' ∷ b'u' ∷ b't' ∷ b'e' ∷ b' ' ∷ b't' ∷ b'o' ∷ b'k' ∷ b'e'
    ∷ b'n' ∷ b' ' ∷ b'v' ∷ b'2' ∷ 0 ∷ []

-- `mac key message`.
module _ (mac : Bytes → Bytes → Bytes) where
  unfoldable pub seal_token : Bytes → TokenClaims → Bytes
  seal_token key claims =
      join (body_fields claims) ++ mac key (token_domain ++ join (body_fields claims))

  unfoldable pub open_token : Bytes → Bytes → ℕ → Bool → Outcome TokenError TokenClaims
  open_token key encoded now renewal = do
    fail_if (not (length key == 32) || not (length encoded == token_body_size + 32)) unauthorized
    let body = take token_body_size encoded
    fail_if
        (not (bytes_eq (drop token_body_size encoded) (mac key (token_domain ++ body)))
          || not (bytes_eq (take 8 body) token_magic))
        unauthorized
    let claims = claims_of (cut token_sizes body)
    fail_if (ltb max_int64 claims.issued || ltb max_int64 claims.expires) unauthorized
    or_unauthorized (validate_token_claims claims now renewal)
    ok claims

  -- `VerifyToken`.
  unfoldable pub verify_token : Bytes → Bytes → ℕ → Outcome TokenError TokenClaims
  unfolding open_token
  verify_token key encoded now = open_token key encoded now false

  unfoldable pub issue_token : Bytes → TokenClaims → ℕ → Outcome TokenError Bytes
  unfolding seal_token
  issue_token key claims now = do
    fail_if (not (length key == 32) || claims.generation == 0 || not (claims.issued == instant now))
        invalid
    validate_token_claims claims now false
    ok (seal_token key claims)

  -- The claims of the renewed token.
  abbrev pub renewed_claims : ℕ → ℕ → TokenClaims → TokenClaims
  renewed_claims now validity claims = record claims {
    generation = claims.generation + 1;
    issued = instant now;
    expires = (instant now * second + validity) / second;
  }

  unfoldable pub renew_token : Bytes → Bytes → AuthenticatedPeer → ℕ → ℕ → Outcome TokenError Bytes
  unfolding open_token seal_token
  renew_token key previous peer now validity = do
    fail_if (validity == 0 || ltb max_token_validity validity) invalid
    claims ← open_token key previous now true
    fail_if (not (same_authenticated_route claims peer) || claims.generation == 2 ^ 64 - 1)
        unauthorized
    validate_token_claims (renewed_claims now validity claims) now false
    ok (seal_token key (renewed_claims now validity claims))
