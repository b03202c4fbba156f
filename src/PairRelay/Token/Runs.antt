-- ===== src/PairRelay/Token/Runs.antt =====
-- A token of a route, with a code that is the same for every message, and its renewal.
use own_transit.Prelude.{
  ℕ, ◌≡◌, ◌*◌, refl, true, replicate, Bytes, IsByte, All, ok, are_bytes-IsByte, arith,
}
use own_transit.Prelude.BigEndian.{be_put, be_get}
use own_transit.Prelude.Fields.{join, cut}
use own_transit.PairRelay.{TokenClaims}
use own_transit.PairRelay.Ceilings.{second}
use own_transit.PairRelay.Wire.{role_client}
use own_transit.PairRelay.Token.{
  AuthenticatedPeer, same_authenticated_route, valid_route_limits, validate_token_claims,
  seal_token, open_token, verify_token, renew_token, renewed_claims,
}
use own_transit.PairRelay.Token.Claims.{Fitting}
use own_transit.PairRelay.Token.Sealing.{open_token_canonical}
use own_transit.PairRelay.Token.Renewal.{verify_token-renew_token}

abbrev mac : Bytes → Bytes → Bytes
mac key message = replicate 32 77

abbrev key : Bytes
key = replicate 32 1

abbrev now : ℕ
now = 1_000 * second

abbrev claims : TokenClaims
claims = record {
  receiver = replicate 32 1;
  route = replicate 32 2;
  admission_root = replicate 32 3;
  generation = 4;
  issued = 900;
  expires = 2_000;
  limits = record {
    pending_pairings = 1;
    pending_carriers = 3;
    active_carriers = 2;
    pairing_bytes = 100;
    session_lifetime = 60 * second;
  };
}

abbrev peer : AuthenticatedPeer
peer = record {
  receiver = replicate 32 1;
  route = replicate 32 2;
  admission_root = replicate 32 3;
  role = role_client;
  peer = replicate 32 8;
}

abbrev token : Bytes
token = seal_token mac key claims

fits : Fitting claims
fits = record {
  receiver = refl;
  route = refl;
  admission_root = refl;
  generation = omega arith;
  issued = omega arith;
  expires = omega arith;
}

opens : open_token mac key token now true ≡ ok claims
unfolding open_token seal_token join cut be_put be_get validate_token_claims valid_route_limits
opens = refl

token-IsByte : All IsByte token
unfolding seal_token join be_put
token-IsByte = are_bytes-IsByte token refl

abbrev renewed : TokenClaims
renewed = record claims { generation = 5; issued = 1_000; expires = 1_600 }

renews : renew_token mac key token peer now (600 * second) ≡ ok (seal_token mac key renewed)
unfolding renew_token open_token seal_token join cut be_put be_get validate_token_claims
    valid_route_limits same_authenticated_route
renews = refl

open_token_canonical_example :
    (seal_token mac key claims ≡ token) × (validate_token_claims claims now true ≡ ok tt)
open_token_canonical_example = open_token_canonical mac key claims token now true token-IsByte opens

verify_token-renew_token_example :
    (c : TokenClaims) × (open_token mac key token now true ≡ ok c)
    × (same_authenticated_route c peer ≡ true)
    × (verify_token mac key (seal_token mac key renewed) now
        ≡ ok (renewed_claims mac now (600 * second) c))
verify_token-renew_token_example =
    verify_token-renew_token mac key token peer now (600 * second) (λ m. refl) refl token-IsByte
      (omega arith) renews
