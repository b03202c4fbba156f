-- ===== src/PairRelay/Token/Renewal.antt =====
-- A renewed token carries the route, the root and the limits of the token it renews.
use own_transit.Prelude.{
  ℕ, ◌+◌, ◌-◌, ◌*◌, ◌/◌, ◌^◌, ◌≤◌, ◌<◌, ◌≡◌, sym, true, false, not, ◌||◌, length, Bytes, All,
  IsByte, ltb, ◌==◌, ok, fail_if, fail_if-neither, bound, ok_inj, arith,
}
use own_transit.PairRelay.{TokenClaims}
use own_transit.PairRelay.Ceilings.{second}
use own_transit.PairRelay.Token.{
  invalid, unauthorized, max_int64, max_token_validity, AuthenticatedPeer, same_authenticated_route,
  validate_token_claims, seal_token, open_token, verify_token, renew_token, renewed_claims, instant,
}
use own_transit.PairRelay.Token.Claims.{Fitting}
use own_transit.PairRelay.Token.Sealing.{open_token-seal_token, open_token-Fitting}

within : (v : ℕ) → ltb max_token_validity v ≡ false → v ≤ max_token_validity
within v h = ground arith

module _ (mac : Bytes → Bytes → Bytes) (key : Bytes) where
  -- The claims, the peer and the new token of a renewal.
  record Renewed (previous : Bytes) (peer : AuthenticatedPeer) (now validity : ℕ) (token : Bytes)
      : Type 0 where
    long : validity ≤ max_token_validity
    claims : TokenClaims
    opened : open_token mac key previous now true ≡ ok claims
    same : same_authenticated_route claims peer ≡ true
    more : (claims.generation == 2 ^ 64 - 1) ≡ false
    valid : validate_token_claims (renewed_claims mac now validity claims) now false ≡ ok tt
    sealed : token ≡ seal_token mac key (renewed_claims mac now validity claims)

  renew_token-Renewed :
      (previous : Bytes) (peer : AuthenticatedPeer) (now validity : ℕ) {token : Bytes}
      → renew_token mac key previous peer now validity ≡ ok token
      → Renewed previous peer now validity token
  unfolding renew_token
  renew_token-Renewed previous peer now validity h =
      let (_, long, h) =
        bound (fail_if (validity == 0 || ltb max_token_validity validity) invalid) _ h in
      let (claims, opened, h) = bound (open_token mac key previous now true) _ h in
      let (_, refused, h) =
        bound
          (fail_if (not (same_authenticated_route claims peer) || claims.generation == 2 ^ 64 - 1)
            unauthorized)
          _ h in
      let (_, valid, h) =
        bound (validate_token_claims (renewed_claims mac now validity claims) now false) _ h in
      record {
        long =
            within validity
              (fail_if-neither (validity == 0) (ltb max_token_validity validity) invalid long).1;
        claims = claims;
        opened = opened;
        same = ground (arith, refused);
        more = ground (arith, refused);
        valid = valid;
        sealed = sym (ok_inj h);
      }

  -- A renewal that succeeds, of a token made of bytes, at a time that leaves room in 64 bits for a validity, with a
  -- key and codes of 32 bytes: the token before it opened as claims
  -- of the route of the authenticated peer, and the new token is verified, at that time, as
  -- these claims of the next generation, with the same receiver, route, admission root and limits.
  pub verify_token-renew_token :
      (previous : Bytes) (peer : AuthenticatedPeer) (now validity : ℕ) {token : Bytes}
      → ((message : Bytes) → length (mac key message) ≡ 32)
      → length key ≡ 32
      → All IsByte previous
      → instant now + 2_592_000 ≤ max_int64
      → renew_token mac key previous peer now validity ≡ ok token
      → (claims : TokenClaims) × (open_token mac key previous now true ≡ ok claims)
        × (same_authenticated_route claims peer ≡ true)
        × (verify_token mac key token now ≡ ok (renewed_claims mac now validity claims))
  unfolding verify_token
  verify_token-renew_token previous peer now validity codes size bytes time h =
      let r = renew_token-Renewed previous peer now validity h in
      let f = open_token-Fitting mac key r.claims previous now true bytes r.opened in
      let fit : Fitting (renewed_claims mac now validity r.claims) = record {
        receiver = f.receiver;
        route = f.route;
        admission_root = f.admission_root;
        generation = next r.claims.generation f.generation r.more;
        issued = omega arith;
        expires = ends (instant now) validity r.long time;
      } in
      (
        r.claims,
        r.opened,
        r.same,
        rw r.sealed (
            open_token-seal_token mac key (renewed_claims mac now validity r.claims) now false codes
              size fit r.valid),
      )
    where
      next : (g : ℕ) → g < 256 ^ 8 → (g == 2 ^ 64 - 1) ≡ false → g + 1 < 256 ^ 8
      next g h more = ground arith

      ends :
          (n v : ℕ)
          → v ≤ max_token_validity
          → n + 2_592_000 ≤ max_int64
          → (n * second + v) / second ≤ max_int64
      ends n v short time = omega arith
