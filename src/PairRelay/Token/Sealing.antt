-- ===== src/PairRelay/Token/Sealing.antt =====
-- A token that is sealed opens as its claims, and only such a token opens.
use own_transit.Prelude.{
  ℕ, ◌+◌, ◌≤◌, ◌≡◌, refl, sym, ap, ◌∙◌, subst, Bool, false, not, ◌||◌, ◌++◌, length, take, drop,
  Bytes, IsByte, All, bytes_eq, bytes_eq→eq, bytes_eq_refl, ltb, ◌==◌, Outcome, ok, err, bound,
  ok_inj, fail_if-both, fail_if-neither, ==_iff, fail_if, arith, take-append, drop-append,
  take-append-drop, length-append, length-take_all, All-take,
}
use own_transit.Prelude.BigEndian.{be_get-be_put}
use own_transit.Prelude.Fields.{
  join, cut, field-cut, sum, cut-join, join-cut, map-length-cut, cut-IsByte, length-join,
}
use own_transit.PairRelay.{TokenClaims}
use own_transit.PairRelay.Token.{
  TokenError, invalid, unauthorized, expired, token_sizes, token_body_size, token_magic, max_int64,
  token_domain, body_fields, claims_of, validate_token_claims, or_unauthorized, seal_token,
  open_token,
}
use own_transit.PairRelay.Token.Claims.{
  Fitting, sizes-body_fields, valid_route_limits-FittingLimits, validate_token_claims-limits,
  claims_of-body_fields, body_fields-claims_of, claims_of-Fitting,
}

unit_ok : {o : Outcome TokenError (Unit {0})} {u : Unit {0}} → o ≡ ok u → o ≡ ok tt
unit_ok h = h

or_unauthorized_ok :
    {A : Type 0} {a : A} (o : Outcome TokenError A) → or_unauthorized o ≡ ok a → o ≡ ok a
or_unauthorized_ok (ok a) h = h
or_unauthorized_ok (err invalid) h = absurd (ground arith)
or_unauthorized_ok (err unauthorized) h = absurd (ground arith)
or_unauthorized_ok (err expired) h = absurd (ground arith)

in_range : (n : ℕ) → ltb max_int64 n ≡ false → n ≤ max_int64
in_range n h = ground arith

module _ (mac : Bytes → Bytes → Bytes) (key : Bytes) (claims : TokenClaims) where
  body : Bytes
  body = join (body_fields claims)

  length-body : Fitting claims → length body ≡ token_body_size
  unfolding body
  length-body f = length-join (body_fields claims) ∙ ap sum (sizes-body_fields claims f)

  cut-body : Fitting claims → cut token_sizes body ≡ body_fields claims
  unfolding body
  cut-body f =
      subst (λ sizes. cut sizes (join (body_fields claims)) ≡ body_fields claims)
        (sizes-body_fields claims f) (cut-join (body_fields claims))

  take_join_magic : take 8 (join (body_fields claims)) ≡ token_magic
  unfolding join
  take_join_magic = refl

  -- Under a key of 32 bytes, and if the code of a message has 32 bytes, a token that is sealed for claims
  -- that fit its fields and are valid now opens as these claims.
  pub open_token-seal_token :
      (now : ℕ) (renewal : Bool)
      → ((message : Bytes) → length (mac key message) ≡ 32)
      → length key ≡ 32
      → Fitting claims
      → validate_token_claims claims now renewal ≡ ok tt
      → open_token mac key (seal_token mac key claims) now renewal ≡ ok claims
  unfolding open_token seal_token body
  open_token-seal_token now renewal code size f valid =
      let code_of = mac key (token_domain ++ join (body_fields claims)) in
      rw
        (
          size,
          length-append (join (body_fields claims)) code_of,
          length-body f,
          code (token_domain ++ join (body_fields claims)),
          take-append token_body_size (join (body_fields claims)) code_of (length-body f),
          drop-append token_body_size (join (body_fields claims)) code_of (length-body f),
          cut-body f,
          claims_of-body_fields claims f (
              valid_route_limits-FittingLimits claims.limits
                (validate_token_claims-limits claims now renewal valid)),
          bytes_eq_refl code_of,
          take_join_magic,
          valid,
        )
        (rw
          (
            be_get-be_put 8 claims.issued (omega (arith, f.issued)),
            be_get-be_put 8 claims.expires (omega (arith, f.expires)),
          )
          (ground (arith, f.issued, f.expires)))

  -- What the refusals of `open_token` leave.
  record Opened (encoded : Bytes) (now : ℕ) (renewal : Bool) : Type 0 where
    key_size : length key ≡ 32
    size : length encoded ≡ token_body_size + 32
    code : drop token_body_size encoded ≡ mac key (token_domain ++ take token_body_size encoded)
    magic : take 8 (take token_body_size encoded) ≡ token_magic
    claimed : claims_of (cut token_sizes (take token_body_size encoded)) ≡ claims
    issued : claims.issued ≤ max_int64
    expires : claims.expires ≤ max_int64
    valid : validate_token_claims claims now renewal ≡ ok tt

  open_token-Opened :
      (encoded : Bytes) (now : ℕ) (renewal : Bool)
      → open_token mac key encoded now renewal ≡ ok claims
      → Opened encoded now renewal
  unfolding open_token
  open_token-Opened encoded now renewal h =
      let b = take token_body_size encoded in
      let cs = claims_of (cut token_sizes b) in
      let (_, sizes, h) =
        bound
          (fail_if (not (length key == 32) || not (length encoded == token_body_size + 32))
            unauthorized)
          _ h in
      let (_, tags, h) =
        bound
          (fail_if
            (not (bytes_eq (drop token_body_size encoded) (mac key (token_domain ++ b)))
              || not (bytes_eq (take 8 b) token_magic))
            unauthorized)
          _ h in
      let (_, times, h) =
        bound (fail_if (ltb max_int64 cs.issued || ltb max_int64 cs.expires) unauthorized) _ h in
      let (_, checked, h) = bound (or_unauthorized (validate_token_claims cs now renewal)) _ h in
      let (key_size, size) =
        fail_if-both (length key == 32) (length encoded == token_body_size + 32) unauthorized
          sizes in
      let (code, magic) =
        fail_if-both (bytes_eq (drop token_body_size encoded) (mac key (token_domain ++ b)))
          (bytes_eq (take 8 b) token_magic) unauthorized tags in
      let (issued, expires) =
        fail_if-neither (ltb max_int64 cs.issued) (ltb max_int64 cs.expires) unauthorized times in
      let claimed : cs ≡ claims = ok_inj h in
      record {
        key_size = (==_iff (length key) 32).0 key_size;
        size = (==_iff (length encoded) (token_body_size + 32)).0 size;
        code = bytes_eq→eq (drop token_body_size encoded) (mac key (token_domain ++ b)) code;
        magic = bytes_eq→eq (take 8 b) token_magic magic;
        claimed = claimed;
        issued = subst (λ c. c.issued ≤ max_int64) claimed (in_range cs.issued issued);
        expires = subst (λ c. c.expires ≤ max_int64) claimed (in_range cs.expires expires);
        valid =
            subst (λ c. validate_token_claims c now renewal ≡ ok tt) claimed
              (or_unauthorized_ok (validate_token_claims cs now renewal) (unit_ok checked));
      }

  pub open_token-Fitting :
      (encoded : Bytes) (now : ℕ) (renewal : Bool)
      → All IsByte encoded
      → open_token mac key encoded now renewal ≡ ok claims
      → Fitting claims
  open_token-Fitting encoded now renewal bytes h =
      let o = open_token-Opened encoded now renewal h in
      let b = take token_body_size encoded in
      let fs = cut token_sizes b in
      let size_b : length b ≡ token_body_size =
        length-take_all token_body_size encoded (omega (arith, o.size)) in
      subst (λ c. c.issued ≤ max_int64 → c.expires ≤ max_int64 → Fitting c) o.claimed
        (claims_of-Fitting fs (map-length-cut token_sizes b (omega (arith, size_b)))
          (cut-IsByte token_sizes b (All-take IsByte token_body_size encoded bytes)))
        o.issued o.expires

  -- A token that opens is, if it is made of bytes, the sealing of the claims that it opens as, which are
  -- valid, or, for a renewal, expired within its grace.
  pub open_token_canonical :
      (encoded : Bytes) (now : ℕ) (renewal : Bool)
      → All IsByte encoded
      → open_token mac key encoded now renewal ≡ ok claims
      → (seal_token mac key claims ≡ encoded) × (validate_token_claims claims now renewal ≡ ok tt)
  unfolding seal_token
  open_token_canonical encoded now renewal bytes h =
      let o = open_token-Opened encoded now renewal h in
      let b = take token_body_size encoded in
      let fs = cut token_sizes b in
      let size_b : length b ≡ token_body_size =
        length-take_all token_body_size encoded (omega (arith, o.size)) in
      let same : body_fields claims ≡ fs =
        subst (λ c. body_fields c ≡ fs) o.claimed
          (body_fields-claims_of fs (map-length-cut token_sizes b (omega (arith, size_b)))
            (cut-IsByte token_sizes b (All-take IsByte token_body_size encoded bytes))
            (field-cut 8 _ b ∙ o.magic)) in
      let rejoined : join (body_fields claims) ≡ b = ap join same ∙ join-cut token_sizes b size_b in
      (rw (rejoined, sym o.code) (take-append-drop token_body_size encoded), o.valid)
