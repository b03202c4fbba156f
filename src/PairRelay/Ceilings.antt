-- ===== src/PairRelay/Ceilings.antt =====
-- internal/pairrelay/relay.go and types.go: the limits of the relay, the deadlines, and the active pairs.
use own_transit.Prelude.{
  ℕ, ◌+◌, ◌-◌, ◌*◌, ◌<◌, ◌≤◌, ◌≡◌, refl, ◌||◌, Option, none, some, List, [], ◌∷◌, min, ltb, leb,
  ◌==◌, if◌then◌else◌, arith, Option-cases, inl, inr,
}
use own_transit.PairRelay.{RouteKey, TokenClaims, set_count, count_of}

abbrev pub second : ℕ
second = 1_000_000_000

-- The default and the maximum of a limit.
pub record Ceiling : Type 0 where
  pub preset : ℕ
  pub maximum : ℕ

abbrev ceiling : ℕ → ℕ → Ceiling
ceiling preset maximum = record { preset = preset; maximum = maximum }

-- The fields of `Limits` in the order of `normalizeLimits`: the numbers, then the durations.
abbrev pub ceilings : List Ceiling
ceilings =
    ceiling 128 4096
    ∷ ceiling 256 4096
    ∷ ceiling 64 256
    ∷ ceiling 64 1024
    ∷ ceiling 64 1024
    ∷ ceiling 64 1024
    ∷ ceiling 4 64
    ∷ ceiling 4 64
    ∷ ceiling 131072 131072
    ∷ ceiling 1048576 1048576
    ∷ ceiling (86_400 * second) (604_800 * second)
    ∷ ceiling (120 * second) (120 * second)
    ∷ ceiling (30 * second) (60 * second)
    ∷ ceiling (10 * second) (60 * second)
    ∷ ceiling (86_400 * second) (2_592_000 * second)
    ∷ []

abbrev pub or_preset : Ceiling → ℕ → ℕ
or_preset c value = if value == 0 then c.preset else value

-- The two loops of `normalizeLimits` over the values in that order; `none` is ErrProtocol.
unfoldable pub normalize : List Ceiling → List ℕ → Option (List ℕ)
normalize [] values = some []
normalize (c ∷ cs) [] = none
normalize (c ∷ cs) (value ∷ values) =
    let others = normalize cs values in
    if leb (or_preset c value) 0 || ltb c.maximum (or_preset c value)
    then none
    else elim others [ none ↦ none | some rest ↦ some (or_preset c value ∷ rest) ]

-- Every value is positive and within its maximum.
abbrev pub Fits : List Ceiling → List ℕ → Type 0
Fits [] [] = Unit {0}
Fits [] (v ∷ vs) = ⊥
Fits (c ∷ cs) [] = ⊥
Fits (c ∷ cs) (v ∷ vs) = ((0 < v) × (v ≤ c.maximum)) × Fits cs vs

normalize-again : (cs : List Ceiling) (vs : List ℕ) → Fits cs vs → normalize cs vs ≡ some vs
unfolding normalize
normalize-again [] [] f = refl
normalize-again [] (v ∷ vs) f = absurd f
normalize-again (c ∷ cs) [] f = absurd f
normalize-again (c ∷ cs) (v ∷ vs) ((p, q), f) = ground (arith, normalize-again cs vs f)

normalize-Fits_lem :
    (cs : List Ceiling) (values vs : List ℕ) → normalize cs values ≡ some vs → Fits cs vs
unfolding normalize
normalize-Fits_lem [] values [] e = tt
normalize-Fits_lem [] values (v ∷ vs) e = absurd (ground arith)
normalize-Fits_lem (c ∷ cs) [] vs e = absurd (ground arith)
normalize-Fits_lem (c ∷ cs) (value ∷ values) [] e = absurd (ground arith)
normalize-Fits_lem (c ∷ cs) (value ∷ values) (v ∷ vs) e =
    elim (Option-cases (normalize cs values)) [
      | inl n ↦ absurd (ground arith)
      | inr (others, q) ↦
          ((ground arith, ground arith), normalize-Fits_lem cs values vs (ground arith))
    ]

-- Limits that the relay accepts are positive and within their maxima, and to normalize them again changes
-- nothing.
pub normalize-Fits :
    (values vs : List ℕ)
    → normalize ceilings values ≡ some vs
    → Fits ceilings vs × (normalize ceilings vs ≡ some vs)
normalize-Fits values vs e = (
  normalize-Fits_lem ceilings values vs e,
  normalize-again ceilings vs (normalize-Fits_lem ceilings values vs e),
)

abbrev earlier : ℕ → ℕ → ℕ
earlier a b = if ltb a b then a else b

-- The times of tokens are in seconds.
unfoldable pub pending_expiry : ℕ → ℕ → TokenClaims → ℕ
pending_expiry now pairing_timeout claims =
    earlier (claims.expires * second) (now + pairing_timeout)

abbrev pub renewal_grace : ℕ
renewal_grace = 63_072_000 * second

unfoldable pub pairing_expiry : ℕ → ℕ → TokenClaims → ℕ
pairing_expiry now pairing_timeout claims =
    earlier (claims.expires * second + renewal_grace) (now + pairing_timeout)

unfoldable pub session_expiry : ℕ → ℕ → TokenClaims → TokenClaims → ℕ
session_expiry now session_lifetime first other =
    let lifetime =
      earlier other.limits.session_lifetime
        (earlier first.limits.session_lifetime session_lifetime) in
    earlier (other.expires * second) (earlier (first.expires * second) (now + lifetime))

-- A session ends by the expiry of both tokens and by the shortest of the three lifetimes, and exactly at
-- one of these.
pub session_expiry-bounds :
    (now session_lifetime : ℕ) (first other : TokenClaims)
    → let ends = session_expiry now session_lifetime first other in
      let lifetime =
        min session_lifetime (min first.limits.session_lifetime other.limits.session_lifetime) in
      ends ≡ min (now + lifetime) (min (first.expires * second) (other.expires * second))
unfolding session_expiry
session_expiry-bounds now session_lifetime first other = ground arith

-- The active pairs.
pub record Active : Type 0 where
  pub active : ℕ
  pub per_route : RouteKey → Option ℕ

-- `acquireActive` behind `checkAdmissionLocked`; `none` is ErrCapacity.
unfoldable pub acquire_active :
    ℕ → ℕ → RouteKey → TokenClaims → TokenClaims → Active → Option Active
acquire_active active_carriers per_route_active key first other a =
    let limit =
      min per_route_active (min first.limits.active_carriers other.limits.active_carriers) in
    if leb active_carriers a.active || leb limit (count_of (a.per_route key))
    then none
    else some (record {
      active = a.active + 1;
      per_route = set_count a.per_route key (count_of (a.per_route key) + 1);
    })

unfoldable pub release_active : RouteKey → Active → Active
release_active key a = record {
  active = a.active - 1;
  per_route = set_count a.per_route key (count_of (a.per_route key) - 1);
}

-- A pair that was let in fits the relay's and both tokens' limits, and when it ends every count is back
-- where it was.
pub release_active-acquire_active :
    (active_carriers per_route_active : ℕ) (key : RouteKey) (first other : TokenClaims)
    (a a' : Active)
    → acquire_active active_carriers per_route_active key first other a ≡ some a'
    → (a'.active ≤ active_carriers)
      × (count_of (a'.per_route key) ≤ per_route_active)
      × (count_of (a'.per_route key) ≤ first.limits.active_carriers)
      × (count_of (a'.per_route key) ≤ other.limits.active_carriers)
      × ((release_active key a').active ≡ a.active)
      × ((j : RouteKey) → count_of ((release_active key a').per_route j) ≡ count_of (a.per_route j))
unfolding acquire_active release_active
release_active-acquire_active active_carriers per_route_active key first other a a' e =
    (ground arith, ground arith, ground arith, ground arith, ground arith, λ j. ground arith)
