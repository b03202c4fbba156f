-- ===== src/Manifest/Runs.antt =====
-- The theorems on manifests at the manifest of the samples.
use own_transit.Prelude.{inl, refl, [], ◌∷◌}
use own_transit.ReleasePolicy.Samples.{codec, key, anchor, verified, chain, at_second}
use own_transit.Manifest.Exact.{Exact, validate_manifest-Exact}
use own_transit.Manifest.Decision.{Installable, verify_for_install-Installable}
use own_transit.Manifest.Samples.{
  manifest, parse_url, valid, manifest_codec, install_policy, client, installs,
}

validate_manifest-Exact_example : Exact manifest
validate_manifest-Exact_example = validate_manifest-Exact codec parse_url manifest valid

verify_for_install-Installable_example : Installable (anchor 1) install_policy manifest client
verify_for_install-Installable_example =
    verify_for_install-Installable manifest_codec (1 ∷ 10 ∷ []) (1 ∷ 10 ∷ []) key install_policy
      manifest client key (2 ∷ 10 ∷ []) (1 ∷ 10 ∷ []) (anchor 1) (anchor 2) (verified 2) chain
      (inl at_second) refl installs
