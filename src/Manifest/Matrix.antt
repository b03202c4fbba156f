-- ===== src/Manifest/Matrix.antt =====
-- The artifacts that a release must have.
use own_transit.Prelude.{List, [], ◌∷◌, Bytes, bytes_eq, Option, none, some, if◌then◌else◌}
use own_transit.Prelude.Texts.{codes}

pub record ArtifactProfile : Type 0 where
  pub file : Bytes
  pub os : Bytes
  pub arch : Bytes
  pub role : Bytes
  pub format : Bytes
  pub ssh_target : Bytes

abbrev pub executable : Bytes
executable = codes "executable"

abbrev pub oci : Bytes
oci = codes "oci"

abbrev pub production_connector_target : Bytes
production_connector_target = codes "tcp4/127.0.0.1:22"

abbrev profile : Bytes → Bytes → Bytes → Bytes → Bytes → Bytes → ArtifactProfile
profile file os arch role format ssh_target = record {
  file = file;
  os = os;
  arch = arch;
  role = role;
  format = format;
  ssh_target = ssh_target;
}

abbrev pub initial_artifact_matrix : List (Bytes × ArtifactProfile)
initial_artifact_matrix =
    (
      codes "client-darwin-arm64",
      profile (codes "artifacts/owntransit-darwin-arm64") (codes "darwin") (codes "arm64")
          (codes "client") executable [],
    )
    ∷ (
      codes "client-linux-amd64",
      profile (codes "artifacts/owntransit-linux-amd64") (codes "linux") (codes "amd64")
          (codes "client") executable [],
    )
    ∷ (
      codes "connector-linux-amd64",
      profile (codes "artifacts/owntransit-connector-linux-amd64") (codes "linux") (codes "amd64")
          (codes "connector") executable production_connector_target,
    )
    ∷ (
      codes "relay-linux-amd64",
      profile (codes "artifacts/owntransit-relay-linux-amd64.oci.tar") (codes "linux")
          (codes "amd64") (codes "relay") oci [],
    )
    ∷ (
      codes "lifecycle-darwin-arm64",
      profile (codes "artifacts/owntransitctl-darwin-arm64") (codes "darwin") (codes "arm64")
          (codes "lifecycle") executable [],
    )
    ∷ (
      codes "lifecycle-linux-amd64",
      profile (codes "artifacts/owntransitctl-linux-amd64") (codes "linux") (codes "amd64")
          (codes "lifecycle") executable [],
    )
    ∷ (
      codes "provisioner-darwin-arm64",
      profile (codes "artifacts/owntransit-provision-darwin-arm64") (codes "darwin") (codes "arm64")
          (codes "provisioner") executable [],
    )
    ∷ (
      codes "provisioner-linux-amd64",
      profile (codes "artifacts/owntransit-provision-linux-amd64") (codes "linux") (codes "amd64")
          (codes "provisioner") executable [],
    )
    ∷ (
      codes "launcher-darwin-arm64",
      profile (codes "artifacts/owntransit-launcher-darwin-arm64") (codes "darwin") (codes "arm64")
          (codes "launcher") executable [],
    )
    ∷ (
      codes "client-linux-arm64",
      profile (codes "artifacts/owntransit-linux-arm64") (codes "linux") (codes "arm64")
          (codes "client") executable [],
    )
    ∷ (
      codes "connector-linux-arm64",
      profile (codes "artifacts/owntransit-connector-linux-arm64") (codes "linux") (codes "arm64")
          (codes "connector") executable production_connector_target,
    )
    ∷ (
      codes "relay-linux-arm64",
      profile (codes "artifacts/owntransit-relay-linux-arm64.oci.tar") (codes "linux")
          (codes "arm64") (codes "relay") oci [],
    )
    ∷ (
      codes "lifecycle-linux-arm64",
      profile (codes "artifacts/owntransitctl-linux-arm64") (codes "linux") (codes "arm64")
          (codes "lifecycle") executable [],
    )
    ∷ (
      codes "provisioner-linux-arm64",
      profile (codes "artifacts/owntransit-provision-linux-arm64") (codes "linux") (codes "arm64")
          (codes "provisioner") executable [],
    )
    ∷ []

abbrev pub initial_artifact_order : List Bytes
initial_artifact_order =
    codes "client-darwin-arm64"
    ∷ codes "client-linux-amd64"
    ∷ codes "connector-linux-amd64"
    ∷ codes "relay-linux-amd64"
    ∷ codes "lifecycle-darwin-arm64"
    ∷ codes "lifecycle-linux-amd64"
    ∷ codes "provisioner-darwin-arm64"
    ∷ codes "provisioner-linux-amd64"
    ∷ codes "launcher-darwin-arm64"
    ∷ codes "client-linux-arm64"
    ∷ codes "connector-linux-arm64"
    ∷ codes "relay-linux-arm64"
    ∷ codes "lifecycle-linux-arm64"
    ∷ codes "provisioner-linux-arm64"
    ∷ []

-- A lookup in the Go map.
unfoldable pub lookup : List (Bytes × ArtifactProfile) → Bytes → Option ArtifactProfile
lookup [] name = none
lookup ((key, p) ∷ rows) name =
    let rest = lookup rows name in if bytes_eq key name then some p else rest
