-- ===== src/Manifest/Names.antt =====
-- The tests on the texts of a manifest: names, paths, digests, versions and the address of the builder image.
use own_transit.Prelude.{
  ℕ, ◌+◌, ◌-◌, ◌*◌, Bool, true, false, not, ◌&&◌, ◌||◌, Option, none, some, List, [], ◌∷◌, length,
  Bytes, byte_at, bytes_eq, ltb, leb, ◌==◌, if◌then◌else◌,
}
use own_transit.Prelude.Texts.{codes, split, cut_text, count_byte}

abbrev pub lower : ℕ → Bool
lower c = leb b'a' c && leb c b'z'

abbrev pub upper : ℕ → Bool
upper c = leb b'A' c && leb c b'Z'

abbrev pub digit : ℕ → Bool
digit c = leb b'0' c && leb c b'9'

abbrev pub is_lower_alphanumeric : ℕ → Bool
is_lower_alphanumeric c = lower c || digit c

unfoldable pub every : (ℕ → Bool) → Bytes → Bool
every test [] = true
every test (c ∷ cs) = test c && every test cs

unfoldable pub every_part : (Bytes → Bool) → List Bytes → Bool
every_part test [] = true
every_part test (p ∷ ps) = test p && every_part test ps

abbrev pub token_byte : ℕ → Bool
token_byte c = lower c || upper c || digit c || c == b'.' || c == b'_' || c == b'+' || c == b'-'

-- `safeToken`: a letter or a digit, and at most 127 more bytes.
unfoldable pub safe_token : Bytes → Bool
unfolding every
safe_token [] = false
safe_token (c ∷ cs) = (lower c || upper c || digit c) && leb (length cs) 127 && every token_byte cs

abbrev pub some_digits : Bytes → Bool
some_digits text = not (length text == 0) && every digit text

-- `goVersion`.
unfoldable pub go_version : Bytes → Bool
unfolding split every
go_version text = elim (split b'.' text) [
  | go ∷ minor ∷ [] ↦ bytes_eq go (codes "go1") && some_digits minor
  | go ∷ minor ∷ patch ∷ [] ↦ bytes_eq go (codes "go1") && some_digits minor && some_digits patch
  | _ ↦ false
]

-- The states of `repositoryComponent`: the start, behind a letter or digit, a dot, one or two underscores, and
-- dashes, and the refusal.
pub data Progress : Type 0 where
  start alphanumeric dot underscore underscores dashes refused : Progress

abbrev pub in_word : ℕ → Progress
in_word c = if is_lower_alphanumeric c then alphanumeric else refused

abbrev pub after_word : ℕ → Progress
after_word c =
    if c == b'.'
    then dot
    else (if c == b'_' then underscore else (if c == b'-' then dashes else in_word c))

abbrev pub advance : Progress → ℕ → Progress
advance alphanumeric c = after_word c
advance underscore c = if c == b'_' then underscores else in_word c
advance dashes c = if c == b'-' then dashes else in_word c
advance refused c = refused
advance _ c = in_word c

abbrev pub accepts : Progress → Bool
accepts alphanumeric = true
accepts _ = false

unfoldable pub runs_to : Progress → Bytes → Progress
runs_to s [] = s
runs_to s (c ∷ cs) = runs_to (advance s c) cs

abbrev pub repository_component : Bytes → Bool
repository_component text = accepts (runs_to start text)

abbrev pub dots : Bytes → Bool
dots component = bytes_eq component (codes ".") || bytes_eq component (codes "..")

unfoldable pub valid_relative_path : Bytes → Bool
unfolding split every_part safe_token
valid_relative_path value =
    not (
      length value == 0
      || ltb 512 (length value)
      || byte_at value 0 == b'/'
      || byte_at value (length value - 1) == b'/')
    && every_part (λ component. safe_token component && not (dots component)) (split b'/' value)

-- Lower-case hexadecimal digits.
abbrev pub lower_hex : ℕ → Bool
lower_hex c = digit c || leb b'a' c && leb c b'f'

-- A decoding of 32 bytes that encodes as the text again: 64 lower-case hexadecimal digits.
unfoldable pub valid_digest : Bytes → Bool
unfolding every
valid_digest value = length value == 64 && every lower_hex value

unfoldable pub valid_commit : Bytes → Bool
unfolding every
valid_commit value = (length value == 40 || length value == 64) && every lower_hex value

abbrev pub label_byte : ℕ → Bool
label_byte c = is_lower_alphanumeric c || c == b'-'

abbrev pub valid_label : Bytes → Bool
valid_label label =
    not (length label == 0 || ltb 63 (length label))
    && is_lower_alphanumeric (byte_at label 0)
    && is_lower_alphanumeric (byte_at label (length label - 1))
    && every label_byte label

unfoldable pub valid_registry_host : Bytes → Bool
unfolding split every_part every
valid_registry_host host =
    not (length host == 0 || ltb 253 (length host)) && every_part valid_label (split b'.' host)

-- `strconv.Atoi` of a text without a minus sign: a number that is negative is refused either way.
unfoldable pub number : ℕ → Bytes → Option ℕ
number n [] = some n
number n (c ∷ cs) = if digit c then number (n * 10 + (c - b'0')) cs else none

unfoldable pub atoi : Bytes → Option ℕ
unfolding number
atoi [] = none
atoi (c ∷ cs) = if c == b'+' && not (length cs == 0) then number 0 cs else number 0 (c ∷ cs)

abbrev pub valid_port : Bytes → Bool
valid_port text = elim (atoi text) [ none ↦ false | some port ↦ leb 1 port && leb port 65535 ]

-- The host, and the port if there is a colon.
unfoldable pub valid_registry : Bytes → Bool
unfolding cut_text count_byte atoi valid_registry_host
valid_registry registry = elim (cut_text (b':' ∷ []) registry) [
  | none ↦
      (bytes_eq registry (codes "localhost") || not (count_byte b'.' registry == 0))
      && valid_registry_host registry
  | some (host, port) ↦ count_byte b':' port == 0 && valid_port port && valid_registry_host host
]

unfoldable pub valid_repository : Bytes → Bool
unfolding split every_part runs_to
valid_repository repository =
    not (length repository == 0) && every_part repository_component (split b'/' repository)

unfoldable pub valid_builder_image : Bytes → Bool
unfolding count_byte cut_text valid_digest valid_registry valid_repository
valid_builder_image value = count_byte b'@' value == 1 && elim (cut_text (codes "@sha256:") value) [
  | none ↦ false
  | some (image, digest) ↦ valid_digest digest && elim (cut_text (b'/' ∷ []) image) [
    | none ↦ false
    | some (registry, repository) ↦ valid_registry registry && valid_repository repository
  ]
]

unfoldable pub valid_evidence_kind : Bytes → Bool
valid_evidence_kind kind =
    bytes_eq kind (codes "sbom")
    || bytes_eq kind (codes "licenses")
    || bytes_eq kind (codes "project-license")
    || bytes_eq kind (codes "provenance")
    || bytes_eq kind (codes "package-payload")
    || bytes_eq kind (codes "test-report")
    || bytes_eq kind (codes "race-report")
    || bytes_eq kind (codes "vet-report")
    || bytes_eq kind (codes "vulnerability-report")
    || bytes_eq kind (codes "reproducibility-report")
    || bytes_eq kind (codes "platform-signature")
    || bytes_eq kind (codes "notarization")
