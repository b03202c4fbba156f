-- ===== src/Packages/Safety.antt =====
-- The files that a package transaction installs have plain and distinct names.
use own_transit.Prelude.{
  ℕ, ◌≡◌, refl, Bool, true, false, not, ◌&&◌, ◌||◌, Option, none, some, List, [], ◌∷◌, map, length,
  Bytes, All, bytes_eq, ltb, ◌==◌, ok, fail_if, bound, arith,
}
use own_transit.Prelude.Texts.{codes, lex_lt, split, count_byte, Increasing, All-below}
use own_transit.ReleasePolicy.{not_positive}
use own_transit.Manifest.{too_large}
use own_transit.Manifest.Names.{every, valid_digest}
use own_transit.Packages.{
  DecisionFile, PackageError, bad_count, bad_file, reserved_name, not_sorted, token_byte,
  valid_token, valid_component, valid_relative_path, unix_install_mode, valid_install_mode,
  install_modes, reserved, not_after, check_files, validate_decision_files,
}

pub tested : {b : Bool} (e : PackageError) {u : Unit {0}} → fail_if b e ≡ ok u → b ≡ false
tested e h = ground arith

pub truth : (b : Bool) → not b ≡ false → b ≡ true
truth b h = ground arith

pub or_false : (a b : Bool) → (a || b) ≡ false → (a ≡ false) × (b ≡ false)
or_false a b h = (ground arith, ground arith)

pub not_slash : (c : ℕ) → token_byte c ≡ true → (c == b'/') ≡ false
not_slash c h = ground arith

pub every-count_byte : (name : Bytes) → every token_byte name ≡ true → count_byte b'/' name ≡ 0
unfolding every count_byte
every-count_byte [] h = refl
every-count_byte (c ∷ cs) h = ground (arith, every-count_byte cs, not_slash c)

pub every-split : (name : Bytes) → every token_byte name ≡ true → split b'/' name ≡ name ∷ []
unfolding every split
every-split [] h = refl
every-split (c ∷ cs) h = rw (not_slash c (ground arith), every-split cs (ground arith)) refl

-- What the test of a component says.
pub record Component (name : Bytes) : Type 0 where
  pub not_empty : (length name == 0) ≡ false
  pub short : ltb 128 (length name) ≡ false
  pub plain : every token_byte name ≡ true
  pub not_dot : bytes_eq name (codes ".") ≡ false
  pub not_dots : bytes_eq name (codes "..") ≡ false

pub valid_component-Component : (name : Bytes) → valid_component name ≡ true → Component name
unfolding valid_component valid_token
valid_component-Component name h = record {
  not_empty = ground arith;
  short = ground arith;
  plain = ground arith;
  not_dot = ground arith;
  not_dots = ground arith;
}

-- A name without a directory that neither is a reserved one nor means another place, and a mode of the list that is not setgid
-- for the group 0.
pub record Safe (f : DecisionFile) : Type 0 where
  pub flat : count_byte b'/' f.install_name ≡ 0
  pub not_dot : bytes_eq f.install_name (codes ".") ≡ false
  pub not_dots : bytes_eq f.install_name (codes "..") ≡ false
  pub free : reserved f.install_name ≡ false
  pub mode : install_modes (unix_install_mode f.mode) ≡ true
  pub group : (f.mode.setgid && f.gid == 0) ≡ false

abbrev pub names_of : List DecisionFile → List Bytes
names_of files = map (λ f. f.install_name) files

module _ (clean : Bytes → Bytes) where
  -- What one turn of the loop tests.
  record Turn (previous : Option Bytes) (f : DecisionFile) (rest : List DecisionFile) : Type 0 where
    safe : Safe f
    after : not_after previous f.install_name ≡ false
    others : check_files clean (some f.install_name) rest ≡ ok tt

  check_files-Turn :
      (previous : Option Bytes) (f : DecisionFile) (rest : List DecisionFile)
      → check_files clean previous (f ∷ rest) ≡ ok tt
      → Turn previous f rest
  unfolding check_files
  check_files-Turn previous f rest h =
      let (_, fields, h) =
        bound
          (fail_if
            (not (valid_token f.artifact_name)
              || not (valid_relative_path clean f.source_path)
              || not (valid_component f.install_name)
              || not (valid_digest f.sha256)
              || not_positive f.size
              || too_large f.size
              || not (valid_install_mode f.mode)
              || f.mode.setgid && f.gid == 0)
            bad_file)
          _ h in
      let (_, free, h) = bound (fail_if (reserved f.install_name) reserved_name) _ h in
      let (_, after, h) = bound (fail_if (not_after previous f.install_name) not_sorted) _ h in
      let (t, group) = or_false _ _ (tested bad_file fields) in
      let (t, mode) = or_false _ _ t in
      let (t, _) = or_false _ _ t in
      let (t, _) = or_false _ _ t in
      let (t, _) = or_false _ _ t in
      let (_, component) = or_false _ _ t in
      let name = valid_component-Component f.install_name (truth _ component) in
      record {
        safe = record {
          flat = every-count_byte f.install_name name.plain;
          not_dot = name.not_dot;
          not_dots = name.not_dots;
          free = tested reserved_name free;
          mode = truth _ mode;
          group = group;
        };
        after = tested not_sorted after;
        others = h;
      }

  above_previous :
      (previous : Bytes) (files : List DecisionFile)
      → check_files clean (some previous) files ≡ ok tt
      → All (λ y. lex_lt previous y ≡ true) (names_of files)
        × Increasing (names_of files)
        × All Safe files
  above_previous previous [] h = (tt, tt, tt)
  above_previous previous (f ∷ rest) h =
      let t = check_files-Turn (some previous) f rest h in
      let (first, increasing, safe) = above_previous f.install_name rest t.others in
      let here : lex_lt previous f.install_name ≡ true = truth _ t.after in
      (
        (here, All-below previous f.install_name (names_of rest) here first),
        (first, increasing),
        (t.safe, safe),
      )

  -- Files that are accepted have install names in strictly increasing order, so no two are equal; each name is that of a
  -- file in the directory of the release itself, not a reserved one, and its mode is one of the seven, without the setgid bit
  -- if the group is 0.
  pub validate_decision_files-Safe :
      (files : List DecisionFile)
      → validate_decision_files clean files ≡ ok tt
      → Increasing (names_of files) × All Safe files
  unfolding validate_decision_files
  validate_decision_files-Safe [] h = (tt, tt)
  validate_decision_files-Safe (f ∷ rest) h =
      let (_, _, h) =
        bound (fail_if (length (f ∷ rest) == 0 || ltb 8 (length (f ∷ rest))) bad_count) _ h in
      let t = check_files-Turn none f rest h in
      let (first, increasing, safe) = above_previous f.install_name rest t.others in
      ((first, increasing), (t.safe, safe))
