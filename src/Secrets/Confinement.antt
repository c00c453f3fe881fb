-- ===== src/Secrets/Confinement.antt =====
-- crates/barbacane-wasm/src/secrets.rs: where a file reference can read from.
use Prim.Native.String.{◌++◌ as text_append}
use barbacane.Common.{
  String, if◌then◌else◌, starts_with_char, ◌≡◌, refl, sym, ◌∙◌, true, Option, none, some, trim,
  arith, ap, Bool-cases, inl, inr,
}
use barbacane.Secrets.Json.{strip_prefix}
use barbacane.Secrets.Resolve.{
  SecretsError, Result, ok, err, IoError, Host, path_starts_with, check_inside, confine_to,
  confine_in, confine_secret_path, join_unless_absolute, trimmed, read_secret, resolve_file,
  resolve_by, resolve_secret,
}

module _ (h : Host) where
  open h use {env_var, canonicalize, read_to_string}

  -- The path that is requested, in the configured directory unless it is absolute, has this canonical
  -- form, and this form is inside the canonical form of the directory.
  pub record IsConfined (path canonical : String) : Type 0 where
    pub dir : String
    pub base : String
    pub configured : env_var "BARBACANE_SECRETS_DIR" ≡ some dir
    pub canonical_base : canonicalize dir ≡ ok base
    pub requested :
        canonicalize
          (if starts_with_char b'/' path then path else text_append base (text_append "/" path))
        ≡ ok canonical
    pub inside : path_starts_with canonical base ≡ true

  check_inside-inside :
      (path base canonical : String) (r : Result String IoError)
      → check_inside h path base r ≡ ok canonical
      → (r ≡ ok canonical) × (path_starts_with canonical base ≡ true)
  check_inside-inside path base canonical (err e) p = absurd cc
  check_inside-inside path base canonical (ok found) p =
      elim (Bool-cases (path_starts_with found base)) [
        | inl e ↦ let same : found ≡ canonical = cc in (ap ok same, rw (← same) e)
        | inr e ↦ absurd (ground (arith, p, e))
      ]

  confine_to-base :
      (path canonical : String) (r : Result String IoError)
      → confine_to h path r ≡ ok canonical
      → (base : String) × (r ≡ ok base)
        × (canonicalize (join_unless_absolute base path) ≡ ok canonical)
        × (path_starts_with canonical base ≡ true)
  confine_to-base path canonical (err e) p = cc
  confine_to-base path canonical (ok base) p =
      let (requested, inside) = check_inside-inside path base canonical _ p in
      (base, refl, requested, inside)

  confine_in-dir :
      (path canonical : String) (o : Option String)
      → confine_in h path o ≡ ok canonical
      → (dir : String) × (o ≡ some dir) × (confine_to h path (canonicalize dir) ≡ ok canonical)
  confine_in-dir path canonical none p = cc
  confine_in-dir path canonical (some dir) p = (dir, refl, p)

  confine_secret_path-IsConfined :
      (path canonical : String)
      → confine_secret_path h path ≡ ok canonical
      → IsConfined path canonical
  unfolding confine_secret_path
  confine_secret_path-IsConfined path canonical p =
      let (dir, configured, q) =
        confine_in-dir path canonical (env_var "BARBACANE_SECRETS_DIR") p in
      let (base, canonical_base, requested, inside) =
        confine_to-base path canonical (canonicalize dir) q in
      record {
        dir = dir;
        base = base;
        configured = configured;
        canonical_base = canonical_base;
        requested = requested;
        inside = inside;
      }

  trimmed_ok :
      (path secret : String) (r : Result String IoError)
      → trimmed h path r ≡ ok secret
      → (content : String) × (r ≡ ok content) × (secret ≡ trim content)
  trimmed_ok path secret (err e) p = cc
  trimmed_ok path secret (ok content) p = (content, refl, cc)

  -- The file that a secret was read from.
  pub record IsReadFrom (path secret : String) : Type 0 where
    pub canonical : String
    pub content : String
    pub confined : IsConfined path canonical
    pub read : read_to_string canonical ≡ ok content
    pub secret_eq : secret ≡ trim content

  read_secret-IsReadFrom :
      (path secret : String) (r : Result String SecretsError)
      → confine_secret_path h path ≡ r
      → read_secret h path r ≡ ok secret
      → IsReadFrom path secret
  read_secret-IsReadFrom path secret (err e) c p = cc
  read_secret-IsReadFrom path secret (ok canonical) c p =
      let (content, read, secret_eq) = trimmed_ok path secret (read_to_string canonical) p in
      record {
        canonical = canonical;
        content = content;
        confined = confine_secret_path-IsConfined path canonical c;
        read = read;
        secret_eq = secret_eq;
      }

  resolve_by_file :
      (reference path : String) (env file : Option String)
      → env ≡ none
      → file ≡ some path
      → resolve_by h reference env file ≡ resolve_file h path
  resolve_by_file reference path env file no_env is_file = rw (no_env, is_file)

  -- A file reference that resolves was read from the canonical form of the path that it requests,
  -- which is inside the canonical form of the secrets directory that is configured, and the secret is
  -- what was read, trimmed.
  pub resolve_secret-IsReadFrom :
      (reference path secret : String)
      → strip_prefix "env://" reference ≡ none
      → strip_prefix "file://" reference ≡ some path
      → resolve_secret h reference ≡ ok secret
      → IsReadFrom path secret
  unfolding resolve_secret resolve_file
  resolve_secret-IsReadFrom reference path secret no_env file p =
      read_secret-IsReadFrom path secret (confine_secret_path h path) refl
        (sym (resolve_by_file reference path _ _ no_env file) ∙ p)
