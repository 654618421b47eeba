-- ===== src/Daemon/Redact/Secrets.antt =====
-- What the redacted text of the arguments can tell of a secret.
use vibesurfer.Prelude.{
  List, [], ◌∷◌, ◌++◌, none, some, ◌≡◌, refl, sym, ap, ◌∙◌, map, if◌then◌else◌, Bool-cases, inl,
  inr,
}
use vibesurfer.Text.{Text}
use vibesurfer.Daemon.Redact.{Flag, is_sensitive, redact_flag, redact_args, join}

module _ (to_lowercase : Text → Text) where
  -- The value under a sensitive name is dropped.
  abbrev pub blank : Flag → Flag
  blank (name, none) = (name, none)
  blank (name, some v) = if is_sensitive to_lowercase name then (name, some []) else (name, some v)

  blank-redact : (f : Flag) → redact_flag to_lowercase f ≡ redact_flag to_lowercase (blank f)
  unfolding redact_flag
  blank-redact (name, none) = refl
  blank-redact (name, some v) = elim (Bool-cases (is_sensitive to_lowercase name)) [
    | inl e ↦ rw (e, e)
    | inr e ↦ rw (e, e)
  ]

  redact-blank :
      (flags : List Flag)
      → map (redact_flag to_lowercase) flags ≡ map (redact_flag to_lowercase) (map blank flags)
  redact-blank [] = refl
  redact-blank (f ∷ fs) = rw (sym (blank-redact f), sym (redact-blank fs))

  -- If two lists of flags are equal once the values under sensitive names are blanked, `redact_args`
  -- gives the same text for both: that text does not depend on those values.
  pub redact_args-secret :
      (args : List Text) (flags others : List Flag)
      → map blank flags ≡ map blank others
      → redact_args to_lowercase args flags ≡ redact_args to_lowercase args others
  unfolding redact_args
  redact_args-secret args flags others h =
      ap (λ parts. join (args ++ parts))
        (redact-blank flags ∙ (ap (map (redact_flag to_lowercase)) h ∙ sym (redact-blank others)))
