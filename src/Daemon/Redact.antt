-- ===== src/Daemon/Redact.antt =====
-- crates/vs-daemon/src/redact.rs, and `args_hash` of tokens.rs, whose hash is a parameter. An index
-- into a text is a rest of the text: the loop stops at scalar values only.
pub mod Secrets
use vibesurfer.Prelude.{
  ℕ, zero, suc, ◌+◌, Bool, ◌&&◌, ◌||◌, List, [], ◌∷◌, ◌++◌, Option, none, some, ◌==◌, any, map,
  length, if◌then◌else◌, ltb, leb, take, drop, ◌-◌, ◌*◌, ◌/◌, ◌%◌, ◌^◌, ◌<◌, ◌≤◌, true, false, not,
  ◌≡◌, refl, sym, ap, ◌∙◌, ◌≢◌, ◌↔◌, arith, all, All, filterb, Bool-cases, Option-cases, inl, inr,
  append_assoc, append-nil, or_else, max, min, length-append,
}
use vibesurfer.Text.{Text, codes, starts_with, text_eq, text_lt, split_once}
use vibesurfer.Table.{get, put, remove, write}

abbrev pub Flag : Type 0
Flag = Text × Option Text

abbrev pub sensitive : List Text
sensitive = codes "password" ∷ codes "token" ∷ codes "secret" ∷ codes "key" ∷ codes "auth" ∷ []

-- `str::contains` of a text.
unfoldable pub contains_text : Text → Text → Bool
contains_text needle [] = starts_with needle []
contains_text needle (c ∷ cs) = starts_with needle (c ∷ cs) || contains_text needle cs

unfoldable pub ascii_lower : ℕ → ℕ
ascii_lower c = if leb b'A' c && leb c b'Z' then c + 32 else c

-- `to_ascii_lowercase`.
abbrev pub lowercase : Text → Text
lowercase s = map ascii_lower s

-- `join(" ")`.
unfoldable pub join : List Text → Text
join [] = []
join (part ∷ []) = part
join (part ∷ next ∷ parts) = part ++ (b' ' ∷ join (next ∷ parts))

-- `to_lowercase` of Unicode is a parameter.
module _ (to_lowercase : Text → Text) where
  unfoldable pub is_sensitive : Text → Bool
  is_sensitive name = any (λ n. contains_text n (to_lowercase name)) sensitive

  unfoldable pub redact_flag : Flag → Text
  redact_flag (name, none) = codes "--" ++ name
  redact_flag (name, some v) =
      if is_sensitive name
      then codes "--" ++ name ++ codes "=***"
      else codes "--" ++ name ++ codes "=" ++ v

  unfoldable pub redact_args : List Text → List Flag → Text
  redact_args args flags = join (args ++ map redact_flag flags)

abbrev pub keywords : List Text
keywords =
    codes "bearer "
    ∷ codes "authorization:"
    ∷ codes "x-api-key:"
    ∷ codes "secret"
    ∷ codes "password"
    ∷ codes "token"
    ∷ []

-- The length of the first keyword that the text starts with, in lower case.
unfoldable pub keyword_at : List Text → Text → Option ℕ
keyword_at [] s = none
keyword_at (k ∷ ks) s =
    let later = keyword_at ks s in if starts_with k (lowercase s) then some (length k) else later

unfoldable pub is_delimiter : ℕ → Bool
is_delimiter c = c == b'"' || c == b'\'' || c == b';' || c == b'\n' || c == b'}' || c == b')'

unfoldable pub to_delimiter : Text → Text
to_delimiter [] = []
to_delimiter (c ∷ cs) = let later = to_delimiter cs in if is_delimiter c then c ∷ cs else later

abbrev pub masked : Text → Text → Text
masked after rest = if ltb (length rest) (length after) then codes "***" else []

-- `fuel` is at least the length of the text: each round takes a character or a keyword.
unfoldable pub redact_within : ℕ → Text → Text
redact_within zero s = []
redact_within (suc fuel) [] = []
redact_within (suc fuel) (c ∷ cs) = elim (keyword_at keywords (c ∷ cs)) [
  | none ↦ c ∷ redact_within fuel cs
  | some n ↦
      let after = drop n (c ∷ cs) in
      let rest = to_delimiter after in
      take n (c ∷ cs) ++ masked after rest ++ redact_within fuel rest
]

unfoldable pub redact_string : Text → Text
redact_string s = redact_within (length s) s

unfoldable pub hashed_args : List Text → Text
hashed_args [] = []
hashed_args (arg ∷ args) = arg ++ (0 ∷ hashed_args args)

module _ (digest : Text → Text) where
  unfoldable pub args_hash : Text → List Text → Text
  args_hash primitive args = digest (primitive ++ (0 ∷ hashed_args args))
