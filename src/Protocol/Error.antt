-- ===== src/Protocol/Error.antt =====
-- crates/vs-protocol/src/error.rs: the error of every parser of the crate, and `Result`.
use vibesurfer.Prelude.{ℕ, String, ◌≡◌, refl, Option, none, some, Bool, if◌then◌else◌}
use vibesurfer.Text.{Text}

-- `UnknownCode` of codes.rs.
pub record UnknownCode : Type 0 where
  pub kind : String
  pub value : Text

pub data ParseError : Type 0 where
  empty_input : ParseError
  indent_jump : ℕ → ℕ → ℕ → ParseError
  malformed_line : ℕ → String → ParseError
  invalid_ref : Text → ParseError
  invalid_position : Text → ParseError
  missing_field : String → ParseError
  unknown_code : UnknownCode → ParseError
  invalid_envelope : String → ParseError
  invalid_token : Text → ParseError
  invalid_attribute : Text → ParseError
  invalid_request : String → ParseError
  unterminated_quote : Text → ParseError
  apply_missing_ref : ℕ → ParseError
  apply_duplicate_ref : ℕ → ParseError
  apply_missing_parent : ℕ → ParseError

pub data Result {ℓ} (A : Type ℓ) : Type ℓ where
  ok : A → Result A
  err : ParseError → Result A

module _ {ℓ κ} {A : Type ℓ} {B : Type κ} where
  infixl 5 ◌>>=◌
  -- The `?` operator, and the code that runs on the value.
  abbrev pub ◌>>=◌ : Result A → (A → Result B) → Result B
  ok value >>= next = next value
  err why >>= next = err why

  pub >>=-eq-ok :
      (r : Result A) (next : A → Result B) {result : B}
      → (r >>= next) ≡ ok result
      → (value : A) × (r ≡ ok value) × (next value ≡ ok result)
  >>=-eq-ok (ok value) next run = (value, refl, run)
  >>=-eq-ok (err why) next run = cc

module _ {ℓ} {A : Type ℓ} where
  -- `ok_or`.
  abbrev pub ok_or : Option A → ParseError → Result A
  ok_or none why = err why
  ok_or (some value) why = ok value

-- `return Err(why)` unless the condition holds.
abbrev pub guard : Bool → ParseError → Result (Unit {0})
guard condition why = ok_or (if condition then some tt else none) why

infixl 5 ◌>>◌
abbrev pub ◌>>◌ {ℓ} : {A : Type ℓ} → Result (Unit {0}) → Result A → Result A
before >> after = elim before [ ok _ ↦ after | err why ↦ err why ]
