-- ===== src/Postal/Meta.antt =====
-- x/postal/meta.go: schemas, lock records and the status machine of a lock.
pub mod Transitions
pub mod Updates
use sardis.Common.{
  ℕ, ◌+◌, ◌-◌, ◌*◌, ◌%◌, ◌^◌, Bool, true, false, not, ◌&&◌, ◌||◌, Option, none, some, List, [], ◌∷◌,
  String, string_comparable, ◌==◌, ltb, leb, nat_beq, if◌then◌else◌,
}
use sardis.Common.Int.{ℤ, pos, ltb_ℤ}
use sardis.Common.Text.{str_ltb}
use sardis.Extern.Erc.{Erc, when}

pub record Schema : Type 0 where
  pub version : ℤ
  pub type : String
  pub format : String

-- The errors of the file, and what a collector joins.
pub data Error : Type 0 where
  negative_version missing_type undefined_status complete_final fatal_final expired_final : Error
  back_to_created clock_overflow too_soon : Error
  invalid_status : String → Error
  joined : Error → Error → Error

-- `Schema.Validate`
unfoldable pub schema_validate : Erc Error → Schema → Option Error
unfolding str_ltb
schema_validate erc s =
    erc.resolve
      (when (ltb_ℤ s.version (pos 0)) negative_version ∷ when (str_ltb s.type "") missing_type ∷ [])

abbrev pub created : String
created = "created"

abbrev pub in_progress : String
in_progress = "in-progress"

abbrev available : String
available = "available"

abbrev pub completed : String
completed = "completed"

abbrev pub expired : String
expired = "expired"

abbrev error_retryable : String
error_retryable = "error-retryable"

abbrev error_fatal : String
error_fatal = "error-fatal"

-- `LockStatus.Validate`; `none` is the nil error.
unfoldable pub validate : String → Option Error
validate l =
    if l == ""
    then some undefined_status
    else if l == created || l == in_progress || l == available
    then none
    else if l == completed || l == expired
    then none
    else if l == error_fatal || l == error_retryable
    then none
    else some (invalid_status l)

is_some : Option Error → Bool
is_some none = false
is_some (some e) = true

-- The switch of `ValidateStateTransion`, after `err := to.Validate()`.
transition_switch : Option Error → String → String → Option Error
unfolding is_some
transition_switch err l to =
    if l == ""
    then none
    else if l == "" && to == ""
    then none
    else if is_some err
    then err
    else if l == to
    then none
    else if l == completed
    then some complete_final
    else if l == error_fatal
    then some fatal_final
    else if l == expired
    then some expired_final
    else if l == in_progress && to == created
    then some back_to_created
    else none

-- `LockStatus.ValidateStateTransion`
unfoldable pub validate_transition : String → String → Option Error
unfolding transition_switch
validate_transition l to = transition_switch (validate to) l to

-- `LockStatus.String`, with the text of `Validate`'s error as a parameter.
unfoldable pub status_string : (Error → String) → String → String
unfolding validate
status_string show l = if l == "" then created else elim (validate l) [ none ↦ l | some e ↦ show e ]

-- Nanoseconds since Go's zero time, so that `IsZero` is a test for 0.
abbrev Time : Type 0
Time = ℕ

abbrev millisecond : ℕ
millisecond = 1_000_000

abbrev u64_mod : ℕ
u64_mod = 2 ^ 64

pub record LockInfo : Type 0 where
  pub status : String
  pub logical_clock : ℕ
  pub last_modified : Time
  pub owner : String

-- A method returns or panics with an error.
pub data Outcome (A : Type 0) : Type 0 where
  returns : A → Outcome A
  panics : Error → Outcome A

infixl 5 ◌>>=◌ ◌>>◌
abbrev ◌>>=◌ : {A B : Type 0} → Outcome A → (A → Outcome B) → Outcome B
returns a >>= f = f a
panics e >>= f = panics e

abbrev ◌>>◌ : {B : Type 0} → Outcome (Unit {0}) → Outcome B → Outcome B
m >> k = m >>= λ _. k

-- `erc.InvariantOk`, which the program calls to panic on a false test, and `erc.Invariant`.
abbrev invariant_ok : Bool → Error → Outcome (Unit {0})
invariant_ok true e = returns tt
invariant_ok false e = panics e

abbrev invariant : Option Error → Outcome (Unit {0})
invariant none = returns tt
invariant (some e) = panics e

-- `LockInfo.Update`, called at the time `checked` and stamping the time `now`.
unfoldable pub update : (checked now : Time) → String → LockInfo → Outcome LockInfo
update checked now status l = do
  invariant_ok (not (nat_beq ((l.logical_clock + 1) % u64_mod) 0)) clock_overflow
  invariant_ok (nat_beq l.last_modified 0 || leb (l.last_modified + millisecond) checked) too_soon
  invariant (validate_transition status status)
  returns (record l {
    logical_clock = (l.logical_clock + 1) % u64_mod;
    last_modified = now - now % millisecond;
    status = status;
  })
