-- ===== src/Subexec/Command.antt =====
-- subexec/commands.go and the logging modes of subexec/util.go. A `Worker` is a Go function, of
-- which the model keeps only a number to tell it by; running commands is not modelled.
use sardis.Common.{
  ℕ, Bool, true, ◌||◌, Option, List, [], ◌∷◌, String, string_comparable, ◌==◌, if◌then◌else◌,
}
use sardis.Common.Int.{ℤ}
use sardis.Util.Dots.{default, dot_join}

abbrev pub Environment : Type 0
Environment = List (String × String)

-- `*Environment = none` and `worker_definition = none` are the nil map and the nil function.
pub record Command : Type 0 where
  pub name : String
  pub group_name : String
  pub group_category : String
  pub directory : String
  pub environment : Option Environment
  pub command : String
  pub arg : String
  pub commands : List String
  pub override_default : Bool
  pub notify : Option Bool
  pub background : Option Bool
  pub sort_hint : ℤ
  pub logs : String
  pub worker_definition : Option ℕ
  pub unaliased_name : String

unfoldable pub name_prime : Command → String
unfolding default
name_prime conf = default conf.unaliased_name conf.name

unfoldable pub fqn : Command → String
unfolding name_prime dot_join
fqn conf = dot_join (conf.group_category ∷ conf.group_name ∷ name_prime conf ∷ [])

-- `Logging`: the mode that holds where none is given, the modes that are valid, and the tests.
abbrev pub logging_errors_only : String
logging_errors_only = "errors-only"

abbrev logging_suppress : String
logging_suppress = "none"

abbrev logging_full : String
logging_full = "full"

unfoldable pub logging_validate : String → Bool
logging_validate ll =
    if ll == ""
    then true
    else ll == logging_errors_only || ll == logging_suppress || ll == logging_full

unfoldable pub full : String → Bool
full ll = ll == logging_full
