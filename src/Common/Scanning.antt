-- ===== src/Common/Scanning.antt =====
-- Reading words of a text as `fmt.Sscan` does, and `strings.Trim`.
use Prim.Native.Char.{Char, code}
use Prim.Native.String.{String, [], ◌∷◌}
use Prim.Native.Nat.{ℕ}
use mathlib.Core.Bool.{Bool, false, ◌&&◌, ◌||◌}
use mathlib.Core.Option.{Option, none, some}
use mathlib.Core.List.{List, [], ◌∷◌}
use sardis.Common.Tests.{nat_beq, if◌then◌else◌}
use sardis.Common.Compare.{◌==◌, string_comparable}
use sardis.Common.Lists.{any}
use sardis.Common.Text.{is_space}

-- The characters up to the first space, and the rest from there.
take_word : String → String × String
unfolding is_space
take_word [] = ("", "")
take_word (c ∷ s) =
    let (word, rest) = take_word s in
    let longer : String = c ∷ word in
    let whole : String = c ∷ s in if is_space c then ("", whole) else (longer, rest)

skip_space : String → String
unfolding is_space
skip_space [] = ""
skip_space (c ∷ s) =
    let rest = skip_space s in let whole : String = c ∷ s in if is_space c then rest else whole

-- `fmt.Sscan` with two variables of text; it fails where there are fewer than two words.
unfoldable pub scan_two : String → Option (String × String)
unfolding take_word skip_space
scan_two line =
    let (key, rest) = take_word (skip_space line) in
    let (value, more) = take_word (skip_space rest) in
    if key == "" || value == "" then none else some (key, value)

in_cutset : List ℕ → Char → Bool
in_cutset cutset c = any (nat_beq (code c)) cutset

trim_left_of : List ℕ → String → String
unfolding in_cutset
trim_left_of cutset [] = ""
trim_left_of cutset (c ∷ s) =
    let rest = trim_left_of cutset s in
    let whole : String = c ∷ s in if in_cutset cutset c then rest else whole

trim_right_of : List ℕ → String → String
unfolding in_cutset
trim_right_of cutset [] = ""
trim_right_of cutset (c ∷ s) =
    let rest = trim_right_of cutset s in
    let kept : String = c ∷ rest in if rest == "" && in_cutset cutset c then "" else kept

-- `strings.Trim(s, cutset)`, the characters of the set by their codes.
unfoldable pub trim_of : List ℕ → String → String
unfolding trim_left_of trim_right_of
trim_of cutset s = trim_right_of cutset (trim_left_of cutset s)

-- `strings.ContainsAny(s, chars)`
unfoldable pub contains_any : List ℕ → String → Bool
unfolding in_cutset
contains_any chars [] = false
contains_any chars (c ∷ s) = in_cutset chars c || contains_any chars s
