-- ===== src/Router/Ids.antt =====
-- x/router/rand.go: message identifiers, printed and parsed. The host's part and the random
-- characters are arguments.
pub mod RoundTrip
pub mod Length
use Prim.Native.Char.{Char, code}
use Prim.Native.String.{[], ◌∷◌, ◌++◌ as append}
use sardis.Common.{
  ℕ, zero, suc, ◌+◌, ◌-◌, ◌*◌, ◌/◌, ◌%◌, ◌^◌, Bool, true, false, not, ◌&&◌, ◌||◌, Option, none,
  some, List, [], ◌∷◌, String, string_comparable, ◌==◌, ltb, leb, nat_beq, if◌then◌else◌,
}
use sardis.Common.Int.{ℤ, pos, negsuc}
use sardis.Common.Text.{split, rune_count}

abbrev digit : ℕ → Char
digit n =
    if nat_beq n 0
    then "0"
    else if nat_beq n 1
    then "1"
    else if nat_beq n 2
    then "2"
    else if nat_beq n 3
    then "3"
    else if nat_beq n 4
    then "4"
    else if nat_beq n 5
    then "5"
    else if nat_beq n 6
    then "6"
    else if nat_beq n 7
    then "7"
    else if nat_beq n 8
    then "8"
    else "9"

-- The decimal digits of a number below 10 ^ fuel, before those already there.
unfoldable pub digits : (fuel n : ℕ) → String → String
digits zero n out = out
digits (suc fuel) n out =
    let front : String = digit (n % 10) ∷ out in
    if ltb n 10 then front else digits fuel (n / 10) front

-- `fmt.Fprint` of an int64: at most 19 digits, and a sign.
unfoldable pub print_int64 : ℤ → String
print_int64 (pos n) = digits 19 n ""
print_int64 (negsuc n) = let rest = digits 19 (suc n) "" in "-" ∷ rest

-- `strconv.ParseInt(s, 10, 64)` after the sign: `none` is an error, also where the number is larger
-- than the limit.
scan : (limit : ℕ) → String → ℕ → Option ℕ
scan limit [] n = some n
scan limit (c ∷ s) n =
    let d = code c - b'0' in
    let rest = scan limit s (n * 10 + d) in
    if ltb (code c) b'0' || ltb b'9' (code c)
    then none
    else if ltb limit (n * 10 + d)
    then none
    else rest

parse_digits : (limit : ℕ) → String → Option ℕ
unfolding scan
parse_digits limit [] = none
parse_digits limit (c ∷ s) = scan limit (c ∷ s) 0

abbrev negated : ℕ → ℤ
negated zero = pos 0
negated (suc n) = negsuc n

parse_int : String → Option ℤ
unfolding parse_digits
parse_int [] = none
parse_int (c ∷ s) =
    if nat_beq (code c) b'-'
    then (elim (parse_digits (2 ^ 63) s) [ none ↦ none | some n ↦ some (negated n) ])
    else if nat_beq (code c) b'+'
    then (elim (parse_digits (2 ^ 63 - 1) s) [ none ↦ none | some n ↦ some (pos n) ])
    else (elim (parse_digits (2 ^ 63 - 1) (c ∷ s)) [ none ↦ none | some n ↦ some (pos n) ])

-- The loop of `MakeID` over what was built, whose length is given: round `i` draws `random i`.
unfoldable pub suffix : (random : ℕ → Char) (rounds i len : ℕ) → String
suffix random zero i len = ""
suffix random (suc rounds) i len =
    let rest = suffix random rounds (i + 1) (len + 1) in if ltb len 32 then random i ∷ rest else ""

-- What `MakeID` writes before the random characters.
unfoldable pub id_prefix : (host : String) (ts count : ℤ) → String
unfolding print_int64
id_prefix host ts count =
    append (print_int64 ts) (append "-" (append host (append "-" (append (print_int64 count) "-"))))

-- `MakeID`, for the seconds of the time stamp.
unfoldable pub make_id : (random : ℕ → Char) (host : String) (ts count : ℤ) → String
unfolding id_prefix suffix
make_id random host ts count =
    let built = id_prefix host ts count in append built (suffix random 16 0 (rune_count built))

pub record Parsed : Type 0 where
  pub ts : ℤ
  pub host : String
  pub count : ℤ
  pub random : String

abbrev from_parts : List String → Option Parsed
from_parts (a ∷ b ∷ c ∷ d ∷ []) = elim (parse_int a) [
  | none ↦ none
  | some ts ↦ elim (parse_int c) [
    | none ↦ none
    | some count ↦ some (record { ts = ts; host = b; count = count; random = d })
  ]
]
from_parts _ = none

-- `MessageID.Parse`; `none` is an error.
pub parse : String → Option Parsed
unfolding parse_int split
parse id = from_parts (split b'-' id)
