-- ===== src/Common/Text.antt =====
-- The functions of Go's `strings` package that the program calls, over the characters of a text.
use Prim.Native.Char.{Char, code}
use Prim.Native.String.{String, [], ◌∷◌, ◌++◌ as append}
use Prim.Native.Nat.{ℕ, zero, suc, ◌-◌}
use mathlib.Core.Path.{◌≡◌, refl, ap}
use mathlib.Core.Logic.{◌≢◌}
use mathlib.Core.Bool.{Bool, true, false, ◌&&◌, ◌||◌}
use mathlib.Core.List.{List, [], ◌∷◌}
use native.Mathlib.Omega.{arith}
use text.Mathlib.Text.{◌==◌ as str_eq}
use text.Mathlib.TextEquality.{eq_iff}
use text.Mathlib.TextLemmas.{nil-append, cons-append}
use sardis.Common.Tests.{ltb, leb, nat_beq, if◌then◌else◌}
use sardis.Common.Lists.{All}

abbrev push_front : Char → List String → List String
push_front c [] = (c ∷ []) ∷ []
push_front c (x ∷ xs) = (c ∷ x) ∷ xs

-- `strings.Split(s, sep)` for a separator of one character: n separators give n + 1 parts.
unfoldable pub split : ℕ → String → List String
split sep [] = "" ∷ []
split sep (c ∷ s) = if nat_beq (code c) sep then "" ∷ split sep s else push_front c (split sep s)

-- `strings.Join(parts, sep)`
unfoldable pub join : String → List String → String
join sep [] = ""
join sep (x ∷ []) = x
join sep (x ∷ y ∷ xs) = append x (append sep (join sep (y ∷ xs)))

abbrev pub Lacks : ℕ → String → Type 0
Lacks sep [] = Unit
Lacks sep (c ∷ s) = (code c ≢ sep) × Lacks sep s

pub split-append :
    (sep : ℕ) (x s : String) (c : Char)
    → code c ≡ sep
    → Lacks sep x
    → split sep (append x (c ∷ s)) ≡ x ∷ split sep s
unfolding split
split-append sep [] s c e _ = rw nil-append (ground arith)
split-append sep (d ∷ x) s c e (h, hx) =
    rw cons-append (ground (arith, split-append sep x s c e hx))

pub split-eq-singleton : (sep : ℕ) (x : String) → Lacks sep x → split sep x ≡ x ∷ []
unfolding split
split-eq-singleton sep [] _ = refl
split-eq-singleton sep (c ∷ x) (h, hx) = ground (arith, split-eq-singleton sep x hx)

-- Splitting undoes joining, where there is a part and no part holds the separator.
pub split-join :
    (c : Char) (x : String) (xs : List String)
    → All (Lacks (code c)) (x ∷ xs)
    → split (code c) (join (c ∷ []) (x ∷ xs)) ≡ x ∷ xs
unfolding join
split-join c x [] (h, _) = split-eq-singleton (code c) x h
split-join c x (y ∷ xs) (h, hs) =
    rw (cons-append, nil-append)
      (rw (split-append (code c) x (join (c ∷ []) (y ∷ xs)) c refl h)
        (ap (◌∷◌ x) (split-join c y xs hs)))

-- `unicode.IsSpace`
unfoldable pub is_space : Char → Bool
is_space c =
    (leb 9 (code c) && leb (code c) 13)
    || nat_beq (code c) 0x20
    || nat_beq (code c) 0x85
    || nat_beq (code c) 0xa0
    || nat_beq (code c) 0x1680
    || (leb 0x2000 (code c) && leb (code c) 0x200a)
    || nat_beq (code c) 0x2028
    || nat_beq (code c) 0x2029
    || nat_beq (code c) 0x202f
    || nat_beq (code c) 0x205f
    || nat_beq (code c) 0x3000

-- `strings.TrimSpace(s) == ""`
unfoldable pub is_blank : String → Bool
unfolding is_space
is_blank [] = true
is_blank (c ∷ s) = is_space c && is_blank s

-- `strings.HasPrefix(s, prefix)`
unfoldable pub has_prefix : String → String → Bool
has_prefix s [] = true
has_prefix [] (p ∷ ps) = false
has_prefix (c ∷ s) (p ∷ ps) = nat_beq (code c) (code p) && has_prefix s ps

-- `strings.Contains(s, part)`
unfoldable pub contains : String → String → Bool
unfolding has_prefix
contains [] part = has_prefix [] part
contains (c ∷ s) part = has_prefix (c ∷ s) part || contains s part

abbrev pub rune_count : String → ℕ
rune_count [] = 0
rune_count (c ∷ s) = suc (rune_count s)

-- The scan of `strings.ReplaceAll`; the first argument counts the characters of a match
-- that are still to be skipped.
replace_from : ℕ → String → String → String → String
unfolding has_prefix
replace_from n [] old new = []
replace_from (suc n) (c ∷ s) old new = replace_from n s old new
replace_from zero (c ∷ s) old new =
    let whole : String = c ∷ s in
    let replaced = append new (replace_from (rune_count old - 1) s old new) in
    let kept : String = c ∷ replace_from zero s old new in
    if has_prefix whole old then replaced else kept

-- `strings.ReplaceAll(s, old, new)` for a non-empty `old`, the only use of it in the program.
unfoldable pub replace_all : String → String → String → String
unfolding replace_from
replace_all s old new = replace_from 0 s old new

abbrev drop_runes : ℕ → String → String
drop_runes zero s = s
drop_runes (suc n) [] = []
drop_runes (suc n) (c ∷ s) = drop_runes n s

-- `strings.Replace(s, old, new, 1)`
unfoldable pub replace_first : String → String → String → String
unfolding has_prefix
replace_first [] old new = if has_prefix "" old then new else ""
replace_first (c ∷ s) old new =
    let whole : String = c ∷ s in
    let replaced = append new (drop_runes (rune_count old) whole) in
    let kept : String = c ∷ replace_first s old new in
    if has_prefix whole old then replaced else kept

-- Go's `s < t` on texts. The byte order of UTF-8 is the order of code points.
unfoldable pub str_ltb : String → String → Bool
str_ltb [] [] = false
str_ltb [] (d ∷ t) = true
str_ltb (c ∷ s) [] = false
str_ltb (c ∷ s) (d ∷ t) =
    let later = str_ltb s t in
    if ltb (code c) (code d) then true else if ltb (code d) (code c) then false else later

str_ltb-nil : (s : String) → str_ltb s "" ≡ false
unfolding str_ltb
str_ltb-nil [] = refl
str_ltb-nil (c ∷ s) = refl

replace_from-absent : (s old new : String) → contains s old ≡ false → replace_from 0 s old new ≡ s
unfolding replace_from contains
replace_from-absent [] old new h = refl
replace_from-absent (c ∷ s) old new h = ground (arith, replace_from-absent s old new)

-- Replacing a text that does not occur changes nothing.
pub replace_all-absent : (s old new : String) → contains s old ≡ false → replace_all s old new ≡ s
unfolding replace_all
replace_all-absent s old new h = replace_from-absent s old new h

pub replace_all-nil : (old new : String) → replace_all "" old new ≡ ""
unfolding replace_all
replace_all-nil old new = refl

-- A text that is chosen among non-empty ones is not empty.
pub nonempty_if :
    (test : Bool) (x y : String)
    → (test ≡ true → x ≢ "")
    → (test ≡ false → y ≢ "")
    → (if test then x else y) ≢ ""
nonempty_if true x y hx hy = hx refl
nonempty_if false x y hx hy = hy refl

pub nonempty_cons : (c : Char) (s : String) → let whole : String = c ∷ s in whole ≢ ""
nonempty_cons c s h = cc

pub nonempty_append : (c : Char) (s t : String) → let whole : String = c ∷ s in append whole t ≢ ""
nonempty_append c s t = rw cons-append (nonempty_cons c (append s t))

pub nonempty_or : (s default : String) → default ≢ "" → (if str_eq s "" then default else s) ≢ ""
nonempty_or s default h =
    nonempty_if (str_eq s "") default s (λ _. h) (λ e. ground (arith, eq_iff s ""))
