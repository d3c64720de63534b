-- ===== src/Common/FilePath.antt =====
-- Go's `path/filepath` on slash-separated paths, as far as the program calls it, and
-- `strings.TrimSpace`.
use Prim.Native.Char.{code}
use Prim.Native.String.{String, [], ◌∷◌, ◌++◌ as append}
use Prim.Native.Nat.{ℕ}
use mathlib.Core.Logic.{◌≢◌}
use mathlib.Core.Bool.{Bool, false, not, ◌&&◌, ◌||◌}
use mathlib.Core.List.{List, [], ◌∷◌, reverse}
use text.Mathlib.TextLemmas.{cons-append}
use sardis.Common.Tests.{nat_beq, if◌then◌else◌}
use sardis.Common.Compare.{◌==◌, string_comparable}
use sardis.Common.Text.{split, join, is_space, nonempty_if, nonempty_cons, nonempty_or}

trim_left : String → String
unfolding is_space
trim_left [] = ""
trim_left (c ∷ s) = let whole : String = c ∷ s in if is_space c then trim_left s else whole

trim_right : String → String
unfolding is_space
trim_right [] = ""
trim_right (c ∷ s) =
    let rest = trim_right s in
    let kept : String = c ∷ rest in if rest == "" && is_space c then "" else kept

-- `strings.TrimSpace`
unfoldable pub trim_space : String → String
unfolding trim_left trim_right
trim_space s = trim_right (trim_left s)

abbrev starts_with_code : ℕ → String → Bool
starts_with_code n [] = false
starts_with_code n (c ∷ s) = nat_beq (code c) n

-- One element of a path, on the elements before it, the last of them first.
clean_step : (rooted : Bool) → List String → String → List String
clean_step rooted done elem =
    if elem == "" || elem == "."
    then done
    else if elem == ".."
    then (elim done [
      | [] ↦ if rooted then [] else ".." ∷ []
      | top ∷ rest ↦ if top == ".." then ".." ∷ top ∷ rest else rest
    ])
    else elem ∷ done

clean_elems : (rooted : Bool) → List String → List String → List String
unfolding clean_step
clean_elems rooted done [] = done
clean_elems rooted done (elem ∷ elems) = clean_elems rooted (clean_step rooted done elem) elems

-- `filepath.Clean`
pub clean : String → String
unfolding split clean_elems join
clean path =
    let rooted = starts_with_code b'/' path in
    let body = join "/" (reverse (clean_elems rooted [] (split b'/' path))) in
    if path == "" then "." else if rooted then append "/" body else if body == "" then "." else body

-- `filepath.Join` of two elements.
unfoldable pub join_path : String → String → String
unfolding clean
join_path a b =
    if not (a == "") then clean (append a (append "/" b)) else if not (b == "") then clean b else ""

has_slash : String → Bool
has_slash [] = false
has_slash (c ∷ s) = nat_beq (code c) b'/' || has_slash s

-- The path up to its last slash, the slash included.
up_to_slash : String → String
unfolding has_slash
up_to_slash [] = ""
up_to_slash (c ∷ s) =
    let whole : String = c ∷ s in
    let kept : String = c ∷ up_to_slash s in if has_slash whole then kept else ""

-- `filepath.Dir`
unfoldable pub dir : String → String
unfolding up_to_slash clean
dir path = clean (up_to_slash path)

strip_slashes : String → String
strip_slashes [] = ""
strip_slashes (c ∷ s) =
    let rest = strip_slashes s in
    let kept : String = c ∷ rest in if rest == "" && nat_beq (code c) b'/' then "" else kept

after_slash : (found : String) → String → String
after_slash found [] = found
after_slash found (c ∷ s) = after_slash (if nat_beq (code c) b'/' then s else found) s

-- `filepath.Base`
unfoldable pub base : String → String
unfolding strip_slashes after_slash
base path =
    let stripped = strip_slashes path in
    let last = after_slash stripped stripped in
    if path == "" then "." else if last == "" then "/" else last

-- No path is empty once it is clean.
clean_nonempty : (path : String) → clean path ≢ ""
unfolding clean
clean_nonempty path =
    let rooted = starts_with_code b'/' path in
    let body = join "/" (reverse (clean_elems rooted [] (split b'/' path))) in
    nonempty_if (path == "") _ _ (λ _. nonempty_cons _ _)
      (λ _.
        nonempty_if rooted (append "/" body) _ (λ _. rw cons-append (nonempty_cons _ _))
          (λ _. nonempty_or body "." (nonempty_cons _ _)))

pub dir_nonempty : (path : String) → dir path ≢ ""
unfolding dir
dir_nonempty path = clean_nonempty (up_to_slash path)

pub base_nonempty : (path : String) → base path ≢ ""
unfolding base
base_nonempty path =
    let stripped = strip_slashes path in
    nonempty_if (path == "") _ _ (λ _. nonempty_cons _ _)
      (λ _. nonempty_or (after_slash stripped stripped) "/" (nonempty_cons _ _))
