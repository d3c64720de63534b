-- ===== src/Subexec/Tree/Lookup.antt =====
-- Looking up a command by its name finds the latest one that was added under that name.
use sardis.Common.{
  Bool, true, false, ◌&&◌, Option, none, some, ◌≡◌, ◌≢◌, refl, sym, ap, ◌∙◌, List, [], ◌∷◌, String,
  string_comparable, ◌==◌, arith, eq_iff, if◌then◌else◌, Bool-cases, inl, inr,
}
use sardis.Subexec.Command.{Command, name_prime}
use sardis.Subexec.Tree.{
  Node, node, Children, leaf, child, command, children, with_child, new_node, child_at, set_child,
  child_or_new, mark, add_path, add, new_command_tree, itersearch, find_command, words,
}

-- Equality of lists of words, as a test.
abbrev same_words : List String → List String → Bool
same_words [] [] = true
same_words (x ∷ xs) (y ∷ ys) = x == y && same_words xs ys
same_words _ _ = false

child_at-set_child :
    (k j : String) (n : Node) (ch : Children)
    → child_at j (set_child k n ch) ≡ (if k == j then some n else child_at j ch)
unfolding child_at set_child
child_at-set_child k j n leaf = refl
child_at-set_child k j n (child i m rest) =
    ground (arith, eq_iff k j, eq_iff i k, eq_iff i j, child_at-set_child k j n rest)

abbrev command_of : Option Node → Option Command
command_of none = none
command_of (some n) = command n

abbrev below : Option Node → List String → Option Node
below none path = none
below (some n) path = itersearch path n

pub itersearch-cons :
    (part : String) (path : List String) (n : Node)
    → itersearch (part ∷ path) n ≡ below (child_at part (children n)) path
unfolding itersearch
itersearch-cons part path n = ground arith

pub children-with_child :
    (k j : String) (m n : Node)
    → child_at j (children (with_child k m n))
      ≡ (if k == j then some m else child_at j (children n))
children-with_child k j m (node w c ch) = child_at-set_child k j m ch

command-with_child : (k : String) (m n : Node) → command (with_child k m n) ≡ command n
command-with_child k m (node w c ch) = refl

command-add_path :
    (q : List String) (cmd : Command) (n : Node) → command (add_path q cmd n) ≡ command n
unfolding add_path
command-add_path [] cmd n = refl
command-add_path (e ∷ q) cmd n = command-with_child e _ n

abbrev at : List String → Node → Option Command
at p n = command_of (itersearch p n)

at-fresh : (w : String) (p : List String) → at p (node w none leaf) ≡ none
unfolding itersearch
at-fresh w [] = refl
at-fresh w (r ∷ p) = refl

pub itersearch-nil : (n : Node) → itersearch [] n ≡ some n
unfolding itersearch
itersearch-nil n = refl

-- What a node that is looked up, or made, holds is what was found before.
at-child_or_new : (e : String) (p : List String) (n : Node) → at p (child_or_new e n) ≡ at (e ∷ p) n
unfolding child_or_new itersearch
at-child_or_new e p n = ground (arith, at-fresh e p)

at-mark :
    (r : String) (p q : List String) (cmd : Command) (n : Node)
    → at (r ∷ p) (mark q cmd n) ≡ at (r ∷ p) n
unfolding mark itersearch
at-mark r p [] cmd (node w c ch) = refl
at-mark r p (e ∷ q) cmd n = refl

command-mark : (cmd : Command) (n : Node) → command (mark [] cmd n) ≡ some cmd
unfolding mark
command-mark cmd (node w c ch) = refl

-- A node's child after the words behind it are added.
module _ (cmd : Command) (e : String) (n : Node) where
  abbrev added : List String → Node
  added q = add_path q cmd (mark q cmd (child_or_new e n))

  at-added :
      (q p : List String)
      → ((r : String) (p' : List String) (m : Node)
          → at (r ∷ p') (add_path q cmd m)
            ≡ (if same_words q (r ∷ p') then some cmd else at (r ∷ p') m))
      → at p (added q) ≡ (if same_words q p then some cmd else at (e ∷ p) n)
  at-added [] [] ih = unfold add_path itersearch in command-mark cmd (child_or_new e n)
  at-added (f ∷ q) [] ih =
      let m : Node = child_or_new e n in
      let kept : mark (f ∷ q) cmd m ≡ m = unfold mark in refl in
      let seen : command m ≡ at [] m = unfold itersearch in refl in
      rw (itersearch-nil, command-add_path, kept, seen) (at-child_or_new e [] n)
  at-added q (r ∷ p) ih =
      ih r p _
      ∙ ap (λ o. if same_words q (r ∷ p) then some cmd else o)
          (at-mark r p q cmd _ ∙ at-child_or_new e (r ∷ p) n)

at-add_path :
    (q : List String) (a : String) (p : List String) (cmd : Command) (n : Node)
    → at (a ∷ p) (add_path q cmd n) ≡ (if same_words q (a ∷ p) then some cmd else at (a ∷ p) n)
at-add_path [] a p cmd n = unfold add_path in refl
at-add_path (e ∷ q) a p cmd n =
    let ih = λ (r : String) (p' : List String) (m : Node). at-add_path q r p' cmd m in
    let here = at-added cmd e n q p ih in
    rw (itersearch-cons, unfolded, children-with_child)
      (elim (Bool-cases (e == a)) [
        | inl same ↦ rw same (
            here
            ∙ ap (λ w. if same_words q p then some cmd else at (w ∷ p) n) ((eq_iff e a).0 same))
        | inr other ↦ rw other (sym (ap command_of (itersearch-cons a p n)))
      ])
  where
    unfolded : add_path (e ∷ q) cmd n ≡ with_child e (added cmd e n q) n
    unfolded = unfold add_path in refl

-- The latest command of the list whose name has these words, or else the given one.
pub latest : List String → Option Command → List Command → Option Command
latest path before [] = before
latest path before (c ∷ cs) =
    latest path (if same_words (words (name_prime c)) path then some c else before) cs

at-add :
    (a : String) (p : List String) (cmds : List Command) (n : Node)
    → at (a ∷ p) (add cmds n) ≡ latest (a ∷ p) (at (a ∷ p) n) cmds
unfolding add latest
at-add a p [] n = refl
at-add a p (c ∷ cs) n =
    at-add a p cs (add_path (words (name_prime c)) c n)
    ∙ ap (λ o. latest (a ∷ p) o cs) (at-add_path (words (name_prime c)) a p c n)

find_command-at : (id : String) (n : Node) → find_command id n ≡ at (words id) n
unfolding find_command
find_command-at id n = ground arith

at-new_command_tree :
    (p : List String) (cmds : List Command)
    → p ≢ []
    → at p (new_command_tree cmds) ≡ latest p none cmds
unfolding new_command_tree
at-new_command_tree [] cmds some_word = absurd (some_word refl)
at-new_command_tree (a ∷ p) cmds _ =
    at-add a p cmds new_node ∙ ap (λ o. latest (a ∷ p) o cmds) (at-fresh "" (a ∷ p))

-- In the tree of a list of commands, a name with at least one word finds the latest command of
-- the list whose name has the same words, and nothing where there is none.
pub find_command-new_command_tree :
    (id : String) (cmds : List Command)
    → words id ≢ []
    → find_command id (new_command_tree cmds) ≡ latest (words id) none cmds
find_command-new_command_tree id cmds some_word =
    find_command-at id _ ∙ at-new_command_tree (words id) cmds some_word
