-- ===== src/Subexec/Tree/Present.antt =====
-- Which names lead to a node of a command tree (subexec/index.go, `Find`).
use sardis.Common.{
  Bool, true, false, ◌&&◌, ◌||◌, Option, none, some, ◌≡◌, ◌≢◌, refl, sym, ap, ◌∙◌, List, [], ◌∷◌,
  String, string_comparable, ◌==◌, arith, eq_iff, Bool-cases, inl, inr, any,
}
use sardis.Subexec.Command.{Command, name_prime}
use sardis.Subexec.Tree.{
  Node, node, leaf, with_child, new_node, child_or_new, mark, add_path, add, new_command_tree,
  itersearch, find, words,
}
use sardis.Subexec.Tree.Lookup.{itersearch-cons, itersearch-nil, children-with_child}

-- The first list begins the second.
abbrev is_prefix : List String → List String → Bool
is_prefix [] q = true
is_prefix (x ∷ p) [] = false
is_prefix (x ∷ p) (y ∷ q) = y == x && is_prefix p q

abbrev pub found : Option Node → Bool
found none = false
found (some n) = true

abbrev present : List String → Node → Bool
present p n = found (itersearch p n)

present-fresh : (w a : String) (p : List String) → present (a ∷ p) (node w none leaf) ≡ false
unfolding itersearch
present-fresh w a p = refl

present-child_or_new :
    (e r : String) (p : List String) (n : Node)
    → present (r ∷ p) (child_or_new e n) ≡ present (e ∷ r ∷ p) n
unfolding child_or_new
present-child_or_new e r p n = ground (arith, itersearch-cons e (r ∷ p) n, present-fresh e r p)

present-mark :
    (r : String) (p q : List String) (cmd : Command) (n : Node)
    → present (r ∷ p) (mark q cmd n) ≡ present (r ∷ p) n
unfolding mark itersearch
present-mark r p [] cmd (node w c ch) = refl
present-mark r p (e ∷ q) cmd n = refl

module _ (cmd : Command) (e : String) (n : Node) where
  abbrev added : List String → Node
  added q = add_path q cmd (mark q cmd (child_or_new e n))

  present-added :
      (q p : List String)
      → ((r : String) (p' : List String) (m : Node)
          → present (r ∷ p') (add_path q cmd m) ≡ (is_prefix (r ∷ p') q || present (r ∷ p') m))
      → present p (added q) ≡ (is_prefix p q || present (e ∷ p) n)
  present-added q [] ih = rw itersearch-nil
  present-added q (r ∷ p) ih =
      ih r p _
      ∙ ap (λ o. is_prefix (r ∷ p) q || o) (present-mark r p q cmd _ ∙ present-child_or_new e r p n)

present-add_path :
    (q : List String) (a : String) (p : List String) (cmd : Command) (n : Node)
    → present (a ∷ p) (add_path q cmd n) ≡ (is_prefix (a ∷ p) q || present (a ∷ p) n)
present-add_path [] a p cmd n = unfold add_path in refl
present-add_path (e ∷ q) a p cmd n =
    let ih = λ (r : String) (p' : List String) (m : Node). present-add_path q r p' cmd m in
    let here = present-added cmd e n q p ih in
    rw (itersearch-cons a p (add_path (e ∷ q) cmd n), unfolded, children-with_child)
      (elim (Bool-cases (e == a)) [
        | inl same ↦
            rw same (here ∙ ap (λ w. is_prefix p q || present (w ∷ p) n) ((eq_iff e a).0 same))
        | inr other ↦ rw other (sym (ap found (itersearch-cons a p n)))
      ])
  where
    unfolded : add_path (e ∷ q) cmd n ≡ with_child e (added cmd e n q) n
    unfolded = unfold add_path in refl

abbrev leads : List String → Command → Bool
leads p c = is_prefix p (words (name_prime c))

present-add :
    (a : String) (p : List String) (cmds : List Command) (n : Node)
    → present (a ∷ p) (add cmds n) ≡ (any (leads (a ∷ p)) cmds || present (a ∷ p) n)
unfolding add
present-add a p [] n = refl
present-add a p (c ∷ cs) n =
    let q = words (name_prime c) in
    ground (arith, present-add a p cs (add_path q c n), present-add_path q a p c n)

-- A name with at least one word leads to a node of the tree exactly if its words begin the
-- words of the name of some command that was added.
find-new_command_tree :
    (id : String) (cmds : List Command)
    → words id ≢ []
    → found (find id (new_command_tree cmds))
      ≡ any (λ c. is_prefix (words id) (words (name_prime c))) cmds
unfolding find new_command_tree
find-new_command_tree id cmds = go (words id)
  where
    go : (p : List String) → p ≢ [] → found (itersearch p (add cmds new_node)) ≡ any (leads p) cmds
    go [] some_word = absurd (some_word refl)
    go (a ∷ p) _ = present-add a p cmds new_node ∙ ground (arith, present-fresh "" a p)
