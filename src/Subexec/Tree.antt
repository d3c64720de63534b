-- ===== src/Subexec/Tree.antt =====
-- subexec/index.go: the tree of commands over the words of their dotted names. A node's children
-- are a Go map, here a list with one entry for each word; the pointers of the source form a tree,
-- so that a node is its value.
pub mod Lookup
pub mod Present
use sardis.Common.{
  ℕ, suc, ◌+◌, Bool, true, false, Option, none, some, List, [], ◌∷◌, String, string_comparable,
  ◌==◌, if◌then◌else◌,
}
use sardis.Util.Dots.{sparse_string, dot_split}
use sardis.Subexec.Command.{Command, name_prime}

mutual
  pub data Node : Type 0 where
    node : (word : String) (command : Option Command) (children : Children) → Node

  pub data Children : Type 0 where
    leaf : Children
    child : (key : String) → Node → Children → Children

abbrev word : Node → String
word (node w c ch) = w

abbrev pub command : Node → Option Command
command (node w c ch) = c

abbrev children : Node → Children
children (node w c ch) = ch

-- `children[key]`, and whether it is there.
pub child_at : String → Children → Option Node
child_at key leaf = none
child_at key (child k n rest) = if k == key then some n else child_at key rest

-- `children[key] = n`
set_child : String → Node → Children → Children
set_child key n leaf = child key n leaf
set_child key n (child k m rest) =
    if k == key then child k n rest else child k m (set_child key n rest)

abbrev with_child : String → Node → Node → Node
with_child key n (node w c ch) = node w c (set_child key n ch)

-- `NewNode`
abbrev new_node : Node
new_node = node "" none leaf

-- `Push`; `none` is the nil node.
pub push : Option Node → Node → Node × Bool
unfolding set_child
push none n = (n, false)
push (some rhn) n = (with_child (word rhn) rhn n, true)

-- `Extend`
pub extend : List Node → Node → Node
unfolding push
extend [] n = n
extend (m ∷ ns) n = extend ns (push (some m) n).0

-- `NewTree`
unfoldable pub new_tree : List Node → Node
unfolding extend
new_tree nodes = extend nodes new_node

-- `NarrowTo`, whose result is nil for a word that is no child.
unfoldable pub narrow_to : String → Node → Option Node
unfolding child_at
narrow_to key n = child_at key (children n)

unfoldable pub has_command : Node → Bool
has_command n = elim (command n) [ none ↦ false | some c ↦ true ]

-- The words of a dotted name.
unfoldable pub words : String → List String
unfolding sparse_string dot_split
words id = sparse_string (dot_split id)

-- The child of that word, or a new node that carries it.
child_or_new : String → Node → Node
unfolding child_at
child_or_new elem n = elim (child_at elem (children n)) [
  | none ↦ node elem none leaf
  | some next ↦ next
]

-- `next.command = &cpcmd`, at the last word only.
mark : List String → Command → Node → Node
mark [] cmd (node w c ch) = node w (some cmd) ch
mark (elem ∷ rest) cmd n = n

-- The inner loop of `add`: the words of one command.
add_path : List String → Command → Node → Node
unfolding child_or_new mark set_child
add_path [] cmd n = n
add_path (elem ∷ rest) cmd n =
    with_child elem (add_path rest cmd (mark rest cmd (child_or_new elem n))) n

-- The outer loop of `add`.
pub add : List Command → Node → Node
unfolding add_path words name_prime
add [] n = n
add (cmd ∷ cmds) n = add cmds (add_path (words (name_prime cmd)) cmd n)

pub new_command_tree : List Command → Node
unfolding add
new_command_tree commands = add commands new_node

pub itersearch : List String → Node → Option Node
unfolding child_at
itersearch [] n = some n
itersearch (part ∷ path) n = elim (child_at part (children n)) [
  | none ↦ none
  | some next ↦ itersearch path next
]

pub find : String → Node → Option Node
unfolding itersearch words
find id n = itersearch (words id) n

pub find_command : String → Node → Option Command
unfolding find
find_command id n = elim (find id n) [ none ↦ none | some found ↦ command found ]
