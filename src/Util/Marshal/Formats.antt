-- ===== src/Util/Marshal/Formats.antt =====
-- The format that a file name selects for writing (util/marshal.go, `MarshalerForFile`).
use Prim.Native.Char.{Char, code}
use Prim.Native.String.{[], ◌∷◌}
use sardis.Common.{
  ◌≡◌, ◌≢◌, inl, inr, String, string_comparable, arith, eq_iff, nat_beq, nat_beq_iff, Bool-cases,
  subst, if◌then◌else◌,
}
use sardis.Util.Marshal.{ext, ext_from, marshaler_for_file, format_yaml}

-- Empty, or a text that begins with a dot.
abbrev IsExtension : String → Type 0
IsExtension [] = Unit
IsExtension (c ∷ s) = code c ≡ b'.'

-- One round of the scan.
start-IsExtension :
    (found : String) (c : Char) (s : String)
    → IsExtension found
    → let whole : String = c ∷ s in
      IsExtension
        (if nat_beq (code c) b'/' then "" else if nat_beq (code c) b'.' then whole else found)
start-IsExtension found c s h = elim (Bool-cases (nat_beq (code c) b'/')) [
  | inl slash ↦ rw slash tt
  | inr other ↦ elim (Bool-cases (nat_beq (code c) b'.')) [
    | inl dot ↦ rw (other, dot) ((nat_beq_iff (code c) b'.').0 dot)
    | inr letter ↦ rw (other, letter) h
  ]
]

ext_from-IsExtension : (path found : String) → IsExtension found → IsExtension (ext_from found path)
unfolding ext_from
ext_from-IsExtension [] found h = h
ext_from-IsExtension (c ∷ s) found h = ext_from-IsExtension s _ (start-IsExtension found c s h)

ext-IsExtension : (path : String) → IsExtension (ext path)
unfolding ext
ext-IsExtension path = ext_from-IsExtension path "" tt

no_dot : (e : String) → IsExtension e → (e ≢ "json") × (e ≢ "ndjson") × (e ≢ "jsonl") × (e ≢ "bson")
no_dot e h = (
  λ p. let q = subst IsExtension p h in omega arith,
  λ p. let q = subst IsExtension p h in omega arith,
  λ p. let q = subst IsExtension p h in omega arith,
  λ p. let q = subst IsExtension p h in omega arith,
)

-- Every file name selects YAML for writing, because an extension keeps its dot and the cases of
-- the switch have none.
marshaler_for_file-eq-yaml : (fn : String) → marshaler_for_file fn ≡ format_yaml
unfolding marshaler_for_file
marshaler_for_file-eq-yaml fn =
    let (j, n, l, b) = no_dot (ext fn) (ext-IsExtension fn) in
    ground (
      arith,
      eq_iff (ext fn) "json",
      eq_iff (ext fn) "ndjson",
      eq_iff (ext fn) "jsonl",
      eq_iff (ext fn) "bson",
    )
