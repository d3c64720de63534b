-- ===== src/Router/Ids/Length.antt =====
-- How long an identifier is (x/router/rand.go).
use Prim.Native.Char.{Char}
use Prim.Native.String.{[], ◌∷◌, ◌++◌ as append}
use text.Mathlib.TextLemmas.{nil-append, cons-append}
use sardis.Common.{
  ℕ, zero, suc, ◌+◌, ◌-◌, ◌≡◌, [], ◌∷◌, String, arith, ltb, leb, if◌then◌else◌, Bool-cases, inl,
  inr,
}
use sardis.Common.Int.{ℤ}
use sardis.Common.Text.{rune_count}
use sardis.Router.Ids.{suffix, id_prefix, make_id}

suffix-count :
    (random : ℕ → Char) (rounds i len : ℕ)
    → rune_count (suffix random rounds i len) ≡ (if leb rounds (32 - len) then rounds else 32 - len)
unfolding suffix
suffix-count random zero i len = ground arith
suffix-count random (suc rounds) i len = elim (Bool-cases (ltb len 32)) [
  | inl short ↦ rw short (ground (arith, suffix-count random rounds (i + 1) (len + 1), short))
  | inr long ↦ rw long (ground (arith, long))
]

rune_count-append : (s t : String) → rune_count (append s t) ≡ rune_count s + rune_count t
rune_count-append [] t = rw nil-append (omega arith)
rune_count-append (c ∷ s) t = rw cons-append (omega (arith, rune_count-append s t))

-- An identifier has 32 characters where the parts before the random ones have 16 to 32; where they
-- have less, 16 random characters follow, and where they have more, none.
make_id-count :
    (random : ℕ → Char) (host : String) (ts count : ℤ)
    → let n = rune_count (id_prefix host ts count) in
      rune_count (make_id random host ts count)
      ≡ (if ltb n 16 then n + 16 else if ltb n 32 then 32 else n)
unfolding make_id
make_id-count random host ts count =
    let built = id_prefix host ts count in
    let len = rune_count built in
    ground (arith, rune_count-append built (suffix random 16 0 len), suffix-count random 16 0 len)
