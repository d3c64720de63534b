-- ===== src/Router/Ids/RoundTrip.antt =====
-- Parsing an identifier gives back what it was made from (x/router/rand.go).
use Prim.Native.Char.{Char, code}
use Prim.Native.String.{[], ◌∷◌, ◌++◌ as append}
use text.Mathlib.TextLemmas.{nil-append, cons-append, append_assoc}
use native.Mathlib.Nat.{pow-suc}
use sardis.Common.{
  ℕ, zero, suc, ◌+◌, ◌-◌, ◌/◌, ◌%◌, ◌^◌, ◌≤◌, ◌<◌, Option, none, some, ◌≡◌, ◌≢◌, refl, ap, ◌∙◌, [],
  ◌∷◌, String, arith, ltb, Bool-cases, inl, inr, subst,
}
use sardis.Common.Int.{ℤ, pos, negsuc}
use sardis.Common.Text.{split, split-append, split-eq-singleton, Lacks, rune_count}
use sardis.Router.Ids.{
  digit, digits, print_int64, scan, parse_digits, parse_int, suffix, id_prefix, make_id, from_parts,
  parse,
}

-- A text of digits only.
abbrev AreDigits : String → Type 0
AreDigits [] = Unit
AreDigits (c ∷ s) = (b'0' ≤ code c) × (code c ≤ b'9') × AreDigits s

code-digit : (n : ℕ) → n < 10 → code (digit n) ≡ b'0' + n
code-digit zero h = refl
code-digit (suc zero) h = refl
code-digit (suc (suc zero)) h = refl
code-digit (suc (suc (suc zero))) h = refl
code-digit (suc (suc (suc (suc zero)))) h = refl
code-digit (suc (suc (suc (suc (suc zero))))) h = refl
code-digit (suc (suc (suc (suc (suc (suc zero)))))) h = refl
code-digit (suc (suc (suc (suc (suc (suc (suc zero))))))) h = refl
code-digit (suc (suc (suc (suc (suc (suc (suc (suc zero)))))))) h = refl
code-digit (suc (suc (suc (suc (suc (suc (suc (suc (suc zero))))))))) h = refl
code-digit (suc (suc (suc (suc (suc (suc (suc (suc (suc (suc n)))))))))) h = absurd (omega arith)

digits-AreDigits : (f n : ℕ) (out : String) → AreDigits out → AreDigits (digits f n out)
unfolding digits
digits-AreDigits zero n out h = h
digits-AreDigits (suc f) n out h =
    let d = code-digit (n % 10) (omega arith) in
    let low : b'0' ≤ code (digit (n % 10)) = omega (arith, d) in
    let high : code (digit (n % 10)) ≤ b'9' = omega (arith, d) in
    let front : String = digit (n % 10) ∷ out in
    ground (arith, low, high, h, digits-AreDigits f (n / 10) front (low, high, h))

tenth : (f n : ℕ) → n < 10 ^ suc f → n / 10 < 10 ^ f
tenth f n h = omega (arith, pow-suc 10 f)

scan-digits :
    (f n limit : ℕ) (out : String)
    → n < 10 ^ f
    → n ≤ limit
    → scan limit (digits f n out) 0 ≡ scan limit out n
unfolding digits scan
scan-digits zero n limit out small fits = let z : n ≡ 0 = omega arith in rw z refl
scan-digits (suc f) n limit out small fits =
    let d = code-digit (n % 10) (omega arith) in
    let front : String = digit (n % 10) ∷ out in
    ground (arith, d, scan-digits f (n / 10) limit front (tenth f n small))

-- A text of digits that is not empty is no sign.
scan-end : (limit n : ℕ) → scan limit "" n ≡ some n
unfolding scan
scan-end limit n = refl

parse_int-AreDigits :
    (c : Char) (s : String)
    → AreDigits (c ∷ s)
    → parse_int (c ∷ s) ≡ (elim (scan (2 ^ 63 - 1) (c ∷ s) 0) as (λ _. Option ℤ) [
      | none ↦ none
      | some n ↦ some (pos n)
    ])
unfolding parse_int parse_digits
parse_int-AreDigits c s (low, high, rest) = ground arith

digits-cons :
    (f n : ℕ) (c : Char) (out : String)
    → (d : Char) × (s : String) × (digits f n (c ∷ out) ≡ (d ∷ s))
unfolding digits
digits-cons zero n c out = (c, out, refl)
digits-cons (suc f) n c out =
    let front : String = c ∷ out in
    elim (Bool-cases (ltb n 10)) [
      | inl small ↦ (digit (n % 10), front, rw small refl)
      | inr large ↦
          let (d, s, e) = digits-cons f (n / 10) (digit (n % 10)) front in (d, s, rw large e)
    ]

some_digits : (n : ℕ) → (d : Char) × (s : String) × (digits 19 n "" ≡ (d ∷ s))
unfolding digits
some_digits n = elim (Bool-cases (ltb n 10)) [
  | inl small ↦ (digit (n % 10), "", rw small refl)
  | inr large ↦ let (d, s, e) = digits-cons 18 (n / 10) (digit (n % 10)) "" in (d, s, rw large e)
]

read :
    (n : ℕ) (printed : String) (d : Char) (s : String)
    → printed ≡ (d ∷ s)
    → AreDigits printed
    → scan (2 ^ 63 - 1) printed 0 ≡ some n
    → parse_int printed ≡ some (pos n)
read n printed d s e are scanned =
    let scanned' = subst (λ p. scan (2 ^ 63 - 1) p 0 ≡ some n) e scanned in
    rw e (
      parse_int-AreDigits d s (subst AreDigits e are)
      ∙ ap (λ o. elim o as (λ _. Option ℤ) [ none ↦ none | some m ↦ some (pos m) ]) scanned')

parse_int-print_int64 : (n : ℕ) → n < 2 ^ 63 → parse_int (print_int64 (pos n)) ≡ some (pos n)
unfolding print_int64
parse_int-print_int64 n h =
    let (d, s, e) = some_digits n in
    read n (digits 19 n "") d s e (digits-AreDigits 19 n "" tt)
      (scan-digits 19 n (2 ^ 63 - 1) "" (omega arith) (omega arith) ∙ scan-end (2 ^ 63 - 1) n)

AreDigits-Lacks : (s : String) → AreDigits s → Lacks b'-' s
AreDigits-Lacks [] h = tt
AreDigits-Lacks (c ∷ s) (low, high, h) = ((λ e. omega (arith, e)), AreDigits-Lacks s h)

print_int64-Lacks : (n : ℕ) → Lacks b'-' (print_int64 (pos n))
unfolding print_int64
print_int64-Lacks n = AreDigits-Lacks (digits 19 n "") (digits-AreDigits 19 n "" tt)

suffix-Lacks :
    (random : ℕ → Char) (rounds i len : ℕ)
    → ((k : ℕ) → code (random k) ≢ b'-')
    → Lacks b'-' (suffix random rounds i len)
unfolding suffix
suffix-Lacks random zero i len h = tt
suffix-Lacks random (suc rounds) i len h = elim (Bool-cases (ltb len 32)) [
  | inl short ↦ rw short (h i, suffix-Lacks random rounds (i + 1) (len + 1) h)
  | inr long ↦ rw long tt
]

dash : (rest : String) → append "-" rest ≡ ("-" ∷ rest)
dash rest = rw (cons-append, nil-append) refl

from_parts-some :
    (a host c rest : String) (ts count : ℤ)
    → parse_int a ≡ some ts
    → parse_int c ≡ some count
    → from_parts (a ∷ host ∷ c ∷ rest ∷ [])
      ≡ some (record { ts = ts; host = host; count = count; random = rest })
from_parts-some a host c rest ts count ha hc = rw (from_parts, ha) (rw hc refl)

-- The four parts between the dashes.
id_shape :
    (a host c rest : String)
    → append (append a (append "-" (append host (append "-" (append c "-"))))) rest
      ≡ append a ("-" ∷ append host ("-" ∷ append c ("-" ∷ rest)))
id_shape a host c rest = simp append_assoc (simp dash refl)

split-parts :
    (a host c rest : String)
    → Lacks b'-' a
    → Lacks b'-' host
    → Lacks b'-' c
    → Lacks b'-' rest
    → split b'-' (append a ("-" ∷ append host ("-" ∷ append c ("-" ∷ rest))))
      ≡ a ∷ host ∷ c ∷ rest ∷ []
split-parts a host c rest ha hh hc hr =
    rw
      (
        split-append b'-' a (append host ("-" ∷ append c ("-" ∷ rest))) "-" refl ha,
        split-append b'-' host (append c ("-" ∷ rest)) "-" refl hh,
        split-append b'-' c rest "-" refl hc,
        split-eq-singleton b'-' rest hr,
      )
      refl

-- Parsing what `MakeID` makes gives back the seconds of the time stamp, the host's part, the counter
-- and the random characters, where the two numbers are not negative and no dash stands in the
-- host's part or among the random characters.
pub parse-make_id :
    (random : ℕ → Char) (host : String) (ts count : ℕ)
    → ts < 2 ^ 63
    → count < 2 ^ 63
    → Lacks b'-' host
    → ((i : ℕ) → code (random i) ≢ b'-')
    → parse (make_id random host (pos ts) (pos count))
      ≡ some (record {
        ts = pos ts;
        host = host;
        count = pos count;
        random = suffix random 16 0 (rune_count (id_prefix host (pos ts) (pos count)));
      })
unfolding parse make_id id_prefix
parse-make_id random host ts count small few clean letters =
    let a = print_int64 (pos ts) in
    let c = print_int64 (pos count) in
    let built = id_prefix host (pos ts) (pos count) in
    let rest = suffix random 16 0 (rune_count built) in
    rw
      (
        id_shape a host c rest,
        split-parts a host c rest (print_int64-Lacks ts) clean (print_int64-Lacks count)
            (suffix-Lacks random 16 0 (rune_count built) letters),
      )
      (from_parts-some a host c rest (pos ts) (pos count) (parse_int-print_int64 ts small)
        (parse_int-print_int64 count few))

-- A time stamp before 1970 makes an identifier that does not parse: its sign is a further dash. The
-- counter is not negative, and no dash stands in the host's part or among the random characters.
parse-make_id_negative :
    (random : ℕ → Char) (host : String) (ts count : ℕ)
    → Lacks b'-' host
    → ((i : ℕ) → code (random i) ≢ b'-')
    → parse (make_id random host (negsuc ts) (pos count)) ≡ none
unfolding parse make_id id_prefix print_int64 split
parse-make_id_negative random host ts count clean letters =
    let a = digits 19 (suc ts) "" in
    let whole : String = "-" ∷ a in
    let c = print_int64 (pos count) in
    let built = id_prefix host (negsuc ts) (pos count) in
    let rest = suffix random 16 0 (rune_count built) in
    rw (id_shape whole host c rest, cons-append)
      (ap (λ parts. from_parts ("" ∷ parts))
        (split-parts a host c rest (AreDigits-Lacks a (digits-AreDigits 19 (suc ts) "" tt)) clean
          (print_int64-Lacks count) (suffix-Lacks random 16 0 (rune_count built) letters)))
