-- ===== src/Common/Compare.antt =====
-- Go's `comparable` types: an equality test, and the zero value that an unset variable holds.
use Prim.Native.Nat.{ℕ}
use Prim.Native.String.{String}
use mathlib.Core.Path.{◌≡◌}
use mathlib.Core.Logic.{◌↔◌}
use mathlib.Core.Bool.{Bool, true, false}
use mathlib.Core.Option.{Option, none, some}
use native.Mathlib.Omega.{arith}
use text.Mathlib.Text.{◌==◌ as str_eq}
use text.Mathlib.TextEquality.{eq_iff}
use sardis.Common.Tests.{nat_beq, nat_beq_iff}

pub record Comparable {ℓ} (A : Type ℓ) : Type ℓ where
  pub beq : A → A → Bool
  pub beq_iff : (a b : A) → (beq a b ≡ true) ↔ (a ≡ b)
  pub zero_value : A

infix 50 ◌==◌
abbrev pub ◌==◌ {ℓ} : {A : Type ℓ} ⦃c : Comparable A⦄ → A → A → Bool
◌==◌ ⦃c⦄ = c.beq

instance abbrev pub nat_comparable : Comparable ℕ
nat_comparable = record { beq = nat_beq; beq_iff = nat_beq_iff; zero_value = 0 }

instance abbrev pub string_comparable : Comparable String
string_comparable = record { beq = str_eq; beq_iff = eq_iff; zero_value = "" }

-- A `*bool`: the zero value is the nil pointer. Two pointers are compared with nil only.
abbrev pointer_beq : Option Bool → Option Bool → Bool
pointer_beq none none = true
pointer_beq (some true) (some true) = true
pointer_beq (some false) (some false) = true
pointer_beq _ _ = false

pub pointer_beq_iff : (a b : Option Bool) → (pointer_beq a b ≡ true) ↔ (a ≡ b)
pointer_beq_iff a b = ground arith

instance abbrev pub pointer_comparable : Comparable (Option Bool)
pointer_comparable = record { beq = pointer_beq; beq_iff = pointer_beq_iff; zero_value = none }
