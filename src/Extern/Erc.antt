-- ===== src/Extern/Erc.antt =====
-- github.com/tychoish/fun/erc. A `Collector` is read only through `Resolve` (and `Ok`), so an
-- interface gives what it resolves to after a sequence of pushes, nil errors among them.
use sardis.Common.{
  Bool, Option, none, some, List, [], ◌∷◌, ◌≡◌, refl, ◌⊎◌, inl, inr, ◌↔◌, arith, if◌then◌else◌, All,
}

module _ {Error : Type 0} where
  -- The error was pushed.
  abbrev Pushed : Error → List (Option Error) → Type 0
  Pushed e [] = ⊥
  Pushed e (o ∷ os) = (o ≡ some e) ⊎ Pushed e os

  -- What `If`, `When` and `Whenf` push.
  abbrev pub when : Bool → Error → Option Error
  when test e = if test then some e else none

-- The documented behaviour: nil pushes leave no trace, a collector with no error resolves to nil,
-- and the error of any other wraps each error that was pushed.
pub record Erc (Error : Type 0) : Type 1 where
  pub Is : Error → Error → Type 0
  pub resolve : List (Option Error) → Option Error
  pub resolve-none : (os : List (Option Error)) → All (λ o. o ≡ none) os → resolve os ≡ none
  pub resolve-some :
      (os : List (Option Error)) (e : Error)
      → Pushed e os
      → (r : Error) × (resolve os ≡ some r) × Is r e

-- A collector that joins its errors in a chain, for any error type with a way to join two.
module _ {Error : Type 0} (joined : Error → Error → Error) (Is : Error → Error → Type 0)
    (is_refl : (e : Error) → Is e e) (is_left : (a b e : Error) → Is a e → Is (joined a b) e)
    (is_right : (a b e : Error) → Is b e → Is (joined a b) e) where
  join_one : Option Error → Option Error → Option Error
  join_one none rest = rest
  join_one (some e) none = some e
  join_one (some e) (some r) = some (joined e r)

  unfoldable pub join_all : List (Option Error) → Option Error
  unfolding join_one
  join_all [] = none
  join_all (o ∷ os) = join_one o (join_all os)

  pub join_all-none : (os : List (Option Error)) → All (λ o. o ≡ none) os → join_all os ≡ none
  unfolding join_all
  join_all-none [] _ = refl
  join_all-none (o ∷ os) (e, h) = ground (arith, join_all-none os h)

  join_one-head :
      (e : Error) (rest : Option Error) → (r : Error) × (join_one (some e) rest ≡ some r) × Is r e
  unfolding join_one
  join_one-head e none = (e, refl, is_refl e)
  join_one-head e (some r) = (joined e r, refl, is_left e r e (is_refl e))

  join_one-tail :
      (o : Option Error) (r e : Error)
      → Is r e
      → (q : Error) × (join_one o (some r) ≡ some q) × Is q e
  unfolding join_one
  join_one-tail none r e h = (r, refl, h)
  join_one-tail (some a) r e h = (joined a r, refl, is_right a r e h)

  pub join_all-some :
      (os : List (Option Error)) (e : Error)
      → Pushed e os
      → (r : Error) × (join_all os ≡ some r) × Is r e
  unfolding join_all
  join_all-some [] e h = absurd h
  join_all-some (o ∷ os) e (inl here) = rw here (join_one-head e (join_all os))
  join_all-some (o ∷ os) e (inr later) =
      let (r, found, is) = join_all-some os e later in rw found (join_one-tail o r e is)

  abbrev pub chain : Erc Error
  chain = record {
    Is = Is;
    resolve = join_all;
    resolve-none = join_all-none;
    resolve-some = join_all-some;
  }

-- A collector resolves to nil exactly if each push was nil.
module _ {Error : Type 0} (erc : Erc Error) where
  all_none : (os : List (Option Error)) → erc.resolve os ≡ none → All (λ o. o ≡ none) os
  all_none os h = go os (λ e pushed. clash e pushed)
    where
      clash : (e : Error) → Pushed e os → ⊥
      clash e pushed = let (r, found, is) = erc.resolve-some os e pushed in cc

      go : (ps : List (Option Error)) → ((e : Error) → Pushed e ps → ⊥) → All (λ o. o ≡ none) ps
      go [] _ = tt
      go (none ∷ ps) never = (refl, go ps (λ e p. never e (inr p)))
      go (some e ∷ ps) never = absurd (never e (inl refl))

  pub resolve-eq-none_iff :
      (os : List (Option Error)) → (erc.resolve os ≡ none) ↔ All (λ o. o ≡ none) os
  resolve-eq-none_iff os = (all_none os, erc.resolve-none os)
