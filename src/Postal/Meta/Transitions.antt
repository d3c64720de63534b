-- ===== src/Postal/Meta/Transitions.antt =====
-- Which status changes `ValidateStateTransion` lets through (x/postal/meta.go).
use sardis.Common.{
  Option, none, some, ◌≡◌, ◌≢◌, refl, ◌⊎◌, inl, inr, ◌↔◌, ◌∙◌, sym, Option-cases, String,
  string_comparable, arith, eq_iff,
}
use sardis.Postal.Meta.{
  validate, validate_transition, transition_switch, created, in_progress, available, completed,
  expired, error_retryable, error_fatal, Error,
}

-- One of the seven statuses.
abbrev pub IsStatus : String → Type 0
IsStatus l =
    (l ≡ created)
    ⊎ (l ≡ in_progress)
    ⊎ (l ≡ available)
    ⊎ (l ≡ completed)
    ⊎ (l ≡ expired)
    ⊎ (l ≡ error_fatal)
    ⊎ (l ≡ error_retryable)

abbrev pub IsFinal : String → Type 0
IsFinal l = (l ≡ completed) ⊎ (l ≡ expired) ⊎ (l ≡ error_fatal)

-- `Validate` accepts exactly the seven statuses.
validate_sound : (l : String) → validate l ≡ none → IsStatus l
unfolding validate
validate_sound l h = ground (
  arith,
  eq_iff l created,
  eq_iff l in_progress,
  eq_iff l available,
  eq_iff l completed,
  eq_iff l expired,
  eq_iff l error_fatal,
  eq_iff l error_retryable,
)

validate_complete : (l : String) → IsStatus l → validate l ≡ none
unfolding validate
validate_complete l (inl e) = rw e
validate_complete l (inr (inl e)) = rw e
validate_complete l (inr (inr (inl e))) = rw e
validate_complete l (inr (inr (inr (inl e)))) = rw e
validate_complete l (inr (inr (inr (inr (inl e))))) = rw e
validate_complete l (inr (inr (inr (inr (inr (inl e)))))) = rw e
validate_complete l (inr (inr (inr (inr (inr (inr e)))))) = rw e

-- The changes that are let through.
abbrev pub Allowed : String → String → Type 0
Allowed l to =
    (l ≡ "") ⊎ (IsStatus to × ((l ≡ to) ⊎ (¬ IsFinal l × ¬ ((l ≡ in_progress) × (to ≡ created)))))

-- The switch behind a valid target.
switch_sound :
    (l to : String)
    → transition_switch none l to ≡ none
    → (l ≡ "") ⊎ ((l ≡ to) ⊎ (¬ IsFinal l × ¬ ((l ≡ in_progress) × (to ≡ created))))
unfolding transition_switch
switch_sound l to h = ground (
  arith,
  eq_iff l "",
  eq_iff l to,
  eq_iff l completed,
  eq_iff l error_fatal,
  eq_iff l expired,
  eq_iff l in_progress,
  eq_iff to created,
)

switch_complete :
    (l to : String)
    → (l ≡ "") ⊎ ((l ≡ to) ⊎ (¬ IsFinal l × ¬ ((l ≡ in_progress) × (to ≡ created))))
    → transition_switch none l to ≡ none
unfolding transition_switch
switch_complete l to h = ground (
  arith,
  eq_iff l "",
  eq_iff l to,
  eq_iff l completed,
  eq_iff l error_fatal,
  eq_iff l expired,
  eq_iff l in_progress,
  eq_iff to created,
)

switch_invalid : (e : Error) (l to : String) → transition_switch (some e) l to ≡ none → l ≡ ""
unfolding transition_switch
switch_invalid e l to h = ground (arith, eq_iff l "")

transition_sound : (l to : String) → validate_transition l to ≡ none → Allowed l to
unfolding validate_transition
transition_sound l to h = elim (Option-cases (validate to)) [
  | inl valid ↦ elim (switch_sound l to (rw valid at h)) [
    | inl unset ↦ inl unset
    | inr rest ↦ inr (validate_sound to valid, rest)
  ]
  | inr (e, invalid) ↦ inl (switch_invalid e l to (rw invalid at h))
]

switch_unset : (err : Option Error) (to : String) → transition_switch err "" to ≡ none
unfolding transition_switch
switch_unset err to = refl

transition_complete : (l to : String) → Allowed l to → validate_transition l to ≡ none
unfolding validate_transition
transition_complete l to (inl unset) = rw unset (switch_unset (validate to) to)
transition_complete l to (inr (valid, rest)) =
    rw (validate_complete to valid) (switch_complete l to (inr rest))

-- A change is let through exactly if the old status is unset, or the new one is one of the seven
-- and either equals the old one, or the old one is not final and the change is not one from
-- in-progress to created.
pub validate_transition_iff : (l to : String) → (validate_transition l to ≡ none) ↔ Allowed l to
validate_transition_iff l to = (transition_sound l to, transition_complete l to)

pub validate_transition_self : (l : String) → IsStatus l → validate_transition l l ≡ none
validate_transition_self l h = transition_complete l l (inr (h, inl refl))

-- Statuses that a series of changes reaches, each let through.
pub data Reach (l : String) : String → Type 0 where
  here : Reach l l
  next : {m to : String} → Reach l m → validate_transition m to ≡ none → Reach l to

final-ne-unset : (l : String) → IsFinal l → l ≢ ""
final-ne-unset l (inl p) e = ground (arith, eq_iff completed "")
final-ne-unset l (inr (inl p)) e = ground (arith, eq_iff expired "")
final-ne-unset l (inr (inr p)) e = ground (arith, eq_iff error_fatal "")

pub final_step : (l to : String) → IsFinal l → validate_transition l to ≡ none → to ≡ l
final_step l to final h = elim (transition_sound l to h) [
  | inl unset ↦ absurd (final-ne-unset l final unset)
  | inr (valid, inl same) ↦ sym same
  | inr (valid, inr (open_status, other)) ↦ absurd (open_status final)
]

-- No series of changes that are let through leaves a completed, expired or fatal status.
pub Reach-final : {l to : String} → IsFinal l → Reach l to → to ≡ l
Reach-final final here = refl
Reach-final {l} final (next {m} {to} before step) =
    let same = Reach-final final before in final_step m to (rw (← same) at final) step ∙ same
