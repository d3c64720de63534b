-- ===== src/Postal/Meta/Updates.antt =====
-- What `LockInfo.Update` does to a lock record (x/postal/meta.go).
use sardis.Common.{◌+◌, ◌-◌, ◌%◌, ◌≤◌, ◌<◌, none, ◌≡◌, ◌≢◌, ◌⊎◌, String, arith}
use sardis.Postal.Meta.{validate_transition, Time, millisecond, u64_mod, LockInfo, returns, update}
use sardis.Postal.Meta.Transitions.{IsStatus, IsFinal, validate_transition_self, final_step}

-- The record that an update leaves.
abbrev pub stamped : Time → String → LockInfo → LockInfo
stamped now status l = record l {
  logical_clock = l.logical_clock + 1;
  last_modified = now - now % millisecond;
  status = status;
}

-- At least a millisecond lies between the last change and this one, or there was none.
abbrev pub IsSpaced : Time → LockInfo → Type 0
IsSpaced checked l = (l.last_modified ≡ 0) ⊎ (l.last_modified + millisecond ≤ checked)

update_accepts :
    (checked now : Time) (status : String) (l : LockInfo)
    → validate_transition status status ≡ none
    → l.logical_clock + 1 < u64_mod
    → IsSpaced checked l
    → update checked now status l ≡ returns (stamped now status l)
unfolding update
update_accepts checked now status l valid room spaced = rw valid (ground arith)

-- An update that returns counts the clock up by one with no wrap-around, sets the status and the
-- owner stays; the stamp is the last whole millisecond, and the change was spaced.
update-returns :
    (checked now : Time) (status : String) (l l' : LockInfo)
    → l.logical_clock < u64_mod
    → update checked now status l ≡ returns l'
    → (l'.logical_clock ≡ l.logical_clock + 1)
      × (l'.logical_clock < u64_mod)
      × (l'.status ≡ status)
      × (l'.owner ≡ l.owner)
      × (l'.last_modified ≤ now)
      × (now < l'.last_modified + millisecond)
      × IsSpaced checked l
unfolding update
update-returns checked now status l l' small h = ground arith

-- The guard compares the new status with itself. So a final status can be left: where the status
-- machine refuses the change to another status, the update makes it.
pub update-leaves_final :
    (checked now : Time) (status : String) (l : LockInfo)
    → IsFinal l.status
    → IsStatus status
    → status ≢ l.status
    → l.logical_clock + 1 < u64_mod
    → IsSpaced checked l
    → (validate_transition l.status status ≢ none)
      × (update checked now status l ≡ returns (stamped now status l))
update-leaves_final checked now status l final valid other room spaced = (
  λ allowed. other (final_step l.status status final allowed),
  update_accepts checked now status l (validate_transition_self status valid) room spaced,
)
