-- ===== src/Examples/Locks.antt =====
-- The life of a lock.
use sardis.Common.{none, ◌≡◌, ◌≢◌, refl, ◌↔◌, inl, string_comparable, arith, eq_iff}
use sardis.Postal.Meta.{
  validate, validate_transition, LockInfo, returns, update, created, in_progress, completed,
}
use sardis.Postal.Meta.Transitions.{
  Allowed, validate_transition_iff, Reach, here, next, Reach-final,
}
use sardis.Postal.Meta.Updates.{stamped, IsSpaced, update-leaves_final}

validate_transition_iff_example :
    (validate_transition in_progress created ≡ none) ↔ Allowed in_progress created
validate_transition_iff_example = validate_transition_iff in_progress created

stays_completed : Reach completed completed
unfolding validate_transition validate
stays_completed = next here refl

Reach-final_example : completed ≡ completed
Reach-final_example = Reach-final (inl refl) stays_completed

abbrev lock : LockInfo
lock = record { status = created; logical_clock = 1; last_modified = 5_000_000; owner = "me" }

abbrev later_lock : LockInfo
later_lock = record {
  status = in_progress;
  logical_clock = 2;
  last_modified = 9_000_000;
  owner = "me";
}

update_test : update 9_000_001 9_000_002 in_progress lock ≡ returns later_lock
unfolding update validate_transition validate
update_test = refl

abbrev finished : LockInfo
finished = record lock { status = completed }

reopens : created ≢ completed
reopens = ground (arith, eq_iff created completed)

spaced : IsSpaced 9_000_001 finished
spaced = ground arith

update-leaves_final_example :
    (validate_transition completed created ≢ none)
    × (update 9_000_001 9_000_002 created finished ≡ returns (stamped 9_000_002 created finished))
update-leaves_final_example =
    update-leaves_final 9_000_001 9_000_002 created finished (inl refl) (inl refl) reopens
      (omega arith) spaced
