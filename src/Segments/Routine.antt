-- ===== src/Segments/Routine.antt =====
-- internal/smsc/segments.go: `startCleanupRoutine`, the goroutine of a manager's ticker.
use smpp_smsc.Base.{ℕ, List, [], ◌∷◌}
use smpp_smsc.Segments.{SegmentsManager, cleanup}
use smpp_smsc.Segments.WellFormed.{ManagerOk}
use smpp_smsc.Segments.Invariant.{cleanup-ManagerOk}

-- What one round of its select meets: a tick at a time, or the end of the session's context.
pub data RoutineEvent : Type 0 where
  tick : ℕ → RoutineEvent
  context_done : RoutineEvent

-- The loop; the end of the context ends it.
unfoldable pub start_cleanup_routine : List RoutineEvent → SegmentsManager → SegmentsManager
start_cleanup_routine [] m = m
start_cleanup_routine (tick now ∷ events) m = start_cleanup_routine events (cleanup m now)
start_cleanup_routine (context_done ∷ events) m = m

pub start_cleanup_routine-ManagerOk :
    (events : List RoutineEvent) (m : SegmentsManager)
    → ManagerOk m
    → ManagerOk (start_cleanup_routine events m)
unfolding start_cleanup_routine
start_cleanup_routine-ManagerOk [] m v = v
start_cleanup_routine-ManagerOk (tick now ∷ events) m v =
    start_cleanup_routine-ManagerOk events (cleanup m now) (cleanup-ManagerOk m now v)
start_cleanup_routine-ManagerOk (context_done ∷ events) m v = v
