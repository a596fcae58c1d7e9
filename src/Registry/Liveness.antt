-- ===== src/Registry/Liveness.antt =====
-- pkg/registry/liveness.go: the visible state of a session and its accessors.
use aht.Prelude.{Option, none, some, if◌then◌else◌}
use aht.Registry.Model.{Presence, Activity, ActivityDecision, Liveness, Session}
use aht.Registry.Values.{zero_time, is_gone}

-- `NewLiveness`.
unfoldable pub new_liveness : Presence → Activity → Option ActivityDecision → Liveness
new_liveness Presence.gone activity decision = Liveness.gone zero_time "" decision
new_liveness Presence.live activity decision = Liveness.live activity decision
new_liveness _ activity decision = Liveness.unknown activity decision

-- `ActivityValue`.
unfoldable pub activity_value : Option Activity → Activity
activity_value none = Activity.unknown
activity_value (some activity) = activity

abbrev pub liveness_presence : Liveness → Presence
liveness_presence (Liveness.live activity decision) = Presence.live
liveness_presence (Liveness.gone at reason decision) = Presence.gone
liveness_presence _ = Presence.unknown

abbrev pub liveness_activity : Liveness → Option Activity
liveness_activity (Liveness.live activity decision) = some activity
liveness_activity (Liveness.unknown activity decision) = some activity
liveness_activity (Liveness.gone at reason decision) = none
liveness_activity Liveness.absent = some Activity.unknown

abbrev pub liveness_decision : Liveness → Option ActivityDecision
liveness_decision (Liveness.live activity decision) = decision
liveness_decision (Liveness.unknown activity decision) = decision
liveness_decision (Liveness.gone at reason decision) = decision
liveness_decision Liveness.absent = none

-- `Session.Presence`, `Session.Activity` and `Session.Decision`.
unfoldable pub presence : Session → Presence
presence s = liveness_presence s.liveness

unfoldable pub activity : Session → Option Activity
activity s = liveness_activity s.liveness

unfoldable pub decision : Session → Option ActivityDecision
decision s = liveness_decision s.liveness

unfoldable pub set_presence : Presence → Session → Session
unfolding new_liveness activity_value activity decision
set_presence p s = record s { liveness = new_liveness p (activity_value (activity s)) (decision s) }

unfoldable pub set_activity : Option Activity → Session → Session
unfolding new_liveness activity_value presence decision
set_activity a s =
    if is_gone (presence s)
    then s
    else record s { liveness = new_liveness (presence s) (activity_value a) (decision s) }

-- The type switch of `setDecision`: a gone state keeps its time and reason.
decided : Option ActivityDecision → Session → Liveness → Liveness
unfolding new_liveness activity_value presence activity
decided d s (Liveness.gone at reason old) = Liveness.gone at reason d
decided d s _ = new_liveness (presence s) (activity_value (activity s)) d

unfoldable pub set_decision : Option ActivityDecision → Session → Session
unfolding decided
set_decision d s = record s { liveness = decided d s s.liveness }
