-- ===== src/Registry/Normalize.antt =====
-- pkg/registry/model.go: the words that name an activity. `to_lower` is `strings.ToLower`.
use aht.Prelude.{Bool, ◌||◌, ◌==◌, Option, none, some, String, List, [], ◌∷◌, if◌then◌else◌}
use aht.Prelude.Text.{trim_space}
use aht.Registry.Model.{Activity}

-- The case of a `switch` for a word of the list.
unfoldable pub is_one_of : String → List String → Bool
is_one_of word [] = Bool.false
is_one_of word (w ∷ ws) = word == w || is_one_of word ws

abbrev pub no_activity : Activity
no_activity = Activity.other ""

abbrev pub failed_words : List String
failed_words = "failed" ∷ "error" ∷ "errored" ∷ "crash" ∷ "crashed" ∷ []

abbrev pub interrupted_words : List String
interrupted_words = "interrupted" ∷ "paused" ∷ "stopped" ∷ "canceled" ∷ "cancelled" ∷ []

abbrev activity_word : String → Option Activity
activity_word word =
    if word == ""
    then some no_activity
    else if is_one_of word ("running" ∷ "working" ∷ "busy" ∷ "retry" ∷ [])
    then some Activity.running
    else if is_one_of word ("waiting" ∷ "blocked" ∷ [])
    then some Activity.waiting
    else if is_one_of word ("idle" ∷ "offline" ∷ [])
    then some Activity.idle
    else if is_one_of word failed_words
    then some Activity.failed
    else if is_one_of word interrupted_words
    then some Activity.interrupted
    else if word == "unknown"
    then some Activity.unknown
    else none

-- `NormalizeActivity`; `none` is its error.
unfoldable pub normalize_activity : (String → String) → String → Option Activity
unfolding is_one_of
normalize_activity to_lower value = activity_word (to_lower (trim_space value))
