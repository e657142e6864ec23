-- ===== src/Projection/Tests.antt =====
-- The projections on concrete stores.
use stow.Prelude.{ℕ, ◌≤◌, ◌<◌, refl, List, [], ◌∷◌}
use stow.Events.{Topic, EventData}
use stow.Projection.{apply}
use stow.Projection.Replay.{Same, apply_replay}
use stow.Projection.Notices.{announced, IsReached}
use stow.Projection.Notices.Once.{apply_all, announced_once}
use stow.Projection.Sample.{list_stores, sample_db, sample_data}

apply_replay_example :
    Same list_stores
      (apply list_stores 6 Topic.withdraw sample_data
        (apply list_stores 5 Topic.withdraw sample_data sample_db).1).1
      (apply list_stores 5 Topic.withdraw sample_data sample_db).1
apply_replay_example = apply_replay list_stores 5 6 Topic.withdraw sample_data sample_db tt

-- The goal is reached by a contribution; the contract's own event and its repetition follow.
abbrev sample_events : List (ℕ × Topic × EventData)
sample_events =
    (5, Topic.goal_contribution, sample_data)
    ∷ (6, Topic.goal_reached, sample_data)
    ∷ (7, Topic.goal_reached, sample_data)
    ∷ []

announced_once_example :
    (announced 40 (apply_all list_stores sample_events sample_db).notices ≤ 1)
    × (0 < announced 40 (apply_all list_stores sample_events sample_db).notices
        → IsReached (list_stores.goals) (apply_all list_stores sample_events sample_db).goals 40)
announced_once_example = announced_once list_stores sample_events sample_db refl 40
