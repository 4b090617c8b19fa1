-- ===== src/Tests/NotificationRuns.antt =====
-- bucket-notification.go: runs and instances.
use mefs_sdk_go.Prelude.{true, false, ◌≡◌, refl, List, [], ◌∷◌, ◌++◌, ◌⊎◌, some}
use mefs_sdk_go.Prelude.Text.{codes, text_eq}
use mefs_sdk_go.StringSet.{contains, add, add_all, add_where, intersection, is_empty}
use mefs_sdk_go.Notification.Config.{
  Arn, Store, NotificationConfig, new_arn, new_notification_config, new_filter, write_filter,
  add_events, arn_string, object_created_all, empty_filter,
}
use mefs_sdk_go.Notification.Bucket.{
  add_topic, add_target, clashes, clashes_with, same_pointer, share_events, remove_topic_by_arn,
}
use mefs_sdk_go.Notification.Filters.{
  FilterCall, add_suffix, add_prefix, perform_calls, Holds, select_all, nothing_selected,
  perform_calls-new_notification_config,
}
use mefs_sdk_go.Notification.Distinct.{Clear, as_target}
use mefs_sdk_go.Notification.Reach.{
  start, topic_added, empty_notification, IsConsistent, Reachable-IsConsistent, add_topic_cases,
}

abbrev topic_arn : Arn
topic_arn = new_arn (codes "aws") (codes "sns") (codes "us") (codes "1") (codes "t")

abbrev no_filters : Store
no_filters = record { next = 0; filter_at = λ a. empty_filter }

abbrev on_create : NotificationConfig
on_create = record { id = []; arn = topic_arn; events = object_created_all ∷ []; filter = some 0 }

-- the same config, built apart: another pointer to an equal filter
abbrev on_create_again : NotificationConfig
on_create_again = record on_create { filter = some 1 }

built :
    add_events (new_notification_config no_filters topic_arn).1 (object_created_all ∷ [])
    ≡ on_create
unfolding add_events new_notification_config new_filter write_filter
built = refl

arn_text : arn_string topic_arn ≡ codes "arn:aws:sns:us:1:t"
unfolding arn_string
arn_text = refl

twice_refused : (add_topic (add_topic empty_notification on_create).0 on_create).1 ≡ false
unfolding add_topic add_target clashes clashes_with same_pointer share_events is_empty intersection
    add_where add_all add contains text_eq arn_string
twice_refused = refl

built_apart_accepted :
    (add_topic (add_topic empty_notification on_create).0 on_create_again).1 ≡ true
unfolding add_topic add_target clashes clashes_with same_pointer share_events is_empty intersection
    add_where add_all add contains text_eq arn_string
built_apart_accepted = refl

Reachable-IsConsistent_example :
    IsConsistent (add_topic (add_topic empty_notification on_create).0 on_create_again).0
Reachable-IsConsistent_example =
    Reachable-IsConsistent _ (topic_added _ on_create_again (topic_added _ on_create start))

add_topic_cases_example :
    (((add_topic (add_topic empty_notification on_create).0 on_create
          ≡ ((add_topic empty_notification on_create).0, false))
        × (¬ Clear (as_target on_create) (add_topic empty_notification on_create).0.topic_configs))
      ⊎ ((add_topic (add_topic empty_notification on_create).0 on_create ≡ (
        record (add_topic empty_notification on_create).0 {
          topic_configs =
              (add_topic empty_notification on_create).0.topic_configs ++ as_target on_create ∷ [];
        },
        true,
      ))
          × Clear (as_target on_create) (add_topic empty_notification on_create).0.topic_configs))
    × ((add_topic
          (remove_topic_by_arn (add_topic empty_notification on_create).0 on_create.arn)
          on_create).1
        ≡ true)
add_topic_cases_example = add_topic_cases (add_topic empty_notification on_create).0 on_create

abbrev three_calls : List FilterCall
three_calls = add_suffix (codes ".jpg") ∷ add_prefix (codes "a/") ∷ add_suffix (codes ".png") ∷ []

perform_calls-new_notification_config_example :
    Holds
      (select_all nothing_selected three_calls)
      no_filters
      0
      (perform_calls three_calls (new_notification_config no_filters topic_arn))
perform_calls-new_notification_config_example =
    perform_calls-new_notification_config three_calls no_filters topic_arn
