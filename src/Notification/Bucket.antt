-- ===== src/Notification/Bucket.antt =====
-- bucket-notification.go: `BucketNotification`.
-- `TopicConfig`, `QueueConfig` and `LambdaConfig` are one record, since they differ in the name of the
-- field that holds the text of the ARN; the three lists have three operations each, with one body.
use mefs_sdk_go.Prelude.{
  ℕ, ◌==◌, Bool, true, false, not, ◌&&◌, Option, none, some, List, [], ◌∷◌, ◌++◌, if◌then◌else◌,
}
use mefs_sdk_go.Prelude.Text.{Text, text_eq}
use mefs_sdk_go.StringSet.{new_string_set, add_all, intersection, is_empty}
use mefs_sdk_go.Notification.Config.{Arn, NotificationConfig, arn_string}

pub record TargetConfig : Type 0 where
  pub config : NotificationConfig
  pub target : Text

pub record BucketNotification : Type 0 where
  pub lambda_configs : List TargetConfig
  pub topic_configs : List TargetConfig
  pub queue_configs : List TargetConfig

-- `==` on pointers
unfoldable pub same_pointer : Option ℕ → Option ℕ → Bool
same_pointer none none = true
same_pointer (some a) (some b) = a == b
same_pointer _ _ = false

-- the two sets of events and the test of their intersection
unfoldable pub share_events : List Text → List Text → Bool
unfolding is_empty intersection add_all
share_events new_events events =
    let existing_config = add_all new_string_set events in
    let new_config = add_all new_string_set new_events in
    not (is_empty (intersection new_config existing_config))

-- the two tests in the loop's body
unfoldable pub clashes_with : TargetConfig → TargetConfig → Bool
unfolding same_pointer share_events
clashes_with c n =
    if text_eq n.target (arn_string c.config.arn) && same_pointer c.config.filter n.config.filter
    then share_events c.config.events n.config.events
    else false

-- the loop and the `append` after it; the answer is whether the config was added
unfoldable pub clashes : TargetConfig → List TargetConfig → Bool
unfolding clashes_with
clashes c [] = false
clashes c (n ∷ l) = if clashes_with c n then true else clashes c l

unfoldable pub add_target : NotificationConfig → List TargetConfig → List TargetConfig × Bool
unfolding clashes
add_target c l =
    let new_config : TargetConfig = record { config = c; target = arn_string c.arn } in
    if clashes new_config l then (l, false) else (l ++ new_config ∷ [], true)

unfoldable pub add_topic : BucketNotification → NotificationConfig → BucketNotification × Bool
unfolding add_target
add_topic b c =
    let (topics, added) = add_target c b.topic_configs in
    (record b { topic_configs = topics }, added)

unfoldable pub add_queue : BucketNotification → NotificationConfig → BucketNotification × Bool
unfolding add_target
add_queue b c =
    let (queues, added) = add_target c b.queue_configs in
    (record b { queue_configs = queues }, added)

unfoldable pub add_lambda : BucketNotification → NotificationConfig → BucketNotification × Bool
unfolding add_target
add_lambda b c =
    let (lambdas, added) = add_target c b.lambda_configs in
    (record b { lambda_configs = lambdas }, added)

-- the loop of the three operations that remove
unfoldable pub remove_by_arn : Arn → List TargetConfig → List TargetConfig
remove_by_arn arn [] = []
remove_by_arn arn (n ∷ l) =
    let rest = remove_by_arn arn l in if text_eq n.target (arn_string arn) then rest else n ∷ rest

unfoldable pub remove_topic_by_arn : BucketNotification → Arn → BucketNotification
unfolding remove_by_arn
remove_topic_by_arn b arn = record b { topic_configs = remove_by_arn arn b.topic_configs }

unfoldable pub remove_queue_by_arn : BucketNotification → Arn → BucketNotification
unfolding remove_by_arn
remove_queue_by_arn b arn = record b { queue_configs = remove_by_arn arn b.queue_configs }

unfoldable pub remove_lambda_by_arn : BucketNotification → Arn → BucketNotification
unfolding remove_by_arn
remove_lambda_by_arn b arn = record b { lambda_configs = remove_by_arn arn b.lambda_configs }
