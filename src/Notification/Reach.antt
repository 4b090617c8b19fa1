-- ===== src/Notification/Reach.antt =====
-- bucket-notification.go: the notifications that the operations make, as steps.
use mefs_sdk_go.Prelude.{true, false, ◌≡◌, refl, [], ◌∷◌, ◌++◌, inl, inr, ◌⊎◌}
use mefs_sdk_go.Notification.Config.{Arn, NotificationConfig}
use mefs_sdk_go.Notification.Bucket.{
  BucketNotification, add_topic, add_queue, add_lambda, remove_topic_by_arn, remove_queue_by_arn,
  remove_lambda_by_arn,
}
use mefs_sdk_go.Notification.Distinct.{
  Clear, as_target, IsDistinct, add_target_cases, add_target-IsDistinct, remove_by_arn-IsDistinct,
  add_target-remove_by_arn,
}

abbrev pub empty_notification : BucketNotification
empty_notification = record { lambda_configs = []; topic_configs = []; queue_configs = [] }

-- The notifications that calls make from the empty one.
pub data Reachable : BucketNotification → Type 0 where
  start : Reachable empty_notification
  topic_added :
      (b : BucketNotification) (c : NotificationConfig) → Reachable b → Reachable (add_topic b c).0
  queue_added :
      (b : BucketNotification) (c : NotificationConfig) → Reachable b → Reachable (add_queue b c).0
  lambda_added :
      (b : BucketNotification) (c : NotificationConfig) → Reachable b → Reachable (add_lambda b c).0
  topic_removed :
      (b : BucketNotification) (arn : Arn) → Reachable b → Reachable (remove_topic_by_arn b arn)
  queue_removed :
      (b : BucketNotification) (arn : Arn) → Reachable b → Reachable (remove_queue_by_arn b arn)
  lambda_removed :
      (b : BucketNotification) (arn : Arn) → Reachable b → Reachable (remove_lambda_by_arn b arn)

abbrev pub IsConsistent : BucketNotification → Type 0
IsConsistent b =
    IsDistinct b.lambda_configs × IsDistinct b.topic_configs × IsDistinct b.queue_configs

-- In every notification that calls of the six operations make from the empty one, each config stands
-- under the text of its ARN, and no two topic configs, queue configs or lambda configs have one ARN
-- text, one pointer to a filter and an event in common.
pub Reachable-IsConsistent : (b : BucketNotification) → Reachable b → IsConsistent b
unfolding add_topic add_queue add_lambda remove_topic_by_arn remove_queue_by_arn
    remove_lambda_by_arn
Reachable-IsConsistent _ start = (tt, tt, tt)
Reachable-IsConsistent _ (topic_added b c r) =
    let (l, t, q) = Reachable-IsConsistent b r in (l, add_target-IsDistinct c _ t, q)
Reachable-IsConsistent _ (queue_added b c r) =
    let (l, t, q) = Reachable-IsConsistent b r in (l, t, add_target-IsDistinct c _ q)
Reachable-IsConsistent _ (lambda_added b c r) =
    let (l, t, q) = Reachable-IsConsistent b r in (add_target-IsDistinct c _ l, t, q)
Reachable-IsConsistent _ (topic_removed b arn r) =
    let (l, t, q) = Reachable-IsConsistent b r in (l, remove_by_arn-IsDistinct arn _ t, q)
Reachable-IsConsistent _ (queue_removed b arn r) =
    let (l, t, q) = Reachable-IsConsistent b r in (l, t, remove_by_arn-IsDistinct arn _ q)
Reachable-IsConsistent _ (lambda_removed b arn r) =
    let (l, t, q) = Reachable-IsConsistent b r in (remove_by_arn-IsDistinct arn _ l, t, q)

-- `AddTopic` either answers false and changes nothing, when a topic config has the ARN text, the
-- pointer and an event of the new config, or answers true and appends it, when none has; after
-- `RemoveTopicByArn` of the config's ARN it always answers true.
pub add_topic_cases :
    (b : BucketNotification) (c : NotificationConfig)
    → (((add_topic b c ≡ (b, false)) × (¬ Clear (as_target c) b.topic_configs))
        ⊎ ((add_topic b c
              ≡ (record b { topic_configs = b.topic_configs ++ as_target c ∷ [] }, true))
            × Clear (as_target c) b.topic_configs))
      × ((add_topic (remove_topic_by_arn b c.arn) c).1 ≡ true)
unfolding add_topic remove_topic_by_arn
add_topic_cases b c = (
  elim (add_target_cases c b.topic_configs) [
    | inl (e, found) ↦ inl (rw e refl, found)
    | inr (e, clear) ↦ inr (rw e refl, clear)
  ],
  rw (add_target-remove_by_arn c b.topic_configs) refl,
)
