-- ===== src/Notification/Config.antt =====
-- bucket-notification.go: the event names, the filters and `NotificationConfig`.
-- A config holds a pointer to its filter, and a config that is copied shares it: filters stand in a
-- store, a pointer is an address of the store or nil (`none`). An event type is its text.
use mefs_sdk_go.Prelude.{ℕ, ◌+◌, ◌==◌, Option, none, some, List, [], ◌∷◌, ◌++◌, if◌then◌else◌}
use mefs_sdk_go.Prelude.Text.{Text, codes, text_eq}

abbrev pub object_created_all : Text
object_created_all = codes "s3:ObjectCreated:*"

abbrev pub object_created_put : Text
object_created_put = codes "s3:ObjectCreated:Put"

abbrev pub object_created_post : Text
object_created_post = codes "s3:ObjectCreated:Post"

abbrev pub object_created_copy : Text
object_created_copy = codes "s3:ObjectCreated:Copy"

abbrev pub object_created_complete_multipart_upload : Text
object_created_complete_multipart_upload = codes "s3:ObjectCreated:CompleteMultipartUpload"

abbrev pub object_accessed_get : Text
object_accessed_get = codes "s3:ObjectAccessed:Get"

abbrev pub object_accessed_head : Text
object_accessed_head = codes "s3:ObjectAccessed:Head"

abbrev pub object_accessed_all : Text
object_accessed_all = codes "s3:ObjectAccessed:*"

abbrev pub object_removed_all : Text
object_removed_all = codes "s3:ObjectRemoved:*"

abbrev pub object_removed_delete : Text
object_removed_delete = codes "s3:ObjectRemoved:Delete"

abbrev pub object_removed_delete_marker_created : Text
object_removed_delete_marker_created = codes "s3:ObjectRemoved:DeleteMarkerCreated"

abbrev pub object_reduced_redundancy_lost_object : Text
object_reduced_redundancy_lost_object = codes "s3:ReducedRedundancyLostObject"

pub record FilterRule : Type 0 where
  pub name : Text
  pub value : Text

pub record S3Key : Type 0 where
  pub filter_rules : List FilterRule

pub record Filter : Type 0 where
  pub s3_key : S3Key

-- The filters at their addresses; `next` is the address that the next `&Filter{}` gets.
pub record Store : Type 0 where
  pub next : ℕ
  pub filter_at : ℕ → Filter

pub record Arn : Type 0 where
  pub partition : Text
  pub service : Text
  pub region : Text
  pub account_id : Text
  pub resource : Text

abbrev pub new_arn : Text → Text → Text → Text → Text → Arn
new_arn partition service region account_id resource = record {
  partition = partition;
  service = service;
  region = region;
  account_id = account_id;
  resource = resource;
}

abbrev colon : Text
colon = codes ":"

-- `Arn.String`
unfoldable pub arn_string : Arn → Text
arn_string arn =
    codes "arn:"
    ++ (arn.partition
        ++ (colon
            ++ (arn.service
                ++ (colon
                    ++ (arn.region ++ (colon ++ (arn.account_id ++ (colon ++ arn.resource))))))))

pub record NotificationConfig : Type 0 where
  pub id : Text
  pub arn : Arn
  pub events : List Text
  pub filter : Option ℕ

abbrev pub empty_filter : Filter
empty_filter = record { s3_key = record { filter_rules = [] } }

-- the filter of an address gets another value
unfoldable pub write_filter : Store → ℕ → Filter → Store
write_filter store a f = record store { filter_at = λ b. if b == a then f else store.filter_at b }

-- `&Filter{}`
unfoldable pub new_filter : Store → Store × ℕ
unfolding write_filter
new_filter store =
    (record (write_filter store store.next empty_filter) { next = store.next + 1 }, store.next)

unfoldable pub new_notification_config : Store → Arn → Store × NotificationConfig
unfolding new_filter
new_notification_config store arn =
    let (store', a) = new_filter store in
    (store', record { id = []; arn = arn; events = []; filter = some a })

-- `AddEvents`
unfoldable pub add_events : NotificationConfig → List Text → NotificationConfig
add_events t new_events = record t { events = t.events ++ new_events }

-- the loop over the rules, with the `append` after it: a rule of the same name is replaced
unfoldable pub set_rule : FilterRule → List FilterRule → List FilterRule
set_rule new_rule [] = new_rule ∷ []
set_rule new_rule (rule ∷ rules) =
    let later = set_rule new_rule rules in
    if text_eq rule.name new_rule.name then new_rule ∷ rules else rule ∷ later

-- `if t.Filter == nil { t.Filter = &Filter{} }`
unfoldable pub filter_of : Store → Option ℕ → Store × ℕ
unfolding new_filter
filter_of store none = new_filter store
filter_of store (some a) = (store, a)

-- what `AddFilterSuffix` and `AddFilterPrefix` do with their rule
unfoldable pub add_filter_rule :
    FilterRule → Store → NotificationConfig → Store × NotificationConfig
unfolding filter_of write_filter set_rule
add_filter_rule new_rule store t =
    let (store', a) = filter_of store t.filter in
    let rules = (store'.filter_at a).s3_key.filter_rules in
    let filled : Filter = record { s3_key = record { filter_rules = set_rule new_rule rules } } in
    (write_filter store' a filled, record t { filter = some a })

unfoldable pub add_filter_suffix : Text → Store → NotificationConfig → Store × NotificationConfig
unfolding add_filter_rule
add_filter_suffix suffix = add_filter_rule (record { name = codes "suffix"; value = suffix })

unfoldable pub add_filter_prefix : Text → Store → NotificationConfig → Store × NotificationConfig
unfolding add_filter_rule
add_filter_prefix prefix = add_filter_rule (record { name = codes "prefix"; value = prefix })
