-- ===== src/PostPolicy.antt =====
-- post-policy.go: the policy of an upload by a form.
-- A time is whether it is the zero time, and its text in `expirationDateFormat`. The setters return the
-- policy that they change, and their error. `base64` is the standard library's encoding of the result
-- of `marshal_json`.
pub mod Fields
use mefs_sdk_go.Prelude.{
  ℕ, ◌+◌, Bool, true, false, not, ◌&&◌, ◌||◌, List, [], ◌∷◌, ◌++◌, ◌==◌, if◌then◌else◌, length,
  Option, none, some,
}
use mefs_sdk_go.Prelude.Text.{Text, codes}
use mefs_sdk_go.Prelude.Int.{ℤ, pos, ltb_ℤ}
use mefs_sdk_go.Map.{Map, insert}
use mefs_sdk_go.Names.Runes.{trim_space}
use mefs_sdk_go.GetOptions.{decimal}

pub record Time : Type 0 where
  pub is_zero : Bool
  pub text : Text

pub record PolicyCondition : Type 0 where
  pub match_type : Text
  pub condition : Text
  pub value : Text

pub record PostPolicy : Type 0 where
  pub expiration : Time
  pub conditions : List PolicyCondition
  pub min_length : ℤ
  pub max_length : ℤ
  pub form_data : Map Text

-- The zero time prints as the first of January of the year 1.
abbrev pub zero_time : Time
zero_time = record { is_zero = true; text = codes "0001-01-01T00:00:00Z" }

abbrev pub new_post_policy : PostPolicy
new_post_policy = record {
  expiration = zero_time;
  conditions = [];
  min_length = pos 0;
  max_length = pos 0;
  form_data = [];
}

unfoldable pub set_expires : Time → PostPolicy → PostPolicy × Option Text
set_expires t p =
    if t.is_zero
    then (p, some (codes "No expiry time set."))
    else (record p { expiration = t }, none)

-- `addNewPolicy`
unfoldable pub add_new_policy : PolicyCondition → PostPolicy → PostPolicy × Option Text
add_new_policy c p =
    if length c.match_type == 0 || length c.condition == 0 || length c.value == 0
    then (p, some (codes "Policy fields are empty."))
    else (record p { conditions = p.conditions ++ c ∷ [] }, none)

-- the field of the form, once the condition was added
unfoldable pub store_field : Text → Text → PostPolicy × Option Text → PostPolicy × Option Text
store_field name value (p, some e) = (p, some e)
store_field name value (p, none) = (record p { form_data = insert p.form_data name value }, none)

-- the end of each setter: the condition on `$name`, and the field `name` of the form
unfoldable pub set_field : Text → Text → Text → PostPolicy → PostPolicy × Option Text
set_field match_type name value p = store_field name value (
    add_new_policy
      (record { match_type = match_type; condition = codes "$" ++ name; value = value }) p)

-- the first test of the setters
unfoldable pub is_blank : Text → Bool
unfolding trim_space
is_blank s = length (trim_space s) == 0 || length s == 0

abbrev eq : Text
eq = codes "eq"

unfoldable pub set_key : Text → PostPolicy → PostPolicy × Option Text
set_key key p =
    if is_blank key
    then (p, some (codes "Object name is empty."))
    else set_field eq (codes "key") key p

unfoldable pub set_key_starts_with : Text → PostPolicy → PostPolicy × Option Text
set_key_starts_with key p =
    if is_blank key
    then (p, some (codes "Object prefix is empty."))
    else set_field (codes "starts-with") (codes "key") key p

unfoldable pub set_bucket : Text → PostPolicy → PostPolicy × Option Text
set_bucket bucket_name p =
    if is_blank bucket_name
    then (p, some (codes "Bucket name is empty."))
    else set_field eq (codes "bucket") bucket_name p

unfoldable pub set_content_type : Text → PostPolicy → PostPolicy × Option Text
set_content_type content_type p =
    if is_blank content_type
    then (p, some (codes "No content type specified."))
    else set_field eq (codes "Content-Type") content_type p

unfoldable pub set_content_length_range : ℤ → ℤ → PostPolicy → PostPolicy × Option Text
set_content_length_range min max p =
    if ltb_ℤ max min
    then (p, some (codes "Minimum limit is larger than maximum limit."))
    else if ltb_ℤ min (pos 0)
    then (p, some (codes "Minimum limit cannot be negative."))
    else if ltb_ℤ max (pos 0)
    then (p, some (codes "Maximum limit cannot be negative."))
    else (record p { min_length = min; max_length = max }, none)

unfoldable pub set_success_status_action : Text → PostPolicy → PostPolicy × Option Text
set_success_status_action status p =
    if is_blank status
    then (p, some (codes "Status is empty"))
    else set_field eq (codes "success_action_status") status p

unfoldable pub set_user_metadata : Text → Text → PostPolicy → PostPolicy × Option Text
set_user_metadata key value p =
    if is_blank key
    then (p, some (codes "Key is empty"))
    else if is_blank value
    then (p, some (codes "Value is empty"))
    else set_field eq (codes "x-amz-meta-" ++ key) value p

unfoldable pub set_user_data : Text → Text → PostPolicy → PostPolicy × Option Text
set_user_data key value p =
    if length key == 0
    then (p, some (codes "Key is empty"))
    else if length value == 0
    then (p, some (codes "Value is empty"))
    else set_field eq (codes "x-amz-" ++ key) value p

abbrev quoted : Text → Text
quoted s = codes "\"" ++ (s ++ codes "\"")

-- `["%s","%s","%s"]`
unfoldable pub condition_text : PolicyCondition → Text
condition_text c =
    codes "["
    ++ (quoted c.match_type
        ++ (codes "," ++ (quoted c.condition ++ (codes "," ++ (quoted c.value ++ codes "]")))))

unfoldable pub condition_texts : List PolicyCondition → List Text
unfolding condition_text
condition_texts [] = []
condition_texts (c ∷ l) = condition_text c ∷ condition_texts l

abbrev is_not_zero : ℤ → Bool
is_not_zero n = ltb_ℤ n (pos 0) || ltb_ℤ (pos 0) n

-- `["content-length-range", %d, %d]`, where a bound is not 0
unfoldable pub length_range_texts : PostPolicy → List Text
unfolding decimal
length_range_texts p =
    if is_not_zero p.min_length || is_not_zero p.max_length
    then (codes "[\"content-length-range\", "
        ++ (decimal p.min_length ++ (codes ", " ++ (decimal p.max_length ++ codes "]"))))
      ∷ []
    else []

-- strings.Join with a comma
unfoldable pub join_texts : List Text → Text
join_texts [] = []
join_texts (s ∷ []) = s
join_texts (s ∷ t ∷ l) = s ++ (codes "," ++ join_texts (t ∷ l))

unfoldable pub marshal_json : PostPolicy → Text
unfolding condition_texts length_range_texts join_texts
marshal_json p =
    let texts = condition_texts p.conditions ++ length_range_texts p in
    let conditions_str =
      if length texts == 0
      then []
      else codes "\"conditions\":[" ++ (join_texts texts ++ codes "]") in
    codes "{"
    ++ (codes "\"expiration\":"
        ++ (quoted p.expiration.text ++ (codes "," ++ (conditions_str ++ codes "}"))))
