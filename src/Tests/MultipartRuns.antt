-- ===== src/Tests/MultipartRuns.antt =====
-- api-put-object-multipart.go, api-put-object.go: instances of the theorems and a run.
use mefs_sdk_go.Prelude.{◌≡◌, refl, List, [], none, inl, inr, arith}
use mefs_sdk_go.Prelude.Text.{Text, codes, text_eq, index, split, has_prefix, has_suffix}
use mefs_sdk_go.Names.Runes.{
  rune_width, rune_at, runes_after, runes, raw_rune, valid_string, is_space, trim_left, trim_right,
  joined, trim_space,
}
use mefs_sdk_go.Names.Encode.{is_alphanumeric}
use mefs_sdk_go.Names.Check.{
  check_valid_bucket_name, check_bucket_name_common, contains_text, is_digit, are_digits,
  are_four_numbers, is_ip_address, ends_with, matches_name, is_inner_byte, valid_bucket_name,
  has_bad_neighbours, check_valid_object_name, check_valid_object_name_prefix,
}
use mefs_sdk_go.Upload.PartInfo.{
  info, optimal_part_info, known_part_info, default_part_info, part_counts,
}
use mefs_sdk_go.Upload.Multipart.Session.{ErrorResponse, Server, check_names, trim_quotes}
use mefs_sdk_go.Upload.Multipart.Upload.{
  put_object_multipart_no_stream, put_object_multipart_stream_no_length,
}
use mefs_sdk_go.Upload.Multipart.Settled.{SettledBy, put_object_multipart_settles}
use mefs_sdk_go.Upload.Multipart.Rounds.{ended}
use mefs_sdk_go.Upload.Multipart.Whole.{upload_log}
use mefs_sdk_go.Upload.Multipart.Accepted.{Whole, WholeOrEmpty, put_object_multipart_accepted}

abbrev pub bucket : Text
bucket = codes "bucket"

abbrev pub object : Text
object = codes "a/b"

pub names_accepted : check_names bucket object ≡ none
unfolding check_names check_valid_bucket_name check_bucket_name_common is_ip_address
    are_four_numbers are_digits is_digit split trim_space joined trim_left trim_right raw_rune
    is_space text_eq runes runes_after rune_width rune_at has_bad_neighbours contains_text index
    has_prefix valid_bucket_name matches_name ends_with is_inner_byte is_alphanumeric
    check_valid_object_name check_valid_object_name_prefix valid_string
names_accepted = refl

-- A server that takes every request.
abbrev pub willing : Server
willing = record {
  answer_initiate = λ log. inr (codes "id");
  answer_part = λ log. inr (codes "\"tag\"");
  answer_complete = λ log. none;
}

abbrev denied : ErrorResponse
denied = record { code = codes "AccessDenied"; message = codes "Access Denied" }

-- A server that refuses every part.
abbrev unwilling : Server
unwilling = record willing { answer_part = λ log. inl denied }

chosen_parts : optimal_part_info none 0 ≡ info 8192 671088640 671088640
unfolding optimal_part_info known_part_info default_part_info part_counts
chosen_parts = refl

put_object_multipart_settles_example :
    SettledBy [] (put_object_multipart_no_stream unwilling bucket object 0 (ended (codes "abc")) [])
    × SettledBy []
        (put_object_multipart_stream_no_length unwilling bucket object 0 (ended (codes "abc")) [])
put_object_multipart_settles_example =
    put_object_multipart_settles unwilling bucket object 0 (ended (codes "abc")) [] names_accepted

put_object_multipart_accepted_example :
    ((bs : List Text) × Whole 671088640 bs (codes "abc")
      × (put_object_multipart_no_stream willing bucket object 0 (ended (codes "abc")) []
          ≡ (upload_log (λ l. codes "\"tag\"") (codes "id") [] bs, 3, none)))
    × ((bs : List Text) × WholeOrEmpty 671088640 bs (codes "abc")
        × (put_object_multipart_stream_no_length willing bucket object 0 (ended (codes "abc")) []
            ≡ (upload_log (λ l. codes "\"tag\"") (codes "id") [] bs, 3, none)))
put_object_multipart_accepted_example =
    put_object_multipart_accepted willing bucket object (codes "id") (λ l. codes "\"tag\"") 0 8192
      671088640 671088640 (codes "abc") [] names_accepted (λ e. cc e) (λ l. refl) (λ l. refl) refl
      chosen_parts (omega arith)

quotes_trimmed : trim_quotes (codes "\"tag\"") ≡ codes "tag"
unfolding trim_quotes has_prefix has_suffix text_eq
quotes_trimmed = refl
