-- ===== src/Tests/FormRuns.antt =====
-- post-policy.go, retry.go: runs and instances.
use mefs_sdk_go.Prelude.{◌++◌, ℕ, ◌≤◌, ◌*◌, true, false, ◌≡◌, refl, [], ◌∷◌, ◌⊎◌, Option, arith}
use mefs_sdk_go.Prelude.Text.{codes, text_eq, index, has_prefix}
use mefs_sdk_go.Prelude.Int.{pos, ◌-ℤ◌}
use mefs_sdk_go.Map.{insert}
use mefs_sdk_go.Names.Runes.{
  rune_width, rune_at, runes_after, runes, raw_rune, is_space, trim_left, trim_right, joined,
  trim_space,
}
use mefs_sdk_go.Names.Check.{contains_text}
use mefs_sdk_go.GetOptions.{decimal, decimal_digits}
use mefs_sdk_go.PostPolicy.{
  PostPolicy, new_post_policy, set_key, set_content_length_range, is_blank, set_field, store_field,
  add_new_policy, marshal_json, condition_text, condition_texts, length_range_texts, join_texts,
}
use mefs_sdk_go.PostPolicy.Fields.{
  key, user_data, perform_setter, fresh, set, IsConsistent, Keeps, Reachable-Keeps,
}
use mefs_sdk_go.Retry.Codes.{
  url_error, other_inner, is_http_req_error_retryable, is_s3_code_retryable,
}
use mefs_sdk_go.Retry.Backoff.{
  IsBounded, default_retry_unit, default_retry_cap, capped, exponential_backoff_wait,
  exponential_backoff_wait_continous, exponential_backoff_wait-IsBounded,
}
use mefs_sdk_go.Retry.Timer.{
  TimerState, closed, next_round, RetryStep, sent, woken, RetryRun, here, step, start, numbers,
  RetryRun-ends,
}

-- without conditions the comma after the expiration stays
no_conditions :
    marshal_json new_post_policy ≡ codes "{\"expiration\":\"0001-01-01T00:00:00Z\"," ++ codes "}"
unfolding marshal_json condition_texts length_range_texts join_texts
no_conditions = refl

-- a quote in a value ends the string of the condition
quote_in_value :
    marshal_json (set_key (codes "a\"b") new_post_policy).0
    ≡ codes "{\"expiration\":\"0001-01-01T00:00:00Z\",\"conditions\":[[\"eq\",\"$key\",\"a\"b\"]]}"
unfolding marshal_json condition_text condition_texts length_range_texts join_texts set_key is_blank
    set_field store_field add_new_policy insert trim_space joined trim_left trim_right raw_rune
    is_space text_eq runes runes_after rune_width rune_at
quote_in_value = refl

length_range_printed :
    marshal_json (set_content_length_range (pos 1) (pos 1024) new_post_policy).0
    ≡ codes
        "{\"expiration\":\"0001-01-01T00:00:00Z\",\"conditions\":[[\"content-length-range\", 1, 1024]]}"
unfolding marshal_json condition_texts length_range_texts join_texts set_content_length_range
    decimal decimal_digits
length_range_printed = refl

abbrev keyed : PostPolicy
keyed = (perform_setter (key (codes "a")) new_post_policy).0

Reachable-Keeps_example :
    IsConsistent keyed × Keeps keyed (perform_setter (user_data (codes "k") (codes "v")) keyed)
Reachable-Keeps_example =
    Reachable-Keeps keyed (user_data (codes "k") (codes "v"))
      (set (key (codes "a")) new_post_policy fresh)

retried : is_http_req_error_retryable (url_error other_inner (codes "Get: i/o timeout")) ≡ true
unfolding is_http_req_error_retryable contains_text index has_prefix
retried = refl

not_retried : is_s3_code_retryable (codes "NoSuchKey") ≡ false
unfolding is_s3_code_retryable text_eq
not_retried = refl

fifth_wait :
    exponential_backoff_wait (λ s. pos 0) default_retry_unit default_retry_cap 5 ≡ pos 30000000000
unfolding exponential_backoff_wait capped ◌-ℤ◌
fifth_wait = refl

-- without a bound on the attempt the product wraps around
wrapped_wait : capped default_retry_unit default_retry_cap 64 ≡ pos 0
unfolding capped
wrapped_wait = refl

exponential_backoff_wait-IsBounded_example :
    IsBounded default_retry_cap
      (exponential_backoff_wait_continous (λ s. pos 0) default_retry_unit default_retry_cap 1000)
exponential_backoff_wait-IsBounded_example =
    exponential_backoff_wait-IsBounded (λ s. pos 0) default_retry_unit default_retry_cap 1000
      (λ s h. (omega arith, h)) (omega arith)

one_retry : RetryRun 1 (start 1) 2 (1 ∷ []) closed
unfolding next_round
one_retry = step (sent 0) (step (woken 0) (here closed))

RetryRun-ends_example :
    (2 ≤ 2 * 1)
    × ((1 ∷ []) ≡ numbers 0 1)
    × (1 ≤ 1)
    × ((closed ≡ closed) ⊎ ((o : Option ℕ) × (t : TimerState) × RetryStep 1 closed o t))
RetryRun-ends_example = RetryRun-ends 1 2 (1 ∷ []) closed one_retry
