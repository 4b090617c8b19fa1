-- ===== src/Retry/Codes.antt =====
-- retry.go: the errors and codes that are retried.
use mefs_sdk_go.Prelude.{ℕ, Bool, true, false, List, [], ◌∷◌, ◌==◌, if◌then◌else◌, any}
use mefs_sdk_go.Prelude.Text.{Text, codes, text_eq}
use mefs_sdk_go.Names.Check.{contains_text}

-- The error inside a `*url.Error`.
pub data InnerError : Type 0 where
  dns_error op_error unknown_network other_inner : InnerError

-- An error of a request: nil, a `*url.Error` with its text, or another.
pub data RequestError : Type 0 where
  no_request_error other_request_error : RequestError
  url_error : InnerError → Text → RequestError

abbrev retryable_texts : List Text
retryable_texts =
    codes "Connection closed by foreign host"
    ∷ codes "net/http: TLS handshake timeout"
    ∷ codes "i/o timeout"
    ∷ codes "connection timed out"
    ∷ codes "net/http: HTTP/1.x transport connection broken"
    ∷ codes "net/http: timeout awaiting response headers"
    ∷ []

abbrev is_network_error : InnerError → Bool
is_network_error other_inner = false
is_network_error _ = true

unfoldable pub is_http_req_error_retryable : RequestError → Bool
unfolding contains_text
is_http_req_error_retryable no_request_error = false
is_http_req_error_retryable other_request_error = false
is_http_req_error_retryable (url_error inner text) =
    if is_network_error inner then true else any (λ t. contains_text text t) retryable_texts

abbrev pub retryable_s3_codes : List Text
retryable_s3_codes =
    codes "RequestError"
    ∷ codes "RequestTimeout"
    ∷ codes "Throttling"
    ∷ codes "ThrottlingException"
    ∷ codes "RequestLimitExceeded"
    ∷ codes "RequestThrottled"
    ∷ codes "InternalError"
    ∷ codes "ExpiredToken"
    ∷ codes "ExpiredTokenException"
    ∷ codes "SlowDown"
    ∷ []

unfoldable pub is_s3_code_retryable : Text → Bool
unfolding text_eq
is_s3_code_retryable s3_code = any (λ k. text_eq k s3_code) retryable_s3_codes

abbrev pub retryable_http_status_codes : List ℕ
retryable_http_status_codes = 429 ∷ 500 ∷ 502 ∷ 503 ∷ 504 ∷ []

unfoldable pub is_http_status_retryable : ℕ → Bool
is_http_status_retryable http_status_code =
    any (λ k. k == http_status_code) retryable_http_status_codes
