-- ===== src/Gateway/Retry/Errors.antt =====
-- The upstream errors that a request of src/gateway.rs reads, by its turns and its keys alone.
use orihsus.Prelude.{
  ℕ, String, Bool, ◌||◌, Option, none, some, List, [], ◌∷◌, ◌==◌, leb, ltb, ◌&&◌, if◌then◌else◌,
  Result, ok, err,
}
use orihsus.Gateway.Upstream.{ConsumedResponse, consume_classify_body}
use orihsus.Gateway.Retry.{Sent, header_timeout, send_failed, replied, Turn, RequestContext}

-- The statuses that are tried again: 429, 401, 403 and 5xx.
abbrev pub is_error_status : ℕ → Bool
is_error_status status =
    status == 429 || (status == 401 || status == 403) || (leb 500 status && ltb status 600)

-- An error with the key that it answers.
abbrev pub ReadError : Type 0
ReadError = ConsumedResponse × String

abbrev pub kept_of : String → Result ConsumedResponse (Unit {0}) → Option ReadError
kept_of fingerprint (err e) = none
kept_of fingerprint (ok c) = some (c, fingerprint)

abbrev pub or_keep : Option ReadError → Option ReadError → Option ReadError
or_keep none kept = kept
or_keep (some error) kept = some error

module _ (ctx : RequestContext) where
  -- The error that a turn reads with its key: a response of such a status whose body could be read.
  abbrev pub error_in : Turn → String → Sent → Option ReadError
  error_in t fingerprint header_timeout = none
  error_in t fingerprint send_failed = none
  error_in t fingerprint (replied resp) =
      if is_error_status resp.status
      then kept_of fingerprint (
          consume_classify_body resp t.replied_now ctx.upstream_error_body t.attempt_start
            ctx.request_start)
      else none

  -- The last error of a request whose turns were given these keys, one each, behind `before`.
  unfoldable pub last_error : Option ReadError → List Turn → List String → Option ReadError
  last_error before [] fingerprints = before
  last_error before (t ∷ ts) [] = before
  last_error before (t ∷ ts) (fingerprint ∷ fingerprints) =
      last_error (or_keep (error_in t fingerprint t.sent) before) ts fingerprints
