-- ===== src/Enrollment/Http.antt =====
-- One call of the control plane.
use trustplane_auth_sdk_pyth.Base.{
  ℕ, ◌+◌, ◌-◌, ◌*◌, Bool, true, false, not, ◌&&◌, ◌||◌, Option, none, some, List, [], ◌∷◌, ◌++◌,
  Text, Bytes, all, length, ltb, leb, between, ◌==◌, if◌then◌else◌, Result, ok, err,
}
use trustplane_auth_sdk_pyth.Base.Int.{ℤ, pos, negsuc, ◌-ℤ◌}
use trustplane_auth_sdk_pyth.Text.{codes, text_eq, is_empty, strip}
use trustplane_auth_sdk_pyth.Json.{Json, str, dict, Fields, get}
use trustplane_auth_sdk_pyth.Platform.{Platform, ParsedUrl}
use trustplane_auth_sdk_pyth.Profile.{rstrip_slashes}
use trustplane_auth_sdk_pyth.Enrollment.Environment.{
  Failure, enrollment_error, value_error, Environment, HttpResponse, HttpRequest, Reply, response,
  timeout_error, os_error, Action, return, raise, pure, ◌>>=◌, ◌>>◌, raise_when, plain_error,
}

abbrev pub enrollment_challenge_path : Text
enrollment_challenge_path = codes "/v1/public/enrollment/challenges"

abbrev pub enrollment_submission_path : Text
enrollment_submission_path = codes "/v1/public/enrollment/submissions"

abbrev pub enrollment_status_path : Text
enrollment_status_path = codes "/v1/public/enrollment/status/"

abbrev pub max_enrollment_response_bytes : ℕ
max_enrollment_response_bytes = 1_048_576

abbrev is_present : Option Text → Bool
is_present none = false
is_present (some t) = true

abbrev is_code_char : ℕ → Bool
is_code_char c = between b'a' b'z' c || between b'0' b'9' c || c == b'_' || c == b'-'

-- `isinstance(value, str) and re.fullmatch(r"[a-z0-9_-]{1,96}", value)`
unfoldable pub is_safe_code : Json → Bool
is_safe_code (str s) = leb 1 (length s) && leb (length s) 96 && all is_code_char s
is_safe_code _ = false

abbrev text_or : Json → Text → Text
text_or (str s) default = s
text_or _ default = default

-- The code of a decoded refusal.
unfoldable pub remote_code : Json → Text
unfolding is_safe_code get
remote_code (dict decoded) =
    if is_safe_code (get (codes "code") decoded)
    then text_or (get (codes "code") decoded) []
    else if is_safe_code (get (codes "error") decoded)
    then text_or (get (codes "error") decoded) []
    else codes "control_enrollment_failed"
remote_code _ = codes "control_enrollment_failed"

-- `float(min(max(seconds, 0), 86_400))`
abbrev pub clamp_seconds : ℤ → ℕ
clamp_seconds (pos n) = (if leb n 86_400 then n else 86_400) * 1_000_000
clamp_seconds (negsuc n) = 0

-- `max(0.0, difference)`
abbrev pub not_negative : ℤ → ℕ
not_negative (pos n) = n
not_negative (negsuc n) = 0

abbrev is_bad_control : ParsedUrl → Bool
is_bad_control u =
    not (text_eq u.scheme (codes "https"))
    || is_empty u.netloc
    || is_present u.username
    || is_present u.password
    || not (is_empty u.query)
    || not (is_empty u.fragment)

-- A `ValueError` of `urlparse`.
abbrev pub value_errors {ℓ} : {A : Type ℓ} → Result Text A → Result Failure A
value_errors (ok a) = ok a
value_errors (err message) = err (value_error message)

-- The value that a response with a status of the 200s carries.
unfoldable pub decoded_of : Option Json → Result Failure Fields
decoded_of (some (dict decoded)) = ok decoded
decoded_of _ = err (plain_error (codes "control_response_invalid"))

-- The headers of a call.
abbrev pub call_headers : Option Bytes → Text → List (Text × Text)
call_headers body capability =
    (codes "Accept", codes "application/json")
    ∷ (elim body [ none ↦ [] | some b ↦ (codes "Content-Type", codes "application/json") ∷ [] ]
        ++ (if is_empty capability
            then []
            else (codes "Authorization", codes "Bearer " ++ capability) ∷ []))

module _ ⦃p : Platform⦄ where
  open p use {lower, json_loads_bytes, json_dumps_ascii}

  -- `_safe_remote_code`.
  unfoldable pub safe_remote_code : Bytes → Text
  unfolding remote_code
  safe_remote_code raw = elim (json_loads_bytes raw) [
    | none ↦ codes "control_enrollment_failed"
    | some decoded ↦ remote_code decoded
  ]

  -- `_header` of enrollment.py.
  unfoldable pub response_header : List (Text × Text) → Text → Text
  response_header [] wanted = []
  response_header ((name, value) ∷ headers) wanted =
      if text_eq (lower name) (lower wanted) then value else response_header headers wanted

  abbrev pub body_of : Option Json → Option Bytes
  body_of none = none
  body_of (some value) = some (json_dumps_ascii value)

abbrev throttled : {W : Type 0} {A : Type 0} → ℕ → Action W A
throttled delay = raise (enrollment_error (codes "enrollment_status_poll_throttled") 429 delay)

module _ {W : Type 0} ⦃p : Platform⦄ ⦃e : Environment W⦄ where
  open p use {urlparse, urlunparse, json_loads_bytes, parse_int, parse_http_date}
  open e use {monotonic, utc_now, sleep, transport}

  -- `_control_url`.
  unfoldable pub control_url : Text → Action W Text
  unfolding rstrip_slashes
  control_url raw = do
    parsed ← pure (value_errors (urlparse (strip raw)))
    raise_when (is_bad_control parsed) (plain_error (codes "invalid_control_url"))
    return (urlunparse parsed.scheme parsed.netloc (rstrip_slashes parsed.path) [] [] [])

  -- `_endpoint`.
  unfoldable pub endpoint : Text → Text → Action W Text
  unfolding rstrip_slashes
  endpoint base path = do
    parsed ← pure (value_errors (urlparse base))
    return (urlunparse parsed.scheme parsed.netloc (rstrip_slashes parsed.path ++ path) [] [] [])

  -- `self._monotonic()`
  unfoldable pub read_clock : Action W ℕ
  read_clock w = (ok (monotonic w).0, (monotonic w).1)

  -- `self._transport(...)`
  unfoldable pub send : HttpRequest → ℕ → Action W Reply
  send request timeout w = (ok (transport request timeout w).0, (transport request timeout w).1)

  -- `self._sleep(delay)`
  unfoldable pub pause : ℕ → Action W (Unit {0})
  pause delay w = (ok tt, sleep delay w)

  -- The delay that a number of seconds or a date stands for.
  unfoldable pub delay_of : Option ℤ → Option ℤ → Action W ℕ
  delay_of (some seconds) date = return (clamp_seconds seconds)
  delay_of none none = return 0
  delay_of none (some date) = λ w. (ok (not_negative (date -ℤ (utc_now w).0)), (utc_now w).1)

  -- `_retry_after`.
  unfoldable pub retry_after : Text → Action W ℕ
  unfolding delay_of
  retry_after value = delay_of (parse_int value) (parse_http_date value)

  -- The part of `_json` that reads a response.
  unfoldable pub read_response : HttpResponse → Action W Fields
  unfolding decoded_of safe_remote_code response_header
  read_response r =
      if ltb max_enrollment_response_bytes (length r.body)
      then raise (plain_error (codes "control_response_invalid"))
      else if between 200 299 r.status
      then pure (decoded_of (json_loads_bytes r.body))
      else if r.status == 429
      then (retry_after (response_header r.headers (codes "Retry-After")) >>= throttled)
      else if leb 500 r.status
      then raise (enrollment_error (codes "control_transient_failure") r.status 0)
      else raise (enrollment_error (safe_remote_code r.body) r.status 0)

  unfoldable pub read_reply : Reply → Action W Fields
  unfolding read_response
  read_reply (response r) = read_response r
  read_reply timeout_error = raise (plain_error (codes "enrollment_timeout"))
  read_reply os_error = raise (plain_error (codes "control_unavailable"))

  -- `_json`.
  unfoldable pub call_json : Text → Text → Text → Option Json → Text → ℕ → Action W Fields
  unfolding read_reply read_clock send endpoint
  call_json method base path value capability deadline = do
    now ← read_clock
    raise_when (leb deadline now) (plain_error (codes "enrollment_timeout"))
    url ← endpoint base path
    let request : HttpRequest = record {
      method = method;
      url = url;
      headers = call_headers (body_of value) capability;
      body = body_of value;
    }
    reply ← send request (deadline - now)
    read_reply reply

  -- `_wait`.
  unfoldable pub wait : ℕ → ℕ → Action W (Unit {0})
  unfolding read_clock pause
  wait delay deadline = do
    now ← read_clock
    raise_when (ltb deadline (now + delay)) (plain_error (codes "enrollment_timeout"))
    pause delay
