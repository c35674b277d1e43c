-- ===== src/RateLimit.antt =====
-- middleware/rate_limit.py and middleware/input_limits.py: what a request must pass before it gets to
-- a route. The Redis client, the hash of API keys and `str.upper` are arguments.
pub mod Redis
pub mod Windows
pub mod Limits
mod Tests
use mnemo_api.Prelude.{
  ltb, ◌==◌, if◌then◌else◌, Text, codes, text_eq, ℕ, ◌+◌, ◌-◌, ◌*◌, ◌/◌, Bool, true, false, not,
  ◌&&◌, ◌||◌, Option, none, some, [], ◌∷◌, ◌++◌,
}

-- `path.startswith(prefix)`
unfoldable pub starts_with : Text → Text → Bool
starts_with [] path = true
starts_with (c ∷ prefix) [] = false
starts_with (c ∷ prefix) (d ∷ path) = (c == d) && starts_with prefix path

-- A path or what stands below it.
abbrev pub is_under : Text → Text → Bool
is_under prefix path = text_eq path prefix || starts_with (prefix ++ codes "/") path

-- The limits of core/config.py.
pub record Settings : Type 0 where
  pub rate_limit_import_per_hour : ℕ
  pub rate_limit_auth_per_minute : ℕ
  pub rate_limit_answer_per_minute : ℕ
  pub rate_limit_read_per_minute : ℕ
  pub rate_limit_write_per_minute : ℕ
  pub max_request_body_bytes : ℕ

pub data Category : Type 0 where
  imports auth session read write : Category

-- `_resolve_category_and_limit`
unfoldable pub resolve_category_and_limit :
    (Text → Text) → Settings → Text → Text → Category × ℕ × ℕ
resolve_category_and_limit upper s path method =
    if is_under (codes "/v1/import") path
    then (imports, s.rate_limit_import_per_hour, 3600)
    else if is_under (codes "/v1/auth") path
    then (auth, s.rate_limit_auth_per_minute, 60)
    else if is_under (codes "/v1/user/provision") path
        || is_under (codes "/v1/admin/provision") path
    then (auth, s.rate_limit_auth_per_minute, 60)
    else if is_under (codes "/v1/sessions") path && not (text_eq (upper method) (codes "GET"))
    then (session, s.rate_limit_answer_per_minute, 60)
    else if text_eq (upper method) (codes "GET")
    then (read, s.rate_limit_read_per_minute, 60)
    else (write, s.rate_limit_write_per_minute, 60)

-- The parts of a key in Redis, which its text puts together.
pub record Key : Type 0 where
  pub category : Category
  pub identifier : Text
  pub bucket : ℕ

-- A Redis client: `eval` of the script with its key and its argument, INCR and EXPIRE, each at a
-- time; no result is an exception.
pub record Client : Type 1 where
  pub State : Type 0
  pub eval : ℕ → Key → ℕ → State → Option (ℕ × State)
  pub incr : ℕ → Key → State → Option (ℕ × State)
  pub expire : ℕ → Key → ℕ → State → Option State

pub record Request : Type 0 where
  pub path : Text
  pub method : Text
  pub api_key : Option Text
  pub client_host : Option Text

-- What becomes of a request: the route answers it, without or with the headers for the limit, what
-- remains and the reset, or it is refused with those for the delay, the limit and the reset.
pub data Verdict : Type 0 where
  unlimited : Verdict
  passed refused : ℕ → ℕ → ℕ → Verdict

unfoldable pub identifier_of : (Text → Text) → Request → Text
identifier_of hash_api_key r = elim r.api_key [
  | none ↦ codes "ip:" ++ elim r.client_host [ none ↦ codes "unknown" | some host ↦ host ]
  | some s ↦
      if text_eq s []
      then codes "ip:" ++ elim r.client_host [ none ↦ codes "unknown" | some host ↦ host ]
      else codes "api:" ++ hash_api_key s
]

-- The bucket of a time, and the seconds that are left of it.
abbrev pub bucket_and_ttl : ℕ → ℕ → ℕ × ℕ
bucket_and_ttl window now =
    if window == 3600
    then (now / 3600, (now / 3600 + 1) * 3600 - now)
    else (now / 60, (now / 60 + 1) * 60 - now)

module _ (c : Client) where
  -- EXPIRE after the first INCR.
  abbrev pub expire_first : ℕ → Key → ℕ → ℕ × c.State → Option ℕ × c.State
  expire_first now key ttl (current, s) =
      if current == 1
      then elim (c.expire now key ttl s) [ none ↦ (none, s) | some s' ↦ (some current, s') ]
      else (some current, s)

  -- The fallback without the script; what is counted stays counted if EXPIRE fails.
  unfoldable pub fallback : ℕ → Key → ℕ → c.State → Option ℕ × c.State
  fallback now key ttl s = elim (c.incr now key s) [
    | none ↦ (none, s)
    | some r ↦ expire_first now key ttl r
  ]

  -- The two nested `try` blocks.
  unfoldable pub count : ℕ → Key → ℕ → c.State → Option ℕ × c.State
  count now key ttl s = elim (c.eval now key ttl s) [
    | none ↦ fallback now key ttl s
    | some (current, s') ↦ (some current, s')
  ]

abbrev pub judge : ℕ → ℕ → ℕ → Option ℕ → Verdict
judge limit now ttl none = unlimited
judge limit now ttl (some current) =
    if ltb limit current
    then refused ttl limit (now + ttl)
    else passed limit (limit - current) (now + ttl)

module _ (upper hash_api_key : Text → Text) (settings : Settings) (c : Client) where
  abbrev pub key_of : ℕ → Request → Key
  key_of now r =
      let (category, limit, window) = resolve_category_and_limit upper settings r.path r.method in
      record {
        category = category;
        identifier = identifier_of hash_api_key r;
        bucket = (bucket_and_ttl window now).0;
      }

  -- `RateLimitMiddleware.dispatch`
  unfoldable pub dispatch : ℕ → Request → c.State → Verdict × c.State
  dispatch now r s =
      let (category, limit, window) = resolve_category_and_limit upper settings r.path r.method in
      let ttl = (bucket_and_ttl window now).1 in
      let (current, s') = count c now (key_of now r) ttl s in (judge limit now ttl current, s')

-- What the Content-Length header holds: nothing, no number, or a number, which may be negative.
pub data ContentLength : Type 0 where
  no_length bad_length negative_length : ContentLength
  of_length : ℕ → ContentLength

-- The status of a refusal, or none if the request goes on.
abbrev pub check_size : ℕ → ContentLength → Option ℕ
check_size limit no_length = none
check_size limit bad_length = some 400
check_size limit negative_length = none
check_size limit (of_length size) = if ltb limit size then some 413 else none

-- `InputSizeLimitMiddleware.dispatch`
unfoldable pub limit_input : Settings → Text → ContentLength → Option ℕ
limit_input settings path content_length =
    if is_under (codes "/v1/import") path
    then none
    else check_size settings.max_request_body_bytes content_length
