-- ===== src/RateLimit/Windows.antt =====
-- The windows of the rate limiter.
use mnemo_api.Prelude.{Text, ℕ, suc, ◌+◌, ◌*◌, ◌/◌, ◌≤◌, ◌<◌, ◌≡◌, refl, arith}
use mnemo_api.RateLimit.{
  Settings, Category, imports, auth, session, read, write, resolve_category_and_limit,
  bucket_and_ttl,
}

abbrev pub limit_of : Settings → Category → ℕ
limit_of s imports = s.rate_limit_import_per_hour
limit_of s auth = s.rate_limit_auth_per_minute
limit_of s session = s.rate_limit_answer_per_minute
limit_of s read = s.rate_limit_read_per_minute
limit_of s write = s.rate_limit_write_per_minute

abbrev pub window_of : Category → ℕ
window_of imports = 3600
window_of auth = 60
window_of session = 60
window_of read = 60
window_of write = 60

-- The limit and the window depend on the category only.
pub resolve-category :
    (upper : Text → Text) (s : Settings) (path method : Text)
    → let (category, limit, window) = resolve_category_and_limit upper s path method in
      (limit ≡ limit_of s category) × (window ≡ window_of category)
unfolding resolve_category_and_limit
resolve-category upper s path method = ground arith

pub bucket-window :
    (category : Category) (now : ℕ)
    → let (bucket, ttl) = bucket_and_ttl (window_of category) now in
      (bucket ≡ now / window_of category)
      × (0 < ttl)
      × (ttl ≤ window_of category)
      × (now + ttl ≡ suc bucket * window_of category)
bucket-window imports now = (refl, omega arith, omega arith, omega arith)
bucket-window auth now = (refl, omega arith, omega arith, omega arith)
bucket-window session now = (refl, omega arith, omega arith, omega arith)
bucket-window read now = (refl, omega arith, omega arith, omega arith)
bucket-window write now = (refl, omega arith, omega arith, omega arith)

-- A time whose bucket is a given one comes before the end of the bucket.
pub before_end :
    (category : Category) (now : ℕ)
    → now < suc ((bucket_and_ttl (window_of category) now).0) * window_of category
before_end category now = let (_, pos, _, e) = bucket-window category now in omega (arith, pos, e)
