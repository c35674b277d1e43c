-- ===== src/RateLimit/Redis.antt =====
-- What the rate limiter relies on in Redis.
use mnemo_api.Prelude.{◌==◌, text_eq, ℕ, suc, ◌+◌, ◌≤◌, ◌<◌, ◌≡◌, Bool, false, ◌&&◌, Option, some}
use mnemo_api.RateLimit.{Category, imports, auth, session, read, write, Key, Client, fallback}

-- The place of a category among all.
abbrev pub index : Category → ℕ
index imports = 0
index auth = 1
index session = 2
index read = 3
index write = 4

abbrev pub key_eq : Key → Key → Bool
key_eq j k =
    (index j.category == index k.category)
    && (text_eq j.identifier k.identifier && (j.bucket == k.bucket))

-- A server that answers. `counter` is the number at a key at a time, 0 if there is none, and
-- `deadline` the time at which the key goes. INCR adds one and leaves the deadline of a key that is
-- there, EXPIRE sets the deadline, a key stays until then, commands do not touch other keys, and a
-- script does what its commands do.
pub record IsServer (c : Client) : Type 0 where
  pub counter : ℕ → Key → c.State → ℕ
  pub deadline : Key → c.State → Option ℕ
  pub incremented : ℕ → Key → c.State → c.State
  pub expiring : ℕ → Key → ℕ → c.State → c.State
  pub incr_some :
      (t : ℕ) (k : Key) (s : c.State) → c.incr t k s ≡ some (suc (counter t k s), incremented t k s)
  pub expire_some :
      (t : ℕ) (k : Key) (d : ℕ) (s : c.State) → c.expire t k d s ≡ some (expiring t k d s)
  pub eval_runs :
      (t : ℕ) (k : Key) (d : ℕ) (s : c.State) (n : ℕ) (s' : c.State)
      → c.eval t k d s ≡ some (n, s')
      → fallback c t k d s ≡ (some n, s')
  pub counter_incr :
      (t : ℕ) (k : Key) (s : c.State) → counter t k (incremented t k s) ≡ suc (counter t k s)
  pub counter_expire :
      (t : ℕ) (k : Key) (d : ℕ) (s : c.State)
      → 0 < d
      → counter t k (expiring t k d s) ≡ counter t k s
  pub deadline_incr :
      (t : ℕ) (k : Key) (s : c.State)
      → 0 < counter t k s
      → deadline k (incremented t k s) ≡ deadline k s
  pub deadline_expire :
      (t : ℕ) (k : Key) (d : ℕ) (s : c.State) → deadline k (expiring t k d s) ≡ some (t + d)
  pub keeps :
      (t later end : ℕ) (k : Key) (s : c.State)
      → deadline k s ≡ some end
      → t ≤ later
      → later < end
      → counter later k s ≡ counter t k s
  pub counter_other :
      (t at d : ℕ) (j k : Key) (s : c.State)
      → key_eq j k ≡ false
      → (counter at k (incremented t j s) ≡ counter at k s)
        × (counter at k (expiring t j d s) ≡ counter at k s)
  pub deadline_other :
      (t d : ℕ) (j k : Key) (s : c.State)
      → key_eq j k ≡ false
      → (deadline k (incremented t j s) ≡ deadline k s)
        × (deadline k (expiring t j d s) ≡ deadline k s)
