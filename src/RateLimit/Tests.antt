-- ===== src/RateLimit/Tests.antt =====
-- The theorem on the rate limiter at a concrete input.
use mnemo_api.Prelude.{
  ltb, ◌==◌, if◌then◌else◌, ==_refl, count_if, codes, text_eq, text_eq_refl, ℕ, suc, ◌+◌, ◌≤◌, ◌<◌,
  min, ◌≡◌, refl, ap, ◌∙◌, Bool, true, false, Option, none, some, List, [], ◌∷◌, arith,
}
use mnemo_api.RateLimit.{
  starts_with, Settings, auth, resolve_category_and_limit, Key, Client, Request, identifier_of,
  fallback,
}
use mnemo_api.RateLimit.Redis.{index, key_eq, IsServer}
use mnemo_api.RateLimit.Limits.{admitted, asked, admitted_exactly}

-- A store in memory: the number and the deadline of each key.
abbrev Store : Type 0
Store = Key → ℕ × Option ℕ

abbrev alive : ℕ → ℕ × Option ℕ → ℕ
alive t (n, none) = n
alive t (n, some end) = if ltb t end then n else 0

abbrev put : Key → ℕ × Option ℕ → Store → Store
put k x s = λ j. if key_eq k j then x else s j

-- An expired number starts anew, without a deadline.
abbrev bumped : ℕ → ℕ × Option ℕ → ℕ × Option ℕ
bumped t x = (suc (alive t x), if alive t x == 0 then none else x.1)

abbrev add : ℕ → Key → Store → Store
add t k s = put k (bumped t (s k)) s

abbrev set_deadline : ℕ → Key → ℕ → Store → Store
set_deadline t k d s = put k (alive t (s k), some (t + d)) s

abbrev memory : Client
memory = record {
  State = Store;
  eval = λ t k d s.
      let n = suc (alive t (s k)) in
      some (n, if n == 1 then set_deadline t k d (add t k s) else add t k s);
  incr = λ t k s. some (suc (alive t (s k)), add t k s);
  expire = λ t k d s. some (set_deadline t k d s);
}

key_eq_refl : (k : Key) → key_eq k k ≡ true
key_eq_refl k =
    ground (arith, text_eq_refl k.identifier, ==_refl (index k.category), ==_refl k.bucket)

at_key : {A : Type 0} (k : Key) (x y : A) → (if key_eq k k then x else y) ≡ x
at_key k x y = rw (key_eq_refl k) refl

alive-bumped : (t : ℕ) (x : ℕ × Option ℕ) → alive t (bumped t x) ≡ suc (alive t x)
alive-bumped t (n, none) = ground arith
alive-bumped t (n, some end) = ground arith

alive-set : (t d n : ℕ) → 0 < d → alive t (n, some (t + d)) ≡ n
alive-set t d n pos = ground arith

alive-keeps :
    (t later end : ℕ) (x : ℕ × Option ℕ)
    → x.1 ≡ some end
    → t ≤ later
    → later < end
    → alive later x ≡ alive t x
alive-keeps t later end (n, none) e le lt = absurd (ground arith)
alive-keeps t later end (n, some y) e le lt = ground arith

-- What a script returned, or the given pair.
abbrev returned : ℕ × Store → Option (ℕ × Store) → ℕ × Store
returned x none = x
returned x (some y) = y

abbrev script : ℕ → Store → Option ℕ × Store
script n s = (some n, s)

fallback-memory :
    (t : ℕ) (k : Key) (d : ℕ) (s : Store) (n : ℕ) (s' : Store)
    → memory.eval t k d s ≡ some (n, s')
    → fallback memory t k d s ≡ (some n, s')
unfolding fallback
fallback-memory t k d s n s' h =
    either_way (suc (alive t (s k)) == 1) (suc (alive t (s k))) (set_deadline t k d (add t k s))
      (add t k s)
    ∙ ap (λ (x : ℕ × Store). (some x.0, x.1)) (ap (returned (n, s')) h)
  where
    either_way :
        (b : Bool) (m : ℕ) (x y : Store)
        → (if b then script m x else script m y) ≡ script m (if b then x else y)
    either_way true m x y = refl
    either_way false m x y = refl

abbrev memory_server : IsServer memory
memory_server = record {
  counter = λ t k s. alive t (s k);
  deadline = λ k s. (s k).1;
  incremented = add;
  expiring = set_deadline;
  incr_some = λ t k s. refl;
  expire_some = λ t k d s. refl;
  eval_runs = λ t k d s n s' h. fallback-memory t k d s n s' h;
  counter_incr = λ t k s. ap (alive t) (at_key k _ _) ∙ alive-bumped t (s k);
  counter_expire = λ t k d s pos. ap (alive t) (at_key k _ _) ∙ alive-set t d (alive t (s k)) pos;
  deadline_incr =
      λ t k s pos. ap (λ x. x.1) (at_key k (bumped t (s k)) (s k)) ∙ ground (arith, pos);
  deadline_expire = λ t k d s. ap (λ x. x.1) (at_key k (alive t (s k), some (t + d)) (s k));
  keeps = λ t later end k s dead le lt. alive-keeps t later end (s k) dead le lt;
  counter_other = λ t at d j k s other. rw other (refl, refl);
  deadline_other = λ t d j k s other. rw other (refl, refl);
}

abbrev settings : Settings
settings = record {
  rate_limit_import_per_hour = 5;
  rate_limit_auth_per_minute = 2;
  rate_limit_answer_per_minute = 30;
  rate_limit_read_per_minute = 60;
  rate_limit_write_per_minute = 20;
  max_request_body_bytes = 1000;
}

abbrev login : Request
login = record {
  path = codes "/v1/auth/login";
  method = codes "POST";
  api_key = none;
  client_host = some (codes "10.0.0.1");
}

abbrev other_login : Request
other_login = record login { client_host = none }

abbrev logins : List (ℕ × Request)
logins = (61, login) ∷ (62, other_login) ∷ (70, login) ∷ (119, login) ∷ (120, login) ∷ []

abbrev login_key : Key
login_key = record { category = auth; identifier = codes "ip:10.0.0.1"; bucket = 1 }

admitted_exactly_example :
    admitted (λ s. s) (λ s. s) settings memory login_key logins (λ k. (0, none))
    ≡ min 2 (asked (λ s. s) (λ s. s) settings memory login_key logins)
admitted_exactly_example =
    admitted_exactly (λ s. s) (λ s. s) settings memory memory_server login_key 0 logins
      (λ k. (0, none)) (omega arith, (omega arith, (omega arith, (omega arith, (omega arith, tt)))))
      (λ t. refl)

-- Three of the attempts count under the key.
asked_run : asked (λ s. s) (λ s. s) settings memory login_key logins ≡ 3
unfolding asked count_if resolve_category_and_limit starts_with identifier_of text_eq
asked_run = refl
