-- ===== src/RateLimit/Limits.antt =====
-- How many requests the rate limiter lets through.
use mnemo_api.Prelude.{
  leb, ◌==◌, if◌then◌else◌, ==_iff, Bool-cases, Option-cases, count_if, Text, text_eq→eq, ℕ, suc,
  ◌+◌, ◌*◌, ◌≤◌, ◌<◌, min, ◌≡◌, refl, sym, ap, ◌∙◌, ◌⊎◌, inl, inr, Bool, true, false, ◌&&◌, some,
  List, [], ◌∷◌, arith,
}
use mnemo_api.RateLimit.{
  Settings, Category, resolve_category_and_limit, Key, Client, Request, Verdict, unlimited, passed,
  refused, bucket_and_ttl, fallback, count, key_of, dispatch,
}
use mnemo_api.RateLimit.Redis.{index, key_eq, IsServer}
use mnemo_api.RateLimit.Windows.{limit_of, window_of, resolve-category, bucket-window}

abbrev pub is_passed : Verdict → Bool
is_passed unlimited = true
is_passed (passed limit remaining reset) = true
is_passed (refused delay limit reset) = false

-- Requests at times that do not decrease.
abbrev pub IsOrdered : ℕ → List (ℕ × Request) → Type 0
IsOrdered t [] = Unit
IsOrdered t ((at, r) ∷ rest) = (t ≤ at) × IsOrdered at rest

abbrev end_of : Key → ℕ
end_of k = suc k.bucket * window_of k.category

index-eq : (a b : Category) → (index a == index b) ≡ true → a ≡ b
index-eq a b h = ground (arith, h)

key_eq→eq : (j k : Key) → key_eq j k ≡ true → j ≡ k
key_eq→eq j k h =
    let same = index-eq j.category k.category (ground (arith, h)) in
    let text = text_eq→eq j.identifier k.identifier (ground (arith, h)) in
    let place = (==_iff j.bucket k.bucket).0 (ground (arith, h)) in
    ground (arith, same, text, place)

module _ (c : Client) (server : IsServer c) where
  -- Of the key, v requests are counted: none, or the counter stands until the end of the bucket.
  abbrev Tracked : ℕ → Key → c.State → ℕ → Type 0
  Tracked t k s v =
      ((v ≡ 0) × ((at : ℕ) → server.counter at k s ≡ 0))
      ⊎ ((0 < v)
          × (server.deadline k s ≡ some (end_of k))
          × ((at : ℕ) → t ≤ at → at < end_of k → server.counter at k s ≡ v))

  later : (t at : ℕ) (k : Key) (s : c.State) (v : ℕ) → t ≤ at → Tracked t k s v → Tracked at k s v
  later t at k s v le (inl h) = inl h
  later t at k s v le (inr (pos, dead, keeps)) =
      inr (pos, dead, λ x a b. keeps x (omega (arith, le, a)) b)

  count-fallback : (t : ℕ) (k : Key) (d : ℕ) (s : c.State) → count c t k d s ≡ fallback c t k d s
  unfolding count
  count-fallback t k d s = elim (Option-cases (c.eval t k d s)) [
    | inl fails ↦ ground (arith, fails)
    | inr ((n, s'), done) ↦ ground (arith, done, server.eval_runs t k d s n s' done)
  ]

  -- What the fallback does on a server that answers.
  fallback-runs :
      (t : ℕ) (k : Key) (d : ℕ) (s : c.State)
      → let n = suc (server.counter t k s) in
        let s' = server.incremented t k s in
        fallback c t k d s ≡ (some n, if n == 1 then server.expiring t k d s' else s')
  unfolding fallback
  fallback-runs t k d s =
      ground (arith, server.incr_some t k s, server.expire_some t k d (server.incremented t k s))

  count-runs :
      (t : ℕ) (k : Key) (d : ℕ) (s : c.State)
      → let n = suc (server.counter t k s) in
        let s' = server.incremented t k s in
        count c t k d s ≡ (some n, if n == 1 then server.expiring t k d s' else s')
  count-runs t k d s = count-fallback t k d s ∙ fallback-runs t k d s

  count-other :
      (t at : ℕ) (j k : Key) (d : ℕ) (s : c.State) (v : ℕ)
      → key_eq j k ≡ false
      → t ≤ at
      → Tracked t k s v
      → Tracked at k (count c at j d s).1 v
  count-other t at j k d s v other le h =
      let s' = server.incremented at j s in
      let same : (x : ℕ) → server.counter x k (count c at j d s).1 ≡ server.counter x k s = λ x.
        ground (
          arith,
          count-runs at j d s,
          server.counter_other at x d j k s other,
          server.counter_other at x d j k s' other,
        ) in
      let stays : server.deadline k (count c at j d s).1 ≡ server.deadline k s = ground (
        arith,
        count-runs at j d s,
        server.deadline_other at d j k s other,
        server.deadline_other at d j k s' other,
      ) in
      elim h [
        | inl (e, zeros) ↦ inl (e, λ x. same x ∙ zeros x)
        | inr (pos, dead, keeps) ↦
            inr (pos, stays ∙ dead, λ x a b. same x ∙ keeps x (omega (arith, le, a)) b)
      ]

  count-own :
      (t : ℕ) (k : Key) (d : ℕ) (s : c.State) (v : ℕ)
      → 0 < d
      → t + d ≡ end_of k
      → Tracked t k s v
      → ((count c t k d s).0 ≡ some (suc v)) × Tracked t k (count c t k d s).1 (suc v)
  count-own t k d s v pos e h =
      let s' = server.incremented t k s in
      let x = server.expiring t k d s' in
      elim h [
        | inl (none_, zeros) ↦
            let runs : count c t k d s ≡ (some (suc v), x) =
              ground (arith, count-runs t k d s, zeros t, none_) in
            let dead = server.deadline_expire t k d s' ∙ ap some e in
            let now : server.counter t k x ≡ suc v = ground (
              arith,
              server.counter_expire t k d s' pos,
              server.counter_incr t k s,
              zeros t,
              none_,
            ) in
            rw runs (
              refl,
              inr (omega arith, dead, λ at a b. server.keeps t at (end_of k) k x dead a b ∙ now),
            )
        | inr (some_, dead, keeps) ↦
            let here : server.counter t k s ≡ v = keeps t (omega arith) (omega (arith, pos, e)) in
            let runs : count c t k d s ≡ (some (suc v), s') =
              ground (arith, count-runs t k d s, here, some_) in
            let dead' = server.deadline_incr t k s (omega (arith, here, some_)) ∙ dead in
            let now : server.counter t k s' ≡ suc v = server.counter_incr t k s ∙ ap suc here in
            rw runs (
              refl,
              inr (omega arith, dead', λ at a b. server.keeps t at (end_of k) k s' dead' a b ∙ now),
            )
      ]

module _ (upper hash_api_key : Text → Text) (settings : Settings) (c : Client) where
  -- How many of the requests that count under a key are let through, and how many there are.
  unfoldable pub admitted : Key → List (ℕ × Request) → c.State → ℕ
  admitted k [] s = 0
  admitted k ((t, r) ∷ rest) s =
      let (verdict, s') = dispatch upper hash_api_key settings c t r s in
      (if key_eq (key_of upper hash_api_key settings c t r) k && is_passed verdict then 1 else 0)
      + admitted k rest s'

  unfoldable pub asked : Key → List (ℕ × Request) → ℕ
  asked k requests =
      count_if (λ (x : ℕ × Request). key_eq (key_of upper hash_api_key settings c x.0 x.1) k)
        requests

  module _ (server : IsServer c) where
    -- The rest of the bucket of a request that counts under a key.
    ttl-ends :
        (t : ℕ) (r : Request) (k : Key)
        → key_of upper hash_api_key settings c t r ≡ k
        → let window = (resolve_category_and_limit upper settings r.path r.method).2 in
          let ttl = (bucket_and_ttl window t).1 in (0 < ttl) × (t + ttl ≡ end_of k)
    ttl-ends t r k e =
        let (category, limit, window) = resolve_category_and_limit upper settings r.path r.method in
        let same : category ≡ k.category = ap (λ (x : Key). x.category) e in
        let wide : window ≡ window_of k.category =
          (resolve-category upper settings r.path r.method).1 ∙ ap window_of same in
        let (_, pos, _, end) = bucket-window k.category t in
        let place : (bucket_and_ttl (window_of k.category) t).0 ≡ k.bucket =
          ap (λ w. (bucket_and_ttl w t).0) (sym wide) ∙ ap (λ (x : Key). x.bucket) e in
        (
          rw wide pos,
          ap (λ w. t + (bucket_and_ttl w t).1) wide
              ∙ end
              ∙ ap (λ b. suc b * window_of k.category) place,
        )

    dispatch-own :
        (t : ℕ) (r : Request) (k : Key) (s : c.State) (v : ℕ)
        → key_of upper hash_api_key settings c t r ≡ k
        → Tracked c server t k s v
        → let (verdict, s') = dispatch upper hash_api_key settings c t r s in
          (is_passed verdict ≡ leb (suc v) (limit_of settings k.category))
          × Tracked c server t k s' (suc v)
    unfolding dispatch
    dispatch-own t r k s v e h =
        let (category, limit, window) = resolve_category_and_limit upper settings r.path r.method in
        let ttl = (bucket_and_ttl window t).1 in
        let (pos, end) = ttl-ends t r k e in
        let (current, tracked) = count-own c server t k ttl s v pos end h in
        let wide : limit ≡ limit_of settings k.category =
          (resolve-category upper settings r.path r.method).0
          ∙ ap (λ (x : Key). limit_of settings x.category) e in
        rw e (ground (arith, current, wide), tracked)

    dispatch-other :
        (t at : ℕ) (r : Request) (k : Key) (s : c.State) (v : ℕ)
        → key_eq (key_of upper hash_api_key settings c at r) k ≡ false
        → t ≤ at
        → Tracked c server t k s v
        → Tracked c server at k (dispatch upper hash_api_key settings c at r s).1 v
    unfolding dispatch
    dispatch-other t at r k s v other le h =
        count-other c server t at (key_of upper hash_api_key settings c at r) k _ s v other le h

    admitted-counted :
        (k : Key) (t : ℕ) (requests : List (ℕ × Request)) (s : c.State) (v : ℕ)
        → IsOrdered t requests
        → Tracked c server t k s v
        → let limit = limit_of settings k.category in
          min limit v + admitted k requests s ≡ min limit (v + asked k requests)
    unfolding admitted asked count_if
    admitted-counted k t [] s v ordered h = omega arith
    admitted-counted k t ((at, r) ∷ rest) s v (le, ordered) h =
        let s' = (dispatch upper hash_api_key settings c at r s).1 in
        let j = key_of upper hash_api_key settings c at r in
        elim (Bool-cases (key_eq j k)) [
          | inl hit ↦
              let (verdict, tracked) =
                dispatch-own at r k s v (key_eq→eq j k hit) (later c server t at k s v le h) in
              let rest_ = admitted-counted k at rest s' (suc v) ordered tracked in
              ground (arith, hit, verdict, rest_)
          | inr miss ↦
              let rest_ =
                admitted-counted k at rest s' v ordered (dispatch-other t at r k s v miss le h) in
              ground (arith, miss, rest_)
        ]

    -- On a server that answers, of the requests that count under one key, as many are let through
    -- as the limit of the key's category allows, whatever requests come between them, if nothing was
    -- counted under the key before and no request is served before an earlier one.
    pub admitted_exactly :
        (k : Key) (t : ℕ) (requests : List (ℕ × Request)) (s : c.State)
        → IsOrdered t requests
        → ((at : ℕ) → server.counter at k s ≡ 0)
        → admitted k requests s ≡ min (limit_of settings k.category) (asked k requests)
    admitted_exactly k t requests s ordered zeros =
        omega (arith, admitted-counted k t requests s 0 ordered (inl (refl, zeros)))
