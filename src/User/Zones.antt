-- ===== src/User/Zones.antt =====
-- Which time zone a user gets.
use mnemo_api.Prelude.{
  if◌then◌else◌, Bool-cases, Text, text_eq, text_eq_refl, contains, Unicode, strip, ◌≡◌, sym, ap,
  subst, ◌∙◌, ◌↔◌, ◌⊎◌, inl, inr, true, false, not, ◌||◌, Option, none, some, List, [], ◌∷◌, arith,
}
use mnemo_api.Exec.{invalid_timezone, Result, ok, err}
use mnemo_api.Timezone.{Places, get_timezones_for_country}
use mnemo_api.User.{normalize_and_precheck_timezone, accept, choose, resolve_country_timezone}

module _ (u : Unicode) (places : Places) where
  -- What is asked of a zone that a caller gives.
  abbrev pub IsAccepted : Text → Text → Text → Type 0
  IsAccepted country timezone z =
      (z ≡ strip u timezone)
      × (text_eq z [] ≡ false)
      × (places.is_timezone z ≡ true)
      × (contains z (get_timezones_for_country places country) ≡ true)

  prechecked :
      (timezone : Text)
      → let t = strip u timezone in
        ((text_eq t [] ≡ false)
          × (places.is_timezone t ≡ true)
          × (normalize_and_precheck_timezone u places timezone ≡ ok t))
        ⊎ (((text_eq t [] ≡ true) ⊎ (places.is_timezone t ≡ false))
            × (normalize_and_precheck_timezone u places timezone ≡ err invalid_timezone))
  unfolding normalize_and_precheck_timezone
  prechecked timezone =
      let t = strip u timezone in
      elim (Bool-cases (text_eq t [])) [
        | inl blank ↦ inr (inl blank, ground (arith, blank))
        | inr solid ↦ elim (Bool-cases (places.is_timezone t)) [
          | inl known ↦ inl (solid, known, ground (arith, solid, known))
          | inr unknown ↦ inr (inr unknown, ground (arith, solid, unknown))
        ]
      ]

  accept-ok :
      (z : Text) (zs : List Text) (t : Text)
      → accept u places z zs (ok t) ≡ (if contains t (z ∷ zs) then ok t else err invalid_timezone)
  unfolding contains
  accept-ok z [] t = ground arith
  accept-ok z (y ∷ zs) t = ground arith

  -- The choice as one chain of tests on the zone without white space around it.
  abbrev tested : Text → List Text → Result Text
  tested t zones =
      if text_eq t [] || not (places.is_timezone t)
      then err invalid_timezone
      else if contains t zones
      then ok t
      else err invalid_timezone

  choose-tested :
      (y : Text) (zs : List Text) (timezone : Text)
      → choose u places (y ∷ zs) (some timezone) ≡ tested (strip u timezone) (y ∷ zs)
  choose-tested y zs timezone = elim (prechecked timezone) [
    | inl (solid, known, e) ↦
        ap (accept u places y zs) e
        ∙ accept-ok y zs (strip u timezone)
        ∙ ground (arith, solid, known)
    | inr (bad, e) ↦ ap (accept u places y zs) e ∙ ground (arith, bad)
  ]

  tested-ok :
      (t z : Text) (zones : List Text)
      → tested t zones ≡ ok z
      → (z ≡ t) × (text_eq t [] ≡ false) × (places.is_timezone t ≡ true) × (contains t zones ≡ true)
  tested-ok t z zones h = ground (arith, h)

  choose_iff :
      (zones : List Text) (timezone z : Text)
      → (choose u places zones (some timezone) ≡ ok z) ↔ (
          (z ≡ strip u timezone)
          × (text_eq z [] ≡ false)
          × (places.is_timezone z ≡ true)
          × (contains z zones ≡ true))
  choose_iff [] timezone z = unfold contains in ground arith
  choose_iff (y ∷ zs) timezone z = (
    λ h.
        let (e, solid, known, listed) =
          tested-ok (strip u timezone) z (y ∷ zs) (sym (choose-tested y zs timezone) ∙ h) in
        (e, rw e solid, rw e known, rw e listed),
    λ h.
        let (e, solid, known, listed) = h in
        choose-tested y zs timezone
        ∙ ap (λ t. tested t (y ∷ zs)) (sym e)
        ∙ ground (arith, solid, known, listed),
  )

  -- A zone that a caller gives is accepted, without the white space around it, exactly if it is a
  -- known zone and one of the country's.
  pub resolve_iff :
      (country timezone z : Text)
      → (resolve_country_timezone u places country (some timezone) ≡ ok z)
        ↔ IsAccepted country timezone z
  unfolding resolve_country_timezone
  resolve_iff country timezone z = choose_iff (get_timezones_for_country places country) timezone z

  choose-listed :
      (zones : List Text) (timezone : Option Text) (z : Text)
      → choose u places zones timezone ≡ ok z
      → contains z zones ≡ true
  choose-listed [] none z h = absurd (ground arith)
  choose-listed [] (some t) z h = absurd (ground arith)
  choose-listed (y ∷ zs) none z h =
      let same : y ≡ z = ground arith in
      subst (λ t. contains t (y ∷ zs) ≡ true) same
        (unfold contains in ground (arith, text_eq_refl y))
  choose-listed (y ∷ zs) (some t) z h =
      let (e, solid, known, listed) = (choose_iff (y ∷ zs) t z).0 h in listed

  pub resolve-listed :
      (country : Text) (timezone : Option Text) (z : Text)
      → resolve_country_timezone u places country timezone ≡ ok z
      → contains z (get_timezones_for_country places country) ≡ true
  unfolding resolve_country_timezone
  resolve-listed country timezone z h =
      choose-listed (get_timezones_for_country places country) timezone z h
