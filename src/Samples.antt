-- ===== src/Samples.antt =====
-- Stand-ins of the tests for what the program takes from libraries: the tables of Unicode, JSON,
-- tokens and time zones.
use mnemo_api.Prelude.{
  ltb, ◌==◌, if◌then◌else◌, count_if, Text, codes, text_eq, Unicode, ℕ, zero, suc, ◌≡◌, refl, ap,
  not, Option, none, some, List, [], ◌∷◌, arith,
}
use mnemo_api.ApiKey.{Json}
use mnemo_api.Auth.{
  ScopesClaim, texts, absent, malformed, Payload, Decoded, valid, expired, invalid, Jwt,
}
use mnemo_api.Timezone.{Places}
use mnemo_api.Auth.Login.{IsJwt}

abbrev pub tables : Unicode
tables = record { lower = λ s. s; is_space = λ c. c == 32 }

-- A stand-in for JSON: every character raised by one, and 0 behind each text.
pub pack : Text → Text → Text
pack [] rest = 0 ∷ rest
pack (c ∷ w) rest = suc c ∷ pack w rest

pub pack_all : List Text → Text
pack_all [] = []
pack_all (w ∷ ws) = pack w (pack_all ws)

abbrev onto : ℕ → Option (List Text) → Option (List Text)
onto c none = none
onto c (some []) = none
onto c (some (w ∷ ws)) = some ((c ∷ w) ∷ ws)

abbrev fresh : Option (List Text) → Option (List Text)
fresh none = none
fresh (some ws) = some ([] ∷ ws)

pub unpack : Text → Option (List Text)
unpack [] = some []
unpack (zero ∷ s) = fresh (unpack s)
unpack (suc c ∷ s) = onto c (unpack s)

unpack-pack :
    (w rest : Text) (ws : List Text) → unpack rest ≡ some ws → unpack (pack w rest) ≡ some (w ∷ ws)
unfolding pack unpack
unpack-pack [] rest ws h = ap fresh h
unpack-pack (c ∷ w) rest ws h = ap (onto c) (unpack-pack w rest ws h)

pub unpack-pack_all : (ws : List Text) → unpack (pack_all ws) ≡ some ws
unfolding pack_all
unpack-pack_all [] = unfold unpack in refl
unpack-pack_all (w ∷ ws) = unpack-pack w (pack_all ws) ws (unpack-pack_all ws)

abbrev pub packed : Json
packed = record { dumps = pack_all; loads = unpack }

-- A stand-in for tokens: the claims one behind the other.
abbrev number : Option ℕ → ℕ
number none = 0
number (some n) = suc n

abbrev optional : ℕ → Option ℕ
optional zero = none
optional (suc n) = some n

abbrev write_scopes : ScopesClaim → Text
write_scopes absent = 0 ∷ []
write_scopes malformed = 1 ∷ []
write_scopes (texts scopes) = 2 ∷ pack_all scopes

abbrev packed_texts : Option (List Text) → ScopesClaim
packed_texts none = malformed
packed_texts (some scopes) = texts scopes

read_scopes : Text → ScopesClaim
read_scopes [] = malformed
read_scopes (zero ∷ s) = absent
read_scopes (suc zero ∷ s) = malformed
read_scopes (suc (suc n) ∷ s) = packed_texts (unpack s)

abbrev write_payload : Payload → Text
write_payload p = number p.sub ∷ number p.exp ∷ p.iat ∷ write_scopes p.scopes

-- Claims that never expire are valid.
abbrev unless_over : ℕ → Payload → Decoded
unless_over now p = elim p.exp [ none ↦ valid p | some t ↦ if ltb t now then expired else valid p ]

pub read_payload : ℕ → Text → Decoded
read_payload now (a ∷ b ∷ c ∷ s) =
    unless_over now (record { sub = optional a; scopes = read_scopes s; exp = optional b; iat = c })
read_payload now _ = invalid

abbrev pub plain_jwt : Jwt
plain_jwt = record { encode = write_payload; decode = read_payload }

optional-number : (o : Option ℕ) → optional (number o) ≡ o
optional-number none = refl
optional-number (some n) = refl

read-write : (c : ScopesClaim) → read_scopes (write_scopes c) ≡ c
unfolding read_scopes
read-write absent = refl
read-write malformed = refl
read-write (texts scopes) = ap packed_texts (unpack-pack_all scopes)

pub plain_jwt-IsJwt : IsJwt plain_jwt
unfolding read_payload
plain_jwt-IsJwt p now t h =
    ground (arith, h, optional-number p.sub, optional-number p.exp, read-write p.scopes)

-- Two countries: the US with two zones, Cameroon with one.
abbrev pub two_countries : Places
two_countries = record {
  upper = λ s. s;
  country_timezones = λ c.
      if text_eq c (codes "US")
      then codes "America/Adak" ∷ codes "America/New_York" ∷ []
      else if text_eq c (codes "CM")
      then codes "Africa/Douala" ∷ []
      else [];
  is_timezone = λ t. not (count_if (λ (c : ℕ). c == 47) t == 0);
}
