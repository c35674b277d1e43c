-- ===== src/Exec.antt =====
-- Results and exceptions of the services, and actions on a database session: core/exceptions.py,
-- db/database.py.

use mnemo_api.Prelude.{◌≡◌, refl, ◌⊎◌, inl, inr}

-- The exceptions of core/exceptions.py that the modelled services raise, with Python's ValueError.
pub data Error : Type 0 where
  deck_not_found deck_name_conflict card_not_found : Error
  session_not_found session_already_ended answer_too_long no_cards_available : Error
  plan_not_found idempotency_conflict value_error : Error
  invalid_country_code invalid_timezone missing_timezone timezone_not_allowed : Error
  display_name_conflict : Error
  -- SQLAlchemy's IntegrityError, for a constraint of the database.
  integrity_error : Error
  -- A row that a foreign key promises is not there.
  missing_row : Error
  -- Python's OverflowError, for a date past the year 9999.
  overflow_error : Error
  -- What SQLAlchemy raises for a query or a value that the database refuses.
  database_error : Error

pub data Result (A : Type 0) : Type 0 where
  ok : A → Result A
  err : Error → Result A

-- A method of a service: what it wrote before an exception is in the state that comes back.
abbrev pub Exec : Type 0 → Type 0 → Type 0
Exec S A = S → Result A × S

abbrev pub pure : {S A : Type 0} → A → Exec S A
pure a s = (ok a, s)

abbrev pub raise : {S A : Type 0} → Error → Exec S A
raise e s = (err e, s)

-- Runs the rest after a part that ended with `r`.
abbrev pub resume : {S A B : Type 0} → Result A → (A → Exec S B) → Exec S B
resume (ok a) f s = f a s
resume (err e) f s = (err e, s)

infixl 5 ◌>>=◌ ◌>>◌
abbrev pub ◌>>=◌ : {S A B : Type 0} → Exec S A → (A → Exec S B) → Exec S B
◌>>=◌ m f s = let (r, s') = m s in resume r f s'

abbrev pub ◌>>◌ : {S A B : Type 0} → Exec S A → Exec S B → Exec S B
m >> k = m >>= λ _. k

-- The end of `get_db`: commit what the request wrote, or roll it back after an exception.
abbrev settle : {S A : Type 0} → S → Result A × S → Result A × S
settle s (ok a, s') = (ok a, s')
settle s (err e, s') = (err e, s)

-- `get_db`: the transaction around the handler of a request.
unfoldable pub request : {S A : Type 0} → Exec S A → Exec S A
request m s = settle s (m s)

pub Result-cases :
    {A : Type 0} (r : Result A) → ((a : A) × (r ≡ ok a)) ⊎ ((e : Error) × (r ≡ err e))
Result-cases (ok a) = inl (a, refl)
Result-cases (err e) = inr (e, refl)
