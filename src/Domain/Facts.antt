-- ===== src/Domain/Facts.antt =====
-- FactAssertion and FactSnapshot. A fact is `None`, a Boolean, an integer, a text or a list of
-- texts: what the fact sources of the repository put into a snapshot.
use administrative_orchestra.Base.{
  Bool, Dict, List, Option, Outcome, Text, Timestamp, Uuid, [], arith, err, false, lookup, nat_beq,
  nat_eq, none, not, ok, option_eq, raise_if, refl, some, str_beq_iff, string_eq, true, ℕ, ◌&&◌,
  ◌==◌, ◌>>◌, ◌∷◌, ◌≡◌,
}
use administrative_orchestra.Domain.Kinds.{FactAuthority, fact_authority_eq}

pub data ℤ : Type 0 where
  pos : ℕ → ℤ
  negsuc : ℕ → ℤ

abbrev pub int_beq : ℤ → ℤ → Bool
int_beq (pos a) (pos b) = nat_beq a b
int_beq (negsuc a) (negsuc b) = nat_beq a b
int_beq _ _ = false

pub data Value : Type 0 where
  null : Value
  flag : Bool → Value
  number : ℤ → Value
  text : Text → Value
  texts : List Text → Value

abbrev texts_beq : List Text → List Text → Bool
texts_beq [] [] = true
texts_beq (a ∷ as') (b ∷ bs) = (a == b) && texts_beq as' bs
texts_beq _ _ = false

abbrev flag_number : Bool → ℤ
flag_number true = pos 1
flag_number false = pos 0

-- Python's `==` on two facts: `True` equals 1 and `False` equals 0.
abbrev pub value_beq : Value → Value → Bool
value_beq null null = true
value_beq (flag a) (flag b) = int_beq (flag_number a) (flag_number b)
value_beq (flag a) (number b) = int_beq (flag_number a) b
value_beq (number a) (flag b) = int_beq a (flag_number b)
value_beq (number a) (number b) = int_beq a b
value_beq (text a) (text b) = a == b
value_beq (texts a) (texts b) = texts_beq a b
value_beq _ _ = false

texts_beq_refl : (a : List Text) → texts_beq a a ≡ true
texts_beq_refl [] = refl
texts_beq_refl (a ∷ as') = ground (arith, str_beq_iff a a, texts_beq_refl as')

pub value_beq_refl : (a : Value) → value_beq a a ≡ true
value_beq_refl null = refl
value_beq_refl (flag true) = refl
value_beq_refl (flag false) = refl
value_beq_refl (number (pos n)) = ground arith
value_beq_refl (number (negsuc n)) = ground arith
value_beq_refl (text a) = (str_beq_iff a a).1 refl
value_beq_refl (texts a) = texts_beq_refl a

-- `d.get(key)`, with `None` for a missing key.
abbrev pub get_value : Text → Dict Text Value → Value
get_value k d = elim (lookup k d) [ none ↦ null | some v ↦ v ]

pub record FactAssertion : Type 0 where
  pub value : Value
  pub authority : FactAuthority
  pub source : Text
  pub owner : Text
  pub source_ref : Option Text
  pub source_version : Option Text
  pub observed_at : Timestamp
  pub digest : Option Text

pub record FactSnapshot : Type 0 where
  pub snapshot_id : Uuid
  pub source : Text
  pub owner : Text
  pub authority : FactAuthority
  pub source_ref : Option Text
  pub source_version : Option Text
  pub observed_at : Timestamp
  pub facts : Dict Text Value
  pub assertions : Dict Text FactAssertion
  pub digest : Option Text

pub data FactError : Type 0 where
  no_flattened_fact : Text → FactError
  flattened_fact_mismatch : Text → FactError

-- The loop over `self.assertions.items()`.
pub check_assertions : Dict Text Value → Dict Text FactAssertion → Outcome FactError (Unit {0})
check_assertions facts [] = ok tt
check_assertions facts ((key, assertion) ∷ rest) = elim (lookup key facts) [
  | none ↦ err (no_flattened_fact key)
  | some fact ↦
      raise_if (not (value_beq fact assertion.value)) (flattened_fact_mismatch key)
      >> check_assertions facts rest
]

-- The validator `assertion_values_match_flattened_facts`.
pub validate_snapshot : FactSnapshot → Outcome FactError FactSnapshot
validate_snapshot s = check_assertions s.facts s.assertions >> ok s
