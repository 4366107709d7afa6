-- ===== src/Tests/Assessments.antt =====
-- Qualification assessments on concrete rows.
use administrative_orchestra.Base.{List, Option, Text, Uuid, [], none, ok, refl, some, ◌∷◌, ◌≡◌}
use administrative_orchestra.Messaging.{emit_outbox}
use administrative_orchestra.Transactions.{
  TransactionQualificationAssessment, TransactionQualificationResult, TransactionStore,
  append_assessment, assessment_added, check_supersession, current_assessments, current_from_rows,
}
use administrative_orchestra.Transactions.Append.{
  append_assessment-Chained, append_assessment-again,
}
use administrative_orchestra.Transactions.Chains.{Chained}
use administrative_orchestra.Transactions.Currency.{current_rows}
use administrative_orchestra.Transactions.Histories.{Append, append_all, append_all_current}

abbrev shown : Uuid → Text
shown id = "id"

abbrev assessment_of :
    Uuid → Option Uuid → TransactionQualificationResult → TransactionQualificationAssessment
assessment_of id target result = record {
  assessment_id = id;
  case_id = 7;
  authority_epoch = 2;
  assessment_kind = "vendor";
  supersedes_assessment_id = target;
  input_refs = "invoice" ∷ [];
  rule_ref = "vendor-v1";
  result = result;
  blocking_reasons = [];
  created_at = 30;
}

abbrev first : TransactionQualificationAssessment
first = assessment_of 60 none TransactionQualificationResult.incomplete

abbrev second : TransactionQualificationAssessment
second = assessment_of 61 (some 60) TransactionQualificationResult.qualified

abbrev empty : TransactionStore
empty = record {
  links = [];
  assessments = [];
  audit = [];
  outbox = record { rows = []; audits = [] };
}

assessment_program : Unit {0}
unfolding append_assessment assessment_added check_supersession current_assessments
    current_from_rows emit_outbox
assessment_program = tt

abbrev one_row : TransactionStore
one_row = assessment_added shown 30 90 first empty

abbrev two_rows : TransactionStore
two_rows = assessment_added shown 31 91 second one_row

appended : append_assessment shown 31 91 second one_row ≡ ok (second, two_rows)
unfolding assessment_program
appended = refl

one_row-Chained : Chained one_row.assessments
unfolding assessment_program
one_row-Chained = record {
  distinct = (tt, tt);
  grounded = (refl, tt);
  grouped = ((refl, tt), tt);
  apart = (tt, tt);
}

append_assessment-Chained_example : Chained two_rows.assessments
append_assessment-Chained_example =
    append_assessment-Chained shown 31 91 second second one_row two_rows one_row-Chained appended

append_assessment-again_example :
    append_assessment shown 40 92 second two_rows ≡ ok (second, two_rows)
append_assessment-again_example =
    append_assessment-again shown 31 91 second second one_row two_rows 40 92 appended

abbrev history : List Append
history =
    record { now = 30; event_id = 90; assessment = first }
    ∷ record { now = 31; event_id = 91; assessment = second }
    ∷ record {
      now = 32;
      event_id = 92;
      assessment = assessment_of 62 none TransactionQualificationResult.mismatch;
    }
    ∷ []

append_all_current_example :
    current_assessments 7 2 (append_all shown history empty).assessments
    ≡ ok (current_rows 7 2 (append_all shown history empty).assessments)
append_all_current_example = append_all_current shown history empty 7 2 refl

-- The third call was refused.
current_now :
    current_assessments 7 2 (append_all shown history empty).assessments ≡ ok (second ∷ [])
unfolding assessment_program
current_now = refl
