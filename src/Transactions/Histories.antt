-- ===== src/Transactions/Histories.antt =====
-- Sequences of append_assessment calls of transaction_repository.py.
use administrative_orchestra.Base.{
  List, Outcome, Text, Timestamp, Uuid, [], err, ok, refl, subst, sym, ℕ, ◌∷◌, ◌≡◌,
}
use administrative_orchestra.Transactions.Append.{append_assessment-Chained}
use administrative_orchestra.Transactions.Chains.{Assessment, Chained}
use administrative_orchestra.Transactions.Currency.{current_assessments-Chained, current_rows}
use administrative_orchestra.Transactions.Records.{TransactionRecordConflict, TransactionStore}
use administrative_orchestra.Transactions.Store.{append_assessment, current_assessments}

-- One call, at its time and with the id of the event that it emits.
pub record Append : Type 0 where
  pub now : Timestamp
  pub event_id : Uuid
  pub assessment : Assessment

module _ (str : Uuid → Text) where
  -- The store that a call leaves: one that raises leaves it as it was.
  abbrev pub left_by :
      TransactionStore
      → Outcome TransactionRecordConflict (Assessment × TransactionStore)
      → TransactionStore
  left_by store (ok (r, store')) = store'
  left_by store (err raised) = store

  abbrev pub append_one : Append → TransactionStore → TransactionStore
  append_one call store =
      left_by store (append_assessment str call.now call.event_id call.assessment store)

  abbrev pub append_all : List Append → TransactionStore → TransactionStore
  append_all [] store = store
  append_all (call ∷ calls) store = append_all calls (append_one call store)

  append_one-Chained :
      (call : Append) (store : TransactionStore)
      → Chained store.assessments
      → Chained (append_one call store).assessments
  append_one-Chained call store c =
      after (append_assessment str call.now call.event_id call.assessment store) refl
    where
      after :
          (o : Outcome TransactionRecordConflict (Assessment × TransactionStore))
          → append_assessment str call.now call.event_id call.assessment store ≡ o
          → Chained (left_by store o).assessments
      after (ok (r, store')) e =
          append_assessment-Chained str call.now call.event_id call.assessment r store store' c e
      after (err raised) e = c

  append_all-Chained :
      (calls : List Append) (store : TransactionStore)
      → Chained store.assessments
      → Chained (append_all calls store).assessments
  append_all-Chained [] store c = c
  append_all-Chained (call ∷ calls) store c =
      append_all-Chained calls (append_one call store) (append_one-Chained call store c)

  -- After any calls on a store without assessments, the current assessments of a case and epoch are
  -- listed, never refused as ambiguous, and they are the rows of that epoch that no row supersedes.
  pub append_all_current :
      (calls : List Append) (store : TransactionStore) (case_id : Uuid) (authority_epoch : ℕ)
      → store.assessments ≡ []
      → current_assessments case_id authority_epoch (append_all calls store).assessments
        ≡ ok (current_rows case_id authority_epoch (append_all calls store).assessments)
  append_all_current calls store case_id authority_epoch e =
      current_assessments-Chained case_id authority_epoch (append_all calls store).assessments
        (append_all-Chained calls store (subst Chained (sym e) empty-Chained))
    where
      empty-Chained : Chained []
      empty-Chained = record { distinct = tt; grounded = tt; grouped = tt; apart = tt }
