-- ===== src/PolicyPlane/Commands.antt =====
-- The writes of PolicyRepository as commands, and sequences of them.
use administrative_orchestra.Base.{
  Eq, List, Text, Timestamp, Uuid, [], err, nat_eq, ok, option_eq, string_eq, ◌∷◌,
}
use administrative_orchestra.Domain.{status_eq}
use administrative_orchestra.PolicyPlane.Store.{
  PolicyStore, Stored, activate, assert_no_active_overlap, create_draft, put_version, retire,
  set_status,
}
use administrative_orchestra.PolicyPlane.Versions.{
  PolicyVersionRecord, PolicyVersionStatus, version_status_eq,
}

pub data Command (Json : Type 0) : Type 0 where
  put : PolicyVersionRecord Json → Command Json
  draft : PolicyVersionRecord Json → Command Json
  status : Text → Text → PolicyVersionStatus → Command Json
  activation : Uuid → Timestamp → Text → Text → Text → Text → Command Json
  retirement : Uuid → Timestamp → Text → Text → Text → Text → Command Json

module _ {Json : Type 0} ⦃json : Eq Json⦄ where
  unfoldable pub perform : Command Json → PolicyStore Json → Stored Json
  perform (Command.put r) store = put_version r store
  perform (Command.draft r) store = create_draft r store
  perform (Command.status policy_id version s) store = set_status policy_id version s store
  perform (Command.activation id now policy_id version actor reason) store =
      activate id now policy_id version actor reason store
  perform (Command.retirement id now policy_id version actor reason) store =
      retire id now policy_id version actor reason store

  -- A refused command leaves the store as it was: its transaction is rolled back.
  abbrev pub settled : PolicyStore Json → Stored Json → PolicyStore Json
  settled store (err e) = store
  settled store (ok (r, after)) = after

  unfoldable pub perform_all : List (Command Json) → PolicyStore Json → PolicyStore Json
  perform_all [] store = store
  perform_all (c ∷ cs) store = perform_all cs (settled store (perform c store))

unfoldable pub policy_writes : Unit {0}
unfolding perform put_version create_draft set_status activate retire assert_no_active_overlap
policy_writes = tt
