-- ===== src/Tests/Permissions.antt =====
-- Access on the sample directory.
use administrative_orchestra.Access.{
  AdministrativePermission, allows, case_scope, permits, scope_of,
}
use administrative_orchestra.Access.Matrix.{allows_lem}
use administrative_orchestra.Access.Table.{by_matrix}
use administrative_orchestra.Authority.{get_principal, roles_for}
use administrative_orchestra.Base.{Text, false, if◌then◌else◌, none, ok, refl, true, ◌>>=◌, ◌≡◌}
use administrative_orchestra.Domain.{Value, is_some}
use administrative_orchestra.Tests.Samples.{directory}

abbrev rendered : Value → Text
rendered v = "?"

-- Alice is a manager: she reads cases, and does not refresh facts.
alice_reads :
    allows rendered 50 "alice" AdministrativePermission.case_read none none directory ≡ ok true
unfolding allows get_principal permits roles_for scope_of case_scope
alice_reads = refl

alice_refreshes :
    allows rendered 50 "alice" AdministrativePermission.facts_refresh_authoritative none none
      directory
    ≡ ok false
unfolding allows get_principal permits roles_for scope_of case_scope
alice_refreshes = refl

allows_lem_example :
    allows rendered 50 "alice" AdministrativePermission.case_read none none directory ≡ (
      if is_some (get_principal "alice" directory)
      then (do
        roles ← roles_for "alice" (scope_of rendered none none) 50 directory
        ok (by_matrix AdministrativePermission.case_read none "alice" roles))
      else ok false)
allows_lem_example =
    allows_lem rendered 50 "alice" AdministrativePermission.case_read none none directory
