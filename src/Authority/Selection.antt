-- ===== src/Authority/Selection.antt =====
-- `_select_role_decisions`: one decision for each role, by backtracking. The two variables that the
-- nested function mutates, `selected` and `used_principals`, are a state that each call takes and
-- leaves.
use administrative_orchestra.Base.{
  Bool, List, Option, Text, [], any, contains, false, if◌then◌else◌, nat_eq, none, option_eq,
  set_add, set_remove, some, string_eq, true, ◌&&◌, ◌++◌, ◌==◌, ◌∷◌,
}
use administrative_orchestra.Domain.{Decision}

pub record Trail : Type 0 where
  pub selected : List Decision
  pub used : List Text

-- `selected.pop()`
abbrev pub pop {ℓ} : {A : Type ℓ} → List A → List A
pop [] = []
pop (x ∷ []) = []
pop (x ∷ y ∷ xs) = x ∷ pop (y ∷ xs)

abbrev pub push : Decision → Trail → Trail
push d t = record { selected = t.selected ++ d ∷ []; used = set_add d.principal_id t.used }

-- The three lines after a failed `visit(index + 1)`.
abbrev pub undo : Decision → Trail → Trail
undo d t =
    let rest = pop t.selected in
    record {
      selected = rest;
      used =
          if any (λ item. item.principal_id == d.principal_id) rest
          then t.used
          else set_remove d.principal_id t.used;
    }

-- The loop over `candidates[role]`; `next` is `visit(index + 1)`.
unfoldable pub try_each : Bool → (Trail → Bool × Trail) → List Decision → Trail → Bool × Trail
try_each distinct next [] t = (false, t)
try_each distinct next (d ∷ ds) t =
    let skipped = try_each distinct next ds t in
    let tried = next (push d t) in
    let retried = try_each distinct next ds (undo d tried.1) in
    if distinct && contains t.used d.principal_id
    then skipped
    else if tried.0
    then (true, tried.1)
    else retried

-- `visit(index)`, by the roles from `index` on.
unfoldable pub visit : Bool → (Text → List Decision) → List Text → Trail → Bool × Trail
unfolding try_each
visit distinct candidates [] t = (true, t)
visit distinct candidates (role ∷ roles) t =
    try_each distinct (visit distinct candidates roles) (candidates role) t

unfoldable pub select_role_decisions :
    List Text → (Text → List Decision) → Bool → Option (List Decision)
unfolding visit
select_role_decisions roles candidates distinct =
    let (found, t) = visit distinct candidates roles (record { selected = []; used = [] }) in
    if found then some t.selected else none
