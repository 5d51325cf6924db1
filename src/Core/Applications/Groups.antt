-- ===== src/Core/Applications/Groups.antt =====
-- The groups of applications: HardDelete and UpdateGroup leave no group behind that has become empty.
use newrr.Common.{◌≤◌, ◌≡◌, ◌⊎◌, Text, text_eq}
use newrr.Core.Applications.Models.{Application, ApplicationGroup}
use newrr.Core.Applications.Store.{Store, IsNamedTable, named_rows}
use newrr.Core.Applications.Lifecycle.{in_group}

-- The tables of applications and of groups, with their primary keys.
pub record IsNamedStore {D : Type 0} (s : Store D) : Type 0 where
  pub applications-IsNamedTable : IsNamedTable s.applications
  pub groups-IsNamedTable : IsNamedTable s.groups
  pub application_id : (a : Application) → s.applications.id_of a ≡ a.id
  pub group_id : (g : ApplicationGroup) → s.groups.id_of g ≡ g.id

module _ {D : Type 0} (s : Store D) (l : IsNamedStore s) where
  -- A group that is in use, or is not in the table.
  abbrev pub Used : Text → D → Type 0
  Used g e =
      (1 ≤ named_rows s.applications (in_group g) e)
      ⊎ (named_rows s.groups (λ z. text_eq (s.groups.id_of z) g) e ≡ 0)
