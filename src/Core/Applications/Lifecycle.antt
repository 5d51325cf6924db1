-- ===== src/Core/Applications/Lifecycle.antt =====
-- The other methods of swiftwave_service/core/application.operations.go, and
-- application_group.operations.go.
use newrr.Common.{
  Bool, true, false, ◌&&◌, ltb, List, [], ◌∷◌, Option, none, some, Text, text_eq, failure, map,
  if◌then◌else◌,
}
use newrr.Core.Models.{IngressRule}
use newrr.Core.Queries.{Query, ◌>>=◌, ◌>>◌, answer, fail, read, reject, when, on_error}
use newrr.Core.Deployments
use newrr.Core.Deployments.{Deployment, BuildArg}
use newrr.Core.Applications.Models.{Application, ApplicationGroup, global, same_mode}
use newrr.Core.Applications.Store.{Store}
use newrr.Core.Applications.Updates.{is_application_deleted, is_deployed}

abbrev pub nonempty_list : {A : Type 0} → List A → Bool
nonempty_list [] = false
nonempty_list (x ∷ xs) = true

-- `application_group_id = ?` on a column that may be NULL
abbrev pub in_group : Text → Application → Bool
in_group id x = is_id x.application_group_id
  where
    is_id : Option Text → Bool
    is_id none = false
    is_id (some g) = text_eq g id

abbrev pub targets : Text → IngressRule → Bool
targets id r = is_id r.application_id
  where
    is_id : Option Text → Bool
    is_id none = false
    is_id (some i) = text_eq i id

pub record ApplicationDeploymentInfo : Type 0 where
  pub application_id : Text
  pub deployment_id : Text

-- The group that a Scan of one column finds: none where there is no row.
abbrev pub scanned_group : List Application → Option Text
scanned_group [] = none
scanned_group (a ∷ rest) = a.application_group_id

-- An empty text stands for no group.
abbrev pub group_or_none : Option Text → Option Text
group_or_none none = none
group_or_none (some g) = if text_eq g [] then none else some g

module _ {D : Type 0} (s : Store D) where
  -- FindApplicationsForForceUpdate
  unfoldable pub find_applications_for_force_update : Query D (List ApplicationDeploymentInfo)
  find_applications_for_force_update =
      read (s.deployments.find (λ y. is_deployed y.status)) >>= λ ys. answer (
        map (λ (y : Deployment). record { application_id = y.application_id; deployment_id = y.id })
          ys)

  -- FindApplicationsByApplicationGroupID
  abbrev pub find_applications_by_group : Text → Query D (List Application)
  find_applications_by_group id = read (s.applications.find (in_group id))

  -- (*ApplicationGroup).Create; `uuid` is what uuid.UUIDv4() returns.
  unfoldable pub create_group : Text → ApplicationGroup → Query D ApplicationGroup
  unfolding text_eq
  create_group uuid g =
      let h = if text_eq g.id [] then record g { id = uuid } else g in
      reject (text_eq g.name []) "name cannot be blank" >> s.groups.create h >> answer h

  -- (*ApplicationGroup).Delete
  unfoldable pub delete_group : Text → Query D (Unit {0})
  unfolding text_eq
  delete_group id = do
    applications ← find_applications_by_group id
    reject (nonempty_list applications) "application group has applications associated with it"
    s.groups.delete id

  -- IsAnyApplicationAssociatedWithGroup
  unfoldable pub is_any_application_associated : Text → Query D Bool
  unfolding text_eq
  is_any_application_associated id =
      read (s.applications.count (in_group id)) >>= λ n. answer (ltb 0 n)

  -- A group that no application is in any more is deleted.
  unfoldable pub delete_if_empty : Text → Query D (Unit {0})
  unfolding is_any_application_associated delete_group
  delete_if_empty id =
      is_any_application_associated id >>= λ used. if used then answer tt else delete_group id

  -- SoftDelete
  unfoldable pub soft_delete : Application → Query D (Unit {0})
  unfolding is_application_deleted text_eq
  soft_delete x = do
    deleted ← is_application_deleted s x.id
    reject deleted "application is deleted"
    rules ← read (s.rules.find (targets x.id))
    reject (nonempty_list rules) "application has ingress rules associated with it"
    s.applications.update x.id (λ a. record a { is_deleted = true })

  abbrev pub delete_if_group : Option Text → Query D (Unit {0})
  delete_if_group none = answer tt
  delete_if_group (some g) = delete_if_empty g

  -- HardDelete
  unfoldable pub hard_delete : Application → Query D (Unit {0})
  unfolding delete_if_empty text_eq
  hard_delete x = do
    rules ← read (s.rules.find (targets x.id))
    reject (nonempty_list rules) "application has ingress rules associated with it"
    found ← read (s.applications.find (λ a. text_eq a.id x.id))
    s.applications.delete x.id
    delete_if_group (scanned_group found)

  -- RebuildApplication: the latest deployment, and what it is built with, once more.
  abbrev pub latest_deployment : Text → Query D Deployment
  latest_deployment id =
      on_error
        (read (s.newest_deployment (λ y. text_eq y.application_id id && is_deployed y.status)))
        (on_error (read (s.newest_deployment (λ y. text_eq y.application_id id)))
          (fail (failure "failed to fetch latest deployment")))

  unfoldable pub rebuild_application : Text → Text → Query D Text
  unfolding text_eq
  rebuild_application uuid id = do
    read (s.applications.first (λ a. text_eq a.id id))
    latest ← latest_deployment id
    build_args ← read (s.find_build_args latest.id)
    made ← Deployments.create s.deployments uuid latest
    when (nonempty_list build_args) (s.create_build_args made.id build_args)
    answer made.id

  -- RegenerateWebhookToken
  unfoldable pub regenerate_webhook_token : Text → Text → Query D Application
  unfolding text_eq
  regenerate_webhook_token uuid id = do
    x ← read (s.applications.first (λ a. text_eq a.id id))
    s.applications.update x.id (λ a. record a { webhook_token = uuid })
    answer (record x { webhook_token = uuid })

  abbrev pub mark : Bool → Application → Query D Application
  mark sleeping x =
      s.applications.update x.id (λ a. record a { is_sleeping = sleeping })
      >> answer (record x { is_sleeping = sleeping })

  -- MarkAsSleeping and MarkAsWake
  unfoldable pub mark_as_sleeping : Text → Query D Application
  unfolding text_eq
  mark_as_sleeping id = do
    x ← read (s.applications.first (λ a. text_eq a.id id))
    reject (same_mode x.deployment_mode global) "global deployment cannot be marked as sleeping"
    mark true x

  unfoldable pub mark_as_wake : Text → Query D Application
  unfolding text_eq
  mark_as_wake id = do
    x ← read (s.applications.first (λ a. text_eq a.id id))
    reject (same_mode x.deployment_mode global) "global deployment cannot be marked as wake"
    mark false x

  abbrev pub leave_group : Option Text → Option Text → Query D (Unit {0})
  leave_group new none = answer tt
  leave_group (some g) (some old) = answer tt
  leave_group none (some old) = if text_eq old [] then answer tt else delete_if_empty old

  -- UpdateGroup
  unfoldable pub update_group : Text → Option Text → Query D (Unit {0})
  unfolding delete_if_empty text_eq
  update_group id group = do
    x ← read (s.applications.first (λ a. text_eq a.id id))
    s.applications.update x.id (λ a. record a { application_group_id = group_or_none group })
    leave_group (group_or_none group) x.application_group_id
