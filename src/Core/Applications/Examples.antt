-- ===== src/Core/Applications/Examples.antt =====
-- One application in memory, and runs of its methods.
use newrr.Common.{
  arith, ◌≤◌, ◌≡◌, refl, subst, Bool, true, false, ◌&&◌, List, [], ◌∷◌, none, text, text_eq, ok,
  err, failure, lookup, insert, remove,
}
use newrr.Core.Deployments
use newrr.Core.Deployments.{Deployment, zero_deployment, image, deployed}
use newrr.Core.Reconcile
use newrr.Core.Reconcile.{Kind}
use newrr.Core.Reconcile.Exact.{Fetched}
use newrr.Core.Database.{Table}
use newrr.Core.Applications.Models.{Application}
use newrr.Core.Applications.Store.{named_rows}
use newrr.Core.Applications.Memory.{
  Memory, store, store-IsStore, store-IsNamedStore, store-KeepsApplications,
}
use newrr.Core.Applications.Creation.{no_error, create, created_application}
use newrr.Core.Applications.Updates
use newrr.Core.Applications.Updates.{
  update, update_columns, ApplicationUpdateResult, variable_kind, mount_kind, binding_kind,
  hostnames_changed,
}
use newrr.Core.Applications.Lifecycle.{soft_delete, mark_as_sleeping, mark_as_wake}
use newrr.Core.Applications.Wanted.{variable_of, mount_of, binding_of}
use newrr.Core.Applications.Rows.{AllAsWanted}
use newrr.Core.Applications.Exact.{FindsRows, update-as_wanted}
use newrr.Core.Applications.Silence.{update-untouched}
use newrr.Core.Applications.Sleeping.{mark_as_wake-mark_as_sleeping}
use newrr.Core.Applications.Deletion.{soft_delete-update}
use newrr.Core.Applications.Naming.{MountedOnce}
use newrr.Core.Applications.Unique.{create_sound}
use newrr.Core.Applications.Samples.{no_proxy, site, start, request, same_request, after_request}

updated : update store (text "d2") request start ≡ (
  after_request,
  ok (record { rebuild_required = false; reload_required = true; deployment_id = text "d1" }),
)
unfolding update text_eq lookup insert remove Deployments.update Reconcile.reconcile
    Reconcile.settle Reconcile.add_rows Updates.binding_map Updates.current_deployment_id
updated = refl

same_found :
    {R V : Type 0} (t : Table Memory R) (k : Kind R V) (mine : R → Bool) (xs ys : List R)
    → Fetched t k mine xs start
    → ok xs ≡ ok ys
    → Fetched t k mine ys start
same_found t k mine xs ys f e = subst (λ zs. Fetched t k mine zs start) (list_of e) f
  where
    list_of : ok xs ≡ ok ys → xs ≡ ys
    list_of e = cc

start-FindsRows : FindsRows store (text "a1") start
unfolding text_eq
start-FindsRows = record {
  finds_variables = λ xs.
      same_found store.environment_variables (variable_kind (text "a1")) (variable_of (text "a1"))
        start.variables xs
        (record {
          rows = (record { present = λ q h. ground arith; single = omega arith }, refl, tt, tt);
          all = λ p. refl;
        });
  finds_mounts = λ xs.
      same_found store.config_mounts (mount_kind (text "a1")) (mount_of (text "a1")) [] xs
        (record { rows = tt; all = λ p. refl });
  finds_bindings = λ xs.
      same_found store.bindings (binding_kind (text "a1")) (binding_of (text "a1")) [] xs
        (record { rows = tt; all = λ p. refl });
}

first_site : store.applications.first (λ a. text_eq a.id (text "a1")) start ≡ ok site
unfolding text_eq
first_site = refl

update-as_wanted_example : AllAsWanted store store-IsStore request after_request
unfolding hostnames_changed
update-as_wanted_example =
    update-as_wanted store store-IsStore request start start-FindsRows site first_site (refl, refl)
      (text "d2") after_request
      (record { rebuild_required = false; reload_required = true; deployment_id = text "d1" })
      updated

-- A request for other preferred servers that takes the variable out: gorm writes it back.
abbrev moved : Application
moved = record site { environment_variables = []; preferred_server_hostnames = [] }

variable_returns : (update store (text "d2") moved start).0.variables ≡ start.variables
unfolding update text_eq lookup insert remove Deployments.update Reconcile.reconcile
    Reconcile.settle Reconcile.add_rows Updates.binding_map Updates.current_deployment_id
variable_returns = refl

unchanged : update store (text "d2") same_request start ≡ (
  start,
  ok (record { rebuild_required = false; reload_required = false; deployment_id = text "d1" }),
)
unfolding update text_eq lookup insert remove Deployments.update Reconcile.reconcile
    Reconcile.settle Reconcile.add_rows Updates.binding_map Updates.current_deployment_id
unchanged = refl

update-untouched_example : start ≡ start
update-untouched_example =
    update-untouched store (text "d2") same_request start start
      (record { rebuild_required = false; reload_required = false; deployment_id = text "d1" })
      unchanged refl refl

abbrev ungrouped : Memory
ungrouped = record start {
  applications = record site { application_group_id = none } ∷ [];
  groups = [];
}

abbrev marked : Memory
marked = record start { applications = record site { is_deleted = true } ∷ [] }

marked_deleted : soft_delete store site start ≡ (marked, ok tt)
unfolding soft_delete text_eq
marked_deleted = refl

site_there : 1 ≤ named_rows store.applications (λ z. text_eq z.id (text "a1")) start
unfolding text_eq
site_there = omega arith

soft_delete-update_example : ¬ (
    update store (text "d2") request marked ≡ (
      marked,
      ok (record { rebuild_required = false; reload_required = true; deployment_id = text "d1" }),
    ))
soft_delete-update_example =
    soft_delete-update store store-IsNamedStore site request (text "d2") start marked marked tt
      (record { rebuild_required = false; reload_required = true; deployment_id = text "d1" })
      site_there marked_deleted refl

abbrev sleeping : Application
sleeping = record site { is_sleeping = true }

put_to_sleep :
    mark_as_sleeping store (text "a1") start
    ≡ (record start { applications = sleeping ∷ [] }, ok sleeping)
unfolding mark_as_sleeping text_eq
put_to_sleep = refl

woken :
    mark_as_wake store (text "a1") (record start { applications = sleeping ∷ [] })
    ≡ (start, ok site)
unfolding mark_as_wake text_eq
woken = refl

awake : named_rows store.applications (λ a. text_eq a.id (text "a1") && a.is_sleeping) start ≡ 0
unfolding text_eq
awake = refl

mark_as_wake-mark_as_sleeping_example :
    named_rows store.applications (λ a. a.is_sleeping) start
    ≡ named_rows store.applications (λ a. a.is_sleeping) start
mark_as_wake-mark_as_sleeping_example =
    mark_as_wake-mark_as_sleeping store store-IsNamedStore (text "a1") start
      (record start { applications = sleeping ∷ [] }) start sleeping site put_to_sleep woken awake
      (λ a. a.is_sleeping)

abbrev nothing : Memory
nothing = record {
  applications = [];
  groups = [];
  variables = [];
  mounts = [];
  bindings = [];
  deployments = [];
  rules = [];
}

created : create store (text "a1") (text "w") (text "d1") [] request nothing ≡ (
  (create store (text "a1") (text "w") (text "d1") [] request nothing).0,
  ok (created_application (text "a1") (text "w") request),
)
unfolding create text_eq Deployments.create
created = refl

create_sound_example :
    (named_rows store.applications
        (λ z. text_eq z.name (text "site"))
        (create store (text "a1") (text "w") (text "d1") [] request nothing).0
      ≡ 1)
    × (no_error (store.get_service (text "site")) ≡ false)
    × MountedOnce request
create_sound_example =
    create_sound store (store-IsNamedStore.applications-IsNamedTable) store-KeepsApplications
      (text "a1") (text "w") (text "d1") [] request
      (created_application (text "a1") (text "w") request) nothing
      (create store (text "a1") (text "w") (text "d1") [] request nothing).0 created

-- Two servers, and the proxy.
abbrev proxied : Application
proxied = record site {
  docker_proxy = record no_proxy { enabled = true };
  preferred_server_hostnames = text "node-1" ∷ text "node-1" ∷ [];
}

-- Create accepts it, and Update does not.
proxied_created :
    (create store (text "a1") (text "w") (text "d1") [] proxied nothing).1
    ≡ ok (created_application (text "a1") (text "w") proxied)
unfolding create text_eq Deployments.create
proxied_created = refl

proxied_refused : update store (text "d2") proxied start ≡ (
  start,
  err (failure "you must select preferred servers for deployment to get access to docker proxy"),
)
unfolding update text_eq
proxied_refused = refl
