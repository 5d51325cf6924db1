-- ===== src/Core/Deployments/Rebuilds.antt =====
-- Update of core/deployment.operations.go: what makes it build again.
use newrr.Common.{
  arith, Bool, true, false, not, ◌≡◌, refl, sym, ap, ◌∙◌, if◌then◌else◌, List, [], ◌∷◌, length, any,
  All, Option, none, some, Result, ok, err, Error, Text, text_eq, text_eq_iff, Map, lookup, insert,
  lookup-insert, Bool-cases, inl, inr, ◌⊎◌,
}
use newrr.Core.Database.{Table}
use newrr.Core.Deployments.{
  Deployment, DeploymentUpdateResult, BuildArg, Pointer, UpstreamType, GitType, upstream_code,
  git_code, same_pointer, same_parameters, same_build_args, args_map, value_at, recreation_required,
  found_deployment, create, update, answer,
}

-- Both pointers are nil, or both point to the same place.
pub data SamePlace : Option Pointer → Option Pointer → Type 0 where
  nowhere : SamePlace none none
  there : (p q : Pointer) → p.address ≡ q.address → SamePlace (some p) (some q)

-- The value of the last argument with a key.
abbrev pub or_else : Option Text → Option Text → Option Text
or_else none o = o
or_else (some v) o = some v

abbrev pub last_value : Text → List BuildArg → Option Text
last_value key [] = none
last_value key (a ∷ rest) =
    or_else (last_value key rest) (if text_eq a.key key then some a.value else none)

-- What the two deployments have in common where nothing has to be built.
pub record Same (x y : Deployment) : Type 0 where
  pub upstream : x.upstream_type ≡ y.upstream_type
  pub credential : SamePlace x.git_credential_id y.git_credential_id
  pub provider : x.git_provider ≡ y.git_provider
  pub kind : x.git_type ≡ y.git_type
  pub endpoint : x.git_endpoint ≡ y.git_endpoint
  pub user : x.git_ssh_user ≡ y.git_ssh_user
  pub owner : x.repository_owner ≡ y.repository_owner
  pub repository : x.repository_name ≡ y.repository_name
  pub branch : x.repository_branch ≡ y.repository_branch
  pub commit : x.commit_hash ≡ y.commit_hash
  pub path : x.code_path ≡ y.code_path
  pub archive : x.source_code_compressed_file_name ≡ y.source_code_compressed_file_name
  pub docker : x.docker_image ≡ y.docker_image
  pub registry : SamePlace x.image_registry_credential_id y.image_registry_credential_id
  pub file : x.dockerfile ≡ y.dockerfile
  pub many_args : length x.build_args ≡ length y.build_args
  pub args : All (λ a. value_at (last_value a.key y.build_args) ≡ a.value) x.build_args

upstream_code_injective : (a b : UpstreamType) → upstream_code a ≡ upstream_code b → a ≡ b
upstream_code_injective a b h = ground arith

git_code_injective : (a b : GitType) → git_code a ≡ git_code b → a ≡ b
git_code_injective a b h = ground arith

same_pointer-SamePlace :
    (a b : Option Pointer)
    → (same_pointer a b ≡ true → SamePlace a b) × (SamePlace a b → same_pointer a b ≡ true)
same_pointer-SamePlace none none = (λ h. nowhere, λ s. refl)
same_pointer-SamePlace none (some q) = (λ h. absurd (ground arith), λ s. elim s [ ])
same_pointer-SamePlace (some p) none = (λ h. absurd (ground arith), λ s. elim s [ ])
same_pointer-SamePlace (some p) (some q) = (λ h. there p q (ground arith), of_place)
  where
    of_place : SamePlace (some p) (some q) → same_pointer (some p) (some q) ≡ true
    of_place (there _ _ e) = ground (arith, e)

lookup-args_map :
    (key : Text) (args : List BuildArg) (m : Map Text)
    → lookup key (args_map args m) ≡ or_else (last_value key args) (lookup key m)
lookup-args_map key [] m = refl
lookup-args_map key (a ∷ rest) m =
    lookup-args_map key rest (insert a.key a.value m)
    ∙ ap (or_else (last_value key rest)) (lookup-insert a.key key a.value m)
    ∙ regrouped (last_value key rest) (text_eq a.key key)
  where
    regrouped :
        (o : Option Text) (b : Bool)
        → or_else o (if b then some a.value else lookup key m)
          ≡ or_else (or_else o (if b then some a.value else none)) (lookup key m)
    regrouped (some v) b = refl
    regrouped none true = refl
    regrouped none false = refl

value-args_map :
    (key : Text) (args : List BuildArg)
    → value_at (lookup key (args_map args [])) ≡ value_at (last_value key args)
unfolding lookup
value-args_map key args = ap value_at (lookup-args_map key args [] ∙ nothing (last_value key args))
  where
    nothing : (o : Option Text) → or_else o none ≡ o
    nothing none = refl
    nothing (some v) = refl

abbrev other_value : List BuildArg → BuildArg → Bool
other_value latest a = not (text_eq (value_at (lookup a.key (args_map latest []))) a.value)

any-All :
    (new latest : List BuildArg)
    → (any (other_value latest) new ≡ false
        → All (λ a. value_at (last_value a.key latest) ≡ a.value) new)
      × (All (λ a. value_at (last_value a.key latest) ≡ a.value) new
          → any (other_value latest) new ≡ false)
any-All [] latest = (λ h. tt, λ h. refl)
any-All (a ∷ new) latest =
    let v = value-args_map a.key latest in
    let i = text_eq_iff (value_at (lookup a.key (args_map latest []))) a.value in
    let r = any-All new latest in
    (
      λ h. (sym v ∙ i.0 (ground arith), r.0 (ground arith)),
      λ h. let t = i.1 (v ∙ h.0) in let n = r.1 h.1 in ground (arith, t, n),
    )

same_build_args-Same :
    (x y : Deployment)
    → (same_build_args x.build_args y.build_args ≡ true
        → (length x.build_args ≡ length y.build_args)
          × All (λ a. value_at (last_value a.key y.build_args) ≡ a.value) x.build_args)
      × ((length x.build_args ≡ length y.build_args)
          → All (λ a. value_at (last_value a.key y.build_args) ≡ a.value) x.build_args
          → same_build_args x.build_args y.build_args ≡ true)
unfolding same_build_args
same_build_args-Same x y =
    let r = any-All x.build_args y.build_args in
    (λ h. (ground arith, r.0 (ground arith)), λ e h. let n = r.1 h in ground (arith, e, n))

parameters_Same :
    (x y : Deployment)
    → same_parameters x y ≡ true
    → same_build_args x.build_args y.build_args ≡ true
    → Same x y
unfolding same_parameters
parameters_Same x y h k =
    let args = (same_build_args-Same x y).0 k in
    record {
      upstream = upstream_code_injective _ _ (ground arith);
      credential = (same_pointer-SamePlace _ _).0 (ground arith);
      provider = (text_eq_iff _ _).0 (ground arith);
      kind = git_code_injective _ _ (ground arith);
      endpoint = (text_eq_iff _ _).0 (ground arith);
      user = (text_eq_iff _ _).0 (ground arith);
      owner = (text_eq_iff _ _).0 (ground arith);
      repository = (text_eq_iff _ _).0 (ground arith);
      branch = (text_eq_iff _ _).0 (ground arith);
      commit = (text_eq_iff _ _).0 (ground arith);
      path = (text_eq_iff _ _).0 (ground arith);
      archive = (text_eq_iff _ _).0 (ground arith);
      docker = (text_eq_iff _ _).0 (ground arith);
      registry = (same_pointer-SamePlace _ _).0 (ground arith);
      file = (text_eq_iff _ _).0 (ground arith);
      many_args = args.0;
      args = args.1;
    }

Same-parameters : (x y : Deployment) → Same x y → same_parameters x y ≡ true
unfolding same_parameters
Same-parameters x y s =
    let same = λ (a b : Text) (e : a ≡ b). (text_eq_iff a b).1 e in
    rw
      (
        ap upstream_code s.upstream,
        ap git_code s.kind,
        (same_pointer-SamePlace _ _).1 s.credential,
        (same_pointer-SamePlace _ _).1 s.registry,
        same _ _ s.provider,
        same _ _ s.endpoint,
        same _ _ s.user,
        same _ _ s.owner,
        same _ _ s.repository,
        same _ _ s.branch,
        same _ _ s.commit,
        same _ _ s.path,
        same _ _ s.archive,
        same _ _ s.docker,
        same _ _ s.file,
      )
      (ground arith)

-- The test for a rebuild is a decision.
recreation_required-Same :
    (x y : Deployment)
    → (recreation_required x y ≡ false → Same x y) × (Same x y → recreation_required x y ≡ false)
recreation_required-Same x y = (
  λ h. parameters_Same x y (ground arith) (ground arith),
  λ s.
      let p = Same-parameters x y s in
      let a = (same_build_args-Same x y).1 s.many_args s.args in ground (arith, p, a),
)

-- The answer to a deployment that was created, or not.
pub data Rebuilds : Result Deployment → Result DeploymentUpdateResult → Type 0 where
  rebuilt :
      (y : Deployment) (r : DeploymentUpdateResult)
      → r.rebuild_required ≡ true
      → r.deployment_id ≡ y.id
      → Rebuilds (ok y) (ok r)
  failed : (e : Error) → Rebuilds (err e) (err e)

answered :
    {D : Type 0} (z : D × Result Deployment) → ((answer z).0 ≡ z.0) × Rebuilds z.1 (answer z).1
answered (e, ok z) = (refl, rebuilt z _ refl refl)
answered (e, err c) = (refl, failed c)

-- An Update whose query succeeds compares with the deployment that it has found. Either every
-- compared parameter is the same, both pointers to a credential point to the same place or are nil,
-- there are as many build arguments, and each has the last value found under its key; then it
-- changes nothing and answers that no rebuild is required. Or that is not so; then it does to the
-- database what Create does, and answers that a rebuild is required, as the deployment that Create
-- has stored, or with the error of Create.
pub update-Same :
    {D : Type 0} (deployments : Table D Deployment) (uuid : Text) (x : Deployment)
    (ys : List Deployment) (d : D)
    → deployments.find (λ z. text_eq z.id x.id) d ≡ ok ys
    → let y = found_deployment ys in
      let unchanged : DeploymentUpdateResult = record {
        rebuild_required = false;
        deployment_id = y.id;
      } in
      (Same x y × (update deployments uuid x d ≡ (d, ok unchanged)))
      ⊎ ((¬ (Same x y))
          × ((update deployments uuid x d).0 ≡ (create deployments uuid x d).0)
          × Rebuilds (create deployments uuid x d).1 (update deployments uuid x d).1)
unfolding update create
update-Same deployments uuid x ys d f =
    let y = found_deployment ys in
    let i = recreation_required-Same x y in
    elim (Bool-cases (recreation_required x y)) [
      | inr e ↦ inl (i.0 e, rw (f, e) refl)
      | inl e ↦
          let a = answered (create deployments uuid x d) in
          inr ((λ s. let n = i.1 s in ground (arith, e, n)), (rw (f, e) a.0), (rw (f, e) a.1))
    ]
