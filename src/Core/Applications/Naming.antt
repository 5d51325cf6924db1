-- ===== src/Core/Applications/Naming.antt =====
-- What a Create that succeeds has found out: the name is free, and no mounting path stands twice.
use newrr.Common.{
  arith, ℕ, ◌+◌, ◌≤◌, ◌≡◌, refl, subst, Bool, true, false, ltb, if◌then◌else◌, List, [], ◌∷◌, map,
  Option, none, some, Text, text_eq, text_eq_iff, Result, ok, err, count, Bool-cases, inl, inr,
}
use newrr.Core.Queries.{answer, read, reject, after}
use newrr.Core.Queries.Effects.{
  Ends, after-Ends, imply-Ends, both-Ends, kept-Ends, reject-Keeps, read-Keeps, answer-Keeps,
  if-Keeps, Keeps, bind-Keeps, untouched-Ends, allowed-Ends, always-Ends, known-Ends,
}
use newrr.Core.Deployments.{Deployment, Pointer, UpstreamType, git, image, source_code}
use newrr.Core.Applications.Models.{Application, ConfigMount, PersistentVolumeBinding}
use newrr.Core.Applications.Store.{Store, IsNamedTable, named_rows, Counted}
use newrr.Core.Applications.Creation.{
  no_error, member, make_bindings, make_mounts, create_all, check_creation, create_rows,
  check_servers, found_server, check_limits, credential, check_git, check_image, check_source,
  is_exist_application_name, new_variable,
}

-- How often a mounting path stands in a request.
abbrev pub bound_at : Text → List PersistentVolumeBinding → ℕ
bound_at j bs = count (λ b. text_eq b.mounting_path j) bs

abbrev pub mounted_at : Text → List ConfigMount → ℕ
mounted_at j cs = count (λ c. text_eq c.mounting_path j) cs

abbrev taken : Text → List Text → ℕ
taken j used = if member j used then 1 else 0

-- One more path, that was not in use.
once_more :
    (j p : Text) (n : ℕ) (used : List Text)
    → member p used ≡ false
    → n + taken j (p ∷ used) ≤ 1
    → (if text_eq p j then 1 else 0) + n + taken j used ≤ 1
once_more j p n used h k = elim (Bool-cases (text_eq p j)) [
  | inl y ↦
      let e = (text_eq_iff p j).0 y in
      rw y (let q : member j used ≡ false = rw (← e) h in ground (arith, k, y, q))
  | inr y ↦ ground (arith, k, y)
]

-- No mounting path stands twice.
abbrev pub MountedOnce : Application → Type 0
MountedOnce x =
    ((j : Text) → bound_at j x.persistent_volume_bindings ≤ 1)
    × ((j : Text) → mounted_at j x.config_mounts ≤ 1)

module _ {D B : Type 0} (s : Store D) (part : D → B) where
  is_exist_application_name-Keeps : (name : Text) → Keeps part (is_exist_application_name s name)
  unfolding is_exist_application_name
  is_exist_application_name-Keeps name =
      search (bind-Keeps part, reject-Keeps part, read-Keeps part, answer-Keeps part, if-Keeps part)
        depth 12

module _ {D : Type 0} (s : Store D) where
  -- The paths of the rows are not among those in use, and none stands twice.
  make_bindings-once :
      (id : Text) (bs : List PersistentVolumeBinding) (used : List Text) (d : D)
      → Ends (λ _ _. (j : Text) → bound_at j bs + taken j used ≤ 1) (make_bindings s id bs used d)
  unfolding make_bindings
  make_bindings-once id [] used d = λ j. ground arith
  make_bindings-once id (b ∷ bs) used d =
      after-Ends (λ _ _. member b.mounting_path used ≡ false)
        (λ _ _. (j : Text) → bound_at j (b ∷ bs) + taken j used ≤ 1)
        (after (reject (member b.mounting_path used) "mounting path already used" d)
          (λ _. read (s.find_persistent_volume b.persistent_volume_id)))
        _
        (allowed-Ends (member b.mounting_path used) "mounting path already used" d
          (λ _. read (s.find_persistent_volume b.persistent_volume_id)))
        (λ _ e q.
          after-Ends (λ _ _. (j : Text) → bound_at j bs + taken j (b.mounting_path ∷ used) ≤ 1)
            (λ _ _. (j : Text) → bound_at j (b ∷ bs) + taken j used ≤ 1)
            (make_bindings s id bs (b.mounting_path ∷ used) e) _
            (make_bindings-once id bs (b.mounting_path ∷ used) e)
            (λ _ f h j. once_more j b.mounting_path (bound_at j bs) used q (h j)))

  make_mounts-once :
      (id : Text) (cs : List ConfigMount) (used : List Text) (d : D)
      → Ends (λ _ _. (j : Text) → mounted_at j cs + taken j used ≤ 1) (make_mounts s id cs used d)
  unfolding make_mounts
  make_mounts-once id [] used d = λ j. ground arith
  make_mounts-once id (c ∷ cs) used d =
      after-Ends (λ _ _. member c.mounting_path used ≡ false)
        (λ _ _. (j : Text) → mounted_at j (c ∷ cs) + taken j used ≤ 1)
        (reject (member c.mounting_path used) "mounting path already used" d) _
        (test_passed (member c.mounting_path used))
        (λ _ e q.
          after-Ends (λ _ _. (j : Text) → mounted_at j cs + taken j (c.mounting_path ∷ used) ≤ 1)
            (λ _ _. (j : Text) → mounted_at j (c ∷ cs) + taken j used ≤ 1)
            (make_mounts s id cs (c.mounting_path ∷ used) e) _
            (make_mounts-once id cs (c.mounting_path ∷ used) e)
            (λ _ f h j. once_more j c.mounting_path (mounted_at j cs) used q (h j)))
    where
      test_passed : (t : Bool) → Ends (λ _ _. t ≡ false) (reject t "mounting path already used" d)
      test_passed true = tt
      test_passed false = refl

  pub create_rows-once :
      (id : Text) (x : Application) (d : D) → Ends (λ _ _. MountedOnce x) (create_rows s id x d)
  unfolding create_rows
  create_rows-once id x d =
      after-Ends (λ _ _. Unit {0}) (λ _ _. MountedOnce x)
        (create_all s s.create_environment_variables (map (new_variable id) x.environment_variables)
          d)
        _
        (always-Ends (
          create_all s s.create_environment_variables
            (map (new_variable id) x.environment_variables) d))
        (λ _ b _.
          after-Ends (λ _ _. (j : Text) → bound_at j x.persistent_volume_bindings + taken j [] ≤ 1)
            (λ _ _. MountedOnce x) (make_bindings s id x.persistent_volume_bindings [] b) _
            (make_bindings-once id x.persistent_volume_bindings [] b)
            (λ bs c h.
              after-Ends (λ _ _. Unit {0}) (λ _ _. MountedOnce x)
                (create_all s s.create_bindings bs c) _
                (always-Ends (create_all s s.create_bindings bs c))
                (λ _ e _.
                  after-Ends (λ _ _. (j : Text) → mounted_at j x.config_mounts + taken j [] ≤ 1)
                    (λ _ _. MountedOnce x) (make_mounts s id x.config_mounts [] e) _
                    (make_mounts-once id x.config_mounts [] e)
                    (λ cs f k.
                      imply-Ends (λ _ _. Unit {0}) (λ _ _. MountedOnce x)
                        (create_all s s.create_config_mounts cs f)
                        (always-Ends (create_all s s.create_config_mounts cs f))
                        (λ _ _ _. (λ j. omega (arith, h j), λ j. omega (arith, k j)))))))

  -- The name is free: no application in the database has it, and no service of the swarm.
  abbrev pub Free : Text → D → Type 0
  Free name e =
      (named_rows s.applications (λ z. text_eq z.name name) e ≡ 0)
      × (no_error (s.get_service name) ≡ false)

  module _ (l : IsNamedTable s.applications) where
    name-Free :
        (name : Text) (d : D)
        → Ends (λ b e. b ≡ false → Free name e) (is_exist_application_name s name d)
    unfolding is_exist_application_name
    name-Free name d =
        after-Ends (λ n e. n ≡ named_rows s.applications (λ z. text_eq z.name name) e)
          (λ b e. b ≡ false → Free name e)
          (after (reject _ "application name cannot contain any special characters at the end" d)
            (λ _. read (s.applications.count (λ z. text_eq z.name name))))
          _
          (untouched-Ends (λ n e. n ≡ named_rows s.applications (λ z. text_eq z.name name) e)
            (reject _ "application name cannot contain any special characters at the end")
            (λ _. read (s.applications.count (λ z. text_eq z.name name))) d
            (reject-Keeps (λ q. q) _
              "application name cannot contain any special characters at the end")
            (λ _.
              counted (s.applications.count (λ z. text_eq z.name name) d)
                (l.count-Counted (λ z. text_eq z.name name) d)))
          (λ n e q. answered (ltb 0 n) n e refl q)
      where
        counted :
            (r : Result ℕ)
            → Counted s.applications (λ z. text_eq z.name name) d r
            → Ends (λ n e. n ≡ named_rows s.applications (λ z. text_eq z.name name) e) (d, r)
        counted (err c) h = tt
        counted (ok n) h = h

        answered :
            (t : Bool) (n : ℕ) (e : D)
            → ltb 0 n ≡ t
            → n ≡ named_rows s.applications (λ z. text_eq z.name name) e
            → Ends
                (λ b e. b ≡ false → Free name e)
                ((if t then answer true else answer (no_error (s.get_service name))) e)
        answered true n e h q = λ k. cc
        answered false n e h q = λ k. (ground (arith, h, q), k)

    pub check_creation-Free :
        (dir : Text) (x : Application) (d : D)
        → Ends (λ _ e. Free x.name d) (check_creation s dir x d)
    unfolding check_creation
    check_creation-Free dir x d =
        let P = λ (ids : Option Pointer × Option Pointer) (e : D). Free x.name d in
        after-Ends (λ b _. b ≡ false → Free x.name d) P (is_exist_application_name s x.name d) _
          (named x.name)
          (λ b e h.
            known-Ends (Free x.name d) (reject b "application name not available" e) _
              (unset b e h))
      where
        unset :
            (b : Bool) (e : D)
            → (b ≡ false → Free x.name d)
            → Ends (λ _ _. Free x.name d) (reject b "application name not available" e)
        unset true e h = tt
        unset false e h = h refl

        named :
            (name : Text)
            → Ends (λ b _. b ≡ false → Free name d) (is_exist_application_name s name d)
        named name =
            imply-Ends (λ b e. (b ≡ false → Free name e) × (e ≡ d)) (λ b _. b ≡ false → Free name d)
              (is_exist_application_name s name d)
              (both-Ends (λ b e. b ≡ false → Free name e) (λ _ e. e ≡ d)
                (is_exist_application_name s name d) (name-Free name d)
                (kept-Ends (λ q. q) d (is_exist_application_name s name d)
                  (is_exist_application_name-Keeps s (λ q. q) name d)))
              (λ b e h k. subst (Free name) h.1 (h.0 k))

  check_servers-Keeps : (hosts : List Text) → Keeps (λ q. q) (check_servers s hosts)
  unfolding check_servers
  check_servers-Keeps [] = λ d. refl
  check_servers-Keeps (h ∷ hs) =
      bind-Keeps (λ q. q) (read (λ d. found_server s h (s.find_server h d)))
        (λ _. check_servers s hs) (λ d. refl) (λ _. check_servers-Keeps hs)

  pub check_creation-Keeps :
      (dir : Text) (x : Application) → Keeps (λ q. q) (check_creation s dir x)
  unfolding check_creation check_limits
  check_creation-Keeps dir x =
      search
        (
          bind-Keeps (λ q. q),
          reject-Keeps (λ q. q),
          read-Keeps (λ q. q),
          answer-Keeps (λ q. q),
          is_exist_application_name-Keeps s (λ q. q),
          check_servers-Keeps,
          check_git-Keeps,
          check_image-Keeps,
          check_source-Keeps,
        )
        depth 20
    where
      credential-Keeps :
          (find : ℕ → D → Result (Unit {0})) (p : Option Pointer)
          → Keeps (λ q. q) (credential s find p)
      credential-Keeps find none = λ d. refl
      credential-Keeps find (some p) =
          bind-Keeps (λ q. q) (read (find p.target)) (λ _. answer (some p)) (λ d. refl)
            (λ _ d. refl)

      check_git-Keeps : (y : Deployment) (u : UpstreamType) → Keeps (λ q. q) (check_git s y u)
      check_git-Keeps y git = credential-Keeps s.find_git_credential y.git_credential_id
      check_git-Keeps y _ = λ d. refl

      check_image-Keeps : (y : Deployment) (u : UpstreamType) → Keeps (λ q. q) (check_image s y u)
      check_image-Keeps y image =
          credential-Keeps s.find_image_registry_credential y.image_registry_credential_id
      check_image-Keeps y _ = λ d. refl

      check_source-Keeps :
          (y : Deployment) (u : UpstreamType) → Keeps (λ q. q) (check_source s dir y u)
      check_source-Keeps y source_code =
          reject-Keeps (λ q. q) (s.is_not_exist dir y.source_code_compressed_file_name)
            "source code not found"
      check_source-Keeps y _ = λ d. refl
