-- ===== src/GitManager/Parser/RoundTrip.antt =====
-- ParseGitRepoInfo reads back what URL prints.
use newrr.Common.{
  ℕ, ◌≡◌, ◌≢◌, refl, sym, ap, ◌∙◌, Bool, true, false, ◌||◌, inl, inr, ◌⊎◌, [], ◌∷◌, ◌++◌,
  append_assoc, Text, text, ◌==◌, after_prefix, trim_prefix, trim_suffix, trim_space, is_space,
  text_eq, has_prefix, split_by, subst, arith, none, if◌then◌else◌, ok,
}
use newrr.GitManager.Parser.{
  GitRepoInfo, some_dots, some_then, url, parse_git_repo_info, is_valid_ssh_git_url_v1,
  is_valid_ssh_git_url_v2, is_valid_http_git_url, http_path, http_info, slash, git_provider,
}
use newrr.GitManager.Parser.Pieces.{
  Free, Free-append, trim_space-Free, some_then-Free, some_then-append, some_dots-Free,
  trim_prefix-append, trim_suffix-Free, after_prefix-slashes,
}
use newrr.GitManager.Parser.Printed.{path, Free-weaken, http_info-path, tail_of, printed}

-- A piece of a URL: not empty, without `@` and without spaces.
abbrev pub special : ℕ → Bool
special c = is_space c || c == b'@'

-- The repositories of a host that is reached by HTTP: the owner may have several parts and may be
-- absent, and the name does not end in ".git".
pub record IsHttpRepo (r : GitRepoInfo) (scheme host : Text) : Type 0 where
  pub parsed : r.is_parsed ≡ true
  pub no_ssh : r.is_ssh_endpoint ≡ false
  pub no_user : r.ssh_user ≡ []
  pub known_scheme : (scheme ≡ text "http://") ⊎ (scheme ≡ text "https://")
  pub endpoint_is : r.endpoint ≡ scheme ++ host
  pub provider_is : r.provider ≡ git_provider r.endpoint
  pub host_some : host ≢ []
  pub host_plain : Free (λ c. special c || slash c) host
  pub owner_plain : Free special r.owner
  pub owner_start : after_prefix r.owner (text "/") ≡ none
  pub name_some : r.name ≢ []
  pub name_plain : Free (λ c. special c || slash c) r.name
  pub name_bare : trim_suffix r.name (text ".git") ≡ r.name

module _ (host owner name : Text) (hs : host ≢ []) (hp : Free (λ c. special c || slash c) host)
    (op : Free special owner) (os : after_prefix owner (text "/") ≡ none) (ns : name ≢ [])
    (np : Free (λ c. special c || slash c) name) where
  path-Free :
      (q : ℕ → Bool)
      → q b'/' ≡ false
      → ((c : ℕ) → special c ≡ false → q c ≡ false)
      → Free q (path owner name)
  path-Free q z k = of_owner owner op
    where
      of_name : Free q name
      of_name = Free-weaken (λ c. special c || slash c) q name (λ c h. k c (ground arith)) np

      of_owner : (o : Text) → Free special o → Free q (path o name)
      of_owner [] h = of_name
      of_owner (c ∷ o) h =
          (k c h.0, Free-append q o (b'/' ∷ name) (Free-weaken special q o k h.1) (z, of_name))

  tail-Free :
      (q : ℕ → Bool)
      → q b'/' ≡ false
      → ((c : ℕ) → special c ≡ false → q c ≡ false)
      → Free q (tail_of host owner name)
  tail-Free q z k =
      Free-append q host (b'/' ∷ path owner name)
        (Free-weaken (λ c. special c || slash c) q host (λ c h. k c (ground arith)) hp)
        (z, path-Free q z k)

  path-ne-nil : path owner name ≢ []
  path-ne-nil e = of_owner owner e
    where
      of_owner : (o : Text) → path o name ≡ [] → ⊥
      of_owner [] e = ns e
      of_owner (c ∷ o) e = cc

  name_slash : Free slash name
  name_slash = Free-weaken (λ c. special c || slash c) slash name (λ c h. ground arith) np

  path-start : after_prefix (path owner name) (text "/") ≡ none
  unfolding after_prefix
  path-start = of_owner owner name os name_slash
    where
      of_owner :
          (o n : Text)
          → after_prefix o (text "/") ≡ none
          → Free slash n
          → after_prefix (path o n) (text "/") ≡ none
      of_owner [] [] h k = refl
      of_owner [] (c ∷ n) h k = ground (arith, k.0)
      of_owner (c ∷ o) n h k = ground (arith, h)

  tail-trimmed : trim_suffix (tail_of host owner name) (text "/") ≡ tail_of host owner name
  tail-trimmed = of_owner owner
    where
      of_owner : (o : Text) → trim_suffix (tail_of host o name) (text "/") ≡ tail_of host o name
      of_owner [] =
          rw (append_assoc host (text "/") name) at
            (trim_suffix-Free b'/' (host ++ text "/") name ns name_slash)
      of_owner (c ∷ o) =
          rw (append_assoc host (b'/' ∷ c ∷ (o ++ text "/")) name, append_assoc o (text "/") name)
            at (trim_suffix-Free b'/' (host ++ b'/' ∷ c ∷ (o ++ text "/")) name ns name_slash)

  tail-matches : some_then b'/' some_dots (tail_of host owner name) ≡ true
  tail-matches =
      some_then-append b'/' some_dots host (path owner name) hs
        (Free-weaken (λ c. special c || slash c) is_space host (λ c h. ground arith) hp)
        (some_dots-Free (path owner name) path-ne-nil
          (path-Free is_space (unfold is_space in refl) (λ c h. ground arith)))

  module _ (u scheme : Text) (u_is : u ≡ scheme ++ tail_of host owner name)
      (plain : Free (λ c. special c) scheme) where
    spaceless : trim_space u ≡ u
    spaceless = trim_space-Free u (
        rw u_is (
          Free-append is_space scheme (tail_of host owner name)
            (Free-weaken special is_space scheme (λ c h. ground arith) plain)
            (tail-Free is_space (unfold is_space in refl) (λ c h. ground arith))))

    not_ssh_v1 : is_valid_ssh_git_url_v1 u ≡ false
    unfolding is_valid_ssh_git_url_v1
    not_ssh_v1 = some_then-Free b'@' (some_then b':' (some_then b'/' some_dots)) u (
        rw u_is (
          Free-append (λ x. x == b'@') scheme (tail_of host owner name)
            (Free-weaken special (λ x. x == b'@') scheme (λ c h. ground arith) plain)
            (tail-Free (λ x. x == b'@') refl (λ c h. ground arith))))

  not_https : trim_prefix (tail_of host owner name) (text "https://") ≡ tail_of host owner name
  unfolding trim_prefix
  not_https =
      rw
        (after_prefix-slashes host (path owner name) (text "https:") []
          (Free-weaken (λ c. special c || slash c) slash host (λ c h. ground arith) hp)
          (refl, (refl, (refl, (refl, (refl, (refl, tt)))))) path-start)
        refl

  http_path-http : http_path (text "http://" ++ tail_of host owner name) ≡ tail_of host owner name
  unfolding http_path
  http_path-http =
      rw (trim_prefix-append (text "http://") (tail_of host owner name), not_https) tail-trimmed

  http_path-https : http_path (text "https://" ++ tail_of host owner name) ≡ tail_of host owner name
  unfolding http_path
  http_path-https = tail-trimmed

  info :
      (scheme : Text)
      → trim_suffix name (text ".git") ≡ name
      → http_info scheme (split_by slash (tail_of host owner name))
        ≡ ok (printed host owner name scheme)
  info scheme b =
      http_info-path scheme host owner name ns
        (Free-weaken (λ c. special c || slash c) slash host (λ c h. ground arith) hp) name_slash b

  parse-http :
      trim_suffix name (text ".git") ≡ name
      → parse_git_repo_info (text "http://" ++ tail_of host owner name)
        ≡ ok (printed host owner name (text "http://"))
  unfolding parse_git_repo_info is_valid_ssh_git_url_v2 is_valid_http_git_url has_prefix
      after_prefix
  parse-http b =
      let u = text "http://" ++ tail_of host owner name in
      let plain : Free special (text "http://") =
        (refl, (refl, (refl, (refl, (refl, (refl, (refl, tt))))))) in
      rw
        (
          spaceless u (text "http://") refl plain,
          not_ssh_v1 u (text "http://") refl plain,
          tail-matches,
          http_path-http,
        )
        (info (text "http://") b)

  parse-https :
      trim_suffix name (text ".git") ≡ name
      → parse_git_repo_info (text "https://" ++ tail_of host owner name)
        ≡ ok (printed host owner name (text "https://"))
  unfolding parse_git_repo_info is_valid_ssh_git_url_v2 is_valid_http_git_url has_prefix
      after_prefix
  parse-https b =
      let u = text "https://" ++ tail_of host owner name in
      let plain : Free special (text "https://") =
        (refl, (refl, (refl, (refl, (refl, (refl, (refl, (refl, tt)))))))) in
      rw
        (
          spaceless u (text "https://") refl plain,
          not_ssh_v1 u (text "https://") refl plain,
          tail-matches,
          http_path-https,
        )
        (info (text "https://") b)

url-http :
    (r : GitRepoInfo) (scheme host : Text)
    → IsHttpRepo r scheme host
    → url r ≡ scheme ++ tail_of host r.owner r.name
unfolding url text_eq
url-http r scheme host h = rw (h.parsed, h.no_ssh) (of_owner r.owner)
  where
    of_owner :
        (o : Text)
        → (if text_eq o []
            then r.endpoint ++ text "/" ++ r.name
            else r.endpoint ++ text "/" ++ o ++ text "/" ++ r.name)
          ≡ scheme ++ tail_of host o r.name
    of_owner [] = rw h.endpoint_is (simp (append_assoc scheme host) (simp append_assoc refl))
    of_owner (c ∷ o) = rw h.endpoint_is (simp append_assoc refl)

-- Printing the URL of a repository that is reached by HTTP, with or without an owner, and parsing it
-- gives the repository back, provided that its parts have the form that the parser gives them.
pub parse-url :
    (r : GitRepoInfo) (scheme host : Text)
    → IsHttpRepo r scheme host
    → parse_git_repo_info (url r) ≡ ok r
parse-url r scheme host h =
    ap parse_git_repo_info (url-http r scheme host h) ∙ by_scheme h.known_scheme ∙ ap ok same
  where
    by_scheme :
        (scheme ≡ text "http://") ⊎ (scheme ≡ text "https://")
        → parse_git_repo_info (scheme ++ tail_of host r.owner r.name)
          ≡ ok (printed host r.owner r.name scheme)
    by_scheme (inl e) =
        subst
          (λ s.
            parse_git_repo_info (s ++ tail_of host r.owner r.name)
            ≡ ok (printed host r.owner r.name s))
          (sym e)
          (parse-http host r.owner r.name h.host_some h.host_plain h.owner_plain h.owner_start
            h.name_some h.name_plain h.name_bare)
    by_scheme (inr e) =
        subst
          (λ s.
            parse_git_repo_info (s ++ tail_of host r.owner r.name)
            ≡ ok (printed host r.owner r.name s))
          (sym e)
          (parse-https host r.owner r.name h.host_some h.host_plain h.owner_plain h.owner_start
            h.name_some h.name_plain h.name_bare)

    same : printed host r.owner r.name scheme ≡ r
    same = λ i. record {
      is_parsed = sym h.parsed i;
      provider = sym (h.provider_is ∙ ap git_provider h.endpoint_is) i;
      owner = r.owner;
      name = r.name;
      endpoint = sym h.endpoint_is i;
      ssh_user = sym h.no_user i;
      is_ssh_endpoint = sym h.no_ssh i;
    }
