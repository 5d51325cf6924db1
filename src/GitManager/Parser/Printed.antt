-- ===== src/GitManager/Parser/Printed.antt =====
-- What URL prints behind the scheme, and its pieces put together again.
use newrr.Common.{
  ℕ, ◌≡◌, ◌≢◌, refl, Bool, true, false, List, [], ◌∷◌, ◌++◌, Text, text, trim_suffix, split_by,
  join, ok,
}
use newrr.GitManager.Parser.{GitRepoInfo, http_info, slash, git_provider}
use newrr.GitManager.Parser.Pieces.{
  Free, split_by-append, split_by-Free, split_by-middle, last_of-append, but_last-append,
  join-split_by, split_by-ne-nil,
}

-- What stands behind the host: the owner, if there is one, and the name.
abbrev pub path : Text → Text → Text
path [] name = name
path (c ∷ owner) name = c ∷ owner ++ b'/' ∷ name

pub Free-weaken :
    (p q : ℕ → Bool) (s : Text) → ((c : ℕ) → p c ≡ false → q c ≡ false) → Free p s → Free q s
Free-weaken p q [] k h = tt
Free-weaken p q (c ∷ s) k h = (k c h.0, Free-weaken p q s k h.1)

-- The pieces of the path, put together again.
pub http_info-path :
    (scheme host owner name : Text)
    → name ≢ []
    → Free slash host
    → Free slash name
    → trim_suffix name (text ".git") ≡ name
    → http_info scheme (split_by slash (host ++ b'/' ∷ path owner name))
      ≡ ok (record {
        is_parsed = true;
        provider = git_provider (scheme ++ host);
        owner = owner;
        name = name;
        endpoint = scheme ++ host;
        ssh_user = [];
        is_ssh_endpoint = false;
      })
unfolding http_info
http_info-path scheme host [] name n h k b =
    rw (split_by-append slash b'/' host name refl h, split_by-Free slash name k, b)
      (unfold join in refl)
http_info-path scheme host (c ∷ owner) name n h k b =
    rw
      (
        split_by-append slash b'/' host (c ∷ (owner ++ b'/' ∷ name)) refl h,
        split_by-middle slash b'/' (c ∷ owner) name refl,
        split_by-Free slash name k,
      )
      (pieces (split_by slash (c ∷ owner)) (split_by-ne-nil slash (c ∷ owner))
        (join-split_by (c ∷ owner)))
  where
    pieces :
        (ws : List Text)
        → ws ≢ []
        → join (text "/") ws ≡ c ∷ owner
        → http_info scheme (host ∷ (ws ++ name ∷ []))
          ≡ ok (record {
            is_parsed = true;
            provider = git_provider (scheme ++ host);
            owner = c ∷ owner;
            name = name;
            endpoint = scheme ++ host;
            ssh_user = [];
            is_ssh_endpoint = false;
          })
    pieces [] m e = absurd (m refl)
    pieces (w ∷ ws) m e = rw (but_last-append w name ws, last_of-append w name ws, b, e) refl

-- The text behind the scheme.
abbrev pub tail_of : Text → Text → Text → Text
tail_of host owner name = host ++ b'/' ∷ path owner name

abbrev pub printed : Text → Text → Text → Text → GitRepoInfo
printed host owner name scheme = record {
  is_parsed = true;
  provider = git_provider (scheme ++ host);
  owner = owner;
  name = name;
  endpoint = scheme ++ host;
  ssh_user = [];
  is_ssh_endpoint = false;
}
