-- ===== src/GitManager/Parser/Pieces.antt =====
-- How the matchers, the splitters and the trimmers of git_manager/parser.go treat a URL that is put
-- together from pieces.
use mathlib.Core.List.{reverse, reverse-append, reverse-reverse, reverse-cons}
use newrr.Common.{
  ℕ, ◌≡◌, ◌≢◌, refl, sym, ap, ◌∙◌, Bool, true, false, inl, inr, Bool-cases, List, [], ◌∷◌, ◌++◌,
  Text, text, ◌==◌, after_prefix, trim_prefix, trim_suffix, trim_left, trim_space, is_space,
  split_by, join, cons_first, All, arith, none, some,
}
use newrr.GitManager.Parser.{dot, all_dots, some_dots, then_char, some_then, last_of, but_last}

-- No character of the text passes the test.
abbrev pub Free : (ℕ → Bool) → Text → Type 0
Free p = All (λ c. p c ≡ false)

pub Free-append : (p : ℕ → Bool) (s t : Text) → Free p s → Free p t → Free p (s ++ t)
Free-append p [] t h k = k
Free-append p (c ∷ s) t h k = (h.0, Free-append p s t h.1 k)

Free-reverse : (p : ℕ → Bool) (s : Text) → Free p s → Free p (reverse s)
Free-reverse p [] h = tt
Free-reverse p (c ∷ s) h =
    rw (reverse-cons c s) (Free-append p (reverse s) (c ∷ []) (Free-reverse p s h.1) (h.0, tt))

trim_left-Free : (s : Text) → Free is_space s → trim_left s ≡ s
unfolding trim_left
trim_left-Free [] h = refl
trim_left-Free (c ∷ s) h = rw h.0 refl

pub trim_space-Free : (s : Text) → Free is_space s → trim_space s ≡ s
unfolding trim_space
trim_space-Free s h =
    rw (trim_left-Free s h, trim_left-Free (reverse s) (Free-reverse is_space s h))
      (reverse-reverse s)

dot_of_space : (c : ℕ) → is_space c ≡ false → dot c ≡ true
unfolding is_space
dot_of_space c h = ground arith

-- A text without the character does not match.
pub then_char-Free :
    (c : ℕ) (rest : Text → Bool) (s : Text) → Free (λ x. x == c) s → then_char c rest s ≡ false
unfolding then_char
then_char-Free c rest [] h = refl
then_char-Free c rest (x ∷ s) h = ground (arith, then_char-Free c rest s h.1, h.0)

pub some_then-Free :
    (c : ℕ) (rest : Text → Bool) (s : Text) → Free (λ x. x == c) s → some_then c rest s ≡ false
unfolding some_then
some_then-Free c rest [] h = refl
some_then-Free c rest (x ∷ s) h = ground (arith, then_char-Free c rest s h.1)

-- A piece, the character, and a text that matches the rest.
pub then_char-append :
    (c : ℕ) (rest : Text → Bool) (s t : Text)
    → Free is_space s
    → rest t ≡ true
    → then_char c rest (s ++ c ∷ t) ≡ true
unfolding then_char
then_char-append c rest [] t h k = ground arith
then_char-append c rest (x ∷ s) t h k =
    ground (arith, then_char-append c rest s t h.1 k, dot_of_space x h.0)

pub some_then-append :
    (c : ℕ) (rest : Text → Bool) (s t : Text)
    → s ≢ []
    → Free is_space s
    → rest t ≡ true
    → some_then c rest (s ++ c ∷ t) ≡ true
unfolding some_then
some_then-append c rest [] t n h k = absurd (n refl)
some_then-append c rest (x ∷ s) t n h k =
    ground (arith, then_char-append c rest s t h.1 k, dot_of_space x h.0)

all_dots-Free : (s : Text) → Free is_space s → all_dots s ≡ true
unfolding all_dots
all_dots-Free [] h = refl
all_dots-Free (c ∷ s) h = ground (arith, all_dots-Free s h.1, dot_of_space c h.0)

pub some_dots-Free : (s : Text) → s ≢ [] → Free is_space s → some_dots s ≡ true
unfolding some_dots
some_dots-Free [] n h = absurd (n refl)
some_dots-Free (c ∷ s) n h = ground (arith, all_dots-Free s h.1, dot_of_space c h.0)

-- A prefix is found, and trimmed.
pub after_prefix-append : (p s : Text) → after_prefix (p ++ s) p ≡ some s
unfolding after_prefix
after_prefix-append [] [] = refl
after_prefix-append [] (c ∷ s) = refl
after_prefix-append (c ∷ p) s = ground (arith, after_prefix-append p s)

pub trim_prefix-append : (p s : Text) → trim_prefix (p ++ s) p ≡ s
unfolding trim_prefix
trim_prefix-append p s = rw (after_prefix-append p s) refl

-- `u` ends at `a`, which the first part of the prefix lacks, and lacks `b`, which ends that part.
pub after_prefix-apart :
    (a b : ℕ) (u t q v : Text)
    → a ≢ b
    → Free (λ x. x == b) u
    → Free (λ x. x == a) q
    → after_prefix (u ++ a ∷ t) (q ++ b ∷ v) ≡ none
unfolding after_prefix
after_prefix-apart a b [] t [] v d hu hq = ground arith
after_prefix-apart a b [] t (c ∷ q) v d hu hq = ground arith
after_prefix-apart a b (x ∷ u) t [] v d hu hq = ground arith
after_prefix-apart a b (x ∷ u) t (c ∷ q) v d hu hq =
    ground (arith, after_prefix-apart a b u t q v d hu.1 hq.1)

-- `u` is followed by one slash only, and the prefix has two in a row.
pub after_prefix-slashes :
    (u t q v : Text)
    → Free (λ x. x == b'/') u
    → Free (λ x. x == b'/') q
    → after_prefix t (b'/' ∷ v) ≡ none
    → after_prefix (u ++ b'/' ∷ t) (q ++ b'/' ∷ b'/' ∷ v) ≡ none
unfolding after_prefix
after_prefix-slashes [] t [] v hu hq h = ground (arith, h)
after_prefix-slashes [] t (c ∷ q) v hu hq h = ground (arith, hq.0)
after_prefix-slashes (x ∷ u) t [] v hu hq h = ground (arith, hu.0)
after_prefix-slashes (x ∷ u) t (c ∷ q) v hu hq h =
    ground (arith, after_prefix-slashes u t q v hu.1 hq.1 h)

trim_suffix-by : (s p : Text) → after_prefix (reverse s) (reverse p) ≡ none → trim_suffix s p ≡ s
unfolding trim_suffix
trim_suffix-by s p h = rw h refl

-- The text does not end in the character.
pub trim_suffix-Free :
    (c : ℕ) (s t : Text) → t ≢ [] → Free (λ x. x == c) t → trim_suffix (s ++ t) (c ∷ []) ≡ s ++ t
unfolding after_prefix
trim_suffix-Free c s t n h = trim_suffix-by (s ++ t) (c ∷ []) (
    rw (reverse-append s t) (
      go (reverse t) (λ e. n (sym (reverse-reverse t) ∙ ap reverse e))
        (Free-reverse (λ x. x == c) t h)))
  where
    go : (r : Text) → r ≢ [] → Free (λ x. x == c) r → after_prefix (r ++ reverse s) (c ∷ []) ≡ none
    go [] n h = absurd (n refl)
    go (x ∷ r) n h = ground (arith, h.0)

-- A piece without separators, then a separator.
pub split_by-append :
    (p : ℕ → Bool) (c : ℕ) (u t : Text)
    → p c ≡ true
    → Free p u
    → split_by p (u ++ c ∷ t) ≡ u ∷ split_by p t
unfolding split_by
split_by-append p c [] t e h = ground arith
split_by-append p c (x ∷ u) t e h = ground (arith, h.0, split_by-append p c u t e h.1)

pub split_by-Free : (p : ℕ → Bool) (u : Text) → Free p u → split_by p u ≡ u ∷ []
unfolding split_by
split_by-Free p [] h = refl
split_by-Free p (x ∷ u) h = ground (arith, h.0, split_by-Free p u h.1)

cons_first-append :
    (c : ℕ) (ws vs : List Text) → ws ≢ [] → cons_first c (ws ++ vs) ≡ cons_first c ws ++ vs
cons_first-append c [] vs n = absurd (n refl)
cons_first-append c (w ∷ ws) vs n = refl

cons_first-ne-nil : (c : ℕ) (ws : List Text) → cons_first c ws ≢ []
cons_first-ne-nil c [] e = cc
cons_first-ne-nil c (w ∷ ws) e = cc

pub split_by-ne-nil : (p : ℕ → Bool) (s : Text) → split_by p s ≢ []
unfolding split_by
split_by-ne-nil p [] e = cc
split_by-ne-nil p (c ∷ s) e = elim (Bool-cases (p c)) [
  | inl y ↦ cc (rw y at e)
  | inr y ↦ cons_first-ne-nil c (split_by p s) (rw y at e)
]

-- The pieces of two texts with a separator between them.
pub split_by-middle :
    (p : ℕ → Bool) (c : ℕ) (s t : Text)
    → p c ≡ true
    → split_by p (s ++ c ∷ t) ≡ split_by p s ++ split_by p t
unfolding split_by
split_by-middle p c [] t e = ground arith
split_by-middle p c (x ∷ s) t e = elim (Bool-cases (p x)) [
  | inl y ↦ rw (y, split_by-middle p c s t e) refl
  | inr y ↦
      rw (y, split_by-middle p c s t e)
        (cons_first-append x (split_by p s) (split_by p t) (split_by-ne-nil p s))
]

pub last_of-append : (x n : Text) (ws : List Text) → last_of x (ws ++ n ∷ []) ≡ n
last_of-append x n [] = refl
last_of-append x n (w ∷ ws) = last_of-append w n ws

pub but_last-append : (x n : Text) (ws : List Text) → but_last x (ws ++ n ∷ []) ≡ x ∷ ws
but_last-append x n [] = refl
but_last-append x n (w ∷ ws) = ap (λ (vs : List Text). x ∷ vs) (but_last-append w n ws)

join-cons_first :
    (c : ℕ) (ws : List Text) → join (text "/") (cons_first c ws) ≡ c ∷ join (text "/") ws
unfolding join
join-cons_first c [] = refl
join-cons_first c (w ∷ []) = refl
join-cons_first c (w ∷ v ∷ ws) = refl

join-nil-cons : (ws : List Text) → ws ≢ [] → join (text "/") ([] ∷ ws) ≡ b'/' ∷ join (text "/") ws
unfolding join
join-nil-cons [] n = absurd (n refl)
join-nil-cons (w ∷ ws) n = refl

-- strings.Join undoes strings.Split.
pub join-split_by : (s : Text) → join (text "/") (split_by (λ c. c == b'/') s) ≡ s
unfolding split_by
join-split_by [] = unfold join in refl
join-split_by (c ∷ s) = ground (
  arith,
  join-split_by s,
  join-nil-cons (split_by (λ c. c == b'/') s) (split_by-ne-nil (λ c. c == b'/') s),
  join-cons_first c (split_by (λ c. c == b'/') s),
)
