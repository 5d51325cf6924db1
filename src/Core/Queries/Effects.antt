-- ===== src/Core/Queries/Effects.antt =====
-- What chains of queries leave as it is, and what holds where they end without an error.
use newrr.Common.{
  String, subst, sym, ◌≡◌, refl, ◌∙◌, Bool, true, false, Result, ok, err, if◌then◌else◌,
}
use newrr.Core.Queries.{Query, after, answer, read, reject, recover, on_error, ◌>>=◌}

-- Some part of the database, which a call leaves as it is.
abbrev pub Keeps : {D A B : Type 0} → (D → B) → Query D A → Type 0
Keeps {D} part m = (d : D) → part (m d).0 ≡ part d

-- What holds of the answer and the database if there is no error.
abbrev pub Ends : {D A : Type 0} → (A → D → Type 0) → D × Result A → Type 0
Ends P (e, ok a) = P a e
Ends P (e, err _) = Unit

module _ {D B : Type 0} (part : D → B) where
  pub read-Keeps : {A : Type 0} (f : D → Result A) → Keeps part (read f)
  read-Keeps f d = refl

  pub answer-Keeps : {A : Type 0} (a : A) → Keeps part (answer a)
  answer-Keeps a d = refl

  pub reject-Keeps : (test : Bool) (s : String) → Keeps part (reject test s)
  reject-Keeps true s d = refl
  reject-Keeps false s d = refl

  pub if-Keeps :
      {A : Type 0} (test : Bool) (m n : Query D A)
      → Keeps part m
      → Keeps part n
      → Keeps part (if test then m else n)
  if-Keeps true m n h k = h
  if-Keeps false m n h k = k

  after-Keeps :
      {A C : Type 0} (z : D × Result A) (f : A → Query D C)
      → ((a : A) → Keeps part (f a))
      → part (after z f).0 ≡ part z.0
  after-Keeps (e, ok a) f h = h a e
  after-Keeps (e, err c) f h = refl

  pub bind-Keeps :
      {A C : Type 0} (m : Query D A) (f : A → Query D C)
      → Keeps part m
      → ((a : A) → Keeps part (f a))
      → Keeps part (m >>= f)
  bind-Keeps m f h k d = after-Keeps (m d) f k ∙ h d

  recover-Keeps :
      {A : Type 0} (z : D × Result A) (n : Query D A)
      → Keeps part n
      → part (recover z n).0 ≡ part z.0
  recover-Keeps (e, ok a) n k = refl
  recover-Keeps (e, err c) n k = k e

  pub on_error-Keeps :
      {A : Type 0} (m n : Query D A) → Keeps part m → Keeps part n → Keeps part (on_error m n)
  on_error-Keeps m n h k d = recover-Keeps (m d) n k ∙ h d

module _ {D A C : Type 0} where
  pub after-Ends :
      (Q : A → D → Type 0) (P : C → D → Type 0) (z : D × Result A) (f : A → Query D C)
      → Ends Q z
      → ((a : A) (e : D) → Q a e → Ends P (f a e))
      → Ends P (after z f)
  after-Ends Q P (e, ok a) f q h = h a e q
  after-Ends Q P (e, err c) f q h = tt

module _ {D A B : Type 0} where
  -- A call that keeps a part of the database ends where the part is as it was.
  pub kept-Ends :
      (part : D → B) (d : D) (z : D × Result A)
      → part z.0 ≡ part d
      → Ends (λ _ e. part e ≡ part d) z
  kept-Ends part d (e, ok a) h = h
  kept-Ends part d (e, err c) h = tt

module _ {D A : Type 0} where
  pub both-Ends :
      (P Q : A → D → Type 0) (z : D × Result A)
      → Ends P z
      → Ends Q z
      → Ends (λ a e. P a e × Q a e) z
  both-Ends P Q (e, ok a) h k = (h, k)
  both-Ends P Q (e, err c) h k = tt

  pub imply-Ends :
      (P Q : A → D → Type 0) (z : D × Result A)
      → Ends P z
      → ((a : A) (e : D) → P a e → Q a e)
      → Ends Q z
  imply-Ends P Q (e, ok a) h k = k a e h
  imply-Ends P Q (e, err c) h k = tt

  -- What a call that succeeds ends with.
  pub ok-Ends :
      (P : A → D → Type 0) (z : D × Result A) (e : D) (a : A) → Ends P z → z ≡ (e, ok a) → P a e
  ok-Ends P z e a h q = subst (Ends P) q h

  pub read-Ends : (f : D → Result A) (d : D) → Ends (λ a e. (f d ≡ ok a) × (e ≡ d)) (read f d)
  read-Ends f d = go (f d)
    where
      go : (r : Result A) → Ends (λ a e. (r ≡ ok a) × (e ≡ d)) (d, r)
      go (ok a) = (refl, refl)
      go (err c) = tt

module _ {D A C : Type 0} where
  -- A call that leaves the database as it is, before another.
  pub untouched-Ends :
      (P : C → D → Type 0) (m : Query D A) (f : A → Query D C) (d : D)
      → Keeps (λ q. q) m
      → ((a : A) → Ends P (f a d))
      → Ends P (after (m d) f)
  untouched-Ends P m f d k h =
      after-Ends (λ _ e. e ≡ d) P (m d) f (kept-Ends (λ q. q) d (m d) (k d))
        (λ a e q. subst (λ b. Ends P (f a b)) (sym q) (h a))

pub rejected-Ends :
    {D C : Type 0} (P : C → D → Type 0) (test : Bool) (s : String) (d : D)
    (f : Unit {0} → Query D C)
    → test ≡ true
    → Ends P (after (reject test s d) f)
rejected-Ends P true s d f h = tt
rejected-Ends P false s d f h = cc

module _ {D C : Type 0} where
  pub allowed-Ends :
      (test : Bool) (s : String) (d : D) (f : Unit {0} → Query D C)
      → Ends (λ _ _. test ≡ false) (after (reject test s d) f)
  allowed-Ends true s d f = tt
  allowed-Ends false s d f = go (f tt d)
    where
      go : (z : D × Result C) → Ends (λ _ _. false ≡ false) z
      go (e, ok a) = refl
      go (e, err c) = tt

  pub always-Ends : (z : D × Result C) → Ends (λ _ _. Unit {0}) z
  always-Ends (e, ok a) = tt
  always-Ends (e, err c) = tt

  settled-Ends : (P : Type 0) (z : D × Result C) → P → Ends (λ _ _. P) z
  settled-Ends P (e, ok a) p = p
  settled-Ends P (e, err c) p = tt

module _ {D A C : Type 0} where
  -- What is known after a call is known after the rest.
  pub known-Ends :
      (P : Type 0) (z : D × Result A) (f : A → Query D C)
      → Ends (λ _ _. P) z
      → Ends (λ _ _. P) (after z f)
  known-Ends P (e, ok a) f p = settled-Ends P (f a e) p
  known-Ends P (e, err c) f p = tt
