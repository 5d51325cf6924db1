-- ===== src/Common/Run.antt =====
-- Methods that mutate an object, and may panic or wait for ever. What was written before a panic
-- stays written, so the state comes back with every outcome.

pub data Outcome {ℓ} (S A : Type ℓ) : Type ℓ where
  returns : A → S → Outcome S A
  panics : S → Outcome S A
  blocks : S → Outcome S A

abbrev pub Run {ℓ} : Type ℓ → Type ℓ → Type ℓ
Run S A = S → Outcome S A

module _ {ℓ} {S A : Type ℓ} where
  abbrev pub pure : A → Run S A
  pure a s = returns a s

  abbrev pub gets : (S → A) → Run S A
  gets f s = returns (f s) s

  abbrev pub panic : Run S A
  panic s = panics s

  -- The state in which the call ended, or stopped.
  abbrev pub final : Outcome S A → S
  final (returns a s) = s
  final (panics s) = s
  final (blocks s) = s

abbrev pub modify : {S : Type 0} → (S → S) → Run S (Unit {0})
modify f s = returns tt (f s)

module _ {ℓ} {S A B : Type ℓ} where
  abbrev pub continue : Outcome S A → (A → Run S B) → Outcome S B
  continue (returns a s) f = f a s
  continue (panics s) f = panics s
  continue (blocks s) f = blocks s

  infixl 5 ◌>>=◌ ◌>>◌
  abbrev pub ◌>>=◌ : Run S A → (A → Run S B) → Run S B
  ◌>>=◌ m f s = continue (m s) f

  abbrev pub ◌>>◌ : Run S A → Run S B → Run S B
  m >> n = m >>= λ _. n
