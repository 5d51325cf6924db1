-- ===== src/Core/ConsoleTokens/Once.antt =====
-- A token is good for one console.
use newrr.Common.{
  ℕ, ◌≤◌, ◌≡◌, ap, Bool, true, not, ◌&&◌, ltb, Bool-cases, inl, inr, count-nowhere, ◌∙◌, Text,
  text_eq, text_eq_iff, Result, ok, err, arith,
}
use newrr.Core.Applications.Store.{NamedTable, IsNamedTable, named_rows}
use newrr.Core.ConsoleTokens.{ConsoleToken, find_console_token, used_up, unless_expired}

module _ {D : Type 0} (tokens : NamedTable D ConsoleToken) where
  -- The table of tokens: its key is the ID, and a row that is found is there.
  pub record IsTokenTable : Type 0 where
    pub named : IsNamedTable tokens
    pub key : (x : ConsoleToken) → tokens.id_of x ≡ x.id
    pub first-there :
        (p : ConsoleToken → Bool) (d : D) (x : ConsoleToken)
        → tokens.first p d ≡ ok x
        → 1 ≤ named_rows tokens p d

  abbrev asked : Text → Text → ConsoleToken → Bool
  asked id token x = text_eq x.id id && text_eq x.token token

  -- A token that is answered is the one that was asked for, and has not expired.
  pub record Answered (now : ℕ) (id token : Text) (x : ConsoleToken) : Type 0 where
    pub same_id : x.id ≡ id
    pub same_token : x.token ≡ token
    pub not_expired : now ≤ x.expires_at

  unless_expired-ok :
      (now : ℕ) (y x : ConsoleToken)
      → unless_expired tokens now y ≡ ok x
      → (now ≤ y.expires_at) × (y ≡ x)
  unless_expired-ok now y x h = elim (Bool-cases (ltb y.expires_at now)) [
    | inl e ↦ let k = (rw e at h) in absurd cc
    | inr e ↦ let k = (rw e at h) in (ground (arith, e), cc)
  ]

  found-ok :
      (now : ℕ) (d e : D) (r : Result ConsoleToken) (x : ConsoleToken)
      → used_up tokens now d r ≡ (e, ok x)
      → (r ≡ ok x) × ((now ≤ x.expires_at) × ((tokens.delete x.id d).0 ≡ e))
  found-ok now d e (err b) x h = cc
  found-ok now d e (ok z) x h =
      let (l, s) = unless_expired-ok now z x (ap (λ p. p.1) h) in
      (ap ok s, (rw (← s) l, rw (← s) (ap (λ p. p.0) h)))

  module _ (t : IsTokenTable) where
    asked-true :
        (id token : Text) (d : D) (x : ConsoleToken)
        → tokens.first (asked id token) d ≡ ok x
        → asked id token x ≡ true
    asked-true id token d x h = let f = t.named.first-FirstOf (asked id token) d in (rw h at f)

    -- No row is left with the ID.
    deleted-nowhere :
        (id token : Text) (d e : D)
        → tokens.delete id d ≡ (e, ok tt)
        → named_rows tokens (asked id token) e ≡ 0
    deleted-nowhere id token d e h =
        let f = t.named.delete-NamedDeleted id d in
        let g = (rw h at f) in
        g (asked id token)
        ∙ count-nowhere (λ x. not (text_eq (tokens.id_of x) id) && asked id token x) (tokens.rows d)
            (λ x. ground (arith, t.key x))

    -- If FindConsoleToken returns a token and the database has deleted it, then the token has the ID
    -- and the secret that were asked for and has not expired, and no later call finds one of that ID,
    -- unless it is made anew.
    pub find_console_token-once :
        (now later : ℕ) (id token again : Text) (d e u : D) (x y : ConsoleToken)
        → (tokens.delete id d).1 ≡ ok tt
        → find_console_token tokens now id token d ≡ (e, ok x)
        → Answered now id token x × (¬ (find_console_token tokens later id again e ≡ (u, ok y)))
    unfolding find_console_token
    find_console_token-once now later id token again d e u x y del h =
        let (r, (l, s)) = found-ok now d e (tokens.first (asked id token) d) x h in
        let a = asked-true id token d x r in
        let i : x.id ≡ id = (text_eq_iff x.id id).0 (ground (arith, a)) in
        let j : x.token ≡ token = (text_eq_iff x.token token).0 (ground (arith, a)) in
        let gone : tokens.delete id d ≡ (e, ok tt) = let s' = (rw i at s) in λ z. (s' z, del z) in
        (
          record { same_id = i; same_token = j; not_expired = l },
          λ k.
              let (r', _) = found-ok later e u (tokens.first (asked id again) e) y k in
              omega
                (arith, t.first-there (asked id again) e y r', deleted-nowhere id again d e gone),
        )
