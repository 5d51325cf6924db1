-- ===== src/SshToolkit/Pool/Progress.antt =====
-- The calls never wait for each other in a circle.
use newrr.Common.{
  ℕ, ◌<◌, ◌≡◌, refl, Bool, true, false, Bool-cases, inl, inr, Option, some, ◌*◌, arith,
}
use newrr.SshToolkit.Pool.{
  SshConnectionPool, Place, getting, reading, renewing, rereading, making, dialing, deleting,
  closing, returned, unless, dialed, step, System, Step, pick, Reach, later, Call,
}
use newrr.SshToolkit.Pool.Bound.{Reach-bounded}
use newrr.SshToolkit.Pool.Owners.{is_closing, dials, Owned, Reach-Owned}

abbrev pub is_returned : Place → Bool
is_returned (returned c) = true
is_returned _ = false

-- A call can make its next step.
abbrev Moves : Option ℕ → SshConnectionPool → Place → Type 0
Moves answer pool p = (y : SshConnectionPool × Place) × (step answer pool p ≡ some y)

unless-Moves :
    (b : Bool) (x : SshConnectionPool × Place)
    → b ≡ false
    → (y : SshConnectionPool × Place) × (unless b x ≡ some y)
unless-Moves b x e = (x, rw e refl)

dials-Moves :
    (answer : Option ℕ) (pool : SshConnectionPool) (r : ℕ) (p : Place)
    → dials r p ≡ true
    → Moves answer pool p
unfolding step
dials-Moves answer pool r (dialing host q) h = (dialed answer host q pool, refl)
dials-Moves answer pool r (getting host) h = cc
dials-Moves answer pool r (reading host q) h = cc
dials-Moves answer pool r (renewing host) h = cc
dials-Moves answer pool r (rereading host q) h = cc
dials-Moves answer pool r (making host) h = cc
dials-Moves answer pool r (deleting host) h = cc
dials-Moves answer pool r (closing host q) h = cc
dials-Moves answer pool r (returned c) h = cc

module _ (n : ℕ) (s : System) (o : Owned n s) (answer : Option ℕ) where
  abbrev Goes : Type 0
  Goes = (t : System) × Step n s t

  moves-Goes : (i : ℕ) → i < n → Moves answer s.pool (s.place i) → Goes
  moves-Goes i l (y, e) = (_, pick i answer l e)

  -- A call that waits for an entry moves, or the one that dials for it.
  entry-Goes :
      (r i : ℕ) → i < n → ((s.pool.entries r).held ≡ false → Moves answer s.pool (s.place i)) → Goes
  entry-Goes r i l k = elim (Bool-cases (s.pool.entries r).held) [
    | inl h ↦
        let d = o.entry_owner r h in
        moves-Goes d.0 d.1.0 (dials-Moves answer s.pool r (s.place d.0) d.1.1)
    | inr h ↦ moves-Goes i l (k h)
  ]

  closing-Goes : (i : ℕ) (p : Place) → i < n → s.place i ≡ p → is_closing p ≡ true → Goes
  unfolding step
  closing-Goes i (closing host r) l e h =
      entry-Goes r i l (λ f. rw e (unless-Moves (s.pool.entries r).held _ f))
  closing-Goes i (getting host) l e h = absurd cc
  closing-Goes i (reading host q) l e h = absurd cc
  closing-Goes i (renewing host) l e h = absurd cc
  closing-Goes i (rereading host q) l e h = absurd cc
  closing-Goes i (making host) l e h = absurd cc
  closing-Goes i (dialing host q) l e h = absurd cc
  closing-Goes i (deleting host) l e h = absurd cc
  closing-Goes i (returned c) l e h = absurd cc

  -- A call that waits for the pool moves, or one moves that lets the pool's holder go on.
  pool-Goes : (i : ℕ) → i < n → (s.pool.held ≡ false → Moves answer s.pool (s.place i)) → Goes
  pool-Goes i l k = elim (Bool-cases s.pool.held) [
    | inl h ↦ let c = o.pool_owner h in closing-Goes c.0 (s.place c.0) c.1.0 refl c.1.1
    | inr h ↦ moves-Goes i l (k h)
  ]

  place-Goes : (i : ℕ) (p : Place) → i < n → s.place i ≡ p → is_returned p ≡ false → Goes
  unfolding step
  place-Goes i (getting host) l e h = pool-Goes i l (λ f. rw e (unless-Moves s.pool.held _ f))
  place-Goes i (reading host r) l e h =
      entry-Goes r i l (λ f. rw e (unless-Moves (s.pool.entries r).held _ f))
  place-Goes i (renewing host) l e h = pool-Goes i l (λ f. rw e (unless-Moves s.pool.held _ f))
  place-Goes i (rereading host r) l e h =
      entry-Goes r i l (λ f. rw e (unless-Moves (s.pool.entries r).held _ f))
  place-Goes i (making host) l e h = pool-Goes i l (λ f. rw e (unless-Moves s.pool.held _ f))
  place-Goes i (dialing host r) l e h = moves-Goes i l (rw e (dialed answer host r s.pool, refl))
  place-Goes i (deleting host) l e h = pool-Goes i l (λ f. rw e (unless-Moves s.pool.held _ f))
  place-Goes i (closing host r) l e h = closing-Goes i (closing host r) l e refl
  place-Goes i (returned c) l e h = absurd cc

-- Whatever the calls have done so far, and however handshakes end: as long as one of `n` calls has
-- not returned, some call can make a step, and they have made fewer than 8 * n steps. So the calls
-- return in every order in which steps that can be made are made.
pub Reach-progress :
    {n : ℕ} {calls : ℕ → Call} {k : ℕ} {s : System}
    → Reach n calls k s
    → (i : ℕ) → i < n
    → is_returned (s.place i) ≡ false
    → (answer : Option ℕ) → ((t : System) × Step n s t) × (k < 8 * n)
Reach-progress {n} {s = s} r i l h answer =
    let (t, x) = place-Goes n s (Reach-Owned r) answer i (s.place i) l refl h in
    ((t, x), omega (arith, Reach-bounded (later r x)))
