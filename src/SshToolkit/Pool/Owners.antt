-- ===== src/SshToolkit/Pool/Owners.antt =====
-- A lock that is taken is held by a call that goes on: the pool's by a call that closes a
-- connection, an entry's by a call that dials.
use newrr.Common.{
  ℕ, ◌<◌, ◌≡◌, refl, subst, Bool, true, false, ◌==◌, ==_iff, Bool-cases, ◌⊎◌, inl, inr, Option,
  none, some, Text, lookup, arith,
}
use newrr.SshToolkit.Pool.{
  SshConnectionPool, SshClient, Place, getting, reading, renewing, rereading, making, dialing,
  deleting, closing, returned, update, unless, delete_entry, dialed, with_record, step, System,
  Step, pick, Reach, start, later, Call,
}

abbrev pub is_closing : Place → Bool
is_closing (closing host r) = true
is_closing _ = false

abbrev pub dials : ℕ → Place → Bool
dials r (dialing host q) = q == r
dials r _ = false

pub unless-after {ℓ} :
    (P : SshConnectionPool × Place → Type ℓ) (b : Bool) (x y : SshConnectionPool × Place)
    → P x
    → unless b x ≡ some y
    → P y
unless-after P true x y h e = cc
unless-after P false x y h e = let s : x ≡ y = cc in subst P s h

-- Whoever holds the pool's lock after a step has taken it by that step, or has not made the step.
abbrev PoolTaken : SshConnectionPool → Place → SshConnectionPool × Place → Type 0
PoolTaken pool p y =
    y.0.held ≡ true → (is_closing y.1 ≡ true) ⊎ ((pool.held ≡ true) × (is_closing p ≡ false))

delete_entry-PoolTaken :
    (o : Option ℕ) (host : Text) (pool : SshConnectionPool)
    → PoolTaken pool (deleting host) (delete_entry o host pool)
delete_entry-PoolTaken none host pool h = inr (h, refl)
delete_entry-PoolTaken (some r) host pool h = inl refl

dialed-PoolTaken :
    (answer : Option ℕ) (host : Text) (r : ℕ) (pool : SshConnectionPool)
    → PoolTaken pool (dialing host r) (dialed answer host r pool)
dialed-PoolTaken none host r pool h = inr (h, refl)
dialed-PoolTaken (some c) host r pool h = inr (h, refl)

step-PoolTaken :
    (answer : Option ℕ) (pool : SshConnectionPool) (p : Place) (y : SshConnectionPool × Place)
    → step answer pool p ≡ some y
    → PoolTaken pool p y
unfolding step
step-PoolTaken a pool (getting host) y e =
    unless-after (PoolTaken pool (getting host)) _ _ y (λ h. inr (h, refl)) e
step-PoolTaken a pool (reading host r) y e =
    unless-after (PoolTaken pool (reading host r)) _ _ y (λ h. inr (h, refl)) e
step-PoolTaken a pool (renewing host) y e =
    unless-after (PoolTaken pool (renewing host)) _ _ y (λ h. inr (h, refl)) e
step-PoolTaken a pool (rereading host r) y e =
    unless-after (PoolTaken pool (rereading host r)) _ _ y (λ h. inr (h, refl)) e
step-PoolTaken a pool (making host) y e =
    unless-after (PoolTaken pool (making host)) _ _ y (λ h. inr (h, refl)) e
step-PoolTaken a pool (dialing host r) y e =
    let s : dialed a host r pool ≡ y = cc in
    subst (PoolTaken pool (dialing host r)) s (dialed-PoolTaken a host r pool)
step-PoolTaken a pool (deleting host) y e =
    unless-after (PoolTaken pool (deleting host)) _ _ y
      (delete_entry-PoolTaken (lookup host pool.clients) host pool) e
step-PoolTaken a pool (closing host r) y e =
    unless-after (PoolTaken pool (closing host r)) _ _ y (λ h. absurd cc) e
step-PoolTaken a pool (returned c) y e = cc

abbrev EntryTaken : ℕ → SshConnectionPool → Place → SshConnectionPool × Place → Type 0
EntryTaken r pool p y =
    (y.0.entries r).held ≡ true
    → (dials r y.1 ≡ true) ⊎ (((pool.entries r).held ≡ true) × (dials r p ≡ false))

delete_entry-EntryTaken :
    (r : ℕ) (o : Option ℕ) (host : Text) (pool : SshConnectionPool)
    → EntryTaken r pool (deleting host) (delete_entry o host pool)
delete_entry-EntryTaken r none host pool h = inr (h, refl)
delete_entry-EntryTaken r (some q) host pool h = inr (h, refl)

update_free :
    (r q : ℕ) (entries : ℕ → SshClient) (c : Option ℕ)
    → (update entries q (record { client = c; held = false }) r).held ≡ true
    → ((entries r).held ≡ true) × ((q == r) ≡ false)
update_free r q entries c h = elim (Bool-cases (r == q)) [
  | inl e ↦ let g = (rw e at h) in cc
  | inr e ↦ ((rw e at h), ground arith)
]

dialed-EntryTaken :
    (r : ℕ) (answer : Option ℕ) (host : Text) (q : ℕ) (pool : SshConnectionPool)
    → EntryTaken r pool (dialing host q) (dialed answer host q pool)
dialed-EntryTaken r none host q pool h =
    inr (update_free r q pool.entries (pool.entries q).client h)
dialed-EntryTaken r (some c) host q pool h = inr (update_free r q pool.entries (some c) h)

with_record-EntryTaken :
    (r : ℕ) (host : Text) (pool : SshConnectionPool)
    → EntryTaken r pool (making host) (with_record host pool, dialing host pool.made)
with_record-EntryTaken r host pool h = elim (Bool-cases (r == pool.made)) [
  | inl e ↦ inl (ground arith)
  | inr e ↦ inr ((rw e at h), refl)
]

step-EntryTaken :
    (r : ℕ) (answer : Option ℕ) (pool : SshConnectionPool) (p : Place)
    (y : SshConnectionPool × Place)
    → step answer pool p ≡ some y
    → EntryTaken r pool p y
unfolding step
step-EntryTaken r a pool (getting host) y e =
    unless-after (EntryTaken r pool (getting host)) _ _ y (λ h. inr (h, refl)) e
step-EntryTaken r a pool (reading host q) y e =
    unless-after (EntryTaken r pool (reading host q)) _ _ y (λ h. inr (h, refl)) e
step-EntryTaken r a pool (renewing host) y e =
    unless-after (EntryTaken r pool (renewing host)) _ _ y (λ h. inr (h, refl)) e
step-EntryTaken r a pool (rereading host q) y e =
    unless-after (EntryTaken r pool (rereading host q)) _ _ y (λ h. inr (h, refl)) e
step-EntryTaken r a pool (making host) y e =
    unless-after (EntryTaken r pool (making host)) _ _ y (with_record-EntryTaken r host pool) e
step-EntryTaken r a pool (dialing host q) y e =
    let s : dialed a host q pool ≡ y = cc in
    subst (EntryTaken r pool (dialing host q)) s (dialed-EntryTaken r a host q pool)
step-EntryTaken r a pool (deleting host) y e =
    unless-after (EntryTaken r pool (deleting host)) _ _ y
      (delete_entry-EntryTaken r (lookup host pool.clients) host pool) e
step-EntryTaken r a pool (closing host q) y e =
    unless-after (EntryTaken r pool (closing host q)) _ _ y (λ h. inr (h, refl)) e
step-EntryTaken r a pool (returned c) y e = cc

-- One of `n` calls is at a place that passes a test.
abbrev pub Somebody : ℕ → (Place → Bool) → (ℕ → Place) → Type 0
Somebody n test place = (i : ℕ) × ((i < n) × (test (place i) ≡ true))

-- A call that passes the test after its step, or another that passed it before.
Somebody-update :
    (n i : ℕ) (test : Place → Bool) (place : ℕ → Place) (q : Place)
    → i < n
    → (test q ≡ true) ⊎ (Somebody n test place × (test (place i) ≡ false))
    → Somebody n test (update place i q)
Somebody-update n i test place q l (inl h) = (i, (l, ground arith))
Somebody-update n i test place q l (inr ((j, (m, h)), g)) =
    let other : (j == i) ≡ false = elim (Bool-cases (j == i)) [
      | inr e ↦ e
      | inl e ↦ let s : j ≡ i = (==_iff j i).0 e in absurd (let g' = (rw (← s) at g) in cc)
    ] in
    (j, (m, rw other h))

pub record Owned (n : ℕ) (s : System) : Type 0 where
  pub pool_owner : s.pool.held ≡ true → Somebody n is_closing s.place
  pub entry_owner : (r : ℕ) → (s.pool.entries r).held ≡ true → Somebody n (dials r) s.place

Step-Owned : {n : ℕ} {s t : System} → Step n s t → Owned n s → Owned n t
Step-Owned {n} {s} (pick i answer {pool = m} {p = q} l e) o = record {
  pool_owner = λ h.
      Somebody-update n i is_closing s.place q l
        (elim (step-PoolTaken answer s.pool (s.place i) (m, q) e h) [
          | inl c ↦ inl c
          | inr c ↦ inr (o.pool_owner c.0, c.1)
        ]);
  entry_owner = λ r h.
      Somebody-update n i (dials r) s.place q l
        (elim (step-EntryTaken r answer s.pool (s.place i) (m, q) e h) [
          | inl c ↦ inl c
          | inr c ↦ inr (o.entry_owner r c.0, c.1)
        ]);
}

-- In every state that is reached, a call that goes on holds each lock that is taken.
pub Reach-Owned : {n : ℕ} {calls : ℕ → Call} {k : ℕ} {s : System} → Reach n calls k s → Owned n s
Reach-Owned start = record { pool_owner = λ h. absurd cc; entry_owner = λ r h. absurd cc }
Reach-Owned (later r t) = Step-Owned t (Reach-Owned r)
