-- ===== src/SshToolkit/Pool.antt =====
-- ssh_toolkit/pool.go: calls of getSSHClient and DeleteSSHClient that run at the same time, in any
-- order. A step of a call is what it does under one lock, or what it does between taking a lock that
-- it keeps and giving it back; it cannot be made while the lock is taken. How a handshake ends is an
-- answer from outside.
pub mod Owners
pub mod Progress
pub mod Bound
pub mod Examples
use newrr.Common.{
  ℕ, zero, suc, ◌+◌, ◌<◌, ◌≡◌, Bool, true, false, ◌==◌, if◌then◌else◌, List, [], ◌∷◌, Option, none,
  some, Text, Map, lookup, remove, insert,
}

-- sshClient: `held` if a call has locked its mutex for writing.
pub record SshClient : Type 0 where
  pub client : Option ℕ
  pub held : Bool

-- sshConnectionPool. The map holds pointers, here numbers of entries; `made` of them are in use.
-- `closed` are the connections that were closed.
pub record SshConnectionPool : Type 0 where
  pub clients : Map ℕ
  pub entries : ℕ → SshClient
  pub made : ℕ
  pub held : Bool
  pub closed : List ℕ

-- Where a call is.
pub data Place : Type 0 where
  getting : Text → Place
  reading : Text → ℕ → Place
  renewing : Text → Place
  rereading : Text → ℕ → Place
  making : Text → Place
  dialing : Text → ℕ → Place
  deleting : Text → Place
  closing : Text → ℕ → Place
  returned : Option ℕ → Place

abbrev pub update {ℓ} : {A : Type ℓ} → (ℕ → A) → ℕ → A → ℕ → A
update f i x j = if j == i then x else f j

-- A step that needs a lock which is free, or cannot be made.
abbrev pub unless : Bool → SshConnectionPool × Place → Option (SshConnectionPool × Place)
unless true next = none
unless false next = some next

-- The lookup of an entry, in getSSHClient and again in newSSHClient.
abbrev pub found : Option ℕ → (ℕ → Place) → Place → Place
found none entry missing = missing
found (some r) entry missing = entry r

-- if c != nil { return c, nil }
abbrev pub client_or : Option ℕ → Place → Place
client_or (some c) missing = returned (some c)
client_or none missing = missing

-- A record for the host takes the place of the one that may be there, with its mutex locked.
abbrev pub with_record : Text → SshConnectionPool → SshConnectionPool
with_record host pool = record pool {
  clients = insert host pool.made pool.clients;
  entries = update pool.entries pool.made (record { client = none; held = true });
  made = suc pool.made;
}

-- The key is parsed and the server dialed: a client, or an error.
abbrev pub dialed : Option ℕ → Text → ℕ → SshConnectionPool → SshConnectionPool × Place
dialed (some c) host r pool = (
  record pool { entries = update pool.entries r (record { client = some c; held = false }) },
  returned (some c),
)
dialed none host r pool = (
  record pool {
    entries = update pool.entries r (record { client = (pool.entries r).client; held = false });
  },
  deleting host,
)

abbrev pub closed_with : Option ℕ → List ℕ → List ℕ
closed_with none cs = cs
closed_with (some c) cs = c ∷ cs

-- DeleteSSHClient at the pool's lock: it keeps that until it has the entry's.
abbrev pub delete_entry : Option ℕ → Text → SshConnectionPool → SshConnectionPool × Place
delete_entry none host pool = (record pool { clients = remove host pool.clients }, returned none)
delete_entry (some r) host pool = (record pool { held = true }, closing host r)

-- The next step of a call; `answer` is what a handshake brings.
unfoldable pub step : Option ℕ → SshConnectionPool → Place → Option (SshConnectionPool × Place)
unfolding lookup remove insert
step answer pool (getting host) =
    unless pool.held (pool, found (lookup host pool.clients) (reading host) (renewing host))
step answer pool (reading host r) =
    unless (pool.entries r).held (pool, client_or (pool.entries r).client (renewing host))
step answer pool (renewing host) =
    unless pool.held (pool, found (lookup host pool.clients) (rereading host) (making host))
step answer pool (rereading host r) =
    unless (pool.entries r).held (pool, client_or (pool.entries r).client (making host))
step answer pool (making host) = unless pool.held (with_record host pool, dialing host pool.made)
step answer pool (dialing host r) = some (dialed answer host r pool)
step answer pool (deleting host) =
    unless pool.held (delete_entry (lookup host pool.clients) host pool)
step answer pool (closing host r) = unless (pool.entries r).held (
  record pool {
    clients = remove host pool.clients;
    held = false;
    closed = closed_with (pool.entries r).client pool.closed;
  },
  returned none,
)
step answer pool (returned c) = none

-- The calls that run, and the pool that they share.
pub data Call : Type 0 where
  get_ssh_client : Text → Call
  delete_ssh_client : Text → Call

abbrev pub begin : Call → Place
begin (get_ssh_client host) = getting host
begin (delete_ssh_client host) = deleting host

pub record System : Type 0 where
  pub pool : SshConnectionPool
  pub place : ℕ → Place

-- What init() makes.
abbrev pub empty_pool : SshConnectionPool
empty_pool = record {
  clients = [];
  entries = λ _. record { client = none; held = false };
  made = 0;
  held = false;
  closed = [];
}

-- One of `n` calls takes a step.
pub data Step (n : ℕ) (s : System) : System → Type 0 where
  pick :
      (i : ℕ) (answer : Option ℕ) {pool : SshConnectionPool} {p : Place}
      → i < n
      → step answer s.pool (s.place i) ≡ some (pool, p)
      → Step n s (record { pool = pool; place = update s.place i p })

-- What `n` calls reach in `k` steps.
pub data Reach (n : ℕ) (calls : ℕ → Call) : ℕ → System → Type 0 where
  start : Reach n calls 0 (record { pool = empty_pool; place = λ i. begin (calls i) })
  later : {k : ℕ} {s t : System} → Reach n calls k s → Step n s t → Reach n calls (suc k) t
