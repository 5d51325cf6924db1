-- ===== src/SshToolkit/Pool/Bound.antt =====
-- Every step brings a call nearer to its end.
use newrr.Common.{
  ℕ, zero, suc, ◌+◌, ◌*◌, ◌<◌, ◌≤◌, ◌≡◌, refl, Option, none, some, Text, lookup, arith,
}
use newrr.SshToolkit.Pool.Owners.{unless-after}
use newrr.SshToolkit.Pool.{
  SshConnectionPool, Place, getting, reading, renewing, rereading, making, dialing, deleting,
  closing, returned, update, found, client_or, delete_entry, dialed, step, System, pick, Reach,
  start, later, Call, get_ssh_client, delete_ssh_client, begin,
}

-- How many steps a call has at most before it.
abbrev pub rank : Place → ℕ
rank (getting host) = 8
rank (reading host r) = 7
rank (renewing host) = 6
rank (rereading host r) = 5
rank (making host) = 4
rank (dialing host r) = 3
rank (deleting host) = 2
rank (closing host r) = 1
rank (returned c) = 0

found-rank :
    (o : Option ℕ) (entry : ℕ → Place) (missing : Place) (k : ℕ)
    → ((r : ℕ) → rank (entry r) < k)
    → rank missing < k
    → rank (found o entry missing) < k
found-rank none entry missing k h l = l
found-rank (some r) entry missing k h l = h r

client_or-rank :
    (o : Option ℕ) (missing : Place) (k : ℕ)
    → 0 < k
    → rank missing < k
    → rank (client_or o missing) < k
client_or-rank none missing k z l = l
client_or-rank (some c) missing k z l = z

delete_entry-rank :
    (o : Option ℕ) (host : Text) (pool : SshConnectionPool) → rank (delete_entry o host pool).1 < 2
delete_entry-rank none host pool = omega arith
delete_entry-rank (some r) host pool = omega arith

dialed-rank :
    (answer : Option ℕ) (host : Text) (r : ℕ) (pool : SshConnectionPool)
    → rank (dialed answer host r pool).1 < 3
dialed-rank none host r pool = omega arith
dialed-rank (some c) host r pool = omega arith

step-rank :
    (answer : Option ℕ) (pool : SshConnectionPool) (p : Place) (y : SshConnectionPool × Place)
    → step answer pool p ≡ some y
    → rank y.1 < rank p
unfolding step
step-rank a pool (getting host) y e =
    unless-after (λ z. rank z.1 < 8) pool.held
      (pool, found (lookup host pool.clients) (reading host) (renewing host)) y
      (found-rank (lookup host pool.clients) (reading host) (renewing host) 8 (λ r. omega arith)
        (omega arith))
      e
step-rank a pool (reading host r) y e =
    unless-after (λ z. rank z.1 < 7) (pool.entries r).held
      (pool, client_or (pool.entries r).client (renewing host)) y
      (client_or-rank (pool.entries r).client (renewing host) 7 (omega arith) (omega arith)) e
step-rank a pool (renewing host) y e =
    unless-after (λ z. rank z.1 < 6) pool.held
      (pool, found (lookup host pool.clients) (rereading host) (making host)) y
      (found-rank (lookup host pool.clients) (rereading host) (making host) 6 (λ r. omega arith)
        (omega arith))
      e
step-rank a pool (rereading host r) y e =
    unless-after (λ z. rank z.1 < 5) (pool.entries r).held
      (pool, client_or (pool.entries r).client (making host)) y
      (client_or-rank (pool.entries r).client (making host) 5 (omega arith) (omega arith)) e
step-rank a pool (making host) y e = unless-after (λ z. rank z.1 < 4) pool.held _ y (omega arith) e
step-rank a pool (dialing host r) y e =
    let l = dialed-rank a host r pool in let s : dialed a host r pool ≡ y = cc in rw s at l
step-rank a pool (deleting host) y e =
    unless-after (λ z. rank z.1 < 2) pool.held (delete_entry (lookup host pool.clients) host pool) y
      (delete_entry-rank (lookup host pool.clients) host pool) e
step-rank a pool (closing host r) y e =
    unless-after (λ z. rank z.1 < 1) (pool.entries r).held _ y (omega arith) e
step-rank a pool (returned c) y e = cc

-- The steps that the first `n` calls have at most before them.
abbrev pub remaining : ℕ → (ℕ → Place) → ℕ
remaining zero place = 0
remaining (suc n) place = rank (place n) + remaining n place

remaining-outside :
    (n i : ℕ) (place : ℕ → Place) (q : Place)
    → n ≤ i
    → remaining n (update place i q) ≡ remaining n place
remaining-outside zero i place q l = refl
remaining-outside (suc n) i place q l = ground (arith, remaining-outside n i place q)

remaining-update :
    (n i : ℕ) (place : ℕ → Place) (q : Place)
    → i < n
    → rank q < rank (place i)
    → remaining n (update place i q) < remaining n place
remaining-update zero i place q l h = absurd (omega arith)
remaining-update (suc n) i place q l h =
    ground (arith, remaining-update n i place q, remaining-outside n i place q)

begin-rank : (c : Call) → rank (begin c) ≤ 8
begin-rank (get_ssh_client host) = omega arith
begin-rank (delete_ssh_client host) = omega arith

remaining-begin : (n : ℕ) (calls : ℕ → Call) → remaining n (λ i. begin (calls i)) ≤ 8 * n
remaining-begin zero calls = omega arith
remaining-begin (suc n) calls = omega (arith, begin-rank (calls n), remaining-begin n calls)

-- However `n` calls are interleaved and their handshakes end, they make at most 8 * n steps, also
-- with what they could still make.
pub Reach-bounded :
    {n : ℕ} {calls : ℕ → Call} {k : ℕ} {s : System}
    → Reach n calls k s
    → k + remaining n s.place ≤ 8 * n
Reach-bounded {n} {calls} start = omega (arith, remaining-begin n calls)
Reach-bounded {n} {calls} (later {s = s} r (pick i answer {pool = m} {p = p} l e)) = omega (
  arith,
  Reach-bounded r,
  remaining-update n i s.place p l (step-rank answer s.pool (s.place i) (m, p) e),
)
