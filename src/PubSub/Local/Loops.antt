-- ===== src/PubSub/Local/Loops.antt =====
-- The loops of pubsub/local_pubsub.go over subscriptions that are open.
use newrr.Common.{
  ℕ, ◌≤◌, ◌<◌, ◌≡◌, refl, false, List, [], ◌∷◌, ◌++◌, Text, Map, Each, map_values, length,
  length-append, newest, newest-room, length-newest-le, newest-full, arith, true,
}
use newrr.Common.Run.{returns, Run}
use newrr.PubSub.Local.{Subscription, close_channel, deliver, each, each_topic}

pub record IsOpen (n : ℕ) (c : Subscription) : Type 0 where
  pub free : c.held ≡ false
  pub live : c.closed ≡ false
  pub capacity : c.capacity ≡ n
  pub fits : length c.buffer ≤ n

abbrev pub shut_down : Subscription → Subscription
shut_down c = record c { closed = true }

-- A full channel loses its oldest message, and the new one comes last.
abbrev pub delivered : Text → Subscription → Subscription
delivered message c = record c { buffer = newest c.capacity (c.buffer ++ message ∷ []) }

pub close_channel-IsOpen :
    {n : ℕ} (c : Subscription) → IsOpen n c → close_channel c ≡ returns tt (shut_down c)
unfolding close_channel
close_channel-IsOpen c o = ground arith

deliver-buffer :
    (message : Text) (buffer : List Text) (n : ℕ)
    → 0 < n
    → length buffer ≤ n
    → deliver message (record { held = false; capacity = n; buffer = buffer; closed = false })
      ≡ returns tt (record {
        held = false;
        capacity = n;
        buffer = newest n (buffer ++ message ∷ []);
        closed = false;
      })
unfolding deliver
deliver-buffer message [] n h k = ground (arith, newest-room n (message ∷ []))
deliver-buffer message (x ∷ xs) n h k = ground (
  arith,
  newest-room n ((x ∷ xs) ++ message ∷ []),
  newest-full n x message xs,
  length-append xs (message ∷ []),
)

pub deliver-IsOpen :
    {n : ℕ} (message : Text) (c : Subscription)
    → 0 < n
    → IsOpen n c
    → deliver message c ≡ returns tt (delivered message c)
deliver-IsOpen {n} message c h o = ground (arith, deliver-buffer message c.buffer n h o.fits)

pub delivered-IsOpen :
    {n : ℕ} (message : Text) (c : Subscription) → IsOpen n c → IsOpen n (delivered message c)
delivered-IsOpen {n} message c o = record {
  free = o.free;
  live = o.live;
  capacity = o.capacity;
  fits = rw o.capacity (length-newest-le n (c.buffer ++ message ∷ []));
}

module _ (f : Run Subscription (Unit {0})) (g : Subscription → Subscription) where
  -- A loop whose body returns at each subscription returns, and has done `g` to each.
  pub each-returns {ℓ} :
      (P : Subscription → Type ℓ)
      → ((c : Subscription) → P c → f c ≡ returns tt (g c))
      → (m : Map Subscription) → Each P m
      → each f m ≡ returns tt (map_values g m)
  unfolding each
  each-returns P h [] e = refl
  each-returns P h ((k, c) ∷ rest) e = ground (arith, h c e.0, each-returns P h rest e.1)

pub each_topic-returns :
    (n : ℕ) (m : Map (Map Subscription))
    → Each (Each (IsOpen n)) m
    → each_topic m ≡ returns tt (map_values (map_values shut_down) m)
unfolding each_topic
each_topic-returns n [] e = refl
each_topic-returns n ((t, m) ∷ rest) e = ground (
  arith,
  each-returns close_channel shut_down (IsOpen n) close_channel-IsOpen m e.0,
  each_topic-returns n rest e.1,
)
