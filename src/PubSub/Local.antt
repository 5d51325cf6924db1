-- ===== src/PubSub/Local.antt =====
-- pubsub/types.go, pubsub/local_pubsub.go and the local half of pubsub/init.go.
-- One call at a time runs; the mutex of the client and the mutexes of its subscriptions are flags,
-- so that a lock which a panic leaves behind blocks the later calls.
-- The buffered channel of a subscription lives in its record; once the record has left the map,
-- only the subscriber holds the channel, and it stands in `retired`.
pub mod Loops
pub mod Invariant
pub mod Calls
pub mod Histories
pub mod Delivery
pub mod Examples
use newrr.Common.{
  ℕ, ◌≡◌, Bool, true, false, ◌||◌, Option, none, some, List, [], ◌∷◌, ◌++◌, Result, ok, err,
  failure, Text, text, text_eq, Map, lookup, insert, remove, ◌==◌, ltb, length, if◌then◌else◌,
}
use newrr.Common.Run.{returns, panics, blocks, Run, pure, gets, modify, ◌>>=◌, ◌>>◌}

-- github.com/hashicorp/go-set, as far as the client uses it.
pub record HashSet (Set : Type 0) : Type 0 where
  pub empty : Set
  pub contains : Text → Set → Bool
  pub insert_key : Text → Set → Set
  pub contains-empty : (k : Text) → contains k empty ≡ false
  pub contains-insert_key :
      (k j : Text) (s : Set) → contains j (insert_key k s) ≡ (text_eq k j || contains j s)

-- localPubSubSubscription: the mutex and the channel, a closed channel keeps what it buffered.
pub record Subscription : Type 0 where
  pub held : Bool
  pub capacity : ℕ
  pub buffer : List Text
  pub closed : Bool

pub record LocalPubSub (Set : Type 0) : Type 0 where
  pub held : Bool
  pub buffer_length : ℕ
  pub subscriptions : Map (Map Subscription)
  pub topics : Set
  pub closed : Bool
  pub retired : Map Subscription

-- m.Lock(); close(channel); m.Unlock(). Closing a closed channel panics.
unfoldable pub close_channel : Run Subscription (Unit {0})
close_channel c =
    if c.held
    then blocks c
    else if c.closed
    then panics (record c { held = true })
    else returns tt (record c { closed = true })

-- `<-channel` on a channel that is open.
unfoldable pub receive : Subscription → Option Subscription
receive c = elim c.buffer [ [] ↦ none | x ∷ rest ↦ some (record c { buffer = rest }) ]

-- `channel <- data` with the subscription's mutex held: it waits for room in the buffer.
unfoldable pub send : Text → Run Subscription (Unit {0})
send message c =
    if c.closed
    then panics (record c { held = true })
    else if ltb (length c.buffer) c.capacity
    then returns tt (record c { buffer = c.buffer ++ message ∷ [] })
    else blocks (record c { held = true })

-- The body of the loop of Publish: a full channel loses its oldest message.
unfoldable pub deliver : Text → Run Subscription (Unit {0})
unfolding receive send
deliver message c =
    if c.held
    then blocks c
    else if length c.buffer == c.capacity
    then (elim (receive c) [ none ↦ blocks (record c { held = true }) | some d ↦ send message d ])
    else send message c

-- `for _, subscription := range records`
unfoldable pub each : Run Subscription (Unit {0}) → Run (Map Subscription) (Unit {0})
each f [] = returns tt []
each f ((k, c) ∷ rest) =
    let others = each f rest in
    elim (f c) [
      | returns _ d ↦ (elim others [
        | returns _ ds ↦ returns tt ((k, d) ∷ ds)
        | panics ds ↦ panics ((k, d) ∷ ds)
        | blocks ds ↦ blocks ((k, d) ∷ ds)
      ])
      | panics d ↦ panics ((k, d) ∷ rest)
      | blocks d ↦ blocks ((k, d) ∷ rest)
    ]

-- The loop of Close, over every topic.
unfoldable pub each_topic : Run (Map (Map Subscription)) (Unit {0})
each_topic [] = returns tt []
each_topic ((t, m) ∷ rest) =
    let others = each_topic rest in
    elim (each close_channel m) [
      | returns _ m' ↦ (elim others [
        | returns _ rs ↦ returns tt ((t, m') ∷ rs)
        | panics rs ↦ panics ((t, m') ∷ rs)
        | blocks rs ↦ blocks ((t, m') ∷ rs)
      ])
      | panics m' ↦ panics ((t, m') ∷ rest)
      | blocks m' ↦ blocks ((t, m') ∷ rest)
    ]

abbrev pub all_records : Map (Map Subscription) → Map Subscription
all_records [] = []
all_records ((t, m) ∷ rest) = m ++ all_records rest

abbrev pub retire : Text → Option Subscription → Map Subscription → Map Subscription
retire id none r = r
retire id (some c) r = (id, c) ∷ r

abbrev pub closed_error : {A : Type 0} → Result A
closed_error = err (failure "pubsub client is closed")

module _ {Set : Type 0} where
  -- The loop over `l.subscriptions[topic]`; a missing topic has a nil map, which is empty.
  unfoldable pub each_of : Text → Run Subscription (Unit {0}) → Run (LocalPubSub Set) (Unit {0})
  each_of topic f l = elim (lookup topic l.subscriptions) [
    | none ↦ returns tt l
    | some m ↦ (elim (each f m) [
      | returns _ m' ↦ returns tt (record l { subscriptions = insert topic m' l.subscriptions })
      | panics m' ↦ panics (record l { subscriptions = insert topic m' l.subscriptions })
      | blocks m' ↦ blocks (record l { subscriptions = insert topic m' l.subscriptions })
    ])
  ]

  unfoldable pub rlock : Run (LocalPubSub Set) (Unit {0})
  rlock l = if l.held then blocks l else returns tt l

  unfoldable pub lock : Run (LocalPubSub Set) (Unit {0})
  lock l = if l.held then blocks l else returns tt (record l { held = true })

  unfoldable pub unlock : Run (LocalPubSub Set) (Unit {0})
  unlock l = returns tt (record l { held = false })

  -- l.subscriptions[topic][subscriptionId] = record: a write into a nil map panics.
  unfoldable pub put_subscription : Text → Text → Subscription → Run (LocalPubSub Set) (Unit {0})
  put_subscription topic id c l = elim (lookup topic l.subscriptions) [
    | none ↦ panics l
    | some m ↦
        returns tt (record l { subscriptions = insert topic (insert id c m) l.subscriptions })
  ]

  abbrev pub records_of : Text → LocalPubSub Set → Map Subscription
  records_of topic l = elim (lookup topic l.subscriptions) [ none ↦ [] | some m ↦ m ]

  -- The map after `l.subscriptions[topic][id] = c`, where the topic is there.
  abbrev pub put : Text → Text → Subscription → LocalPubSub Set → Map (Map Subscription)
  put topic id c l = insert topic (insert id c (records_of topic l)) l.subscriptions

  unfoldable pub find_subscription : Text → Text → LocalPubSub Set → Option Subscription
  find_subscription topic id l = elim (lookup topic l.subscriptions) [
    | none ↦ none
    | some m ↦ lookup id m
  ]

  -- The mutating half of RemoveTopic.
  unfoldable pub drop_topic : Text → Run (LocalPubSub Set) (Result (Unit {0}))
  unfolding lock unlock each_of
  drop_topic topic = do
    lock
    each_of topic close_channel
    modify (λ l. record l {
      subscriptions = remove topic l.subscriptions;
      retired = records_of topic l ++ l.retired;
    })
    unlock
    pure (ok tt)

  -- One step on the record of a subscription that is in the map.
  unfoldable pub on_subscription :
      Text → Text → Run Subscription (Unit {0}) → Run (LocalPubSub Set) (Unit {0})
  on_subscription topic id f l = elim (find_subscription topic id l) [
    | none ↦ returns tt l
    | some c ↦ (elim (f c) [
      | returns _ d ↦ returns tt (record l { subscriptions = put topic id d l })
      | panics d ↦ panics (record l { subscriptions = put topic id d l })
      | blocks d ↦ blocks (record l { subscriptions = put topic id d l })
    ])
  ]

  -- The mutating half of Unsubscribe.
  unfoldable pub withdraw : Text → Text → Run (LocalPubSub Set) (Result (Unit {0}))
  unfolding lock unlock on_subscription
  withdraw topic id = do
    on_subscription topic id close_channel
    lock
    modify (λ l. record l {
      subscriptions = insert topic (remove id (records_of topic l)) l.subscriptions;
      retired = retire id (find_subscription topic id l) l.retired;
    })
    unlock
    pure (ok tt)

module _ {Set : Type 0} ⦃set : HashSet Set⦄ where
  abbrev pub start : ℕ → LocalPubSub Set
  start n = record {
    held = false;
    buffer_length = n;
    subscriptions = [];
    topics = set.empty;
    closed = false;
    retired = [];
  }

  -- createLocalPubSubClient
  unfoldable pub create_local_pubsub_client : ℕ → Result (LocalPubSub Set)
  create_local_pubsub_client n =
      if n == 0
      then err (failure "buffer length cannot be less than or equal to 0")
      else ok (start n)

  -- l.mutex.RLock(); isContains := l.topics.Contains(topic); l.mutex.RUnlock()
  unfoldable pub has_topic : Text → Run (LocalPubSub Set) Bool
  unfolding rlock
  has_topic topic = do rlock; gets (λ l. set.contains topic l.topics)

  unfoldable pub insert_topic : Text → Run (LocalPubSub Set) (Unit {0})
  unfolding lock unlock
  insert_topic topic = do
    lock
    modify (λ l. record l {
      topics = set.insert_key topic l.topics;
      subscriptions = insert topic [] l.subscriptions;
    })
    unlock

  unfoldable pub ensure_topic : Text → Run (LocalPubSub Set) (Unit {0})
  unfolding has_topic insert_topic
  ensure_topic topic = do found ← has_topic topic; if found then pure tt else insert_topic topic

  -- CreateTopic
  unfoldable pub create_topic : Text → Run (LocalPubSub Set) (Result (Unit {0}))
  unfolding has_topic insert_topic
  create_topic topic = do
    closed ← gets (λ l. l.closed)
    if closed then pure closed_error else do
      found ← has_topic topic
      if found then pure (ok tt) else do insert_topic topic; pure (ok tt)

  -- RemoveTopic
  unfoldable pub remove_topic : Text → Run (LocalPubSub Set) (Result (Unit {0}))
  unfolding has_topic drop_topic
  remove_topic topic = do
    closed ← gets (λ l. l.closed)
    if closed
        then pure closed_error
        else do found ← has_topic topic; if found then drop_topic topic else pure (ok tt)

  -- Subscribe; `uuid` is what uuid.NewString() returns.
  unfoldable pub subscribe : Text → Text → Run (LocalPubSub Set) (Result Text)
  unfolding ensure_topic put_subscription lock unlock
  subscribe topic uuid = do
    closed ← gets (λ l. l.closed)
    if closed then pure closed_error else do
      ensure_topic topic
      n ← gets (λ l. l.buffer_length)
      lock
      put_subscription topic (topic ++ text "_" ++ uuid)
          (record { held = false; capacity = n; buffer = []; closed = false })
      unlock
      pure (ok (topic ++ text "_" ++ uuid))

  -- Unsubscribe
  unfoldable pub unsubscribe : Text → Text → Run (LocalPubSub Set) (Result (Unit {0}))
  unfolding has_topic find_subscription rlock withdraw
  unsubscribe topic id = do
    closed ← gets (λ l. l.closed)
    if closed then pure closed_error else do
      found ← has_topic topic
      if found
          then (do
            rlock
            known ← gets (find_subscription topic id)
            elim known [ none ↦ pure (ok tt) | some c ↦ withdraw topic id ])
          else pure (ok tt)

  -- Publish
  unfoldable pub publish : Text → Text → Run (LocalPubSub Set) (Result (Unit {0}))
  unfolding ensure_topic rlock
  publish topic message = do
    closed ← gets (λ l. l.closed)
    if closed
        then pure closed_error
        else do ensure_topic topic; rlock; each_of topic (deliver message); pure (ok tt)

  -- Close: what the loop has closed; a panic in it is recovered, and the deferred unlock runs.
  unfoldable pub shut : Run (LocalPubSub Set) (Unit {0})
  shut l = elim (each_topic l.subscriptions) [
    | returns _ m ↦ returns tt (record l {
      held = false;
      closed = true;
      topics = set.empty;
      subscriptions = [];
      retired = all_records m ++ l.retired;
    })
    | panics m ↦ returns tt (record l { held = false; closed = true; subscriptions = m })
    | blocks m ↦ blocks (record l { closed = true; subscriptions = m })
  ]

  unfoldable pub close : Run (LocalPubSub Set) (Result (Unit {0}))
  unfolding lock unlock shut
  close = do
    lock
    closed ← gets (λ l. l.closed)
    if closed then (do unlock; pure (ok tt)) else (do shut; pure (ok tt))
