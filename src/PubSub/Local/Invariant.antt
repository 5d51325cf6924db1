-- ===== src/PubSub/Local/Invariant.antt =====
-- What every call of the client keeps, and how each call of an open client ends.
use newrr.Common.{
  ℕ, ◌<◌, ◌≡◌, refl, false, Option, none, some, inl, inr, [], ◌++◌, ok, Text, Map, lookup, insert,
  remove, lookup-insert, Each, Each-insert, Each-lookup, map_values, arith, Bool-cases,
  text_eq_refl, remove-insert_self, if◌then◌else◌,
}
use newrr.Common.Run.{returns}
use newrr.PubSub.Local.{
  HashSet, Subscription, LocalPubSub, start, create_topic, ensure_topic, close_channel, drop_topic,
  records_of,
}
use newrr.PubSub.Local.Loops.{IsOpen, shut_down, close_channel-IsOpen, each-returns}

module _ {Set : Type 0} ⦃set : HashSet Set⦄ where
  -- The mutex is free, each subscribed topic is in the set of topics, and each subscription in the
  -- map has an open channel of the client's length.
  pub record WellFormed (l : LocalPubSub Set) : Type 0 where
    pub free : l.held ≡ false
    pub room : 0 < l.buffer_length
    pub known : (t : Text) → set.contains t l.topics ≡ false → lookup t l.subscriptions ≡ none
    pub live : Each (Each (IsOpen l.buffer_length)) l.subscriptions

  start-WellFormed : (n : ℕ) → 0 < n → WellFormed (start n)
  unfolding lookup
  start-WellFormed n h = record { free = refl; room = h; known = λ t _. refl; live = tt }

  abbrev pub entered : Text → LocalPubSub Set → LocalPubSub Set
  entered t l = record l {
    topics = set.insert_key t l.topics;
    subscriptions = insert t [] l.subscriptions;
  }

  -- The state in which a topic has been looked up, and entered if it was not there.
  abbrev pub with_topic : Text → LocalPubSub Set → LocalPubSub Set
  with_topic t l = if set.contains t l.topics then l else entered t l

  pub ensure_topic-returns :
      (t : Text) (l : LocalPubSub Set)
      → l.held ≡ false
      → ensure_topic t l ≡ returns tt (with_topic t l)
  unfolding ensure_topic
  ensure_topic-returns t l h = ground arith

  entered-WellFormed : (t : Text) (l : LocalPubSub Set) → WellFormed l → WellFormed (entered t l)
  entered-WellFormed t l w = record {
    free = w.free;
    room = w.room;
    known = λ j e. ground (
      arith,
      w.known j,
      lookup-insert t j [] l.subscriptions,
      set.contains-insert_key t j l.topics,
    );
    live = Each-insert (Each (IsOpen l.buffer_length)) t [] l.subscriptions tt w.live;
  }

  pub with_topic-WellFormed :
      (t : Text) (l : LocalPubSub Set) → WellFormed l → WellFormed (with_topic t l)
  with_topic-WellFormed t l w = elim (Bool-cases (set.contains t l.topics)) [
    | inl e ↦ rw e w
    | inr e ↦ rw e (entered-WellFormed t l w)
  ]

  pub create_topic-returns :
      (t : Text) (l : LocalPubSub Set)
      → l.closed ≡ false
      → l.held ≡ false
      → create_topic t l ≡ returns (ok tt) (with_topic t l)
  unfolding create_topic
  create_topic-returns t l o h = ground arith

  -- The state in which a topic and its subscriptions are gone. The set keeps the topic.
  abbrev pub removed : Text → Map Subscription → LocalPubSub Set → LocalPubSub Set
  removed t m l = record l {
    subscriptions = remove t l.subscriptions;
    retired = map_values shut_down m ++ l.retired;
  }

  abbrev pub after_remove : Text → LocalPubSub Set → LocalPubSub Set
  after_remove t l = if set.contains t l.topics then removed t (records_of t l) l else l

  pub drop_topic-returns :
      (t : Text) (l : LocalPubSub Set) (o : Option (Map Subscription))
      → lookup t l.subscriptions ≡ o
      → WellFormed l
      → drop_topic t l ≡ returns (ok tt) (removed t (records_of t l) l)
  unfolding drop_topic
  drop_topic-returns t l none e w = ground arith
  drop_topic-returns t l (some m) e w = ground (
    arith,
    each-returns close_channel shut_down (IsOpen l.buffer_length) close_channel-IsOpen m
        (Each-lookup (Each (IsOpen l.buffer_length)) t l.subscriptions e w.live),
    lookup-insert t t (map_values shut_down m) l.subscriptions,
    text_eq_refl t,
    remove-insert_self t (map_values shut_down m) l.subscriptions,
  )
