-- ===== src/PubSub/Local/Calls.antt =====
-- How each call of an open client ends, as one equation for each.
use newrr.Common.{
  ℕ, ◌≡◌, refl, true, false, Option, none, some, [], ◌∷◌, ◌++◌, ok, Text, text, Map, lookup, insert,
  remove, lookup-insert, Each, Each-lookup, map_values, arith, text_eq_refl, remove-insert_self,
  insert-insert_self,
}
use newrr.Common.Run.{returns}
use newrr.PubSub.Local.{
  HashSet, Subscription, LocalPubSub, remove_topic, subscribe, unsubscribe, publish, close, each_of,
  deliver, records_of, find_subscription, withdraw, put, all_records, put_subscription,
}
use newrr.PubSub.Local.Loops.{
  IsOpen, shut_down, delivered, close_channel-IsOpen, deliver-IsOpen, each-returns,
  each_topic-returns,
}
use newrr.PubSub.Local.Invariant.{
  WellFormed, with_topic, with_topic-WellFormed, after_remove, drop_topic-returns,
}

abbrev pub fresh : ℕ → Subscription
fresh n = record { held = false; capacity = n; buffer = []; closed = false }

abbrev pub id_of : Text → Text → Text
id_of t uuid = t ++ text "_" ++ uuid

module _ {Set : Type 0} ⦃set : HashSet Set⦄ where
  pub remove_topic-returns :
      (t : Text) (l : LocalPubSub Set)
      → l.closed ≡ false
      → WellFormed l
      → remove_topic t l ≡ returns (ok tt) (after_remove t l)
  unfolding remove_topic
  remove_topic-returns t l o w =
      ground (arith, drop_topic-returns t l (lookup t l.subscriptions) refl w)

  -- The state in which a subscription of `t` stands at `id`.
  abbrev pub subscribed : Text → Text → LocalPubSub Set → LocalPubSub Set
  subscribed t id l = record l { subscriptions = put t id (fresh l.buffer_length) l }

  put_subscription-returns :
      (t id : Text) (c : Subscription) (l : LocalPubSub Set) (m : Map Subscription)
      → lookup t l.subscriptions ≡ some m
      → put_subscription t id c l ≡ returns tt (record l { subscriptions = put t id c l })
  unfolding put_subscription
  put_subscription-returns t id c l m e = ground arith

  pub subscribe-returns :
      (t uuid : Text) (l : LocalPubSub Set) (m : Map Subscription)
      → l.closed ≡ false
      → WellFormed l
      → lookup t (with_topic t l).subscriptions ≡ some m
      → subscribe t uuid l
        ≡ returns (ok (id_of t uuid)) (subscribed t (id_of t uuid) (with_topic t l))
  unfolding subscribe
  subscribe-returns t uuid l m o w e = ground (arith, w.free)

  -- The state in which the subscription `c` of `t` at `id` has been closed and taken off.
  abbrev pub withdrawn : Text → Text → Subscription → LocalPubSub Set → LocalPubSub Set
  withdrawn t id c l = record l {
    subscriptions = insert t (remove id (records_of t l)) l.subscriptions;
    retired = (id, shut_down c) ∷ l.retired;
  }

  -- The state in which a message has gone to each subscription of `t`.
  abbrev pub published : Text → Text → LocalPubSub Set → LocalPubSub Set
  published t message l = elim (lookup t l.subscriptions) [
    | none ↦ l
    | some m ↦ record l {
      subscriptions = insert t (map_values (delivered message) m) l.subscriptions;
    }
  ]

  each_of-deliver :
      (t message : Text) (l : LocalPubSub Set) (o : Option (Map Subscription))
      → lookup t l.subscriptions ≡ o
      → WellFormed l
      → each_of t (deliver message) l ≡ returns tt (published t message l)
  unfolding each_of
  each_of-deliver t message l none e w = ground arith
  each_of-deliver t message l (some m) e w = ground (
    arith,
    each-returns (deliver message) (delivered message) (IsOpen l.buffer_length)
        (λ c o. deliver-IsOpen message c w.room o) m
        (Each-lookup (Each (IsOpen l.buffer_length)) t l.subscriptions e w.live),
  )

  pub publish-returns :
      (t message : Text) (l : LocalPubSub Set)
      → l.closed ≡ false
      → WellFormed l
      → publish t message l ≡ returns (ok tt) (published t message (with_topic t l))
  unfolding publish
  publish-returns t message l o w = ground (
    arith,
    each_of-deliver t message (with_topic t l) (lookup t (with_topic t l).subscriptions) refl
        (with_topic-WellFormed t l w),
  )

  withdraw-returns :
      (t id : Text) (c : Subscription) (m : Map Subscription) (l : LocalPubSub Set)
      → lookup t l.subscriptions ≡ some m
      → lookup id m ≡ some c
      → WellFormed l
      → withdraw t id l ≡ returns (ok tt) (withdrawn t id c l)
  unfolding withdraw find_subscription
  withdraw-returns t id c m l e f w = ground (
    arith,
    close_channel-IsOpen {n = l.buffer_length} c (
        Each-lookup (IsOpen l.buffer_length) id m f
          (Each-lookup (Each (IsOpen l.buffer_length)) t l.subscriptions e w.live)),
    lookup-insert t t (insert id (shut_down c) m) l.subscriptions,
    lookup-insert id id (shut_down c) m,
    text_eq_refl t,
    text_eq_refl id,
    remove-insert_self id (shut_down c) m,
    insert-insert_self t (remove id m) (insert id (shut_down c) m) l.subscriptions,
  )

  -- A known subscription is closed and taken off.
  pub unsubscribe-returns :
      (t id : Text) (c : Subscription) (m : Map Subscription) (l : LocalPubSub Set)
      → l.closed ≡ false
      → WellFormed l
      → lookup t l.subscriptions ≡ some m
      → lookup id m ≡ some c
      → unsubscribe t id l ≡ returns (ok tt) (withdrawn t id c l)
  unfolding unsubscribe
  unsubscribe-returns t id c m l o w e f =
      ground (arith, w.known t, withdraw-returns t id c m l e f w)

  -- An unknown one changes nothing.
  pub unsubscribe-unknown :
      (t id : Text) (l : LocalPubSub Set)
      → l.closed ≡ false
      → WellFormed l
      → find_subscription t id l ≡ none
      → unsubscribe t id l ≡ returns (ok tt) l
  unfolding unsubscribe
  unsubscribe-unknown t id l o w e = ground arith

  -- The state in which every channel is closed and every topic is gone.
  abbrev pub shut_state : LocalPubSub Set → LocalPubSub Set
  shut_state l = record l {
    closed = true;
    topics = set.empty;
    subscriptions = [];
    retired = all_records (map_values (map_values shut_down) l.subscriptions) ++ l.retired;
  }

  pub close-returns :
      (l : LocalPubSub Set)
      → l.closed ≡ false
      → WellFormed l
      → close l ≡ returns (ok tt) (shut_state l)
  unfolding close
  close-returns l o w =
      ground (arith, w.free, each_topic-returns l.buffer_length l.subscriptions w.live)
