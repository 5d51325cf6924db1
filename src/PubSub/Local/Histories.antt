-- ===== src/PubSub/Local/Histories.antt =====
-- Any sequence of calls on a client of pubsub/local_pubsub.go: the invariant, and the calls that
-- panic.
use newrr.Common.{
  ◌≡◌, refl, true, false, Option, none, some, inl, inr, [], ◌∷◌, ok, Text, text_eq_iff, Map, lookup,
  insert, remove, lookup-insert, lookup-remove, Each, Each-insert, Each-remove, Each-lookup,
  Each-map_values, map_values, arith, Bool-cases, Option-cases, text_eq_refl,
}
use newrr.Common.Run.{Run, returns, panics, blocks, pure, ◌>>◌}
use newrr.PubSub.Local.{
  HashSet, Subscription, LocalPubSub, create_topic, remove_topic, subscribe, unsubscribe, publish,
  close, records_of, find_subscription,
}
use newrr.PubSub.Local.Loops.{IsOpen, shut_down, delivered, delivered-IsOpen}
use newrr.PubSub.Local.Invariant.{
  WellFormed, with_topic, with_topic-WellFormed, removed, after_remove, create_topic-returns,
}
use newrr.PubSub.Local.Calls.{
  remove_topic-returns, subscribe-returns, unsubscribe-returns, unsubscribe-unknown,
  publish-returns, close-returns, shut_state, subscribed, withdrawn, published, fresh, id_of,
}

pub data Call : Type 0 where
  creates removes : Text → Call
  subscribes unsubscribes publishes : Text → Text → Call
  closes : Call

module _ {Set : Type 0} ⦃set : HashSet Set⦄ where
  -- A method of the client, its result set aside.
  abbrev pub call : Call → Run (LocalPubSub Set) (Unit {0})
  call (creates t) = do create_topic t; pure tt
  call (removes t) = do remove_topic t; pure tt
  call (subscribes t uuid) = do subscribe t uuid; pure tt
  call (unsubscribes t id) = do unsubscribe t id; pure tt
  call (publishes t message) = do publish t message; pure tt
  call closes = do close; pure tt

  -- A topic that the set still has and the map has not.
  pub record IsLost (t : Text) (l : LocalPubSub Set) : Type 0 where
    pub known : set.contains t l.topics ≡ true
    pub absent : lookup t l.subscriptions ≡ none

  -- How a call may end: it returns in a good state, or it subscribes to a lost topic.
  pub data Ends (c : Call) (l : LocalPubSub Set) : Type 0 where
    returned : (l' : LocalPubSub Set) → call c l ≡ returns tt l' → WellFormed l' → Ends c l
    stuck :
        (t uuid : Text) (l' : LocalPubSub Set)
        → c ≡ subscribes t uuid
        → IsLost t l
        → call c l ≡ panics l'
        → Ends c l

  removed-WellFormed :
      (t : Text) (m : Map Subscription) (l : LocalPubSub Set)
      → WellFormed l
      → WellFormed (removed t m l)
  removed-WellFormed t m l w = record {
    free = w.free;
    room = w.room;
    known = λ j e. ground (arith, w.known j, lookup-remove t j l.subscriptions);
    live = Each-remove (Each (IsOpen l.buffer_length)) t l.subscriptions w.live;
  }

  -- Writing back the records of a topic that the map has keeps the invariant.
  put_records-WellFormed :
      (t : Text) (m m' : Map Subscription) (r : Map Subscription) (l : LocalPubSub Set)
      → lookup t l.subscriptions ≡ some m
      → Each (IsOpen l.buffer_length) m'
      → WellFormed l
      → WellFormed (record l { subscriptions = insert t m' l.subscriptions; retired = r })
  put_records-WellFormed t m m' r l e h w = record {
    free = w.free;
    room = w.room;
    known = λ j k. ground (arith, w.known j, text_eq_iff t j, lookup-insert t j m' l.subscriptions);
    live = Each-insert (Each (IsOpen l.buffer_length)) t m' l.subscriptions h w.live;
  }

  subscribed-WellFormed :
      (t id : Text) (m : Map Subscription) (l : LocalPubSub Set)
      → lookup t l.subscriptions ≡ some m
      → WellFormed l
      → WellFormed (subscribed t id l)
  subscribed-WellFormed t id m l e w =
      rw (e, records_of)
        (put_records-WellFormed t m (insert id (fresh l.buffer_length) m) l.retired l e
          (Each-insert (IsOpen l.buffer_length) id (fresh l.buffer_length) m
            (record { free = refl; live = refl; capacity = refl; fits = omega arith })
            (Each-lookup (Each (IsOpen l.buffer_length)) t l.subscriptions e w.live))
          w)

  withdrawn-WellFormed :
      (t id : Text) (c : Subscription) (m : Map Subscription) (l : LocalPubSub Set)
      → lookup t l.subscriptions ≡ some m
      → WellFormed l
      → WellFormed (withdrawn t id c l)
  withdrawn-WellFormed t id c m l e w =
      rw (e, records_of)
        (put_records-WellFormed t m (remove id m) ((id, shut_down c) ∷ l.retired) l e
          (Each-remove (IsOpen l.buffer_length) id m
            (Each-lookup (Each (IsOpen l.buffer_length)) t l.subscriptions e w.live))
          w)

  pub published-WellFormed :
      (t message : Text) (l : LocalPubSub Set) (o : Option (Map Subscription))
      → lookup t l.subscriptions ≡ o
      → WellFormed l
      → WellFormed (published t message l)
  published-WellFormed t message l none e w = rw (e, published) w
  published-WellFormed t message l (some m) e w =
      rw (e, published)
        (put_records-WellFormed t m (map_values (delivered message) m) l.retired l e
          (Each-map_values (IsOpen l.buffer_length) (IsOpen l.buffer_length) (delivered message)
            (λ c o. delivered-IsOpen message c o) m
            (Each-lookup (Each (IsOpen l.buffer_length)) t l.subscriptions e w.live))
          w)

  module _ (l : LocalPubSub Set) (w : WellFormed l) (o : l.closed ≡ false) where
    creates-Ends : (t : Text) → Ends (creates t) l
    creates-Ends t =
        returned (with_topic t l) (ground (arith, create_topic-returns t l o w.free))
          (with_topic-WellFormed t l w)

    removes-Ends : (t : Text) → Ends (removes t) l
    removes-Ends t =
        returned (after_remove t l) (ground (arith, remove_topic-returns t l o w))
          (elim (Bool-cases (set.contains t l.topics)) [
            | inl e ↦ rw e (removed-WellFormed t (records_of t l) l w)
            | inr e ↦ rw e w
          ])

    subscribes-lost :
        (t uuid : Text)
        → lookup t (with_topic t l).subscriptions ≡ none
        → Ends (subscribes t uuid) l
    unfolding subscribe
    subscribes-lost t uuid e =
        let k : set.contains t l.topics ≡ true =
          ground (arith, lookup-insert t t [] l.subscriptions, text_eq_refl t) in
        stuck t uuid (record l { held = true }) refl (record { known = k; absent = ground arith })
          (ground (arith, w.free))

    subscribes-Ends : (t uuid : Text) → Ends (subscribes t uuid) l
    subscribes-Ends t uuid = elim (Option-cases (lookup t (with_topic t l).subscriptions)) [
      | inl e ↦ subscribes-lost t uuid e
      | inr (m, e) ↦
          returned (subscribed t (id_of t uuid) (with_topic t l))
            (ground (arith, subscribe-returns t uuid l m o w e))
            (subscribed-WellFormed t (id_of t uuid) m (with_topic t l) e
              (with_topic-WellFormed t l w))
    ]

    unsubscribes-Ends : (t id : Text) → Ends (unsubscribes t id) l
    unfolding find_subscription
    unsubscribes-Ends t id = elim (Option-cases (lookup t l.subscriptions)) [
      | inl e ↦ returned l (ground (arith, unsubscribe-unknown t id l o w (ground arith))) w
      | inr (m, e) ↦ (elim (Option-cases (lookup id m)) [
        | inl f ↦ returned l (ground (arith, unsubscribe-unknown t id l o w (ground arith))) w
        | inr (c, f) ↦
            returned (withdrawn t id c l) (ground (arith, unsubscribe-returns t id c m l o w e f))
              (withdrawn-WellFormed t id c m l e w)
      ])
    ]

    publishes-Ends : (t message : Text) → Ends (publishes t message) l
    publishes-Ends t message =
        returned (published t message (with_topic t l))
          (ground (arith, publish-returns t message l o w))
          (published-WellFormed t message (with_topic t l) _ refl (with_topic-WellFormed t l w))

    closes-Ends : Ends closes l
    unfolding lookup
    closes-Ends =
        returned (shut_state l) (ground (arith, close-returns l o w))
          (record { free = w.free; room = w.room; known = λ t _. refl; live = tt })

    open-Ends : (c : Call) → Ends c l
    open-Ends (creates t) = creates-Ends t
    open-Ends (removes t) = removes-Ends t
    open-Ends (subscribes t uuid) = subscribes-Ends t uuid
    open-Ends (unsubscribes t id) = unsubscribes-Ends t id
    open-Ends (publishes t message) = publishes-Ends t message
    open-Ends closes = closes-Ends

  module _ (l : LocalPubSub Set) (w : WellFormed l) (o : l.closed ≡ true) where
    call-closed : (c : Call) → call c l ≡ returns tt l
    unfolding create_topic remove_topic subscribe unsubscribe publish close
    call-closed closes = ground (arith, w.free)
    call-closed _ = ground (arith, w.free)

  -- From a state in which the mutex is free and every subscription in the map has an open channel
  -- within its buffer, each call of the client either returns in such a state, or it is a Subscribe
  -- to a topic which the set of topics has and the map of subscriptions has not: that call panics.
  pub call-Ends : (c : Call) (l : LocalPubSub Set) → WellFormed l → Ends c l
  call-Ends c l w = elim (Bool-cases l.closed) [
    | inl o ↦ returned l (call-closed l w o c) w
    | inr o ↦ open-Ends l w o c
  ]

  locked-blocks :
      (c : Call) (l : LocalPubSub Set) → l.closed ≡ false → l.held ≡ true → call c l ≡ blocks l
  unfolding create_topic remove_topic subscribe unsubscribe publish close
  locked-blocks closes l o h = ground arith
  locked-blocks _ l o h = ground arith

  -- After RemoveTopic of a topic of a well-formed open client, Subscribe to that topic panics with
  -- the mutex of the client held, and from then on every call of the client waits for ever.
  pub subscribe_after_remove :
      (t uuid : Text) (l : LocalPubSub Set)
      → WellFormed l
      → l.closed ≡ false
      → set.contains t l.topics ≡ true
      → (l1 l2 : LocalPubSub Set) × (remove_topic t l ≡ returns (ok tt) l1)
        × (subscribe t uuid l1 ≡ panics l2)
        × ((c : Call) → call c l2 ≡ blocks l2)
  unfolding subscribe
  subscribe_after_remove t uuid l w o k =
      let l1 = removed t (records_of t l) l in
      let l2 = record l1 { held = true } in
      (
        l1,
        l2,
        ground (arith, remove_topic-returns t l o w),
        ground (arith, w.free, lookup-remove t t l.subscriptions, text_eq_refl t),
        λ c. locked-blocks c l2 o refl,
      )
