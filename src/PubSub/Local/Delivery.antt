-- ===== src/PubSub/Local/Delivery.antt =====
-- What the subscribers of pubsub/local_pubsub.go get: the messages of Publish, and the ends of
-- subscriptions.
use mathlib.Core.Option
use newrr.Common.{
  ◌≡◌, refl, ◌∙◌, ap, false, ◌&&◌, Option, none, some, inl, inr, List, [], ◌∷◌, ◌++◌, ok, Text,
  text_eq, text_eq_iff, Map, lookup, insert, remove, lookup-insert, lookup-remove, Each,
  Each-lookup, map_values, lookup-map_values, arith, Option-cases, text_eq_refl, if◌then◌else◌,
  newest, newest-newest, append_assoc, append-nil, newest-room,
}
use newrr.Common.Run.{Run, returns, pure, ◌>>◌}
use newrr.PubSub.Local.{
  HashSet, Subscription, LocalPubSub, subscribe, unsubscribe, publish, find_subscription,
}
use newrr.PubSub.Local.Loops.{IsOpen, shut_down, delivered}
use newrr.PubSub.Local.Invariant.{WellFormed, with_topic, with_topic-WellFormed}
use newrr.PubSub.Local.Calls.{
  subscribe-returns, unsubscribe-returns, publish-returns, subscribed, withdrawn, published, fresh,
  id_of,
}
use newrr.PubSub.Local.Histories.{published-WellFormed}

module _ {Set : Type 0} ⦃set : HashSet Set⦄ where
  find-with_topic :
      (t j id : Text) (l : LocalPubSub Set)
      → WellFormed l
      → find_subscription j id (with_topic t l) ≡ find_subscription j id l
  unfolding find_subscription lookup
  find-with_topic t j id l w =
      ground (arith, w.known t, text_eq_iff t j, lookup-insert t j [] l.subscriptions)

  find-published :
      (t message j id : Text) (l : LocalPubSub Set) (o : Option (Map Subscription))
      → lookup t l.subscriptions ≡ o
      → find_subscription j id (published t message l) ≡ (
          if text_eq t j
          then Option.map (delivered message) (find_subscription j id l)
          else find_subscription j id l)
  unfolding find_subscription
  find-published t message j id l none e = ground (arith, text_eq_iff t j)
  find-published t message j id l (some m) e = ground (
    arith,
    text_eq_iff t j,
    lookup-insert t j (map_values (delivered message) m) l.subscriptions,
    lookup-map_values (delivered message) id m,
  )

  -- Publish on a well-formed open client returns nil and leaves it well formed and open; each
  -- subscription of the topic, and no other, then buffers the newest messages that fit its channel,
  -- the new one last, and the channels that have left the map stay as they are.
  pub publish_delivers :
      (t message : Text) (l : LocalPubSub Set)
      → WellFormed l
      → l.closed ≡ false
      → (l' : LocalPubSub Set) × (publish t message l ≡ returns (ok tt) l')
        × WellFormed l'
        × ((j id : Text)
            → find_subscription j id l' ≡ (
                if text_eq t j
                then Option.map (delivered message) (find_subscription j id l)
                else find_subscription j id l))
        × (l'.retired ≡ l.retired)
        × (l'.closed ≡ l.closed)
  publish_delivers t message l w o =
      let m = with_topic t l in
      (
        published t message m,
        publish-returns t message l o w,
        published-WellFormed t message m _ refl (with_topic-WellFormed t l w),
        λ j id. cc (find-published t message j id m _ refl, find-with_topic t j id l w),
        ground arith,
        ground arith,
      )

  -- Publish, once for each message.
  pub publish_all : Text → List Text → Run (LocalPubSub Set) (Unit {0})
  publish_all t [] = pure tt
  publish_all t (message ∷ messages) = do publish t message; publish_all t messages

  find-IsOpen :
      (t id : Text) (l : LocalPubSub Set) (c : Subscription)
      → WellFormed l
      → find_subscription t id l ≡ some c
      → IsOpen l.buffer_length c
  unfolding find_subscription
  find-IsOpen t id l c w e = elim (Option-cases (lookup t l.subscriptions)) [
    | inl f ↦ absurd (ground arith)
    | inr (m, f) ↦
        Each-lookup (IsOpen l.buffer_length) id m (ground arith)
          (Each-lookup (Each (IsOpen l.buffer_length)) t l.subscriptions f w.live)
  ]

  -- On a well-formed open client, after any messages to the topic of a subscription in the map, whose
  -- subscriber receives nothing meanwhile, its channel has the newest of what it had and what was
  -- published, in order, as many as it holds.
  pub publish_all-newest :
      (t id : Text) (messages : List Text) (l : LocalPubSub Set) (c : Subscription)
      → WellFormed l
      → l.closed ≡ false
      → find_subscription t id l ≡ some c
      → (l' : LocalPubSub Set) × (publish_all t messages l ≡ returns tt l')
        × (find_subscription t id l'
            ≡ some (record c { buffer = newest c.capacity (c.buffer ++ messages) }))
  unfolding publish_all
  publish_all-newest t id [] l c w o e =
      let p = find-IsOpen t id l c w e in
      (
        l,
        refl,
        rw
            (
              append-nil c.buffer,
              newest-room c.capacity c.buffer (omega (arith, p.fits, p.capacity)),
            )
            e,
      )
  publish_all-newest t id (message ∷ messages) l c w o e =
      let (m, run, w', found, _, closed) = publish_delivers t message l w o in
      let d = delivered message c in
      let e' : find_subscription t id m ≡ some d = ground (arith, found t id, text_eq_refl t) in
      let (l', rest, got) = publish_all-newest t id messages m d w' (closed ∙ o) e' in
      (
        l',
        ground arith,
        got
            ∙ ap (λ (b : List Text). some (record c { buffer = b }))
                (newest-newest c.capacity (c.buffer ++ message ∷ []) messages
                  ∙ ap (newest c.capacity) (append_assoc c.buffer (message ∷ []) messages)),
      )

  -- On a well-formed open client, Unsubscribe of a subscription in the map closes its channel, with
  -- what it has buffered left for the subscriber, and takes that subscription off and no other.
  pub unsubscribe_ends :
      (t id : Text) (l : LocalPubSub Set) (c : Subscription)
      → WellFormed l
      → l.closed ≡ false
      → find_subscription t id l ≡ some c
      → (l' : LocalPubSub Set) × (unsubscribe t id l ≡ returns (ok tt) l')
        × ((j i : Text)
            → find_subscription j i l'
              ≡ (if text_eq t j && text_eq id i then none else find_subscription j i l))
        × (l'.retired ≡ (id, shut_down c) ∷ l.retired)
  unfolding find_subscription
  unsubscribe_ends t id l c w o e = elim (Option-cases (lookup t l.subscriptions)) [
    | inl f ↦ absurd (ground arith)
    | inr (m, f) ↦ (
      withdrawn t id c l,
      unsubscribe-returns t id c m l o w f (ground arith),
      λ j i. ground (
        arith,
        text_eq_iff t j,
        lookup-insert t j (remove id m) l.subscriptions,
        lookup-remove id i m,
      ),
      refl,
    )
  ]

  -- On a well-formed open client, Subscribe to a topic that the map has, or gets since the set of
  -- topics lacks it, returns the id, and under that topic and id, and nowhere else, then stands a new
  -- subscription with an empty open channel of the client's length.
  pub subscribe_begins :
      (t uuid : Text) (l : LocalPubSub Set) (m : Map Subscription)
      → WellFormed l
      → l.closed ≡ false
      → lookup t (with_topic t l).subscriptions ≡ some m
      → (l' : LocalPubSub Set) × (subscribe t uuid l ≡ returns (ok (id_of t uuid)) l')
        × ((j i : Text)
            → find_subscription j i l' ≡ (
                if text_eq t j && text_eq (id_of t uuid) i
                then some (fresh l.buffer_length)
                else find_subscription j i l))
  subscribe_begins t uuid l m w o e = (
    subscribed t (id_of t uuid) (with_topic t l),
    subscribe-returns t uuid l m o w e,
    λ j i.
        unfold find_subscription in
        ground (
          arith,
          text_eq_iff t j,
          lookup-insert t j (insert (id_of t uuid) (fresh l.buffer_length) m)
              (with_topic t l).subscriptions,
          lookup-insert (id_of t uuid) i (fresh l.buffer_length) m,
          find-with_topic t j i l w,
        ),
  )
