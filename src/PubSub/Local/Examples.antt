-- ===== src/PubSub/Local/Examples.antt =====
-- Runs of the client on a set that is a list.
use newrr.Common.{
  arith, true, false, ◌≡◌, refl, List, [], ◌∷◌, any, none, some, ok, Text, text, text_eq, lookup,
  if◌then◌else◌, ◌&&◌,
}
use mathlib.Core.Option
use newrr.Common.Run.{returns, panics, blocks}
use newrr.PubSub.Local.{
  HashSet, Subscription, LocalPubSub, remove_topic, subscribe, unsubscribe, publish,
  find_subscription,
}
use newrr.PubSub.Local.Loops.{delivered, shut_down}
use newrr.PubSub.Local.Invariant.{WellFormed}
use newrr.PubSub.Local.Calls.{fresh, id_of}
use newrr.PubSub.Local.Histories.{Call, call, Ends, publishes, call-Ends, subscribe_after_remove}
use newrr.PubSub.Local.Delivery.{
  publish_delivers, publish_all, publish_all-newest, unsubscribe_ends, subscribe_begins,
}

instance list_set : HashSet (List Text)
list_set = record {
  empty = [];
  contains = λ k s. any (λ x. text_eq x k) s;
  insert_key = λ k s. k ∷ s;
  contains-empty = λ k. refl;
  contains-insert_key = λ k j s. refl;
}

-- A full channel of two messages, on one topic.
abbrev busy : Subscription
busy = record { held = false; capacity = 2; buffer = text "a" ∷ text "b" ∷ []; closed = false }

abbrev running : LocalPubSub (List Text)
running = record {
  held = false;
  buffer_length = 2;
  subscriptions = (text "news", (text "s1", busy) ∷ []) ∷ [];
  topics = text "news" ∷ [];
  closed = false;
  retired = [];
}

abbrev stopped : LocalPubSub (List Text)
stopped = record running { closed = true; subscriptions = []; topics = [] }

running-WellFormed : WellFormed running
unfolding lookup list_set
running-WellFormed = record {
  free = refl;
  room = omega arith;
  known = λ t e. ground arith;
  live = ((record { free = refl; live = refl; capacity = refl; fits = omega arith }, tt), tt);
}

call-Ends_example : Ends (publishes (text "news") (text "c")) running
call-Ends_example = call-Ends (publishes (text "news") (text "c")) running running-WellFormed

subscribe_after_remove_example :
    (l1 l2 : LocalPubSub (List Text)) × (remove_topic (text "news") running ≡ returns (ok tt) l1)
    × (subscribe (text "news") (text "7") l1 ≡ panics l2)
    × ((c : Call) → call c l2 ≡ blocks l2)
unfolding list_set text_eq
subscribe_after_remove_example =
    subscribe_after_remove (text "news") (text "7") running running-WellFormed refl refl

publish_delivers_example :
    (l' : LocalPubSub (List Text)) × (publish (text "news") (text "c") running ≡ returns (ok tt) l')
    × WellFormed l'
    × ((j id : Text)
        → find_subscription j id l' ≡ (
            if text_eq (text "news") j
            then Option.map (delivered (text "c")) (find_subscription j id running)
            else find_subscription j id running))
    × (l'.retired ≡ running.retired)
    × (l'.closed ≡ running.closed)
publish_delivers_example = publish_delivers (text "news") (text "c") running running-WellFormed refl

publish_all-newest_example :
    (l' : LocalPubSub (List Text)) × (publish_all (text "news") (text "c" ∷ text "d" ∷ []) running
      ≡ returns tt l')
    × (find_subscription (text "news") (text "s1") l'
        ≡ some (record busy { buffer = text "c" ∷ text "d" ∷ [] }))
unfolding lookup text_eq
publish_all-newest_example =
    publish_all-newest (text "news") (text "s1") (text "c" ∷ text "d" ∷ []) running busy
      running-WellFormed refl (unfold find_subscription in refl)

unsubscribe_ends_example :
    (l' : LocalPubSub (List Text)) × (unsubscribe (text "news") (text "s1") running
      ≡ returns (ok tt) l')
    × ((j i : Text)
        → find_subscription j i l' ≡ (
            if text_eq (text "news") j && text_eq (text "s1") i
            then none
            else find_subscription j i running))
    × (l'.retired ≡ (text "s1", shut_down busy) ∷ running.retired)
unfolding lookup text_eq
unsubscribe_ends_example =
    unsubscribe_ends (text "news") (text "s1") running busy running-WellFormed refl
      (unfold find_subscription in refl)

subscribe_begins_example :
    (l' : LocalPubSub (List Text)) × (subscribe (text "news") (text "7") running
      ≡ returns (ok (id_of (text "news") (text "7"))) l')
    × ((j i : Text)
        → find_subscription j i l' ≡ (
            if text_eq (text "news") j && text_eq (id_of (text "news") (text "7")) i
            then some (fresh 2)
            else find_subscription j i running))
unfolding lookup list_set text_eq
subscribe_begins_example =
    subscribe_begins (text "news") (text "7") running ((text "s1", busy) ∷ []) running-WellFormed
      refl refl
