-- ===== src/Platform/Events/Subscribed.antt =====
-- What subscribing and unsubscribing do to the handlers that an event calls.
use sozan.Common.{
  ℕ, ◌<◌, ◌≤◌, ◌≡◌, ◌⊎◌, refl, sym, ap, ◌∙◌, inl, inr, Bool-cases, Option-cases, String, true,
  false, Option, none, some, List, [], ◌∷◌, ◌++◌, select, some_of, str_eq, ◌==◌, if◌then◌else◌,
  arith, eq_iff,
}
use text.Mathlib.TextPositions.{eq_refl}
use sozan.Platform.Events.{
  EventBus, empty_bus, Subscription, has_handler, add_handler, delete_handler, set_for, made, on,
  is_empty, unsubscribe, set_of, publish,
}

-- The handlers of one type.
abbrev pub registered : String → EventBus → List ℕ
registered t bus = set_of (bus.handlers t) bus.sets

-- Sets are made before they are used, those to come are empty, and no two types share one.
pub record IsValid (bus : EventBus) : Type 0 where
  pub made_before : (t : String) (r : ℕ) → bus.handlers t ≡ some r → r < bus.next
  pub fresh : (r : ℕ) → bus.next ≤ r → bus.sets r ≡ []
  pub separate :
      (t u : String) (r : ℕ) → bus.handlers t ≡ some r → bus.handlers u ≡ some r → str_eq t u ≡ true

-- The set of another type is not the one that a subscription to this type uses.
other_set :
    (bus : EventBus)
    → IsValid bus
    → (t u : String) (r : ℕ) → str_eq t u ≡ false
    → bus.handlers t ≡ some r
    → (r == set_for (bus.handlers u) bus) ≡ false
other_set bus v t u r apart e = elim (Option-cases (bus.handlers u)) [
  | inl none_yet ↦ let lt = v.made_before t r e in rw none_yet (ground (arith, lt))
  | inr (q, found) ↦ rw found (elim (Bool-cases (r == q)) [
    | inr ne ↦ ne
    | inl same ↦
        let p : r ≡ q = ground arith in let s = v.separate t u r e (found ∙ ap some (sym p)) in cc
  ])
]

-- The set that a subscription adds to.
found_set :
    (bus : EventBus) → IsValid bus → (o : Option ℕ) → bus.sets (set_for o bus) ≡ set_of o bus.sets
found_set bus v none = v.fresh bus.next (omega arith)
found_set bus v (some r) = refl

-- A handler that is added last and then deleted leaves the others.
delete-add :
    (h : ℕ) (hs : List ℕ) → has_handler h hs ≡ false → delete_handler h (hs ++ (h ∷ [])) ≡ hs
unfolding select some_of
delete-add h [] fresh = let e : (h == h) ≡ true = ground arith in rw e
delete-add h (x ∷ xs) fresh = elim (Bool-cases (x == h)) [
  | inl same ↦ cc (rw same at fresh)
  | inr other ↦ rw (other, delete-add h xs (rw other at fresh))
]

empty_list : (hs : List ℕ) → is_empty hs ≡ true → hs ≡ []
empty_list [] e = refl
empty_list (x ∷ xs) e = cc

module _ (bus : EventBus) (v : IsValid bus) (u : String) (h : ℕ) where
  own : (set_for (bus.handlers u) bus == set_for (bus.handlers u) bus) ≡ true
  own = ground arith

  -- The set of another type keeps its handlers, whatever the set of this type becomes.
  others :
      (t : String) (after : ℕ → List ℕ)
      → str_eq t u ≡ false
      → ((r : ℕ) → (r == set_for (bus.handlers u) bus) ≡ false → after r ≡ bus.sets r)
      → (o : Option ℕ) → bus.handlers t ≡ o
      → set_of o after ≡ set_of o bus.sets
  others t after apart kept none e = refl
  others t after apart kept (some r) e = kept r (other_set bus v t u r apart e)

  rest_of :
      has_handler h (registered u bus) ≡ false
      → delete_handler h ((on u h bus).1.sets (set_for (bus.handlers u) bus)) ≡ registered u bus
  unfolding on
  rest_of new = rw (own, found_set bus v (bus.handlers u), new, delete-add h (registered u bus) new)

  -- After a subscription to a type in a valid bus, the handler stands behind the handlers of that
  -- type, once, and the handlers of every other type are the same.
  pub registered-on :
      (t : String)
      → registered t (on u h bus).1
        ≡ (if str_eq t u then add_handler h (registered t bus) else registered t bus)
  unfolding on
  registered-on t = elim (Bool-cases (str_eq t u)) [
    | inl same ↦
        let e : t ≡ u = ground (arith, eq_iff t u) in
        rw (same, e, own, found_set bus v (bus.handlers u))
    | inr apart ↦
        rw apart (others t (on u h bus).1.sets apart (λ r ne. rw ne) (bus.handlers t) refl)
  ]

  unsubscribe-on :
      has_handler h (registered u bus) ≡ false
      → (t : String) → registered t (unsubscribe (on u h bus).0 (on u h bus).1) ≡ registered t bus
  unfolding on unsubscribe
  unsubscribe-on new t = elim (Bool-cases (str_eq t u)) [
    | inl same ↦
        let e : t ≡ u = ground (arith, eq_iff t u) in
        elim (Bool-cases (is_empty (registered u bus))) [
          | inl gone ↦
              rw (e, rest_of new, gone, eq_refl u) (sym (empty_list (registered u bus) gone))
          | inr stays ↦ rw (e, rest_of new, stays, eq_refl u, own) refl
        ]
    | inr apart ↦ elim (Bool-cases (is_empty (registered u bus))) [
      | inl gone ↦
          rw (rest_of new, gone, apart) (others t _ apart (λ r ne. rw ne) (bus.handlers t) refl)
      | inr stays ↦
          rw (rest_of new, stays, apart) (others t _ apart (λ r ne. rw ne) (bus.handlers t) refl)
    ]
  ]

-- A handler that a valid bus does not call for a type, subscribed to it and taken off again, leaves
-- what every event calls as it was, in the same order.
pub publish-unsubscribe :
    (bus : EventBus)
    → IsValid bus
    → (u : String) (h : ℕ) → has_handler h (registered u bus) ≡ false
    → (t : String) → publish t (unsubscribe (on u h bus).0 (on u h bus).1) ≡ publish t bus
unfolding publish
publish-unsubscribe bus v u h new t =
    rw (unsubscribe-on bus v u h new t, unsubscribe-on bus v u h new "*")

module _ (bus : EventBus) (v : IsValid bus) (u : String) (h : ℕ) where
  set_for-lt : (o : Option ℕ) → bus.handlers u ≡ o → set_for o bus < made o bus.next
  set_for-lt none e = omega arith
  set_for-lt (some r) e = v.made_before u r e

  made_le : (o : Option ℕ) → bus.next ≤ made o bus.next
  made_le none = omega arith
  made_le (some r) = omega arith

  -- A type of the new bus is this one, at its set, or another one, as before.
  came_from :
      (t : String) (r : ℕ)
      → (on u h bus).1.handlers t ≡ some r
      → ((t ≡ u) × (set_for (bus.handlers u) bus ≡ r))
        ⊎ ((str_eq t u ≡ false) × (bus.handlers t ≡ some r))
  unfolding on
  came_from t r e = elim (Bool-cases (str_eq t u)) [
    | inl same ↦ inl (ground (arith, eq_iff t u), cc (rw same at e))
    | inr apart ↦ inr (apart, rw apart at e)
  ]

  not_both :
      (t : String) (r : ℕ)
      → set_for (bus.handlers u) bus ≡ r
      → str_eq t u ≡ false
      → bus.handlers t ≡ some r
      → true ≡ false
  not_both t r e apart f = let ne = other_set bus v t u r apart f in ground (arith, ne, e)

  -- Subscribing keeps a bus valid.
  pub on-IsValid : IsValid (on u h bus).1
  unfolding on
  on-IsValid = record {
    made_before = λ t r e. elim (came_from t r e) [
      | inl here ↦ let lt = set_for-lt (bus.handlers u) refl in omega (arith, here.1, lt)
      | inr there ↦
          let lt = v.made_before t r there.1 in omega (arith, lt, made_le (bus.handlers u))
    ];
    fresh = λ r le.
        let out : (r == set_for (bus.handlers u) bus) ≡ false =
          ground (arith, set_for-lt (bus.handlers u) refl) in
        rw out (v.fresh r (omega (arith, made_le (bus.handlers u))));
    separate = λ t w r e f. elim (came_from t r e) [
      | inl here ↦ elim (came_from w r f) [
        | inl also ↦ rw (here.0, also.0) (eq_refl u)
        | inr other ↦ let clash = not_both w r here.1 other.0 other.1 in cc
      ]
      | inr there ↦ elim (came_from w r f) [
        | inl also ↦ let clash = not_both t r also.1 there.0 there.1 in cc
        | inr other ↦ v.separate t w r there.1 other.1
      ]
    ];
  }

-- An unsubscription that leaves its set empty takes the type off, whatever its set is by now.
stale :
    (s : Subscription) (bus : EventBus)
    → is_empty (delete_handler s.handler (bus.sets s.set)) ≡ true
    → (unsubscribe s bus).handlers s.event_type ≡ none
unfolding unsubscribe
stale s bus e = rw (e, eq_refl s.event_type)

deleted_alone : (h : ℕ) → delete_handler h (h ∷ []) ≡ []
unfolding select
deleted_alone h = let e : (h == h) ≡ true = ground arith in rw e

module _ (event_type : String) (old new : ℕ) where
  abbrev pub first : Subscription
  unfolding on
  first = (on event_type old empty_bus).0

  abbrev pub emptied : EventBus
  unfolding on unsubscribe
  emptied = unsubscribe first (on event_type old empty_bus).1

  emptied-handlers : emptied.handlers event_type ≡ none
  unfolding on select some_of emptied unsubscribe
  emptied-handlers = stale first (on event_type old empty_bus).1 (rw (deleted_alone old))

  -- An unsubscribing function that is called again, after its type lost its last handler and got a new
  -- one, takes the new handler off: nothing is left of the type, although only the old handler was to
  -- go.
  pub unsubscribe_again :
      registered event_type (unsubscribe first (on event_type new emptied).1) ≡ []
  unfolding on unsubscribe select some_of
  unsubscribe_again =
      let e : (old == old) ≡ true = ground arith in
      let gone : (unsubscribe first (on event_type new emptied).1).handlers event_type ≡ none =
        stale first (on event_type new emptied).1 (rw (emptied-handlers, e)) in
      rw gone
