-- ===== src/Platform/Events.antt =====
-- src/platform/events/event-bus.ts: the handlers of each type of event. A handler is known by its
-- identity, a number. The sets of handlers live in a store, since the function that takes a handler
-- off keeps the set that it was added to, not the type alone.
pub mod Subscribed
use sozan.Common.{
  ℕ, suc, ◌+◌, String, Bool, true, false, not, ◌||◌, Option, none, some, or_default, List, [], ◌∷◌,
  ◌++◌, select, some_of, str_eq, ◌==◌, if◌then◌else◌,
}

pub record EventBus : Type 0 where
  pub handlers : String → Option ℕ
  pub sets : ℕ → List ℕ
  -- The next set that is made.
  pub next : ℕ

abbrev pub empty_bus : EventBus
empty_bus = record { handlers = λ t. none; sets = λ r. []; next = 0 }

-- What `on` returns: the type, the set and the handler that its function closes over.
pub record Subscription : Type 0 where
  pub event_type : String
  pub set : ℕ
  pub handler : ℕ

abbrev pub put_set : ℕ → List ℕ → (ℕ → List ℕ) → ℕ → List ℕ
put_set r hs sets x = if x == r then hs else sets x

abbrev pub put_handlers : String → Option ℕ → (String → Option ℕ) → String → Option ℕ
put_handlers event_type o handlers t = if str_eq t event_type then o else handlers t

abbrev pub has_handler : ℕ → List ℕ → Bool
has_handler h hs = some_of (λ x. x == h) hs

-- `set.add(handler)`, `set.delete(handler)`
abbrev pub add_handler : ℕ → List ℕ → List ℕ
add_handler h hs = if has_handler h hs then hs else hs ++ (h ∷ [])

abbrev pub delete_handler : ℕ → List ℕ → List ℕ
delete_handler h hs = select (λ x. not (x == h)) hs

-- `this.handlers.get(type) ?? new Set()`, whether the set is new, too.
abbrev pub set_for : Option ℕ → EventBus → ℕ
set_for o bus = or_default o bus.next

abbrev pub made : Option ℕ → ℕ → ℕ
made none next = next + 1
made (some r) next = next

unfoldable pub on : String → ℕ → EventBus → Subscription × EventBus
on event_type handler bus =
    let r = set_for (bus.handlers event_type) bus in
    (
      record { event_type = event_type; set = r; handler = handler },
      record {
        handlers = put_handlers event_type (some r) bus.handlers;
        sets = put_set r (add_handler handler (bus.sets r)) bus.sets;
        next = made (bus.handlers event_type) bus.next;
      },
    )

abbrev pub is_empty : List ℕ → Bool
is_empty [] = true
is_empty (x ∷ xs) = false

-- The function that `on` returned.
unfoldable pub unsubscribe : Subscription → EventBus → EventBus
unsubscribe s bus =
    let rest = delete_handler s.handler (bus.sets s.set) in
    record bus {
      sets = put_set s.set rest bus.sets;
      handlers =
          if is_empty rest then put_handlers s.event_type none bus.handlers else bus.handlers;
    }

abbrev pub set_of : Option ℕ → (ℕ → List ℕ) → List ℕ
set_of none sets = []
set_of (some r) sets = sets r

-- The handlers that `publish` calls, in their order.
unfoldable pub publish : String → EventBus → List ℕ
publish event_type bus =
    set_of (bus.handlers event_type) bus.sets ++ set_of (bus.handlers "*") bus.sets
