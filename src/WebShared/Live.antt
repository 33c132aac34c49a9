-- ===== src/WebShared/Live.antt =====
-- packages/web-shared/src: the streams that a page follows (orders/use-order-stream.ts,
-- dispatch/use-dispatch-stream.ts, dispatch/use-tenant-dispatch-stream.ts). A connection of
-- `fetchEventSource` is what its handlers are called with; `read` is `JSON.parse` with the tests of the
-- two fields. What refreshing the session brings is an argument.
use flash_bite.Prelude.{
  ℕ, String, Bool, true, false, List, Option, none, some, nat_eq, if◌then◌else◌,
}
use flash_bite.Contracts.{DispatchView}
use flash_bite.WebShared.Dispatches.{DispatchMap, reduce_dispatch, reduce_dispatch_map, reduce_all}

-- The fields of a JSON text, where they are texts
pub record Fields : Type 0 where
  pub order_id : Option String
  pub event_type : Option String
  pub cancel_reason : Option String

pub record StreamEvent : Type 0 where
  pub order_id : String
  pub event_type : String

abbrev both_of : Option String → Option String → Option StreamEvent
both_of (some order_id) (some event_type) =
    some (record { order_id = order_id; event_type = event_type })
both_of _ _ = none

-- `parseStreamData`, which keeps two fields; `none` is a text that is no JSON.
unfoldable pub parse_stream_data : Option Fields → Option StreamEvent
parse_stream_data none = none
parse_stream_data (some o) = both_of o.order_id o.event_type

-- What a handler does: it goes on, or throws, with or without the session.
pub data Opened : Type 0 where
  opened : Opened
  unauthorized : (logged_out : Bool) → Opened

-- `onopen`; `refreshed` is what `refreshAuthSession` brings.
unfoldable pub on_open : ℕ → Bool → Opened
on_open status refreshed =
    if nat_eq status 401 then unauthorized (if refreshed then false else true) else opened

-- What happens to a connection
pub data Happening (Message : Type 0) : Type 0 where
  opens : ℕ → Bool → Happening Message
  message : Message → Happening Message
  fails : Happening Message

-- A connection: whether it is given up, with the session ended or not, or else retried on errors.
pub record Connection : Type 0 where
  pub connected : Bool
  pub given_up : Bool
  pub logged_out : Bool

abbrev pub fresh : Connection
fresh = record { connected = false; given_up = false; logged_out = false }

abbrev after_open : Opened → Connection → Connection
after_open opened c = record c { connected = true }
after_open (unauthorized out) c = record { connected = false; given_up = true; logged_out = out }

-- One handler of `useDispatchStream` and `useTenantDispatchStream`; a connection that was given up
-- calls none.
unfoldable pub happen :
    {Message State : Type 0}
    → (Message → State → State)
    → Happening Message
    → State × Connection
    → State × Connection
unfolding on_open
happen take (opens status refreshed) (state, c) =
    if c.given_up then (state, c) else (state, after_open (on_open status refreshed) c)
happen take (message m) (state, c) = if c.given_up then (state, c) else (take m state, c)
happen take fails (state, c) =
    if c.given_up then (state, c) else (state, record c { connected = false })

-- `setDispatch` of a driver's page; a text that is no view changes nothing
unfoldable pub take_dispatch : Option DispatchView → Option DispatchView → Option DispatchView
unfolding reduce_dispatch
take_dispatch none prev = prev
take_dispatch (some view) prev = some (reduce_dispatch prev view)

-- `setDispatches` of a merchant's page
unfoldable pub take_tenant_dispatch : Option DispatchView → DispatchMap → DispatchMap
unfolding reduce_dispatch_map
take_tenant_dispatch none prev = prev
take_tenant_dispatch (some view) prev = reduce_dispatch_map prev view

-- The snapshot that the effect asks for; `none` where the call threw
unfoldable pub seed : (cancelled : Bool) → Option (List DispatchView) → DispatchMap → DispatchMap
unfolding reduce_all
seed true answer prev = prev
seed false none prev = prev
seed false (some views) prev = reduce_all views prev
