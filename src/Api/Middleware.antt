-- ===== src/Api/Middleware.antt =====
-- The middleware and the error handlers of app/main.py: the limit on the size of a body, the fault
-- injection and the barrier around a request, and the response that an exception becomes. CORS and
-- the logging are not modelled.
use kxinspect_backend.Base.{
  ℕ, ◌+◌, ◌*◌, ◌≤◌, ◌<◌, ◌⊎◌, ◌≡◌, refl, ap, String, Bool, true, false, ◌&&◌, ◌||◌, Option, none,
  some, List, [], ◌∷◌, length, ltb, leb, ◌==◌, any_of, arith, Bool-cases, inl, inr, if◌then◌else◌,
  str_eq,
}
use mathlib.Core.List.{reverse}
use kxinspect_backend.Base.Int.{ℤ, pos}
use kxinspect_backend.Core.Chaos.{ChaosConfig, apply}
use kxinspect_backend.Core.Errors.{Fault, api, code, status_code, Result, ok, raise}
use kxinspect_backend.Db.Barrier.{OperationBarrier, enter_shared}
use kxinspect_backend.Db.Text.{Text, signed}
use kxinspect_backend.Services.Attachments.{drop_while, max_attachment_total_bytes}

-- `MAX_REQUEST_BYTES`
abbrev pub max_request_bytes : ℕ
max_request_bytes = max_attachment_total_bytes + 1 * 1024 * 1024

-- A message of the server to the application. A part of the body has the flag that more follows.
pub data Message : Type 0 where
  request : (body : List ℕ) (more : Bool) → Message
  disconnect : Message
  other : Message

-- `counting_receive` over the messages of one request, from what has been seen on.
unfoldable pub counting_receive : ℕ → ℕ → List Message → List Message
counting_receive max_bytes seen [] = []
counting_receive max_bytes seen (request body more ∷ rest) =
    let total = seen + length body in
    let others = counting_receive max_bytes total rest in
    if ltb max_bytes total then disconnect ∷ others else request body more ∷ others
counting_receive max_bytes seen (disconnect ∷ rest) =
    disconnect ∷ counting_receive max_bytes seen rest
counting_receive max_bytes seen (other ∷ rest) = other ∷ counting_receive max_bytes seen rest

abbrev pub is_byte_space : ℕ → Bool
is_byte_space c = (leb 9 c && leb c 13) || c == 32

-- `int` of bytes, whose white space is that of ASCII; `none` is the ValueError, which is suppressed.
unfoldable pub int_of_bytes : Text → Option ℤ
int_of_bytes s = signed (reverse (drop_while is_byte_space (reverse (drop_while is_byte_space s))))

abbrev pub is_above : ℕ → Option ℤ → Bool
is_above limit (some (pos n)) = ltb limit n
is_above limit number = false

-- What the middleware does with a request: the 413 of its own, or the messages that the application
-- can receive.
pub data Passage : Type 0 where
  rejected : Passage
  passed : List Message → Passage

abbrev pub declared_length : Option Text → Option ℤ
declared_length none = none
declared_length (some value) = int_of_bytes value

-- `MaxBodySizeMiddleware.__call__` of an HTTP request, with its last `Content-Length` header. The flag
-- `rejected` is tested before any message is received, when it is always false.
unfoldable pub limit_body : ℕ → Option Text → List Message → Passage
limit_body max_bytes content_length messages =
    if is_above max_bytes (declared_length content_length)
    then rejected
    else passed (counting_receive max_bytes 0 messages)

-- What the two handlers of exceptions and the middleware make of one: its status and its code.
pub record ErrorResponse : Type 0 where
  pub status : ℕ
  pub code : String

unfoldable pub error_response : Fault → ErrorResponse
error_response (api error) = record { status = status_code error; code = code error }
error_response fault = record { status = 500; code = "server.internal" }

-- `_SELF_MANAGED_PATHS`
abbrev pub self_managed_paths : List String
self_managed_paths = "/api/v1/events" ∷ "/api/v1/reset" ∷ "/api/v1/_dev/reset" ∷ []

-- How far a request comes in `request_context`: it is answered at once, waits for the shared lease,
-- or is handled, under the barrier as it is then and with a lease or without.
pub data Admission : Type 0 where
  answered : ErrorResponse → Admission
  waiting : Admission
  handled : (barrier : OperationBarrier) (leased : Bool) → Admission

abbrev pub leased : Option OperationBarrier → Admission
leased none = waiting
leased (some barrier) = handled barrier true

abbrev pub admit : OperationBarrier → String → Result (Unit {0}) → Admission
admit barrier path (raise fault) = answered (error_response fault)
admit barrier path (ok _) =
    if any_of (str_eq path) self_managed_paths
    then handled barrier false
    else leased (enter_shared barrier)

-- `request_context` up to `call_next`: the admission, and the configuration of the faults after.
unfoldable pub request_context : ChaosConfig → OperationBarrier → String → Admission × ChaosConfig
request_context config barrier path =
    let applied = apply config path in (admit barrier path applied.result, applied.config)

-- The bytes of the bodies among some messages.
unfoldable pub body_bytes : List Message → ℕ
body_bytes [] = 0
body_bytes (request body more ∷ rest) = length body + body_bytes rest
body_bytes (disconnect ∷ rest) = body_bytes rest
body_bytes (other ∷ rest) = body_bytes rest

over :
    (max_bytes seen : ℕ) (ms : List Message)
    → ltb max_bytes seen ≡ true
    → body_bytes (counting_receive max_bytes seen ms) ≡ 0
unfolding counting_receive body_bytes
over max_bytes seen [] h = refl
over max_bytes seen (request body more ∷ rest) h =
    ground (arith, over max_bytes (seen + length body) rest)
over max_bytes seen (disconnect ∷ rest) h = over max_bytes seen rest h
over max_bytes seen (other ∷ rest) h = over max_bytes seen rest h

counting-le :
    (max_bytes seen : ℕ) (ms : List Message)
    → seen ≤ max_bytes
    → seen + body_bytes (counting_receive max_bytes seen ms) ≤ max_bytes
unfolding counting_receive body_bytes
counting-le max_bytes seen [] h = omega arith
counting-le max_bytes seen (request body more ∷ rest) h =
    elim (Bool-cases (ltb max_bytes (seen + length body))) [
      | inl e ↦ rw (e, over max_bytes (seen + length body) rest e) (omega arith)
      | inr e ↦
          let ih = counting-le max_bytes (seen + length body) rest (ground arith) in
          rw e (omega arith)
    ]
counting-le max_bytes seen (disconnect ∷ rest) h = counting-le max_bytes seen rest h
counting-le max_bytes seen (other ∷ rest) h = counting-le max_bytes seen rest h

counting-same :
    (max_bytes seen : ℕ) (ms : List Message)
    → seen + body_bytes ms ≤ max_bytes
    → counting_receive max_bytes seen ms ≡ ms
unfolding counting_receive body_bytes
counting-same max_bytes seen [] h = refl
counting-same max_bytes seen (request body more ∷ rest) h =
    let ih = counting-same max_bytes (seen + length body) rest (omega arith) in
    let fits : ltb max_bytes (seen + length body) ≡ false = ground arith in rw (fits, ih)
counting-same max_bytes seen (disconnect ∷ rest) h =
    ap (◌∷◌ disconnect) (counting-same max_bytes seen rest h)
counting-same max_bytes seen (other ∷ rest) h = ap (◌∷◌ other) (counting-same max_bytes seen rest h)

-- What the application can receive of a request.
abbrev pub received : Passage → List Message
received rejected = []
received (passed messages) = messages

-- Whatever messages arrive and whatever length was declared, the application receives at most the
-- limit in bytes; and it receives the messages as they are, unless the declared length is above the
-- limit or the bytes of the body are.
pub limit_body_bounds :
    (max_bytes : ℕ) (content_length : Option Text) (messages : List Message)
    → let got = received (limit_body max_bytes content_length messages) in
      (body_bytes got ≤ max_bytes)
      × ((got ≡ messages)
          ⊎ (is_above max_bytes (declared_length content_length) ≡ true)
          ⊎ (max_bytes < body_bytes messages))
unfolding limit_body body_bytes
limit_body_bounds max_bytes content_length messages =
    elim (Bool-cases (is_above max_bytes (declared_length content_length))) [
      | inl e ↦ rw e (omega arith, inr (inl refl))
      | inr e ↦
          let counted = counting-le max_bytes 0 messages (omega arith) in
          let bound : body_bytes (counting_receive max_bytes 0 messages) ≤ max_bytes =
            omega arith in
          rw e (elim (Bool-cases (ltb max_bytes (body_bytes messages))) [
            | inl long ↦ (bound, inr (inr (ground arith)))
            | inr short ↦ (bound, inl (counting-same max_bytes 0 messages (ground arith)))
          ])
    ]
