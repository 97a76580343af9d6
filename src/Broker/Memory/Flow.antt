-- ===== src/Broker/Memory/Flow.antt =====
-- The flow of messages through the broker in memory (mognet/broker/memory_broker.py).
use project_mognet.Prelude.{
  ℕ, String, ◌≡◌, refl, ap, sym, ◌∙◌, Bool, false, ltb, Option, none, some, List, [], ◌∷◌, ◌++◌,
  arith, Option-cases, inl, inr,
}
use mathlib.Core.Path.{subst}
use project_mognet.Prelude.Dict
use project_mognet.Prelude.Eq.{string_eq}
use project_mognet.Model.Value.{Exn, key_error, value_error}
use project_mognet.Backend.Memory.{Answer, ok, raised}
use project_mognet.Request.{Message}
use project_mognet.Broker.Memory.{
  Broker, Incoming, initial, update_task_event, ack_task, set_task_prefetch, setup_task_queue, put,
  send_task_message, send_control_message, handed_out, taken, passes, take_task, from_control,
  consume_control, ack, nack, send_reply,
}

-- Steps after which the event is brought up to date.
pub data Counted : Broker → Broker → Type 0 where
  acks : (msg : Incoming) (b : Broker) → Counted b (ack msg b)
  prefetches : (n : ℕ) (b : Broker) → Counted b (set_task_prefetch n b)
  takes :
      (queue : String) (msg : Incoming) (b c : Broker)
      → take_task queue b ≡ ok (some (msg, c))
      → Counted b c

-- Steps that leave the event alone.
pub data Silent : Broker → Broker → Type 0 where
  sends :
      (queue : String) (msg : Message) (b c : Broker)
      → send_task_message queue msg b ≡ ok c
      → Silent b c
  sets_up : (queue : String) (b : Broker) → Silent b (setup_task_queue queue b)
  controls : (msg : Message) (b : Broker) → Silent b (send_control_message msg b)
  nacks : (msg : Incoming) (b : Broker) → Silent b (nack msg b)

pub data Run : Broker → Broker → Type 0 where
  start : (b : Broker) → Run b b
  counted : (b c d : Broker) → Run b c → Counted c d → Run b d
  silent : (b c d : Broker) → Run b c → Silent c d → Run b d

pub data SilentRun : Broker → Broker → Type 0 where
  start : (b : Broker) → SilentRun b b
  next : (b c d : Broker) → SilentRun b c → Silent c d → SilentRun b d

-- The event is set just when the counter is below the prefetch count.
abbrev pub IsCurrent : Broker → Type 0
IsCurrent b = b.task_event ≡ ltb b.unacked_task_count b.task_prefetch

-- What the steps that leave the event alone keep.
abbrev pub gate : Broker → ℕ × ℕ × Bool
gate b = (b.unacked_task_count, b.task_prefetch, b.task_event)

ok-injective : {A : Type 0} {a b : A} → ok a ≡ ok b → a ≡ b
ok-injective {A} {a} e = ap (λ (x : Answer A). elim x [ ok y ↦ y | raised _ ↦ a ]) e

raised≢ok : {A : Type 0} {x : Exn} {a : A} → ¬ (raised x ≡ ok a)
raised≢ok e = cc

none≢some : {A : Type 0} {a : A} → ¬ (none ≡ some a)
none≢some e = cc

put_missing :
    (queue : String) (msg : Message) (b : Broker)
    → Dict.lookup queue b.task_queues ≡ none
    → put queue msg b ≡ raised key_error
unfolding put
put_missing queue msg b e = rw (e, put) refl

take_missing :
    (queue : String) (b : Broker)
    → Dict.lookup queue b.task_queues ≡ none
    → take_task queue b ≡ raised key_error
unfolding take_task
take_missing queue b e = rw (e, take_task) refl

pub take_there :
    (queue : String) (ms : List Message) (b : Broker)
    → Dict.lookup queue b.task_queues ≡ some ms
    → take_task queue b ≡ ok (taken queue ms b)
unfolding take_task
take_there queue ms b e = rw (e, take_task) refl

from_gate : (b c : Broker) → gate c ≡ gate b → c.task_event ≡ b.task_event
from_gate b c e = ap (λ (g : ℕ × ℕ × Bool). g.2) e

gate-IsCurrent : (b c : Broker) → gate c ≡ gate b → IsCurrent b → IsCurrent c
gate-IsCurrent b c e h = subst (λ (g : ℕ × ℕ × Bool). g.2 ≡ ltb g.0 g.1) (sym e) h

nack-gate : (msg : Incoming) (b : Broker) → gate (nack msg b) ≡ gate b
unfolding nack
nack-gate msg b = elim (Option-cases msg.from_queue) [
  | inl e ↦ rw (nack, e) refl
  | inr (q, e) ↦ rw (nack, e) refl
]

abbrev Current : Option (Incoming × Broker) → Type 0
Current none = Unit
Current (some out) = IsCurrent out.1

pub put_there :
    (queue : String) (msg : Message) (ms : List Message) (b : Broker)
    → Dict.lookup queue b.task_queues ≡ some ms
    → put queue msg b
      ≡ ok (record b { task_queues = Dict.insert queue (ms ++ msg ∷ []) b.task_queues })
unfolding put
put_there queue msg ms b e = rw (e, put) refl

put-gate :
    (queue : String) (msg : Message) (b c : Broker) → put queue msg b ≡ ok c → gate c ≡ gate b
unfolding put
put-gate queue msg b c e = elim (Option-cases (Dict.lookup queue b.task_queues)) [
  | inl missing ↦ absurd (raised≢ok (sym (put_missing queue msg b missing) ∙ e))
  | inr (ms, there) ↦ ap gate (ok-injective (sym e ∙ put_there queue msg ms b there))
]

Silent-gate : {b c : Broker} → Silent b c → gate c ≡ gate b
unfolding send_task_message setup_task_queue send_control_message nack
Silent-gate (sends queue msg b c e) = put-gate queue msg b c e
Silent-gate (sets_up queue b) = refl
Silent-gate (controls msg b) = refl
Silent-gate (nacks msg b) = nack-gate msg b

taken-IsCurrent :
    (queue : String) (ms : List Message) (b : Broker) (out : Incoming × Broker)
    → taken queue ms b ≡ some out
    → IsCurrent out.1
unfolding taken update_task_event
taken-IsCurrent queue [] b out e = absurd (none≢some e)
taken-IsCurrent queue (m ∷ ms) b out e =
    subst (λ (o : Option (Incoming × Broker)). Current o) e refl

abbrev Shut : Option (Incoming × Broker) → Type 0
Shut none = Unit
Shut (some out) = out.1.task_event ≡ false

taken_shut :
    (queue : String) (ms : List Message) (b : Broker) (out : Incoming × Broker)
    → b.task_prefetch ≡ 1
    → taken queue ms b ≡ some out
    → out.1.task_event ≡ false
unfolding taken update_task_event
taken_shut queue [] b out one e = absurd (none≢some e)
taken_shut queue (m ∷ ms) b out one e =
    subst (λ (o : Option (Incoming × Broker)). Shut o) e (ground (arith, one))

take_taken :
    (queue : String) (b : Broker) (out : Incoming × Broker)
    → take_task queue b ≡ ok (some out)
    → (ms : List Message) × (taken queue ms b ≡ some out)
take_taken queue b out e = elim (Option-cases (Dict.lookup queue b.task_queues)) [
  | inl missing ↦ absurd (raised≢ok (sym (take_missing queue b missing) ∙ e))
  | inr (ms, there) ↦ (ms, ok-injective (sym (take_there queue ms b there) ∙ e))
]

Counted-IsCurrent : {b c : Broker} → Counted b c → IsCurrent c
unfolding ack ack_task set_task_prefetch update_task_event
Counted-IsCurrent (acks msg b) = refl
Counted-IsCurrent (prefetches n b) = refl
Counted-IsCurrent (takes queue msg b c e) =
    let (ms, e') = take_taken queue b (msg, c) e in taken-IsCurrent queue ms b (msg, c) e'

Run-IsCurrent : {b c : Broker} → Run b c → IsCurrent b → IsCurrent c
Run-IsCurrent (start _) h = h
Run-IsCurrent (counted b d c r s) h = Counted-IsCurrent s
Run-IsCurrent (silent b d c r s) h = gate-IsCurrent d c (Silent-gate s) (Run-IsCurrent r h)

-- Once the prefetch count has been set, the consumers may go on just while the broker's counter of
-- unacknowledged tasks is below the prefetch count, whatever is sent, taken, acknowledged and put back
-- after that. The counter is not the number of messages that are out: putting one back does not
-- lower it.
pub passes_iff_room :
    (prefetch : ℕ) (b c : Broker)
    → Run (set_task_prefetch prefetch b) c
    → passes c ≡ ltb c.unacked_task_count c.task_prefetch
unfolding passes set_task_prefetch update_task_event
passes_iff_room prefetch b c r = Run-IsCurrent r refl

SilentRun-gate : {b c : Broker} → SilentRun b c → gate c ≡ gate b
SilentRun-gate (start _) = refl
SilentRun-gate (next b d c r s) = Silent-gate s ∙ SilentRun-gate r

-- A broker on which no prefetch count was set lets no consumer go on, whatever queues are set up and
-- whatever is sent and put back; and neither does one with a prefetch count of 1 after a message was
-- taken, also where that message is put back.
pub passes_stalls :
    (queue : String) (msg : Incoming) (b c d e : Broker)
    → SilentRun initial b
    → c.task_prefetch ≡ 1
    → take_task queue c ≡ ok (some (msg, d))
    → SilentRun (nack msg d) e
    → (passes b ≡ false) × (passes e ≡ false)
unfolding passes
passes_stalls queue msg b c d e r one took r' =
    let (ms, took') = take_taken queue c (msg, d) took in
    (
      from_gate initial b (SilentRun-gate r),
      from_gate (nack msg d) e (SilentRun-gate r')
          ∙ from_gate d (nack msg d) (nack-gate msg d)
          ∙ taken_shut queue ms c (msg, d) one took',
    )

abbrev SilentAddress : Option (Incoming × Broker) → Type 0
SilentAddress none = Unit
SilentAddress (some out) = out.0.message.reply_to ≡ none

from_control-address :
    (ms : List Message) (b : Broker) (out : Incoming × Broker)
    → from_control ms b ≡ some out
    → out.0.message.reply_to ≡ none
unfolding from_control handed_out
from_control-address [] b out e = absurd (none≢some e)
from_control-address (m ∷ ms) b out e =
    subst (λ (o : Option (Incoming × Broker)). SilentAddress o) e refl

-- A message that was taken from the control queue carries no address, so a reply to it is refused.
pub send_reply-consume_control :
    (msg : Incoming) (reply : Message) (b c : Broker)
    → consume_control b ≡ some (msg, c)
    → send_reply msg.message reply c ≡ raised value_error
unfolding consume_control send_reply
send_reply-consume_control msg reply b c e =
    rw (send_reply, from_control-address b.control_queue b (msg, c) e) refl
