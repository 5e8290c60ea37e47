-- ===== src/Terminal/Session.antt =====
-- What one round of the terminal thread does: every key event is handled, and every output byte
-- reaches the console.
use lazers.Base.{
  ℕ, zero, suc, ◌<◌, Option, none, some, List, [], ◌∷◌, ◌++◌, map, ◌≡◌, refl, ap, ◌∙◌, inl, inr,
  arith,
}
use lazers.Base.Tests.{ltb, if◌then◌else◌, Option-cases}
use lazers.Base.Lists.{length}
use lazers.Base.Words.{Bytes}
use lazers.KeyCode.{KeyEvent, key_event_to_input_byte}
use lazers.Keyboard.{KeyboardState, poll, pop_event, event_queue_capacity}
use lazers.Ring
use lazers.Ring.{Ring, capacity}
use lazers.Ring.Refine.{Holds, drain_lem, push-Holds, pop-some, pop-none, popped, popped-Holds}
use lazers.Terminal.{
  TerminalEndpoint, keep, handle_key_event, handle_events, terminal_output_capacity, terminal_round,
}

-- The bytes that the events type, in order.
abbrev pub typed : List KeyEvent → Bytes
typed [] = []
typed (e ∷ es) = elim (key_event_to_input_byte e) [ none ↦ typed es | some b ↦ b ∷ typed es ]

-- A queue of at most `size` bytes after these arrive: those that find no room are lost.
abbrev pub arrive : ℕ → Bytes → Bytes → Bytes
arrive size xs [] = xs
arrive size xs (b ∷ bs) = arrive size (if ltb (length xs) size then xs ++ (b ∷ []) else xs) bs

-- The keyboard's queue holds these events, oldest first.
abbrev pub HoldsEvents : KeyboardState → List KeyEvent → Type 0
HoldsEvents k es = Holds k.queue (map some es)

handle-nothing :
    (e : KeyEvent) (t : TerminalEndpoint)
    → key_event_to_input_byte e ≡ none
    → handle_key_event e t ≡ t
unfolding handle_key_event
handle-nothing e t h = rw (h, handle_key_event)

handle-byte :
    (e : KeyEvent) (b : ℕ) (t : TerminalEndpoint)
    → key_event_to_input_byte e ≡ some b
    → handle_key_event e t ≡ record t { input = (Ring.push b t.input).1 }
unfolding handle_key_event
handle-byte e b t h = rw (h, handle_key_event)

typed-nothing :
    (e : KeyEvent) (es : List KeyEvent)
    → key_event_to_input_byte e ≡ none
    → typed (e ∷ es) ≡ typed es
typed-nothing e es h = rw (h, typed)

typed-byte :
    (e : KeyEvent) (b : ℕ) (es : List KeyEvent)
    → key_event_to_input_byte e ≡ some b
    → typed (e ∷ es) ≡ b ∷ typed es
typed-byte e b es h = rw (h, typed)

-- The endpoint `t'` is `t` after the bytes `bs` arrived at the input queue that held `xs`.
record Arrived (bs xs : Bytes) (t t' : TerminalEndpoint) : Type 0 where
  input : Holds t'.input (arrive (capacity t.input) xs bs)
  same_capacity : capacity t'.input ≡ capacity t.input
  same_output : t'.output ≡ t.output
  same_serial : t'.serial ≡ t.serial

handle_key_event-Arrived :
    (P : Type 0) (e : KeyEvent) (es : List KeyEvent) (t t' : TerminalEndpoint) (xs : Bytes)
    → Holds t.input xs
    → ((ys : Bytes)
        → Holds (handle_key_event e t).input ys
        → P × Arrived (typed es) ys (handle_key_event e t) t')
    → P × Arrived (typed (e ∷ es)) xs t t'
handle_key_event-Arrived P e es t t' xs h later = elim (Option-cases (key_event_to_input_byte e)) [
  | inl nothing ↦ rw (typed-nothing e es nothing) (rw (handle-nothing e t nothing) at later xs h)
  | inr (b, types) ↦
      let p = push-Holds b t.input xs h in
      let a = rw (handle-byte e b t types) at later in
      let r = a (if ltb (length xs) (capacity t.input) then xs ++ (b ∷ []) else xs) p.0 in
      rw (typed-byte e b es types) (
        r.0,
        record {
          input = rw p.2 at r.1.input;
          same_capacity = r.1.same_capacity ∙ p.2;
          same_output = r.1.same_output;
          same_serial = r.1.same_serial;
        },
      )
]

pop_event-some :
    (k : KeyboardState) (e : KeyEvent) (es : List KeyEvent)
    → HoldsEvents k (e ∷ es)
    → pop_event k ≡ (some e, record k { queue = popped (λ _. none) (some e) k.queue })
unfolding pop_event
pop_event-some k e es h = rw (pop-some (λ _. none) k.queue (some e) (map some es) h)

pop_event-none : (k : KeyboardState) → HoldsEvents k [] → pop_event k ≡ (none, k)
unfolding pop_event
pop_event-none k h = rw (pop-none (λ _. none) k.queue h)

handle_events-cons :
    (fuel : ℕ) (k : KeyboardState) (e : KeyEvent) (es : List KeyEvent) (t : TerminalEndpoint)
    → HoldsEvents k (e ∷ es)
    → handle_events (suc fuel) k t
      ≡ handle_events fuel
          (record k { queue = popped (λ _. none) (some e) k.queue })
          (handle_key_event e t)
unfolding handle_events
handle_events-cons fuel k e es t h =
    rw (pop_event-some k e es h, handle_events) (rw (pop_event-some k e es h))

handle_events-nil :
    (fuel : ℕ) (k : KeyboardState) (t : TerminalEndpoint)
    → HoldsEvents k []
    → handle_events (suc fuel) k t ≡ (k, t)
unfolding handle_events
handle_events-nil fuel k t h = rw (pop_event-none k h, handle_events) (rw (pop_event-none k h))

-- With more fuel than events, every event is handled in order and the queue is left empty.
handle_events_lem :
    (fuel : ℕ) (k : KeyboardState) (es : List KeyEvent) (t : TerminalEndpoint) (xs : Bytes)
    → HoldsEvents k es
    → Holds t.input xs
    → length es < fuel
    → let (k', t') = handle_events fuel k t in HoldsEvents k' [] × Arrived (typed es) xs t t'
handle_events_lem zero k es t xs h i m = absurd (omega arith)
handle_events_lem (suc fuel) k [] t xs h i m =
    rw (handle_events-nil fuel k t h)
      (h, record { input = i; same_capacity = refl; same_output = refl; same_serial = refl })
handle_events_lem (suc fuel) k (e ∷ es) t xs h i m =
    let k1 = record k { queue = popped (λ _. none) (some e) k.queue } in
    let h1 = popped-Holds (λ _. none) k.queue (some e) (map some es) h in
    rw (handle_events-cons fuel k e es t h) (
      handle_key_event-Arrived _ e es t _ xs i
        (λ ys j. handle_events_lem fuel k1 es (handle_key_event e t) ys h1 j (omega arith)))

length-map : (es : List KeyEvent) → length (map {B = Option KeyEvent} some es) ≡ length es
length-map [] = refl
length-map (e ∷ es) = ap suc (length-map es)

-- Let the event queue, which has its capacity, hold `events` after the poll, and let the input and
-- output queues hold `unread` and `shown`, the latter at its capacity. In one round every one of the
-- events is handled: the bytes that they type
-- arrive in order behind those not yet read, as far as the input queue has room. Every byte of
-- output goes to the console in order. Both the event queue and the output queue are left empty.
pub terminal_round_lem :
    (readings : List (ℕ × ℕ)) (k : KeyboardState) (t : TerminalEndpoint) (events : List KeyEvent)
    (unread shown : Bytes)
    → HoldsEvents (poll readings k) events
    → capacity (poll readings k).queue ≡ event_queue_capacity
    → Holds t.input unread
    → Holds t.output shown
    → capacity t.output ≡ terminal_output_capacity
    → let (console, k', t') = terminal_round readings k t in
      (console ≡ shown)
      × HoldsEvents k' []
      × Holds t'.input (arrive (capacity t.input) unread (typed events))
      × Holds t'.output []
      × (t'.serial ≡ t.serial)
unfolding terminal_round
terminal_round_lem readings k t events unread shown h c i o d =
    let k1 = poll readings k in
    let few : length events < suc event_queue_capacity =
      omega (arith, length-map events, h.count, h.fits) in
    let (empty, a) = handle_events_lem (suc event_queue_capacity) k1 events t unread h i few in
    let t1 = (handle_events (suc event_queue_capacity) k1 t).1 in
    let o1 : Holds t1.output shown = rw a.same_output o in
    let (all, none_left) =
      drain_lem keep (suc terminal_output_capacity) t1.output shown o1
        (omega (arith, o.count, o.fits)) in
    (all, empty, a.input, none_left, a.same_serial)
