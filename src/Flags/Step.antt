-- ===== src/Flags/Step.antt =====
-- stream_process_flags (mux.c) as a state machine.
use yamux.Common.{
  ℕ, ◌≡◌, ◌≢◌, refl, ◌∙◌, Bool, true, false, Bool-cases, none, some, arith, inl, inr, if◌then◌else◌,
}
use yamux.Os.{Os}
use yamux.Frame.{has_flag, flag_ack, flag_fin, flag_rst}
use yamux.State.{State, Stream, Sys, Code, success, failure, ◌>>◌, pure, update}
use yamux.State.Rules.{Returns, Returns-bind}
use yamux.State.Calm.{Calm, Calm-refl, Calm-trans, Calm-store}
use yamux.State.Signals.{Signals, sending, Signals-live}
use yamux.Notify.{stream_notify_waiting}
use yamux.Notify.Signals.{stream_notify_waiting-Signals}
use yamux.Flags.{acked, finished, set_state, process_ack, process_fin, process_rst}

-- The moves that the protocol knows when a frame arrives: SYN is answered, the peer closes its
-- side, the peer resets the stream.
pub data Move : State → State → Type 0 where
  answered : Move State.syn_sent State.established
  half_closed_syn_sent : Move State.syn_sent State.remote_close
  half_closed_syn_received : Move State.syn_received State.remote_close
  half_closed : Move State.established State.remote_close
  both_closed : Move State.local_close State.closed
  aborted : (a : State) → Move a State.reset

pub data Moves (a : State) : State → Type 0 where
  stay : Moves a a
  next : {b c : State} → Moves a b → Move b c → Moves a c

-- The code and the state that the flags of a frame lead to: first an ACK answers a SYN, then a FIN
-- closes the peer's side if it is open, then an RST resets.
abbrev pub acknowledged : State → State
acknowledged State.init = State.init
acknowledged State.syn_sent = State.established
acknowledged State.syn_received = State.syn_received
acknowledged State.established = State.established
acknowledged State.local_close = State.local_close
acknowledged State.remote_close = State.remote_close
acknowledged State.closed = State.closed
acknowledged State.reset = State.reset

abbrev pub after_ack : ℕ → State → State
after_ack flags a = if has_flag flags flag_ack then acknowledged a else a

-- Whether the peer has begun the stream, or is about to, and has not closed its side.
abbrev pub peer_open : State → Bool
peer_open State.init = false
peer_open State.syn_sent = true
peer_open State.syn_received = true
peer_open State.established = true
peer_open State.local_close = true
peer_open State.remote_close = false
peer_open State.closed = false
peer_open State.reset = false

-- Whether the stream has closed its own side.
abbrev pub closed_here : State → Bool
closed_here State.init = false
closed_here State.syn_sent = false
closed_here State.syn_received = false
closed_here State.established = false
closed_here State.local_close = true
closed_here State.remote_close = false
closed_here State.closed = true
closed_here State.reset = true

abbrev pub after_fin : ℕ → State → Code × State
after_fin flags a =
    if has_flag flags flag_fin
    then (if peer_open a
        then (success, if closed_here a then State.closed else State.remote_close)
        else (failure, a))
    else (success, a)

abbrev pub after_rst : ℕ → Code × State → Code × State
after_rst flags (failure, a) = (failure, a)
after_rst flags (success, a) = (success, if has_flag flags flag_rst then State.reset else a)

abbrev pub after_flags : ℕ → State → Code × State
after_flags flags a = after_rst flags (after_fin flags (after_ack flags a))

-- What the tables of the code say, in these words.
acked_lem : (a : State) → acked a ≡ acknowledged a
acked_lem State.syn_sent = refl
acked_lem State.init = refl
acked_lem State.syn_received = refl
acked_lem State.established = refl
acked_lem State.local_close = refl
acked_lem State.remote_close = refl
acked_lem State.closed = refl
acked_lem State.reset = refl

finished_lem :
    (a : State)
    → finished a ≡ (
        if peer_open a
        then some (if closed_here a then State.closed else State.remote_close)
        else none)
finished_lem State.syn_sent = refl
finished_lem State.init = refl
finished_lem State.syn_received = refl
finished_lem State.established = refl
finished_lem State.local_close = refl
finished_lem State.remote_close = refl
finished_lem State.closed = refl
finished_lem State.reset = refl

module _ {W Q T : Type 0} (p : ℕ) where
  -- The stream at p is in a state, and nothing else has changed but readiness.
  pub record Settles (b : State) (s s' : Sys W Q T) : Type 0 where
    pub calm : Calm s s'
    pub session : s'.session ≡ s.session
    pub stream : Stream Q
    pub here : s'.heap p ≡ some stream
    pub in_state : stream.state ≡ b
    pub others : (q : ℕ) → q ≢ p → sending (s'.heap q) ≡ sending (s.heap q)

  Settles-refl : (s : Sys W Q T) (x : Stream Q) → s.heap p ≡ some x → Settles x.state s s
  Settles-refl s x e = record {
    calm = Calm-refl s;
    session = refl;
    stream = x;
    here = e;
    in_state = refl;
    others = λ q n. refl;
  }

  pub Settles-trans :
      (b c : State) (s t u : Sys W Q T) → Settles b s t → Settles c t u → Settles c s u
  Settles-trans b c s t u h k = record {
    calm = Calm-trans s t u h.calm k.calm;
    session = k.session ∙ h.session;
    stream = k.stream;
    here = k.here;
    in_state = k.in_state;
    others = λ q n. k.others q n ∙ h.others q n;
  }

  Settles-Signals : (b : State) (s t u : Sys W Q T) → Settles b s t → Signals t u → Settles b s u
  Settles-Signals b s t u h k =
      let (y, e, same) = Signals-live t u p k h.here in
      record {
        calm = Calm-trans s t u h.calm k.calm;
        session = k.session ∙ h.session;
        stream = y;
        here = e;
        in_state = same ∙ h.in_state;
        others = λ q n. k.sending_same q ∙ h.others q n;
      }

  set_state-Settles :
      (b : State) (s : Sys W Q T) (x : Stream Q)
      → s.heap p ≡ some x
      → Returns (λ _ s'. Settles b s s') (set_state p b s)
  unfolding set_state
  set_state-Settles b s x e =
      let y = record x { state = b } in
      let c = Calm-store s p x y e (refl, refl, refl) in
      let settled : Settles b s (record s { heap = update s.heap p (some y) }) = record {
        calm = c;
        session = refl;
        stream = y;
        here = ground arith;
        in_state = refl;
        others = λ q n. ground arith;
      } in
      ground (arith, settled)

module _ {W Q T : Type 0} ⦃os : Os W⦄ (p flags : ℕ) (s : Sys W Q T) (x : Stream Q)
    (live : s.heap p ≡ some x) where
  pub process_ack-Settles :
      Returns (λ _ s'. Settles p (after_ack flags x.state) s s') (process_ack p flags s)
  unfolding process_ack
  process_ack-Settles =
      rw (← acked_lem x.state)
        (ground (arith, set_state-Settles p (acked x.state) s x live, Settles-refl p s x live))

  -- A state is set and the readers and writers are woken.
  settle_and_wake :
      (b : State) (code : Code)
      → Returns
          (λ c s'. (c ≡ code) × Settles p b s s')
          ((do set_state p b; stream_notify_waiting p; pure code) s)
  settle_and_wake b code =
      Returns-bind (λ _ s'. Settles p b s s') _ (set_state p b s) _ (set_state-Settles p b s x live)
        λ _ t h.
          Returns-bind (λ _ u. Signals t u) _ (stream_notify_waiting p t) _
            (stream_notify_waiting-Signals p t h.stream h.here)
            λ _ u k. (refl, Settles-Signals p b s t u h k)

  pub process_fin-Settles :
      let (code, b) = after_fin flags x.state in
      Returns (λ c s'. (c ≡ code) × Settles p b s s') (process_fin p flags s)
  unfolding process_fin
  process_fin-Settles =
      let e = finished_lem x.state in
      let b = if closed_here x.state then State.closed else State.remote_close in
      elim (Bool-cases (peer_open x.state)) [
        | inr shut ↦
            let none_left : finished x.state ≡ none = e ∙ ground arith in
            ground (arith, Settles-refl p s x live)
        | inl left_open ↦
            let some_left : finished x.state ≡ some b = e ∙ ground arith in
            ground (arith, Settles-refl p s x live, settle_and_wake b success)
      ]

  pub process_rst-Settles :
      Returns
        (λ c s'.
          (c ≡ success) × Settles p (if has_flag flags flag_rst then State.reset else x.state) s s')
        (process_rst p flags s)
  unfolding process_rst
  process_rst-Settles = ground (arith, Settles-refl p s x live, settle_and_wake State.reset success)
