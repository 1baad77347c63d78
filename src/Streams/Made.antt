-- ===== src/Streams/Made.antt =====
-- What a new stream (stream_new of mux.c) is like, and what it leaves as it was.
use yamux.Common.{
  ℕ, ◌≡◌, ◌≢◌, refl, sym, subst, ap, ◌∙◌, false, Option, none, some, [], arith, length,
}
use yamux.Bio.{Bio, Buffer}
use yamux.Bio.Contents.{IsValid, contents}
use yamux.Stailq.{Stailq}
use yamux.Tree.{Tree}
use yamux.Frame.{hdr_stream_id}
use yamux.State.{State, Stream, Sys}
use yamux.State.Rules.{Returns}
use yamux.State.Calm.{Calm, Calm-world, Calm-SameInput, SameInput, SameInput-trans}
use yamux.Sound.{IsSound, IsWindowed}
use yamux.Sound.Keep.{Calm-IsSound}
use yamux.Streams.{max_stream_window_size, register, fresh_stream}
use yamux.Streams.New.{
  heap-registered_new, heap-registered_other, find-registered_other, registered-session, registered,
  register_lem, registered-IsSound, SameInput-registered, find-registered_self,
}

module _ {W Q T : Type 0} where
  -- Nothing but the world outside has changed.
  abbrev pub OnlyWorld : Sys W Q T → Sys W Q T → Type 0
  OnlyWorld s s' = s' ≡ record s { world = s'.world }

-- A stream that has been set up is the one that was given, but for its padding.
abbrev pub IsSetUp : {Q : Type 0} → Stream Q → Option (Stream Q) → Type 0
IsSetUp x none = Unit
IsSetUp x (some y) = y ≡ record x { send_padding = y.send_padding }

-- A stream as it is made: under its id, in its state, with both windows full and nothing received.
module _ {Q : Type 0} ⦃sq : Stailq Buffer Q⦄ where
  abbrev pub IsFresh : ℕ → State → Stream Q → Type 0
  IsFresh id state y =
      (y.id ≡ id)
      × (y.state ≡ state)
      × (y.recv_window ≡ max_stream_window_size)
      × (y.send_window ≡ max_stream_window_size)
      × (contents y.recv_buf ≡ [])

  -- What a stream that has been set up is.
  pub setup_lem :
      (id : ℕ) (state : State) (b : Bio Q) (fd private_fd : ℕ) (y : Stream Q)
      → (contents b ≡ []) × IsValid b
      → IsSetUp (fresh_stream id state b fd private_fd) (some y)
      → IsFresh id state y × IsWindowed y
  setup_lem id state b fd private_fd y h e =
      let same : y.recv_buf ≡ b = ap (λ (z : Stream Q). z.recv_buf) e in
      let full : y.recv_window ≡ max_stream_window_size = ap (λ (z : Stream Q). z.recv_window) e in
      let empty : contents y.recv_buf ≡ [] = ap contents same ∙ h.0 in
      (
        (
          ap (λ (z : Stream Q). z.id) e,
          ap (λ (z : Stream Q). z.state) e,
          full,
          ap (λ (z : Stream Q). z.send_window) e,
          empty,
        ),
        record {
          buffered = subst IsValid (sym same) h.1;
          promised = omega (arith, full, ap (length {A = ℕ}) empty);
        },
      )

module _ {W Q T : Type 0} ⦃sq : Stailq Buffer Q⦄ ⦃tr : Tree T⦄ where
  -- The new stream is at p, and its id leads to it; the rest of memory, of the tree and of the
  -- session is as it was.
  pub record Adds (id : ℕ) (state : State) (p : ℕ) (s s' : Sys W Q T) : Type 0 where
    pub aim : tr.find id s'.session.streams ≡ some p
    pub stream : Stream Q
    pub here : s'.heap p ≡ some stream
    pub fresh : IsFresh id state stream
    pub others : (q : ℕ) → q ≢ p → s'.heap q ≡ s.heap q
    pub other_ids : (j : ℕ) → j ≢ id → tr.find j s'.session.streams ≡ tr.find j s.session.streams
    pub session : s'.session ≡ record s.session { streams = s'.session.streams }

  -- What has become of a session in which a stream was to be made under an id.
  pub record Makes (id : ℕ) (state : State) (r : Option ℕ) (s s' : Sys W Q T) : Type 0 where
    pub sound : IsSound s'
    pub input : SameInput s s'
    pub made : (p : ℕ) → r ≡ some p → Adds id state p s s'
    pub not_made : r ≡ none → OnlyWorld s s'

  OnlyWorld-Calm : (s s' : Sys W Q T) → OnlyWorld s s' → Calm s s'
  OnlyWorld-Calm s s' e = subst (Calm s) (sym e) (Calm-world s s'.world)

  -- No stream has been made.
  pub Makes-none :
      (id : ℕ) (state : State) (s : Sys W Q T) (w : W)
      → IsSound s
      → Makes id state none s (record s { world = w })
  Makes-none id state s w v = record {
    sound = Calm-IsSound s _ (Calm-world s w) v;
    input = Calm-SameInput s _ (Calm-world s w);
    made = λ p e. cc;
    not_made = λ _. refl;
  }

  -- The tree has no stream under the id, and it is not that of a data frame which is being
  -- received.
  pub record IsOpenable (id : ℕ) (s : Sys W Q T) : Type 0 where
    pub absent : tr.find id s.session.streams ≡ none
    pub unused : s.session.new_frame ≡ false → hdr_stream_id s.session.hdr ≢ id

  pub Calm-IsOpenable : (id : ℕ) (s s' : Sys W Q T) → Calm s s' → IsOpenable id s → IsOpenable id s'
  Calm-IsOpenable id s s' c f = record {
    absent = rw c.streams f.absent;
    unused = λ h. rw c.hdr (f.unused (sym c.new_frame ∙ h));
  }

  -- What happened before to the world outside alone.
  pub Makes-world :
      (id : ℕ) (state : State) (r : Option ℕ) (s : Sys W Q T) (w : W) (u : Sys W Q T)
      → Makes id state r (record s { world = w }) u
      → Makes id state r s u
  Makes-world id state r s w u m = record {
    sound = m.sound;
    input = SameInput-trans s _ u (Calm-SameInput s _ (Calm-world s w)) m.input;
    made = λ p e.
        let a = m.made p e in
        record {
          aim = a.aim;
          stream = a.stream;
          here = a.here;
          fresh = a.fresh;
          others = a.others;
          other_ids = a.other_ids;
          session = a.session;
        };
    not_made = m.not_made;
  }

  pub Makes-registered :
      (id : ℕ) (state : State) (y : Stream Q) (s : Sys W Q T)
      → IsSound s
      → IsOpenable id s
      → IsFresh id state y
      → IsWindowed y
      → Returns (λ r s'. Makes id state r s s') (register y s)
  Makes-registered id state y s v f fresh w =
      let own = fresh.0 in
      let absent : tr.find y.id s.session.streams ≡ none =
        ap (λ j. tr.find j s.session.streams) own ∙ f.absent in
      let adds : Adds id state s.next_address s (registered y s) = record {
        aim =
            ap (λ j. tr.find j (registered y s).session.streams) (sym own)
            ∙ find-registered_self y s absent;
        stream = y;
        here = heap-registered_new y s absent;
        fresh = fresh;
        others = heap-registered_other y s absent;
        other_ids = λ j other. find-registered_other y s absent j (λ e. other (e ∙ own));
        session = registered-session y s absent;
      } in
      rw (register_lem y s absent) (record {
        sound = registered-IsSound y s absent w (λ h e. f.unused h (e ∙ own)) v;
        input = SameInput-registered y s absent;
        made = λ p e.
            let at_p : s.next_address ≡ p = ground arith in
            subst (λ q. Adds id state q s (registered y s)) at_p adds;
        not_made = λ e. cc;
      })
