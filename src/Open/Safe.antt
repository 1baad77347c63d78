-- ===== src/Open/Safe.antt =====
-- session_open (mux.c) in a sound session, on every path.
use yamux.Common.{
  ℕ, ◌^◌, ◌%◌, suc, take, ◌≤◌, ◌<◌, ◌≡◌, refl, ap, ◌∙◌, sym, subst, Option, none, some, List, [],
  ◌≢◌, arith, inl, inr, All, Bool-cases,
}
use yamux.Bio.{Buffer}
use yamux.Os.{Os}
use yamux.Stailq.{Stailq}
use yamux.Bio.Contents.{contents}
use yamux.Tree.{Tree}
use yamux.State.{State, Stream, Sys, M, Code, success, failure, ◌>>=◌, ◌>>◌, pure}
use yamux.State.Rules.{Returns, Returns-bind, Returns-both}
use yamux.State.Calm.{Calm, Calm-refl, Calm-session, SameInput}
use yamux.Sound.{IsSound}
use yamux.Streams.{stream_new, stream_free}
use yamux.Streams.Made.{Makes, Adds, IsFresh, IsOpenable, Calm-IsOpenable}
use yamux.Streams.Setup.{stream_new_lem}
use yamux.Streams.Free.{stream_free_lem}
use yamux.Incoming.Safe.{Steady, Calm-Steady, Steady-trans}
use yamux.Send.{sent_state, send_window_update}
use yamux.Send.Steady.{Offers, send_window_update-Offers}
use yamux.Open.{reserve_id, session_open}
use yamux.Open.Ids.{after, KeepsParity, Advances, Reserves, reserve_id_lem, reserve_id-fresh}

module _ {W Q T : Type 0} ⦃os : Os W⦄ ⦃sq : Stailq Buffer Q⦄ ⦃tr : Tree T⦄ where
  -- The id is what next_id was both when it was loaded and when it was exchanged: after the
  -- changes of some rounds by other threads, and again after that of the round that came through.
  abbrev Taken : List (ℕ → ℕ) → ℕ → Sys W Q T → Type 0
  Taken races id s =
      (k : ℕ) × (id ≡ after (take k races) s.session.next_id)
      × (id ≡ after (take (suc k) races) s.session.next_id)
      × (id % 2 ≡ s.session.next_id % 2)
      × (s.session.next_id ≤ id)

  -- A stream has been opened at p, under an id that was free: its SYN is sent, both its windows are
  -- full and it holds nothing. The rest of memory and of the tree is as it was.
  pub record Opened (races : List (ℕ → ℕ)) (p : ℕ) (s s' : Sys W Q T) : Type 0 where
    pub id : ℕ
    pub taken : Taken races id s
    pub absent : tr.find id s.session.streams ≡ none
    pub aim : tr.find id s'.session.streams ≡ some p
    pub stream : Stream Q
    pub here : s'.heap p ≡ some stream
    pub fresh : IsFresh id State.syn_sent stream
    pub others : (q : ℕ) → q ≢ p → s'.heap q ≡ s.heap q
    pub other_ids : (j : ℕ) → j ≢ id → tr.find j s'.session.streams ≡ tr.find j s.session.streams

  -- The session stays sound and its input as it was. If a stream is returned, it has been opened.
  pub record Opens (races : List (ℕ → ℕ)) (r : Option ℕ) (s s' : Sys W Q T) : Type 0 where
    pub steady : Steady s s'
    pub opened : (p : ℕ) → r ≡ some p → Opened races p s s'

  -- The new stream, after its window update.
  opened_lem :
      (races : List (ℕ → ℕ)) (id p : ℕ) (s t u w : Sys W Q T)
      → Taken races id s
      → tr.find id s.session.streams ≡ none
      → t.heap ≡ s.heap
      → t.session.streams ≡ s.session.streams
      → (a : Adds id State.init p t u) → Offers p a.stream u w
      → Opened races p s w
  opened_lem races id p s t u w taken absent heap streams a o =
      let (own, state, full, window, empty) = a.fresh in
      let held : contents o.stream.recv_buf ≡ [] = ap contents o.buffer ∙ empty in
      let bound = (o.steady.sound.windowed p o.stream o.here).promised in
      record {
        id = id;
        taken = taken;
        absent = absent;
        aim = ap (tr.find id) o.streams ∙ a.aim;
        stream = o.stream;
        here = o.here;
        fresh = (
          o.same_id ∙ own,
          o.state ∙ ap sent_state state,
          omega (arith, o.window, full, bound),
          o.send_window ∙ window,
          held,
        );
        others = λ q other.
            o.others q other ∙ a.others q other ∙ ap (λ (h : ℕ → Option (Stream Q)). h q) heap;
        other_ids =
            λ j other. ap (tr.find j) o.streams ∙ a.other_ids j other ∙ ap (tr.find j) streams;
      }

  -- What follows the window update.
  abbrev kept : ℕ → Code → M W Q T (Option ℕ)
  kept p success = pure (some p)
  kept p failure = do stream_free p; pure none

  -- What follows stream_new.
  abbrev offered : Option ℕ → M W Q T (Option ℕ)
  offered none = pure none
  offered (some p) = do
    sent ← send_window_update p
    elim sent [ success ↦ pure (some p) | failure ↦ do stream_free p; pure none ]

  kept_lem :
      (races : List (ℕ → ℕ)) (p : ℕ) (c : Code) (s t : Sys W Q T)
      → Steady s t
      → Opened races p s t
      → Returns (λ r s'. Opens races r s s') (kept p c t)
  kept_lem races p success s t h o = record {
    steady = h;
    opened = λ q eq. subst (λ n. Opened races n s t) (let e : p ≡ q = ground arith in e) o;
  }
  kept_lem races p failure s t h o =
      Returns-bind (λ _ u. IsSound u × SameInput t u × (tr.find o.id u.session.streams ≡ none))
        (λ r s'. Opens races r s s') (stream_free p t) (λ _. pure none)
        (stream_free_lem o.id p t h.sound o.aim)
        λ _ u (v, same, gone). record {
          steady = Steady-trans s t u h (record { sound = v; input = same });
          opened = λ q eq. cc;
        }

  offered_lem :
      (races : List (ℕ → ℕ)) (id : ℕ) (m : Option ℕ) (s t u : Sys W Q T)
      → Steady s u
      → Taken races id s
      → tr.find id s.session.streams ≡ none
      → t.heap ≡ s.heap
      → t.session.streams ≡ s.session.streams
      → ((p : ℕ) → m ≡ some p → Adds id State.init p t u)
      → Returns (λ r s'. Opens races r s s') (offered m u)
  offered_lem races id none s t u h taken absent heap streams made = record {
    steady = h;
    opened = λ q eq. cc;
  }
  offered_lem races id (some p) s t u h taken absent heap streams made =
      let a = made p refl in
      Returns-bind (λ (_ : Code) w. Offers p a.stream u w) (λ r s'. Opens races r s s')
        (send_window_update p u) (kept p) (send_window_update-Offers p a.stream u h.sound a.here)
        λ c w o.
          kept_lem races p c s w (Steady-trans s u w h o.steady)
            (opened_lem races id p s t u w taken absent heap streams a o)

  -- What follows the reservation.
  abbrev reserved : Option ℕ → M W Q T (Option ℕ)
  reserved none = pure none
  reserved (some id) = do made ← stream_new id State.init; offered made

  Reserves-Calm :
      (races : List (ℕ → ℕ)) (r : Option ℕ) (s t : Sys W Q T) → Reserves races r s t → Calm s t
  Reserves-Calm races r s t h = subst (Calm s) (sym h.session) (
      Calm-session s s.session.local_go_away s.session.remote_go_away t.session.next_id
        s.session.send_buf s.world)

  -- All ids of the session's parity from the next one on can be opened: no stream has them, and no
  -- data frame with one of them is being received.
  abbrev pub HasOpenableIds : Sys W Q T → Type 0
  HasOpenableIds s =
      (id : ℕ) → s.session.next_id ≤ id → id % 2 ≡ s.session.next_id % 2 → IsOpenable id s

  Reserves-Taken :
      (races : List (ℕ → ℕ)) (id : ℕ) (s t : Sys W Q T)
      → Reserves races (some id) s t
      → s.session.next_id ≤ id
      → Taken races id s
  Reserves-Taken races id s t h le = elim h.outcome [
    | inl (k, z, loaded, over) ↦ absurd (ground arith)
    | inr (j, k, z, loaded, exchanged, small, parity, next) ↦
        let same : id ≡ j = ground arith in
        (k, same ∙ loaded, same ∙ exchanged, ap (λ n. n % 2) same ∙ parity, le)
  ]

  reserved_lem :
      (races : List (ℕ → ℕ)) (r : Option ℕ) (s t : Sys W Q T)
      → IsSound s
      → HasOpenableIds s
      → Reserves races r s t
      → ((id : ℕ) → r ≡ some id → s.session.next_id ≤ id)
      → Returns (λ o s'. Opens races o s s') (reserved r t)
  reserved_lem races none s t v free h above = record {
    steady = Calm-Steady s t v (Reserves-Calm races none s t h);
    opened = λ q eq. cc;
  }
  reserved_lem races (some id) s t v free h above =
      let c = Reserves-Calm races (some id) s t h in
      let le = above id refl in
      let taken = Reserves-Taken races id s t h le in
      let can = free id le (taken.3) in
      let steady = Calm-Steady s t v c in
      Returns-bind (λ m u. Makes id State.init m t u) (λ o s'. Opens races o s s')
        (stream_new id State.init t) offered
        (stream_new_lem id State.init t steady.sound (Calm-IsOpenable id s t c can))
        λ m u k.
          offered_lem races id m s t u
            (Steady-trans s t u steady (record { sound = k.sound; input = k.input })) taken
            can.absent (ap (λ (z : Sys W Q T). z.heap) h.session) c.streams k.made

  -- In a sound session with a next id of 32 bits, where no id of the session's parity from the
  -- next one on is that of a stream in the tree or of a data frame that is being received,
  -- whatever other threads that keep the parity, the width and the order of the next id do to it:
  -- session_open returns on every path, and the session stays sound and its input as it was. A
  -- stream that is returned is in memory, in SYN_SENT, with both windows at the maximum and
  -- nothing received, and the tree finds it under its id, which had none before, is of the
  -- session's parity, is not below the next id at the call, and is the next id both when it was
  -- loaded and, after the change by another thread in that round, if any, when it was exchanged;
  -- no other stream and no other id of the tree changes.
  pub session_open_lem :
      (races : List (ℕ → ℕ)) (s : Sys W Q T)
      → All KeepsParity races
      → All Advances races
      → IsSound s
      → s.session.next_id < 2 ^ 32
      → HasOpenableIds s
      → Returns (λ r s'. Opens races r s s') (session_open races s)
  unfolding session_open
  session_open_lem races s keep adv v word free = elim (Bool-cases s.session.remote_go_away) [
    | inl e ↦
        simp (e, Returns) (record { steady = Calm-Steady s s v (Calm-refl s); opened = λ q eq. cc })
    | inr e ↦ simp (e) (
        Returns-bind
          (λ r t. Reserves races r s t × ((id : ℕ) → r ≡ some id → s.session.next_id ≤ id))
          (λ o s'. Opens races o s s') (reserve_id races s) reserved
          (Returns-both (λ r t. Reserves races r s t)
            (λ r t. (id : ℕ) → r ≡ some id → s.session.next_id ≤ id) (reserve_id races s)
            (reserve_id_lem races s keep word) (reserve_id-fresh races s adv))
          λ r t h. reserved_lem races r s t v free h.0 h.1)
  ]
