-- ===== src/Streams/New.antt =====
-- A new stream (stream_new and session_insert_stream of mux.c) in a sound session.
use yamux.Common.{ℕ, ◌+◌, ◌≡◌, ◌≢◌, refl, sym, subst, ◌⊎◌, false, none, some, arith, inl, inr}
use yamux.Bio.{Buffer}
use yamux.Stailq.{Stailq}
use yamux.Tree.{Tree}
use yamux.Frame.{hdr_stream_id}
use yamux.State.{Stream, Sys, update}
use yamux.State.Calm.{SameInput}
use yamux.Sound.{IsSound, IsWindowed}
use yamux.Streams.{register, session_insert_stream}

module _ {W Q T : Type 0} ⦃sq : Stailq Buffer Q⦄ ⦃tr : Tree T⦄ where
  -- The state after the stream is registered.
  pub registered : Stream Q → Sys W Q T → Sys W Q T
  registered x s = record s {
    heap = update s.heap s.next_address (some x);
    next_address = s.next_address + 1;
    session = record s.session { streams = (tr.insert x.id s.next_address s.session.streams).1 };
  }

  pub register_lem :
      (x : Stream Q) (s : Sys W Q T)
      → tr.find x.id s.session.streams ≡ none
      → register x s ≡ some (some s.next_address, registered x s)
  unfolding register session_insert_stream registered
  register_lem x s e = ground (arith, tr.insert_new x.id s.next_address s.session.streams e)

  module _ (x : Stream Q) (s : Sys W Q T) (e : tr.find x.id s.session.streams ≡ none) where
    -- The tree finds the new stream under its id, and the others as before.
    pub find-registered :
        (id p : ℕ)
        → tr.find id (registered x s).session.streams ≡ some p
        → ((id ≡ x.id) × (p ≡ s.next_address))
          ⊎ ((id ≢ x.id) × (tr.find id s.session.streams ≡ some p))
    unfolding registered
    find-registered id p f =
        ground (arith, tr.find-insert id x.id s.next_address s.session.streams e)

    -- Memory holds the new stream at the new address, and the others as before.
    heap-registered :
        (p : ℕ) (y : Stream Q)
        → (registered x s).heap p ≡ some y
        → ((p ≡ s.next_address) × (y ≡ x)) ⊎ ((p ≢ s.next_address) × (s.heap p ≡ some y))
    unfolding registered
    heap-registered p y f = ground arith

    pub heap-registered_new : (registered x s).heap s.next_address ≡ some x
    unfolding registered
    heap-registered_new = ground arith

    -- A stream that was there is not at the new address.
    pub heap-registered_old :
        IsSound s
        → (p : ℕ) (y : Stream Q) → s.heap p ≡ some y
        → (p ≢ s.next_address) × ((registered x s).heap p ≡ some y)
    unfolding registered
    heap-registered_old v p y f = ground (arith, v.fresh p)

    found-registered :
        IsSound s
        → (id p : ℕ) → tr.find id (registered x s).session.streams ≡ some p
        → (y : Stream Q) × ((registered x s).heap p ≡ some y) × (y.id ≡ id)
    found-registered v id p f = elim (find-registered id p f) [
      | inl (ei, ep) ↦ (x, rw ep heap-registered_new, sym ei)
      | inr (ne, f') ↦
          let (y, ey, iy) = v.found id p f' in (y, (heap-registered_old v p y ey).1, iy)
    ]

    registered-IsWindowed :
        IsSound s
        → IsWindowed x
        → (p : ℕ) (y : Stream Q) → (registered x s).heap p ≡ some y
        → IsWindowed y
    registered-IsWindowed v w p y f = elim (heap-registered p y f) [
      | inl (ep, ey) ↦ subst IsWindowed (sym ey) w
      | inr (ne, g) ↦ v.windowed p y g
    ]

    pub registered-IsSound :
        IsWindowed x
        → (s.session.new_frame ≡ false → hdr_stream_id s.session.hdr ≢ x.id)
        → IsSound s
        → IsSound (registered x s)
    registered-IsSound w other v = record {
      found = found-registered v;
      fresh = unfold registered in λ p le. ground (arith, v.fresh p);
      windowed = registered-IsWindowed v w;
      received = unfold registered in v.received;
      fits_int = unfold registered in v.fits_int;
      framed = unfold registered in v.framed;
      promised_frame = λ h p y f g. elim (find-registered _ p f) [
        | inl (ei, ep) ↦ absurd (other (unfold registered in h) (unfold registered in ei))
        | inr (ne, f') ↦
            let (y0, ey0, iy) = v.found _ p f' in
            let (ne', g0) = heap-registered_old v p y0 ey0 in
            let same : y0 ≡ y = ground (arith, g0, g) in
            unfold registered in (rw (← same) (v.promised_frame h p y0 f' ey0))
      ];
    }

    pub heap-registered_other : (q : ℕ) → q ≢ s.next_address → (registered x s).heap q ≡ s.heap q
    unfolding registered
    heap-registered_other q other = ground arith

    pub find-registered_other :
        (j : ℕ)
        → j ≢ x.id
        → tr.find j (registered x s).session.streams ≡ tr.find j s.session.streams
    unfolding registered
    find-registered_other j other =
        ground (arith, tr.find-insert j x.id s.next_address s.session.streams e)

    pub registered-session :
        (registered x s).session ≡ record s.session { streams = (registered x s).session.streams }
    unfolding registered
    registered-session = refl

    -- The session goes on from where it was.
    pub SameInput-registered : SameInput s (registered x s)
    unfolding registered
    SameInput-registered = record {
      recv_buf = refl;
      new_frame = refl;
      frame_remain = refl;
      hdr = refl;
    }

    pub find-registered_self : tr.find x.id (registered x s).session.streams ≡ some s.next_address
    unfolding registered
    find-registered_self =
        ground (arith, tr.find-insert x.id x.id s.next_address s.session.streams e)
