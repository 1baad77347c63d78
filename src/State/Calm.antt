-- ===== src/State/Calm.antt =====
-- The steps of mux.c that leave alone what the receiving side relies on: which streams there are,
-- their ids, receive windows and received bytes, the bytes received by the session, and the frame
-- that it is in.
use yamux.Common.{ℕ, ◌≡◌, refl, ◌∙◌, Option, none, some, arith, Bool}
use yamux.Bio.{Bio}
use yamux.State.{Stream, Sys, update}

-- The same stream as far as the receiving side can tell, or none twice.
abbrev pub SameCore : {Q : Type 0} → Option (Stream Q) → Option (Stream Q) → Type 0
SameCore none none = Unit
SameCore none (some b) = ⊥
SameCore (some a) none = ⊥
SameCore (some a) (some b) =
    (a.id ≡ b.id) × (a.recv_window ≡ b.recv_window) × (a.recv_buf ≡ b.recv_buf)

pub SameCore-refl : {Q : Type 0} (a : Option (Stream Q)) → SameCore a a
SameCore-refl none = tt
SameCore-refl (some a) = (refl, refl, refl)

pub SameCore-trans :
    {Q : Type 0} (a b c : Option (Stream Q)) → SameCore a b → SameCore b c → SameCore a c
SameCore-trans none none none h k = tt
SameCore-trans none none (some c) h k = k
SameCore-trans none (some b) c h k = absurd h
SameCore-trans (some a) none c h k = absurd h
SameCore-trans (some a) (some b) none h k = k
SameCore-trans (some a) (some b) (some c) h k = (h.0 ∙ k.0, h.1 ∙ k.1, h.2 ∙ k.2)

module _ {W Q T : Type 0} where
  pub record Calm (s s' : Sys W Q T) : Type 0 where
    pub recv_buf : s'.session.recv_buf ≡ s.session.recv_buf
    pub new_frame : s'.session.new_frame ≡ s.session.new_frame
    pub frame_remain : s'.session.frame_remain ≡ s.session.frame_remain
    pub hdr : s'.session.hdr ≡ s.session.hdr
    pub streams : s'.session.streams ≡ s.session.streams
    pub next_address : s'.next_address ≡ s.next_address
    pub heap : (q : ℕ) → SameCore (s.heap q) (s'.heap q)

  pub Calm-refl : (s : Sys W Q T) → Calm s s
  Calm-refl s = record {
    recv_buf = refl;
    new_frame = refl;
    frame_remain = refl;
    hdr = refl;
    streams = refl;
    next_address = refl;
    heap = λ q. SameCore-refl (s.heap q);
  }

  pub Calm-trans : (s t u : Sys W Q T) → Calm s t → Calm t u → Calm s u
  Calm-trans s t u h k = record {
    recv_buf = k.recv_buf ∙ h.recv_buf;
    new_frame = k.new_frame ∙ h.new_frame;
    frame_remain = k.frame_remain ∙ h.frame_remain;
    hdr = k.hdr ∙ h.hdr;
    streams = k.streams ∙ h.streams;
    next_address = k.next_address ∙ h.next_address;
    heap = λ q. SameCore-trans (s.heap q) (t.heap q) (u.heap q) (h.heap q) (k.heap q);
  }

  -- Changing the world outside.
  pub Calm-world : (s : Sys W Q T) (w : W) → Calm s (record s { world = w })
  Calm-world s w = record {
    recv_buf = refl;
    new_frame = refl;
    frame_remain = refl;
    hdr = refl;
    streams = refl;
    next_address = refl;
    heap = λ q. SameCore-refl (s.heap q);
  }

  -- Storing a stream with the same core.
  pub Calm-store :
      (s : Sys W Q T) (p : ℕ) (x y : Stream Q)
      → s.heap p ≡ some x
      → SameCore (some x) (some y)
      → Calm s (record s { heap = update s.heap p (some y) })
  Calm-store s p x y e h = record {
    recv_buf = refl;
    new_frame = refl;
    frame_remain = refl;
    hdr = refl;
    streams = refl;
    next_address = refl;
    heap = λ q. ground (arith, SameCore-refl (s.heap q));
  }

  -- Both.
  pub Calm-call_store :
      (s : Sys W Q T) (w : W) (p : ℕ) (x y : Stream Q)
      → s.heap p ≡ some x
      → SameCore (some x) (some y)
      → Calm s (record s { heap = update s.heap p (some y); world = w })
  Calm-call_store s w p x y e h = record {
    recv_buf = refl;
    new_frame = refl;
    frame_remain = refl;
    hdr = refl;
    streams = refl;
    next_address = refl;
    heap = (Calm-store s p x y e h).heap;
  }

  -- Changing the fields of the session that the receiving side does not read.
  pub Calm-session :
      (s : Sys W Q T) (local_go_away remote_go_away : Bool) (next_id : ℕ) (send_buf : Bio Q) (w : W)
      → Calm s (record s {
        session = record s.session {
          local_go_away = local_go_away;
          remote_go_away = remote_go_away;
          next_id = next_id;
          send_buf = send_buf;
        };
        world = w;
      })
  Calm-session s l r n b w = record {
    recv_buf = refl;
    new_frame = refl;
    frame_remain = refl;
    hdr = refl;
    streams = refl;
    next_address = refl;
    heap = λ q. SameCore-refl (s.heap q);
  }

  -- A stream that is there stays there.
  pub Calm-live :
      (s s' : Sys W Q T) (p : ℕ) {x : Stream Q}
      → Calm s s'
      → s.heap p ≡ some x
      → (y : Stream Q) × (s'.heap p ≡ some y) × SameCore (some x) (some y)
  Calm-live s s' p {x} h e = go (s'.heap p) refl (rw e at (h.heap p))
    where
      go :
          (o : Option (Stream Q))
          → s'.heap p ≡ o
          → SameCore (some x) o
          → (y : Stream Q) × (s'.heap p ≡ some y) × SameCore (some x) (some y)
      go none e' k = absurd k
      go (some y) e' k = (y, e', k)

  -- The input of the session as it was: the bytes received and the frame they belong to.
  pub record SameInput (s s' : Sys W Q T) : Type 0 where
    pub recv_buf : s'.session.recv_buf ≡ s.session.recv_buf
    pub new_frame : s'.session.new_frame ≡ s.session.new_frame
    pub frame_remain : s'.session.frame_remain ≡ s.session.frame_remain
    pub hdr : s'.session.hdr ≡ s.session.hdr

  pub SameInput-trans : (s t u : Sys W Q T) → SameInput s t → SameInput t u → SameInput s u
  SameInput-trans s t u h k = record {
    recv_buf = k.recv_buf ∙ h.recv_buf;
    new_frame = k.new_frame ∙ h.new_frame;
    frame_remain = k.frame_remain ∙ h.frame_remain;
    hdr = k.hdr ∙ h.hdr;
  }

  pub Calm-SameInput : (s s' : Sys W Q T) → Calm s s' → SameInput s s'
  Calm-SameInput s s' h = record {
    recv_buf = h.recv_buf;
    new_frame = h.new_frame;
    frame_remain = h.frame_remain;
    hdr = h.hdr;
  }
