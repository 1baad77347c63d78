-- ===== src/Data/Inside.antt =====
-- A session inside a data frame (session_handle_data of mux.c).
use yamux.Common.{
  ℕ, ◌^◌, ◌≤◌, ◌<◌, ◌≡◌, refl, ap, true, false, Option, none, some, List, arith, length,
  length-append,
}
use yamux.Bio.{Buffer}
use yamux.Bio.Contents.{contents, IsValid}
use yamux.Stailq.{Stailq}
use yamux.Tree.{Tree}
use yamux.Frame.{type_data, hdr_type}
use yamux.State.{Stream, Sys}
use yamux.State.Calm.{SameCore}
use yamux.Sound.{IsWindowed, IsSound, target}
use yamux.Data.Feed.{Fed}

pub same_live :
    {Q : Type 0} (a b : Option (Stream Q)) (x : Stream Q)
    → SameCore a b
    → a ≡ some x
    → (y : Stream Q) × (b ≡ some y) × SameCore (some x) (some y)
same_live none b x h e = absurd (ground arith)
same_live (some a) none x h e = absurd h
same_live (some a) (some b) x h e = let z : a ≡ x = ground arith in (b, refl, rw (z) at h)

pub same_was :
    {Q : Type 0} (a b : Option (Stream Q)) (y : Stream Q)
    → SameCore a b
    → b ≡ some y
    → (x : Stream Q) × (a ≡ some x) × SameCore (some x) (some y)
same_was a none y h e = absurd (ground arith)
same_was none (some b) y h e = absurd h
same_was (some a) (some b) y h e = let z : b ≡ y = ground arith in (a, refl, rw (z) at h)

pub same_none : {Q : Type 0} (a b : Option (Stream Q)) → SameCore a b → a ≡ none → b ≡ none
same_none none none h e = refl
same_none none (some b) h e = absurd h
same_none (some a) b h e = absurd (ground arith)

pub one_value : {A : Type 0} (o : Option A) (a b : A) → o ≡ some a → o ≡ some b → a ≡ b
one_value o a b e k = ground arith

-- The stream has room for the bytes that are still promised to it.
pub Fed-IsWindowed :
    {W Q T : Type 0} ⦃sq : Stailq Buffer Q⦄ (p : ℕ) (x : Stream Q) (bytes : List ℕ)
    (s t : Sys W Q T)
    → IsWindowed x
    → (h : Fed p x bytes s t) → IsWindowed h.stream
Fed-IsWindowed p x bytes s t w h = record {
  buffered = h.valid;
  promised = omega (
    arith,
    h.window,
    w.promised,
    ap (length {A = ℕ}) h.appended,
    length-append (contents x.recv_buf) bytes,
  );
}

module _ {W Q T : Type 0} ⦃sq : Stailq Buffer Q⦄ ⦃tr : Tree T⦄ where
  -- How many bytes of the peer wait to be parsed.
  abbrev pub unread : Sys W Q T → ℕ
  unread s = length (contents s.session.recv_buf)

  -- A sound session inside a data frame, of which nothing may be left.
  pub record InLoop (s : Sys W Q T) : Type 0 where
    pub found :
        (id p : ℕ)
        → tr.find id s.session.streams ≡ some p
        → (x : Stream Q) × (s.heap p ≡ some x) × (x.id ≡ id)
    pub fresh : (p : ℕ) → s.next_address ≤ p → s.heap p ≡ none
    pub windowed : (p : ℕ) (x : Stream Q) → s.heap p ≡ some x → IsWindowed x
    pub received : IsValid s.session.recv_buf
    pub fits_int : unread s < 2 ^ 31
    pub mid : s.session.new_frame ≡ false
    pub kind : hdr_type s.session.hdr ≡ type_data
    pub bound : s.session.frame_remain < 2 ^ 32
    pub promised :
        (p : ℕ) (x : Stream Q)
        → target s ≡ some p
        → s.heap p ≡ some x
        → s.session.frame_remain ≤ x.recv_window

  pub IsSound-InLoop : (s : Sys W Q T) → IsSound s → s.session.new_frame ≡ false → InLoop s
  IsSound-InLoop s v e = record {
    found = v.found;
    fresh = v.fresh;
    windowed = v.windowed;
    received = v.received;
    fits_int = v.fits_int;
    mid = e;
    kind = (v.framed e).0;
    bound = (v.framed e).2;
    promised = v.promised_frame e;
  }

  -- The loop has stopped inside the frame.
  pub InLoop-IsSound : (s : Sys W Q T) → InLoop s → 0 < s.session.frame_remain → IsSound s
  InLoop-IsSound s v pos = record {
    found = v.found;
    fresh = v.fresh;
    windowed = v.windowed;
    received = v.received;
    fits_int = v.fits_int;
    framed = λ _. (v.kind, pos, v.bound);
    promised_frame = λ _. v.promised;
  }

  -- The frame has ended.
  pub InLoop-ended :
      (s : Sys W Q T)
      → InLoop s
      → IsSound (record s { session = record s.session { new_frame = true } })
  InLoop-ended s v = record {
    found = v.found;
    fresh = v.fresh;
    windowed = v.windowed;
    received = v.received;
    fits_int = v.fits_int;
    framed = λ e. ground arith;
    promised_frame = λ e. ground arith;
  }
