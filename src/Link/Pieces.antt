-- ===== src/Link/Pieces.antt =====
-- A data frame that the connection cuts into pieces (session_recv_buf_write and session_process of
-- mux.c for each): how much of it has come.
pub mod Header
pub mod Payload
pub mod Feed
use yamux.Common.{
  ℕ, ◌+◌, ◌-◌, ◌^◌, ◌≤◌, ◌<◌, ◌≡◌, ◌≢◌, ◌⊎◌, refl, sym, subst, ◌∙◌, ap, true, false, Option, some,
  List, [], ◌∷◌, ◌++◌, append-nil, append_assoc, arith, inl, inr, length, length-append, take, drop,
  take_all, drop_all, take-append, take-append_le, drop-append_ge, length-take, min, ltb,
  Bool-cases,
}
use yamux.Bio.{Buffer}
use yamux.Bio.Contents.{contents}
use yamux.Os.{Os}
use yamux.Stailq.{Stailq}
use yamux.Tree.{Tree}
use yamux.Frame.{hdr_size, hdr_stream_id}
use yamux.State.{State, Stream, Sys, success}
use yamux.State.Rules.{Returns, Returns-bind, Returns-map}
use yamux.State.Signals.{Alike, Alike-equal, Alike-trans}
use yamux.Sound.{IsSound, target}
use yamux.Data.Inside.{unread}
use yamux.Data.Tells.{Works}
use yamux.Data.Receive.{Delivered}
use yamux.Process.{goes_on, returned, session_process}
use yamux.Process.Frame.{
  parsed, parsed_hdr, parsed_recv_buf, session_process_one, session_process_short,
  session_process_none,
}
use yamux.Process.Deliver.{Framed, Arrived, handled-Delivered}
use yamux.Process.More.{session_process-Delivered}
use yamux.Process.Total.{handled}
use yamux.Buffers.{session_recv_buf_write}
use yamux.Buffers.Input.{Receives}
use yamux.Link.{feed}
use yamux.Link.Carry.{received}

-- What is left of a header and a part of the payload.
pub drop_hdr : (hdr xs : List ℕ) → length hdr ≡ hdr_size → drop hdr_size (hdr ++ xs) ≡ xs
drop_hdr hdr xs long =
    let none_left : hdr_size - length hdr ≡ 0 = omega (arith, long) in
    drop-append_ge hdr_size hdr xs (omega (arith, long)) ∙ ap (λ n. drop n xs) none_left

-- A first part of a frame that has the header.
pub first_part :
    (hdr payload front rest : List ℕ)
    → length hdr ≡ hdr_size
    → front ++ rest ≡ hdr ++ payload
    → hdr_size ≤ length front
    → front ≡ hdr ++ take (length front - hdr_size) payload
first_part hdr payload front rest long e enough =
    let n = length front in
    sym (take-append_le n front rest (omega arith) ∙ take_all n front (omega arith))
    ∙ ap (take n) e
    ∙ take-append n hdr payload
    ∙ ap (λ ys. ys ++ take (n - length hdr) payload) (take_all n hdr (omega (arith, long)))
    ∙ ap (λ k. hdr ++ take (n - k) payload) long

module _ {W Q T : Type 0} ⦃sq : Stailq Buffer Q⦄ ⦃tr : Tree T⦄ (p : ℕ) (b : State) (x : Stream Q)
    (hdr payload : List ℕ) (before : Sys W Q T) where
  -- A first part of the header has come, and nothing has been done.
  pub record Early (front : List ℕ) (s : Sys W Q T) : Type 0 where
    pub sound : IsSound s
    pub few : length front < hdr_size
    pub unparsed : contents s.session.recv_buf ≡ front
    pub between : s.session.new_frame ≡ true
    pub heap : (q : ℕ) → s.heap q ≡ before.heap q
    pub streams : s.session.streams ≡ before.session.streams
    pub send_buf : s.session.send_buf ≡ before.session.send_buf

  -- The header and m bytes of the payload have come, and the stream has them.
  pub record Late (m : ℕ) (s : Sys W Q T) : Type 0 where
    pub sound : IsSound s
    pub stream : Stream Q
    pub here : s.heap p ≡ some stream
    pub appended : contents stream.recv_buf ≡ contents x.recv_buf ++ take m payload
    pub state : stream.state ≡ b
    pub window : stream.recv_window + m ≡ x.recv_window
    pub told : 0 < m → stream.readable ≡ true
    pub empty : contents s.session.recv_buf ≡ []
    pub framing :
        (s.session.new_frame ≡ true) × (m ≡ length payload)
        ⊎ (s.session.new_frame ≡ false)
          × (s.session.hdr ≡ hdr)
          × (s.session.frame_remain + m ≡ length payload)
    pub streams : s.session.streams ≡ before.session.streams
    pub send_buf : s.session.send_buf ≡ before.session.send_buf
    pub others : (q : ℕ) → q ≢ p → Alike (before.heap q) (s.heap q)

  abbrev pub Coming : List ℕ → Sys W Q T → Type 0
  Coming front s = Early front s ⊎ ((m : ℕ) × (hdr_size + m ≡ length front) × Late m s)
