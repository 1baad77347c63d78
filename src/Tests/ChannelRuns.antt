-- ===== src/Tests/ChannelRuns.antt =====
-- Two linked sessions of mux.c, and what their users do.
use yamux.Common.{
  ℕ, ◌≡◌, refl, subst, ◌∙◌, sym, none, some, List, [], ◌∷◌, arith, if◌then◌else◌, ◌==◌,
}
use yamux.Bio.{Buffer}
use yamux.State.{State, Stream}
use yamux.State.Rules.{Returns}
use yamux.Sound.{IsSound, IsWindowed}
use yamux.Io.{count}
use yamux.Link.{Op, puts, takes, exchange_all}
use yamux.Link.Channel.{Channel, Ends, Quiet, Linked, answers, after_ops}
use yamux.Link.Run.{exchange_all-answers}
use yamux.Tests.Platform.{
  roomy_os, test_stailq, test_tree, TestSys, sample_stream, sample, empty_queue,
}
use yamux.Tests.LinkRuns.{roomy_os-Works, roomy_os-Drains}
use yamux.Tests.StreamRuns.{empty_queue-IsValid}

-- A stream with nothing received, and a window of 1000 both ways.
abbrev linked_stream : Stream (List Buffer)
linked_stream = record sample_stream { recv_buf = empty_queue; recv_window = 1000 }

-- The session with that stream at address 7.
abbrev linked : TestSys
linked = record sample { heap = λ q. if q == 7 then some linked_stream else none }

linked-IsWindowed : IsWindowed linked_stream
linked-IsWindowed = record { buffered = empty_queue-IsValid; promised = omega arith }

linked-IsSound : IsSound linked
linked-IsSound = record {
  found = λ id p e. (linked_stream, ground arith, ground arith);
  fresh = λ p h. ground arith;
  windowed = λ p x e.
      let same : linked_stream ≡ x = ground arith in subst IsWindowed same linked-IsWindowed;
  received = empty_queue-IsValid;
  fits_int = omega arith;
  framed = λ e. cc;
  promised_frame = λ e. cc;
}

linked-Quiet : Quiet linked
linked-Quiet = record {
  sound = linked-IsSound;
  valid = empty_queue-IsValid;
  nothing_queued = refl;
  nothing_unread = refl;
  between = refl;
}

-- One channel, at 7.
abbrev OnlySeven : ℕ → Type 0
OnlySeven q = q ≡ 7

abbrev channels : ℕ → Channel
channels q = record { queue = []; credit = 1000 }

linked-Ends :
    Ends 7 7
      (channels 7)
      (linked.heap 7)
      (linked.heap 7)
      linked.session.streams
      linked.session.streams
linked-Ends = record {
  writer = linked_stream;
  reader = linked_stream;
  sends = refl;
  receives = refl;
  up = refl;
  reader_up = refl;
  padded = omega arith;
  knows = refl;
  same_id = refl;
  id_fits = omega arith;
  agreed = refl;
  credit = refl;
  queue = refl;
}

linked-Linked : Linked OnlySeven (λ q. q) channels linked linked
linked-Linked = record {
  apart = λ q r l m e. l ∙ sym m;
  near = linked-Quiet;
  far = linked-Quiet;
  ends = λ q l.
      subst
        (λ r.
          Ends r r (channels r) (linked.heap r) (linked.heap r) linked.session.streams
            linked.session.streams)
        (sym l) linked-Ends;
}

-- More is read than was written last, and what is left is read later.
abbrev talk : List Op
talk = puts 7 (65 ∷ 66 ∷ 67 ∷ []) ∷ takes 7 2 ∷ puts 7 (68 ∷ []) ∷ takes 7 5 ∷ []

answers-talk :
    answers talk channels
    ≡ count 3 [] ∷ count 2 (65 ∷ 66 ∷ []) ∷ count 1 [] ∷ count 2 (67 ∷ 68 ∷ []) ∷ []
answers-talk = refl

-- The first read has given the whole window back.
after_ops-talk : (after_ops talk channels 7).credit ≡ 262142
after_ops-talk = refl

exchange_all-answers_example :
    Returns
      (λ ios s.
        (ios ≡ answers talk channels) × Linked OnlySeven (λ q. q) (after_ops talk channels) s.0 s.1)
      (exchange_all ⦃os = roomy_os⦄ (λ q. q) talk linked linked)
exchange_all-answers_example =
    exchange_all-answers ⦃os = roomy_os⦄ OnlySeven (λ q. q) talk channels linked linked
      roomy_os-Works roomy_os-Drains linked-Linked
      (
        (refl, omega arith, omega arith),
        (
          (refl, omega arith, omega arith),
          ((refl, omega arith, omega arith), ((refl, omega arith, omega arith), tt)),
        ),
      )

-- A data frame of three bytes for the stream 1.
abbrev frame_hdr : List ℕ
frame_hdr = 0 ∷ 0 ∷ 0 ∷ 0 ∷ 0 ∷ 0 ∷ 0 ∷ 1 ∷ 0 ∷ 0 ∷ 0 ∷ 3 ∷ []

abbrev frame_payload : List ℕ
frame_payload = 65 ∷ 66 ∷ 67 ∷ []

-- The header is cut, one piece is empty, and the payload comes in two pieces.
abbrev frame_pieces : List (List ℕ)
frame_pieces =
    (0 ∷ 0 ∷ 0 ∷ 0 ∷ 0 ∷ []) ∷ (0 ∷ 0 ∷ 1 ∷ 0 ∷ 0 ∷ 0 ∷ 3 ∷ 65 ∷ []) ∷ [] ∷ (66 ∷ 67 ∷ []) ∷ []
