-- ===== src/Link/Channel.antt =====
-- What the users of linked streams (mux.c) may rely on: each pair of streams is a queue of bytes,
-- with a credit that says how many more may be written.
use yamux.Common.{
  ℕ, ◌+◌, ◌-◌, ◌^◌, ◌≤◌, ◌<◌, ◌≡◌, ◌≢◌, refl, sym, subst, ◌∙◌, ap, inl, inr, false, Bool-cases,
  Option, none, some, List, [], ◌∷◌, ◌++◌, arith, length, take, drop, drop_all, ltb, ◌/◌, min, ◌==◌,
  if◌then◌else◌, true,
}
use yamux.Bio.{Buffer}
use yamux.Bio.Contents.{contents, IsValid}
use yamux.Stailq.{Stailq}
use yamux.Tree.{Tree}
use yamux.State.{State, Stream, Sys}
use yamux.State.Signals.{Alike}
use yamux.Sound.{IsSound}
use yamux.Send.Queue.{unsent}
use yamux.Io.{Io, count}
use yamux.Os.{Os}
use yamux.Streams.{max_stream_window_size}
use yamux.Sound.Keep.{Calm-IsSound}
use yamux.Link.Carry.{Rest}
use yamux.Link.{Op, puts, takes}

pub record Channel : Type 0 where
  pub queue : List ℕ
  pub credit : ℕ

-- One channel for each stream that is written to.
abbrev set : (ℕ → Channel) → ℕ → Channel → ℕ → Channel
set f q c r = if r == q then c else f r

-- What holds of the channel that is set, and of all others as they were.
pub set_lem :
    (L : ℕ → Type 0) (P : ℕ → Channel → Type 0) (f : ℕ → Channel) (q : ℕ) (c : Channel)
    → P q c
    → ((r : ℕ) → r ≢ q → L r → P r (f r))
    → (r : ℕ) → L r
    → P r (set f q c r)
set_lem L P f q c here others r l = elim (Bool-cases (r == q)) [
  | inl e ↦ let same : q ≡ r = ground arith in rw (e) (subst (λ p. P p c) same here)
  | inr e ↦ rw (e) (others r (ground arith) l)
]

-- What is spare in the window.
abbrev pub spare_of : Channel → ℕ
spare_of c = max_stream_window_size - length c.queue - c.credit

-- Where at least half of the window is spare, the reader offers all of it.
abbrev pub refill : Channel → Channel
refill c =
    if ltb (spare_of c) (max_stream_window_size / 2)
    then c
    else record c { credit = c.credit + spare_of c }

pub refill_little : (c : Channel) → spare_of c < max_stream_window_size / 2 → refill c ≡ c
refill_little c h =
    let e : ltb (spare_of c) (max_stream_window_size / 2) ≡ true = ground arith in rw (e) refl

pub refill_much :
    (c : Channel)
    → max_stream_window_size / 2 ≤ spare_of c
    → refill c ≡ record c { credit = c.credit + spare_of c }
refill_much c h =
    let e : ltb (spare_of c) (max_stream_window_size / 2) ≡ false = ground arith in rw (e) refl

-- Bytes go in at the end and come out at the front.
abbrev pub after_op : Op → (ℕ → Channel) → ℕ → Channel
after_op (puts q bytes) f =
    set f q (record { queue = (f q).queue ++ bytes; credit = (f q).credit - length bytes })
after_op (takes q size) f = set f q (refill (record (f q) { queue = drop size (f q).queue }))

-- A write returns the count; a read returns what it took.
abbrev pub answer : Op → (ℕ → Channel) → Io
answer (puts q bytes) f = count (length bytes) []
answer (takes q size) f = count (min size (length (f q).queue)) (take size (f q).queue)

abbrev pub answers : List Op → (ℕ → Channel) → List Io
answers [] f = []
answers (op ∷ rest) f = answer op f ∷ answers rest (after_op op f)

abbrev pub after_ops : List Op → (ℕ → Channel) → ℕ → Channel
after_ops [] f = f
after_ops (op ∷ rest) f = after_ops rest (after_op op f)

-- A write of at least a byte and of less than the credit; a read for at least a byte where there
-- is one.
abbrev pub Permitted : (ℕ → Type 0) → Op → (ℕ → Channel) → Type 0
Permitted L (puts q bytes) f = L q × (0 < length bytes) × (length bytes < (f q).credit)
Permitted L (takes q size) f = L q × (0 < size) × (0 < length (f q).queue)

abbrev pub AllPermitted : (ℕ → Type 0) → List Op → (ℕ → Channel) → Type 0
AllPermitted L [] f = Unit
AllPermitted L (op ∷ rest) f = Permitted L op f × AllPermitted L rest (after_op op f)

module _ {Q T : Type 0} ⦃sq : Stailq Buffer Q⦄ ⦃tr : Tree T⦄ where
  -- Two established streams, found by the same id, are the ends of a channel.
  pub record Ends (q p : ℕ) (c : Channel) (at_writer at_reader : Option (Stream Q)) (near far : T)
      : Type 0 where
    pub writer : Stream Q
    pub reader : Stream Q
    pub sends : at_writer ≡ some writer
    pub receives : at_reader ≡ some reader
    pub up : writer.state ≡ State.established
    pub reader_up : reader.state ≡ State.established
    pub padded : 0 < writer.send_padding
    pub knows : tr.find writer.id near ≡ some q
    pub same_id : tr.find writer.id far ≡ some p
    pub id_fits : writer.id < 2 ^ 32
    pub agreed : writer.send_window ≡ reader.recv_window
    pub credit : writer.send_window ≡ c.credit
    pub queue : contents reader.recv_buf ≡ c.queue

  -- Readiness does not matter.
  pub Ends-Alike :
      (q p : ℕ) (c : Channel) (at_writer at_reader at_reader' : Option (Stream Q)) (near far : T)
      → Alike at_reader at_reader'
      → Ends q p c at_writer at_reader near far
      → Ends q p c at_writer at_reader' near far
  Ends-Alike q p c at_writer at_reader none near far h e = absurd (ground (arith, h.1, e.receives))
  Ends-Alike q p c at_writer at_reader (some y) near far h e =
      let (core, same) : Alike (some e.reader) (some y) = rw (e.receives) at h in
      record {
        writer = e.writer;
        reader = y;
        sends = e.sends;
        receives = refl;
        up = e.up;
        reader_up = ground (arith, same, e.reader_up);
        padded = e.padded;
        knows = e.knows;
        same_id = e.same_id;
        id_fits = e.id_fits;
        agreed = omega (arith, core.1, e.agreed);
        credit = e.credit;
        queue = ap contents (sym core.2) ∙ e.queue;
      }

  pub Ends-same :
      (q p : ℕ) (c : Channel) (ox ox' oy oy' : Option (Stream Q)) (near near' far far' : T)
      → ox' ≡ ox
      → Alike oy oy'
      → near' ≡ near
      → far' ≡ far
      → Ends q p c ox oy near far
      → Ends q p c ox' oy' near' far'
  Ends-same q p c ox ox' oy oy' near near' far far' ex h en ef e =
      subst (λ o. Ends q p c o oy' near' far') (sym ex)
        (subst (λ t. Ends q p c ox oy' t far') (sym en)
          (subst (λ t. Ends q p c ox oy' near t) (sym ef)
            (Ends-Alike q p c ox oy oy' near far h e)))

module _ {W Q T : Type 0} ⦃sq : Stailq Buffer Q⦄ ⦃tr : Tree T⦄ where
  -- A sound session between two frames, with nothing unread and nothing queued.
  pub record Quiet (s : Sys W Q T) : Type 0 where
    pub sound : IsSound s
    pub valid : IsValid s.session.send_buf
    pub nothing_queued : unsent s ≡ []
    pub nothing_unread : contents s.session.recv_buf ≡ []
    pub between : s.session.new_frame ≡ true

  -- The streams of `a` that are in L are linked with streams of `b`, as the channels say.
  pub record Linked (L : ℕ → Type 0) (links : ℕ → ℕ) (f : ℕ → Channel) (a b : Sys W Q T)
      : Type 0 where
    pub apart : (q r : ℕ) → L q → L r → links q ≡ links r → q ≡ r
    pub near : Quiet a
    pub far : Quiet b
    pub ends :
        (q : ℕ)
        → L q
        → Ends q (links q) (f q) (a.heap q) (b.heap (links q)) a.session.streams b.session.streams

module _ {W Q T : Type 0} ⦃os : Os W⦄ ⦃sq : Stailq Buffer Q⦄ ⦃tr : Tree T⦄ where
  -- All that was queued has been taken.
  pub Rest-Quiet :
      (n : ℕ) (s s' : Sys W Q T)
      → IsSound s
      → contents s.session.recv_buf ≡ []
      → s.session.new_frame ≡ true
      → length (unsent s) ≤ n
      → Rest n s s'
      → Quiet s'
  Rest-Quiet n s s' v empty start all h = record {
    sound = Calm-IsSound s s' h.calm v;
    valid = h.valid;
    nothing_queued = h.left ∙ drop_all n (unsent s) all;
    nothing_unread = ap contents h.calm.recv_buf ∙ empty;
    between = h.calm.new_frame ∙ start;
  }
