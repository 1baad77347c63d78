-- ===== src/Link/Pieces/Header.antt =====
-- A piece that comes before the header of a frame is whole (session_process of mux.c).
use yamux.Common.{
  ℕ, ◌-◌, ◌≤◌, ◌≡◌, sym, subst, ◌∙◌, ap, Option, List, ◌++◌, arith, inl, inr, length, length-append,
  take, take_all, drop_all, length-take, min, ltb, Bool-cases,
}
use yamux.Bio.{Buffer}
use yamux.Bio.Contents.{contents}
use yamux.Os.{Os}
use yamux.Stailq.{Stailq}
use yamux.Tree.{Tree}
use yamux.Frame.{hdr_size, hdr_stream_id}
use yamux.State.{State, Stream, Sys, success}
use yamux.State.Rules.{Returns, Returns-map}
use yamux.State.Signals.{Alike}
use yamux.Data.Inside.{unread}
use yamux.Data.Tells.{Works}
use yamux.Data.Receive.{Delivered}
use yamux.Process.{goes_on, returned, session_process}
use yamux.Process.Frame.{
  parsed, parsed_hdr, parsed_recv_buf, session_process_one, session_process_short,
}
use yamux.Process.Deliver.{Framed, handled-Delivered}
use yamux.Process.Total.{handled}
use yamux.Buffers.Input.{Receives}
use yamux.Link.Pieces.{first_part, Early, Late, Coming}

module _ {W Q T : Type 0} ⦃os : Os W⦄ ⦃sq : Stailq Buffer Q⦄ ⦃tr : Tree T⦄ (p : ℕ) (b : State)
    (x : Stream Q) (hdr payload : List ℕ) (before : Sys W Q T) where
  -- The frame still fits a session in which nothing has been done.
  Framed-Early :
      (front piece : List ℕ) (s t : Sys W Q T)
      → Framed p b x hdr payload before
      → Early p b x hdr payload before front s
      → Receives piece (length piece) s t
      → Framed p b x hdr payload t
  Framed-Early front piece s t f h r = record {
    start = r.frame.0 ∙ h.between;
    long = f.long;
    right_version = f.right_version;
    kind = f.kind;
    counted = f.counted;
    found = ap (tr.find (hdr_stream_id hdr)) (r.frame.3 ∙ h.streams) ∙ f.found;
    here = ap (λ (m : ℕ → Option (Stream Q)). m p) r.heap ∙ h.heap p ∙ f.here;
    plain = f.plain;
    fine = f.fine;
    some_bytes = f.some_bytes;
    fits = f.fits;
  }

  -- The rest of the header has come, and m bytes of the payload.
  Delivered-Late :
      (m : ℕ) (front piece : List ℕ) (s t u : Sys W Q T)
      → Framed p b x hdr payload before
      → Early p b x hdr payload before front s
      → (r : Receives piece (length piece) s t)
      → contents t.session.recv_buf ≡ hdr ++ take m payload
      → m ≤ length payload
      → Delivered p (length payload) b x (parsed t) u
      → Late p b x hdr payload before m u
  Delivered-Late m front piece s t u f h r input le d =
      let body = parsed_recv_buf hdr (take m payload) t r.sound input f.long in
      let count : unread (parsed t) ≡ m =
        omega (arith, ap (length {A = ℕ}) body, length-take m payload, le) in
      let taken : min (length payload) (unread (parsed t)) ≡ m = omega (arith, count, le) in
      record {
        sound = d.sound;
        stream = d.stream;
        here = d.here;
        appended =
            d.appended
            ∙ ap (λ ys. contents x.recv_buf ++ take (min (length payload) (unread (parsed t))) ys)
                body
            ∙ ap (λ k. contents x.recv_buf ++ take k (take m payload)) taken
            ∙ ap (λ ys. contents x.recv_buf ++ ys)
                (take_all m (take m payload) (omega (arith, length-take m payload)));
        state = d.state;
        window = omega (arith, d.window, taken);
        told = λ pos. d.told (omega (arith, taken, pos));
        empty =
            d.left
            ∙ drop_all (min (length payload) (unread (parsed t))) _ (omega (arith, taken, count));
        framing = elim d.framing [
          | inl (start, all) ↦ inl (start, omega (arith, all, count, le))
          | inr (mid, less, remain) ↦ inr (
            mid,
            d.hdr ∙ parsed_hdr hdr (take m payload) t r.sound input f.long,
            omega (arith, remain, count),
          )
        ];
        streams = d.streams ∙ r.frame.3 ∙ h.streams;
        send_buf = d.send_buf ∙ r.send_buf ∙ h.send_buf;
        others = λ q other.
            subst (λ o. Alike o (u.heap q))
              (ap (λ (k : ℕ → Option (Stream Q)). k q) r.heap ∙ h.heap q) (d.others q other);
      }

  pub Early-piece :
      (front piece rest : List ℕ) (s t : Sys W Q T)
      → Works os
      → Framed p b x hdr payload before
      → (front ++ piece) ++ rest ≡ hdr ++ payload
      → Early p b x hdr payload before front s
      → Receives piece (length piece) s t
      → Returns
          (λ o u. (o ≡ returned success) × Coming p b x hdr payload before (front ++ piece) u)
          (session_process t)
  Early-piece front piece rest s t works f e h r =
      let input : contents t.session.recv_buf ≡ front ++ piece =
        r.appended
        ∙ ap (λ ys. contents s.session.recv_buf ++ ys) (take_all (length piece) piece (omega arith))
        ∙ ap (λ ys. ys ++ piece) h.unparsed in
      let count = ap (length {A = ℕ}) input in
      let start = r.frame.0 ∙ h.between in
      elim (Bool-cases (ltb (length (front ++ piece)) hdr_size)) [
        | inl short ↦
            Returns-map (λ o u. (o ≡ returned success) × (u ≡ t)) _ (session_process t)
              (session_process_short t r.sound start (ground (arith, count, short)))
              λ o u (ok, same). (
                ok,
                inl (
                    subst (Early p b x hdr payload before (front ++ piece)) (sym same) (record {
                      sound = r.sound;
                      few = ground (arith, short);
                      unparsed = input;
                      between = start;
                      heap = λ q. ap (λ (m : ℕ → Option (Stream Q)). m q) r.heap ∙ h.heap q;
                      streams = r.frame.3 ∙ h.streams;
                      send_buf = r.send_buf ∙ h.send_buf;
                    })),
              )
        | inr enough ↦
            let m = length (front ++ piece) - hdr_size in
            let there : hdr_size ≤ length (front ++ piece) = ground (arith, enough) in
            let whole = input ∙ first_part hdr payload (front ++ piece) rest f.long e there in
            let le : m ≤ length payload = omega (
              arith,
              ap (length {A = ℕ}) e,
              length-append (front ++ piece) rest,
              length-append hdr payload,
              f.long,
            ) in
            let framed = Framed-Early front piece s t f h r in
            Returns-map (λ o u. (o ≡ returned success) × Late p b x hdr payload before m u) _
              (session_process t)
              (session_process_one (Late p b x hdr payload before m) t r.sound hdr (take m payload)
                start whole f.long f.right_version
                (Returns-map (λ c u. (c ≡ goes_on) × Delivered p (length payload) b x (parsed t) u)
                  _ (handled goes_on (parsed t))
                  (handled-Delivered p b x hdr payload (take m payload) t works r.sound whole
                    framed)
                  λ c u (ok, d). (ok, Delivered-Late m front piece s t u f h r whole le d))
                λ u l. (l.sound, l.empty))
              λ o u (ok, l). (ok, inr (m, omega (arith, there), l))
      ]
