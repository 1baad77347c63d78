-- ===== src/Link/Pieces/Payload.antt =====
-- A piece that comes after the header of a frame (session_process of mux.c).
use yamux.Common.{
  ℕ, ◌+◌, ◌-◌, ◌≤◌, ◌<◌, ◌≡◌, sym, subst, ◌∙◌, ap, Option, some, List, [], ◌∷◌, ◌++◌, append-nil,
  append_assoc, arith, inl, inr, length, length-append, take, drop, take_all, drop_all, min,
}
use yamux.Bio.{Buffer}
use yamux.Bio.Contents.{contents}
use yamux.Os.{Os}
use yamux.Stailq.{Stailq}
use yamux.Tree.{Tree}
use yamux.Frame.{hdr_size, hdr_stream_id}
use yamux.State.{State, Stream, Sys, success}
use yamux.State.Rules.{Returns, Returns-map}
use yamux.State.Signals.{Alike, Alike-equal, Alike-trans}
use yamux.Sound.{target}
use yamux.Data.Inside.{unread}
use yamux.Data.Tells.{Works}
use yamux.Data.Receive.{Delivered}
use yamux.Process.{returned, session_process}
use yamux.Process.Frame.{session_process_none}
use yamux.Process.Deliver.{Framed}
use yamux.Process.More.{session_process-Delivered}
use yamux.Buffers.Input.{Receives}
use yamux.Link.Pieces.{drop_hdr, first_part, Late, Coming}

module _ {W Q T : Type 0} ⦃os : Os W⦄ ⦃sq : Stailq Buffer Q⦄ ⦃tr : Tree T⦄ (p : ℕ) (b : State)
    (x : Stream Q) (hdr payload : List ℕ) (before : Sys W Q T) where
  -- What a piece adds to the first m bytes of the payload.
  next_part :
      (m : ℕ) (front piece rest : List ℕ)
      → length hdr ≡ hdr_size
      → (front ++ piece) ++ rest ≡ hdr ++ payload
      → hdr_size + m ≡ length front
      → take (m + length piece) payload ≡ take m payload ++ piece
  next_part m front piece rest long e count =
      let sum = length-append front piece in
      let old : length front - hdr_size ≡ m = omega (arith, count) in
      let more : length (front ++ piece) - hdr_size ≡ m + length piece =
        omega (arith, count, sum) in
      let was : front ≡ hdr ++ take m payload =
        first_part hdr payload front (piece ++ rest) long (sym (append_assoc front piece rest) ∙ e)
          (omega (arith, count))
        ∙ ap (λ k. hdr ++ take k payload) old in
      let is : front ++ piece ≡ hdr ++ take (m + length piece) payload =
        first_part hdr payload (front ++ piece) rest long e (omega (arith, count, sum))
        ∙ ap (λ k. hdr ++ take k payload) more in
      sym (drop_hdr hdr (take (m + length piece) payload) long)
      ∙ ap (drop hdr_size)
          (sym is ∙ ap (λ ys. ys ++ piece) was ∙ append_assoc hdr (take m payload) piece)
      ∙ drop_hdr hdr (take m payload ++ piece) long

  -- Nothing has come.
  Late-same :
      (m : ℕ) (s t : Sys W Q T)
      → Late p b x hdr payload before m s
      → Receives [] 0 s t
      → Late p b x hdr payload before m t
  Late-same m s t l r = record {
    sound = r.sound;
    stream = l.stream;
    here = ap (λ (h : ℕ → Option (Stream Q)). h p) r.heap ∙ l.here;
    appended = l.appended;
    state = l.state;
    window = l.window;
    told = l.told;
    empty = r.appended ∙ append-nil (contents s.session.recv_buf) ∙ l.empty;
    framing = elim l.framing [
      | inl (start, all) ↦ inl (r.frame.0 ∙ start, all)
      | inr (mid, same, remain) ↦
          inr (r.frame.0 ∙ mid, r.frame.2 ∙ same, ap (λ n. n + m) r.frame.1 ∙ remain)
    ];
    streams = r.frame.3 ∙ l.streams;
    send_buf = r.send_buf ∙ l.send_buf;
    others = λ q other.
        Alike-trans (before.heap q) (s.heap q) (t.heap q) (l.others q other)
          (Alike-equal (s.heap q) (t.heap q) (ap (λ (h : ℕ → Option (Stream Q)). h q) r.heap));
  }

  -- A piece of the payload has come.
  Late-Delivered :
      (m : ℕ) (piece : List ℕ) (s t u : Sys W Q T) (l : Late p b x hdr payload before m s)
      → Receives piece (length piece) s t
      → contents t.session.recv_buf ≡ piece
      → s.session.hdr ≡ hdr
      → s.session.frame_remain + m ≡ length payload
      → 0 < length piece
      → m + length piece ≤ length payload
      → take (m + length piece) payload ≡ take m payload ++ piece
      → Delivered p t.session.frame_remain l.stream.state l.stream t u
      → Late p b x hdr payload before (m + length piece) u
  Late-Delivered m piece s t u l r input same remain pos le part d =
      let n = min t.session.frame_remain (unread t) in
      let count : unread t ≡ length piece = ap (length {A = ℕ}) input in
      let taken : n ≡ length piece = omega (arith, count, le, remain, r.frame.1) in
      record {
        sound = d.sound;
        stream = d.stream;
        here = d.here;
        appended =
            d.appended
            ∙ ap (λ ys. contents l.stream.recv_buf ++ take n ys) input
            ∙ ap (λ ys. contents l.stream.recv_buf ++ ys) (take_all n piece (omega (arith, taken)))
            ∙ ap (λ ys. ys ++ piece) l.appended
            ∙ append_assoc (contents x.recv_buf) (take m payload) piece
            ∙ ap (λ ys. contents x.recv_buf ++ ys) (sym part);
        state = d.state ∙ l.state;
        window = omega (arith, d.window, taken, l.window);
        told = λ more. d.told (omega (arith, taken, pos));
        empty = d.left ∙ drop_all n (contents t.session.recv_buf) (omega (arith, taken, count));
        framing = elim d.framing [
          | inl (start, all) ↦ inl (start, omega (arith, all, count, remain, r.frame.1, le))
          | inr (mid, less, left) ↦
              inr (mid, d.hdr ∙ r.frame.2 ∙ same, omega (arith, left, count, remain, r.frame.1))
        ];
        streams = d.streams ∙ r.frame.3 ∙ l.streams;
        send_buf = d.send_buf ∙ r.send_buf ∙ l.send_buf;
        others = λ q other. Alike-trans (before.heap q) (s.heap q) (u.heap q) (l.others q other) (
            subst (λ o. Alike o (u.heap q)) (ap (λ (k : ℕ → Option (Stream Q)). k q) r.heap)
              (d.others q other));
      }

  pub Late-piece :
      (m : ℕ) (front piece rest : List ℕ) (s t : Sys W Q T)
      → Works os
      → Framed p b x hdr payload before
      → (front ++ piece) ++ rest ≡ hdr ++ payload
      → hdr_size + m ≡ length front
      → Late p b x hdr payload before m s
      → Receives piece (length piece) s t
      → Returns
          (λ o u. (o ≡ returned success) × Coming p b x hdr payload before (front ++ piece) u)
          (session_process t)
  Late-piece m front [] rest s t works f e count l r =
      let h = Late-same m s t l r in
      Returns-map (λ o u. (o ≡ returned success) × (u ≡ t)) _ (session_process t)
        (session_process_none t r.sound h.empty)
        λ o u (ok, same). (
          ok,
          inr (
            m,
            omega (arith, count, length-append front []),
            subst (Late p b x hdr payload before m) (sym same) h,
          ),
        )
  Late-piece m front (c ∷ cs) rest s t works f e count l r =
      let piece = c ∷ cs in
      let sum = length-append front piece in
      let total : m + length piece ≤ length payload = omega (
        arith,
        count,
        sum,
        ap (length {A = ℕ}) e,
        length-append (front ++ piece) rest,
        length-append hdr payload,
        f.long,
      ) in
      let input : contents t.session.recv_buf ≡ piece =
        r.appended
        ∙ ap (λ ys. ys ++ take (length piece) piece) l.empty
        ∙ take_all (length piece) piece (omega arith) in
      let came : unread t ≡ length piece = ap (length {A = ℕ}) input in
      elim l.framing [
        | inl (start, all) ↦ absurd (omega (arith, all, total))
        | inr (mid, same, remain) ↦
            let aim : target t ≡ some p =
              ap (λ h. tr.find (hdr_stream_id h) t.session.streams) (r.frame.2 ∙ same)
              ∙ ap (tr.find (hdr_stream_id hdr)) (r.frame.3 ∙ l.streams)
              ∙ f.found in
            Returns-map
              (λ o u.
                (o ≡ returned success)
                × Delivered p t.session.frame_remain l.stream.state l.stream t u)
              _ (session_process t)
              (session_process-Delivered p l.stream t works r.sound (r.frame.0 ∙ mid) aim
                (ap (λ (h : ℕ → Option (Stream Q)). h p) r.heap ∙ l.here) (omega (arith, came))
                (omega (arith, came, total, remain, r.frame.1)))
              λ o u (ok, d). (
                ok,
                inr (
                  m + length piece,
                  omega (arith, count, sum),
                  Late-Delivered m piece s t u l r input same remain (omega arith) total
                      (next_part m front piece rest f.long e count) d,
                ),
              )
      ]
