-- ===== src/Process/Deliver.antt =====
-- session_process (mux.c) on a data frame that came whole.
use yamux.Common.{
  ℕ, ◌+◌, ◌≤◌, ◌<◌, ◌≡◌, ◌≢◌, refl, subst, sym, ◌∙◌, ap, true, false, some, List, [], ◌++◌, arith,
  inl, inr, min, length, take, take_all, drop_all,
}
use yamux.Bio.{Buffer}
use yamux.Bio.Contents.{contents}
use yamux.Os.{Os}
use yamux.Stailq.{Stailq}
use yamux.Tree.{Tree}
use yamux.Frame.{
  hdr_size, hdr_version, version, type_data, hdr_type, hdr_length, hdr_flags, hdr_stream_id,
  has_flag, flag_syn,
}
use yamux.State.{State, Stream, Sys, success, failure, pure}
use yamux.State.Rules.{Returns, Returns-bind, Returns-map}
use yamux.State.Signals.{Alike}
use yamux.Sound.{IsSound}
use yamux.Flags.Step.{after_flags}
use yamux.Data.Inside.{unread}
use yamux.Data.Tells.{Works}
use yamux.Data.Receive.{Delivered}
use yamux.Data.Deliver.{Comes, new_frame, session_handle_data-Delivered}
use yamux.Handlers.{session_handle}
use yamux.Handlers.Dispatch.{session_handle-session_handle_data}
use yamux.Process.{returns, goes_on, returned, session_process}
use yamux.Process.Frame.{parsed, parsed_hdr, parsed_recv_buf, session_process_one}
use yamux.Process.Total.{headed, handled}

module _ {W Q T : Type 0} ⦃sq : Stailq Buffer Q⦄ ⦃tr : Tree T⦄ where
  -- A data frame fits the session, between two frames, and its stream at p, x before: no SYN, flags
  -- in order that lead to the state b, and as many bytes as its window allows.
  pub record Framed (p : ℕ) (b : State) (x : Stream Q) (hdr payload : List ℕ) (s : Sys W Q T)
      : Type 0 where
    pub start : s.session.new_frame ≡ true
    pub long : length hdr ≡ hdr_size
    pub right_version : hdr_version hdr ≡ version
    pub kind : hdr_type hdr ≡ type_data
    pub counted : hdr_length hdr ≡ length payload
    pub found : tr.find (hdr_stream_id hdr) s.session.streams ≡ some p
    pub here : s.heap p ≡ some x
    pub plain : has_flag (hdr_flags hdr) flag_syn ≡ false
    pub fine : after_flags (hdr_flags hdr) x.state ≡ (success, b)
    pub some_bytes : 0 < length payload
    pub fits : length payload ≤ x.recv_window

  -- The stream, in the state b, has the payload, its reader has been told, and the input is empty between frames.
  pub record Arrived (p : ℕ) (b : State) (x : Stream Q) (payload : List ℕ) (s s' : Sys W Q T)
      : Type 0 where
    pub sound : IsSound s'
    pub stream : Stream Q
    pub here : s'.heap p ≡ some stream
    pub appended : contents stream.recv_buf ≡ contents x.recv_buf ++ payload
    pub state : stream.state ≡ b
    pub window : stream.recv_window + length payload ≡ x.recv_window
    pub told : stream.readable ≡ true
    pub empty : contents s'.session.recv_buf ≡ []
    pub between : s'.session.new_frame ≡ true
    pub streams : s'.session.streams ≡ s.session.streams
    pub send_buf : s'.session.send_buf ≡ s.session.send_buf
    pub others : (q : ℕ) → q ≢ p → Alike (s.heap q) (s'.heap q)

  Delivered-Arrived :
      (p total : ℕ) (b : State) (x : Stream Q) (payload : List ℕ) (s t s' : Sys W Q T)
      → contents t.session.recv_buf ≡ payload
      → total ≡ length payload
      → 0 < length payload
      → t.session.streams ≡ s.session.streams
      → t.session.send_buf ≡ s.session.send_buf
      → ((q : ℕ) → t.heap q ≡ s.heap q)
      → Delivered p total b x t s'
      → Arrived p b x payload s s'
  Delivered-Arrived p total b x payload s t s' input count pos same queue heap d =
      let n : min total (unread t) ≡ length payload =
        omega (arith, count, ap (length {A = ℕ}) input) in
      record {
        sound = d.sound;
        stream = d.stream;
        here = d.here;
        appended =
            d.appended
            ∙ ap (λ k. contents x.recv_buf ++ take k (contents t.session.recv_buf)) n
            ∙ ap (λ ys. contents x.recv_buf ++ take (length payload) ys) input
            ∙ ap (λ ys. contents x.recv_buf ++ ys)
                (take_all (length payload) payload (omega arith));
        state = d.state;
        window = omega (arith, d.window, n);
        told = d.told (omega (arith, n));
        empty =
            d.left
            ∙ drop_all (min total (unread t)) (contents t.session.recv_buf)
                (omega (arith, n, ap (length {A = ℕ}) input));
        between = elim d.framing [
          | inl (e, _) ↦ e
          | inr (_, less, _) ↦ absurd (omega (arith, n, ap (length {A = ℕ}) input))
        ];
        streams = d.streams ∙ same;
        send_buf = d.send_buf ∙ queue;
        others = λ q other. subst (λ o. Alike o (s'.heap q)) (heap q) (d.others q other);
      }

module _ {W Q T : Type 0} ⦃os : Os W⦄ ⦃sq : Stailq Buffer Q⦄ ⦃tr : Tree T⦄ where
  -- The header has come, and a first part of the payload.
  pub handled-Delivered :
      (p : ℕ) (b : State) (x : Stream Q) (hdr payload part : List ℕ) (s : Sys W Q T)
      → Works os
      → IsSound s
      → contents s.session.recv_buf ≡ hdr ++ part
      → Framed p b x hdr payload s
      → Returns
          (λ h t. (h ≡ goes_on) × Delivered p (length payload) b x (parsed s) t)
          (handled goes_on (parsed s))
  handled-Delivered p b x hdr payload part s works v input f =
      let t = parsed s in
      let e = parsed_hdr hdr part s v input f.long in
      let (sound, fewer, count) = headed s v f.start in
      let counted = ap hdr_length e ∙ f.counted in
      let fine = ap (λ h. after_flags (hdr_flags h) x.state) e ∙ f.fine in
      let comes : Comes x t b (hdr_length t.session.hdr) =
        subst (λ c. Comes x t c (hdr_length t.session.hdr)) (ap (λ r. r.1) fine)
          (new_frame f.start (ap (λ h. has_flag (hdr_flags h) flag_syn) e ∙ f.plain)
            (ap (λ r. r.0) fine) (omega (arith, counted, f.some_bytes))
            (omega (arith, counted, f.fits))) in
      let kind = ap hdr_type e ∙ f.kind in
      let aim = ap (λ h. tr.find (hdr_stream_id h) s.session.streams) e ∙ f.found in
      Returns-bind (λ c u. (c ≡ success) × Delivered p (hdr_length t.session.hdr) b x t u)
        (λ h u. (h ≡ goes_on) × Delivered p (length payload) b x t u) (session_handle t)
        (λ code. pure (elim code [ failure ↦ returns failure | success ↦ goes_on ]))
        (subst (Returns (λ c u. (c ≡ success) × Delivered p (hdr_length t.session.hdr) b x t u))
          (sym (session_handle-session_handle_data t kind))
          (session_handle_data-Delivered p x t b (hdr_length t.session.hdr) works sound kind aim
            f.here comes))
        λ c u (ok, d). rw (ok, Returns) (refl, subst (λ n. Delivered p n b x t u) counted d)

  pub session_process-Arrived :
      (p : ℕ) (b : State) (x : Stream Q) (hdr payload : List ℕ) (s : Sys W Q T)
      → Works os
      → IsSound s
      → contents s.session.recv_buf ≡ hdr ++ payload
      → Framed p b x hdr payload s
      → Returns (λ o t. (o ≡ returned success) × Arrived p b x payload s t) (session_process s)
  session_process-Arrived p b x hdr payload s works v input f =
      session_process_one (Arrived p b x payload s) s v hdr payload f.start input f.long
        f.right_version
        (Returns-map (λ h t. (h ≡ goes_on) × Delivered p (length payload) b x (parsed s) t)
          (λ h t. (h ≡ goes_on) × Arrived p b x payload s t) (handled goes_on (parsed s))
          (handled-Delivered p b x hdr payload payload s works v input f)
          λ h t (e, d). (
            e,
            Delivered-Arrived p (length payload) b x payload s (parsed s) t
                (parsed_recv_buf hdr payload s v input f.long) refl f.some_bytes refl refl
                (λ q. refl) d,
          ))
        λ t a. (a.sound, a.empty)
