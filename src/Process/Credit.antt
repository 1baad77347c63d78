-- ===== src/Process/Credit.antt =====
-- session_process (mux.c) on a window update.
use yamux.Common.{
  ℕ, ◌+◌, ◌%◌, ◌^◌, ◌<◌, ◌≡◌, ◌≢◌, refl, subst, sym, ◌∙◌, ap, true, some, List, [], arith, length,
  ◌++◌, append-nil, inl, inr, ◌==◌, Bool-cases,
}
use yamux.Bio.{Buffer}
use yamux.Bio.Contents.{contents}
use yamux.Os.{Os}
use yamux.Stailq.{Stailq}
use yamux.Tree.{Tree}
use yamux.Frame.{
  hdr_size, hdr_version, version, type_window_update, hdr_type, hdr_length, hdr_flags,
  hdr_stream_id,
}
use yamux.State.{Stream, Session, Sys, success, failure, pure}
use yamux.State.Rules.{Returns, Returns-bind}
use yamux.State.Calm.{Calm, SameCore, SameCore-refl}
use yamux.Sound.{IsSound}
use yamux.Sound.Keep.{Calm-IsSound}
use yamux.Handlers.{session_handle}
use yamux.Handlers.Dispatch.{session_handle-session_handle_window_update}
use yamux.Handlers.Wake.{Drains, Woken, session_handle_window_update-Woken}
use yamux.Process.{returns, goes_on, returned, session_process}
use yamux.Process.Frame.{parsed, parsed_hdr, parsed_recv_buf, session_process_one}
use yamux.Process.Total.{headed, handled}

module _ {W Q T : Type 0} ⦃os : Os W⦄ where
  -- A stream that is woken keeps what the receiving side relies on.
  pub Woken-Calm :
      (p len : ℕ) (x : Stream Q) (s s' : Sys W Q T)
      → s.heap p ≡ some x
      → Woken p x len s s'
      → Calm s s'
  Woken-Calm p len x s s' live h = record {
    recv_buf = ap (λ (k : Session Q T). k.recv_buf) h.session;
    new_frame = ap (λ (k : Session Q T). k.new_frame) h.session;
    frame_remain = ap (λ (k : Session Q T). k.frame_remain) h.session;
    hdr = ap (λ (k : Session Q T). k.hdr) h.session;
    streams = ap (λ (k : Session Q T). k.streams) h.session;
    next_address = h.next_address;
    heap = λ q. elim (Bool-cases (q == p)) [
      | inl e ↦
          let same : p ≡ q = ground arith in
          subst (λ r. SameCore (s.heap r) (s'.heap r)) same
            (subst (λ o. SameCore o (s'.heap p)) (sym live)
              (subst (SameCore (some x)) (sym h.here) (refl, refl, refl)))
      | inr e ↦
          subst (SameCore (s.heap q)) (sym (h.others q (ground arith))) (SameCore-refl (s.heap q))
    ];
  }

module _ {W Q T : Type 0} ⦃sq : Stailq Buffer Q⦄ ⦃tr : Tree T⦄ where
  -- A window update without flags, for the stream at p.
  pub record Credits (p len : ℕ) (hdr : List ℕ) (s : Sys W Q T) : Type 0 where
    pub long : length hdr ≡ hdr_size
    pub right_version : hdr_version hdr ≡ version
    pub kind : hdr_type hdr ≡ type_window_update
    pub plain : hdr_flags hdr ≡ 0
    pub counted : hdr_length hdr ≡ len
    pub found : tr.find (hdr_stream_id hdr) s.session.streams ≡ some p
    pub more : 0 < len

  -- The stream at p, x before, may send len bytes more; no other stream has changed, and the input
  -- is empty between frames.
  pub record Credited (p len : ℕ) (x : Stream Q) (s s' : Sys W Q T) : Type 0 where
    pub sound : IsSound s'
    pub here :
        s'.heap p
        ≡ some (record x { send_window = (x.send_window + len) % 2 ^ 32; writeable = true })
    pub others : (q : ℕ) → q ≢ p → s'.heap q ≡ s.heap q
    pub empty : contents s'.session.recv_buf ≡ []
    pub between : s'.session.new_frame ≡ true
    pub streams : s'.session.streams ≡ s.session.streams
    pub send_buf : s'.session.send_buf ≡ s.session.send_buf

module _ {W Q T : Type 0} ⦃os : Os W⦄ ⦃sq : Stailq Buffer Q⦄ ⦃tr : Tree T⦄ where
  handled-Credited :
      (p len : ℕ) (x : Stream Q) (hdr : List ℕ) (s : Sys W Q T)
      → Drains os
      → IsSound s
      → s.session.new_frame ≡ true
      → contents s.session.recv_buf ≡ hdr ++ []
      → s.heap p ≡ some x
      → 0 < x.send_padding
      → Credits p len hdr s
      → Returns (λ h t. (h ≡ goes_on) × Credited p len x s t) (handled goes_on (parsed s))
  handled-Credited p len x hdr s drains v start input live pad f =
      let t = parsed s in
      let e = parsed_hdr hdr [] s v input f.long in
      let (sound, fewer, count) = headed s v start in
      let counted = ap hdr_length e ∙ f.counted in
      let kind = ap hdr_type e ∙ f.kind in
      let aim = ap (λ h. tr.find (hdr_stream_id h) s.session.streams) e ∙ f.found in
      Returns-bind (λ c u. (c ≡ success) × Woken p x (hdr_length t.session.hdr) t u)
        (λ h u. (h ≡ goes_on) × Credited p len x s u) (session_handle t)
        (λ code. pure (elim code [ failure ↦ returns failure | success ↦ goes_on ]))
        (subst (Returns (λ c u. (c ≡ success) × Woken p x (hdr_length t.session.hdr) t u))
          (sym (session_handle-session_handle_window_update t kind))
          (session_handle_window_update-Woken p t x drains sound start (ap hdr_flags e ∙ f.plain)
            (omega (arith, counted, f.more)) aim live pad))
        λ c u (ok, d).
          rw (ok, Returns)
            (
              refl,
              record {
                sound = Calm-IsSound t u (Woken-Calm p _ x t u live d) sound;
                here =
                    d.here
                    ∙ ap
                        (λ n. some (record x {
                          send_window = (x.send_window + n) % 2 ^ 32;
                          writeable = true;
                        }))
                        counted;
                others = d.others;
                empty =
                    ap (λ (k : Session Q T). contents k.recv_buf) d.session
                    ∙ parsed_recv_buf hdr [] s v input f.long;
                between = ap (λ (k : Session Q T). k.new_frame) d.session ∙ start;
                streams = ap (λ (k : Session Q T). k.streams) d.session;
                send_buf = ap (λ (k : Session Q T). k.send_buf) d.session;
              },
            )

  pub session_process-Credited :
      (p len : ℕ) (x : Stream Q) (hdr : List ℕ) (s : Sys W Q T)
      → Drains os
      → IsSound s
      → s.session.new_frame ≡ true
      → contents s.session.recv_buf ≡ hdr
      → s.heap p ≡ some x
      → 0 < x.send_padding
      → Credits p len hdr s
      → Returns (λ o t. (o ≡ returned success) × Credited p len x s t) (session_process s)
  session_process-Credited p len x hdr s drains v start input live pad f =
      let whole = input ∙ sym (append-nil hdr) in
      session_process_one (Credited p len x s) s v hdr [] start whole f.long f.right_version
        (handled-Credited p len x hdr s drains v start whole live pad f) λ t a. (a.sound, a.empty)
