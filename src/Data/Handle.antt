-- ===== src/Data/Handle.antt =====
-- session_handle_data (mux.c) in a sound session.
use yamux.Common.{
  ℕ, ◌≤◌, ◌<◌, ◌≡◌, ◌⊎◌, refl, sym, ◌∙◌, ap, true, false, Option, none, some, arith, inl, inr,
  length, ◌==◌, if◌then◌else◌, Bool-cases,
}
use yamux.Bio.{Bio, Buffer}
use yamux.Bio.Contents.{contents}
use yamux.Os.{Os}
use yamux.Stailq.{Stailq}
use yamux.Tree.{Tree}
use yamux.Frame.{type_data, hdr_type, hdr_stream_id, has_flag, hdr_flags, flag_syn}
use yamux.State.{Sys, M, Code, success, failure, ◌>>=◌, ◌>>◌, pure, get_session, put_session}
use yamux.State.Rules.{Returns, Returns-bind, Returns-map}
use yamux.State.Calm.{Calm-refl}
use yamux.Send.Calm.{WritesWhole}
use yamux.Sound.{IsSound, target}
use yamux.Streams.{session_find_stream}
use yamux.Streams.Find.{after_find}
use yamux.Incoming.{open_if_syn}
use yamux.Incoming.Safe.{Steady, Calm-Steady, incoming_stream-Steady}
use yamux.Data.Inside.{InLoop, unread, IsSound-InLoop, InLoop-IsSound, InLoop-ended}
use yamux.Data.Ends.{Rest, data_loop_lem}
use yamux.Data.Begin.{Begun, begin_frame_lem, begin_frame_mid}
use yamux.Data.{data_loop, receive_data, begin_frame, session_handle_data}

module _ {W Q T : Type 0} ⦃os : Os W⦄ ⦃sq : Stailq Buffer Q⦄ ⦃tr : Tree T⦄ where
  -- The session goes on: it is sound, has no more unread bytes than before, and fewer if it was
  -- inside a frame and had any.
  pub record Continues (s s' : Sys W Q T) : Type 0 where
    pub sound : IsSound s'
    pub less : unread s' ≤ unread s
    pub progress : s.session.new_frame ≡ false → 0 < unread s → unread s' < unread s

  abbrev pub Handled : Sys W Q T → Code → Sys W Q T → Type 0
  Handled s c s' = (c ≡ failure) ⊎ Continues s s'

  abbrev Received : Sys W Q T → Code → Sys W Q T → Type 0
  Received s c s' =
      (c ≡ failure)
      ⊎ IsSound s'
        × (unread s' ≤ unread s)
        × (0 < s.session.frame_remain → 0 < unread s → unread s' < unread s)

  receive_data_lem :
      (found : Option ℕ) (s : Sys W Q T)
      → InLoop s
      → found ≡ target s
      → Returns (Received s) (receive_data found s)
  unfolding receive_data
  receive_data_lem found s v e =
      Returns-bind (λ c t. (c ≡ failure) ⊎ Rest s t) (Received s)
        (data_loop s.session.frame_remain found s) _
        (data_loop_lem s.session.frame_remain found s (omega arith) v e) λ c t h. ended c t h
    where
      ended :
          (c : Code) (t : Sys W Q T)
          → (c ≡ failure) ⊎ Rest s t
          → Returns (Received s) (
              (elim c as (λ _. M W Q T Code) [
                | failure ↦ pure failure
                | success ↦ do
                  session' ← get_session
                  if session'.frame_remain == 0
                      then put_session (record session' { new_frame = true })
                      else pure tt
                  pure success
              ])
                t)
      ended failure t h = inl refl
      ended success t (inl e) = absurd (ground arith)
      ended success t (inr h) = elim (Bool-cases (t.session.frame_remain == 0)) [
        | inl z ↦ rw (z, Returns) (inr (InLoop-ended t h.loop, h.less, h.progress))
        | inr z ↦ rw (z, Returns) (inr (InLoop-IsSound t h.loop (ground arith), h.less, h.progress))
      ]

  pub open_if_syn-Steady :
      (s : Sys W Q T)
      → WritesWhole os
      → IsSound s
      → s.session.new_frame ≡ true
      → Returns (λ (_ : Code) s'. Steady s s') (open_if_syn s)
  unfolding open_if_syn
  open_if_syn-Steady s whole v new =
      elim (Bool-cases (has_flag (hdr_flags s.session.hdr) flag_syn)) [
        | inl e ↦ rw (e) (incoming_stream-Steady s whole v new)
        | inr e ↦ rw (e, Returns) (Calm-Steady s s v (Calm-refl s))
      ]

  continued :
      (s t : Sys W Q T) (found : Option ℕ) (m : Option Code)
      → found ≡ target t
      → unread t ≡ unread s
      → s.session.new_frame ≡ true
      → (u : Sys W Q T) → Begun t m u
      → Returns
          (Handled s)
          ((elim m as (λ _. M W Q T Code) [ some code ↦ pure code | none ↦ receive_data found ]) u)
  continued s t found m e same new u (inl f) = rw (f, Returns) (inl refl)
  continued s t found m e same new u (inr (inl (f, v, k))) =
      rw (f, Returns)
        (inr (record {
          sound = v;
          less = omega (arith, k, same);
          progress = λ a. absurd (ground arith);
        }))
  continued s t found m e same new u (inr (inr (f, v, k, l))) = rw (f) (
      Returns-map _ _ (receive_data found u) (receive_data_lem found u v (e ∙ sym l)) λ c z h.
        elim h [
          | inl g ↦ inl g
          | inr (z', less, more) ↦ inr (record {
            sound = z';
            less = omega (arith, less, k, same);
            progress = λ a. absurd (ground arith);
          })
        ])

  -- In a sound session with a data frame's header, on a platform that takes a write of four bytes
  -- whole or fails it: session_handle_data returns, and unless it returns -1 the session is sound
  -- again, with no more unread bytes than before and fewer if it was inside a frame and had any.
  pub session_handle_data_lem :
      (s : Sys W Q T)
      → WritesWhole os
      → IsSound s
      → hdr_type s.session.hdr ≡ type_data
      → Returns (Handled s) (session_handle_data s)
  unfolding session_handle_data
  session_handle_data_lem s whole v kind = elim (Bool-cases s.session.new_frame) [
    | inr mid ↦
        let found = target s in
        let inside = IsSound-InLoop s v mid in
        simp (mid) (
          after_find (Handled s) _ (hdr_stream_id s.session.hdr) s v (
            Returns-bind (λ m u. (m ≡ none) × (u ≡ s)) (Handled s) (begin_frame found s) _
              (begin_frame_mid found s mid)
              λ m u (e, same).
                rw (e, same)
                  (Returns-map _ _ (receive_data found s) (receive_data_lem found s inside refl)
                    λ c z h. elim h [
                      | inl g ↦ inl g
                      | inr (z', less, more) ↦ inr (record {
                        sound = z';
                        less = less;
                        progress = λ _. more (v.framed mid).1;
                      })
                    ])))
    | inl new ↦ simp (new) (
        Returns-bind (λ (_ : Code) t. Steady s t) (Handled s) (open_if_syn s) _
          (open_if_syn-Steady s whole v new) λ c t h. opened new c t h)
  ]
    where
      opened :
          s.session.new_frame ≡ true
          → (c : Code) (t : Sys W Q T) → Steady s t
          → Returns (Handled s) (
              (elim c as (λ _. M W Q T Code) [
                | failure ↦ pure failure
                | success ↦ do
                  session' ← get_session
                  found ← session_find_stream (hdr_stream_id session'.hdr)
                  early ← begin_frame found
                  elim early [ some code ↦ pure code | none ↦ receive_data found ]
              ])
                t)
      opened new failure t h = inl refl
      opened new success t h = after_find (Handled s) _ (hdr_stream_id t.session.hdr) t h.sound (
          Returns-bind (Begun t) (Handled s) (begin_frame (target t) t) _
            (begin_frame_lem (target t) t h.sound refl (h.input.new_frame ∙ new)
              (ap hdr_type h.input.hdr ∙ kind))
            λ m u b.
              continued s t (target t) m refl
                (ap (λ (b : Bio Q). length (contents b)) h.input.recv_buf) new u b)
