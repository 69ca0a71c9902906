-- ===== src/Client/Closing.antt =====
-- `close` and `sendMessage` of lib/net_client.cpp, on every branch.
use tcpserver_cpp_libuv_samp.World.Steps.{set_at_self, bind_step}
use tcpserver_cpp_libuv_samp.Base.{
  ℕ, ◌≡◌, refl, ap, ◌∙◌, Bool, true, false, [], ◌∷◌, ◌++◌, Option, none, some, Bool-cases, inl, inr,
  if◌then◌else◌,
}
use tcpserver_cpp_libuv_samp.Base.Int.{is_zero}
use tcpserver_cpp_libuv_samp.Base.Outcome.{Outcome, ok, fault, Fault}
use tcpserver_cpp_libuv_samp.Message.{Message, serialize}
use tcpserver_cpp_libuv_samp.World.{
  closing, closed, sending, Client, uv_is_closing, uv_close, uv_write, delete_handle, Uv, World,
  set_at,
}
use tcpserver_cpp_libuv_samp.App.{closed_app, dropped_app, connection_closed}
use tcpserver_cpp_libuv_samp.App.Dropped.{destroyed, destroyed-IsSpared, destroy_all-destroyed}
use tcpserver_cpp_libuv_samp.Client.{is_shut, on_close, close_stream, close, send_message}

-- A connection that is given up: no stream, and a state that refuses messages.
pub record IsGivenUp (i : ℕ) (v : World) : Type 0 where
  pub no_stream : (v.client i).stream ≡ none
  pub shut : is_shut (v.client i).state ≡ true

module _ (uv : Uv) (i : ℕ) where
  -- The world behind the first write of `close`, and behind that of the stream.
  abbrev pub marked : World → World
  marked w = record w { client = set_at w.client i (record (w.client i) { state = closing }) }

  abbrev pub unhooked : World → World
  unhooked w = record w { client = set_at w.client i (record (w.client i) { stream = none }) }

  -- The two ways to give up a stream: libuv is asked to close it, or it is closing already and the
  -- application is told at once.
  abbrev pub asked : ℕ → World → World
  asked handle w = record (unhooked w) { trace = uv_close handle ∷ uv_is_closing handle ∷ w.trace }

  abbrev pub told : ℕ → World → World
  told handle w =
      let u = unhooked w in
      let d =
        destroyed (dropped_app u.client i w.app) (record u {
          app = closed_app u.client i w.app;
          trace = uv_is_closing handle ∷ w.trace;
        }) in
      record d {
        client = set_at d.client i (record (d.client i) { state = closed });
        trace = delete_handle handle ∷ d.trace;
      }

  -- What `close` leaves, from the stream that it finds.
  unfoldable pub given_up : Option ℕ → World → World
  given_up none w = w
  given_up (some handle) w =
      if is_zero (uv.result w.trace (uv_is_closing handle)) then asked handle w else told handle w

  on_close-ends :
      (handle : ℕ) (w : World)
      → on_close uv i handle (record (unhooked w) { trace = uv_is_closing handle ∷ w.trace })
        ≡ ok (tt, told handle w)
  unfolding on_close connection_closed
  on_close-ends handle w =
      let v = record (unhooked w) { trace = uv_is_closing handle ∷ w.trace } in
      bind_step (connection_closed uv i) _ v (destroy_all-destroyed uv _ _)

  close_stream-given_up : (o : Option ℕ) (w : World) → close_stream uv i o w ≡ ok (tt, given_up o w)
  unfolding close_stream given_up
  close_stream-given_up none w = refl
  close_stream-given_up (some handle) w =
      elim (Bool-cases (is_zero (uv.result w.trace (uv_is_closing handle)))) [
        | inl e ↦ rw e
        | inr e ↦ rw e (on_close-ends handle w)
      ]

  pub close-given_up : (w : World) → close uv i w ≡ ok (tt, given_up (w.client i).stream (marked w))
  unfolding close
  close-given_up w =
      ap (λ (c : Client). close_stream uv i c.stream (marked w)) (set_at_self w.client i _)
      ∙ close_stream-given_up (w.client i).stream (marked w)

  told-IsGivenUp : (handle : ℕ) (w : World) → IsGivenUp i (told handle w)
  unfolding is_shut
  told-IsGivenUp handle w =
      let u = unhooked w in
      let v = record u {
        app = closed_app u.client i w.app;
        trace = uv_is_closing handle ∷ w.trace;
      } in
      let js = dropped_app u.client i w.app in
      let d = destroyed js v in
      record {
        no_stream =
            ap (λ (c : Client). c.stream) (set_at_self d.client i _)
            ∙ (destroyed-IsSpared js v).streams i
            ∙ ap (λ (c : Client). c.stream) (set_at_self w.client i _);
        shut = ap (λ (c : Client). is_shut c.state) (set_at_self d.client i _);
      }

  given_up-IsGivenUp :
      (o : Option ℕ) (w : World)
      → is_shut (w.client i).state ≡ true
      → (w.client i).stream ≡ o
      → IsGivenUp i (given_up o w)
  unfolding given_up is_shut
  given_up-IsGivenUp none w shut e = record { no_stream = e; shut = shut }
  given_up-IsGivenUp (some handle) w shut e =
      elim (Bool-cases (is_zero (uv.result w.trace (uv_is_closing handle)))) [
        | inl z ↦ rw z (record {
          no_stream = rw (set_at_self w.client i _);
          shut = rw (set_at_self w.client i _) shut;
        })
        | inr z ↦ rw z (told-IsGivenUp handle w)
      ]

  pub close-IsGivenUp : (w : World) → IsGivenUp i (given_up (w.client i).stream (marked w))
  unfolding is_shut
  close-IsGivenUp w =
      given_up-IsGivenUp (w.client i).stream (marked w) (rw (set_at_self w.client i _))
        (rw (set_at_self w.client i _))

  -- `close` never faults; it leaves no stream and a state that refuses messages. A second `close`
  -- and a later `sendMessage` do not fault either, make no call into libuv, and change nothing of
  -- the application.
  pub close_final :
      (w : World) (m : Message)
      → (v : World) × (u : World) × (close uv i w ≡ ok (tt, v))
        × IsGivenUp i v
        × (close uv i v ≡ ok (tt, u))
        × (u.trace ≡ v.trace)
        × (u.app ≡ v.app)
        × (send_message uv i m v ≡ ok (tt, v))
  unfolding send_message given_up
  close_final w m =
      let v = given_up (w.client i).stream (marked w) in
      let gone = close-IsGivenUp w in
      (
        v,
        marked v,
        close-given_up w,
        gone,
        close-given_up v ∙ ap (λ o. ok (tt, given_up o (marked v))) gone.no_stream,
        refl,
        refl,
        rw gone.shut,
      )

  -- The world in which libuv has taken the write of a message and its terminator.
  abbrev pub sent_world : ℕ → Message → World → World
  sent_world handle m w = record w {
    client = set_at w.client i (record (w.client i) { state = sending });
    trace = uv_write handle (serialize m ++ (b'\n' ∷ [])) ∷ w.trace;
  }

  -- The outcome of `sendMessage` by its three guards: a connection that is closing is left alone; a
  -- null stream is a fault; a refused write closes the connection.
  unfoldable pub send_outcome : Bool → Option ℕ → Message → World → Outcome (Unit {0} × World)
  send_outcome true o m w = ok (tt, w)
  send_outcome false none m w = fault Fault.null_pointer
  send_outcome false (some handle) m w =
      if is_zero (uv.result w.trace (uv_write handle (serialize m ++ (b'\n' ∷ []))))
      then ok (tt, sent_world handle m w)
      else close uv i (sent_world handle m w)

  pub send_message-send_outcome :
      (m : Message) (w : World)
      → send_message uv i m w ≡ send_outcome (is_shut (w.client i).state) (w.client i).stream m w
  unfolding send_message send_outcome
  send_message-send_outcome m w = go (is_shut (w.client i).state) refl (w.client i).stream refl
    where
      go :
          (b : Bool)
          → is_shut (w.client i).state ≡ b
          → (o : Option ℕ) → (w.client i).stream ≡ o
          → send_message uv i m w ≡ send_outcome b o m w
      go true e o p = rw e
      go false e none p = rw (e, p)
      go false e (some handle) p =
          let res = uv.result w.trace (uv_write handle (serialize m ++ (b'\n' ∷ []))) in
          rw (e, p) (elim (Bool-cases (is_zero res)) [ inl z ↦ rw z | inr z ↦ rw z ])

  -- The branch of a write that libuv takes.
  pub send_message-sent :
      (handle : ℕ) (m : Message) (w : World)
      → is_shut (w.client i).state ≡ false
      → (w.client i).stream ≡ some handle
      → is_zero (uv.result w.trace (uv_write handle (serialize m ++ (b'\n' ∷ [])))) ≡ true
      → send_message uv i m w ≡ ok (tt, sent_world handle m w)
  unfolding send_outcome
  send_message-sent handle m w open_state hooked good =
      send_message-send_outcome m w
      ∙ ap (λ b. send_outcome b (w.client i).stream m w) open_state
      ∙ ap (λ o. send_outcome false o m w) hooked
      ∙ ap (λ b. if b then ok (tt, sent_world handle m w) else close uv i (sent_world handle m w))
          good
