-- ===== src/Kept/Safe.antt =====
-- The operations of a connection (lib/net_client.cpp), and the handles that connections hold.
use tcpserver_cpp_libuv_samp.World.Steps.{set_at_self}
use tcpserver_cpp_libuv_samp.Base.{
  ℕ, suc, ◌≡◌, refl, ap, ◌++◌, ◌==◌, Bool, true, false, List, [], ◌∷◌, Option, none, some, Bytes,
  Bool-cases, inl, inr, arith, if◌then◌else◌,
}
use tcpserver_cpp_libuv_samp.Base.Int.{ℤ, is_zero, is_negative}
use tcpserver_cpp_libuv_samp.Message.{Message, serialize}
use tcpserver_cpp_libuv_samp.World.{
  receiving, closed, sending, Kind, client_in, client_out, peer_client_out, Client, App,
  uv_tcp_init, uv_is_closing, uv_read_start, uv_fileno, uv_write, uv_tcp_connect, uv_timer_stop,
  delete_handle, Uv, World, M, set_at, pure, ◌>>=◌, ◌>>◌, require, set_state, deref, call,
}
use tcpserver_cpp_libuv_samp.App.{closed_app, dropped_app}
use tcpserver_cpp_libuv_samp.App.Dropped.{destroyed_timer, destroyed_as, destroyed}
use tcpserver_cpp_libuv_samp.Client.{
  is_offline, is_connected, connected_on, has_descriptor, connect, is_in_use, is_shut, may_read,
  close, send_message, do_read,
}
use tcpserver_cpp_libuv_samp.Client.Closing.{
  marked, unhooked, asked, told, given_up, close-given_up, sent_world, send_outcome,
  send_message-send_outcome,
}
use tcpserver_cpp_libuv_samp.Frame.{After}
use tcpserver_cpp_libuv_samp.Kept.{Kept, if-Kept, pure-Kept}
use tcpserver_cpp_libuv_samp.Kept.Streams.{
  IsSafe, IsFree, Holds, fewer-IsSafe, set_at-Holds, call-IsSafe, close-IsSafe, hook-IsSafe,
  made-IsFree, made-IsSafe,
}

abbrev pub Safe : {A : Type 0} → M A → Type 0
Safe = Kept IsSafe

-- A write of one connection object that gives it no new handle.
pub put-IsSafe :
    (i : ℕ) (c : Client) (w : World)
    → ((h : ℕ) → c.stream ≡ some h → Holds w i h)
    → IsSafe w
    → IsSafe (record w { client = set_at w.client i c })
put-IsSafe i c w sub s =
    fewer-IsSafe w (record w { client = set_at w.client i c }) refl (omega arith)
      (set_at-Holds w i c sub) s

pub app-IsSafe : (a : App) (w : World) → IsSafe w → IsSafe (record w { app = a })
app-IsSafe a w s = fewer-IsSafe w (record w { app = a }) refl (omega arith) (λ i h p. p) s

timer-IsSafe : (j : ℕ) (o : Option ℕ) (w : World) → IsSafe w → IsSafe (destroyed_timer j o w)
unfolding destroyed_timer
timer-IsSafe j none w s = s
timer-IsSafe j (some t) w s =
    let u = record w { client = set_at w.client j (record (w.client j) { timer = none }) } in
    call-IsSafe (uv_timer_stop t) u (λ h. refl) tt (put-IsSafe j _ w (λ h p. p) s)

as-IsSafe : (k : Kind) (j : ℕ) (o : Option ℕ) (w : World) → IsSafe w → IsSafe (destroyed_as k j o w)
unfolding destroyed_as
as-IsSafe peer_client_out j o w s = timer-IsSafe j o w s
as-IsSafe client_in j o w s = s
as-IsSafe client_out j o w s = s

pub destroyed-IsSafe : (js : List ℕ) (w : World) → IsSafe w → IsSafe (destroyed js w)
unfolding destroyed
destroyed-IsSafe [] w s = s
destroyed-IsSafe (j ∷ js) w s =
    destroyed-IsSafe js _ (as-IsSafe (w.client j).kind j (w.client j).timer w s)

module _ (uv : Uv) where
  -- A connection lets go of its handle, which is then free.
  unhooked-IsSafe : (i : ℕ) (w : World) → IsSafe w → IsSafe (unhooked uv i w)
  unhooked-IsSafe i w s = put-IsSafe i _ w (λ h p. cc) s

  unhooked-IsFree : (i k : ℕ) (w : World) → Holds w i k → IsSafe w → IsFree k (unhooked uv i w)
  unhooked-IsFree i k w e s = record {
    made = s.fresh i k e;
    free = λ j p. elim (Bool-cases (i == j)) [
      | inl same ↦ let q : ◌≡◌ {A = Option ℕ} none (some k) = rw same at p in cc
      | inr other ↦ let q : i ≡ j = s.single i j k e (rw other at p) in absurd (ground arith)
    ];
    open_handle = s.unclosed i k e;
  }

  asked-IsSafe : (i k : ℕ) (w : World) → Holds w i k → IsSafe w → IsSafe (asked uv i k w)
  asked-IsSafe i k w e s =
      let u = unhooked uv i w in
      let f = unhooked-IsFree i k w e s in
      let v = record u { trace = uv_is_closing k ∷ u.trace } in
      close-IsSafe k v (record { made = f.made; free = f.free; open_handle = f.open_handle })
        (call-IsSafe (uv_is_closing k) u (λ h. refl) f.open_handle (unhooked-IsSafe i w s))

  told-IsSafe : (i k : ℕ) (w : World) → Holds w i k → IsSafe w → IsSafe (told uv i k w)
  told-IsSafe i k w e s =
      let u = unhooked uv i w in
      let f = unhooked-IsFree i k w e s in
      let v = record u { trace = uv_is_closing k ∷ u.trace } in
      let a =
        app-IsSafe (closed_app u.client i w.app) v
          (call-IsSafe (uv_is_closing k) u (λ h. refl) f.open_handle (unhooked-IsSafe i w s)) in
      let js = dropped_app u.client i w.app in
      let d = destroyed js (record v { app = closed_app u.client i w.app }) in
      put-IsSafe i (record (d.client i) { state = closed })
        (record d { trace = delete_handle k ∷ d.trace }) (λ h p. p)
        (call-IsSafe (delete_handle k) d (λ h. refl) tt (destroyed-IsSafe js _ a))

  given_up-IsSafe :
      (i : ℕ) (o : Option ℕ) (w : World)
      → (w.client i).stream ≡ o
      → IsSafe w
      → IsSafe (given_up uv i o w)
  unfolding given_up
  given_up-IsSafe i none w e s = s
  given_up-IsSafe i (some k) w e s =
      elim (Bool-cases (is_zero (uv.result w.trace (uv_is_closing k)))) [
        | inl z ↦ rw z (asked-IsSafe i k w e s)
        | inr z ↦ rw z (told-IsSafe i k w e s)
      ]

  pub close-Safe : (i : ℕ) → Safe (close uv i)
  close-Safe i = record {
    at = λ w s. rw (close-given_up uv i w) (
        given_up-IsSafe i (w.client i).stream (marked uv i w)
          (ap (λ (c : Client). c.stream) (set_at_self w.client i _))
          (put-IsSafe i _ w (λ h p. p) s));
  }

  send_outcome-IsSafe :
      (i : ℕ) (m : Message) (b : Bool) (o : Option ℕ) (w : World)
      → (w.client i).stream ≡ o
      → IsSafe w
      → After IsSafe (send_outcome uv i b o m w)
  unfolding send_outcome
  send_outcome-IsSafe i m true o w e s = s
  send_outcome-IsSafe i m false none w e s = tt
  send_outcome-IsSafe i m false (some k) w e s =
      let line = serialize m ++ (b'\n' ∷ []) in
      let u = record w { client = set_at w.client i (record (w.client i) { state = sending }) } in
      let wrote : IsSafe (sent_world uv i k m w) =
        call-IsSafe (uv_write k line) u (λ h. refl) (s.unclosed i k e)
          (put-IsSafe i _ w (λ h p. p) s) in
      elim (Bool-cases (is_zero (uv.result w.trace (uv_write k line)))) [
        | inl z ↦ rw z wrote
        | inr z ↦ rw z ((close-Safe i).at (sent_world uv i k m w) wrote)
      ]

  pub send_message-Safe : (i : ℕ) (m : Message) → Safe (send_message uv i m)
  send_message-Safe i m = record {
    at = λ w s.
        rw (send_message-send_outcome uv i m w)
          (send_outcome-IsSafe i m (is_shut (w.client i).state) (w.client i).stream w refl s);
  }

  read_from : (b : Bool) (o : Option ℕ) (i : ℕ) → M (Unit {0})
  read_from b o i = do
    require b
    set_state i receiving
    handle ← deref o
    res ← call uv (uv_read_start handle)
    if is_negative res then close uv i else pure tt

  read_from-IsSafe :
      (b : Bool) (o : Option ℕ) (i : ℕ) (w : World)
      → (w.client i).stream ≡ o
      → IsSafe w
      → After IsSafe (read_from b o i w)
  unfolding read_from
  read_from-IsSafe false o i w e s = tt
  read_from-IsSafe true none i w e s = tt
  read_from-IsSafe true (some k) i w e s =
      let u = record w { client = set_at w.client i (record (w.client i) { state = receiving }) } in
      (if-Kept (is_negative (uv.result w.trace (uv_read_start k))) _ _ (close-Safe i)
          (pure-Kept tt)).at
        (record u { trace = uv_read_start k ∷ u.trace })
        (call-IsSafe (uv_read_start k) u (λ h. refl) (s.unclosed i k e)
          (put-IsSafe i _ w (λ h p. p) s))

  pub do_read-Safe : (i : ℕ) → Safe (do_read uv i)
  unfolding do_read read_from
  do_read-Safe i = record {
    at = λ w s. read_from-IsSafe (may_read (w.client i).state) (w.client i).stream i w refl s;
  }

  connected_on-IsSafe :
      (b : Bool) (o : Option ℕ) (i : ℕ) (w : World)
      → (w.client i).stream ≡ o
      → IsSafe w
      → After IsSafe (connected_on uv b o w)
  unfolding connected_on has_descriptor
  connected_on-IsSafe b none i w e s = s
  connected_on-IsSafe true (some k) i w e s = s
  connected_on-IsSafe false (some k) i w e s =
      call-IsSafe (uv_fileno k) w (λ h. refl) (s.unclosed i k e) s

  pub is_connected-Safe : (i : ℕ) → Safe (is_connected uv i)
  unfolding is_connected
  is_connected-Safe i = record {
    at = λ w s. connected_on-IsSafe (is_offline (w.client i).state) (w.client i).stream i w refl s;
  }

  -- A connection takes the next handle, which is set up and connected.
  hooked-IsSafe :
      (i : ℕ) (c : Client) (host : Bytes) (port : ℤ) (w : World)
      → c.stream ≡ some w.next_handle
      → IsSafe w
      → IsSafe (record w {
        client = set_at w.client i c;
        next_handle = suc w.next_handle;
        trace = uv_tcp_connect w.next_handle host port ∷ uv_tcp_init w.next_handle ∷ w.trace;
      })
  hooked-IsSafe i c host port w e s =
      let k = w.next_handle in
      let v = record w { next_handle = suc k } in
      let u = record v { client = set_at w.client i c } in
      let no = s.unused k (omega arith) in
      call-IsSafe (uv_tcp_connect k host port) (record u { trace = uv_tcp_init k ∷ u.trace })
        (λ h. refl) no
        (call-IsSafe (uv_tcp_init k) u (λ h. refl) no
          (hook-IsSafe i k c v e (made-IsFree w s) (made-IsSafe w s)))

  pub connect-Safe : (i : ℕ) → Safe (connect uv i)
  unfolding connect
  connect-Safe i = record {
    at = λ w s. elim (Bool-cases (is_in_use (w.client i).state)) [
      | inl busy ↦ rw busy s
      | inr idle ↦ rw idle (hooked-IsSafe i _ (w.client i).host (w.client i).port w refl s)
    ];
  }
