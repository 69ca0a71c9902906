-- ===== src/Frame/Ops.antt =====
-- The frame of the operations of a connection (lib/net_client.cpp).
use tcpserver_cpp_libuv_samp.Base.{List, [], ◌∷◌, ℕ, Bool, false, refl, Option, none, some}
use tcpserver_cpp_libuv_samp.Base.Int.{negsuc}
use tcpserver_cpp_libuv_samp.Message.{Message}
use tcpserver_cpp_libuv_samp.World.{
  Kind, client_in, client_out, peer_client_out, clear_timer, connecting, uv_tcp_init,
  uv_tcp_connect, Uv,
}
use tcpserver_cpp_libuv_samp.App.{
  connection_closed, closed_app, dropped_app, stop_timer, destroy_as, destroy, destroy_all,
  in_connection_received, received_app,
}
use tcpserver_cpp_libuv_samp.Client.{
  on_close, close_stream, close, send_message, do_read, has_descriptor, connected_on, is_connected,
  connect, is_in_use,
}
use tcpserver_cpp_libuv_samp.Frame.{
  framed, Framed, After-trans, then-Framed, put_client-at, update-Framed, bind-Framed, if-Framed,
  pure-Framed, get_client-Framed, table-Frame, call-Framed, new_handle-Framed,
}

clear_timer-Framed : (i : ℕ) → Framed (clear_timer i)
clear_timer-Framed i = record {
  at = λ w.
      put_client-at i (record (w.client i) { timer = none }) w
        (record { buffer = refl; addr = refl; kinds = refl; hosts = refl; ports = refl });
}

module _ (uv : Uv) where
  destroy_as-Framed : (k : Kind) (i : ℕ) (o : Option ℕ) → Framed (destroy_as uv k i o)
  unfolding destroy_as stop_timer
  destroy_as-Framed peer_client_out i none = pure-Framed tt
  destroy_as-Framed peer_client_out i (some t) = search (framed, clear_timer-Framed)
  destroy_as-Framed client_in i o = pure-Framed tt
  destroy_as-Framed client_out i o = pure-Framed tt

  destroy_all-Framed : (js : List ℕ) → Framed (destroy_all uv js)
  unfolding destroy_all destroy
  destroy_all-Framed [] = pure-Framed tt
  destroy_all-Framed (j ∷ js) =
      then-Framed _ _
        (bind-Framed _ _ (get_client-Framed j) λ c. destroy_as-Framed c.kind j c.timer)
        (destroy_all-Framed js)

  connection_closed-Framed : (i : ℕ) → Framed (connection_closed uv i)
  unfolding connection_closed
  connection_closed-Framed i = record {
    at = λ w. After-trans _ (table-Frame w w.next_handle (closed_app w.client i w.app) w.trace) (
        (destroy_all-Framed (dropped_app w.client i w.app)).at
          (record w { app = closed_app w.client i w.app }));
  }

pub in_connection_received-Framed : (i : ℕ) → Framed (in_connection_received i)
unfolding in_connection_received
in_connection_received-Framed i = record {
  at = λ w. table-Frame w w.next_handle (received_app w.client i w.app) w.trace;
}

module _ (uv : Uv) where
  on_close-Framed : (i handle : ℕ) → Framed (on_close uv i handle)
  unfolding on_close
  on_close-Framed i handle = search (framed, connection_closed-Framed)

  close_stream-Framed : (i : ℕ) (o : Option ℕ) → Framed (close_stream uv i o)
  unfolding close_stream
  close_stream-Framed i none = pure-Framed tt
  close_stream-Framed i (some handle) = search (framed, on_close-Framed) depth 8

  pub close-Framed : (i : ℕ) → Framed (close uv i)
  unfolding close
  close-Framed i = search (framed, close_stream-Framed) depth 8

  pub send_message-Framed : (i : ℕ) (m : Message) → Framed (send_message uv i m)
  unfolding send_message
  send_message-Framed i m = search (framed, close-Framed) depth 9

  pub do_read-Framed : (i : ℕ) → Framed (do_read uv i)
  unfolding do_read
  do_read-Framed i = search (framed, close-Framed) depth 9

  has_descriptor-Framed : (handle : ℕ) → Framed (has_descriptor uv handle)
  unfolding has_descriptor
  has_descriptor-Framed handle = search framed depth 8

  connected_on-Framed : (offline : Bool) (o : Option ℕ) → Framed (connected_on uv offline o)
  unfolding connected_on
  connected_on-Framed offline none = pure-Framed false
  connected_on-Framed offline (some handle) = search (framed, has_descriptor-Framed)

  pub is_connected-Framed : (i : ℕ) → Framed (is_connected uv i)
  unfolding is_connected
  is_connected-Framed i = search (framed, connected_on-Framed)

  pub connect-Framed : (i : ℕ) → Framed (connect uv i)
  unfolding connect
  connect-Framed i = bind-Framed _ _ (get_client-Framed i) λ c.
      if-Framed (is_in_use c.state) _ _ (pure-Framed (negsuc 0)) (
        bind-Framed _ _ new_handle-Framed λ handle.
          update-Framed i
            (λ d. record d { state = connecting; send_counter = 0; stream = some handle }) _
            (λ d. record { buffer = refl; addr = refl; kinds = refl; hosts = refl; ports = refl })
            (λ d.
              bind-Framed _ _ (call-Framed uv (uv_tcp_init handle))
                (λ _. call-Framed uv (uv_tcp_connect handle c.host c.port))))
