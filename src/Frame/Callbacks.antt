-- ===== src/Frame/Callbacks.antt =====
-- The frame of the callbacks that receive no bytes (lib/net_client.cpp, node/peer_conn.cpp).
use tcpserver_cpp_libuv_samp.Base.{ℕ, ◌+◌, ◌++◌, codes, bytes_eq, if◌then◌else◌, some, refl}
use tcpserver_cpp_libuv_samp.Base.Int.{ℤ, is_zero}
use tcpserver_cpp_libuv_samp.Text.{to_string}
use tcpserver_cpp_libuv_samp.App.{get_name}
use tcpserver_cpp_libuv_samp.Message.{Message}
use tcpserver_cpp_libuv_samp.World.{
  State, connected, Client, M, ◌>>=◌, ◌>>◌, get_client, put_client, uv_timer_init, uv_timer_start,
  sending, sent, receiving, received, Kind, client_in, client_out, peer_client_out, Uv,
}
use tcpserver_cpp_libuv_samp.Remote.{remote_address_host_port, remote_address}
use tcpserver_cpp_libuv_samp.Events.{
  process_out_in, process_peer_in, process_as, process, on_timer, on_write, on_connect,
  on_new_connection,
}
use tcpserver_cpp_libuv_samp.Frame.{
  framed, Framed, update-Framed, bind-Framed, if-Framed, pure-Framed, get_app-Framed, call-Framed,
  new_handle-Framed, then-Framed,
}
use tcpserver_cpp_libuv_samp.Frame.Ops.{
  close-Framed, send_message-Framed, do_read-Framed, in_connection_received-Framed,
}
use tcpserver_cpp_libuv_samp.Frame.Handlers.{send_other_peers-Framed}

-- The connection with its counter changed is the same one.
counted-Framed :
    {B : Type 0} (i : ℕ) (count : Client → ℕ) (k : Client → M B)
    → ((c : Client) → Framed (k c))
    → Framed (get_client i >>= λ c. put_client i (record c { send_counter = count c }) >> k c)
counted-Framed i count k rest =
    update-Framed i (λ c. record c { send_counter = count c }) k
      (λ c. record { buffer = refl; addr = refl; kinds = refl; hosts = refl; ports = refl }) rest

peer_counted-Framed :
    {B : Type 0} (i : ℕ) (count : Client → ℕ) (k : Client → M B)
    → ((c : Client) → Framed (k c))
    → Framed (get_client i >>= λ c. put_client i (record c { peer_send_counter = count c }) >> k c)
peer_counted-Framed i count k rest =
    update-Framed i (λ c. record c { peer_send_counter = count c }) k
      (λ c. record { buffer = refl; addr = refl; kinds = refl; hosts = refl; ports = refl }) rest

module _ (uv : Uv) where
  process_out_in-Framed : (s : State) (i : ℕ) → Framed (process_out_in uv s i)
  unfolding process_out_in
  process_out_in-Framed connected i =
      counted-Framed i (λ _. 0) _
        λ c. bind-Framed _ _ get_app-Framed λ app.
          send_message-Framed uv i (Message.handshake (codes "V01") c.peer_addr (get_name app))
  process_out_in-Framed sending i =
      counted-Framed i (λ c. c.send_counter + 1) _ λ _. do_read-Framed uv i
  process_out_in-Framed sent i = do_read-Framed uv i
  process_out_in-Framed receiving i = do_read-Framed uv i
  process_out_in-Framed received i = search (framed, close-Framed, send_message-Framed)
  process_out_in-Framed other i = search framed

  on_timer-Framed : (i : ℕ) → Framed (on_timer uv i)
  unfolding on_timer
  on_timer-Framed i = search (framed, send_other_peers-Framed, send_message-Framed) depth 9

  process_peer_in-Framed : (s : State) (i : ℕ) → Framed (process_peer_in uv s i)
  unfolding process_peer_in
  process_peer_in-Framed connected i = bind-Framed _ _ new_handle-Framed λ timer.
      update-Framed i (λ c. record c { timer = some timer }) _
        (λ c. record { buffer = refl; addr = refl; kinds = refl; hosts = refl; ports = refl })
        λ _. bind-Framed _ _ (call-Framed uv (uv_timer_init timer)) λ _.
          then-Framed _ _ (on_timer-Framed i) (
            bind-Framed _ _ (call-Framed uv (uv_timer_start timer)) λ _.
              peer_counted-Framed i (λ _. 0) _
                λ c. bind-Framed _ _ get_app-Framed λ app.
                  then-Framed _ _
                    (send_message-Framed uv i
                      (Message.handshake (codes "V01") c.peer_addr (get_name app)))
                    (send_other_peers-Framed uv i))
  process_peer_in-Framed sending i =
      peer_counted-Framed i (λ c. c.peer_send_counter + 1) _ λ _. do_read-Framed uv i
  process_peer_in-Framed sent i = do_read-Framed uv i
  process_peer_in-Framed receiving i = do_read-Framed uv i
  process_peer_in-Framed received i = pure-Framed tt
  process_peer_in-Framed other i = search framed

  process_as-Framed : (k : Kind) (s : State) (i : ℕ) → Framed (process_as uv k s i)
  unfolding process_as
  process_as-Framed client_in s i = pure-Framed tt
  process_as-Framed client_out s i = process_out_in-Framed s i
  process_as-Framed peer_client_out s i = process_peer_in-Framed s i

  process-Framed : (i : ℕ) → Framed (process uv i)
  unfolding process
  process-Framed i = search (framed, process_as-Framed)

  on_write-Framed : (i : ℕ) (status : ℤ) → Framed (on_write uv i status)
  unfolding on_write
  on_write-Framed i status = search (framed, process-Framed, close-Framed)

  remote_host_port-Framed : (handle : ℕ) → Framed (remote_address_host_port uv handle)
  unfolding remote_address_host_port
  remote_host_port-Framed handle = search framed

  remote_address-Framed : (handle : ℕ) → Framed (remote_address uv handle)
  unfolding remote_address
  remote_address-Framed handle = search (framed, remote_host_port-Framed)

  on_connect-Framed : (i handle : ℕ) (status : ℤ) → Framed (on_connect uv i handle status)
  unfolding on_connect
  on_connect-Framed i handle status =
      if-Framed (is_zero status) _ _
        (bind-Framed _ _ (remote_host_port-Framed handle) λ remote.
          update-Framed i
            (λ c. record c {
              state = connected;
              canon_peer_addr =
                  if bytes_eq remote.host c.host
                  then c.canon_peer_addr
                  else remote.host ++ (codes ":" ++ to_string c.port);
            })
            _ (λ c. record { buffer = refl; addr = refl; kinds = refl; hosts = refl; ports = refl })
            λ _. process-Framed i)
        (pure-Framed tt)

  on_new_connection-Framed : (server : ℕ) (status : ℤ) → Framed (on_new_connection uv server status)
  unfolding on_new_connection
  on_new_connection-Framed server status =
      search (framed, remote_address-Framed, in_connection_received-Framed, do_read-Framed) depth 14

  -- The callbacks other than `onRead`, that is the end of a write, the end of a connect, the timer
  -- and a new incoming connection, keep the received bytes, the address, the class and the target
  -- of every connection, and only add connection objects, where they end without a fault.
  pub callbacks-Framed :
      (i handle : ℕ) (status : ℤ)
      → Framed (on_write uv i status)
        × Framed (on_connect uv i handle status)
        × Framed (on_timer uv i)
        × Framed (on_new_connection uv handle status)
  callbacks-Framed i handle status = (
    on_write-Framed i status,
    on_connect-Framed i handle status,
    on_timer-Framed i,
    on_new_connection-Framed handle status,
  )
