-- ===== src/Node/Faults.antt =====
-- A handshake that ends a node (`messageReceived` of node/node.cpp) in a fault.
use tcpserver_cpp_libuv_samp.World.Steps.{bind_step, bind_fault}
use tcpserver_cpp_libuv_samp.Base.{
  ℕ, ◌≡◌, ap, ◌∙◌, true, false, [], ◌∷◌, ◌++◌, if◌then◌else◌, some, Bytes, codes, bytes_eq,
  Bool-cases, inl, inr,
}
use tcpserver_cpp_libuv_samp.Base.Int.{is_zero}
use tcpserver_cpp_libuv_samp.Base.Outcome.{ok, fault, Fault}
use tcpserver_cpp_libuv_samp.Text.{stoi}
use tcpserver_cpp_libuv_samp.Message.{Message, serialize}
use tcpserver_cpp_libuv_samp.World.{Node, node_app, uv_write, Uv, World, lift, ◌>>=◌}
use tcpserver_cpp_libuv_samp.Peers.{is_peer_connected}
use tcpserver_cpp_libuv_samp.Client.{close, send_message, is_shut}
use tcpserver_cpp_libuv_samp.Client.Closing.{
  send_message-sent, send_outcome, send_message-send_outcome, close-given_up, sent_world, given_up,
  marked,
}
use tcpserver_cpp_libuv_samp.Node.{
  get_node, reported_port, learn_canonical, learn_reported, handshake_received,
  node_message_received,
}
use tcpserver_cpp_libuv_samp.Node.Trying.{get_node-node}

module _ (uv : Uv) (i : ℕ) where
  send_message-refused :
      (h : ℕ) (m : Message) (w : World)
      → is_shut (w.client i).state ≡ false
      → (w.client i).stream ≡ some h
      → is_zero (uv.result w.trace (uv_write h (serialize m ++ (b'\n' ∷ [])))) ≡ false
      → (v : World) × (send_message uv i m w ≡ ok (tt, v))
  unfolding send_outcome
  send_message-refused h m w open_state e bad =
      let u = sent_world uv i h m w in
      (
        given_up uv i (u.client i).stream (marked uv i u),
        send_message-send_outcome uv i m w
            ∙ ap (λ b. send_outcome uv i b (w.client i).stream m w) open_state
            ∙ ap (λ o. send_outcome uv i false o m w) e
            ∙ ap (λ b. if b then ok (tt, u) else close uv i u) bad
            ∙ close-given_up uv i u,
      )

  -- A write on an open stream ends without a fault, whether libuv takes it or not.
  send_message-ends :
      (h : ℕ) (m : Message) (w : World)
      → (w.client i).stream ≡ some h
      → (v : World) × (send_message uv i m w ≡ ok (tt, v))
  unfolding send_outcome
  send_message-ends h m w e = elim (Bool-cases (is_shut (w.client i).state)) [
    | inl shut ↦ (
      w,
      send_message-send_outcome uv i m w
          ∙ ap (λ b. send_outcome uv i b (w.client i).stream m w) shut,
    )
    | inr open_state ↦
        let line = serialize m ++ (b'\n' ∷ []) in
        elim (Bool-cases (is_zero (uv.result w.trace (uv_write h line)))) [
          | inl good ↦ (sent_world uv i h m w, send_message-sent uv i h m w open_state e good)
          | inr bad ↦ send_message-refused h m w open_state e bad
        ]
  ]

  reported_port-bad :
      (text : Bytes) (x : Fault) → stoi text ≡ fault x → reported_port uv (b':' ∷ text) ≡ fault x
  unfolding reported_port bytes_eq
  reported_port-bad text x e = rw e

  learn_canonical-bad :
      (ep text : Bytes) (x : Fault) (w : World)
      → stoi text ≡ fault x
      → learn_canonical uv i ep (b':' ∷ text) w ≡ fault x
  unfolding learn_canonical
  learn_canonical-bad ep text x w e =
      ap (λ r. (lift r >>= learn_reported uv i ep) w) (reported_port-bad text x e)

  -- A node that knows the incoming peer: a handshake of the right version whose name is a colon
  -- before a text that `stoi` refuses ends the process, since the exception is caught nowhere.
  pub bad_name_aborts :
      (h : ℕ) (n : Node) (your_addr text : Bytes) (x : Fault) (w : World)
      → w.app ≡ node_app n
      → is_peer_connected w.client (w.client i).peer_addr false n.peers ≡ true
      → (w.client i).stream ≡ some h
      → stoi text ≡ fault x
      → node_message_received uv i (Message.handshake (codes "V01") your_addr (b':' ∷ text)) w
        ≡ fault x
  unfolding node_message_received handshake_received bytes_eq
  bad_name_aborts h n your_addr text x w a listed e bad =
      let ep = (w.client i).peer_addr in
      let reply = Message.handshake_response (codes "V01") n.name ep in
      let (v, run) = send_message-ends h reply w e in
      bind_step get_node _ w (get_node-node w n a)
      ∙ rw listed (
          bind_step (send_message uv i reply) _ w run
          ∙ bind_fault (learn_canonical uv i ep (b':' ∷ text)) _ v
              (learn_canonical-bad ep text x v bad))
