-- ===== src/Server/Relay/Turn.antt =====
-- server/src/relay.rs: a turn of `RelayServer::run` on its socket.
use civ6_lan_bridge.Prelude.{
  ℕ, ◌+◌, ◌%◌, ◌^◌, ◌≡◌, ◌<◌, Bool, true, false, length, List, [], ◌∷◌, Result, ok, err, nat_key,
}
use civ6_lan_bridge.Protocol.Relay.Codec.{UuidBytes, encode}
use civ6_lan_bridge.Server.Metrics.{RelayMetrics, record_sent}
use civ6_lan_bridge.Server.State.{AppState}
use civ6_lan_bridge.Server.Relay.{
  RelayError, codec, io, SocketAddr, OutboundDatagram, Clocks, receive,
}

-- What `run` uses of its socket: whether `send_to` succeeds.
pub record Socket : Type 1 where
  pub Outside : Type 0
  pub send_to : List ℕ → SocketAddr → Outside → Bool × Outside

module _ (uuid : UuidBytes) (socket : Socket) where
  abbrev pub Sends : Type 0
  Sends = Result RelayError (Unit {0}) × (RelayMetrics × socket.Outside)

  -- A datagram that is sent is counted; one that is not ends the server.
  abbrev pub counted :
      ℕ → RelayMetrics → (RelayMetrics → socket.Outside → Sends) → Bool × socket.Outside → Sends
  counted size m rest (false, o) = (err io, (m, o))
  counted size m rest (true, o) = rest (record_sent m size) o

  -- The loop over the outbound datagrams
  unfoldable pub send_outbound : List OutboundDatagram → RelayMetrics → socket.Outside → Sends
  send_outbound [] m o = (ok tt, (m, o))
  send_outbound (datagram ∷ rest) m o =
      elim (encode uuid (record { meta = datagram.meta; message = datagram.message })) [
        | err e ↦ (err (codec e), (m, o))
        | ok packet ↦
            counted (length packet) m (λ m' o'. send_outbound rest m' o')
              (socket.send_to packet datagram.destination o)
      ]

  unfoldable pub turn :
      (List ℕ → ℕ)
      → AppState
      → ℕ
      → SocketAddr
      → List ℕ
      → Clocks
      → socket.Outside
      → Result RelayError (Unit {0}) × (AppState × socket.Outside)
  turn fingerprint st relay_port source packet clocks o =
      let (outbound, st') = receive uuid fingerprint st relay_port source packet clocks in
      let (result, (metrics, o')) = send_outbound outbound st'.metrics o in
      (result, (record st' { metrics = metrics }, o'))

  -- So many datagrams more, and nothing else of the datagrams' count
  abbrev pub Counted : ℕ → RelayMetrics → Sends → Type 0
  Counted n m (ok _, (after, o)) = after.sent_packets ≡ (m.sent_packets + n) % 2 ^ 64
  Counted n m (err _, (after, o)) =
      (k : ℕ) × (k < n) × (after.sent_packets ≡ (m.sent_packets + k) % 2 ^ 64)
