-- ===== src/Server/Relay/Guards.antt =====
-- server/src/relay.rs: whom the relay authenticates, and what a packet has passed that it answers.
use civ6_lan_bridge.Prelude.{
  ℕ, ◌≡◌, ◌≢◌, ◌⊎◌, ◌↔◌, refl, true, nat_key, none, some, arith, Option-cases, Bool-cases,
  Result-cases, ok, err, inl, inr, List, ◌∷◌,
}
use civ6_lan_bridge.Prelude.HashMap
use civ6_lan_bridge.Protocol.Ports.{PeerId, VirtualIp}
use civ6_lan_bridge.Protocol.Relay.{RelayEnvelope, RelayEnvelopeMeta, RelayMessage}
use civ6_lan_bridge.Protocol.Relay.Codec.{UuidBytes, decode}
use civ6_lan_bridge.Router.State.{RoomRouter, PeerState}
use civ6_lan_bridge.Router.Rooms.{peer_for_virtual_ip, peer_connection_epoch}
use civ6_lan_bridge.Router.Peers.{mark_peer_seen}
use civ6_lan_bridge.Server.Metrics.{duplicate, record_sequence, record_received}
use civ6_lan_bridge.Server.RateLimiter.{allow}
use civ6_lan_bridge.Server.State.{AppState}
use civ6_lan_bridge.Server.Relay.{
  Handled, invalid_source, IpAddr, SocketAddr, v4, v6, Clocks, OutboundDatagram, authenticate,
  carry, answer_probe, admit, limit_source, handle_datagram, receive, probe_of,
}

-- A source is authenticated as a known peer exactly if the table of addresses gives it that peer
-- and the packet names no connection epoch, or the peer's present one.
pub authenticate_iff :
    (s : RoomRouter) (source_ip : VirtualIp) (meta : RelayEnvelopeMeta) (peer_id : PeerId)
    (peer : PeerState)
    → HashMap.get s.peers peer_id ≡ some peer
    → ((authenticate s source_ip meta ≡ ok peer_id) ↔ (
        (HashMap.get s.virtual_ips source_ip ≡ some peer_id)
        × ((meta.connection_epoch ≡ 0) ⊎ (meta.connection_epoch ≡ peer.connection_epoch))))
unfolding authenticate peer_for_virtual_ip peer_connection_epoch
authenticate_iff s source_ip meta peer_id peer e = (λ h. ground arith, λ h. ground arith)

-- What a packet has passed whose envelope came from an address.
pub record Passed (st : AppState) (ip : VirtualIp) (envelope : RelayEnvelope) (clocks : Clocks)
    : Type 0 where
  pub peer_id : PeerId
  pub allowed : (allow st.udp_rate_limiter ip clocks.arrival).0 ≡ true
  pub authentic : authenticate st.router ip envelope.meta ≡ ok peer_id
  pub connected : (mark_peer_seen st.router peer_id clocks.now).0 ≡ ok tt
  pub unrepeated :
      probe_of envelope.message ≡ none
      → (record_sequence st.metrics peer_id envelope.meta.sequence).0 ≢ duplicate

carry_passes :
    (st : AppState) (relay_port : ℕ) (source : PeerId) (meta : RelayEnvelopeMeta)
    (message : RelayMessage) (clocks : Clocks) (out : List OutboundDatagram)
    → (carry st relay_port source meta message clocks).0 ≡ ok out
    → ((mark_peer_seen st.router source clocks.now).0 ≡ ok tt)
      × ((record_sequence st.metrics source meta.sequence).0 ≢ duplicate)
unfolding carry
carry_passes st relay_port source meta message clocks out h = (ground arith, λ d. ground arith)

answer_probe_passes :
    (st : AppState) (address : SocketAddr) (source : PeerId) (meta : RelayEnvelopeMeta)
    (request_id : ℕ) (clocks : Clocks) (out : List OutboundDatagram)
    → (answer_probe st address source meta request_id clocks).0 ≡ ok out
    → (mark_peer_seen st.router source clocks.now).0 ≡ ok tt
unfolding answer_probe
answer_probe_passes st address source meta request_id clocks out h = ground arith

-- A source that is let in is authentic, connected, and repeats nothing.
record LetIn (st : AppState) (ip : VirtualIp) (envelope : RelayEnvelope) (clocks : Clocks)
    : Type 0 where
  peer : PeerId
  authentic : authenticate st.router ip envelope.meta ≡ ok peer
  connected : (mark_peer_seen st.router peer clocks.now).0 ≡ ok tt
  unrepeated :
      probe_of envelope.message ≡ none
      → (record_sequence st.metrics peer envelope.meta.sequence).0 ≢ duplicate

admit_passes :
    (st : AppState) (relay_port : ℕ) (source : SocketAddr) (ip : VirtualIp)
    (envelope : RelayEnvelope) (clocks : Clocks) (out : List OutboundDatagram)
    → (admit st relay_port source ip envelope clocks).0 ≡ ok out
    → LetIn st ip envelope clocks
unfolding admit
admit_passes st relay_port source ip envelope clocks out h =
    elim (Result-cases (authenticate st.router ip envelope.meta)) [
      | inr (e, a) ↦ ground arith
      | inl (p, a) ↦ elim (Option-cases (probe_of envelope.message)) [
        | inl k ↦
            let (seen, new) =
              carry_passes st relay_port p envelope.meta envelope.message clocks out
                (ground arith) in
            record { peer = p; authentic = a; connected = seen; unrepeated = λ _. new }
        | inr (id, k) ↦ record {
          peer = p;
          authentic = a;
          connected = answer_probe_passes st source p envelope.meta id clocks out (ground arith);
          unrepeated = λ n. ground arith;
        }
      ]
    ]

limit_source_passes :
    (st : AppState) (relay_port : ℕ) (source : SocketAddr) (ip : VirtualIp)
    (envelope : RelayEnvelope) (clocks : Clocks) (out : List OutboundDatagram)
    → (limit_source st relay_port source ip envelope clocks).0 ≡ ok out
    → Passed st ip envelope clocks
unfolding limit_source
limit_source_passes st relay_port source ip envelope clocks out h =
    elim (Bool-cases (allow st.udp_rate_limiter ip clocks.arrival).0) [
      | inr a ↦ ground arith
      | inl a ↦
          let let_in =
            admit_passes
              (record st { udp_rate_limiter = (allow st.udp_rate_limiter ip clocks.arrival).1 })
              relay_port source ip envelope clocks out (ground arith) in
          record {
            peer_id = let_in.peer;
            allowed = a;
            authentic = let_in.authentic;
            connected = let_in.connected;
            unrepeated = let_in.unrepeated;
          }
    ]

-- The packet is an envelope from an IPv4 address that has passed.
pub record Answered (uuid : UuidBytes) (st : AppState) (source : SocketAddr) (packet : List ℕ)
    (clocks : Clocks) : Type 0 where
  pub envelope : RelayEnvelope
  pub ip : VirtualIp
  pub decoded : decode uuid packet ≡ ok envelope
  pub address : source.ip ≡ v4 ip
  pub passed : Passed st ip envelope clocks

source_passes :
    (uuid : UuidBytes) (st : AppState) (relay_port : ℕ) (source : SocketAddr) (packet : List ℕ)
    (ip : IpAddr) (envelope : RelayEnvelope) (clocks : Clocks) (out : List OutboundDatagram)
    → source.ip ≡ ip
    → decode uuid packet ≡ ok envelope
    → (elim ip as (λ _. Handled (List OutboundDatagram)) [
      | v6 _ ↦ (err (invalid_source source), st)
      | v4 source_ip ↦ limit_source st relay_port source source_ip envelope clocks
    ]).0
      ≡ ok out
    → Answered uuid st source packet clocks
source_passes uuid st relay_port source packet (v4 ip) envelope clocks out at d h = record {
  envelope = envelope;
  ip = ip;
  decoded = d;
  address = at;
  passed = limit_source_passes st relay_port source ip envelope clocks out h;
}
source_passes uuid st relay_port source packet (v6 _) envelope clocks out at d h = ground arith

handle_datagram_passes :
    (uuid : UuidBytes) (st : AppState) (relay_port : ℕ) (source : SocketAddr) (packet : List ℕ)
    (clocks : Clocks) (out : List OutboundDatagram)
    → (handle_datagram uuid st relay_port source packet clocks).0 ≡ ok out
    → Answered uuid st source packet clocks
unfolding handle_datagram
handle_datagram_passes uuid st relay_port source packet clocks out h =
    elim (Result-cases (decode uuid packet)) [
      | inr (e, d) ↦ ground arith
      | inl (envelope, d) ↦
          source_passes uuid st relay_port source packet source.ip envelope clocks out refl d
            (ground arith)
    ]

-- Where the relay answers a packet with datagrams, the packet is an envelope from an IPv4
-- address that the limiter allowed, that was authenticated as a connected peer's, and, but for a
-- probe, whose sequence number was not a duplicate.
pub receive_admits :
    (uuid : UuidBytes) (fingerprint : List ℕ → ℕ) (st : AppState) (relay_port : ℕ)
    (source : SocketAddr) (packet : List ℕ) (clocks : Clocks) (first : OutboundDatagram)
    (rest : List OutboundDatagram)
    → (receive uuid fingerprint st relay_port source packet clocks).0 ≡ first ∷ rest
    → Answered uuid
        (record st { metrics = record_received fingerprint st.metrics packet clocks.arrival })
        source
        packet
        clocks
unfolding receive
receive_admits uuid fingerprint st relay_port source packet clocks first rest h =
    let st₁ = record st {
      metrics = record_received fingerprint st.metrics packet clocks.arrival;
    } in
    elim (Result-cases (handle_datagram uuid st₁ relay_port source packet clocks).0) [
      | inr (e, k) ↦ ground arith
      | inl (out, k) ↦ handle_datagram_passes uuid st₁ relay_port source packet clocks out k
    ]
