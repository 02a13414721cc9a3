-- ===== src/Net.antt =====
-- The network stack, kernel/src/net. This file models mod.rs's state and sending; its children
-- model arp.rs (Arp), ip.rs (Checksum, Ip) and icmp.rs with the receiving side (Receive).
-- The statics of the source are one record; addresses are lists of 6 and 4 bytes; `wire` holds the
-- frames that the e1000 driver took, cut to its buffers as `send_packet` of drivers/e1000.rs does. Whether
-- the driver takes a frame is an argument.
pub mod Checksum
pub mod Addresses
pub mod Arp
pub mod Ip
pub mod Receive
mod Checks
use vibra.Common.{ℕ, ◌+◌, List, [], ◌∷◌, ◌++◌, Option, none, some, Bool, true, false}
use vibra.Common.{if◌then◌else◌, length, take, high_byte, low_byte, add_u64}

-- A row of the ARP table: `ArpEntry`.
pub record ArpEntry : Type 0 where
  pub ip : List ℕ
  pub mac : List ℕ

pub record NetInterface : Type 0 where
  pub mac : List ℕ
  pub ip : List ℕ
  pub gateway : List ℕ
  pub subnet_mask : List ℕ

pub record Net : Type 0 where
  pub interface : Option NetInterface
  pub initialized : Bool
  pub rx_packets : ℕ
  pub rx_bytes : ℕ
  pub tx_packets : ℕ
  pub tx_bytes : ℕ
  pub arp_table : List ArpEntry
  pub pending_ip : Option (List ℕ)
  pub resolved_mac : Option (List ℕ)
  pub reply_id : ℕ
  pub reply_seq : ℕ
  pub reply_avail : Bool
  pub wire : List (List ℕ)

-- The statics at start-up.
unfoldable pub no_net : Net
no_net = record {
  interface = none;
  initialized = false;
  rx_packets = 0;
  rx_bytes = 0;
  tx_packets = 0;
  tx_bytes = 0;
  arp_table = [];
  pending_ip = none;
  resolved_mac = none;
  reply_id = 0;
  reply_seq = 0;
  reply_avail = false;
  wire = [];
}

unfoldable pub init : List ℕ → Net → Net
init mac n = record n {
  interface = some (record {
    mac = mac;
    ip = 10 ∷ 0 ∷ 2 ∷ 15 ∷ [];
    gateway = 10 ∷ 0 ∷ 2 ∷ 2 ∷ [];
    subnet_mask = 255 ∷ 255 ∷ 255 ∷ 0 ∷ [];
  });
  initialized = true;
}

abbrev pub no_mac : List ℕ
no_mac = 0 ∷ 0 ∷ 0 ∷ 0 ∷ 0 ∷ 0 ∷ []

abbrev pub no_ip : List ℕ
no_ip = 0 ∷ 0 ∷ 0 ∷ 0 ∷ []

unfoldable pub get_local_mac : Net → List ℕ
get_local_mac n = elim n.interface [ none ↦ no_mac | some i ↦ i.mac ]

unfoldable pub get_local_ip : Net → List ℕ
get_local_ip n = elim n.interface [ none ↦ no_ip | some i ↦ i.ip ]

unfoldable pub get_gateway : Net → List ℕ
get_gateway n = elim n.interface [ none ↦ no_ip | some i ↦ i.gateway ]

unfoldable pub get_subnet_mask : Net → List ℕ
get_subnet_mask n = elim n.interface [ none ↦ no_ip | some i ↦ i.subnet_mask ]

-- (rx_packets, rx_bytes, tx_packets, tx_bytes).
unfoldable pub stats : Net → ℕ × ℕ × ℕ × ℕ
stats n = (n.rx_packets, n.rx_bytes, n.tx_packets, n.tx_bytes)

-- The 14 bytes of the header, then the payload.
unfoldable pub frame : List ℕ → List ℕ → ℕ → List ℕ → List ℕ
frame dst src ether_type payload =
    dst ++ src ++ high_byte ether_type ∷ low_byte ether_type ∷ payload

-- The buffers of drivers/e1000.rs: RX_BUFFER_SIZE, for sending too.
abbrev pub buffer_size : ℕ
buffer_size = 2048

-- What of a frame goes out.
abbrev pub data_sent : List ℕ → List ℕ
data_sent bytes = take buffer_size bytes

-- `e1000::send_packet` of a frame that the driver takes or does not take: what does not fit is left out, and
-- the answer and the counters are those of the whole frame.
unfoldable pub transmit : (List ℕ → Bool) → List ℕ → Net → Net
transmit takes bytes n =
    if takes bytes
    then record n {
      tx_packets = add_u64 n.tx_packets 1;
      tx_bytes = add_u64 n.tx_bytes (length bytes);
      wire = n.wire ++ data_sent bytes ∷ [];
    }
    else n

unfoldable pub send_ethernet : (List ℕ → Bool) → List ℕ → ℕ → List ℕ → Net → Net
unfolding get_local_mac frame transmit
send_ethernet takes dst ether_type payload n =
    transmit takes (frame dst (get_local_mac n) ether_type payload) n
