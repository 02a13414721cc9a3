-- ===== src/Net/Ip.antt =====
-- The Internet protocol's sending side, kernel/src/net/ip.rs: the header, and `send_ip`, which has to
-- find the hardware address first.
use vibra.Net.{Net, get_local_ip, get_local_mac, get_gateway, get_subnet_mask, send_ethernet}
use vibra.Net.Arp.{Turn, Answer, resolved, timed_out, still_waiting, resolve}
use vibra.Net.Checksum.{internet_checksum}
use vibra.Common.{ℕ, ◌+◌, List, ◌∷◌, ◌++◌, Bool, true, ◌&&◌}
use vibra.Common.{if◌then◌else◌, ◌==◌, length, high_byte, low_byte, bit_and}

-- What the world does while a packet is sent: the frames that the driver takes, the clock at
-- the start of `resolve`, and the turns of its loop.
pub record World : Type 0 where
  pub takes : List ℕ → Bool
  pub start : ℕ
  pub turns : List Turn

-- `IpHeader`, its checksum field given. Identification 0x1234 and flags 0x4000 are stored as they
-- are, on a little-endian machine.
unfoldable pub ip_header : ℕ → ℕ → List ℕ → List ℕ → ℕ → ℕ → List ℕ
ip_header total_len protocol src_ip dst_ip csum_high csum_low =
    0x45
      ∷ 0
      ∷ high_byte total_len
      ∷ low_byte total_len
      ∷ 0x34
      ∷ 0x12
      ∷ 0x00
      ∷ 0x40
      ∷ 64
      ∷ protocol
      ∷ csum_high
      ∷ csum_low
      ∷ src_ip
    ++ dst_ip

-- The header with the checksum in place, then the payload.
unfoldable pub ip_packet : ℕ → List ℕ → List ℕ → List ℕ → List ℕ
unfolding ip_header
ip_packet protocol src_ip dst_ip payload =
    let total_len = 20 + length payload in
    let csum = internet_checksum (ip_header total_len protocol src_ip dst_ip 0 0) in
    ip_header total_len protocol src_ip dst_ip (high_byte csum) (low_byte csum) ++ payload

unfoldable pub is_same_subnet : List ℕ → List ℕ → List ℕ → Bool
is_same_subnet (x ∷ xs) (y ∷ ys) (m ∷ ms) = bit_and x m == bit_and y m && is_same_subnet xs ys ms
is_same_subnet _ _ _ = true

-- The address whose hardware address is asked for.
unfoldable pub next_hop : List ℕ → Net → List ℕ
unfolding is_same_subnet
next_hop dst_ip n =
    if is_same_subnet dst_ip (get_local_ip n) (get_subnet_mask n) then dst_ip else get_gateway n

-- What a handler does: it returns with the state, the kernel panics, or it is still in the loop.
pub data Effect : Type 0 where
  returned : Net → Effect
  panicked : Effect
  waiting : Net → Effect

unfoldable pub send_resolved : (List ℕ → Bool) → List ℕ → Answer × Net → Effect
send_resolved takes packet (resolved mac, n) = returned (send_ethernet takes mac 0x0800 packet n)
send_resolved takes packet (timed_out, n) = returned n
send_resolved takes packet (still_waiting, n) = waiting n

unfoldable pub send_ip : World → List ℕ → ℕ → List ℕ → Net → Effect
unfolding ip_packet next_hop send_resolved
send_ip w dst_ip protocol payload n =
    send_resolved w.takes (ip_packet protocol (get_local_ip n) dst_ip payload)
      (resolve w.takes w.start w.turns (next_hop dst_ip n) (get_local_mac n) (get_local_ip n) n)
