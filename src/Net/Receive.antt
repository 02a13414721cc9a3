-- ===== src/Net/Receive.antt =====
-- The receiving side: `handle_ethernet` and the polls of kernel/src/net/mod.rs, `handle_ip` of ip.rs
-- and the echo messages of icmp.rs. `e1000::recv_packet` is an argument: the bytes it
-- gave, or none.
pub mod RoundTrip
pub mod Ping
pub mod Malformed
use vibra.Net.{Net, get_local_ip, get_local_mac}
use vibra.Net.Arp.{broadcast_mac, handle_arp}
use vibra.Net.Checksum.{internet_checksum}
use vibra.Net.Ip.{World, Effect, returned, panicked, send_ip}
use vibra.Common.{
  ℕ, ◌+◌, ◌*◌, ◌/◌, ◌%◌, List, [], ◌∷◌, ◌++◌, Option, none, some, Bool, true, false, not, ◌&&◌,
  ◌||◌,
}
use vibra.Common.{
  if◌then◌else◌, ltb, ◌==◌, length, get_or, take, drop, slice, join_bytes, bytes_eq, high_byte,
  low_byte, add_u64, ◌-◌,
}

-- `IcmpHeader` and the payload, the checksum field given.
unfoldable pub echo_bytes : ℕ → ℕ → ℕ → List ℕ → ℕ → ℕ → List ℕ
echo_bytes type_code id sequence payload csum_high csum_low =
    type_code
    ∷ 0
    ∷ csum_high
    ∷ csum_low
    ∷ high_byte id
    ∷ low_byte id
    ∷ high_byte sequence
    ∷ low_byte sequence
    ∷ payload

unfoldable pub echo_message : ℕ → ℕ → ℕ → List ℕ → List ℕ
unfolding echo_bytes
echo_message type_code id sequence payload =
    let csum = internet_checksum (echo_bytes type_code id sequence payload 0 0) in
    echo_bytes type_code id sequence payload (high_byte csum) (low_byte csum)

unfoldable pub send_echo_request : World → List ℕ → ℕ → ℕ → List ℕ → Net → Effect
unfolding echo_message
send_echo_request w dst_ip id sequence payload =
    send_ip w dst_ip 1 (echo_message 8 id sequence payload)

unfoldable pub send_echo_reply : World → List ℕ → ℕ → ℕ → List ℕ → Net → Effect
unfolding echo_message
send_echo_reply w dst_ip id sequence payload =
    send_ip w dst_ip 1 (echo_message 0 id sequence payload)

unfoldable pub set_reply_received : ℕ → ℕ → Net → Net
set_reply_received id sequence n = record n {
  reply_id = id;
  reply_seq = sequence;
  reply_avail = true;
}

-- The answer and the state: the flag is taken back when the reply is the one asked for.
unfoldable pub icmp_pending_reply : ℕ → ℕ → Net → Bool × Net
icmp_pending_reply id sequence n =
    if n.reply_avail && (n.reply_id == id && n.reply_seq == sequence)
    then (true, record n { reply_avail = false })
    else (false, n)

unfoldable pub handle_icmp : World → List ℕ → List ℕ → Net → Effect
unfolding send_echo_reply set_reply_received
handle_icmp w src_ip message n =
    let id = join_bytes (get_or message 4 0) (get_or message 5 0) in
    let sequence = join_bytes (get_or message 6 0) (get_or message 7 0) in
    if ltb (length message) 8
    then returned n
    else if get_or message 0 0 == 8
    then send_echo_reply w src_ip id sequence (drop 8 message) n
    else if get_or message 0 0 == 0
    then returned (set_reply_received id sequence n)
    else returned n

-- `&eth_payload[ihl..total_len]`, which panics when the bounds cross.
unfoldable pub handle_ip_data : World → List ℕ → ℕ → ℕ → Net → Effect
handle_ip_data w bytes ihl total_len n =
    if ltb total_len ihl
    then panicked
    else if get_or bytes 9 0 == 1
    then handle_icmp w (slice 12 4 bytes) (slice ihl (total_len - ihl) bytes) n
    else returned n

-- The bytes of the header with the checksum field zero.
unfoldable pub zeroed_header : List ℕ → List ℕ
zeroed_header bytes = take 10 bytes ++ 0 ∷ 0 ∷ slice 12 8 bytes

unfoldable pub handle_ip : World → List ℕ → Net → Effect
unfolding zeroed_header handle_ip_data
handle_ip w bytes n =
    let total_len = join_bytes (get_or bytes 2 0) (get_or bytes 3 0) in
    let dst_ip = slice 16 4 bytes in
    if ltb (length bytes) 20
    then returned n
    else if not (get_or bytes 0 0 / 16 % 16 == 4)
    then returned n
    else if ltb (length bytes) total_len
    then returned n
    else if not (bytes_eq dst_ip (get_local_ip n))
        && not (bytes_eq dst_ip (255 ∷ 255 ∷ 255 ∷ 255 ∷ []))
    then returned n
    else if not (
        internet_checksum (zeroed_header bytes)
        == join_bytes (get_or bytes 10 0) (get_or bytes 11 0))
    then returned n
    else handle_ip_data w bytes (get_or bytes 0 0 % 16 * 4) total_len n

unfoldable pub count_frame : ℕ → Net → Net
count_frame size n = record n {
  rx_packets = add_u64 n.rx_packets 1;
  rx_bytes = add_u64 n.rx_bytes size;
}

-- The dispatch on the type of a frame that is for this machine.
unfoldable pub handle_payload : World → ℕ → List ℕ → Net → Effect
handle_payload w ether_type payload n =
    if ether_type == 0x0806
    then returned (handle_arp w.takes payload n)
    else if ether_type == 0x0800
    then handle_ip w payload n
    else returned n

unfoldable pub handle_ethernet : World → List ℕ → Net → Effect
unfolding count_frame handle_payload
handle_ethernet w bytes n =
    let dst_mac = take 6 bytes in
    let ether_type = join_bytes (get_or bytes 12 0) (get_or bytes 13 0) in
    if ltb (length bytes) 14
    then returned n
    else if not (bytes_eq dst_mac broadcast_mac) && not (bytes_eq dst_mac (get_local_mac n))
    then returned (count_frame (length bytes) n)
    else handle_payload w ether_type (drop 14 bytes) (count_frame (length bytes) n)

-- `poll_recv` and `poll_recv_static`, with the frame that the driver has, if any.
unfoldable pub poll_recv : World → Option (List ℕ) → Net → Effect
poll_recv w none n = returned n
poll_recv w (some bytes) n = if n.initialized then handle_ethernet w bytes n else returned n
