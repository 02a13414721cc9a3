-- ===== src/Net/Receive/RoundTrip.antt =====
-- What one machine sends, another one reads: the header of ip.rs and the echo messages of icmp.rs
-- from the sending functions of kernel/src/net to the receiving ones.
use vibra.Net.{Net, get_local_ip, get_local_mac, frame}
use vibra.Net.Checksum.{internet_checksum}
use vibra.Net.Addresses.{length-four, length-six}
use vibra.Net.Ip.{World, returned, ip_packet, ip_header}
use vibra.Net.Receive.{
  handle_ip, handle_ip_data, zeroed_header, handle_icmp, echo_message, echo_bytes, send_echo_reply,
  set_reply_received, icmp_pending_reply, handle_ethernet, handle_payload, count_frame,
}
use vibra.Common.{
  ℕ, zero, suc, ◌+◌, ◌-◌, ◌<◌, List, [], ◌∷◌, true, ◌≡◌, refl, ap, length, take, arith,
  bytes_eq_refl, high_byte, low_byte, join_bytes, join_bytes_lem,
}

pub internet_checksum_bound : (bytes : List ℕ) → internet_checksum bytes < 65536
unfolding internet_checksum
internet_checksum_bound bytes = omega arith

-- A 16-bit number is read back from its two bytes.
pub join_bytes_of : (x : ℕ) → x < 65536 → join_bytes (high_byte x) (low_byte x) ≡ x
join_bytes_of x h =
    omega (arith, join_bytes_lem (high_byte x) (low_byte x) (omega arith) (omega arith))

take_all : (xs : List ℕ) (n : ℕ) → length xs ≡ n → take n xs ≡ xs
take_all [] zero h = refl
take_all [] (suc n) h = refl
take_all (x ∷ xs) zero h = absurd (omega arith)
take_all (x ∷ xs) (suc n) h = ap (λ rest. x ∷ rest) (take_all xs n (omega arith))

-- A packet that `send_ip` builds for the receiver's address, with addresses of 4 bytes and fewer
-- than 65516 bytes of data, passes every test of `handle_ip`, and its data goes to `handle_icmp`
-- whole, with the sender's address.
pub handle_ip-ip_packet :
    (w : World) (src_ip dst_ip payload : List ℕ) (n : Net)
    → length src_ip ≡ 4
    → length dst_ip ≡ 4
    → length payload < 65516
    → get_local_ip n ≡ dst_ip
    → handle_ip w (ip_packet 1 src_ip dst_ip payload) n ≡ handle_icmp w src_ip payload n
unfolding handle_ip ip_packet handle_ip_data zeroed_header ip_header
handle_ip-ip_packet w src_ip dst_ip payload n s d short mine =
    let i = length-four src_ip s in
    let j = length-four dst_ip d in
    let len = join_bytes_of (20 + length payload) (omega arith) in
    let header =
      ip_header (20 + length payload) 1 (i.0 ∷ i.1 ∷ i.2 ∷ i.3 ∷ []) (j.0 ∷ j.1 ∷ j.2 ∷ j.3 ∷ []) 0
        0 in
    let csum = join_bytes_of (internet_checksum header) (internet_checksum_bound header) in
    let all = take_all payload (20 + length payload - 20) (omega arith) in
    rw mine (rw (i.4, j.4) (rw (len, bytes_eq_refl _, csum, all) (ground arith)))

-- A frame for this machine is counted and its packet handled.
pub handle_ethernet-frame :
    (w : World) (dst src packet : List ℕ) (n : Net)
    → length dst ≡ 6
    → length src ≡ 6
    → get_local_mac n ≡ dst
    → handle_ethernet w (frame dst src 0x0800 packet) n
      ≡ handle_ip w packet (count_frame (14 + length packet) n)
unfolding handle_ethernet handle_payload frame join_bytes count_frame
handle_ethernet-frame w dst src packet n d s mine =
    let i = length-six dst d in
    let j = length-six src s in rw mine (rw (i.6, j.6) (rw (bytes_eq_refl _) (ground arith)))

pub echo_message-length :
    (type_code id sequence : ℕ) (payload : List ℕ)
    → length (echo_message type_code id sequence payload) ≡ 8 + length payload
unfolding echo_message echo_bytes
echo_message-length type_code id sequence payload = omega arith

pub handle_icmp-request :
    (w : World) (src_ip payload : List ℕ) (id sequence : ℕ) (n : Net)
    → id < 65536
    → sequence < 65536
    → handle_icmp w src_ip (echo_message 8 id sequence payload) n
      ≡ send_echo_reply w src_ip id sequence payload n
unfolding handle_icmp echo_message echo_bytes
handle_icmp-request w src_ip payload id sequence n i s =
    rw (join_bytes_of id i, join_bytes_of sequence s) (ground arith)

pub handle_icmp-reply :
    (w : World) (src_ip payload : List ℕ) (id sequence : ℕ) (n : Net)
    → id < 65536
    → sequence < 65536
    → handle_icmp w src_ip (echo_message 0 id sequence payload) n
      ≡ returned (set_reply_received id sequence n)
unfolding handle_icmp echo_message echo_bytes
handle_icmp-reply w src_ip payload id sequence n i s =
    rw (join_bytes_of id i, join_bytes_of sequence s) (ground arith)

pub icmp_pending_reply-set_reply_received :
    (id sequence : ℕ) (n : Net)
    → (icmp_pending_reply id sequence (set_reply_received id sequence n)).0 ≡ true
unfolding icmp_pending_reply set_reply_received
icmp_pending_reply-set_reply_received id sequence n = ground arith
