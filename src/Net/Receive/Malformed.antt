-- ===== src/Net/Receive/Malformed.antt =====
-- `handle_ip` of kernel/src/net/ip.rs on a packet whose total length is below its header's length.
use vibra.Net.{Net, get_local_ip}
use vibra.Net.Checksum.{internet_checksum}
use vibra.Net.Addresses.{length-four}
use vibra.Net.Ip.{World, panicked, ip_header}
use vibra.Net.Receive.{handle_ip, handle_ip_data, zeroed_header}
use vibra.Net.Receive.RoundTrip.{internet_checksum_bound, join_bytes_of}
use vibra.Common.{
  ℕ, ◌<◌, List, [], ◌∷◌, ◌++◌, ◌≡◌, length, arith, bytes_eq_refl, high_byte, low_byte,
}

-- A packet for this machine with a right header checksum, a header of 20 bytes and a total length
-- below 20 panics the kernel in `handle_ip`, whatever its protocol and the bytes behind the
-- header.
pub handle_ip-panics :
    (w : World) (total_len protocol : ℕ) (src_ip dst_ip rest : List ℕ) (n : Net)
    → length src_ip ≡ 4
    → length dst_ip ≡ 4
    → total_len < 20
    → get_local_ip n ≡ dst_ip
    → (let c = internet_checksum (ip_header total_len protocol src_ip dst_ip 0 0) in
        handle_ip w
          (ip_header total_len protocol src_ip dst_ip (high_byte c) (low_byte c) ++ rest)
          n
        ≡ panicked)
unfolding handle_ip handle_ip_data zeroed_header ip_header
handle_ip-panics w total_len protocol src_ip dst_ip rest n s d short mine =
    let i = length-four src_ip s in
    let j = length-four dst_ip d in
    let len = join_bytes_of total_len (omega arith) in
    let header =
      ip_header total_len protocol (i.0 ∷ i.1 ∷ i.2 ∷ i.3 ∷ []) (j.0 ∷ j.1 ∷ j.2 ∷ j.3 ∷ []) 0 0 in
    let csum = join_bytes_of (internet_checksum header) (internet_checksum_bound header) in
    rw mine (rw (i.4, j.4) (rw (len, bytes_eq_refl _, csum) (ground arith)))
