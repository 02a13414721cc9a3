-- ===== src/Net/Checks.antt =====
-- Runs of the network stack of kernel/src/net: two machines on one wire.
use vibra.Net.{Net, ArpEntry, no_net, get_local_ip, get_local_mac, get_subnet_mask}
use vibra.Net.Checksum.{internet_checksum, none_left, two_more, checksum_verifies}
use vibra.Net.Arp.{Turn, elapsed, resolved, resolve, lookup, arp_packet}
use vibra.Net.Arp.Wait.{is_answer, resolve-answered}
use vibra.Net.Ip.{World, panicked, ip_packet, ip_header, next_hop}
use vibra.Net.Receive.{handle_ip, handle_icmp}
use vibra.Net.Receive.RoundTrip.{handle_ip-ip_packet}
use vibra.Net.Receive.Ping.{IsAnswered, ping-IsAnswered}
use vibra.Net.Receive.Malformed.{handle_ip-panics}
use vibra.Common.{
  ℕ, List, [], ◌∷◌, ◌++◌, some, true, ◌≡◌, refl, arith, high_byte, low_byte, bytes_eq, join_bytes,
}

abbrev mac_a : List ℕ
mac_a = 0x52 ∷ 0x54 ∷ 0 ∷ 0x12 ∷ 0x34 ∷ 0x56 ∷ []

abbrev mac_b : List ℕ
mac_b = 0x52 ∷ 0x55 ∷ 10 ∷ 0 ∷ 2 ∷ 2 ∷ []

abbrev ip_a : List ℕ
ip_a = 10 ∷ 0 ∷ 2 ∷ 15 ∷ []

abbrev ip_b : List ℕ
ip_b = 10 ∷ 0 ∷ 2 ∷ 2 ∷ []

abbrev machine : List ℕ → List ℕ → List ArpEntry → Net
machine mac ip table = record no_net {
  interface =
      some (record { mac = mac; ip = ip; gateway = ip_b; subnet_mask = 255 ∷ 255 ∷ 255 ∷ 0 ∷ [] });
  initialized = true;
  arp_table = table;
}

abbrev a : Net
a = machine mac_a ip_a (record { ip = ip_b; mac = mac_b } ∷ [])

abbrev b : Net
b = machine mac_b ip_b (record { ip = ip_a; mac = mac_a } ∷ [])

-- The same machine before it has heard of any other.
abbrev cold : Net
cold = machine mac_a ip_a []

abbrev world : World
world = record { takes = λ f. true; start = 0; turns = [] }

ping-IsAnswered_example : IsAnswered world world 0xbeef 1 (1 ∷ 2 ∷ 3 ∷ []) a b
unfolding get_local_mac get_local_ip lookup bytes_eq next_hop get_subnet_mask
ping-IsAnswered_example =
    ping-IsAnswered world world 0xbeef 1 (1 ∷ 2 ∷ 3 ∷ []) a b refl refl refl refl (omega arith)
      (omega arith) (omega arith) refl refl (λ f le. refl) (λ f le. refl)

handle_ip-ip_packet_example :
    handle_ip world (ip_packet 1 ip_a ip_b (8 ∷ 0 ∷ [])) b ≡ handle_icmp world ip_a (8 ∷ 0 ∷ []) b
unfolding get_local_ip
handle_ip-ip_packet_example =
    handle_ip-ip_packet world ip_a ip_b (8 ∷ 0 ∷ []) b refl refl (omega arith) refl

handle_ip-panics_example :
    (let c = internet_checksum (ip_header 0 1 ip_a ip_b 0 0) in
      handle_ip world (ip_header 0 1 ip_a ip_b (high_byte c) (low_byte c) ++ []) b ≡ panicked)
unfolding get_local_ip
handle_ip-panics_example = handle_ip-panics world 0 1 ip_a ip_b [] b refl refl (omega arith) refl

checksum_verifies_example :
    (let c = internet_checksum ((8 ∷ 0 ∷ []) ++ 0 ∷ 0 ∷ 7 ∷ []) in
      internet_checksum ((8 ∷ 0 ∷ []) ++ high_byte c ∷ low_byte c ∷ 7 ∷ []) ≡ 0)
checksum_verifies_example =
    checksum_verifies (8 ∷ 0 ∷ []) (7 ∷ []) (two_more 8 0 [] none_left)
      (omega arith, (omega arith, tt)) (omega arith, tt) (omega arith)

-- The reply of a third machine, which comes first and is not the answer.
abbrev other_reply : List ℕ
other_reply = arp_packet 2 (2 ∷ 2 ∷ 2 ∷ 2 ∷ 2 ∷ 2 ∷ []) (10 ∷ 0 ∷ 2 ∷ 9 ∷ []) mac_a ip_a

abbrev first_turn : Turn
first_turn = record { heard = other_reply ∷ []; now = 100 }

resolve-answered_example :
    (let reply = arp_packet 2 mac_b ip_b mac_a ip_a in
      let turns =
        (first_turn ∷ []) ++ record { heard = (other_reply ∷ []) ++ reply ∷ []; now = 101 } ∷ [] in
      (resolve (λ f. true) 100 turns ip_b mac_a ip_a cold).0 ≡ resolved mac_b)
unfolding lookup is_answer arp_packet elapsed bytes_eq join_bytes
resolve-answered_example =
    resolve-answered (λ f. true) 100 101 (first_turn ∷ []) [] (other_reply ∷ []) [] ip_b mac_b mac_a
      ip_a cold refl refl refl refl refl ((refl, tt), omega arith, tt) (refl, tt) tt
