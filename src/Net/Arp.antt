-- ===== src/Net/Arp.antt =====
-- The address resolution protocol, kernel/src/net/arp.rs: the table, the packets and `resolve`. While
-- `resolve` waits, other tasks may handle frames: each turn of its loop is given with the ARP
-- packets handled before it, and the clock that it reads.
pub mod Table
pub mod Wait
use vibra.Net.{Net, ArpEntry, get_local_ip, get_local_mac, send_ethernet}
use vibra.Common.{ℕ, ◌+◌, ◌-◌, ◌%◌, List, [], ◌∷◌, ◌++◌, Option, none, some, Bool, true, false}
use vibra.Common.{
  if◌then◌else◌, ltb, leb, ◌==◌, length, get_or, slice, join_bytes, bytes_eq, u64_mod, ◌&&◌,
}

-- The write or the push of `add_entry`.
unfoldable pub add_entry : List ℕ → List ℕ → List ArpEntry → List ArpEntry
add_entry ip mac [] = record { ip = ip; mac = mac } ∷ []
add_entry ip mac (e ∷ es) =
    if bytes_eq e.ip ip then record e { mac = mac } ∷ es else e ∷ add_entry ip mac es

-- The loop over the table at the start of `resolve`.
unfoldable pub lookup : List ℕ → List ArpEntry → Option (List ℕ)
lookup ip [] = none
lookup ip (e ∷ es) = if bytes_eq e.ip ip then some e.mac else lookup ip es

abbrev pub broadcast_mac : List ℕ
broadcast_mac = 255 ∷ 255 ∷ 255 ∷ 255 ∷ 255 ∷ 255 ∷ []

-- The 28 bytes of `ArpPacket` in network order; `opcode` is 1 or 2.
unfoldable pub arp_packet : ℕ → List ℕ → List ℕ → List ℕ → List ℕ → List ℕ
arp_packet opcode sender_mac sender_ip target_mac target_ip =
    0 ∷ 1 ∷ 8 ∷ 0 ∷ 6 ∷ 4 ∷ 0 ∷ opcode ∷ sender_mac ++ sender_ip ++ target_mac ++ target_ip

unfoldable pub send_arp_request : (List ℕ → Bool) → List ℕ → List ℕ → List ℕ → Net → Net
unfolding arp_packet
send_arp_request takes target_ip src_mac src_ip =
    send_ethernet takes broadcast_mac 0x0806
      (arp_packet 1 src_mac src_ip (0 ∷ 0 ∷ 0 ∷ 0 ∷ 0 ∷ 0 ∷ []) target_ip)

unfoldable pub send_arp_reply : (List ℕ → Bool) → List ℕ → List ℕ → List ℕ → List ℕ → Net → Net
unfolding arp_packet
send_arp_reply takes target_mac target_ip src_mac src_ip =
    send_ethernet takes target_mac 0x0806 (arp_packet 2 src_mac src_ip target_mac target_ip)

-- `pending == Some(sender_ip)`.
unfoldable pub is_pending : Option (List ℕ) → List ℕ → Bool
is_pending none ip = false
is_pending (some p) ip = bytes_eq p ip

unfoldable pub on_request : (List ℕ → Bool) → List ℕ → List ℕ → List ℕ → Net → Net
on_request takes sender_mac sender_ip target_ip n =
    if bytes_eq target_ip (get_local_ip n)
    then send_arp_reply takes sender_mac sender_ip (get_local_mac n) (get_local_ip n)
        (record n { arp_table = add_entry sender_ip sender_mac n.arp_table })
    else n

unfoldable pub on_reply : List ℕ → List ℕ → Net → Net
unfolding is_pending
on_reply sender_mac sender_ip n = record n {
  arp_table = add_entry sender_ip sender_mac n.arp_table;
  resolved_mac = if is_pending n.pending_ip sender_ip then some sender_mac else n.resolved_mac;
}

unfoldable pub handle_arp : (List ℕ → Bool) → List ℕ → Net → Net
unfolding on_request on_reply
handle_arp takes payload n =
    let opcode = join_bytes (get_or payload 6 0) (get_or payload 7 0) in
    if ltb (length payload) 28
    then n
    else if opcode == 1
    then on_request takes (slice 8 6 payload) (slice 14 4 payload) (slice 24 4 payload) n
    else if opcode == 2
    then on_reply (slice 8 6 payload) (slice 14 4 payload) n
    else n

-- A turn of the loop of `resolve`: what other tasks handled before it, and its `uptime_ms()`.
pub record Turn : Type 0 where
  pub heard : List (List ℕ)
  pub now : ℕ

unfoldable pub hear : (List ℕ → Bool) → List (List ℕ) → Net → Net
hear takes [] n = n
hear takes (p ∷ ps) n = hear takes ps (handle_arp takes p n)

pub data Answer : Type 0 where
  resolved : List ℕ → Answer
  timed_out still_waiting : Answer

abbrev pub timeout_ms : ℕ
timeout_ms = 3000

-- `now.wrapping_sub(start)`.
unfoldable pub elapsed : ℕ → ℕ → ℕ
elapsed start now = (now + u64_mod - start) % u64_mod

abbrev pub no_longer_pending : Net → Net
no_longer_pending n = record n { pending_ip = none }

-- One turn, with what the loop does after it.
unfoldable pub wait_turn : Bool → Option (List ℕ) → Net → Answer × Net → Answer × Net
wait_turn late (some mac) n rest = (resolved mac, no_longer_pending n)
wait_turn late none n rest = if late then (timed_out, no_longer_pending n) else rest

unfoldable pub wait : (List ℕ → Bool) → ℕ → List Turn → Net → Answer × Net
unfolding elapsed hear wait_turn
wait takes start [] n = (still_waiting, n)
wait takes start (t ∷ ts) n =
    let after = hear takes t.heard n in
    wait_turn (leb timeout_ms (elapsed start t.now)) after.resolved_mac after
      (wait takes start ts after)

unfoldable pub resolve_from :
    (List ℕ → Bool)
    → ℕ
    → List Turn
    → List ℕ
    → List ℕ
    → List ℕ
    → Option (List ℕ)
    → Net
    → Answer × Net
unfolding wait
resolve_from takes start turns target_ip src_mac src_ip (some mac) n = (resolved mac, n)
resolve_from takes start turns target_ip src_mac src_ip none n =
    wait takes start turns (record (send_arp_request takes target_ip src_mac src_ip n) {
      pending_ip = some target_ip;
      resolved_mac = none;
    })

unfoldable pub resolve :
    (List ℕ → Bool) → ℕ → List Turn → List ℕ → List ℕ → List ℕ → Net → Answer × Net
unfolding resolve_from
resolve takes start turns target_ip src_mac src_ip n =
    resolve_from takes start turns target_ip src_mac src_ip (lookup target_ip n.arp_table) n
