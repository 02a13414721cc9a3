-- ===== src/Net/Arp/Wait.antt =====
-- What `resolve` of kernel/src/net/arp.rs gives for an address that is not in the table: its loop
-- reads no frame itself, so only what other tasks handle can answer it.
use vibra.Net.{Net, send_ethernet, transmit}
use vibra.Net.Arp.{
  Turn, Answer, resolved, timed_out, wait, wait_turn, elapsed, hear, timeout_ms, resolve,
  resolve_from, lookup, send_arp_request, arp_packet, handle_arp, on_reply, on_request,
  send_arp_reply, is_pending,
}
use vibra.Net.Addresses.{length-six, length-four}
use vibra.Common.{
  ℕ, List, [], ◌∷◌, ◌++◌, Option, none, some, Bool, true, false, ◌≡◌, refl, ap, ◌∙◌, length, ◌⊎◌,
  inl, inr, map, arith, ◌≤◌, join_bytes, bytes_eq_refl, bytes_eq, get_or, slice, not, ltb, ◌&&◌,
  ◌==◌, ◌<◌, Bool-cases,
}

-- A turn before which nothing was handled.
abbrev pub quiet : ℕ → Turn
quiet now = record { heard = []; now = now }

-- A turn that finds no answer ends the wait, or goes on to the next.
wait_turn-none :
    (late : Bool) (slot : Option (List ℕ)) (n : Net) (rest : Answer × Net)
    → slot ≡ none
    → (late ≡ true) ⊎ (rest.0 ≡ timed_out)
    → (wait_turn late slot n rest).0 ≡ timed_out
unfolding wait_turn
wait_turn-none late (some mac) n rest empty h = absurd (cc)
wait_turn-none true none n rest empty h = refl
wait_turn-none false none n rest empty (inl p) = absurd (cc)
wait_turn-none false none n rest empty (inr p) = p

wait-quiet :
    (takes : List ℕ → Bool) (start : ℕ) (clocks : List ℕ) (late : ℕ) (more : List ℕ) (n : Net)
    → n.resolved_mac ≡ none
    → timeout_ms ≤ elapsed start late
    → (wait takes start (map quiet (clocks ++ late ∷ more)) n).0 ≡ timed_out
unfolding wait hear
wait-quiet takes start [] late more n empty past = wait_turn-none _ _ n _ empty (inl (ground arith))
wait-quiet takes start (c ∷ cs) late more n empty past =
    wait_turn-none _ _ n _ empty (inr (wait-quiet takes start cs late more n empty past))

-- For an address that the table lacks, when no other task handles a frame, `resolve` gives up
-- once a turn reads 3000 ms since the start, whatever the turns before it read.
pub resolve-times_out :
    (takes : List ℕ → Bool) (start : ℕ) (clocks : List ℕ) (late : ℕ) (more : List ℕ)
    (target_ip src_mac src_ip : List ℕ) (n : Net)
    → lookup target_ip n.arp_table ≡ none
    → timeout_ms ≤ elapsed start late
    → (resolve takes start (map quiet (clocks ++ late ∷ more)) target_ip src_mac src_ip n).0
      ≡ timed_out
unfolding resolve resolve_from
resolve-times_out takes start clocks late more target_ip src_mac src_ip n missing past =
    rw missing (wait-quiet takes start clocks late more _ refl past)

wait_turn-some :
    (late : Bool) (slot : Option (List ℕ)) (mac : List ℕ) (n : Net) (rest : Answer × Net)
    → slot ≡ some mac
    → (wait_turn late slot n rest).0 ≡ resolved mac
unfolding wait_turn
wait_turn-some late none mac n rest h = absurd (cc)
wait_turn-some late (some m) mac n rest h = cc

-- The reply of a host is read as the host wrote it.
handle_arp-arp_packet :
    (takes : List ℕ → Bool) (mac ip to_mac to_ip : List ℕ) (n : Net)
    → length mac ≡ 6
    → length ip ≡ 4
    → length to_mac ≡ 6
    → length to_ip ≡ 4
    → handle_arp takes (arp_packet 2 mac ip to_mac to_ip) n ≡ on_reply mac ip n
unfolding handle_arp arp_packet join_bytes
handle_arp-arp_packet takes mac ip to_mac to_ip n m i k j =
    let mac_bytes = length-six mac m in
    let ip_bytes = length-four ip i in
    let to_mac_bytes = length-six to_mac k in
    let to_ip_bytes = length-four to_ip j in
    rw (mac_bytes.6, ip_bytes.4, to_mac_bytes.6, to_ip_bytes.4) refl

on_reply-awaited :
    (mac ip : List ℕ) (n : Net)
    → n.pending_ip ≡ some ip
    → (on_reply mac ip n).resolved_mac ≡ some mac
unfolding on_reply is_pending
on_reply-awaited mac ip n h = simp (h, bytes_eq_refl ip)

-- Whether a packet is an ARP reply by the host of an address: operation 2, and the sender's address at 14.
unfoldable pub is_answer : List ℕ → List ℕ → Bool
is_answer ip p =
    not (ltb (length p) 28)
    && join_bytes (get_or p 6 0) (get_or p 7 0) == 2
    && bytes_eq ip (slice 14 4 p)

abbrev pub NoAnswer : List ℕ → List (List ℕ) → Type 0
NoAnswer ip [] = Unit
NoAnswer ip (p ∷ ps) = (is_answer ip p ≡ false) × NoAnswer ip ps

-- Turns before which no answer came, and which the time limit does not end.
abbrev pub NotYet : List ℕ → ℕ → List Turn → Type 0
NotYet ip start [] = Unit
NotYet ip start (t ∷ ts) =
    NoAnswer ip t.heard × (elapsed start t.now < timeout_ms) × NotYet ip start ts

-- `resolve` waits for an address, and has read so much of an answer.
record Waits (ip : List ℕ) (slot : Option (List ℕ)) (n : Net) : Type 0 where
  asked : n.pending_ip ≡ some ip
  slot_holds : n.resolved_mac ≡ slot

on_request-Waits :
    (takes : List ℕ → Bool) (mac ip target asked : List ℕ) (slot : Option (List ℕ)) (n : Net)
    → Waits asked slot n
    → Waits asked slot (on_request takes mac ip target n)
unfolding on_request send_arp_reply send_ethernet transmit
on_request-Waits takes mac ip target asked slot n w = record {
  asked = (let e = w.asked in ground arith);
  slot_holds = (let e = w.slot_holds in ground arith);
}

handle_arp-Waits :
    (takes : List ℕ → Bool) (p ip : List ℕ) (slot : Option (List ℕ)) (n : Net)
    → is_answer ip p ≡ false
    → Waits ip slot n
    → Waits ip slot (handle_arp takes p n)
unfolding handle_arp is_answer
handle_arp-Waits takes p ip slot n other w =
    let opcode = join_bytes (get_or p 6 0) (get_or p 7 0) in
    elim (Bool-cases (ltb (length p) 28)) [
      | inl short ↦ rw short w
      | inr long ↦ rw long (elim (Bool-cases (opcode == 1)) [
        | inl one ↦ rw one (on_request-Waits takes _ _ _ ip slot n w)
        | inr more ↦ rw more (elim (Bool-cases (opcode == 2)) [
          | inl two ↦ rw two (
              unfold on_reply is_pending in
              record {
                asked = w.asked;
                slot_holds = (let e = w.slot_holds in rw w.asked (ground arith));
              })
          | inr none_of_them ↦ rw none_of_them w
        ])
      ])
    ]

hear-Waits :
    (takes : List ℕ → Bool) (ps : List (List ℕ)) (ip : List ℕ) (slot : Option (List ℕ)) (n : Net)
    → NoAnswer ip ps
    → Waits ip slot n
    → Waits ip slot (hear takes ps n)
unfolding hear
hear-Waits takes [] ip slot n o w = w
hear-Waits takes (p ∷ ps) ip slot n o w =
    hear-Waits takes ps ip slot (handle_arp takes p n) o.1
      (handle_arp-Waits takes p ip slot n o.0 w)

hear-append :
    (takes : List ℕ → Bool) (ps qs : List (List ℕ)) (n : Net)
    → hear takes (ps ++ qs) n ≡ hear takes qs (hear takes ps n)
unfolding hear
hear-append takes [] qs n = refl
hear-append takes (p ∷ ps) qs n = hear-append takes ps qs (handle_arp takes p n)

wait_turn-later :
    (late : Bool) (slot : Option (List ℕ)) (n : Net) (rest : Answer × Net)
    → late ≡ false
    → slot ≡ none
    → wait_turn late slot n rest ≡ rest
unfolding wait_turn
wait_turn-later late (some mac) n rest e empty = absurd (cc)
wait_turn-later true none n rest e empty = absurd (cc)
wait_turn-later false none n rest e empty = refl

wait-later :
    (takes : List ℕ → Bool) (start : ℕ) (earlier turns : List Turn) (ip : List ℕ) (n : Net)
    → NotYet ip start earlier
    → Waits ip none n
    → (m : Net) × Waits ip none m
      × (wait takes start (earlier ++ turns) n ≡ wait takes start turns m)
unfolding wait
wait-later takes start [] turns ip n o w = (n, w, refl)
wait-later takes start (t ∷ ts) turns ip n o w =
    let heard = hear-Waits takes t.heard ip none n o.0 w in
    let (m, w', e) = wait-later takes start ts turns ip (hear takes t.heard n) o.2 heard in
    (m, w', wait_turn-later _ _ _ _ (ground (arith, o.1)) heard.slot_holds ∙ e)

-- A reply that is awaited fills the slot.
on_reply-Waits :
    (mac ip : List ℕ) (slot : Option (List ℕ)) (n : Net)
    → Waits ip slot n
    → Waits ip (some mac) (on_reply mac ip n)
unfolding on_reply
on_reply-Waits mac ip slot n w = record {
  asked = w.asked;
  slot_holds = on_reply-awaited mac ip n w.asked;
}

-- For an address that the table lacks, all addresses being of full length: after any turns of the
-- loop of `resolve` that the time limit does not end and before which whatever packets were
-- handled, but no ARP reply by the owner of the address, the turn before which one such reply is
-- handled, among packets that are none, returns the address that the reply names, whatever the
-- clock reads then.
pub resolve-answered :
    (takes : List ℕ → Bool) (start now : ℕ) (earlier rest : List Turn)
    (before behind : List (List ℕ)) (target_ip target_mac src_mac src_ip : List ℕ) (n : Net)
    → length target_ip ≡ 4
    → length target_mac ≡ 6
    → length src_mac ≡ 6
    → length src_ip ≡ 4
    → lookup target_ip n.arp_table ≡ none
    → NotYet target_ip start earlier
    → NoAnswer target_ip before
    → NoAnswer target_ip behind
    → (let reply = arp_packet 2 target_mac target_ip src_mac src_ip in
        let turns = earlier ++ record { heard = before ++ reply ∷ behind; now = now } ∷ rest in
        (resolve takes start turns target_ip src_mac src_ip n).0 ≡ resolved target_mac)
unfolding resolve resolve_from wait hear
resolve-answered takes start now earlier rest before behind target_ip target_mac src_mac src_ip n ti
      tm sm si missing quiet_before o_before o_behind =
    let asking = record (send_arp_request takes target_ip src_mac src_ip n) {
      pending_ip = some target_ip;
      resolved_mac = none;
    } in
    let reply = arp_packet 2 target_mac target_ip src_mac src_ip in
    let turn : Turn = record { heard = before ++ reply ∷ behind; now = now } in
    let (m, waits, e) =
      wait-later takes start earlier (turn ∷ rest) target_ip asking quiet_before
        (record { asked = refl; slot_holds = refl }) in
    let m' = hear takes before m in
    let met = hear-Waits takes before target_ip none m o_before waits in
    let heard = handle_arp-arp_packet takes target_mac target_ip src_mac src_ip m' tm ti sm si in
    let filled = on_reply-Waits target_mac target_ip none m' met in
    let kept =
      hear-Waits takes behind target_ip (some target_mac) (handle_arp takes reply m') o_behind
        (rw heard filled) in
    rw missing (
      ap (λ r. r.0) e
      ∙ wait_turn-some _ _ target_mac _ _ (
          ap (λ k. k.resolved_mac) (hear-append takes before (reply ∷ behind) m) ∙ kept.slot_holds))
