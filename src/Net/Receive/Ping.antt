-- ===== src/Net/Receive/Ping.antt =====
-- An echo request from one machine to another and back, through kernel/src/net on both.
use vibra.Net.{
  Net, get_local_ip, get_local_mac, get_gateway, get_subnet_mask, frame, send_ethernet, transmit,
  buffer_size,
}
use vibra.Net.Addresses.{length-four, length-six}
use vibra.Net.Arp.{resolve, resolve_from, lookup}
use vibra.Net.Ip.{World, returned, send_ip, send_resolved, ip_packet, ip_header, next_hop}
use vibra.Net.Receive.{
  handle_icmp, echo_message, send_echo_request, send_echo_reply, icmp_pending_reply,
  handle_ethernet, count_frame,
}
use vibra.Net.Receive.RoundTrip.{
  handle_ip-ip_packet, handle_ethernet-frame, handle_icmp-request, handle_icmp-reply,
  echo_message-length, icmp_pending_reply-set_reply_received,
}
use vibra.Common.{
  ℕ, ◌+◌, ◌<◌, ◌≤◌, List, [], ◌∷◌, ◌++◌, some, Bool, true, ◌≡◌, refl, ap₂, inl, inr, Bool-cases,
  sym, ap, ◌∙◌, length, take, zero, suc, arith,
}

take_fits : (xs : List ℕ) (n : ℕ) → length xs ≤ n → take n xs ≡ xs
take_fits [] zero h = refl
take_fits [] (suc n) h = refl
take_fits (x ∷ xs) zero h = absurd (omega arith)
take_fits (x ∷ xs) (suc n) h = ap (λ ys. x ∷ ys) (take_fits xs n (omega arith))

-- A packet whose next hop is in the table is given to the driver at once.
pub send_ip-known :
    (w : World) (dst_ip : List ℕ) (protocol : ℕ) (payload mac : List ℕ) (n : Net)
    → lookup (next_hop dst_ip n) n.arp_table ≡ some mac
    → send_ip w dst_ip protocol payload n
      ≡ returned
          (send_ethernet w.takes mac 0x0800 (ip_packet protocol (get_local_ip n) dst_ip payload) n)
unfolding send_ip resolve resolve_from send_resolved
send_ip-known w dst_ip protocol payload mac n known = rw known refl

-- A frame that fits in a buffer of the driver is on the wire as it is.
send_ethernet-wire :
    (takes : List ℕ → Bool) (dst : List ℕ) (ether_type : ℕ) (payload : List ℕ) (n : Net)
    → takes (frame dst (get_local_mac n) ether_type payload) ≡ true
    → length (frame dst (get_local_mac n) ether_type payload) ≤ buffer_size
    → (send_ethernet takes dst ether_type payload n).wire
      ≡ n.wire ++ frame dst (get_local_mac n) ether_type payload ∷ []
unfolding send_ethernet transmit
send_ethernet-wire takes dst ether_type payload n taken fits =
    rw (taken, take_fits (frame dst (get_local_mac n) ether_type payload) buffer_size fits) refl

get_local_ip-count_frame : (size : ℕ) (n : Net) → get_local_ip (count_frame size n) ≡ get_local_ip n
unfolding get_local_ip count_frame
get_local_ip-count_frame size n = refl

get_local_mac-count_frame :
    (size : ℕ) (n : Net) → get_local_mac (count_frame size n) ≡ get_local_mac n
unfolding get_local_mac count_frame
get_local_mac-count_frame size n = refl

-- The frame that carries an echo message from one machine to another.
abbrev pub echo_frame : List ℕ → List ℕ → List ℕ → List ℕ → ℕ → ℕ → ℕ → List ℕ → List ℕ
echo_frame dst_mac src_mac src_ip dst_ip type_code id sequence payload =
    frame dst_mac src_mac 0x0800
      (ip_packet 1 src_ip dst_ip (echo_message type_code id sequence payload))

module _ (w : World) (src_mac src_ip payload : List ℕ) (id sequence : ℕ) (n : Net)
    (mac6 : length (get_local_mac n) ≡ 6) (ip4 : length (get_local_ip n) ≡ 4)
    (src_mac6 : length src_mac ≡ 6) (src_ip4 : length src_ip ≡ 4) (short : length payload < 65508)
    (id16 : id < 65536) (sequence16 : sequence < 65536) where
  handle_ethernet-echo :
      (type_code : ℕ)
      → (size : ℕ) × (handle_ethernet w
            (echo_frame
              (get_local_mac n)
              src_mac
              src_ip
              (get_local_ip n)
              type_code
              id
              sequence
              payload)
            n
          ≡ handle_icmp w src_ip (echo_message type_code id sequence payload) (count_frame size n))
  handle_ethernet-echo type_code = (
    _,
    handle_ethernet-frame w _ src_mac _ n mac6 src_mac6 refl
        ∙ handle_ip-ip_packet w src_ip (get_local_ip n) (echo_message type_code id sequence payload)
            _ src_ip4 ip4 (omega (arith, echo_message-length type_code id sequence payload))
            (get_local_ip-count_frame _ n),
  )

  -- An echo request for this machine is answered by the reply of the same number and payload.
  pub handle_ethernet-request :
      (size : ℕ) × (handle_ethernet w
          (echo_frame (get_local_mac n) src_mac src_ip (get_local_ip n) 8 id sequence payload)
          n
        ≡ send_echo_reply w src_ip id sequence payload (count_frame size n))
  handle_ethernet-request =
      let e = handle_ethernet-echo 8 in
      (e.0, e.1 ∙ handle_icmp-request w src_ip payload id sequence _ id16 sequence16)

  -- The echo reply that `ping` waits for is found by the next test of its loop.
  pub handle_ethernet-reply :
      (m : Net) × (handle_ethernet w
          (echo_frame (get_local_mac n) src_mac src_ip (get_local_ip n) 0 id sequence payload)
          n
        ≡ returned m)
      × ((icmp_pending_reply id sequence m).0 ≡ true)
  handle_ethernet-reply =
      let e = handle_ethernet-echo 0 in
      (
        _,
        e.1 ∙ handle_icmp-reply w src_ip payload id sequence _ id16 sequence16,
        icmp_pending_reply-set_reply_received id sequence _,
      )

-- Counting a frame changes no table.
hop-count_frame :
    (ip : List ℕ) (size : ℕ) (n : Net)
    → lookup (next_hop ip (count_frame size n)) (count_frame size n).arp_table
      ≡ lookup (next_hop ip n) n.arp_table
unfolding next_hop get_local_ip get_subnet_mask get_gateway count_frame
hop-count_frame ip size n = refl

-- Sending a frame that the driver takes changes no address.
addresses-send_ethernet :
    (takes : List ℕ → Bool) (dst : List ℕ) (ether_type : ℕ) (payload : List ℕ) (n : Net)
    → (get_local_ip (send_ethernet takes dst ether_type payload n) ≡ get_local_ip n)
      × (get_local_mac (send_ethernet takes dst ether_type payload n) ≡ get_local_mac n)
unfolding get_local_ip get_local_mac send_ethernet transmit
addresses-send_ethernet takes dst ether_type payload n =
    elim (Bool-cases (takes (frame dst (get_local_mac n) ether_type payload))) [
      | inl e ↦ rw e (refl, refl)
      | inr e ↦ rw e (refl, refl)
    ]

send_ethernet-counted :
    (takes : List ℕ → Bool) (dst dst_ip message : List ℕ) (size : ℕ) (n : Net)
    → (let sent =
          frame dst (get_local_mac n) 0x0800 (ip_packet 1 (get_local_ip n) dst_ip message) in
        takes sent ≡ true
        → length sent ≤ buffer_size
        → (send_ethernet takes dst 0x0800
            (ip_packet 1 (get_local_ip (count_frame size n)) dst_ip message)
            (count_frame size n)).wire
          ≡ n.wire ++ sent ∷ [])
unfolding get_local_mac get_local_ip count_frame
send_ethernet-counted takes dst dst_ip message size n taken fits =
    send_ethernet-wire takes dst 0x0800 _ (count_frame size n) taken fits

-- The length of a frame with an echo message.
echo_frame-length :
    (dst_mac src_mac src_ip dst_ip : List ℕ) (type_code id sequence : ℕ) (payload : List ℕ)
    → length dst_mac ≡ 6
    → length src_mac ≡ 6
    → length src_ip ≡ 4
    → length dst_ip ≡ 4
    → length (echo_frame dst_mac src_mac src_ip dst_ip type_code id sequence payload)
      ≡ 42 + length payload
unfolding frame ip_packet ip_header
echo_frame-length dst_mac src_mac src_ip dst_ip type_code id sequence payload d s i j =
    let i' = length-four src_ip i in
    let j' = length-four dst_ip j in
    let d' = length-six dst_mac d in
    let s' = length-six src_mac s in
    rw (i'.4, j'.4, d'.6, s'.6) (omega (arith, echo_message-length type_code id sequence payload))

-- The request and the reply of one echo between `a` and `b`.
abbrev request : ℕ → ℕ → List ℕ → Net → Net → List ℕ
request id sequence payload a b =
    echo_frame (get_local_mac b) (get_local_mac a) (get_local_ip a) (get_local_ip b) 8 id sequence
      payload

abbrev reply : ℕ → ℕ → List ℕ → Net → Net → List ℕ
reply id sequence payload a b =
    echo_frame (get_local_mac a) (get_local_mac b) (get_local_ip b) (get_local_ip a) 0 id sequence
      payload

-- One echo from `a` to `b` and back: `a` puts the request on its wire, `b` answers it with the reply
-- on its own, and with the reply handled `a` finds the answer that it waits for.
pub record IsAnswered (wa wb : World) (id sequence : ℕ) (payload : List ℕ) (a b : Net)
    : Type 0 where
  pub asking : Net
  pub answering : Net
  pub answered : Net
  pub sends : send_echo_request wa (get_local_ip b) id sequence payload a ≡ returned asking
  pub request_wire : asking.wire ≡ a.wire ++ request id sequence payload a b ∷ []
  pub answers : handle_ethernet wb (request id sequence payload a b) b ≡ returned answering
  pub reply_wire : answering.wire ≡ b.wire ++ reply id sequence payload a b ∷ []
  pub hears : handle_ethernet wa (reply id sequence payload a b) asking ≡ returned answered
  pub is_pending : (icmp_pending_reply id sequence answered).0 ≡ true

-- Between two machines with addresses of full length that hold each other's address for the next
-- hop and whose drivers take every frame of at most 1514 bytes, an echo request of a 16-bit id
-- and number and at most 1472 bytes, which is what a standard Ethernet frame has room for, goes
-- out, is answered by the other machine, and the reply, once handled, is the one that
-- `icmp_pending_reply` asks for.
pub ping-IsAnswered :
    (wa wb : World) (id sequence : ℕ) (payload : List ℕ) (a b : Net)
    → length (get_local_mac a) ≡ 6
    → length (get_local_ip a) ≡ 4
    → length (get_local_mac b) ≡ 6
    → length (get_local_ip b) ≡ 4
    → length payload ≤ 1472
    → id < 65536
    → sequence < 65536
    → lookup (next_hop (get_local_ip b) a) a.arp_table ≡ some (get_local_mac b)
    → lookup (next_hop (get_local_ip a) b) b.arp_table ≡ some (get_local_mac a)
    → ((f : List ℕ) → length f ≤ 1514 → wa.takes f ≡ true)
    → ((f : List ℕ) → length f ≤ 1514 → wb.takes f ≡ true)
    → IsAnswered wa wb id sequence payload a b
unfolding send_echo_request send_echo_reply
ping-IsAnswered wa wb id sequence payload a b ma ia mb ib fits i s ka kb ta tb =
    let short : length payload < 65508 = omega arith in
    let size_a =
      echo_frame-length (get_local_mac b) (get_local_mac a) (get_local_ip a) (get_local_ip b) 8 id
        sequence payload mb ma ia ib in
    let size_b =
      echo_frame-length (get_local_mac a) (get_local_mac b) (get_local_ip b) (get_local_ip a) 0 id
        sequence payload ma mb ib ia in
    let packet =
      ip_packet 1 (get_local_ip a) (get_local_ip b) (echo_message 8 id sequence payload) in
    let a1 = send_ethernet wa.takes (get_local_mac b) 0x0800 packet a in
    let same = addresses-send_ethernet wa.takes (get_local_mac b) 0x0800 packet a in
    let asked =
      handle_ethernet-request wb (get_local_mac a) (get_local_ip a) payload id sequence b mb ib ma
        ia short i s in
    let answered =
      send_ip-known wb (get_local_ip a) 1 (echo_message 0 id sequence payload) (get_local_mac a)
        (count_frame asked.0 b) (hop-count_frame (get_local_ip a) asked.0 b ∙ kb) in
    let heard =
      handle_ethernet-reply wa (get_local_mac b) (get_local_ip b) payload id sequence a1
        (ap length same.1 ∙ ma) (ap length same.0 ∙ ia) mb ib short i s in
    record {
      asking = a1;
      answering = _;
      answered = heard.0;
      sends = send_ip-known wa (get_local_ip b) 1 _ _ a ka;
      request_wire =
          send_ethernet-wire wa.takes _ _ _ a (ta _ (omega (arith, size_a)))
            (omega (arith, size_a));
      answers = asked.1 ∙ answered;
      reply_wire =
          send_ethernet-counted wb.takes _ (get_local_ip a) _ asked.0 b
            (tb _ (omega (arith, size_b))) (omega (arith, size_b));
      hears =
          ap₂
            (λ m ip.
              handle_ethernet wa
                (echo_frame m (get_local_mac b) (get_local_ip b) ip 0 id sequence payload) a1)
            (sym same.1) (sym same.0)
          ∙ heard.1;
      is_pending = heard.2;
    }
