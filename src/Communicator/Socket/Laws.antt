-- ===== src/Communicator/Socket/Laws.antt =====
-- src/communication/zmq_sendrecv.cc: which socket a message goes to, and at which endpoint.
use plug_in_ml.Base.{
  ℕ, zero, suc, ◌-◌, ◌%◌, ◌≤◌, ◌<◌, ◌≡◌, ◌⊎◌, inl, inr, refl, ap, ap₂, ◌∙◌, true, false, none, some,
  List, [], ◌∷◌, ◌++◌, ℤ, pos, negsuc, ◌-ℤ◌, length, take, ltb, if◌then◌else◌, All, All-map,
  All-append, arith, Bool-cases, Option-cases,
}
use mathlib.Core.Path.{subst}
use native.Mathlib.Nat.{mod-eq_of_lt}
use plug_in_ml.Message.{Addr}
use plug_in_ml.Text.{print_int, print_nat}
use plug_in_ml.Text.Laws.{length-print_nat_port}
use plug_in_ml.Communicator.{same_addr}
use plug_in_ml.Communicator.Socket.{
  ZmqCall, connects, sends, ZmqSendRecv, to_int16, bind_endpoint, connect_endpoint, socket_of,
  open_socket, send,
}

take_short : {A : Type 0} (n : ℕ) (xs : List A) → length xs ≤ n → take n xs ≡ xs
take_short zero [] h = refl
take_short (suc n) [] h = refl
take_short zero (x ∷ xs) h = absurd (omega arith)
take_short (suc n) (x ∷ xs) h = ap (◌∷◌ x) (take_short n xs (omega arith))

same_addr→eq : (a b : Addr) → same_addr a b ≡ true → a ≡ b
unfolding same_addr
same_addr→eq [] [] h = refl
same_addr→eq [] (y ∷ ys) h = cc
same_addr→eq (x ∷ xs) [] h = cc
same_addr→eq (x ∷ xs) (y ∷ ys) h = ground (arith, same_addr→eq xs ys)

same_addr_refl : (a : Addr) → same_addr a a ≡ true
unfolding same_addr
same_addr_refl [] = refl
same_addr_refl (x ∷ xs) = ground (arith, same_addr_refl xs)

to_int16_low : (port : ℕ) → port < 32768 → to_int16 port ≡ pos port
unfolding to_int16
to_int16_low port h =
    let same : port % 65536 ≡ port = mod-eq_of_lt (omega arith) in
    let low : ltb port 32768 ≡ true = ground arith in rw (same, low) refl

to_int16_high : (port : ℕ) → 32768 ≤ port → port < 65536 → to_int16 port ≡ negsuc (65535 - port)
unfolding to_int16 ◌-ℤ◌
to_int16_high port h k =
    let same : port % 65536 ≡ port = mod-eq_of_lt (omega arith) in
    let high : ltb port 32768 ≡ false = ground arith in rw (same, high) (ground arith)

print_int_pos : (n : ℕ) → print_int (pos n) ≡ print_nat n
unfolding print_int
print_int_pos n = refl

print_int_negsuc : (n : ℕ) → print_int (negsuc n) ≡ 45 ∷ print_nat (suc n)
unfolding print_int
print_int_negsuc n = refl

-- `tcp://*:`
abbrev pub tcp_any : List ℕ
tcp_any = 116 ∷ 99 ∷ 112 ∷ 58 ∷ 47 ∷ 47 ∷ 42 ∷ 58 ∷ []

bind_short :
    (port : ℤ) → length (print_int port) ≤ 7 → bind_endpoint port ≡ tcp_any ++ print_int port
unfolding bind_endpoint
bind_short port h = take_short 15 (tcp_any ++ print_int port) (omega arith)

-- A receiver on a port of 16 bits: up to 32767 it binds to that port; above, the port has become
-- negative, and the endpoint is `tcp://*:-` and the distance to 65536.
pub bind_endpoint-to_int16 :
    (port : ℕ)
    → port < 65536
    → bind_endpoint (to_int16 port)
      ≡ tcp_any ++ (if ltb port 32768 then print_nat port else 45 ∷ print_nat (65536 - port))
bind_endpoint-to_int16 port h = elim (Bool-cases (ltb port 32768)) [
  | inl low ↦
      let text = ap print_int (to_int16_low port (ground (arith, low))) ∙ print_int_pos port in
      let fits = length-print_nat_port port (omega arith) in
      rw low (
        bind_short (to_int16 port) (omega (arith, ap length text, fits))
        ∙ ap (λ l. tcp_any ++ l) text)
  | inr high ↦
      let rest : suc (65535 - port) ≡ 65536 - port = omega arith in
      let text =
        ap print_int (to_int16_high port (ground (arith, high)) h)
        ∙ print_int_negsuc (65535 - port)
        ∙ ap (λ n. 45 ∷ print_nat n) rest in
      let above : 32768 ≤ port = ground (arith, high) in
      let fits = length-print_nat_port (65536 - port) (omega arith) in
      rw high (
        bind_short (to_int16 port) (omega (arith, ap length text, fits))
        ∙ ap (λ l. tcp_any ++ l) text)
]

-- `tcp://`
abbrev pub tcp : List ℕ
tcp = 116 ∷ 99 ∷ 112 ∷ 58 ∷ 47 ∷ 47 ∷ []

connect_endpoint-short : (addr : Addr) → length addr ≤ 25 → connect_endpoint addr ≡ tcp ++ addr
unfolding connect_endpoint
connect_endpoint-short addr h = take_short 31 (tcp ++ addr) (omega arith)

module _ {S : Type 0} where
  -- A call that was made.
  pub Called : ZmqCall S → List (ZmqCall S) → Type 0
  Called c [] = ⊥
  Called c (d ∷ ds) = (c ≡ d) ⊎ Called c ds

  Called-append : (c : ZmqCall S) (xs ys : List (ZmqCall S)) → Called c xs → Called c (xs ++ ys)
  unfolding Called
  Called-append c [] ys h = elim h [ ]
  Called-append c (x ∷ xs) ys (inl here) = inl here
  Called-append c (x ∷ xs) ys (inr later) = inr (Called-append c xs ys later)

  Called-last : (c : ZmqCall S) (xs : List (ZmqCall S)) → Called c (xs ++ c ∷ [])
  unfolding Called
  Called-last c [] = inl refl
  Called-last c (x ∷ xs) = inr (Called-last c xs)

  -- The socket of an address was connected to `tcp://` and that address.
  abbrev pub IsConnected : List (ZmqCall S) → Addr × S → Type 0
  IsConnected calls e = Called (connects e.1 (tcp ++ e.0)) calls

  -- Every open socket was connected to its address.
  abbrev pub IsOpen : ZmqSendRecv S → Type 0
  IsOpen z = All (IsConnected z.calls) z.mapper

  more_calls :
      (calls more : List (ZmqCall S)) (mapper : List (Addr × S))
      → All (IsConnected calls) mapper
      → All (IsConnected (calls ++ more)) mapper
  more_calls calls more mapper v =
      All-map (IsConnected calls) (IsConnected (calls ++ more))
        (λ e h. Called-append (connects e.1 (tcp ++ e.0)) calls more h) mapper v

  socket_of-IsConnected :
      (calls : List (ZmqCall S)) (addr : Addr) (socket : S) (mapper : List (Addr × S))
      → All (IsConnected calls) mapper
      → socket_of addr mapper ≡ some socket
      → IsConnected calls (addr, socket)
  unfolding socket_of
  socket_of-IsConnected calls addr socket [] v e = cc
  socket_of-IsConnected calls addr socket ((a, s) ∷ rest) v e =
      elim (Bool-cases (same_addr a addr)) [
        | inl same ↦
            let here = rw same at e in
            subst (IsConnected calls)
              (ap₂ (λ b t. (b, t)) (same_addr→eq a addr same) (some-eq here)) v.0
        | inr other ↦
            let later = rw other at e in socket_of-IsConnected calls addr socket rest v.1 later
      ]
    where
      some-eq : {x y : S} → some x ≡ some y → x ≡ y
      some-eq h = cc

  socket_of-last :
      (addr : Addr) (socket : S) (mapper : List (Addr × S))
      → socket_of addr mapper ≡ none
      → socket_of addr (mapper ++ (addr, socket) ∷ []) ≡ some socket
  unfolding socket_of
  socket_of-last addr socket [] e = rw (same_addr_refl addr) refl
  socket_of-last addr socket ((a, s) ∷ rest) e = elim (Bool-cases (same_addr a addr)) [
    | inl same ↦ let found = rw same at e in cc
    | inr other ↦ let later = rw other at e in rw other (socket_of-last addr socket rest later)
  ]

  -- What a `Send` comes to: a socket of the address, which was connected to it, gets the message. It
  -- is opened only where the address had none.
  pub record Sends (z : ZmqSendRecv S) (addr : Addr) (message : List ℕ) (z' : ZmqSendRecv S)
      : Type 0 where
    pub socket : S
    pub before : List (ZmqCall S)
    pub kept : socket_of addr z'.mapper ≡ some socket
    pub connected : IsConnected before (addr, socket)
    pub calls : z'.calls ≡ before ++ sends socket message ∷ []
    pub opens :
        ((socket_of addr z.mapper ≡ some socket) × (before ≡ z.calls) × (z'.mapper ≡ z.mapper))
        ⊎ ((socket_of addr z.mapper ≡ none)
            × (before ≡ z.calls ++ connects socket (tcp ++ addr) ∷ []))
    pub still_open : IsOpen z'

  -- With every open socket connected to its address, and a receiver's address of at most 25 bytes,
  -- as many as the buffer of `Send` holds behind `tcp://`: `Send` gives the message to a socket that
  -- was connected to `tcp://` and that address, opens one exactly if the address had none, and every
  -- open socket is connected to its address again.
  pub send-Sends :
      (zmq_socket : ℕ → S) (addr : Addr) (message : List ℕ) (z : ZmqSendRecv S)
      → length addr ≤ 25
      → IsOpen z
      → Sends z addr message (send zmq_socket addr message z).1
  unfolding send open_socket
  send-Sends zmq_socket addr message z short v = elim (Option-cases (socket_of addr z.mapper)) [
    | inl new ↦
        let socket = zmq_socket z.opened in
        let call = connects socket (tcp ++ addr) in
        let before = z.calls ++ call ∷ [] in
        rw (open_socket, new, connect_endpoint-short addr short)
          (record {
            socket = socket;
            before = before;
            kept = socket_of-last addr socket z.mapper new;
            connected = Called-last call z.calls;
            calls = refl;
            opens = inr (new, refl);
            still_open =
                more_calls before (sends socket message ∷ []) (z.mapper ++ (addr, socket) ∷ []) (
                  All-append (IsConnected before) z.mapper ((addr, socket) ∷ [])
                    (more_calls z.calls (call ∷ []) z.mapper v) (Called-last call z.calls, tt));
          })
    | inr (socket, known) ↦
        rw (open_socket, known)
          (record {
            socket = socket;
            before = z.calls;
            kept = known;
            connected = socket_of-IsConnected z.calls addr socket z.mapper v known;
            calls = refl;
            opens = inl (known, refl, refl);
            still_open = more_calls z.calls (sends socket message ∷ []) z.mapper v;
          })
  ]
