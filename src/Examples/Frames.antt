-- ===== src/Examples/Frames.antt =====
-- A form of the headers of a frame, which are kept in the number of a packet.
use saero_rp.Prelude.{
  ℕ, ◌+◌, ◌-◌, ◌*◌, ◌/◌, ◌%◌, ◌^◌, ◌<◌, ◌≡◌, refl, ap, ◌==◌, if◌then◌else◌, arith, ◌∙◌,
  mod-eq_of_lt,
}
use native.Mathlib.Nat.{add-mul-mod_self_left, add-mul-div_left, div-eq_of_lt}
use saero_rp.PacketQueue.{Packet}
use saero_rp.MacQueue.{MacType, data_type, mgt_type, other_type, WifiMacHeader}
use saero_rp.MacLow.{Headers}
use saero_rp.NetDevice.Delivery.{IsMac48, IsHeaders}

push-top : (m x u : ℕ) → x < m → (x + m * u) % m ≡ x
push-top m x u h = add-mul-mod_self_left x m u ∙ mod-eq_of_lt h

push-rest : (m x u : ℕ) → x < m → (x + m * u) / m ≡ u
push-rest m x u h =
    let none_left : x / m ≡ 0 = div-eq_of_lt h in
    let split : (x + m * u) / m ≡ x / m + u = add-mul-div_left x u (omega arith) in omega arith

abbrev code : MacType → ℕ
code data_type = 0
code mgt_type = 1
code other_type = 2

abbrev decode : ℕ → MacType
decode n = if n == 0 then data_type else if n == 1 then mgt_type else other_type

abbrev width : ℕ
width = 2 ^ 48

code-lt : (t : MacType) → code t < 3
code-lt data_type = omega arith
code-lt mgt_type = omega arith
code-lt other_type = omega arith

decode-code : (t : MacType) → decode (code t) ≡ t
decode-code data_type = refl
decode-code mgt_type = refl
decode-code other_type = refl

-- An LLC header adds 8 bytes, and the MAC header and trailer add 24 and 4.
abbrev add_mac : WifiMacHeader → Packet → Packet
add_mac h p = record p {
  uid = code h.type + 3 * (h.addr1 + width * (h.addr2 + width * (h.addr3 + width * p.uid)));
  size = p.size + 24;
}

abbrev remove_mac : Packet → WifiMacHeader × Packet
remove_mac p =
    let u1 = p.uid / 3 in
    let u2 = u1 / width in
    let u3 = u2 / width in
    (
      record {
        type = decode (p.uid % 3);
        addr1 = u1 % width;
        addr2 = u2 % width;
        addr3 = u3 % width;
      },
      record p { uid = u3 / width; size = p.size - 24 },
    )

abbrev pub headers : Headers
headers = record {
  add_llc = λ n p. record p { uid = n + 2 ^ 16 * p.uid; size = p.size + 8 };
  remove_llc = λ p. (p.uid % 2 ^ 16, record p { uid = p.uid / 2 ^ 16; size = p.size - 8 });
  add_mac = add_mac;
  remove_mac = remove_mac;
  add_trailer = λ p. record p { size = p.size + 4 };
  remove_trailer = λ p. record p { size = p.size - 4 };
  mac_size = λ h. 24;
  trailer_size = 4;
}

pair-eq : {A B : Type 0} {a a' : A} {b b' : B} → a ≡ a' → b ≡ b' → ◌≡◌ {A = A × B} (a, b) (a', b')
pair-eq e f = ground (arith, e, f)

packet-eq : (p : Packet) (u n : ℕ) → u ≡ p.uid → n ≡ p.size → record p { uid = u; size = n } ≡ p
packet-eq p u n same_uid same_size = ground (arith)

header-eq :
    (h : WifiMacHeader) (t : MacType) (a b c : ℕ)
    → t ≡ h.type
    → a ≡ h.addr1
    → b ≡ h.addr2
    → c ≡ h.addr3
    → ◌≡◌ {A = WifiMacHeader} (record { type = t; addr1 = a; addr2 = b; addr3 = c }) h
header-eq h t a b c same_type same1 same2 same3 = ground (arith)

mac_law : (h : WifiMacHeader) (p : Packet) → IsMac48 h → remove_mac (add_mac h p) ≡ (h, p)
mac_law h p w =
    let v3 = h.addr3 + width * p.uid in
    let v2 = h.addr2 + width * v3 in
    let v1 = h.addr1 + width * v2 in
    let u = (add_mac h p).uid in
    let r1 : u / 3 ≡ v1 = push-rest 3 (code h.type) v1 (code-lt h.type) in
    let r2 : u / 3 / width ≡ v2 = ap (λ k. k / width) r1 ∙ push-rest width h.addr1 v2 w.addr1 in
    let r3 : u / 3 / width / width ≡ v3 =
      ap (λ k. k / width) r2 ∙ push-rest width h.addr2 v3 w.addr2 in
    let r4 : u / 3 / width / width / width ≡ p.uid =
      ap (λ k. k / width) r3 ∙ push-rest width h.addr3 p.uid w.addr3 in
    let first : (remove_mac (add_mac h p)).0 ≡ h =
      header-eq h (decode (u % 3)) (u / 3 % width) (u / 3 / width % width)
        (u / 3 / width / width % width)
        (ap decode (push-top 3 (code h.type) v1 (code-lt h.type)) ∙ decode-code h.type)
        (ap (λ k. k % width) r1 ∙ push-top width h.addr1 v2 w.addr1)
        (ap (λ k. k % width) r2 ∙ push-top width h.addr2 v3 w.addr2)
        (ap (λ k. k % width) r3 ∙ push-top width h.addr3 p.uid w.addr3) in
    let second : (remove_mac (add_mac h p)).1 ≡ p =
      packet-eq p (u / 3 / width / width / width) (p.size + 24 - 24) r4 (omega arith) in
    pair-eq first second

pub headers-IsHeaders : IsHeaders headers
headers-IsHeaders = record {
  llc = λ n p h. pair-eq (push-top (2 ^ 16) n p.uid h) (
      packet-eq p ((n + 2 ^ 16 * p.uid) / 2 ^ 16) (p.size + 8 - 8) (push-rest (2 ^ 16) n p.uid h)
        (omega arith));
  mac = mac_law;
  trailer = λ p. packet-eq p p.uid (p.size + 4 - 4) refl (omega arith);
  ends = λ h p.
      let swap : p.size + 24 + 4 ≡ p.size + 4 + 24 = omega arith in
      ap (λ n. record (add_mac h p) { size = n }) swap;
}
