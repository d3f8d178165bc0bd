-- ===== src/Server/Udp/Reading.antt =====
-- What is read of the memory of a datagram of src/server/udp.c, in terms of what was written to it.
use respondphp.Base.{
  ◌+◌, ◌==◌, ℕ, zero, suc, ◌/◌, ◌^◌, ◌<◌, ◌≡◌, refl, ap, subst, ◌∙◌, [], ◌∷◌, Bytes, Bool, true,
  false, if◌then◌else◌, length, arith,
}
use respondphp.StreamConnection.Address.{SockAddr}
use respondphp.Server.Udp.Layout.{
  read_flags, af_inet, read_send, send_sender, send_data_len, send_data, Memory, of_bytes, load, at,
  le_bytes, le_value, is_ipv4, recv_data_len, recv_data, sockaddr_of, read_datagram,
}

pub load-same : (n : ℕ) (a b : Memory) → ((j : ℕ) → j < n → a j ≡ b j) → load n a ≡ load n b
unfolding load
load-same zero a b h = refl
load-same (suc n) a b h =
    let first : a 0 ≡ b 0 = h 0 (omega arith) in
    let rest =
      load-same n (λ i. a (suc i)) (λ i. b (suc i)) (λ j l. h (suc j) (omega (arith, l))) in
    cc

pub load-of_bytes : (bs : Bytes) → load (length bs) (of_bytes bs) ≡ bs
unfolding load of_bytes
load-of_bytes [] = refl
load-of_bytes (b ∷ bs) = ap (λ l. b ∷ l) (load-of_bytes bs)

pub length-le_bytes : (w n : ℕ) → length (le_bytes w n) ≡ w
unfolding le_bytes
length-le_bytes zero n = refl
length-le_bytes (suc w) n = omega (arith, length-le_bytes w (n / 256))

le_value-le_bytes : (w n : ℕ) → n < 256 ^ w → le_value (le_bytes w n) ≡ n
unfolding le_value le_bytes
le_value-le_bytes zero n h = omega (arith, h)
le_value-le_bytes (suc w) n h = omega (arith, le_value-le_bytes w (n / 256) (omega (arith, h)))

-- A member that was written is read again.
pub read_member :
    (w n : ℕ) (m : Memory)
    → n < 256 ^ w
    → ((j : ℕ) → j < w → m j ≡ of_bytes (le_bytes w n) j)
    → le_value (load w m) ≡ n
read_member w n m small h =
    ap le_value (
      load-same w m (of_bytes (le_bytes w n)) h
      ∙ subst (λ k. load k (of_bytes (le_bytes w n)) ≡ le_bytes w n) (length-le_bytes w n)
          (load-of_bytes (le_bytes w n)))
    ∙ le_value-le_bytes w n small

pub read_datagram-same :
    (m : Memory) {a : SockAddr} {bs : Bytes}
    → sockaddr_of m ≡ a
    → load (le_value (load 8 (at recv_data_len m))) (at recv_data m) ≡ bs
    → read_datagram m ≡ (a, bs)
unfolding read_datagram
read_datagram-same m p q = rw (p, q) refl

pub if_same :
    {A : Type 0} (b : Bool) {x y v w : A}
    → (b ≡ true → x ≡ v)
    → (b ≡ false → y ≡ w)
    → (if b then x else y) ≡ (if b then v else w)
if_same true f g = f refl
if_same false f g = g refl

made : Bool → Bytes → ℕ → ℕ → SockAddr
made is_inet ip high low = record { is_inet = is_inet; ip = ip; port = (high, low) }

made-same :
    {f g : Bool} {x y : Bytes} {a b c d : ℕ}
    → f ≡ g
    → x ≡ y
    → a ≡ b
    → c ≡ d
    → made f x a c ≡ made g y b d
made-same p q r s = rw (p, q, r, s) refl

pub sockaddr_of-same :
    (m n : Memory)
    → is_ipv4 m ≡ is_ipv4 n
    → (if is_ipv4 m then load 4 (at 4 m) else load 16 (at 8 m))
      ≡ (if is_ipv4 n then load 4 (at 4 n) else load 16 (at 8 n))
    → m 2 ≡ n 2
    → m 3 ≡ n 3
    → sockaddr_of m ≡ sockaddr_of n
unfolding sockaddr_of made
sockaddr_of-same m n family ip high low = made-same family ip high low

is_ipv4-near : (m n : Memory) → ((j : ℕ) → j < 2 → m j ≡ n j) → is_ipv4 m ≡ is_ipv4 n
unfolding is_ipv4
is_ipv4-near m n near = ap (λ l. le_value l == af_inet) (load-same 2 m n near)

-- Two memories hold the same address, if the first 16 bytes are the same, and of an IPv6 address the
-- first 24.
pub sockaddr_of-near :
    (m n : Memory)
    → ((j : ℕ) → j < 16 → m j ≡ n j)
    → (is_ipv4 n ≡ false → (j : ℕ) → j < 24 → m j ≡ n j)
    → sockaddr_of m ≡ sockaddr_of n
sockaddr_of-near m n near far =
    sockaddr_of-same m n family
      (ap (λ b. if b then load 4 (at 4 m) else load 16 (at 8 m)) family ∙ ip) (near 2 (omega arith))
      (near 3 (omega arith))
  where
    family : is_ipv4 m ≡ is_ipv4 n
    family = is_ipv4-near m n (λ j low. near j (omega (arith, low)))

    ip :
        (if is_ipv4 n then load 4 (at 4 m) else load 16 (at 8 m))
        ≡ (if is_ipv4 n then load 4 (at 4 n) else load 16 (at 8 n))
    ip =
        if_same (is_ipv4 n)
          (λ four. load-same 4 (at 4 m) (at 4 n) (λ j low. near (4 + j) (omega (arith, low))))
          (λ six. load-same 16 (at 8 m) (at 8 n) (λ j low. far six (8 + j) (omega (arith, low))))

-- The length and the bytes that follow it are read as they were written.
pub bytes_read :
    (bytes : Bytes) (len rest : Memory)
    → length bytes < 256 ^ 8
    → ((j : ℕ) → j < 8 → len j ≡ of_bytes (le_bytes 8 (length bytes)) j)
    → ((j : ℕ) → j < length bytes → rest j ≡ of_bytes bytes j)
    → load (le_value (load 8 len)) rest ≡ bytes
bytes_read bytes len rest small len_kept data_kept =
    ap (λ n. load n rest) (read_member 8 (length bytes) len small len_kept)
    ∙ load-same (length bytes) rest (of_bytes bytes) data_kept
    ∙ load-of_bytes bytes

pub read_send-same :
    (m : Memory) {a : SockAddr} {n : ℕ} {bs : Bytes}
    → sockaddr_of m ≡ a
    → le_value (load 4 (at send_sender m)) ≡ n
    → load (le_value (load 8 (at send_data_len m))) (at send_data m) ≡ bs
    → read_send m ≡ (a, n, bs)
unfolding read_send
read_send-same m p q r = rw (p, q, r) refl

pub by_branch :
    {A : Type 0} (b : Bool) {x v w : A}
    → (b ≡ true → x ≡ v)
    → (b ≡ false → x ≡ w)
    → x ≡ (if b then v else w)
by_branch true f g = f refl
by_branch false f g = g refl

pub read_flags-same :
    (m n : Memory) → ((j : ℕ) → j < 4 → m (16 + j) ≡ n (16 + j)) → read_flags m ≡ read_flags n
unfolding read_flags
read_flags-same m n h = ap le_value (load-same 4 (at 16 m) (at 16 n) h)

pub flags_read :
    (m : Memory) (flags : ℕ)
    → flags < 256 ^ 4
    → ((j : ℕ) → j < 4 → m (16 + j) ≡ of_bytes (le_bytes 4 flags) j)
    → read_flags m ≡ flags
unfolding read_flags
flags_read m flags small h = read_member 4 flags (at 16 m) small h
