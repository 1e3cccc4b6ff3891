-- ===== src/Ws/Frame/Server.antt =====
-- What a server reads in the frames that the client sends, by RFC 6455.
use Prim.Native.Nat.{bit_or, bit_xor}
use mathlib.Core.List.{append_assoc}
use omarchy_hardware.Common.{
  ℕ, suc, ◌+◌, ◌/◌, ◌%◌, ◌^◌, ◌<◌, ◌≡◌, refl, ap, ◌∙◌, sym, ◌==◌, ltb, Bool, true, false, ◌&&◌,
  Option, none, some, List, [], ◌∷◌, ◌++◌, length, take, drop, take-append, drop-append, All,
  Bool-cases, inl, inr, arith, if◌then◌else◌,
}
use omarchy_hardware.Common.Bits.{everywhere, everywhere→at}
use omarchy_hardware.Common.Words.{word, value_of, value_of-word, length-word}
use omarchy_hardware.Common.Xor.{bit_xor-twice}
use omarchy_hardware.Ws.Client.{ok, Python, Client}
use omarchy_hardware.Ws.Frame.{length_field, masked, mask_bytes, hand_over, send_frame}

abbrev pub IsByte : ℕ → Type 0
IsByte b = b < 256

-- Each byte of the payload is combined with one of the key, which goes round.
unfoldable unmasked : List ℕ → List ℕ → List ℕ
unmasked key [] = []
unmasked [] (b ∷ bytes) = b ∷ unmasked [] bytes
unmasked (k ∷ key) (b ∷ bytes) = bit_xor b k ∷ unmasked (key ++ k ∷ []) bytes

-- The extended length by the seven bits of the second byte: its width, and its value.
abbrev width_of : ℕ → ℕ
width_of field = if field == 126 then 2 else if field == 127 then 8 else 0

abbrev length_of : ℕ → List ℕ → ℕ
length_of field bytes = if ltb field 126 then field else value_of 0 (take (width_of field) bytes)

-- What follows the length: the masking key, the payload and the rest of the stream.
unfoldable unmask : ℕ → ℕ → List ℕ → ℕ × List ℕ × List ℕ
unfolding unmasked
unmask opcode n body =
    let after = drop 4 body in (opcode, unmasked (take 4 body) (take n after), drop n after)

-- The opcode and the payload of a final, masked frame, and what follows the frame.
unfoldable pub server_read : List ℕ → Option (ℕ × List ℕ × List ℕ)
unfolding unmask
server_read (first ∷ second ∷ rest) =
    if first / 16 == 8 && second / 128 == 1
    then some
        (unmask (first % 16) (length_of (second % 128) rest) (drop (width_of (second % 128)) rest))
    else none
server_read _ = none

opened : ℕ → Bool
opened opcode = bit_or 0x80 opcode / 16 == 8 && bit_or 0x80 opcode % 16 == opcode

opened_at : (opcode : ℕ) → opcode < 16 → opened opcode ≡ true
unfolding opened everywhere
opened_at opcode h = everywhere→at opened 16 opcode h refl

tagged : ℕ → Bool
tagged n = bit_or 0x80 n / 128 == 1 && bit_or 0x80 n % 128 == n

tagged_at : (n : ℕ) → n < 128 → tagged n ≡ true
unfolding tagged everywhere
tagged_at n h = everywhere→at tagged 128 n h refl

-- The length field of a payload, as the server takes it apart.
record IsField (n : ℕ) (field : List ℕ) : Type 0 where
  second : ℕ
  extended : List ℕ
  splits : field ≡ second ∷ extended
  has_mask : second / 128 ≡ 1
  width : width_of (second % 128) ≡ length extended
  reads : (rest : List ℕ) → length_of (second % 128) (extended ++ rest) ≡ n

tagged-parts : (n : ℕ) → n < 128 → (bit_or 0x80 n / 128 ≡ 1) × (bit_or 0x80 n % 128 ≡ n)
unfolding tagged
tagged-parts n h = ground (arith, tagged_at n h)

short-IsField : (n : ℕ) → n < 126 → IsField n (bit_or 0x80 n ∷ [])
short-IsField n h =
    let (top, low) = tagged-parts n (omega arith) in
    record {
      second = bit_or 0x80 n;
      extended = [];
      splits = refl;
      has_mask = top;
      width = rw low (ground arith);
      reads = λ rest. rw low (ground arith);
    }

word-IsField :
    (n width code : ℕ)
    → n < 256 ^ width
    → width_of code ≡ width
    → ltb code 126 ≡ false
    → code < 128
    → IsField n (bit_or 0x80 code ∷ word width n)
word-IsField n width code h w long c =
    let (top, low) = tagged-parts code c in
    record {
      second = bit_or 0x80 code;
      extended = word width n;
      splits = refl;
      has_mask = top;
      width = rw (low, length-word) w;
      reads = λ rest. rw (low, long, w) (read_back rest);
    }
  where
    read_back : (rest : List ℕ) → value_of 0 (take width (word width n ++ rest)) ≡ n
    read_back rest =
        ap (λ k. value_of 0 (take k (word width n ++ rest))) (sym (length-word width n))
        ∙ ap (value_of 0) (take-append (word width n) rest)
        ∙ value_of-word width n h

length_field-IsField :
    (n : ℕ) → n < 2 ^ 64 → (field : List ℕ) × (length_field n ≡ ok field) × IsField n field
unfolding length_field
length_field-IsField n h = elim (Bool-cases (ltb n 126)) [
  | inl short ↦ (_, rw (short) refl, short-IsField n (ground arith))
  | inr long ↦ elim (Bool-cases (ltb n (2 ^ 16))) [
    | inl fits ↦
        (_, rw (long, fits) refl, word-IsField n 2 126 (ground arith) refl refl (omega arith))
    | inr large ↦
        let below : ltb n (2 ^ 64) ≡ true = ground arith in
        (
          _,
          rw (long, large, below) refl,
          word-IsField n 8 127 (omega arith) refl refl (omega arith),
        )
  ]
]

-- The four bytes of the key, from that of an index on.
abbrev key_from : (ℕ → ℕ) → ℕ → List ℕ
key_from mask i = mask (i % 4) ∷ mask ((i + 1) % 4) ∷ mask ((i + 2) % 4) ∷ mask ((i + 3) % 4) ∷ []

key_from-suc :
    (mask : ℕ → ℕ) (i : ℕ)
    → (mask ((i + 1) % 4) ∷ mask ((i + 2) % 4) ∷ mask ((i + 3) % 4) ∷ mask (i % 4) ∷ [])
      ≡ key_from mask (suc i)
key_from-suc mask i =
    let one : i + 1 ≡ suc i = omega arith in
    let two : i + 2 ≡ suc i + 1 = omega arith in
    let three : i + 3 ≡ suc i + 2 = omega arith in
    let round : i % 4 ≡ (suc i + 3) % 4 = omega arith in cc

unmasked-masked :
    (mask : ℕ → ℕ) (bytes : List ℕ) (index : ℕ)
    → ((i : ℕ) → mask i < 256)
    → All IsByte bytes
    → unmasked (key_from mask index) (masked mask index bytes) ≡ bytes
unfolding unmasked masked
unmasked-masked mask [] index h k = refl
unmasked-masked mask (b ∷ bytes) index h (kb, ks) =
    rw
      (
        key_from-suc mask index,
        bit_xor-twice b (mask (index % 4)) kb (h (index % 4)),
        unmasked-masked mask bytes (suc index) h ks,
      )
      refl

length-masked :
    (mask : ℕ → ℕ) (index : ℕ) (bytes : List ℕ) → length (masked mask index bytes) ≡ length bytes
unfolding masked
length-masked mask index [] = refl
length-masked mask index (b ∷ bytes) = ap suc (length-masked mask (suc index) bytes)

unmask-masked :
    (mask : ℕ → ℕ) (opcode : ℕ) (payload more : List ℕ)
    → ((i : ℕ) → mask i < 256)
    → All IsByte payload
    → unmask opcode (length payload) (mask_bytes mask ++ (masked mask 0 payload ++ more))
      ≡ (opcode, payload, more)
unfolding unmask
unmask-masked mask opcode payload more h k =
    let n = length-masked mask 0 payload in
    rw
      (
        ← n,
        take-append (masked mask 0 payload) more,
        drop-append (masked mask 0 payload) more,
        unmasked-masked mask payload 0 h k,
      )
      refl

server_read-frame :
    (opcode n : ℕ) (field body : List ℕ)
    → opcode < 16
    → IsField n field
    → server_read (bit_or 0x80 opcode ∷ (field ++ body)) ≡ some (unmask opcode n body)
unfolding server_read opened
server_read-frame opcode n field body h f =
    let first : (bit_or 0x80 opcode / 16 == 8) ≡ true = ground (arith, opened_at opcode h) in
    let code : bit_or 0x80 opcode % 16 ≡ opcode = ground (arith, opened_at opcode h) in
    rw
      (
        f.splits,
        server_read,
        first,
        f.has_mask,
        code,
        f.reads body,
        f.width,
        drop-append f.extended body,
      )
      refl

-- A server reads the opcode and the payload out of the bytes that send_frame hands over,
-- whatever follows them, when the payload is of bytes and shorter than 2 ^ 64, the opcode has
-- four bits, the random numbers are bytes and the socket takes what it is given.
pub server_read-send_frame :
    (py : Python) (opcode : ℕ) (payload more : List ℕ) (s : Client)
    → ((i : ℕ) → py.urandom i < 256)
    → All IsByte payload
    → length payload < 2 ^ 64
    → opcode < 16
    → s.sends ≡ []
    → (bytes : List ℕ) × (send_frame py opcode payload s
        ≡ (ok tt, record s { sent = s.sent ++ bytes ∷ []; drawn = s.drawn + 4 }))
      × (server_read (bytes ++ more) ≡ some (opcode, payload, more))
unfolding send_frame hand_over
server_read-send_frame py opcode payload more s random bytes_only short code taken =
    let (field, e, f) = length_field-IsField (length payload) short in
    let mask : ℕ → ℕ = λ i. py.urandom (s.drawn + i) in
    let body = mask_bytes mask ++ masked mask 0 payload in
    (
      bit_or 0x80 opcode ∷ (field ++ body),
      rw (e, taken) refl,
      rw (append_assoc field body more) (
          server_read-frame opcode (length payload) field (body ++ more) code f
          ∙ ap some (unmask-masked mask opcode payload more (λ i. random _) bytes_only)),
    )
