-- ===== src/Protobuf/Decoder/Xor.antt =====
-- internal/protobuf/decoder.go: `xorDecrypt`.
use Prim.Native.Nat.{bit_xor}
use go_ecoflow_exporter.Base.{
  leb, ◌+◌, ◌*◌, ◌/◌, ◌≤◌, ℕ, zero, suc, ◌<◌, ◌≤◌, Bool, true, ◌&&◌, [], ◌∷◌, ◌≡◌, refl, arith, All,
  ◌==◌,
}
use go_ecoflow_exporter.Base.Int.{ℤ, pos, negsuc}
use go_ecoflow_exporter.Protobuf.Message.{Bytes}
use go_ecoflow_exporter.Protobuf.Decoder.{seq_byte, xor_decrypt}

abbrev pub AreBytes : Bytes → Type 0
AreBytes = All (λ b. b < 256)

-- Decryption by the byte `key` takes the byte `b` to a byte, from which it comes back.
abbrev comes_back : ℕ → ℕ → Bool
comes_back key b = let hidden = bit_xor b key in leb hidden 255 && bit_xor hidden key == b

-- The bytes from `first` on, tried one after the other.
passes_from : ℕ → ℕ → (ℕ → Bool) → Bool
passes_from first zero test = true
passes_from first (suc count) test = test first && passes_from (first + 1) count test

passes_from-at :
    (count first x : ℕ) (test : ℕ → Bool)
    → passes_from first count test ≡ true
    → first ≤ x
    → x < first + count
    → test x ≡ true
unfolding passes_from
passes_from-at zero first x test passed above below = absurd (omega arith)
passes_from-at (suc count) first x test passed above below =
    ground (arith, passes_from-at count (first + 1) x test)

every_key : passes_from 0 256 (λ key. passes_from 0 256 (comes_back key)) ≡ true
unfolding passes_from
every_key = refl

key_comes_back : (key b : ℕ) → key < 256 → b < 256 → comes_back key b ≡ true
key_comes_back key b key_is_byte b_is_byte =
    let for_key =
      passes_from-at 256 0 key (λ k. passes_from 0 256 (comes_back k)) every_key (omega arith)
        (omega arith) in
    passes_from-at 256 0 b (comes_back key) for_key (omega arith) (omega arith)

xor_twice : (key b : ℕ) → key < 256 → b < 256 → bit_xor (bit_xor b key) key ≡ b
xor_twice key b hk hb = ground (arith, key_comes_back key b hk hb)

xor_byte : (key b : ℕ) → key < 256 → b < 256 → bit_xor b key < 256
xor_byte key b hk hb = ground (arith, key_comes_back key b hk hb)

seq_byte-lt : (seq : ℤ) → seq_byte seq < 256
unfolding seq_byte
seq_byte-lt (pos n) = omega arith
seq_byte-lt (negsuc n) = omega arith

-- A sequence number and a byte that agree up to a multiple of 256, so that the byte is the low one of the number.
abbrev pub IsLowByte : ℤ → ℕ → Type 0
IsLowByte (pos n) key = (m : ℕ) × (n ≡ 256 * m + key)
IsLowByte (negsuc n) key = (m : ℕ) × (n + 1 + key ≡ 256 * m)

seq_byte-IsLowByte : (seq : ℤ) → IsLowByte seq (seq_byte seq)
unfolding seq_byte
seq_byte-IsLowByte (pos n) = (n / 256, omega arith)
seq_byte-IsLowByte (negsuc n) = (n / 256 + 1, omega arith)

-- Each byte is the exclusive or of its original with the key.
abbrev pub AreXored : ℕ → Bytes → Bytes → Type 0
AreXored key [] [] = Unit
AreXored key [] (h ∷ hs) = ⊥
AreXored key (b ∷ bs) [] = ⊥
AreXored key (b ∷ bs) (h ∷ hs) = (h ≡ bit_xor b key) × AreXored key bs hs

xor_decrypt-AreXored :
    (bytes : Bytes) (seq : ℤ) → AreXored (seq_byte seq) bytes (xor_decrypt bytes seq)
unfolding xor_decrypt
xor_decrypt-AreXored [] seq = tt
xor_decrypt-AreXored (b ∷ bs) seq = (refl, xor_decrypt-AreXored bs seq)

xor_decrypt_twice :
    (bytes : Bytes) (seq : ℤ)
    → AreBytes bytes
    → (xor_decrypt (xor_decrypt bytes seq) seq ≡ bytes) × AreBytes (xor_decrypt bytes seq)
unfolding xor_decrypt
xor_decrypt_twice [] seq h = (refl, tt)
xor_decrypt_twice (b ∷ bs) seq (hb, hs) =
    let (twice, bytes) = xor_decrypt_twice bs seq hs in
    let small = seq_byte-lt seq in
    (cc (xor_twice (seq_byte seq) b small hb, twice), (xor_byte (seq_byte seq) b small hb, bytes))

-- Decryption takes each byte to its exclusive or with the lowest byte of the sequence number in two's complement, and
-- decryption by the same number undoes it, so it is also the encryption; bytes become bytes.
pub xor_decrypt-xor_decrypt :
    (bytes : Bytes) (seq : ℤ)
    → AreBytes bytes
    → ((key : ℕ) × (key < 256) × IsLowByte seq key × AreXored key bytes (xor_decrypt bytes seq))
      × (xor_decrypt (xor_decrypt bytes seq) seq ≡ bytes)
      × AreBytes (xor_decrypt bytes seq)
xor_decrypt-xor_decrypt bytes seq h =
    let (twice, hidden) = xor_decrypt_twice bytes seq h in
    (
      (seq_byte seq, seq_byte-lt seq, seq_byte-IsLowByte seq, xor_decrypt-AreXored bytes seq),
      twice,
      hidden,
    )
