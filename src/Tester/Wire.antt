-- ===== src/Tester/Wire.antt =====
-- The ten bytes in front of a message of src/mqtt/mqttest.cc: a type of two bytes and an id of eight,
-- the high byte first. Written by send_mqtt_msg, read by dump_im_msg and dump_mqtt.
pub mod RoundTrip
use Prim.Native.Nat.{bit_or}
use ktkkl.Base.{ℕ, ◌+◌, ◌*◌, ◌/◌, ◌%◌, ◌^◌, [], ◌∷◌, ◌++◌, ◌≡◌, refl, Bytes, get_or}

abbrev pub header_size : ℕ
header_size = 10

abbrev pub byte : Bytes → ℕ → ℕ
byte p i = get_or p i 0

-- (p[0] << 8) | p[1]
pub read_type : Bytes → ℕ
read_type p = bit_or (byte p 0 * 2 ^ 8) (byte p 1)

-- The uint64_t of the bytes 2 to 9.
pub read_id : Bytes → ℕ
read_id p =
    bit_or
      (bit_or
        (bit_or
          (bit_or
            (bit_or (bit_or (bit_or (byte p 2 * 2 ^ 56) (byte p 3 * 2 ^ 48)) (byte p 4 * 2 ^ 40))
              (byte p 5 * 2 ^ 32))
            (byte p 6 * 2 ^ 24))
          (byte p 7 * 2 ^ 16))
        (byte p 8 * 2 ^ 8))
      (byte p 9)

-- An unsigned short, and a long by its bit pattern; `& 0xff` and the conversion to `char` keep the low
-- eight bits.
pub header : ℕ → ℕ → Bytes
header type id =
    (type / 2 ^ 8) % 256
    ∷ type % 256
    ∷ (id / 2 ^ 56) % 256
    ∷ (id / 2 ^ 48) % 256
    ∷ (id / 2 ^ 40) % 256
    ∷ (id / 2 ^ 32) % 256
    ∷ (id / 2 ^ 24) % 256
    ∷ (id / 2 ^ 16) % 256
    ∷ (id / 2 ^ 8) % 256
    ∷ id % 256
    ∷ []

-- The buffer that is published: the header and the serialized message.
pub frame : ℕ → ℕ → Bytes → Bytes
unfolding header
frame type id body = header type id ++ body

read_test : read_id (header 0x0102 0x1122_3344_5566_7788) ≡ 0x1122_3344_5566_7788
unfolding read_id header
read_test = refl
