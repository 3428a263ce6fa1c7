-- ===== src/Request/Replies.antt =====
-- The replies of src/RequestProcessor.cpp, whole.
use yamemcached.Base.{
  ℕ, ◌+◌, ◌^◌, ◌≤◌, ◌<◌, ◌≡◌, refl, List, [], ◌∷◌, ◌++◌, length, length-append, ok, arith,
}
use yamemcached.Request.Info.{StorageValue}
use yamemcached.Request.Out.{Out, write, strncpy}
use yamemcached.Request.Commands.{value_reply, value_text, line_end, some_text_len}
use yamemcached.Request.Room.{
  IsRoomy, IsDecimal, decimal-length, write-lem, write_number-lem, reserve-room, append_all,
  length-strncpy,
}

-- A text of `n` bytes at most is appended where there is room for `m` more behind it.
appended :
    (bytes : List ℕ) (out : Out) (n m : ℕ)
    → length bytes ≤ n
    → length out.bytes + (n + m) ≤ out.size
    → (write bytes out ≡ ok (record out { bytes = out.bytes ++ bytes }))
      × (length (out.bytes ++ bytes) + m ≤ out.size)
appended bytes out n m few room =
    (write-lem bytes out (omega arith), omega (arith, length-append out.bytes bytes))

-- The texts of the reply for a found item.
abbrev pub item_texts : List ℕ → StorageValue → List ℕ → List ℕ → List (List ℕ)
item_texts key v flags_text length_text =
    value_text
    ∷ strncpy key
    ∷ (32 ∷ [])
    ∷ flags_text
    ∷ (32 ∷ [])
    ∷ length_text
    ∷ line_end
    ∷ strncpy v.value
    ∷ line_end
    ∷ []

-- The reply, with what it leaves of the buffer.
pub value_reply-room :
    (key : List ℕ) (v : StorageValue) (out : Out)
    → IsRoomy out
    → length key + length v.value + 128 + length out.bytes ≤ 2 ^ 62
    → v.flags < 2 ^ 64
    → (size : ℕ) × (flags_text : List ℕ) × (length_text : List ℕ) × IsDecimal flags_text v.flags
      × IsDecimal length_text (length v.value)
      × (value_reply key v out
          ≡ ok (record {
            bytes = append_all out.bytes (item_texts key v flags_text length_text);
            size = size;
          }))
      × IsRoomy (record {
        bytes = append_all out.bytes (item_texts key v flags_text length_text);
        size = size;
      })
unfolding value_reply
value_reply-room key v out roomy few h =
    let (size, ran, room, roomy') =
      reserve-room (length key + length v.value + some_text_len) out roomy few in
    let o1 = record out { size = size } in
    let nk = length key in
    let nv = length v.value in
    let (w1, r1) =
      appended value_text o1 6 (nk + (1 + (20 + (1 + (20 + (2 + (nv + 2))))))) (omega arith)
        (omega arith) in
    let o2 = record o1 { bytes = o1.bytes ++ value_text } in
    let (w2, r2) =
      appended (strncpy key) o2 nk (1 + (20 + (1 + (20 + (2 + (nv + 2))))))
        (omega (arith, length-strncpy key)) r1 in
    let o3 = record o2 { bytes = o2.bytes ++ strncpy key } in
    let (w3, r3) = appended (32 ∷ []) o3 1 (20 + (1 + (20 + (2 + (nv + 2))))) (omega arith) r2 in
    let o4 = record o3 { bytes = o3.bytes ++ 32 ∷ [] } in
    let (b4, d4, w4) = write_number-lem v.flags o4 h (omega (arith, r3)) in
    let (_, r4) = appended b4 o4 20 (1 + (20 + (2 + (nv + 2)))) (decimal-length d4) r3 in
    let o5 = record o4 { bytes = o4.bytes ++ b4 } in
    let (w5, r5) = appended (32 ∷ []) o5 1 (20 + (2 + (nv + 2))) (omega arith) r4 in
    let o6 = record o5 { bytes = o5.bytes ++ 32 ∷ [] } in
    let (b6, d6, w6) = write_number-lem nv o6 (omega arith) (omega (arith, r5)) in
    let (_, r6) = appended b6 o6 20 (2 + (nv + 2)) (decimal-length d6) r5 in
    let o7 = record o6 { bytes = o6.bytes ++ b6 } in
    let (w7, r7) = appended line_end o7 2 (nv + 2) (omega arith) r6 in
    let o8 = record o7 { bytes = o7.bytes ++ line_end } in
    let (w8, r8) = appended (strncpy v.value) o8 nv 2 (omega (arith, length-strncpy v.value)) r7 in
    let o9 = record o8 { bytes = o8.bytes ++ strncpy v.value } in
    let (w9, r9) = appended line_end o9 2 0 (omega arith) (omega (arith, r8)) in
    (
      size,
      b4,
      b6,
      d4,
      d6,
      rw (ran, w1, w2, w3, w4, w5, w6, w7, w8, w9) refl,
      record { fits = omega (arith, r9); some = roomy'.some; small = roomy'.small },
    )

-- If the output buffer is in order and what is needed is at most 2^62 bytes, the reply for a
-- found item is the line with its flags and its length in decimal and then its value as strncpy
-- copies it, and no write leaves the buffer.
pub value_reply-lem :
    (key : List ℕ) (v : StorageValue) (out : Out)
    → IsRoomy out
    → length key + length v.value + 128 + length out.bytes ≤ 2 ^ 62
    → v.flags < 2 ^ 64
    → (size : ℕ) × (flags_text : List ℕ) × (length_text : List ℕ) × IsDecimal flags_text v.flags
      × IsDecimal length_text (length v.value)
      × (value_reply key v out
          ≡ ok (record {
            bytes = append_all out.bytes (
                value_text
                ∷ strncpy key
                ∷ (32 ∷ [])
                ∷ flags_text
                ∷ (32 ∷ [])
                ∷ length_text
                ∷ line_end
                ∷ strncpy v.value
                ∷ line_end
                ∷ []);
            size = size;
          }))
value_reply-lem key v out roomy few h =
    let (size, flags_text, length_text, df, dl, replied, _) =
      value_reply-room key v out roomy few h in
    (size, flags_text, length_text, df, dl, replied)
