-- ===== src/Binary/Header.antt =====
-- `BinaryHeader` of src/YAMBinaryProtocolProcessor.h, as it lies in memory: the machine is
-- little-endian, and the code converts no byte order.
use yamemcached.Base.{ℕ, zero, suc, ◌+◌, ◌*◌, ◌/◌, ◌%◌, List, [], ◌∷◌, ◌++◌}

pub record BinaryHeader : Type 0 where
  pub magic : ℕ
  pub op_code : ℕ
  pub key_len : ℕ
  pub extras_len : ℕ
  pub data_type : ℕ
  pub status : ℕ
  pub body_len : ℕ
  pub opaque : ℕ
  pub cas_ticket : ℕ

-- `HEADER_SIZE` and `CAS_OFFSET`
abbrev pub header_size : ℕ
header_size = 24

abbrev pub cas_offset : ℕ
cas_offset = 16

-- A number of `n` bytes at `p`.
unfoldable pub read_number : (ℕ → ℕ) → ℕ → ℕ → ℕ
read_number buf p zero = 0
read_number buf p (suc n) = buf p + 256 * read_number buf (p + 1) n

-- Its bytes.
unfoldable pub bytes_of : ℕ → ℕ → List ℕ
bytes_of zero v = []
bytes_of (suc n) v = v % 256 ∷ bytes_of n (v / 256)

-- The request's header at `p`.
unfoldable pub read_header : (ℕ → ℕ) → ℕ → BinaryHeader
read_header buf p = record {
  magic = read_number buf p 1;
  op_code = read_number buf (p + 1) 1;
  key_len = read_number buf (p + 2) 2;
  extras_len = read_number buf (p + 4) 1;
  data_type = read_number buf (p + 5) 1;
  status = read_number buf (p + 6) 2;
  body_len = read_number buf (p + 8) 4;
  opaque = read_number buf (p + 12) 4;
  cas_ticket = read_number buf (p + 16) 8;
}

-- The 24 bytes that are copied for a reply.
unfoldable pub header_bytes : BinaryHeader → List ℕ
header_bytes h =
    bytes_of 1 h.magic
    ++ (bytes_of 1 h.op_code
        ++ (bytes_of 2 h.key_len
            ++ (bytes_of 1 h.extras_len
                ++ (bytes_of 1 h.data_type
                    ++ (bytes_of 2 h.status
                        ++ (bytes_of 4 h.body_len
                            ++ (bytes_of 4 h.opaque ++ bytes_of 8 h.cas_ticket)))))))
