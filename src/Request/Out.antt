-- ===== src/Request/Out.antt =====
-- The output buffer that src/RequestProcessor.cpp writes its replies into, and the strings that it
-- takes from the input buffer.
use yamemcached.Base.{
  ℕ, zero, suc, ◌+◌, ◌-◌, ◌*◌, ◌%◌, ◌^◌, Option, none, some, List, [], ◌∷◌, ◌++◌, length, Outcome,
  ok, fault, abort, ◌>>=◌, ltb, leb, ◌==◌, if◌then◌else◌,
}
use yamemcached.Number.{itoa}

-- `outBuffer`: what is written, `outBufferBytes` of it, and `outBuffer.size()`
pub record Out : Type 0 where
  pub bytes : List ℕ
  pub size : ℕ

-- The machine's `size_t` subtraction.
abbrev pub sub_size : ℕ → ℕ → ℕ
sub_size a b = (a + 2 ^ 64 - b) % 2 ^ 64

-- `sso23::string(buf + p, len)`
unfoldable pub text : (ℕ → ℕ) → ℕ → ℕ → List ℕ
text buf p zero = []
text buf p (suc len) = buf p ∷ text buf (p + 1) len

-- The same through a pointer that may be null.
unfoldable pub string_at : (ℕ → ℕ) → Option ℕ → ℕ → Outcome (List ℕ)
string_at buf none len = fault
string_at buf (some p) len = ok (text buf p len)

-- What `strncpy` makes of the `n` bytes of a string: from the first 0 on, all are 0.
unfoldable pub zeros : List ℕ → List ℕ
zeros [] = []
zeros (c ∷ cs) = 0 ∷ zeros cs

unfoldable pub strncpy : List ℕ → List ℕ
strncpy [] = []
strncpy (c ∷ cs) = let rest = strncpy cs in if c == 0 then 0 ∷ zeros cs else c ∷ rest

-- `while (outBuffer.size() - outBufferBytes < need) outBuffer.resize(2*outBuffer.size())`; before
-- the size wraps round there is no memory left, and the exception ends the program.
unfoldable pub grow : ℕ → ℕ → ℕ → ℕ → Outcome ℕ
grow zero need used size = abort
grow (suc rounds) need used size =
    let rest = grow rounds need used (2 * size) in
    if ltb (sub_size size used) need then rest else ok size

unfoldable pub reserve : ℕ → Out → Outcome Out
reserve need out =
    grow 64 need (length out.bytes) out.size >>= λ size. ok (record out { size = size })

-- A copy to `outBuffer.data() + outBufferBytes`, with the advance.
unfoldable pub write : List ℕ → Out → Outcome Out
write bytes out =
    if leb (length out.bytes + length bytes) out.size
    then ok (record out { bytes = out.bytes ++ bytes })
    else fault

-- A reply of a fixed text: `sizeof` counts the 0 behind it.
unfoldable pub reply : List ℕ → Out → Outcome Out
reply bytes out = reserve (length bytes + 1) out >>= λ out'. write bytes out'

-- `itoa` into the buffer; the last digit is the end.
unfoldable pub write_number : ℕ → Out → Outcome Out
write_number n out = itoa n (λ _. 0) >>= λ r. write (text r.0 0 r.1) out
